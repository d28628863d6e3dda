-- ===== src/Lib.antt =====
-- QuickTrace writes trace messages into circular logs in a mapped file, and its tools read them back.
--
-- The parts and how they interact. A program traces with the macros of QuickTrace.h: the first time,
-- MsgDesc appends a description of the message (id, source line, text, format letters) to the trace
-- file; each time, RingBuf puts a time stamp, the id and the arguments into the log of the message's
-- level, with a length byte behind them and a zero time stamp to stop at. A full log wraps and may be
-- copied to a forever log. qttail maps the file, reads the descriptions by MessageParser, compiles
-- each to a MessageFormatter, and follows every log by a RingBuffer of its own, always printing the
-- message with the lowest time stamp next; CatControl merges closed files, TailControl follows growing
-- ones and is told by inotify when one is deleted or made anew. A TraceHandle gives each thread the
-- trace file it writes to. qtctl and qtclear change the counters at the head of the file.
--
-- Files and what they model (paths from the repository's root):
--   Counter: MsgCounter, updateLastTsc (QuickTrace.h, QuickTraceRingBuf.h), qtctl.cpp, qtclear.cpp.
--   Backup: TraceFile::maybeBackupBuffer (QuickTrace.cpp).
--   Ring: RingBuf (QuickTraceRingBuf.h, QuickTrace.cpp); Ring/Fields: put and formatString of the traced
--     types (also QuickTraceOptFormatter.h, QuickTraceFormatString.h) and the calls of the QTRACE macros.
--   Formatter: MessageFormatter (MessageFormatter.h, MessageFormatter.cpp); Basic and Float: the length
--     and format functions; Select: the tables; Spec: conversion specifications; Init: init.
--   Dictionary: MsgDesc (QuickTrace.cpp), MessageParser (MessageParser.cpp), Messages (qttail.cpp).
--   Reader: RingBuffer (qttail.cpp); Dump: dump; Rewind: fastforward and rewind.
--   Tail: Tail (qttail.cpp), its statuses and nextTsc; Tail/Watch: Watch; Tail/Buffer: tailBuffer.
--   Cat: CatControl (qttail.cpp), its queue of files.
--   TailControl: TailControl (qttail.cpp), its constructor, its rounds and the events that it reads.
--   Levels: parseLevel and parseLevels (qttail.cpp).
--   Timer: the block timers (QuickTrace.cpp). Files: saveOldFiles (QuickTrace.cpp).
--   Sizes: SizeSpec (QuickTraceFileHeader.h), adjustSizeSpec and the layout of TraceFile (QuickTrace.cpp);
--     Sizes/Parse: the sizes given as a text (QuickTrace.cpp, Qtc.cpp).
--   Generic: the generic formats and their description (QtFmtGeneric.h, QtFmtGeneric.cpp).
--   Go: the messages of the Go interface (QuickTrace.cpp).
--   Handle: TraceHandle and the trace files of the threads (QuickTrace.cpp).
--   HandleMap: traceHandleMap, initialize, close and the child after a fork (QuickTrace.cpp).
--   Base: the shared helpers; Examples: the concrete data of the tests.
-- The other files hold what is proved of these, and the tests.
--
-- How the state corresponds. The mapped file is a function from offsets to bytes, and pointers into it
-- are offsets, none of them 0, the null pointer. A record holds the fields of each class; a method is
-- a function from the record, and from what the machine answers during the call (clocks, system
-- calls), to the new record. A call of qttail sees one snapshot of the file; where it reads the file
-- again in rounds, each round has a snapshot. In Cat the files are closed logs: what is printed of one
-- does not change another. The calls on a TraceHandle are the steps of a relation, so that threads may
-- come and go in any order. Machine integers wrap where the code's do. An exception, an exit, a
-- failing assertion and a read past the end are values of a result type of their own.
--
-- Fuel. The loop over a message's text has the text's length, that over its formats the format's
-- length, the search for the split point the log's size, the way back the position it starts at: each
-- is enough. fastforward and parseLevels take any fuel, since a file or a list can keep them from
-- ending, and Messages::parse too. cat takes any number of rounds, and tailMany the list of those that
-- it meets.
--
-- Not modelled: TimestampFormatter (floating-point arithmetic and strftime), the mutex of the handles
-- and their registry, the C and Python interfaces beyond the sizes, and input and output as such:
-- opening and mapping files, polling, option parsing, the failbit that an error leaves in qttail's
-- output. The text of a floating-point number and of a local time is a parameter, and so are the match
-- of a regular expression and the product of a size with a float factor.
pub mod Base
pub mod Counter
pub mod Backup
pub mod Ring
pub mod Formatter
pub mod Reader
pub mod Tail
pub mod Sizes
pub mod Levels
pub mod Dictionary
pub mod Timer
pub mod Files
pub mod Cat
pub mod Generic
pub mod Go
pub mod Handle
pub mod HandleMap
pub mod TailControl
pub mod Examples
