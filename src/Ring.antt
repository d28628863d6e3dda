-- ===== src/Ring.antt =====
-- The writer of a trace file's circular logs: class RingBuf of QuickTraceRingBuf.h and QuickTrace.cpp.
-- Addresses are offsets in the mapped file, so that no ring starts at 0, the null pointer.
pub mod Fields
pub mod Layout
pub mod Trace
pub mod Bounds
mod Tests
use quicktrace_public.Base.{ℕ, ◌+◌, ◌-◌, ◌*◌, ◌/◌, ◌%◌, ◌^◌, Bool, true, false, ◌&&◌, ◌||◌, not}
use quicktrace_public.Base.{List, [], ◌∷◌, Option, none, some, ◌==◌, ◌!=◌, ltb, leb, if◌then◌else◌}
use quicktrace_public.Base.{◌++◌, Memory, write, le_bytes, length, replicate, zero, suc}
use quicktrace_public.Backup.{ForeverLog, BackupIo, maybe_backup_buffer}
use quicktrace_public.Counter.{MsgCounter, Counters, is_off, update_last_tsc, counter_index, update}

abbrev pub trailer_size : ℕ
trailer_size = 256

-- The fields of `RingBuf`: four pointers, and whether `qtFile_` is set.
pub record Ring : Type 0 where
  pub buf : ℕ
  pub buf_end : ℕ
  pub ptr : ℕ
  pub msg_start : ℕ
  pub has_file : Bool

-- The last time stamp in the file header: `tsc1`, `monotime1` (in nanoseconds), `utc1` (in µs).
pub record Stamp : Type 0 where
  pub tsc1 : ℕ
  pub monotime1 : ℕ
  pub utc1 : ℕ

-- What the ring writes to: the mapped file, its counters, the stamp in its header, and the
-- forever log of its handle.
pub record File : Type 0 where
  pub mem : Memory
  pub counters : Counters
  pub num_msg_counters : ℕ
  pub stamp : Stamp
  pub forever : ForeverLog

-- What the machine answers during a call: the clocks read by `takeTimestamp`, the reading of
-- `rdtsc` in `startMsg`, and the system calls of a backup.
pub record Clock : Type 0 where
  pub wrap_tsc : ℕ
  pub mono : ℕ
  pub utc : ℕ
  pub now : ℕ
  pub io : BackupIo

pub record Log : Type 0 where
  pub ring : Ring
  pub open ring use *
  pub file : File
  pub open file use *

-- `memcpy` into the file at an address.
unfoldable pub poke : ℕ → List ℕ → File → File
poke a bs f = record f { mem = write f.mem a bs }

-- A new stamp is taken when a million cycles have passed (`tsc - sfh->tsc1` wraps).
unfoldable pub take_timestamp : Clock → File → File
take_timestamp c f =
    if ltb 1000000 ((c.wrap_tsc + 2 ^ 64 - f.stamp.tsc1) % 2 ^ 64)
    then record f { stamp = record { tsc1 = c.wrap_tsc; monotime1 = c.mono; utc1 = c.utc } }
    else f

-- `doWrap`: restore the 0xff at the old position, note it in the ring's header, go to the start.
unfoldable pub do_wrap : Clock → Log → Log
unfolding poke take_timestamp
do_wrap c l =
    let f = poke l.buf (le_bytes 4 (l.ptr - l.buf)) (poke l.ptr (replicate 8 255) l.file) in
    record {
      ring = record (l.ring) { ptr = l.buf + 4 };
      file = if l.has_file then take_timestamp c f else f;
    }

unfoldable pub maybe_wrap : Clock → Log → Log
unfolding do_wrap
maybe_wrap c l =
    let w = do_wrap c l in
    if leb l.buf_end l.ptr
    then record w { file = record (w.file) { forever = maybe_backup_buffer c.io w.forever } }
    else l

-- `bufIs`: the trailer is filled with 0xff, and a zero time stamp marks the empty buffer.
unfoldable pub buf_is : Clock → ℕ → ℕ → Log → Log
unfolding do_wrap poke
buf_is c buf size l =
    let last = buf + size - trailer_size in
    let blank : Log = record {
      ring = record (l.ring) { buf = buf; buf_end = last; ptr = buf };
      file = poke last (replicate trailer_size 255) l.file;
    } in
    let w = do_wrap c blank in record w { file = poke w.ptr (replicate 8 0) w.file }

unfoldable pub enabled : Log → Bool
enabled l = l.msg_start != 0

-- The code of `push`: copy the bytes of a value and advance.
unfoldable pub push_bytes : List ℕ → Log → Log
unfolding poke
push_bytes bs l = record {
  ring = record (l.ring) { ptr = l.ptr + length bs };
  file = poke l.ptr bs l.file;
}

-- The counter of a message after one more hit.
unfoldable pub hit : ℕ → MsgCounter → MsgCounter
unfolding update_last_tsc
hit tsc mc = record mc {
  last_tsc = update_last_tsc mc.last_tsc tsc;
  count = (mc.count + 1) % 2 ^ 32;
}

-- `startMsg`: wrap if the last message reached the trailer, write time stamp and id unless the
-- message is turned off, and count the hit either way.
unfoldable pub start_msg : Clock → ℕ → Log → Log
start_msg c id l =
    let w = maybe_wrap c l in
    let i = counter_index l.num_msg_counters id in
    let header = le_bytes 8 c.now ++ le_bytes 4 id in
    let opened =
      if is_off (l.counters i).last_tsc
      then record w { ring = record (w.ring) { msg_start = 0 } }
      else push_bytes header (record w { ring = record (w.ring) { msg_start = w.ptr } }) in
    record opened {
      file = record (opened.file) { counters = update l.counters i (hit c.now (l.counters i)) };
    }

-- `endMsg`: the length byte (a `char`), then a zero time stamp for the reader to stop at.
unfoldable pub end_msg : Log → Log
unfolding poke
end_msg l =
    let len = (l.ptr - l.msg_start) % 256 in
    if enabled l
    then record {
      ring = record (l.ring) { ptr = l.ptr + 1 };
      file = poke (l.ptr + 1) (replicate 8 0) (poke l.ptr (len ∷ []) l.file);
    }
    else l
