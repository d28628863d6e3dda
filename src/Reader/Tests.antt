-- ===== src/Reader/Tests.antt =====
-- The reader on concrete files.
use quicktrace_public.Base.{
  ◌≡◌, ◌≢◌, ◌↔◌, ◌⊎◌, refl, arith, ℕ, ◌+◌, ◌-◌, ◌<◌, true, false, [], some, none, length,
}
use quicktrace_public.Base.{subst, ap, read-write_self, Memory, write, le_bytes}
use quicktrace_public.Examples
use quicktrace_public.Examples.{
  host, stream, file_name, text, fields, long_fields, messages, reader, log, clock, made,
  made-fields, made-long_fields,
}
use quicktrace_public.Counter.{is_off, counter_index}
use quicktrace_public.Formatter.{MessageFormatter, message_length, message_format}
use quicktrace_public.Formatter.Select.{built_in}
use quicktrace_public.Formatter.Agree.{built_in-Agrees}
use quicktrace_public.Formatter.Compiled.{message_format-message_length}
use quicktrace_public.Ring.{maybe_wrap}
use quicktrace_public.Ring.Fields.{payload, trace_msg}
use quicktrace_public.Ring.Trace.{IsValid}
use quicktrace_public.Reader.{Reader, next, skip, message, moved, refuse, invalid_length, reset}
use quicktrace_public.Reader.Sound.{Accepted, next-Accepted, next-iff-Accepted}
use quicktrace_public.Reader.Dump.{Options, Output, dump, consumed, line_of}
use quicktrace_public.Base.{leb, if◌then◌else◌, ◌&&◌, ◌!=◌, ◌∷◌}
use quicktrace_public.Reader.Progress.{IsInside, dump-Accepted, next-reset}
use quicktrace_public.Reader.Rewind.{walk_back, find_split, out_of_fuel}
use quicktrace_public.Reader.WalkBack.{IsFirst, walk_back-IsFirst, find_split-ends}
use quicktrace_public.Reader.Stored.{read-Holds, fields_format}
use quicktrace_public.Reader.Lengths.{message_length-payload}
use quicktrace_public.Reader.RoundTrip.{Follows, trace_msg-next, trace_msg-oversize}

log-IsValid : IsValid log
log-IsValid = record {
  not_null = omega arith;
  header = omega arith;
  low = omega arith;
  high = omega arith;
}

reader-Follows : Follows clock log reader
reader-Follows = record {
  same_cur = unfold maybe_wrap in refl;
  same_fin = refl;
  not_older = omega arith;
  positive = omega arith;
  not_last = omega arith;
}

trace_msg-next_example :
    let l' = trace_msg clock 80 5 fields log in
    (next messages true l'.mem 6000000 reader ≡ message clock.now 5)
    × (skip messages true l'.mem reader
        ≡ moved (record reader { cur = l'.ptr; last_tsc = clock.now }))
trace_msg-next_example =
    trace_msg-next clock 80 5 fields log reader messages true 6000000 (built_in host)
      (made fields).1 file_name text 12 (made fields).0 log-IsValid
      (unfold is_off counter_index in refl) (omega arith) reader-Follows (built_in-Agrees host)
      (unfold built_in in refl) (λ e. ground (arith, e)) made-fields refl (omega arith)
      (unfold payload le_bytes in omega arith) (omega arith)

trace_msg-oversize_example :
    next messages true (trace_msg clock 200 6 long_fields log).mem 6000000 reader
    ≡ refuse reader invalid_length
trace_msg-oversize_example =
    trace_msg-oversize clock 200 6 long_fields log reader messages true 6000000 (built_in host)
      (made long_fields).1 file_name text 12 (made long_fields).0 log-IsValid
      (unfold is_off counter_index in refl) (omega arith) reader-Follows (built_in-Agrees host)
      (unfold built_in in refl) (λ e. ground (arith, e)) made-long_fields refl (omega arith)
      (unfold payload le_bytes in omega arith) (omega arith)

-- The log with one message.
abbrev traced : Memory
traced = (trace_msg clock 80 5 fields log).mem

next-iff-Accepted_example :
    (next messages true traced 6000000 reader ≡ message clock.now 5)
    ↔ Accepted messages true traced 6000000 reader clock.now 5
next-iff-Accepted_example = next-iff-Accepted messages true traced 6000000 reader clock.now 5

found :
    (cur_tsc : ℕ) → clock.now < cur_tsc → Accepted messages true traced cur_tsc reader clock.now 5
found cur_tsc later =
    next-Accepted messages true traced cur_tsc reader clock.now 5
      (trace_msg-next clock 80 5 fields log reader messages true cur_tsc (built_in host)
        (made fields).1 file_name text 12 (made fields).0 log-IsValid
        (unfold is_off counter_index in refl) (omega arith) reader-Follows (built_in-Agrees host)
        (unfold built_in in refl) (λ e. ground (arith, e)) made-fields refl (omega arith)
        (unfold payload le_bytes in omega arith) later).0

abbrev options : Options
options = record {
  tail = true;
  debug = false;
  print_tsc = true;
  print_file_line = true;
  print_qt_file_name = false;
  print_wall_clock_time = false;
}

abbrev output : Output
output = record { last_printed_tsc = 0; lines = [] }

agree :
    (f : MessageFormatter)
    → messages 5 ≡ some f
    → (message_format f traced 1016 stream).0 ≡ message_length f traced 1016
agree f k =
    subst (λ g. (message_format g traced 1016 stream).0 ≡ message_length g traced 1016)
      (ap (λ o. elim o [ none ↦ (made fields).0 | some g ↦ g ]) k)
      (message_format-message_length (built_in host) file_name text (fields_format fields) 12
        (made fields).0 (made fields).1 traced 1016 stream (built_in-Agrees host) made-fields)

abbrev accepted : Accepted messages true traced 6000000 reader clock.now 5
accepted = found 6000000 (omega arith)

dump-Accepted_example :
    (r' : Reader) × (out' : Output) × (dump messages options traced clock.now 6000000 output stream
        reader
      ≡ consumed r' out')
    × IsInside r'
    × (r'.cur ≡ (
        if leb 1512 (reader.cur + (13 + accepted.size))
        then 1004
        else reader.cur + (13 + accepted.size)))
    × (r'.last_tsc ≡ clock.now)
    × (r'.corruption ≡ 0)
    × (out' ≡ (
        if options.print_wall_clock_time && accepted.formatter.lineno != 0 then output else record {
          last_printed_tsc = clock.now;
          lines =
              line_of options reader clock.now clock.now output accepted.formatter
                (message_format accepted.formatter traced 1016 stream).1
              ∷ output.lines;
        }))
dump-Accepted_example =
    dump-Accepted messages options traced 6000000 clock.now 5 output stream reader accepted
      (agree accepted.formatter accepted.known) (omega arith) (omega arith)

abbrev lost : Reader
lost = record reader { cur = 1100; last_tsc = 77 }

next-reset_example :
    let (done, r') = reset lost in
    ((done ≡ true)
      × (r'.cur ≡ lost.start)
      × ((tsc id : ℕ)
          → next messages true traced 6000000 r' ≡ message tsc id
          → lost.last_tsc < tsc))
    ⊎ ((done ≡ false) × (r' ≡ lost) × (lost.cur ≡ lost.start))
next-reset_example = next-reset messages true traced 6000000 lost (omega arith)

walk_back-IsFirst_example : IsFirst traced 1010 1004 1025 0 (walk_back traced 1010 1025 1004 1025 0)
walk_back-IsFirst_example = walk_back-IsFirst traced 1010 1025 1004 1025 0 (omega arith)

find_split-ends_example :
    find_split messages true traced (reader.fin - reader.start) reader ≢ out_of_fuel
find_split-ends_example = find_split-ends messages true traced reader refl

message_length-payload_example :
    message_length (made fields).0 (write Examples.zero_memory 40 (payload 80 fields)) 40
    ≡ some (length (payload 80 fields))
message_length-payload_example =
    message_length-payload (built_in host) (made fields).1 file_name text 12 80 fields
      (made fields).0 (write Examples.zero_memory 40 (payload 80 fields)) 40 (built_in-Agrees host)
      (unfold built_in in refl) (λ e. ground (arith, e)) made-fields (omega arith)
      (read-Holds _ 40 (payload 80 fields)
        (read-write_self Examples.zero_memory 40 (payload 80 fields)))
