-- ===== src/Ring/Tests.antt =====
-- The writer's theorems on concrete logs.
use quicktrace_public.Base.{◌≡◌, refl, arith, ℕ, ◌+◌, [], ◌∷◌, ◌++◌, le_bytes}
use quicktrace_public.Examples.{full_log, log_at, clock, fields, long_field}
use quicktrace_public.Counter.{is_off, counter_index}
use quicktrace_public.Ring.{maybe_wrap, trailer_size}
use quicktrace_public.Ring.Fields.{payload, trace_msg}
use quicktrace_public.Ring.Trace.{IsValid, Message, header_bytes, prepared, trace_msg-Message}
use quicktrace_public.Ring.Bounds.{trace_msg-confined, trace_msg_spills, OutsideRing}

full_log-IsValid : IsValid full_log
full_log-IsValid = record {
  not_null = omega arith;
  header = omega arith;
  low = omega arith;
  high = omega arith;
}

last_log-IsValid : IsValid (log_at 1511)
last_log-IsValid = record {
  not_null = omega arith;
  header = omega arith;
  low = omega arith;
  high = omega arith;
}

trace_msg-Message_example :
    Message
      (prepared clock 5 full_log)
      (trace_msg clock 80 5 fields full_log)
      (maybe_wrap clock full_log).ptr
      (header_bytes clock.now 5 ++ payload 80 fields)
trace_msg-Message_example =
    trace_msg-Message clock 80 5 fields full_log full_log-IsValid
      (unfold is_off counter_index in refl)

trace_msg-confined_example :
    IsValid (trace_msg clock 80 5 fields full_log)
    × ((x : ℕ)
        → OutsideRing full_log x
        → (trace_msg clock 80 5 fields full_log).mem x ≡ full_log.mem x)
trace_msg-confined_example =
    trace_msg-confined clock 80 5 fields full_log full_log-IsValid
      (unfold payload le_bytes in omega arith)

trace_msg_spills_example :
    (trace_msg clock 240 5 (long_field ∷ []) (log_at 1511)).mem (1512 + trailer_size) ≡ 0
trace_msg_spills_example =
    trace_msg_spills clock 240 5 (long_field ∷ []) (log_at 1511) last_log-IsValid
      (unfold is_off counter_index in refl) (omega arith) (unfold payload in omega arith)
      (unfold payload in omega arith)
