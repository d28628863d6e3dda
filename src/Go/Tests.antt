-- ===== src/Go/Tests.antt =====
-- A byte and a string.
use quicktrace_public.Base.{
  ◌≡◌, refl, arith, List, [], ◌∷◌, map, Memory, write, read-write_self, le_bytes,
}
use quicktrace_public.Examples.{log, clock, zero_memory}
use quicktrace_public.Ring.Fields.{Arg, u8, str, plain, trace_msg}
use quicktrace_public.Go.{full_msg, go_argument}
use quicktrace_public.Go.Encoded.{go_len, serialized, full_msg-trace_msg}

abbrev arguments : List Arg
arguments = u8 7 ∷ str (b'a' ∷ b'b' ∷ []) ∷ []

abbrev buffer : Memory
buffer = write zero_memory 0 (serialized arguments)

full_msg-trace_msg_example :
    full_msg clock 80 5 buffer (map go_len arguments) log
    ≡ (clock.now, trace_msg clock 80 5 (map plain arguments) log)
full_msg-trace_msg_example =
    full_msg-trace_msg clock 80 5 buffer arguments log (omega arith)
      (unfold le_bytes in omega arith) (read-write_self zero_memory 0 (serialized arguments))

-- The length of a string of 1024 characters reads as the mask of a byte.
long-test : (go_argument 80 buffer 0 1024).1 ≡ 1
unfolding go_argument
long-test = refl
