-- ===== src/Tail/Buffer.antt =====
-- Tail::tailBuffer of qttail.cpp: the next message of the chosen ring buffer is dumped.
use quicktrace_public.Base.{ℕ, Bool, true, false, none, some, if◌then◌else◌}
use quicktrace_public.Base.{Memory, get_elem?, set}
use quicktrace_public.Formatter.Stream.{OStream}
use quicktrace_public.Reader.{Reader, Messages, reset}
use quicktrace_public.Reader.Dump.{Options, Output, Dumped, consumed, failed, broken, dump}
use quicktrace_public.Tail.{Tail, Poll, polled, exited, no_choice}

-- The ring buffer `i` after a change.
abbrev pub with_reader : ℕ → Reader → Tail → Tail
with_reader i r t = record t { rbs = set t.rbs i r }

-- After a message is consumed, or its buffer reset, the choice is made anew.
abbrev pub chosen_anew : Tail → Tail
chosen_anew t = record t { next = no_choice }

-- The result of `tailBuffer` with the file and the output after it. A corrupt buffer goes back to
-- its start under TAIL; otherwise the program ends.
unfoldable pub after_dump :
    Options → ℕ → Reader → Output → Tail → Dumped → Poll (Bool × Tail × Output)
unfolding reset
after_dump o i r out t (consumed r' out') = polled (true, chosen_anew (with_reader i r' t), out')
after_dump o i r out t (failed r') = polled (false, with_reader i r' t, out)
after_dump o i r out t (broken why out') =
    if o.tail then polled (false, chosen_anew (with_reader i (reset r).1 t), out') else exited

-- A number of a buffer that is not there does not occur: `nextTsc` gives none.
unfoldable pub tail_buffer :
    Messages → Options → Memory → OStream → ℕ → ℕ → ℕ → Output → Tail → Poll (Bool × Tail × Output)
unfolding after_dump dump
tail_buffer get o m os tsc cur_tsc i out t = elim (get_elem? t.rbs i) [
  | none ↦ exited
  | some r ↦ after_dump o i r out t (dump get o m tsc cur_tsc out os r)
]
