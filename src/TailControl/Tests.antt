-- ===== src/TailControl/Tests.antt =====
-- A watched directory with two files, and events on them.
use quicktrace_public.Base.{◌≡◌, ◌≢◌, refl, arith, Bool, true, false, some, [], ◌∷◌, length}
use quicktrace_public.Base.{
  ℕ, List, Option, none, if◌then◌else◌, Text, text_eq, text_eq→eq, find, Bool-cases, inl, inr, sym,
  ◌∙◌,
}
use quicktrace_public.Examples.{messages, reader, zero_memory, file_name, stream}
use quicktrace_public.Base.{load, le_bytes}
use quicktrace_public.Reader.{Messages, next, skip, make_reader}
use quicktrace_public.Reader.Dump.{Options, Output}
use quicktrace_public.Tail.{
  Tail, Levels, Mapped, Poll, polled, assertion, exited, no_round, ◌>>=◌, no_choice, active,
  delete_pending,
}
use quicktrace_public.Tail.Watch.{deleted, is_waiting, any_waiting}
use quicktrace_public.Tail.Events.{Holds}
use quicktrace_public.TailControl.{
  Watches, Event, bytes, Round, Control, no_best, kind_of, is_bit_set, visit_watches, process_event,
  read_events, tail_many,
}
use quicktrace_public.TailControl.Events.{
  Written, IsWritten, written_all, process_all, read_events-written_all,
}
use quicktrace_public.TailControl.Kept.{IsFollowing, is_descriptor, process_event-asserts}
use quicktrace_public.TailControl.Choice.{IsBest, visit_watches-IsBest}
use quicktrace_public.TailControl.Start.{Opening, wds, is_member, add_dir, open_files}
use quicktrace_public.TailControl.Watched.{
  IsInjective, AreActive, open_files-AreActive, add_dir-twice,
}
use quicktrace_public.TailControl.Ends.{EndsFinished, tail_many-EndsFinished}

-- A file in a directory of its own.
abbrev inotify : Text → Option ℕ
inotify t = if text_eq t (b'd' ∷ []) then some 3 else none

inotify-IsInjective : IsInjective inotify
inotify-IsInjective d d' wd e e' = elim (Bool-cases (text_eq d (b'd' ∷ []))) [
  | inl k ↦ elim (Bool-cases (text_eq d' (b'd' ∷ []))) [
    | inl k' ↦ text_eq→eq d _ k ∙ sym (text_eq→eq d' _ k')
    | inr k' ↦ absurd (some-none wd (sym e' ∙ rw k' refl))
  ]
  | inr k ↦ absurd (some-none wd (sym e ∙ rw k refl))
]
  where
    some-none : (n : ℕ) → ¬ (some n ≡ none)
    some-none n e = cc

abbrev levels : Levels
levels = record { check_level = false; mask = 0 }

abbrev options : Options
options = record {
  tail = true;
  debug = false;
  print_tsc = true;
  print_file_line = false;
  print_qt_file_name = true;
  print_wall_clock_time = false;
}

abbrev gone : Tail
gone = record { status = delete_pending; is_mapped = false; next = no_choice; rbs = []; tsc1 = 4 }

abbrev chosen : Tail
chosen = record {
  status = active;
  is_mapped = true;
  next = (70, some 0);
  rbs = reader ∷ [];
  tsc1 = 4;
}

abbrev watches : Tail → Watches
watches t =
    (3, record { tails = (file_name, gone) ∷ (b'x' ∷ [], t) ∷ []; modifications = false }) ∷ []

-- "x" is deleted: IN_DELETE is 512.
abbrev deletion : Written
deletion = record {
  event = record { wd = 3; kind = deleted; name = b'x' ∷ [] };
  mask = 512;
  cookie = 0;
  padding = 14;
}

deletion-IsWritten : IsWritten deletion
unfolding kind_of is_bit_set
deletion-IsWritten = record {
  wd_fits = omega arith;
  mask_fits = omega arith;
  is_kind = refl;
  len_fits = omega arith;
  is_text = (omega arith, tt);
}

abbrev mapped : Mapped
mapped = record {
  is_usable = true;
  file_header_size = 12392;
  log_sizes = 8 ∷ [];
  tsc1 = 4;
  mem = zero_memory;
  rounds = zero_memory ∷ zero_memory ∷ [];
}

abbrev round : Round
round = record {
  cur_tsc = 90;
  file = λ n k. (messages, mapped);
  mem = zero_memory;
  new_second = false;
  is_good = true;
  wake = record {
    poll_failed = false;
    is_closed = false;
    has_input = true;
    input = bytes (written_all (deletion ∷ []));
  };
}

abbrev control_of : Tail → Control
control_of t = record { watches = watches t; next_second = false }

abbrev output : Output
output = record { last_printed_tsc = 0; lines = [] }

watches-IsFollowing : IsFollowing (3 ∷ []) (watches chosen)
unfolding any_waiting is_waiting
watches-IsFollowing = (refl, (λ e. ground (arith, e), (λ i e. cc, (λ i e. omega arith, tt))), tt)

visit_watches-IsBest_example :
    Holds (λ p. IsBest p.0 p.1) (visit_watches levels round 0 (watches chosen) no_best)
visit_watches-IsBest_example = visit_watches-IsBest levels round (watches chosen)

read_events-written_all_example :
    read_events
      (length (written_all (deletion ∷ [])))
      (written_all (deletion ∷ []))
      (watches chosen)
    ≡ process_all (deletion ∷ []) (watches chosen)
read_events-written_all_example =
    read_events-written_all (length (written_all (deletion ∷ []))) (deletion ∷ []) (watches chosen)
      (deletion-IsWritten, tt) (omega arith)

-- A descriptor of -1: the queue of events overflowed.
abbrev overflow : Event
overflow = record { wd = 4294967295; kind = deleted; name = [] }

process_event-asserts_example :
    (is_descriptor 4294967295 (3 ∷ []) ≡ true → process_event overflow (watches chosen) ≢ assertion)
    × (is_descriptor 4294967295 (3 ∷ []) ≡ false
        → process_event overflow (watches chosen) ≡ assertion)
process_event-asserts_example =
    process_event-asserts (3 ∷ []) overflow (watches chosen) watches-IsFollowing

tail_many-EndsFinished_example :
    Holds
      (EndsFinished (3 ∷ []))
      (tail_many levels options stream (round ∷ []) (control_of chosen) output)
tail_many-EndsFinished_example =
    tail_many-EndsFinished levels options stream (3 ∷ []) (round ∷ []) (control_of chosen) output
      ((deletion ∷ [], refl, (deletion-IsWritten, tt), (refl, tt)), tt) watches-IsFollowing

abbrev goes_on : Poll (Bool × Control × Output) → Bool
goes_on (polled p) = p.0
goes_on assertion = true
goes_on exited = true
goes_on no_round = true

-- Both files are deleted, and there is nothing left.
ends-test : goes_on (tail_many levels options stream (round ∷ []) (control_of gone) output) ≡ false
unfolding tail_many
ends-test = refl

-- The chosen file has no message after all, so the watch is looked at, and its deletion is read.
chosen-test :
    goes_on (tail_many levels options stream (round ∷ []) (control_of chosen) output) ≡ true
unfolding tail_many written_all next load le_bytes
chosen-test = refl

abbrev name_in : ℕ → Text
name_in c = b'd' ∷ b'/' ∷ c ∷ []

abbrev files_of : Text → Messages × Mapped
files_of t = (messages, mapped)

open_files-AreActive_example :
    Holds
      (λ s. IsFollowing (wds s.watches) s.watches × AreActive s)
      (open_files inotify levels 9 files_of (name_in b'x' ∷ name_in b'y' ∷ []))
open_files-AreActive_example =
    open_files-AreActive inotify inotify-IsInjective levels 9 files_of
      (name_in b'x' ∷ name_in b'y' ∷ [])

-- `.` and `./` are the same directory.
abbrev same_dir : Text → Option ℕ
same_dir t = some 3

abbrev opening : Opening
opening = record { by_dir = []; watches = []; active = [] }

add_dir-twice_example :
    Holds
      (λ p. (p.0 ≡ 3) × (is_member 3 (wds p.1.watches) ≡ true) × (is_member 3 p.1.active ≡ false))
      (add_dir same_dir (b'.' ∷ []) opening >>= λ p. add_dir same_dir (b'.' ∷ b'/' ∷ []) p.1)
add_dir-twice_example =
    add_dir-twice same_dir (b'.' ∷ []) (b'.' ∷ b'/' ∷ []) 3 opening dots (unfold find in refl)
      (unfold find in refl) refl refl
  where
    dots : ◌≢◌ {A = Text} (b'.' ∷ []) (b'.' ∷ b'/' ∷ [])
    dots e = cc

abbrev opened : Poll Opening → List ℕ
opened (polled s) = wds s.watches
opened assertion = []
opened exited = []
opened no_round = []

-- Both files go to the one watch.
open_files-test :
    opened (open_files inotify levels 9 files_of (name_in b'x' ∷ name_in b'y' ∷ [])) ≡ 3 ∷ []
unfolding open_files next load le_bytes skip make_reader
open_files-test = refl
