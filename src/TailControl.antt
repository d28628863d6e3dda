-- ===== src/TailControl.antt =====
-- The tailing of files that grow: class TailControl of qttail.cpp.
pub mod Events
pub mod Kept
pub mod Rounds
pub mod Choice
pub mod Ends
pub mod Start
pub mod Opened
pub mod Watched
mod Tests
use quicktrace_public.Base.{ℕ, zero, suc, ◌+◌, ◌/◌, ◌%◌, ◌^◌, Bool, true, false, ◌&&◌, ◌||◌, not}
use quicktrace_public.Base.{List, [], ◌∷◌, Option, none, some, ◌==◌, ltb, if◌then◌else◌}
use quicktrace_public.Base.{Text, Memory, length, take, drop, get_elem?, set, le_value}
use quicktrace_public.Formatter.Stream.{OStream}
use quicktrace_public.Reader.{Messages, uint64_max}
use quicktrace_public.Reader.Dump.{Options, Output}
use quicktrace_public.Tail.{
  Tail, Status, initializing, active, delete_pending, reinit_pending, reinit_ready, Levels, Mapped,
  Poll, polled, assertion, exited, ◌>>=◌, next_message,
}
use quicktrace_public.Tail.Buffer.{tail_buffer}
use quicktrace_public.Tail.Watch.{Watch, Kind, created, deleted, modified, other, process}

-- `watches_`, in the order of the watch descriptors.
abbrev pub Watches : Type 0
Watches = List (ℕ × Watch)

-- The fields of an `inotify_event` that are read: `wd`, and of the others what `process` looks at.
pub record Event : Type 0 where
  pub wd : ℕ
  pub kind : Kind
  pub name : Text

-- IN_CREATE, IN_DELETE and IN_MODIFY are the bits 8, 9 and 1.
unfoldable pub is_bit_set : ℕ → ℕ → Bool
is_bit_set bit mask = (mask / 2 ^ bit) % 2 == 1

unfoldable pub kind_of : ℕ → Kind
unfolding is_bit_set
kind_of mask =
    if is_bit_set 8 mask
    then created
    else if is_bit_set 9 mask
    then deleted
    else if is_bit_set 1 mask
    then modified
    else other

-- A text up to its terminating zero.
unfoldable pub c_string : List ℕ → Text
c_string [] = []
c_string (b ∷ bs) = let rest = c_string bs in if b == 0 then [] else b ∷ rest

-- The event at the start of some bytes: four words, `cookie` the third and `len` the last, and the name.
unfoldable pub event_at : List ℕ → Event
unfolding kind_of c_string
event_at bs = record {
  wd = le_value (take 4 bs);
  kind = kind_of (le_value (take 4 (drop 4 bs)));
  name = c_string (drop 16 bs);
}

unfoldable pub event_size : List ℕ → ℕ
event_size bs = 16 + le_value (take 4 (drop 12 bs))

-- The watch of an event processes it; the assertion is that there is one.
unfoldable pub process_event : Event → Watches → Poll Watches
unfolding process
process_event e [] = assertion
process_event e ((wd, w) ∷ ws) =
    let later = process_event e ws >>= λ ws'. polled ((wd, w) ∷ ws') in
    if wd == e.wd then (process e.kind e.name w >>= λ w'. polled ((wd, w') ∷ ws)) else later

-- The loop over the bytes that were read. An event has sixteen bytes at least.
unfoldable pub read_events : ℕ → List ℕ → Watches → Poll Watches
unfolding process_event event_at event_size
read_events fuel [] ws = polled ws
read_events zero (b ∷ bs) ws = polled ws
read_events (suc fuel) (b ∷ bs) ws = process_event (event_at (b ∷ bs)) ws >>= λ ws'.
    read_events fuel (drop (event_size (b ∷ bs)) (b ∷ bs)) ws'

-- What `read` gives: an error, nothing yet, or the bytes of events, of whole events always.
pub data Read : Type 0 where
  failed nothing_yet : Read
  bytes : List ℕ → Read

-- What `watch` meets: whether `poll` fails, reports an error of stdout or events, and the read.
pub record Wake : Type 0 where
  pub poll_failed : Bool
  pub is_closed : Bool
  pub has_input : Bool
  pub input : Read

unfoldable pub read_all : Read → Watches → Poll Watches
unfolding read_events
read_all failed ws = exited
read_all nothing_yet ws = polled ws
read_all (bytes bs) ws = read_events (length bs) bs ws

-- `watch( doPoll )`; `pabort` is an exit as well.
unfoldable pub watch : Bool → Wake → Watches → Poll Watches
unfolding read_all
watch true a ws =
    if a.poll_failed
    then exited
    else if a.is_closed
    then exited
    else if a.has_input
    then read_all a.input ws
    else polled ws
watch false a ws = read_all a.input ws

-- What a round of the main loop meets: the clock; of the file at a position of a watch its messages and
-- what is mapped; at the dump, the bytes of the file and whether a new second begins; whether stdout
-- is still good; and what `watch` meets.
pub record Round : Type 0 where
  pub cur_tsc : ℕ
  pub file : ℕ → ℕ → Messages × Mapped
  pub mem : Memory
  pub new_second : Bool
  pub is_good : Bool
  pub wake : Wake

-- `watches_`, and the static `nextSecond_`.
pub record Control : Type 0 where
  pub watches : Watches
  pub next_second : Bool

-- `minTsc`; `minTail`, the position of its watch and its position there, with `minBufNum`; and
-- `allFilesDeleted`.
pub record Best : Type 0 where
  pub tsc : ℕ
  pub min_tail : Option (ℕ × ℕ × ℕ)
  pub all_deleted : Bool

abbrev pub no_best : Best
no_best = record { tsc = uint64_max; min_tail = none; all_deleted = true }

abbrev pub is_deleted : Status → Bool
is_deleted initializing = false
is_deleted active = false
is_deleted delete_pending = true
is_deleted reinit_pending = false
is_deleted reinit_ready = false

-- A file after its `nextTsc`.
unfoldable pub look_at : ℕ → ℕ → Tail → Best → Best
look_at n k t best = elim t.next.1 [
  | none ↦ if is_deleted t.status then best else record best { all_deleted = false }
  | some i ↦
      if ltb t.next.0 best.tsc
      then record best { tsc = t.next.0; min_tail = some (n, k, i) }
      else best
]

module _ (levels : Levels) (r : Round) where
  -- The files of watch `n` from position `k` on.
  unfoldable pub visit_tails : ℕ → ℕ → List (Text × Tail) → Best → Poll (List (Text × Tail) × Best)
  unfolding next_message look_at
  visit_tails n k [] best = polled ([], best)
  visit_tails n k ((name, t) ∷ ts) best =
      next_message (r.file n k).0 true levels (r.file n k).1 t >>= λ t'.
      visit_tails n (k + 1) ts (look_at n k t' best) >>= λ p. polled ((name, t') ∷ p.0, p.1)

  unfoldable pub visit_watches : ℕ → Watches → Best → Poll (Watches × Best)
  unfolding visit_tails
  visit_watches n [] best = polled ([], best)
  visit_watches n ((wd, w) ∷ ws) best = visit_tails n 0 w.tails best >>= λ p.
      visit_watches (n + 1) ws p.1 >>= λ q. polled ((wd, record w { tails = p.0 }) ∷ q.0, q.1)

-- A file that is not there does not occur.
unfoldable pub dump_at :
    Options → OStream → Round → ℕ → ℕ × ℕ × ℕ → Watches → Output → Poll (Bool × Watches × Output)
unfolding tail_buffer
dump_at options os r tsc (n, k, i) ws out = elim (get_elem? ws n) [
  | none ↦ exited
  | some (wd, w) ↦ elim (get_elem? w.tails k) [
    | none ↦ exited
    | some (name, t) ↦ tail_buffer (r.file n k).0 options r.mem os tsc r.cur_tsc i out t >>= λ p.
        polled (p.0, set ws n (wd, record w { tails = set w.tails k (name, p.1) }), p.2)
  ]
]

-- Files are looked at after a dump that fails, and when a new second begins.
unfoldable pub after_message :
    Round → Bool → Bool × Watches × Output → Poll (Bool × Control × Output)
unfolding watch
after_message r second (ok, ws, out) =
    if not ok || second
    then (watch false r.wake ws >>= λ ws'.
        polled (true, record { watches = ws'; next_second = false }, out))
    else polled (true, record { watches = ws; next_second = second }, out)

module _ (levels : Levels) (options : Options) (os : OStream) where
  -- A round of `tailMany`; the flag says whether there is another one.
  unfoldable pub tail_many_round : Round → Control → Output → Poll (Bool × Control × Output)
  unfolding visit_watches dump_at after_message watch
  tail_many_round r c out = visit_watches levels r 0 c.watches no_best >>= λ p.
      let idle : Poll (Bool × Control × Output) =
        if not r.is_good
        then exited
        else if p.1.all_deleted
        then polled (false, record c { watches = p.0 }, out)
        else (watch true r.wake p.0 >>= λ ws. polled (true, record c { watches = ws }, out)) in
      elim p.1.min_tail [
        | none ↦ idle
        | some place ↦ dump_at options os r p.1.tsc place p.0 out >>= λ q.
            after_message r (c.next_second || r.new_second) q
      ]

  -- `tailMany`, over the rounds that it meets.
  unfoldable pub tail_many : List Round → Control → Output → Poll (Bool × Control × Output)
  unfolding tail_many_round
  tail_many [] c out = polled (true, c, out)
  tail_many (r ∷ rs) c out = tail_many_round r c out >>= λ p.
      let more = tail_many rs p.1 p.2 in if p.0 then more else polled p

  -- Tail's `tail`
  unfoldable pub tail_file : Round → Tail → Output → Poll (Bool × Tail × Output)
  unfolding next_message tail_buffer
  tail_file r t out = next_message (r.file 0 0).0 true levels (r.file 0 0).1 t >>= λ t'.
      elim t'.next.1 [
        | none ↦ polled (false, t', out)
        | some i ↦ tail_buffer (r.file 0 0).0 options r.mem os t'.next.0 r.cur_tsc i out t'
      ]

  -- A round of `tailOne`, whose file is the only one of the only watch.
  unfoldable pub tail_one_round : Round → Control → Output → Poll (Bool × Control × Output)
  unfolding tail_file after_message watch
  tail_one_round r c out = elim c.watches [
    | [] ↦ exited
    | ((wd, w) ∷ ws) ↦ elim w.tails [
      | [] ↦ exited
      | ((name, t) ∷ ts) ↦ tail_file r t out >>= λ p.
          let ws' : Watches = (wd, record w { tails = (name, p.1) ∷ ts }) ∷ ws in
          let quiet : Poll (Bool × Control × Output) =
            if not r.is_good
            then exited
            else if is_deleted p.1.status
            then polled (false, record c { watches = ws' }, p.2)
            else (watch true r.wake ws' >>= λ ws''.
                polled (true, record c { watches = ws'' }, p.2)) in
          if p.0 then after_message r (c.next_second || r.new_second) (true, ws', p.2) else quiet
    ]
  ]
