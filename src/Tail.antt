-- ===== src/Tail.antt =====
-- A tailed file and the watch of its directory: classes Tail and Watch of qttail.cpp.
pub mod Choice
pub mod Watch
pub mod Events
pub mod Asserts
pub mod Buffer
pub mod Ready
pub mod Steps
mod Tests
use quicktrace_public.Base.{
  ℕ, zero, suc, ◌+◌, ◌-◌, ◌*◌, ◌/◌, ◌%◌, ◌^◌, Bool, true, false, ◌&&◌, ◌||◌, not,
}
use quicktrace_public.Base.{
  List, [], ◌∷◌, Option, none, some, ◌==◌, ◌!=◌, ltb, leb, if◌then◌else◌, Memory,
}
use quicktrace_public.Reader.{Reader, Messages, make_reader, next_tsc, uint64_max}
use quicktrace_public.Reader.Rewind.{rewind}

pub data Status : Type 0 where
  initializing active delete_pending reinit_pending reinit_ready : Status

-- `next_`: a time stamp and the number of a ring buffer; no number is -1.
abbrev pub Choice : Type 0
Choice = ℕ × Option ℕ

abbrev pub no_choice : Choice
no_choice = (uint64_max, none)

-- The options that pick levels: CHECK_LEVEL, and the bits of the levels.
pub record Levels : Type 0 where
  pub check_level : Bool
  pub mask : ℕ

unfoldable pub level_enabled : Levels → ℕ → Bool
level_enabled o level = not o.check_level || (o.mask / 2 ^ level) % 2 == 1

-- A file; `is_mapped` says that `tfh_` is not null.
pub record Tail : Type 0 where
  pub status : Status
  pub is_mapped : Bool
  pub next : Choice
  pub rbs : List Reader
  pub tsc1 : ℕ

-- A file before its first initialization: the fields that the constructor sets.
abbrev pub blank_tail : Tail
blank_tail = record {
  status = reinit_ready;
  is_mapped = false;
  next = no_choice;
  rbs = [];
  tsc1 = 0;
}

-- What a poll of the file meets: whether the two times in its header are far enough apart, the
-- header, and a snapshot of the mapped file for each round of the search.
pub record Mapped : Type 0 where
  pub is_usable : Bool
  pub file_header_size : ℕ
  pub log_sizes : List ℕ
  pub tsc1 : ℕ
  pub mem : Memory
  pub rounds : List Memory

-- The results: the state after it, an assertion that fails, or an exit of the program.
pub data Poll {ℓ} (A : Type ℓ) : Type ℓ where
  polled : A → Poll A
  assertion : Poll A
  exited : Poll A
  no_round : Poll A

infixl 5 ◌>>=◌
abbrev pub ◌>>=◌ {ℓ κ} : {A : Type ℓ} {B : Type κ} → Poll A → (A → Poll B) → Poll B
polled a >>= f = f a
assertion >>= f = assertion
exited >>= f = exited
no_round >>= f = no_round

unfoldable pub cleanup : Tail → Tail
cleanup t = record t { is_mapped = false }

-- A file that is gone before its first message is dropped at once.
unfoldable pub drop_unread : Status → Tail → Tail
unfolding cleanup
drop_unread initializing t = cleanup t
drop_unread active t = t
drop_unread delete_pending t = t
drop_unread reinit_pending t = t
drop_unread reinit_ready t = t

abbrev with_status : Status → Tail → Tail
with_status s t = record t { status = s }

-- `statusIs`, by the new status and the old.
unfoldable pub change_status : Status → Status → Tail → Poll Tail
unfolding drop_unread
change_status initializing initializing t = polled t
change_status initializing reinit_ready t = polled (with_status initializing t)
change_status initializing active t = assertion
change_status initializing delete_pending t = assertion
change_status initializing reinit_pending t = assertion
change_status active active t = polled t
change_status active initializing t = polled (with_status active t)
change_status active delete_pending t = assertion
change_status active reinit_pending t = assertion
change_status active reinit_ready t = assertion
change_status delete_pending old t = polled (with_status delete_pending (drop_unread old t))
change_status reinit_pending old t = polled (with_status reinit_pending (drop_unread old t))
change_status reinit_ready reinit_pending t = polled (with_status reinit_ready t)
change_status reinit_ready initializing t = polled t
change_status reinit_ready active t = polled t
change_status reinit_ready delete_pending t = polled t
change_status reinit_ready reinit_ready t = polled t

unfoldable pub status_is : Status → Tail → Poll Tail
unfolding change_status
status_is s t = change_status s t.status t

-- The ring buffers, one behind the other; a size is in kilobytes.
unfoldable pub make_readers : ℕ → ℕ → List ℕ → List Reader
make_readers level at' [] = []
make_readers level at' (k ∷ ks) =
    let size = k * 1024 % 2 ^ 32 in
    make_reader level at' (at' + size) ∷ make_readers (level + 1) (at' + size) ks

-- Every enabled ring buffer goes to its first message; a failure ends the program.
unfoldable pub rewind_all : Messages → Bool → Levels → Memory → ℕ → List Reader → Poll (List Reader)
unfolding level_enabled
rewind_all get tail o m level [] = polled []
rewind_all get tail o m level (r ∷ rs) =
    let rest = rewind_all get tail o m (level + 1) rs in
    if level_enabled o level
    then elim (rewind get tail m r) [ none ↦ exited | some r' ↦ rest >>= λ rs'. polled (r' ∷ rs') ]
    else rest >>= λ rs'. polled (r ∷ rs')

-- `initialize( false, false )`
unfoldable pub initialize : Messages → Bool → Levels → Mapped → Tail → Poll (Bool × Tail)
unfolding status_is make_readers rewind_all
initialize get tail o f t = do
  t1 ← status_is initializing t
  let t2 = record t1 { is_mapped = true }
  let filled : Poll (Bool × Tail) = do
    rs ← rewind_all get tail o f.mem 0 (make_readers 0 f.file_header_size f.log_sizes)
    t3 ← status_is active (record t2 { rbs = rs; tsc1 = f.tsc1 })
    polled (true, t3)
  if f.is_usable then filled else polled (false, t2)

-- One round: the first of the ring buffers with the lowest next time stamp.
unfoldable pub scan : Levels → Memory → ℕ → List Reader → Choice → Choice
unfolding level_enabled next_tsc
scan o m level [] best = best
scan o m level (r ∷ rs) best =
    let tsc = next_tsc m r in
    let better = level_enabled o level && (tsc != 0 && ltb tsc best.0) in
    scan o m (level + 1) rs (if better then (tsc, some level) else best)

-- Rounds until two in a row find the same lowest time stamp.
unfoldable pub scan_rounds : Levels → List Memory → ℕ → List Reader → Poll Choice
unfolding scan
scan_rounds o [] prev rs = no_round
scan_rounds o (m ∷ ms) prev rs =
    let found = scan o m 0 rs no_choice in
    let rest = scan_rounds o ms found.0 rs in if found.0 == prev then polled found else rest

-- Without a message, a file that was deleted or made anew is unmapped; else the stamps of the header
-- are looked at again.
unfoldable pub idle : Mapped → Tail → Tail
unfolding cleanup
idle f t = elim t.status [
  | initializing ↦ record t { tsc1 = f.tsc1 }
  | active ↦ record t { tsc1 = f.tsc1 }
  | delete_pending ↦ cleanup t
  | reinit_pending ↦ cleanup t
  | reinit_ready ↦ cleanup t
]

abbrev is_initializing : Status → Bool
is_initializing initializing = true
is_initializing active = false
is_initializing delete_pending = false
is_initializing reinit_pending = false
is_initializing reinit_ready = false

abbrev is_ready : Status → Bool
is_ready reinit_ready = true
is_ready initializing = false
is_ready active = false
is_ready delete_pending = false
is_ready reinit_pending = false

-- Does `nextTsc` go on to look at the ring buffers? Files not initialized yet are tried again.
unfoldable pub ensure_ready : Messages → Bool → Levels → Mapped → Tail → Poll (Bool × Tail)
unfolding initialize
ensure_ready get tail o f t =
    (if is_initializing t.status then initialize get tail o f t else polled (true, t)) >>= λ p.
    if not p.0
    then polled p
    else if p.1.is_mapped
    then polled (true, p.1)
    else if is_ready p.1.status
    then initialize get tail o f p.1
    else polled (false, p.1)

abbrev chosen : Mapped → Choice → Tail → Tail
chosen f (tsc, none) t = idle f (record t { next = (tsc, none) })
chosen f (tsc, some i) t = record t { next = (tsc, some i) }

-- A search, where the file is ready for one.
unfoldable pub search : Messages → Bool → Levels → Mapped → Tail → Poll Tail
unfolding ensure_ready scan_rounds idle
search get tail o f t = ensure_ready get tail o f t >>= λ p.
    let found : Poll Tail =
      scan_rounds o f.rounds uint64_max p.1.rbs >>= λ c. polled (chosen f c p.1) in
    if p.0 then found else polled p.1

-- `nextTsc`: a choice made before stands until its message is consumed.
unfoldable pub next_message : Messages → Bool → Levels → Mapped → Tail → Poll Tail
unfolding search
next_message get tail o f t = elim t.next.1 [ some i ↦ polled t | none ↦ search get tail o f t ]
