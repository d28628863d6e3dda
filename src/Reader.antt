-- ===== src/Reader.antt =====
-- The reader of a circular log: class RingBuffer of qttail.cpp. Addresses are offsets in the mapped
-- file, which stays the same during a call; `get` is `Messages::get`, `none` its null pointer.
pub mod Dump
pub mod Rewind
pub mod Sound
pub mod Progress
pub mod Printed
pub mod Stored
pub mod Lengths
pub mod RoundTrip
pub mod WalkBack
mod Tests
use quicktrace_public.Base.{ℕ, zero, suc, ◌+◌, ◌-◌, ◌%◌, ◌^◌, Bool, true, false, ◌&&◌, ◌||◌, not}
use quicktrace_public.Base.{
  List, [], ◌∷◌, Option, none, some, ◌==◌, ◌!=◌, ltb, leb, if◌then◌else◌, Memory, load,
}
use quicktrace_public.Formatter.{MessageFormatter, message_length}

-- The fields of `RingBuffer`.
pub record Reader : Type 0 where
  pub corruption : ℕ
  pub level : ℕ
  pub start : ℕ
  pub fin : ℕ
  pub cur : ℕ
  pub last_tsc : ℕ

abbrev pub uint64_max : ℕ
uint64_max = 2 ^ 64 - 1

abbrev pub corruption_threshold : ℕ
corruption_threshold = 1024

-- The constructor: the log's end offset is skipped, its trailer left out.
unfoldable pub make_reader : ℕ → ℕ → ℕ → Reader
make_reader level start fin = record {
  corruption = 0;
  level = level;
  start = start + 4;
  fin = fin - 256;
  cur = start + 4;
  last_tsc = 0;
}

-- Why a message is not accepted.
pub data Reason : Type 0 where
  invalid_tsc invalid_id invalid_data invalid_length invalid_next_tsc : Reason

-- The results of `next`: zero, a message with its time stamp and id, a CorruptionError.
pub data Outcome : Type 0 where
  nothing : Outcome
  message : ℕ → ℕ → Outcome
  corrupt : Reason → Outcome

unfoldable pub next_tsc : Memory → Reader → ℕ
next_tsc m r = let tsc = load m r.cur 8 in if r.cur == r.start && ltb tsc r.last_tsc then 0 else tsc

unfoldable pub is_valid_tsc : ℕ → ℕ → Reader → Bool
is_valid_tsc tsc cur_tsc r = ltb 0 tsc && leb r.last_tsc tsc && ltb tsc cur_tsc

-- An error after many attempts; before that, a message not there yet.
unfoldable pub refuse : Reader → Reason → Outcome
refuse r why = if leb corruption_threshold r.corruption then corrupt why else nothing

-- The time stamp behind the message, which ends at `pos`; `none` if it is one in the trailer. All
-- ones in the trailer mean that the log may have gone on at its start.
unfoldable pub stamp_behind : Bool → Memory → Reader → ℕ → Option ℕ
stamp_behind tail m r pos =
    let t = load m pos 8 in
    if t != 0 && leb r.fin pos
    then (if t == uint64_max then some (if tail then load m r.start 8 else 0) else none)
    else some t

unfoldable pub check_stamp : Reader → ℕ → ℕ → ℕ → Option ℕ → Outcome
unfolding refuse
check_stamp r cur_tsc tsc id none = refuse r invalid_next_tsc
check_stamp r cur_tsc tsc id (some t) =
    if t != 0 && (ltb t tsc || ltb cur_tsc t) then refuse r invalid_next_tsc else message tsc id

-- The length byte must be what the decoding says, and the stamp behind it fit.
unfoldable pub check_length : Bool → Memory → Reader → ℕ → ℕ → ℕ → Option ℕ → Outcome
unfolding stamp_behind check_stamp
check_length tail m r cur_tsc tsc id none = refuse r invalid_data
check_length tail m r cur_tsc tsc id (some n) =
    if n + 12 != m (r.cur + (n + 12))
    then refuse r invalid_length
    else check_stamp r cur_tsc tsc id (stamp_behind tail m r (r.cur + 13 + n))

unfoldable pub check_message :
    Bool → Memory → Reader → ℕ → ℕ → ℕ → Option MessageFormatter → Outcome
unfolding check_length
check_message tail m r cur_tsc tsc id none = refuse r invalid_id
check_message tail m r cur_tsc tsc id (some f) =
    check_length tail m r cur_tsc tsc id (message_length f m (r.cur + 12))

abbrev pub Messages : Type 0
Messages = ℕ → Option MessageFormatter

-- `next`; `tail` is the option TAIL.
unfoldable pub next : Messages → Bool → Memory → ℕ → Reader → Outcome
unfolding next_tsc is_valid_tsc check_message
next get tail m cur_tsc r =
    let tsc = next_tsc m r in
    let id = load m (r.cur + 8) 4 in
    if tsc == 0
    then nothing
    else if not (is_valid_tsc tsc cur_tsc r)
    then refuse r invalid_tsc
    else check_message tail m r cur_tsc tsc id (get id)

-- The results of `skip`: whether it moved, or the error of `next`.
pub data Skip : Type 0 where
  moved : Reader → Skip
  stayed : Skip
  broken : Reason → Skip

abbrev pub message_at : Messages → Memory → ℕ → ℕ → Option ℕ
message_at get m id a = elim (get id) [ none ↦ none | some f ↦ message_length f m a ]

unfoldable pub advance : Reader → ℕ → Option ℕ → Skip
advance r tsc none = stayed
advance r tsc (some n) = moved (record r { cur = r.cur + (13 + n); last_tsc = tsc })

unfoldable pub skip_outcome : Messages → Memory → Reader → Outcome → Skip
unfolding advance
skip_outcome get m r nothing = stayed
skip_outcome get m r (message tsc id) = advance r tsc (message_at get m id (r.cur + 12))
skip_outcome get m r (corrupt why) = broken why

unfoldable pub skip : Messages → Bool → Memory → Reader → Skip
unfolding next skip_outcome
skip get tail m r = skip_outcome get m r (next get tail m uint64_max r)

-- `reset`: to the start of the log, for messages newer than the last one only.
unfoldable pub reset : Reader → Bool × Reader
reset r =
    if r.cur == r.start
    then (false, r)
    else (true, record r { corruption = 0; cur = r.start; last_tsc = (r.last_tsc + 1) % 2 ^ 64 })
