-- ===== src/Counter.antt =====
-- The per-message counters at the head of a trace file (QuickTraceRingBuf.h, QuickTrace.h) and the
-- two tools that edit them in place: qtctl.cpp sets or clears the off bit of the messages that
-- match, qtclear.cpp zeroes all counters.
use quicktrace_public.Base.{ℕ, ◌+◌, ◌-◌, ◌*◌, ◌/◌, ◌%◌, ◌^◌, Bool, true, false, ◌&&◌, ◌||◌, not}
use quicktrace_public.Base.{List, [], ◌∷◌, Option, none, some, ◌==◌, ◌!=◌, ltb, if◌then◌else◌}
pub mod OffBit
pub mod Control
mod Tests

-- `MsgCounter`. The top bit of `last_tsc` (uint32) turns the message off.
pub record MsgCounter : Type 0 where
  pub count : ℕ
  pub last_tsc : ℕ
  pub tsc_count : ℕ
  pub tsc_self_count : ℕ

-- `x & 0x80000000` of a 32-bit word
abbrev pub off_flag : ℕ → ℕ
off_flag x = x / 2 ^ 31 % 2 * 2 ^ 31

unfoldable pub is_off : ℕ → Bool
is_off x = off_flag x != 0

-- `( uint32_t( tsc >> 28 ) & 0x7FFFFFFF ) | off`: the two parts share no bit
unfoldable pub update_last_tsc : ℕ → ℕ → ℕ
update_last_tsc last_tsc tsc = tsc / 2 ^ 28 % 2 ^ 32 % 2 ^ 31 + off_flag last_tsc

-- The counters of a file as a function of the index; an update at one index.
abbrev pub Counters : Type 0
Counters = ℕ → MsgCounter

unfoldable pub update : Counters → ℕ → MsgCounter → Counters
update cs i c j = if j == i then c else cs j

-- `msgCounter_[ id % numMsgCounters_ ]`
unfoldable pub counter_index : ℕ → ℕ → ℕ
counter_index num id = id % num

-- What qtctl reads of a message descriptor.
pub record Descriptor : Type 0 where
  pub msg_id : ℕ
  pub filename : List ℕ
  pub msg : List ℕ

pub data Command : Type 0 where
  show on off : Command

-- One output line of qtctl: the message and whether it is off now.
pub record Shown : Type 0 where
  pub shown_id : ℕ
  pub shown_off : Bool

-- The command line: the pattern, if any, is given by what it matches (the PCRE library decides),
-- and `msg_index` is `none` for -1.
module _ (matches : Option (List ℕ → Bool)) (msg_index : Option ℕ) where
  unfoldable pub selects : Descriptor → Bool
  selects d =
      elim matches [ none ↦ true | some re ↦ re d.msg || re d.filename ]
      && elim msg_index [ none ↦ true | some i ↦ i == d.msg_id ]

  -- The body of the loop over the messages of one file.
  unfoldable pub control_one : Command → ℕ → Descriptor → Counters → Counters × List Shown
  unfolding selects counter_index update is_off
  control_one cmd num d cs =
      let i = counter_index num d.msg_id in
      let was_off = is_off (cs i).last_tsc in
      let low = (cs i).last_tsc - off_flag (cs i).last_tsc in
      let shown =
        λ (b : Bool). (let s : Shown = record { shown_id = d.msg_id; shown_off = b } in s) ∷ [] in
      let after : Counters × List Shown = elim cmd [
        | show ↦ (cs, shown was_off)
        | on ↦ (update cs i (record (cs i) { last_tsc = low }), if was_off then shown false else [])
        | off ↦ (
          update cs i (record (cs i) { last_tsc = low + 2 ^ 31 }),
          if was_off then [] else shown true,
        )
      ] in
      if selects d then after else (cs, [])

  unfoldable pub control : Command → ℕ → List Descriptor → Counters → Counters
  control cmd num [] cs = cs
  control cmd num (d ∷ ds) cs = control cmd num ds (control_one cmd num d cs).0

-- qtclear: `memset` of the counter area to zero.
unfoldable pub clear : ℕ → Counters → Counters
clear num cs i = if ltb i num then zeroed else cs i
  where
    zeroed : MsgCounter
    zeroed = record { count = 0; last_tsc = 0; tsc_count = 0; tsc_self_count = 0 }
