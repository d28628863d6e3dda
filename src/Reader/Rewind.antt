-- ===== src/Reader/Rewind.antt =====
-- RingBuffer::fastforward and RingBuffer::rewind of qttail.cpp.
use quicktrace_public.Base.{ℕ, zero, suc, ◌+◌, ◌-◌, Bool, ◌&&◌, ◌||◌}
use quicktrace_public.Base.{Option, none, some, ◌==◌, ltb, leb, if◌then◌else◌, Memory, load}
use quicktrace_public.Reader.{
  Reader, Messages, moved, stayed, broken, skip, uint64_max, corruption_threshold,
}
use quicktrace_public.Reader.{Reason, nothing, message, corrupt, next, message_at}
use quicktrace_public.Reader.Dump.{wrapped}

-- The results of `fastforward`: done, an error of `next`, or the model ran out of fuel.
pub data Forward : Type 0 where
  forward : Reader → Forward
  threw : Reason → Forward
  no_fuel : Forward

-- `fastforward`
unfoldable pub fastforward : Messages → Bool → Memory → ℕ → Reader → Forward
unfolding wrapped
fastforward get tail m zero r = no_fuel
fastforward get tail m (suc fuel) r = elim (skip get tail m r) [
  | moved r' ↦ fastforward get tail m fuel r'
  | stayed ↦ forward (wrapped r)
  | broken why ↦ threw why
]

-- The forward loop of `rewind`, to the point where the writer emitted the last message.
pub data Split : Type 0 where
  split_at : Reader → Split
  give_up : Split
  out_of_fuel : Split

unfoldable pub find_split : Messages → Bool → Memory → ℕ → Reader → Split
unfolding next
find_split get tail m zero r = if ltb r.cur r.fin then out_of_fuel else split_at r
find_split get tail m (suc fuel) r =
    let step : Split = elim (next get tail m uint64_max r) [
      | nothing ↦ split_at r
      | message tsc id ↦ elim (message_at get m id (r.cur + 12)) [
        | none ↦ give_up
        | some n ↦ find_split get tail m fuel (record r { cur = r.cur + (13 + n); last_tsc = tsc })
      ]
      | corrupt why ↦ give_up
    ] in
    if ltb r.cur r.fin then step else split_at r

-- The loop back over the length bytes: the last position and how many messages it moved, and where
-- it stopped.
unfoldable pub walk_back : Memory → ℕ → ℕ → ℕ → ℕ → ℕ → ℕ × ℕ × ℕ
walk_back m split zero cur p n = (cur, p, n)
walk_back m split (suc fuel) cur p n =
    let rest = walk_back m split fuel p (p - (1 + m (p - 1))) (n + 1) in
    if ltb split p then rest else (cur, p, n)

unfoldable pub first_message : Memory → ℕ → Reader → Reader
unfolding walk_back
first_message m e r =
    let split = r.cur + 8 in
    let p = r.start - 4 + e in
    let (cur, q, n) = walk_back m split p r.cur p 0 in
    if leb p split || ltb q split && n == 1
    then record r { cur = r.start }
    else record r { cur = cur }

unfoldable pub settle : Memory → Reader → Reader
settle m r = record r { last_tsc = load m r.cur 8; corruption = 0 }

-- `rewind`; `none` is its `false`.
unfoldable pub rewind : Messages → Bool → Memory → Reader → Option Reader
unfolding find_split first_message settle
rewind get tail m r0 =
    let r = record r0 { corruption = corruption_threshold } in
    let e = load m (r.start - 4) 4 in
    if e == 0 then some (settle m r) else elim (find_split get tail m (r.fin - r.start) r) [
      | split_at r' ↦ some (settle m (first_message m e r'))
      | give_up ↦ none
      | out_of_fuel ↦ none
    ]
