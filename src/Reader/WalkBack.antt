-- ===== src/Reader/WalkBack.antt =====
-- The loops of RingBuffer::rewind of qttail.cpp: they end, and the way back ends at the first message
-- behind the split point.
use quicktrace_public.Base.{ℕ, zero, suc, ◌+◌, ◌-◌, ◌≤◌, ◌<◌, ◌≡◌, ◌≢◌, refl, ◌⊎◌, inl, inr, arith}
use quicktrace_public.Base.{
  subst, Bool, true, false, Option, none, some, Bool-cases, ltb, if◌then◌else◌, Memory,
}
use quicktrace_public.Reader.{
  Reader, Messages, Outcome, nothing, message, corrupt, next, message_at, uint64_max,
}
use quicktrace_public.Reader.Rewind.{walk_back, find_split, Split, split_at, give_up, out_of_fuel}

-- From one end of a message to an earlier one, by the length bytes.
pub data Back (m : Memory) (p : ℕ) : ℕ → Type 0 where
  here : Back m p p
  earlier : {q : ℕ} → Back m p q → Back m p (q - (1 + m (q - 1)))

earlier_first : (m : Memory) (p q : ℕ) → Back m (p - (1 + m (p - 1))) q → Back m p q
earlier_first m p q here = earlier here
earlier_first m p q (earlier {q = q'} b) = earlier (earlier_first m p q' b)

-- The result of the way back from `p`: it stops at or before the split point, and has either not
-- moved, or moved to a message behind the split point whose predecessor starts where it stopped.
abbrev pub IsFirst : Memory → ℕ → ℕ → ℕ → ℕ → ℕ × ℕ × ℕ → Type 0
IsFirst m split cur p n (c, q, k) =
    (q ≤ split)
    × Back m p q
    × (((c ≡ cur) × (k ≡ n) × (q ≡ p) × (p ≤ split))
        ⊎ ((n < k) × (split < c) × Back m p c × (q ≡ c - (1 + m (c - 1)))))

moved_back :
    (m : Memory) (split cur p n : ℕ) (x : ℕ × ℕ × ℕ)
    → split < p
    → IsFirst m split p (p - (1 + m (p - 1))) (n + 1) x
    → IsFirst m split cur p n x
moved_back m split cur p n (c, q, k) h (low, b, inl (e, e', e'', l)) =
    (low, earlier_first m p q b, inr (omega (arith, e'), rw e h, rw e here, rw (e, e'') refl))
moved_back m split cur p n (c, q, k) h (low, b, inr (l, s, b', e)) =
    (low, earlier_first m p q b, inr (omega arith, s, earlier_first m p c b', e))

-- The way back over the length bytes ends, and at the first message behind the split point: every
-- message it passes lies behind that point, and the one before does not.
pub walk_back-IsFirst :
    (m : Memory) (split fuel cur p n : ℕ)
    → p ≤ fuel
    → IsFirst m split cur p n (walk_back m split fuel cur p n)
unfolding walk_back
walk_back-IsFirst m split zero cur p n h = (omega arith, here, inl (refl, refl, refl, omega arith))
walk_back-IsFirst m split (suc fuel) cur p n h = elim (Bool-cases (ltb split p)) [
  | inl e ↦ rw e (
      moved_back m split cur p n _ (ground (arith, e))
        (walk_back-IsFirst m split fuel p (p - (1 + m (p - 1))) (n + 1) (ground (arith, e))))
  | inr e ↦ rw e (ground (arith, e), here, inl (refl, refl, refl, ground (arith, e)))
]

abbrev Settled : Split → Type 0
Settled (split_at r) = Unit
Settled give_up = Unit
Settled out_of_fuel = ⊥

if-Settled : (b : Bool) (x y : Split) → Settled x → Settled y → Settled (if b then x else y)
if-Settled true x y h k = h
if-Settled false x y h k = k

find_split-Settled :
    (get : Messages) (tail : Bool) (m : Memory) (fuel : ℕ) (r : Reader)
    → r.fin ≤ r.cur + fuel
    → Settled (find_split get tail m fuel r)
unfolding find_split
find_split-Settled get tail m zero r h = let e : ltb r.cur r.fin ≡ false = ground arith in rw e tt
find_split-Settled get tail m (suc fuel) r h =
    if-Settled (ltb r.cur r.fin) _ _
      (on_outcome (λ r' k. find_split-Settled get tail m fuel r' k) (next get tail m uint64_max r))
      tt
  where
    on_size :
        ((r' : Reader) → r'.fin ≤ r'.cur + fuel → Settled (find_split get tail m fuel r'))
        → (tsc : ℕ) (s : Option ℕ)
        → Settled (elim s [
          | none ↦ give_up
          | some n ↦
              find_split get tail m fuel (record r { cur = r.cur + (13 + n); last_tsc = tsc })
        ])
    on_size k tsc none = tt
    on_size k tsc (some n) = k _ (omega arith)

    on_outcome :
        ((r' : Reader) → r'.fin ≤ r'.cur + fuel → Settled (find_split get tail m fuel r'))
        → (o : Outcome)
        → Settled (elim o [
          | nothing ↦ split_at r
          | message tsc id ↦ elim (message_at get m id (r.cur + 12)) [
            | none ↦ give_up
            | some n ↦
                find_split get tail m fuel (record r { cur = r.cur + (13 + n); last_tsc = tsc })
          ]
          | corrupt why ↦ give_up
        ])
    on_outcome k nothing = tt
    on_outcome k (message tsc id) = on_size k tsc (message_at get m id (r.cur + 12))
    on_outcome k (corrupt why) = tt

-- The loop that looks for the split point ends: its fuel, the size of the log, is enough for a
-- reader at the start.
pub find_split-ends :
    (get : Messages) (tail : Bool) (m : Memory) (r : Reader)
    → r.cur ≡ r.start
    → find_split get tail m (r.fin - r.start) r ≢ out_of_fuel
find_split-ends get tail m r e k =
    subst Settled k (find_split-Settled get tail m (r.fin - r.start) r (omega (arith, e)))
