-- ===== src/Tail/Choice.antt =====
-- Which ring buffer `Tail::nextTsc` of qttail.cpp chooses, and that its assertions hold.
use quicktrace_public.Base.{
  some_eq, ℕ, zero, suc, ◌+◌, ◌≤◌, ◌<◌, ◌≡◌, refl, sym, ◌∙◌, ap, ◌⊎◌, inl, inr, arith, subst,
}
use quicktrace_public.Base.{Bool, true, false, ◌&&◌, List, [], ◌∷◌, some}
use quicktrace_public.Base.{◌!=◌, ltb, if◌then◌else◌, Memory, get_elem?}
use quicktrace_public.Reader.{Reader, next_tsc, uint64_max}
use quicktrace_public.Tail.{Choice, no_choice, Levels, level_enabled, scan, scan_rounds, polled}

-- The choice `c` after the readers `rs` of the levels from `level` on, with `best` before them.
abbrev pub IsLowest : Levels → Memory → ℕ → List Reader → Choice → Choice → Type 0
IsLowest o m level rs best c =
    (c.0 ≤ best.0)
    × ((i : ℕ) (r : Reader)
        → get_elem? rs i ≡ some r
        → level_enabled o (level + i) ≡ true
        → (next_tsc m r ≡ 0) ⊎ (c.0 ≤ next_tsc m r))
    × ((c ≡ best)
        ⊎ ((i : ℕ) × (r : Reader) × (get_elem? rs i ≡ some r)
            × (level_enabled o (level + i) ≡ true)
            × (c ≡ (next_tsc m r, some (level + i)))
            × (0 < next_tsc m r)
            × (next_tsc m r < best.0)))

-- The readers behind the first.
abbrev Rest : Levels → Memory → ℕ → List Reader → ℕ → Type 0
Rest o m level rs low =
    (i : ℕ) (r : Reader)
    → get_elem? rs i ≡ some r
    → level_enabled o (level + i) ≡ true
    → (next_tsc m r ≡ 0) ⊎ (low ≤ next_tsc m r)

Rest-first :
    (o : Levels) (m : Memory) (level : ℕ) (r : Reader) (rs : List Reader) (low : ℕ)
    → (level_enabled o level ≡ true → (next_tsc m r ≡ 0) ⊎ (low ≤ next_tsc m r))
    → Rest o m (level + 1) rs low
    → Rest o m level (r ∷ rs) low
Rest-first o m level r rs low h all zero r' e x =
    let z : level + 0 ≡ level = omega arith in
    subst (λ r'. (next_tsc m r' ≡ 0) ⊎ (low ≤ next_tsc m r')) (some_eq r r' e)
      (h (sym (ap (level_enabled o) z) ∙ x))
Rest-first o m level r rs low h all (suc i) r' e x =
    let z : level + suc i ≡ level + 1 + i = omega arith in
    all i r' e (sym (ap (level_enabled o) z) ∙ x)

abbrev Found : Levels → Memory → ℕ → List Reader → ℕ → Choice → Type 0
Found o m level rs bound c =
    (i : ℕ) × (r : Reader) × (get_elem? rs i ≡ some r)
    × (level_enabled o (level + i) ≡ true)
    × (c ≡ (next_tsc m r, some (level + i)))
    × (0 < next_tsc m r)
    × (next_tsc m r < bound)

Found-later :
    (o : Levels) (m : Memory) (level : ℕ) (r : Reader) (rs : List Reader) (low bound : ℕ)
    (c : Choice)
    → low ≤ bound
    → Found o m (level + 1) rs low c
    → Found o m level (r ∷ rs) bound c
Found-later o m level r rs low bound c h (i, r', e, x, k, p, q) =
    let z : level + suc i ≡ level + 1 + i = omega arith in
    (
      suc i,
      r',
      e,
      ap (level_enabled o) z ∙ x,
      k ∙ ap (λ j. (next_tsc m r', some j)) (sym z),
      p,
      omega arith,
    )

pub scan-IsLowest :
    (o : Levels) (m : Memory) (level : ℕ) (rs : List Reader) (best : Choice)
    → IsLowest o m level rs best (scan o m level rs best)
unfolding scan
scan-IsLowest o m level [] best = (omega arith, λ i r e x. ground arith, inl refl)
scan-IsLowest o m level (r ∷ rs) best =
    go (λ best'. scan-IsLowest o m (level + 1) rs best')
      (level_enabled o level && (next_tsc m r != 0 && ltb (next_tsc m r) best.0)) refl
  where
    better :
        (level_enabled o level && (next_tsc m r != 0 && ltb (next_tsc m r) best.0) ≡ true)
        → (c : Choice) → IsLowest o m (level + 1) rs (next_tsc m r, some level) c
        → IsLowest o m level (r ∷ rs) best c
    better e c (low, all, how) =
        let z : level + 0 ≡ level = omega arith in
        (
          ground (arith, e),
          Rest-first o m level r rs c.0 (λ x. inr low) all,
          elim how [
            | inl k ↦ inr (
              0,
              r,
              refl,
              ap (level_enabled o) z ∙ ground (arith, e),
              k ∙ ap (λ j. (next_tsc m r, some j)) (sym z),
              ground (arith, e),
              ground (arith, e),
            )
            | inr f ↦ inr (Found-later o m level r rs (next_tsc m r) best.0 c (ground (arith, e)) f)
          ],
        )

    kept :
        (level_enabled o level && (next_tsc m r != 0 && ltb (next_tsc m r) best.0) ≡ false)
        → (c : Choice) → IsLowest o m (level + 1) rs best c
        → IsLowest o m level (r ∷ rs) best c
    kept e c (low, all, how) = (
      low,
      Rest-first o m level r rs c.0 (λ x. ground (arith, e)) all,
      elim how [
        | inl k ↦ inl k
        | inr f ↦ inr (Found-later o m level r rs best.0 best.0 c (omega arith) f)
      ],
    )

    go :
        ((best' : Choice) → IsLowest o m (level + 1) rs best' (scan o m (level + 1) rs best'))
        → (b : Bool)
        → (level_enabled o level && (next_tsc m r != 0 && ltb (next_tsc m r) best.0) ≡ b)
        → IsLowest o m level
            (r ∷ rs)
            best
            (scan o m (level + 1) rs (if b then (next_tsc m r, some level) else best))
    go k true e = better e _ (k _)
    go k false e = kept e _ (k best)

-- On a file that stays the same for two rounds, the search ends with the enabled ring buffer whose
-- next message has the lowest time stamp, or without any where none has a message.
pub scan_rounds-still :
    (o : Levels) (m : Memory) (ms : List Memory) (rs : List Reader)
    → (c : Choice) × (scan_rounds o (m ∷ m ∷ ms) uint64_max rs ≡ polled c)
      × IsLowest o m 0 rs no_choice c
unfolding scan_rounds
scan_rounds-still o m ms rs =
    (scan o m 0 rs no_choice, ground arith, scan-IsLowest o m 0 rs no_choice)
