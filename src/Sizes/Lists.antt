-- ===== src/Sizes/Lists.antt =====
-- What the two loops over a list of sizes do (QuickTrace.cpp, Qtc.cpp).
use quicktrace_public.Base.{
  ℕ, zero, suc, ◌+◌, ◌≤◌, ◌<◌, ◌≡◌, refl, ap, ◌∙◌, sym, arith, inl, inr, subst,
}
use quicktrace_public.Base.{All, true, false, List, [], ◌∷◌, none, some, Text, map}
use quicktrace_public.Base.{leb, ltb, if◌then◌else◌, Bool-cases, length, set}
use quicktrace_public.Sizes.{SizeSpec}
use quicktrace_public.Sizes.Parse.{
  tokens, size_of, default_sizes, size_loop, initialize_sizes, handle_size_loop, handle_sizes,
}

length-set : (ss : List ℕ) (i v : ℕ) → length (set ss i v) ≡ length ss
length-set [] i v = refl
length-set (s ∷ ss) zero v = refl
length-set (s ∷ ss) (suc i) v = ap suc (length-set ss i v)

-- The sizes, and behind them the rest of the defaults; no more than there are.
abbrev pub overlay : List ℕ → SizeSpec → SizeSpec
overlay [] ss = ss
overlay (v ∷ vs) [] = []
overlay (v ∷ vs) (s ∷ ss) = v ∷ overlay vs ss

-- The same from the position `i` on.
abbrev overlay_at : ℕ → List ℕ → SizeSpec → SizeSpec
overlay_at zero vs ss = overlay vs ss
overlay_at (suc i) vs [] = []
overlay_at (suc i) vs (s ∷ ss) = s ∷ overlay_at i vs ss

overlay_at-set :
    (i v : ℕ) (vs : List ℕ) (ss : SizeSpec)
    → overlay_at (suc i) vs (set ss i v) ≡ overlay_at i (v ∷ vs) ss
overlay_at-set zero v vs [] = refl
overlay_at-set zero v vs (s ∷ ss) = refl
overlay_at-set (suc i) v vs [] = refl
overlay_at-set (suc i) v vs (s ∷ ss) = ap (λ (t : List ℕ). s ∷ t) (overlay_at-set i v vs ss)

overlay_at-nil : (i : ℕ) (ss : SizeSpec) → overlay_at i [] ss ≡ ss
overlay_at-nil zero ss = refl
overlay_at-nil (suc i) [] = refl
overlay_at-nil (suc i) (s ∷ ss) = ap (λ (t : List ℕ). s ∷ t) (overlay_at-nil i ss)

overlay_at-past : (i : ℕ) (vs : List ℕ) (ss : SizeSpec) → length ss ≤ i → overlay_at i vs ss ≡ ss
overlay_at-past zero [] [] h = refl
overlay_at-past zero (v ∷ vs) [] h = refl
overlay_at-past zero vs (s ∷ ss) h = absurd (omega arith)
overlay_at-past (suc i) vs [] h = refl
overlay_at-past (suc i) vs (s ∷ ss) h =
    ap (λ (t : List ℕ). s ∷ t) (overlay_at-past i vs ss (omega arith))

size_loop_lem :
    (i : ℕ) (ts : List Text) (ss : SizeSpec)
    → length ss ≡ 10
    → size_loop i ts ss ≡ overlay_at i (map size_of ts) ss
unfolding size_loop
size_loop_lem i [] ss h = sym (overlay_at-nil i ss)
size_loop_lem i (t ∷ ts) ss h =
    let same = length-set ss i (size_of t) in
    let next : i + 1 ≡ suc i = omega arith in
    elim (Bool-cases (ltb (i + 1) 10)) [
      | inl lt ↦ rw lt (
          size_loop_lem (i + 1) ts (set ss i (size_of t)) (same ∙ h)
          ∙ rw next (overlay_at-set i (size_of t) (map size_of ts) ss))
      | inr ge ↦ rw ge (
          let full : length (set ss i (size_of t)) ≤ suc i = ground (arith, ge, same, h) in
          sym (overlay_at-past (suc i) (map size_of ts) (set ss i (size_of t)) full)
          ∙ overlay_at-set i (size_of t) (map size_of ts) ss)
    ]

handle_size_loop_lem :
    (i : ℕ) (ts : List Text) (ss : SizeSpec)
    → i ≤ length ss
    → handle_size_loop i ts ss
      ≡ (if leb (length ts + i) (length ss) then some (overlay_at i (map size_of ts) ss) else none)
unfolding handle_size_loop
handle_size_loop_lem i [] ss h =
    let in_range : leb (0 + i) (length ss) ≡ true = ground (arith, h) in
    rw in_range (ap some (sym (overlay_at-nil i ss)))
handle_size_loop_lem i (t ∷ ts) ss h =
    let same = length-set ss i (size_of t) in
    let next : i + 1 ≡ suc i = omega arith in
    let count : length ts + (i + 1) ≡ suc (length ts) + i = omega arith in
    elim (Bool-cases (ltb i (length ss))) [
      | inl lt ↦ rw lt (
          handle_size_loop_lem (i + 1) ts (set ss i (size_of t)) (ground (arith, lt, same))
          ∙ rw (same, count, next) (rw (overlay_at-set i (size_of t) (map size_of ts) ss) refl))
      | inr ge ↦
          let out_of_range : leb (suc (length ts) + i) (length ss) ≡ false = ground (arith, ge) in
          rw (ge, out_of_range)
    ]

length-overlay : (vs : List ℕ) (ss : SizeSpec) → length (overlay vs ss) ≡ length ss
length-overlay [] ss = refl
length-overlay (v ∷ vs) [] = refl
length-overlay (v ∷ vs) (s ∷ ss) = ap suc (length-overlay vs ss)

abbrev pub IsPositive : ℕ → Type 0
IsPositive n = 0 < n

overlay-IsPositive :
    (ts : List Text) (ss : SizeSpec)
    → All IsPositive ss
    → All IsPositive (overlay (map size_of ts) ss)
overlay-IsPositive [] ss h = h
overlay-IsPositive (t ∷ ts) [] h = tt
overlay-IsPositive (t ∷ ts) (s ∷ ss) h =
    (unfold size_of in ground arith, overlay-IsPositive ts ss h.1)

-- QuickTrace_initialize takes the sizes from the front of the list, ten at most, with 1 for a 0 or for
-- what is no number, and the default of 8 for those that are missing: always ten sizes, none of them 0.
pub initialize_sizes_lem :
    (t : Text)
    → (initialize_sizes (some t) ≡ overlay (map size_of (tokens t)) default_sizes)
      × (length (initialize_sizes (some t)) ≡ 10)
      × All IsPositive (initialize_sizes (some t))
unfolding initialize_sizes
initialize_sizes_lem t =
    let e = size_loop_lem 0 (tokens t) default_sizes refl in
    (
      e,
      ap (λ (ss : SizeSpec). length ss) e ∙ length-overlay (map size_of (tokens t)) default_sizes,
      subst (All IsPositive) (sym e) (overlay-IsPositive (tokens t) default_sizes (omega arith)),
    )

-- qt_initialize_handle agrees with QuickTrace_initialize for up to ten sizes; it writes behind its array
-- for every list of more.
pub handle_sizes_lem :
    (t : Text)
    → handle_sizes (some t)
      ≡ (if leb (length (tokens t)) 10 then some (initialize_sizes (some t)) else none)
unfolding handle_sizes initialize_sizes
handle_sizes_lem t =
    let count : length (tokens t) + 0 ≡ length (tokens t) = omega arith in
    rw (
      handle_size_loop_lem 0 (tokens t) default_sizes (omega arith),
      count,
      size_loop_lem 0 (tokens t) default_sizes refl,
    )
