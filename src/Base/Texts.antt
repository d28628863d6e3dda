-- ===== src/Base/Texts.antt =====
-- Byte strings: equality, prefixes, and tables keyed by them.
use Prim.Native.Nat.{ℕ}
use mathlib.Core.Path.{◌≡◌, refl}
use mathlib.Core.Bool.{Bool, true, false, ◌&&◌}
use mathlib.Core.Option.{Option, none, some}
use mathlib.Core.List.{List, [], ◌∷◌}
use native.Mathlib.Omega.{arith}
use quicktrace_public.Base.Tests.{◌==◌, if◌then◌else◌}

abbrev pub Text : Type 0
Text = List ℕ

unfoldable pub text_eq : Text → Text → Bool
text_eq [] [] = true
text_eq [] (y ∷ ys) = false
text_eq (x ∷ xs) [] = false
text_eq (x ∷ xs) (y ∷ ys) = x == y && text_eq xs ys

pub text_eq→eq : (xs ys : Text) → text_eq xs ys ≡ true → xs ≡ ys
unfolding text_eq
text_eq→eq [] [] h = refl
text_eq→eq [] (y ∷ ys) h = cc
text_eq→eq (x ∷ xs) [] h = cc
text_eq→eq (x ∷ xs) (y ∷ ys) h = ground (arith, text_eq→eq xs ys)

pub text_eq_refl : (xs : Text) → text_eq xs xs ≡ true
unfolding text_eq
text_eq_refl [] = refl
text_eq_refl (x ∷ xs) = ground (arith, text_eq_refl xs)

-- Does the first text begin the second?
unfoldable pub is_prefix : Text → Text → Bool
is_prefix [] ys = true
is_prefix (x ∷ xs) [] = false
is_prefix (x ∷ xs) (y ∷ ys) = x == y && is_prefix xs ys

module _ {ℓ} {A : Type ℓ} where
  unfoldable pub find : Text → List (Text × A) → Option A
  unfolding text_eq
  find k [] = none
  find k ((j, v) ∷ t) = if text_eq k j then some v else find k t

  -- `emplace`: a key that is there already keeps its value.
  unfoldable pub emplace : Text → A → List (Text × A) → List (Text × A)
  unfolding find
  emplace k v t = elim (find k t) [ some w ↦ t | none ↦ (k, v) ∷ t ]
