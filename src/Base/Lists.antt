-- ===== src/Base/Lists.antt =====
-- Lists measured by native numbers.
use Prim.Native.Nat.{ℕ, zero, suc, ◌+◌, ◌<◌}
use mathlib.Core.Path.{◌≡◌, refl, ap}
use mathlib.Core.List.{List, [], ◌∷◌, ◌++◌}
use mathlib.Core.Option.{Option, none, some}
use mathlib.Core.Logic.{◌⊎◌, inl, inr}
use native.Mathlib.Omega.{arith}

module _ {ℓ} {A : Type ℓ} where
  abbrev pub length : List A → ℕ
  length [] = 0
  length (x ∷ xs) = suc (length xs)

  abbrev pub get_elem? : List A → ℕ → Option A
  get_elem? [] i = none
  get_elem? (x ∷ xs) zero = some x
  get_elem? (x ∷ xs) (suc i) = get_elem? xs i

  abbrev pub set : List A → ℕ → A → List A
  set [] i v = []
  set (x ∷ xs) zero v = v ∷ xs
  set (x ∷ xs) (suc i) v = x ∷ set xs i v

  abbrev pub take : ℕ → List A → List A
  take zero xs = []
  take (suc n) [] = []
  take (suc n) (x ∷ xs) = x ∷ take n xs

  abbrev pub drop : ℕ → List A → List A
  drop zero xs = xs
  drop (suc n) [] = []
  drop (suc n) (x ∷ xs) = drop n xs

  abbrev pub replicate : ℕ → A → List A
  replicate zero a = []
  replicate (suc n) a = a ∷ replicate n a

  abbrev pub All {κ} : (A → Type κ) → List A → Type κ
  All P [] = Unit
  All P (x ∷ xs) = P x × All P xs

  pub length-append : (xs ys : List A) → length (xs ++ ys) ≡ length xs + length ys
  length-append [] ys = omega arith
  length-append (x ∷ xs) ys = omega (arith, length-append xs ys)

  pub length-replicate : (n : ℕ) (a : A) → length (replicate n a) ≡ n
  length-replicate zero a = refl
  length-replicate (suc n) a = ap suc (length-replicate n a)

  pub All-append {κ} : (P : A → Type κ) (xs ys : List A) → All P xs → All P ys → All P (xs ++ ys)
  All-append P [] ys hx hy = hy
  All-append P (x ∷ xs) ys hx hy = (hx.0, All-append P xs ys hx.1 hy)

  pub get_elem?-replicate : (n : ℕ) (a : A) (k : ℕ) → k < n → get_elem? (replicate n a) k ≡ some a
  get_elem?-replicate zero a k h = elim h [ ]
  get_elem?-replicate (suc n) a zero h = refl
  get_elem?-replicate (suc n) a (suc k) h = get_elem?-replicate n a k (omega arith)

  pub get_elem?-set_self :
      (xs : List A) (i : ℕ) (a b : A) → get_elem? xs i ≡ some a → get_elem? (set xs i b) i ≡ some b
  get_elem?-set_self [] i a b h = cc
  get_elem?-set_self (x ∷ xs) zero a b h = refl
  get_elem?-set_self (x ∷ xs) (suc i) a b h = get_elem?-set_self xs i a b h

  -- An element after a write: the new one, or one that was there.
  pub get_elem?-set :
      (xs : List A) (i j : ℕ) (a b c : A)
      → get_elem? xs i ≡ some a
      → get_elem? (set xs i b) j ≡ some c
      → ((j ≡ i) × (c ≡ b)) ⊎ (get_elem? xs j ≡ some c)
  get_elem?-set [] i j a b c h k = cc
  get_elem?-set (x ∷ xs) zero zero a b c h k = inl (refl, cc)
  get_elem?-set (x ∷ xs) zero (suc j) a b c h k = inr k
  get_elem?-set (x ∷ xs) (suc i) zero a b c h k = inr k
  get_elem?-set (x ∷ xs) (suc i) (suc j) a b c h k = elim (get_elem?-set xs i j a b c h k) [
    | inl e ↦ inl (ap suc e.0, e.1)
    | inr e ↦ inr e
  ]
