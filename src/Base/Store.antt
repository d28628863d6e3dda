-- ===== src/Base/Store.antt =====
-- The mapped file as a function from addresses to bytes, with what a write changes and keeps.
use Prim.Native.Nat.{ℕ, zero, suc, ◌+◌, ◌≤◌, ◌<◌, ◌^◌}
use mathlib.Core.Path.{◌≡◌, refl, ap, ap₂, ◌∙◌}
use mathlib.Core.Logic.{◌⊎◌, inl, inr}
use mathlib.Core.List.{List, [], ◌∷◌, ◌++◌}
use native.Mathlib.Omega.{arith}
use quicktrace_public.Base.Tests.{◌==◌, if◌then◌else◌}
use quicktrace_public.Base.Lists.{
  length, replicate, get_elem?, get_elem?-replicate, length-replicate,
}
use mathlib.Core.Option.{some}
use quicktrace_public.Base.Bytes.{le_bytes, le_value, length-le_bytes, le_value-le_bytes}

abbrev pub Memory : Type 0
Memory = ℕ → ℕ

unfoldable pub set_byte : Memory → ℕ → ℕ → Memory
set_byte m a v x = if x == a then v else m x

-- `memcpy` of `bs` to the address `a`.
unfoldable pub write : Memory → ℕ → List ℕ → Memory
unfolding set_byte
write m a [] = m
write m a (b ∷ bs) = set_byte (write m (a + 1) bs) a b

-- The `n` bytes from `a` on.
unfoldable pub read : Memory → ℕ → ℕ → List ℕ
read m a zero = []
read m a (suc n) = m a ∷ read m (a + 1) n

-- A word of `n` bytes, read as `memcpy` into an integer reads it.
unfoldable pub load : Memory → ℕ → ℕ → ℕ
unfolding read le_value
load m a n = le_value (read m a n)

-- Nothing before the written bytes or behind them changes.
abbrev pub Outside : ℕ → ℕ → ℕ → Type 0
Outside a n x = (x < a) ⊎ (a + n ≤ x)

pub write-Outside :
    (m : Memory) (a : ℕ) (bs : List ℕ) (x : ℕ) → Outside a (length bs) x → write m a bs x ≡ m x
unfolding write set_byte
write-Outside m a [] x h = refl
write-Outside m a (b ∷ bs) x h = ground (arith, write-Outside m (a + 1) bs x)

pub length-read : (m : Memory) (a n : ℕ) → length (read m a n) ≡ n
unfolding read
length-read m a zero = refl
length-read m a (suc n) = ap suc (length-read m (a + 1) n)

-- Two memories that agree on a range read alike there.
pub read-agree :
    (m m' : Memory) (a n : ℕ)
    → ((x : ℕ) → a ≤ x → x < a + n → m x ≡ m' x)
    → read m a n ≡ read m' a n
unfolding read
read-agree m m' a zero h = refl
read-agree m m' a (suc n) h =
    ap₂ ◌∷◌ (h a (omega arith) (omega arith))
      (read-agree m m' (a + 1) n (λ x p q. h x (omega arith) (omega arith)))

-- A range that a write does not touch reads as before.
pub read-write_other :
    (m : Memory) (a : ℕ) (bs : List ℕ) (x n : ℕ)
    → (x + n ≤ a) ⊎ (a + length bs ≤ x)
    → read (write m a bs) x n ≡ read m x n
read-write_other m a bs x n h =
    read-agree (write m a bs) m x n (λ y p q. write-Outside m a bs y (outside y p q))
  where
    outside : (y : ℕ) → x ≤ y → y < x + n → Outside a (length bs) y
    outside y p q = elim h [ inl l ↦ inl (omega arith) | inr r ↦ inr (omega arith) ]

pub write-at : (m : Memory) (a b : ℕ) (bs : List ℕ) → write m a (b ∷ bs) a ≡ b
unfolding write set_byte
write-at m a b bs = ground arith

-- What was written is read back.
pub read-write_self : (m : Memory) (a : ℕ) (bs : List ℕ) → read (write m a bs) a (length bs) ≡ bs
unfolding read
read-write_self m a [] = refl
read-write_self m a (b ∷ bs) = ap₂ ◌∷◌ (write-at m a b bs) (
    read-agree (write m a (b ∷ bs)) (write m (a + 1) bs) (a + 1) (length bs) behind
    ∙ read-write_self m (a + 1) bs)
  where
    behind :
        (x : ℕ) → a + 1 ≤ x → x < a + 1 + length bs → write m a (b ∷ bs) x ≡ write m (a + 1) bs x
    behind x p q = unfold write set_byte in ground arith

pub load-write_self :
    (m : Memory) (a n v : ℕ) → v < 256 ^ n → load (write m a (le_bytes n v)) a n ≡ v
unfolding load
load-write_self m a n v h =
    rw (rw length-le_bytes at (read-write_self m a (le_bytes n v))) (le_value-le_bytes n v h)

pub load-write_other :
    (m : Memory) (a : ℕ) (bs : List ℕ) (x n : ℕ)
    → (x + n ≤ a) ⊎ (a + length bs ≤ x)
    → load (write m a bs) x n ≡ load m x n
unfolding load
load-write_other m a bs x n h = ap le_value (read-write_other m a bs x n h)

pub read-append : (m : Memory) (a n k : ℕ) → read m a (n + k) ≡ read m a n ++ read m (a + n) k
unfolding read
read-append m a zero k =
    let e : zero + k ≡ k = omega arith in let e' : a + zero ≡ a = omega arith in rw (e, e') refl
read-append m a (suc n) k =
    let e : suc n + k ≡ suc (n + k) = omega arith in
    let e' : a + 1 + n ≡ a + suc n = omega arith in
    rw e (ap (λ (t : List ℕ). m a ∷ t) (read-append m (a + 1) n k ∙ rw e'))

pub get_elem?-read : (m : Memory) (a n k : ℕ) → k < n → get_elem? (read m a n) k ≡ some (m (a + k))
unfolding read
get_elem?-read m a zero k h = elim h [ ]
get_elem?-read m a (suc n) zero h = let e : a + zero ≡ a = omega arith in rw e
get_elem?-read m a (suc n) (suc k) h =
    let e : a + suc k ≡ a + 1 + k = omega arith in rw e (get_elem?-read m (a + 1) n k (omega arith))

-- A range that reads as a repeated byte holds that byte everywhere.
pub read-replicate : (m : Memory) (a n v k : ℕ) → read m a n ≡ replicate n v → k < n → m (a + k) ≡ v
read-replicate m a n v k e h =
    cc (get_elem?-read m a n k h, get_elem?-replicate n v k h, ap (λ (t : List ℕ). get_elem? t k) e)

-- `memset`
pub write-fill : (m : Memory) (a n v k : ℕ) → k < n → write m a (replicate n v) (a + k) ≡ v
write-fill m a n v k h =
    read-replicate (write m a (replicate n v)) a n v k
      (rw length-replicate at (read-write_self m a (replicate n v))) h
