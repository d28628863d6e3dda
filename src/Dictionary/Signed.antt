-- ===== src/Dictionary/Signed.antt =====
-- A number that `sprintf` prints in decimal, with its sign, is read back by `strtouq` in base 0.
use quicktrace_public.Base.{
  ℕ, ◌-◌, ◌%◌, ◌^◌, ◌≤◌, ◌<◌, ◌≡◌, ◌≢◌, refl, ap, ◌∙◌, ◌⊎◌, inl, inr, arith,
}
use quicktrace_public.Base.{Bool, true, false, [], ◌∷◌, ◌++◌, ◌==◌, ltb, leb, All, Text, dec_text}
use quicktrace_public.Dictionary.{
  is_space, unsigned_number, skip_white_space, read_u64, with_sign, number_behind, signed_number,
  signed_text, read_u32,
}
use quicktrace_public.Dictionary.Numbers.{
  IsDigit, Leads, unsigned_number-dec_text, dec_text-IsDigit, dec_text-Leads, skip-digits,
}

-- A text that begins with a digit.
abbrev Begins : Text → Type 0
Begins [] = ⊥
Begins (c ∷ cs) = IsDigit c

begins : (xs ys : Text) → All IsDigit xs → Leads xs ⊎ (xs ≡ b'0' ∷ []) → Begins (xs ++ ys)
begins [] ys h (inl k) = absurd k
begins [] ys h (inr k) = ground arith
begins (x ∷ xs) ys h k = h.0

dec_text-Begins : (n : ℕ) (ys : Text) → n < 2 ^ 64 → Begins (dec_text n ++ ys)
dec_text-Begins n ys h = begins (dec_text n) ys (dec_text-IsDigit n) (dec_text-Leads n h)

number_behind-Begins :
    (whole s : Text) (minus : Bool)
    → Begins s
    → number_behind whole minus s ≡ (with_sign minus (unsigned_number s).0, (unsigned_number s).1)
unfolding number_behind
number_behind-Begins whole [] minus h = absurd h
number_behind-Begins whole (c ∷ cs) minus h =
    let low : leb b'0' c ≡ true = ground (arith, h) in
    let high : leb c b'9' ≡ true = ground (arith, h) in rw (low, high) refl

signed_number-Begins :
    (whole s : Text) → Begins s → signed_number whole s ≡ number_behind whole false s
unfolding signed_number
signed_number-Begins whole [] h = absurd h
signed_number-Begins whole (c ∷ cs) h =
    let no_minus : c == b'-' ≡ false = ground (arith, h) in
    let no_plus : c == b'+' ≡ false = ground (arith, h) in rw (no_minus, no_plus) refl

read_u64-dec_text :
    (n : ℕ) (ys : Text) → n < 2 ^ 64 → read_u64 (dec_text n ++ (32 ∷ ys)) ≡ (n, 32 ∷ ys)
unfolding read_u64 with_sign
read_u64-dec_text n ys h =
    let s : Text = dec_text n ++ (32 ∷ ys) in
    let b : Begins s = dec_text-Begins n (32 ∷ ys) h in
    let small : ltb n (2 ^ 64) ≡ true = ground (arith, h) in
    ap (signed_number s)
      (skip-digits (dec_text n) (32 ∷ ys) (dec_text-IsDigit n) (dec_text-Leads n h))
    ∙ signed_number-Begins s s b
    ∙ number_behind-Begins s s false b
    ∙ rw (unsigned_number-dec_text n ys h, small) refl

-- Behind a minus sign the number is the complement.
read_u64-minus :
    (n : ℕ) (ys : Text)
    → 0 < n
    → n < 2 ^ 64
    → read_u64 (b'-' ∷ dec_text n ++ (32 ∷ ys)) ≡ (2 ^ 64 - n, 32 ∷ ys)
unfolding read_u64 signed_number skip_white_space with_sign
read_u64-minus n ys p h =
    let s : Text = dec_text n ++ (32 ∷ ys) in
    let small : ltb n (2 ^ 64) ≡ true = ground (arith, h) in
    let less : (2 ^ 64 - n) % 2 ^ 64 ≡ 2 ^ 64 - n = omega arith in
    number_behind-Begins (b'-' ∷ s) s true (dec_text-Begins n (32 ∷ ys) h)
    ∙ rw (unsigned_number-dec_text n ys h, small, less) refl

signed_text_positive : (w n : ℕ) → n < 2 ^ (w - 1) → signed_text w n ≡ dec_text n
unfolding signed_text
signed_text_positive w n h = let e : ltb n (2 ^ (w - 1)) ≡ true = ground (arith, h) in rw e refl

signed_text_negative : (w n : ℕ) → 2 ^ (w - 1) ≤ n → signed_text w n ≡ b'-' ∷ dec_text (2 ^ w - n)
unfolding signed_text
signed_text_negative w n h = let e : ltb n (2 ^ (w - 1)) ≡ false = ground (arith, h) in rw e refl

sign-of : (m n : ℕ) → (n < m) ⊎ (m ≤ n)
sign-of m n = omega arith

-- A signed number that `sprintf` prints, and a blank behind it, read with `strtouq` in base 0.
pub read_u64-signed_text :
    (n : ℕ) (ys : Text) → n < 2 ^ 64 → read_u64 (signed_text 64 n ++ (32 ∷ ys)) ≡ (n, 32 ∷ ys)
read_u64-signed_text n ys h = elim (sign-of (2 ^ 63) n) [
  | inl k ↦ rw (signed_text_positive 64 n k) (read_u64-dec_text n ys h)
  | inr k ↦
      let e : 2 ^ 64 - (2 ^ 64 - n) ≡ n = omega arith in
      rw (signed_text_negative 64 n k)
        (read_u64-minus (2 ^ 64 - n) ys (omega arith) (omega arith) ∙ ap (λ v. (v, 32 ∷ ys)) e)
]

-- A signed number with 32 bits is read with 64 and cut.
pub read_u32-signed_text :
    (n : ℕ) (ys : Text) → n < 2 ^ 32 → read_u32 (signed_text 32 n ++ (32 ∷ ys)) ≡ (n, 32 ∷ ys)
unfolding read_u32
read_u32-signed_text n ys h = elim (sign-of (2 ^ 31) n) [
  | inl k ↦
      let e : n % 2 ^ 32 ≡ n = omega arith in
      rw (signed_text_positive 32 n k, read_u64-dec_text n ys (omega arith), e) refl
  | inr k ↦
      let e : (2 ^ 64 - (2 ^ 32 - n)) % 2 ^ 32 ≡ n = omega arith in
      rw
        (signed_text_negative 32 n k, read_u64-minus (2 ^ 32 - n) ys (omega arith) (omega arith), e)
        refl
]

-- The first character of a number is no white space and not the end of the text.
abbrev pub Starts : Text → Type 0
Starts [] = ⊥
Starts (c ∷ cs) = (is_space c ≡ false) × (c ≢ 0)

Begins-Starts : (s : Text) → Begins s → Starts s
Begins-Starts [] h = absurd h
Begins-Starts (c ∷ cs) h = (ground (arith, h), λ e. ground (arith, h, e))

pub signed_text-Starts : (w n : ℕ) (ys : Text) → n < 2 ^ 64 → Starts (signed_text w n ++ ys)
signed_text-Starts w n ys h = elim (sign-of (2 ^ (w - 1)) n) [
  | inl k ↦ rw (signed_text_positive w n k) (Begins-Starts _ (dec_text-Begins n ys h))
  | inr k ↦ rw (signed_text_negative w n k) (refl, λ e. ground (arith, e))
]

-- The blank before a number is skipped.
pub skip-Starts : (s : Text) → Starts s → skip_white_space (32 ∷ s) ≡ s
unfolding skip_white_space
skip-Starts [] h = absurd h
skip-Starts (c ∷ cs) h = rw (h.0) refl
