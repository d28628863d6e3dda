-- ===== src/Dictionary/Numbers.antt =====
-- A number that `sprintf` prints in decimal, without a sign, is read back.
use quicktrace_public.Base.{
  ℕ, zero, suc, ◌+◌, ◌*◌, ◌/◌, ◌%◌, ◌^◌, ◌≤◌, ◌<◌, ◌≡◌, ◌≢◌, refl, ◌∙◌, ◌⊎◌, inl, inr, arith,
}
use native.Mathlib.Omega.{pow_step}
use quicktrace_public.Base.{
  subst, true, false, [], ◌∷◌, ◌++◌, ◌==◌, ltb, All, All-append, Text, digits, digit_char, dec_text,
}
use quicktrace_public.Dictionary.{
  digit_of, span_base, base_value, base_number, unsigned_number, skip_white_space,
}

abbrev pub IsDigit : ℕ → Type 0
IsDigit c = (b'0' ≤ c) × (c ≤ b'9')

base_value-append :
    (base acc : ℕ) (xs ys : Text)
    → base_value base acc (xs ++ ys) ≡ base_value base (base_value base acc xs) ys
unfolding base_value
base_value-append base acc [] ys = refl
base_value-append base acc (x ∷ xs) ys = base_value-append base (acc * base + digit_of x) xs ys

digit_of-char : (d : ℕ) → d < 10 → digit_of (digit_char d) ≡ d
unfolding digit_of digit_char
digit_of-char d h = ground arith

digit_char-IsDigit : (d : ℕ) → d < 10 → IsDigit (digit_char d)
unfolding digit_char
digit_char-IsDigit d h = ground arith

digits_zero : (n : ℕ) → digits 0 10 n ≡ digit_char (n % 10) ∷ []
unfolding digits
digits_zero n = refl

digits_short : (fuel n : ℕ) → n < 10 → digits (suc fuel) 10 n ≡ digit_char n ∷ []
unfolding digits
digits_short fuel n h = let e : ltb n 10 ≡ true = ground arith in rw e refl

digits_long :
    (fuel n : ℕ)
    → 10 ≤ n
    → digits (suc fuel) 10 n ≡ digits fuel 10 (n / 10) ++ (digit_char (n % 10) ∷ [])
unfolding digits
digits_long fuel n h = let e : ltb n 10 ≡ false = ground arith in rw e refl

short-or-long : (n : ℕ) → (n < 10) ⊎ (10 ≤ n)
short-or-long n = omega arith

digits-IsDigit : (fuel n : ℕ) → All IsDigit (digits fuel 10 n)
digits-IsDigit zero n = rw (digits_zero n) (digit_char-IsDigit (n % 10) (omega arith), tt)
digits-IsDigit (suc fuel) n = elim (short-or-long n) [
  | inl h ↦ rw (digits_short fuel n h) (digit_char-IsDigit n h, tt)
  | inr h ↦ rw (digits_long fuel n h) (
      All-append IsDigit (digits fuel 10 (n / 10)) _ (digits-IsDigit fuel (n / 10))
        (digit_char-IsDigit (n % 10) (omega arith), tt))
]

one_digit : (acc d : ℕ) → d < 10 → base_value 10 acc (digit_char d ∷ []) ≡ acc * 10 + d
unfolding base_value
one_digit acc d h = rw (digit_of-char d h) refl

tenth : (fuel n : ℕ) → n < 10 ^ (suc fuel + 1) → n / 10 < 10 ^ (fuel + 1)
tenth fuel n h =
    let s : suc fuel + 1 ≡ suc (fuel + 1) = omega arith in
    let h' : n < 10 ^ suc (fuel + 1) = subst (λ k. n < 10 ^ k) s h in
    omega (arith, h', pow_step 10 (fuel + 1))

digits-value : (fuel n : ℕ) → n < 10 ^ (fuel + 1) → base_value 10 0 (digits fuel 10 n) ≡ n
digits-value zero n h = rw (digits_zero n) (one_digit 0 (n % 10) (omega arith) ∙ omega arith)
digits-value (suc fuel) n h = elim (short-or-long n) [
  | inl k ↦ rw (digits_short fuel n k) (one_digit 0 n k ∙ omega arith)
  | inr k ↦ rw (digits_long fuel n k) (
      base_value-append 10 0 (digits fuel 10 (n / 10)) _
      ∙ one_digit _ (n % 10) (omega arith)
      ∙ (let e = digits-value fuel (n / 10) (tenth fuel n h) in omega (arith, e)))
]

-- The first digit of a positive number is not zero.
abbrev pub Leads : Text → Type 0
Leads [] = ⊥
Leads (c ∷ cs) = c ≢ b'0'

Leads-append : (xs ys : Text) → Leads xs → Leads (xs ++ ys)
Leads-append [] ys h = absurd h
Leads-append (x ∷ xs) ys h = h

digit_char-Leads : (d : ℕ) → 0 < d → d < 10 → digit_char d ≢ b'0'
unfolding digit_char
digit_char-Leads d p h e = ground arith

digits-Leads : (fuel n : ℕ) → 0 < n → n < 10 ^ (fuel + 1) → Leads (digits fuel 10 n)
digits-Leads zero n p h = rw (digits_zero n) (digit_char-Leads (n % 10) (omega arith) (omega arith))
digits-Leads (suc fuel) n p h = elim (short-or-long n) [
  | inl k ↦ rw (digits_short fuel n k) (digit_char-Leads n p k)
  | inr k ↦ rw (digits_long fuel n k) (
      Leads-append (digits fuel 10 (n / 10)) _
        (digits-Leads fuel (n / 10) (omega (arith, k)) (tenth fuel n h)))
]

digit_of-IsDigit : (c : ℕ) → IsDigit c → digit_of c < 10
unfolding digit_of
digit_of-IsDigit c h = ground (arith, h)

span_base-digits :
    (xs ys : Text) (c : ℕ)
    → All IsDigit xs
    → digit_of c ≡ 99
    → span_base 10 (xs ++ (c ∷ ys)) ≡ (xs, c ∷ ys)
unfolding span_base
span_base-digits [] ys c h k = rw k refl
span_base-digits (x ∷ xs) ys c h k =
    let small : ltb (digit_of x) 10 ≡ true = ground (arith, digit_of-IsDigit x h.0) in
    rw (span_base-digits xs ys c h.1 k, small) refl

-- The number is followed by a blank.
base_number-digits :
    (n : ℕ) (ys : Text) → n < 2 ^ 64 → base_number 10 (dec_text n ++ (32 ∷ ys)) ≡ (n, 32 ∷ ys)
unfolding base_number dec_text
base_number-digits n ys h =
    rw
      (
        span_base-digits (digits 19 10 n) ys 32 (digits-IsDigit 19 n) (unfold digit_of in refl),
        digits-value 19 n (omega arith),
      )
      refl

unsigned_number-Leads :
    (xs ys : Text) → Leads xs → unsigned_number (xs ++ ys) ≡ base_number 10 (xs ++ ys)
unfolding unsigned_number
unsigned_number-Leads [] ys h = absurd h
unsigned_number-Leads (x ∷ xs) ys h = let e : x == b'0' ≡ false = ground (arith, h) in rw e refl

pub skip-digits :
    (xs ys : Text)
    → All IsDigit xs
    → Leads xs ⊎ (xs ≡ b'0' ∷ [])
    → skip_white_space (xs ++ ys) ≡ xs ++ ys
unfolding skip_white_space
skip-digits [] ys h (inl k) = absurd k
skip-digits [] ys h (inr k) = ground arith
skip-digits (x ∷ xs) ys h k = ground (arith, h.0)

pub dec_text-IsDigit : (n : ℕ) → All IsDigit (dec_text n)
unfolding dec_text
dec_text-IsDigit n = digits-IsDigit 19 n

pub dec_text-Leads : (n : ℕ) → n < 2 ^ 64 → Leads (dec_text n) ⊎ (dec_text n ≡ b'0' ∷ [])
unfolding dec_text
dec_text-Leads zero h = inr (unfold digits in refl)
dec_text-Leads (suc n) h = inl (digits-Leads 19 (suc n) (omega arith) (omega arith))

-- Digits and a blank behind them, read without a sign.
pub unsigned_number-dec_text :
    (n : ℕ) (ys : Text) → n < 2 ^ 64 → unsigned_number (dec_text n ++ (32 ∷ ys)) ≡ (n, 32 ∷ ys)
unsigned_number-dec_text zero [] h = unfold dec_text unsigned_number span_base in refl
unsigned_number-dec_text zero (y ∷ ys) h = unfold dec_text unsigned_number span_base in refl
unsigned_number-dec_text (suc n) ys h =
    let leads : Leads (dec_text (suc n)) =
      unfold dec_text in digits-Leads 19 (suc n) (omega arith) (omega arith) in
    unsigned_number-Leads (dec_text (suc n)) (32 ∷ ys) leads ∙ base_number-digits (suc n) ys h
