-- ===== src/Base/Digits.antt =====
-- Numbers as text, in a base from 2 to 16, and back.
use Prim.Native.Nat.{ℕ, zero, suc, ◌+◌, ◌-◌, ◌*◌, ◌/◌, ◌%◌}
use mathlib.Core.Bool.{Bool, ◌&&◌}
use mathlib.Core.List.{List, [], ◌∷◌, ◌++◌}
use quicktrace_public.Base.Tests.{ltb, leb, if◌then◌else◌}

-- '0' to '9', then 'a' on
unfoldable pub digit_char : ℕ → ℕ
digit_char d = if ltb d 10 then d + b'0' else d - 10 + b'a'

-- At most `fuel + 1` digits, the highest first.
unfoldable pub digits : ℕ → ℕ → ℕ → List ℕ
unfolding digit_char
digits zero base n = digit_char (n % base) ∷ []
digits (suc fuel) base n =
    let front = digits fuel base (n / base) in
    if ltb n base then digit_char n ∷ [] else front ++ (digit_char (n % base) ∷ [])

-- Twenty digits are enough for a 64-bit word.
unfoldable pub dec_text : ℕ → List ℕ
unfolding digits
dec_text n = digits 19 10 n

unfoldable pub hex_text : ℕ → List ℕ
unfolding digits
hex_text n = digits 15 16 n

unfoldable pub is_digit : ℕ → Bool
is_digit c = leb b'0' c && leb c b'9'

-- The value of a run of decimal digits.
unfoldable pub dec_value : ℕ → List ℕ → ℕ
dec_value acc [] = acc
dec_value acc (c ∷ cs) = dec_value (10 * acc + (c - b'0')) cs
