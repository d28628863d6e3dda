-- ===== src/Formatter/Spec.antt =====
-- A conversion specification of C's printf: getFormatParamSpec, applyCFormatSpec and
-- resetCFormatSpec of MessageFormatter.cpp.
use quicktrace_public.Base.{ℕ, ◌%◌, ◌-◌, ◌^◌, Bool, true, false, ◌&&◌, ◌||◌}
use quicktrace_public.Base.{[], ◌∷◌}
use quicktrace_public.Base.{Text, ◌==◌, leb, ltb, if◌then◌else◌, is_digit, dec_value}
use quicktrace_public.Formatter.Stream.{OStream}

-- `CFormatSpec`; width and precision are eight-bit fields.
pub record CFormatSpec : Type 0 where
  pub alternate : Bool
  pub show_pos : Bool
  pub zero_pad : Bool
  pub has_width : Bool
  pub has_precision : Bool
  pub width : ℕ
  pub precision : ℕ

unfoldable pub no_spec : CFormatSpec
no_spec = record {
  alternate = false;
  show_pos = false;
  zero_pad = false;
  has_width = false;
  has_precision = false;
  width = 0;
  precision = 0;
}

-- `cFormatSpec.value != 0`
unfoldable pub is_set : CFormatSpec → Bool
is_set s = s.alternate || s.show_pos || s.zero_pad || s.has_width || s.has_precision

-- What a scan of the text behind a '%' comes to: no valid specification; one with its last
-- character and the text behind it; a scan past the end of the text, since `strchr` finds the
-- terminating zero in every set of characters; a number too long for `stoi`.
pub data Scan : Type 0 where
  invalid : Scan
  found : CFormatSpec → ℕ → Text → Scan
  overread : Scan
  too_big : Scan

-- "#0- +'I"
unfoldable pub is_flag : ℕ → Bool
is_flag c = c == b'#' || c == b'0' || c == b'-' || c == b' ' || c == b'+' || c == 39 || c == b'I'

unfoldable pub add_flag : ℕ → CFormatSpec → CFormatSpec
add_flag c s =
    if c == b'#'
    then record s { alternate = true }
    else if c == b'+'
    then record s { show_pos = true }
    else if c == b'0'
    then record s { zero_pad = true }
    else s

-- "hlqLjzZt"
unfoldable pub is_modifier : ℕ → Bool
is_modifier c =
    c == b'h'
    || c == b'l'
    || c == b'q'
    || c == b'L'
    || c == b'j'
    || c == b'z'
    || c == b'Z'
    || c == b't'

unfoldable pub is_alpha : ℕ → Bool
is_alpha c = leb b'a' c && leb c b'z' || leb b'A' c && leb c b'Z'

-- The digits at the front, and the rest.
unfoldable pub span_digits : Text → Text × Text
unfolding is_digit
span_digits [] = ([], [])
span_digits (c ∷ cs) =
    let (ds, rest) = span_digits cs in if is_digit c then (c ∷ ds, rest) else ([], c ∷ cs)

-- Length modifiers have no effect; then the conversion, any letter.
unfoldable pub scan_conversion : CFormatSpec → Text → Scan
unfolding is_modifier is_alpha
scan_conversion s [] = overread
scan_conversion s (c ∷ cs) =
    let rest = scan_conversion s cs in
    if is_modifier c then rest else if is_alpha c then found s c cs else invalid

abbrev pub int_max : ℕ
int_max = 2 ^ 31 - 1

-- A period and digits, perhaps none.
unfoldable pub scan_precision : CFormatSpec → Text → Scan
unfolding span_digits scan_conversion dec_value
scan_precision s [] = scan_conversion s []
scan_precision s (c ∷ cs) =
    let (ds, rest) = span_digits cs in
    let n = dec_value 0 ds in
    if c == b'.'
    then (if ltb int_max n
        then too_big
        else scan_conversion (record s { has_precision = true; precision = n % 256 }) rest)
    else scan_conversion s (c ∷ cs)

unfoldable pub scan_width : CFormatSpec → Text → Scan
unfolding span_digits scan_precision dec_value
scan_width s t =
    let (ds, rest) = span_digits t in
    let n = dec_value 0 ds in
    elim ds [
      | [] ↦ scan_precision s t
      | d ∷ ds' ↦
          if ltb int_max n
          then too_big
          else scan_precision (record s { has_width = true; width = n % 256 }) rest
    ]

unfoldable pub scan_flags : CFormatSpec → Text → Scan
unfolding is_flag add_flag scan_width
scan_flags s [] = overread
scan_flags s (c ∷ cs) =
    let rest = scan_flags (add_flag c s) cs in if is_flag c then rest else scan_width s (c ∷ cs)

-- `getFormatParamSpec` of the text behind a '%'; "%%" is a specification that ends in '%'.
unfoldable pub get_format_param_spec : Text → Scan
unfolding scan_flags no_spec
get_format_param_spec [] = scan_flags no_spec []
get_format_param_spec (c ∷ cs) =
    if c == b'%' then found no_spec c cs else scan_flags no_spec (c ∷ cs)

-- A width from 128 on is negative in its eight-bit field, and pads nothing; so for a precision, which
-- then counts as the usual six.
abbrev signed_field : ℕ → ℕ → ℕ
signed_field n negative = if ltb n 128 then n else negative

unfoldable pub apply_c_format_spec : CFormatSpec → OStream → OStream
apply_c_format_spec s os =
    let a = if s.alternate then record os { showbase = true } else os in
    let b = if s.show_pos then record a { showpos = true } else a in
    let c = if s.zero_pad then record b { fill = b'0' } else b in
    let d = if s.has_width then record c { fixed = true; width = signed_field s.width 0 } else c in
    if s.has_precision then record d { fixed = true; precision = signed_field s.precision 6 } else d

unfoldable pub reset_c_format_spec : OStream → OStream
reset_c_format_spec os = record os { showbase = false; showpos = false; fill = b' '; fixed = false }
