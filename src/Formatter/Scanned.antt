-- ===== src/Formatter/Scanned.antt =====
-- A scan of a conversion specification consumes what it finds.
use quicktrace_public.Base.{◌-◌, ◌^◌, ◌%◌, ℕ, ◌≤◌, ◌<◌, arith}
use quicktrace_public.Base.{Bool, true, false, [], ◌∷◌}
use quicktrace_public.Base.{Text, if◌then◌else◌, ◌==◌, length, ltb, dec_value}
use quicktrace_public.Formatter.Spec.{
  no_spec, CFormatSpec, Scan, invalid, found, overread, too_big, get_format_param_spec, scan_flags,
  scan_width, scan_precision, scan_conversion, span_digits, is_flag, add_flag, is_modifier,
  is_alpha,
}

-- The text left by a scan is shorter than the text scanned.
unfoldable pub Shorter : Text → Scan → Type 0
Shorter t invalid = Unit
Shorter t (found s c rest) = length rest < length t
Shorter t overread = Unit
Shorter t too_big = Unit

Shorter-invalid : (t : Text) → Shorter t invalid
unfolding Shorter
Shorter-invalid t = tt

Shorter-too_big : (t : Text) → Shorter t too_big
unfolding Shorter
Shorter-too_big t = tt

Shorter-overread : (t : Text) → Shorter t overread
unfolding Shorter
Shorter-overread t = tt

Shorter-found : (c : ℕ) (cs : Text) (p : CFormatSpec) (d : ℕ) → Shorter (c ∷ cs) (found p d cs)
unfolding Shorter
Shorter-found c cs p d = omega arith

Shorter-le : (s t : Text) (x : Scan) → length s ≤ length t → Shorter s x → Shorter t x
unfolding Shorter
Shorter-le s t invalid h k = tt
Shorter-le s t (found p c rest) h k = omega arith
Shorter-le s t overread h k = tt
Shorter-le s t too_big h k = tt

if-Shorter :
    (t : Text) (b : Bool) (x y : Scan) → Shorter t x → Shorter t y → Shorter t (if b then x else y)
if-Shorter t true x y h k = h
if-Shorter t false x y h k = k

span_digits-le : (s : Text) → length (span_digits s).1 ≤ length s
unfolding span_digits
span_digits-le [] = omega arith
span_digits-le (c ∷ cs) = ground (arith, span_digits-le cs)

scan_conversion-Shorter : (p : CFormatSpec) (s : Text) → Shorter s (scan_conversion p s)
unfolding scan_conversion
scan_conversion-Shorter p [] = Shorter-overread []
scan_conversion-Shorter p (c ∷ cs) =
    if-Shorter (c ∷ cs) (is_modifier c) _ _
      (Shorter-le cs (c ∷ cs) _ (omega arith) (scan_conversion-Shorter p cs))
      (if-Shorter (c ∷ cs) (is_alpha c) _ _ (Shorter-found c cs p c) (Shorter-invalid _))

scan_precision-Shorter : (p : CFormatSpec) (s : Text) → Shorter s (scan_precision p s)
unfolding scan_precision
scan_precision-Shorter p [] = scan_conversion-Shorter p []
scan_precision-Shorter p (c ∷ cs) =
    if-Shorter (c ∷ cs) (c == b'.') _ _
      (if-Shorter (c ∷ cs) _ _ _ (Shorter-too_big _) (
        Shorter-le (span_digits cs).1 (c ∷ cs) _ (ground (arith, span_digits-le cs))
          (scan_conversion-Shorter _ _)))
      (scan_conversion-Shorter p (c ∷ cs))

scan_width-Shorter : (p : CFormatSpec) (s : Text) → Shorter s (scan_width p s)
unfolding scan_width
scan_width-Shorter p s = go (span_digits s).0
  where
    go :
        (ds : Text)
        → Shorter s (elim ds [
          | [] ↦ scan_precision p s
          | d ∷ ds' ↦
              if ltb (2 ^ 31 - 1) (dec_value 0 (span_digits s).0)
              then too_big
              else scan_precision
                  (record p { has_width = true; width = dec_value 0 (span_digits s).0 % 256 })
                  (span_digits s).1
        ])
    go [] = scan_precision-Shorter p s
    go (d ∷ ds) =
        if-Shorter s _ _ _ (Shorter-too_big s)
          (Shorter-le (span_digits s).1 s _ (span_digits-le s) (scan_precision-Shorter _ _))

scan_flags-Shorter : (p : CFormatSpec) (s : Text) → Shorter s (scan_flags p s)
unfolding scan_flags
scan_flags-Shorter p [] = Shorter-overread []
scan_flags-Shorter p (c ∷ cs) =
    if-Shorter (c ∷ cs) (is_flag c) _ _
      (Shorter-le cs (c ∷ cs) _ (omega arith) (scan_flags-Shorter (add_flag c p) cs))
      (scan_width-Shorter p (c ∷ cs))

pub get_format_param_spec-Shorter : (s : Text) → Shorter s (get_format_param_spec s)
unfolding get_format_param_spec
get_format_param_spec-Shorter [] = scan_flags-Shorter no_spec []
get_format_param_spec-Shorter (c ∷ cs) =
    if-Shorter (c ∷ cs) (c == b'%') _ _ (Shorter-found c cs _ c) (scan_flags-Shorter _ (c ∷ cs))
