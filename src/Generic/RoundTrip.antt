-- ===== src/Generic/RoundTrip.antt =====
-- What `msgDesc` of QtFmtGeneric.cpp makes of a well-formed format.
use quicktrace_public.Base.{ℕ, zero, suc, ◌+◌, ◌≤◌, ◌≡◌, refl, ap, ◌∙◌, arith}
use quicktrace_public.Base.{Bool, true, false, List, [], ◌∷◌, ◌++◌, Option, Text}
use quicktrace_public.Base.{length, length-append, ◌==◌, if◌then◌else◌}
use quicktrace_public.Generic.{
  Opened, ended, opened, emit, open_brace, continue, generic_text, generic_desc, function_name,
  qvar, qhex,
}

-- The parts of a format: a character of the text, and the arguments.
pub data Piece : Type 0 where
  char : ℕ → Piece
  value : Piece
  hex : Bool → Piece

-- How a format is written: braces of the text are doubled.
abbrev pub piece_format : Piece → Text
piece_format (char c) = if c == b'{' then c ∷ c ∷ [] else if c == b'}' then c ∷ c ∷ [] else c ∷ []
piece_format value = b'{' ∷ b'}' ∷ []
piece_format (hex true) = b'{' ∷ b':' ∷ b'#' ∷ b'x' ∷ b'}' ∷ []
piece_format (hex false) = b'{' ∷ b':' ∷ b'x' ∷ b'}' ∷ []

abbrev pub format_of : List Piece → Text
format_of [] = []
format_of (p ∷ ps) = piece_format p ++ format_of ps

-- What the description has for it.
abbrev pub piece_text : Piece → Text
piece_text (char c) = c ∷ []
piece_text value = qvar
piece_text (hex alternate) = qhex alternate

abbrev pub text_of : List Piece → Text
text_of [] = []
text_of (p ∷ ps) = piece_text p ++ text_of ps

continue-emit :
    (more : Text → Text) (c : ℕ) (o : Opened) → continue more (emit c o) ≡ c ∷ continue more o
continue-emit more c (ended out) = refl
continue-emit more c (opened out rest) = refl

-- A character of the text is copied.
open_brace-char :
    (c : ℕ) (t : Text) → open_brace (piece_format (char c) ++ t) ≡ emit c (open_brace t)
unfolding open_brace
open_brace-char c [] = ground arith
open_brace-char c (d ∷ t) = ground arith

-- An argument is at least one character long.
length-format_of : (ps : List Piece) → length ps ≤ length (format_of ps)
length-format_of [] = omega arith
length-format_of (char c ∷ ps) =
    let step : length (format_of (char c ∷ ps))
        ≡ length (piece_format (char c)) + length (format_of ps) =
      length-append (piece_format (char c)) (format_of ps) in
    let one : 1 ≤ length (piece_format (char c)) = ground arith in
    omega (arith, length-format_of ps)
length-format_of (value ∷ ps) = omega (arith, length-format_of ps)
length-format_of (hex true ∷ ps) = omega (arith, length-format_of ps)
length-format_of (hex false ∷ ps) = omega (arith, length-format_of ps)

continue-format_of :
    (fuel : ℕ) (ps : List Piece)
    → length ps ≤ fuel
    → continue (generic_text fuel) (open_brace (format_of ps)) ≡ text_of ps
unfolding generic_text
continue-format_of fuel [] h = unfold open_brace in refl
continue-format_of fuel (char c ∷ ps) h = rw open_brace-char (
    continue-emit (generic_text fuel) c (open_brace (format_of ps))
    ∙ ap (λ (t : Text). c ∷ t) (continue-format_of fuel ps (omega arith)))
continue-format_of zero (value ∷ ps) h = absurd (omega arith)
continue-format_of zero (hex b ∷ ps) h = absurd (omega arith)
continue-format_of (suc fuel) (value ∷ ps) h =
    ap (λ (t : Text). qvar ++ t) (continue-format_of fuel ps (omega arith))
continue-format_of (suc fuel) (hex true ∷ ps) h =
    ap (λ (t : Text). qhex true ++ t) (continue-format_of fuel ps (omega arith))
continue-format_of (suc fuel) (hex false ∷ ps) h =
    ap (λ (t : Text). qhex false ++ t) (continue-format_of fuel ps (omega arith))

-- A well-formed format, of any characters (braces doubled) and of arguments `{}`, `{:x}` and `{:#x}`, is
-- described by its characters (braces single), with `%s`, `%x` and `%#x` for the arguments, behind the
-- names of the class and the function.
pub generic_desc-format_of :
    (class_name : Option Text) (name : Text) (ps : List Piece)
    → generic_desc class_name name (format_of ps) ≡ function_name class_name name ++ text_of ps
unfolding generic_desc
generic_desc-format_of class_name name ps =
    ap (λ (t : Text). function_name class_name name ++ t)
      (continue-format_of (length (format_of ps)) ps (length-format_of ps))
