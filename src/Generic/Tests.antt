-- ===== src/Generic/Tests.antt =====
-- A format with all kinds of parts, and malformed ones.
use quicktrace_public.Base.{◌≡◌, refl, true, List, [], ◌∷◌, ◌++◌, none, some}
use quicktrace_public.Generic.{generic_desc, function_name}
use quicktrace_public.Generic.RoundTrip.{
  Piece, char, value, hex, format_of, text_of, generic_desc-format_of,
}

abbrev pieces : List Piece
pieces = char b'{' ∷ value ∷ char b'a' ∷ hex true ∷ char b'}' ∷ []

generic_desc-format_of_example :
    generic_desc (some (b'C' ∷ [])) (b'f' ∷ []) (format_of pieces)
    ≡ function_name (some (b'C' ∷ [])) (b'f' ∷ []) ++ text_of pieces
generic_desc-format_of_example = generic_desc-format_of (some (b'C' ∷ [])) (b'f' ∷ []) pieces

-- "a}b{}" and "{:y}" are copied.
lone-test :
    generic_desc none [] (b'a' ∷ b'}' ∷ b'b' ∷ b'{' ∷ b'}' ∷ [])
    ≡ b'a' ∷ b'}' ∷ b'b' ∷ b'{' ∷ b'}' ∷ []
unfolding generic_desc
lone-test = refl

unknown-test :
    generic_desc none [] (b'{' ∷ b':' ∷ b'y' ∷ b'}' ∷ []) ≡ b'{' ∷ b':' ∷ b'y' ∷ b'}' ∷ []
unfolding generic_desc
unknown-test = refl
