-- ===== src/Levels/Tests.antt =====
-- Runs of the level list of qttail.
use quicktrace_public.Base.{arith, ◌≡◌, refl, [], ◌∷◌, Text}
use quicktrace_public.Levels.{
  parse_levels, parse_level, levels, or_level, find_from, parse_levels-first_comma,
}

-- "0,2,4"
abbrev three_levels : Text
three_levels = b'0' ∷ b',' ∷ b'2' ∷ b',' ∷ b'4' ∷ []

three_levels-test : parse_levels 9 three_levels ≡ levels 5
unfolding parse_levels
three_levels-test = refl

-- "0-2,5"
two_entries-test : parse_levels 9 (b'0' ∷ b'-' ∷ b'2' ∷ b',' ∷ b'5' ∷ []) ≡ levels 39
unfolding parse_levels
two_entries-test = refl

-- "0,2,4-6": what is behind the second comma is the end of a range.
range_behind-test :
    parse_levels 9 (b'0' ∷ b',' ∷ b'2' ∷ b',' ∷ b'4' ∷ b'-' ∷ b'6' ∷ []) ≡ levels 125
unfolding parse_levels
range_behind-test = refl

parse_levels-first_comma_example :
    parse_levels 2 three_levels
    ≡ or_level
        (parse_level (b'0' ∷ []))
        (or_level (parse_level (b'2' ∷ b',' ∷ b'4' ∷ [])) (levels 0))
parse_levels-first_comma_example =
    parse_levels-first_comma 0 three_levels 1 (omega arith) (unfold find_from in refl)
