-- ===== src/Levels.antt =====
-- The level list of qttail's option -l: parseLevel and parseLevels of qttail.cpp.
mod Tests
use quicktrace_public.Base.{
  ℕ, zero, suc, ◌+◌, ◌-◌, ◌*◌, ◌/◌, ◌%◌, ◌^◌, ◌≤◌, ◌<◌, ◌≡◌, refl, ap, ◌∙◌, arith,
}
use quicktrace_public.Base.{
  Bool, true, false, ◌&&◌, ◌||◌, List, [], ◌∷◌, Option, none, some, ◌==◌, ltb, leb, if◌then◌else◌,
}
use quicktrace_public.Base.{Text, take, drop, length, dec_value, get_elem?}
use quicktrace_public.Formatter.Spec.{span_digits}

abbrev is_space : ℕ → Bool
is_space c = c == 32 || leb 9 c && leb c 13

unfoldable skip_spaces : Text → Text
skip_spaces [] = []
skip_spaces (c ∷ cs) = let rest = skip_spaces cs in if is_space c then rest else c ∷ cs

-- The number that `stoi` reads, if it is from 0 to `int`'s largest; other results are no level.
unfoldable number : Bool → Text → Option ℕ
unfolding span_digits dec_value
number negative s =
    let (ds, rest) = span_digits s in
    let n = dec_value 0 ds in
    elim ds [
      | [] ↦ none
      | d ∷ ds' ↦ if ltb (2 ^ 31 - 1) n || negative && ltb 0 n then none else some n
    ]

unfoldable stoi : Text → Option ℕ
unfolding skip_spaces number
stoi s = elim (skip_spaces s) [
  | [] ↦ none
  | c ∷ cs ↦
      if c == b'-'
      then number true cs
      else if c == b'+'
      then number false cs
      else number false (c ∷ cs)
]

-- The lambda `parse`; `none` is the exit by `usage`.
unfoldable parse_number : Text → Option ℕ
unfolding stoi
parse_number s = elim (stoi s) [ none ↦ none | some n ↦ if ltb 9 n then none else some n ]

-- `find` of a character from a position on.
unfoldable pub find_from : Text → ℕ → ℕ → ℕ → Option ℕ
find_from [] c from at' = none
find_from (d ∷ ds) c from at' =
    let rest = find_from ds c from (at' + 1) in if leb from at' && d == c then some at' else rest

-- The bits of a range of levels.
unfoldable range_mask : ℕ → ℕ → ℕ
range_mask from zero = 0
range_mask from (suc n) = 2 ^ from + range_mask (from + 1) n

unfoldable parse_range : Option ℕ → Option ℕ → Option ℕ
unfolding range_mask
parse_range none e = none
parse_range (some s) none = none
parse_range (some s) (some e) = if ltb e s then none else some (range_mask s (e - s + 1))

-- `parseLevel`: the mask of a level or of a range.
unfoldable pub parse_level : Text → Option ℕ
unfolding parse_number find_from parse_range
parse_level arg = elim (find_from arg b'-' 0 0) [
  | none ↦ elim (parse_number arg) [ none ↦ none | some n ↦ some (2 ^ n) ]
  | some pos ↦ parse_range (parse_number (take pos arg)) (parse_number (drop (pos + 1) arg))
]

-- `a | b` of masks of at most `n` bits.
unfoldable pub bit_or : ℕ → ℕ → ℕ → ℕ
bit_or zero a b = 0
bit_or (suc n) a b = (if a % 2 == 1 || b % 2 == 1 then 1 else 0) + 2 * bit_or n (a / 2) (b / 2)

-- The results: the mask, the exit by `usage`, or the model ran out of fuel.
pub data Parsed : Type 0 where
  levels : ℕ → Parsed
  usage : Parsed
  no_fuel : Parsed

unfoldable pub or_level : Option ℕ → Parsed → Parsed
unfolding bit_or
or_level none p = usage
or_level (some a) (levels b) = levels (bit_or 32 a b)
or_level (some a) usage = usage
or_level (some a) no_fuel = no_fuel

-- The loop of `parseLevels` from `spos` on, with the position `epos` of the next comma. The code
-- looks for it by `find( spos, ',' )`: for the character whose code is the position, from position
-- 44 on, which is the code of the comma. A length below zero takes the text up to its end.
unfoldable pub levels_loop : ℕ → Text → ℕ → Option ℕ → Parsed
unfolding parse_level find_from or_level
levels_loop zero arg spos epos = no_fuel
levels_loop (suc fuel) arg spos none = or_level (parse_level (drop spos arg)) (levels 0)
levels_loop (suc fuel) arg spos (some epos) =
    let s = if ltb epos spos then drop spos arg else take (epos - spos) (drop spos arg) in
    or_level (parse_level s)
      (levels_loop fuel arg (epos + 1) (find_from arg ((epos + 1) % 256) b',' 0))

unfoldable pub parse_levels : ℕ → Text → Parsed
unfolding levels_loop find_from
parse_levels fuel arg = levels_loop fuel arg 0 (find_from arg b',' 0 0)

find_from-late : (s : Text) (c from at' : ℕ) → at' + length s ≤ from → find_from s c from at' ≡ none
unfolding find_from
find_from-late [] c from at' h = refl
find_from-late (d ∷ ds) c from at' h = ground (arith, find_from-late ds c from (at' + 1))

-- A list of levels in at most 44 characters with a comma is split at its first comma only, whatever
-- the fuel from two entries on: all that is behind, further commas included, is read as one level or
-- range.
pub parse_levels-first_comma :
    (fuel : ℕ) (arg : Text) (p : ℕ)
    → length arg ≤ 44
    → find_from arg b',' 0 0 ≡ some p
    → parse_levels (suc (suc fuel)) arg
      ≡ or_level (parse_level (take p arg)) (or_level (parse_level (drop (p + 1) arg)) (levels 0))
unfolding parse_levels levels_loop
parse_levels-first_comma fuel arg p h e =
    let late = find_from-late arg ((p + 1) % 256) b',' 0 (omega (arith, h)) in
    let z : p - 0 ≡ p = omega arith in
    let n : ltb p 0 ≡ false = ground arith in rw (e, late, z, n) refl
