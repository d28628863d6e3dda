-- ===== src/Sizes/Parse.antt =====
-- The sizes given as text to the C interface: QuickTrace_initialize and its variant in QuickTrace.cpp,
-- and qt_initialize_handle of Qtc.cpp, with strtok_r and atoi of the C library.
use quicktrace_public.Base.{ℕ, ◌+◌, ◌-◌, ◌%◌, ◌^◌, Bool, true, false, ◌&&◌, ◌||◌, List, [], ◌∷◌}
use quicktrace_public.Base.{◌++◌, Option, none, some, Text, ◌==◌, leb, ltb, if◌then◌else◌}
use quicktrace_public.Base.{length, set, replicate, is_digit, dec_value}
use quicktrace_public.Sizes.{SizeSpec}

-- `strtok_r( s, ", ", … )`, called until there is no token left.
unfoldable pub is_delimiter : ℕ → Bool
is_delimiter c = c == b',' || c == b' '

abbrev add_token : Text → List Text → List Text
add_token [] ts = ts
add_token (c ∷ cs) ts = (c ∷ cs) ∷ ts

unfoldable pub tokens_behind : Text → Text → List Text
unfolding is_delimiter
tokens_behind token [] = add_token token []
tokens_behind token (c ∷ cs) = elim (is_delimiter c) [
  | true ↦ add_token token (tokens_behind [] cs)
  | false ↦ tokens_behind (token ++ (c ∷ [])) cs
]

unfoldable pub tokens : Text → List Text
unfolding tokens_behind
tokens t = tokens_behind [] t

-- `isspace`
abbrev is_space : ℕ → Bool
is_space c = c == b' ' || leb 9 c && leb c 13

unfoldable pub skip_space : Text → Text
skip_space [] = []
skip_space (c ∷ cs) = let rest = skip_space cs in if is_space c then rest else c ∷ cs

unfoldable pub leading_digits : Text → Text
unfolding is_digit
leading_digits [] = []
leading_digits (c ∷ cs) = let rest = leading_digits cs in if is_digit c then c ∷ rest else []

abbrev digits_value : Text → ℕ
digits_value t = dec_value 0 (leading_digits t) % 2 ^ 32

abbrev signed_value : Text → ℕ
signed_value [] = 0
signed_value (c ∷ cs) =
    if c == b'-'
    then (2 ^ 32 - digits_value cs) % 2 ^ 32
    else if c == b'+'
    then digits_value cs
    else digits_value (c ∷ cs)

-- `atoi`, as the bits of an `int`; a number that no `int` holds has no defined value.
unfoldable pub atoi : Text → ℕ
unfolding skip_space leading_digits dec_value
atoi t = signed_value (skip_space t)

-- `atoi( c ) ?: 1`
unfoldable pub size_of : Text → ℕ
unfolding atoi
size_of t = let n = atoi t in if n == 0 then 1 else n

abbrev pub default_sizes : SizeSpec
default_sizes = replicate 10 8

-- The loop of QuickTrace_initialize: it stops after ten sizes.
unfoldable pub size_loop : ℕ → List Text → SizeSpec → SizeSpec
size_loop i [] ss = ss
size_loop i (t ∷ ts) ss =
    let ss' = set ss i (size_of t) in
    let more = size_loop (i + 1) ts ss' in if ltb (i + 1) 10 then more else ss'

-- The sizes of QuickTrace_initialize; `none` is the null pointer.
unfoldable pub initialize_sizes : Option Text → SizeSpec
unfolding size_loop
initialize_sizes none = default_sizes
initialize_sizes (some t) = size_loop 0 (tokens t) default_sizes

-- The loop of qt_initialize_handle: it goes on as long as there are tokens. `none` is a write behind
-- the array.
unfoldable pub handle_size_loop : ℕ → List Text → SizeSpec → Option SizeSpec
handle_size_loop i [] ss = some ss
handle_size_loop i (t ∷ ts) ss =
    let more = handle_size_loop (i + 1) ts (set ss i (size_of t)) in
    if ltb i (length ss) then more else none

unfoldable pub handle_sizes : Option Text → Option SizeSpec
unfolding handle_size_loop
handle_sizes none = some default_sizes
handle_sizes (some t) = handle_size_loop 0 (tokens t) default_sizes
