-- ===== src/Generic.antt =====
-- Formats with braces: `msgDesc` of QtFmtGeneric.cpp, which turns "a {} b {:x}" into the text "a %s b %x"
-- of a message's description.
mod RoundTrip
mod Tests
use quicktrace_public.Base.{ℕ, zero, suc, Bool, true, false, ◌&&◌, not, List, [], ◌∷◌, ◌++◌}
use quicktrace_public.Base.{Option, none, some, Text, length, ◌==◌, if◌then◌else◌}

-- The search for an opening brace: what is copied, and either the end of the format or the rest from
-- the brace on.
pub data Opened : Type 0 where
  ended : Text → Opened
  opened : Text → Text → Opened

abbrev pub emit : ℕ → Opened → Opened
emit c (ended out) = ended (c ∷ out)
emit c (opened out rest) = opened (c ∷ out) rest

-- A doubled brace is copied once; a closing brace alone ends the search, and everything is copied. (The
-- source copies in chunks.)
unfoldable pub open_brace : Text → Opened
open_brace [] = ended []
open_brace (c ∷ []) = if c == b'{' then opened [] (c ∷ []) else ended (c ∷ [])
open_brace (c ∷ d ∷ rest) = elim (c == b'{') [
  | true ↦ elim (d == b'{') [ true ↦ emit c (open_brace rest) | false ↦ opened [] (c ∷ d ∷ rest) ]
  | false ↦ elim (c == b'}') [
    | true ↦ elim (d == b'}') [ true ↦ emit c (open_brace rest) | false ↦ ended (c ∷ d ∷ rest) ]
    | false ↦ emit c (open_brace (d ∷ rest))
  ]
]

-- Behind ":x" or ":#x" only the closing brace is expected; the result has `isAlternate` and the rest.
unfoldable pub close_hex : Bool → Text → Option (Bool × Text)
close_hex alternate [] = none
close_hex alternate (c ∷ rest) = if c == b'}' then some (alternate, rest) else none

unfoldable pub hex_letter : Bool → Text → Option (Bool × Text)
unfolding close_hex
hex_letter alternate [] = none
hex_letter alternate (c ∷ rest) = if c == b'x' then close_hex alternate rest else none

-- Behind a colon
unfoldable pub hex_spec : Text → Option (Bool × Text)
unfolding hex_letter
hex_spec [] = none
hex_spec (c ∷ rest) = if c == b'#' then hex_letter true rest else hex_letter false (c ∷ rest)

-- What stands for an argument: `QVAR`, `QHEX` and `QHEXA`, by MsgDesc's `operator<<`.
abbrev pub qvar : Text
qvar = b'%' ∷ b's' ∷ []

abbrev pub qhex : Bool → Text
qhex alternate = if alternate then b'%' ∷ b'#' ∷ b'x' ∷ [] else b'%' ∷ b'x' ∷ []

abbrev hex_argument : Option (Bool × Text) → Option (Text × Text)
hex_argument none = none
hex_argument (some (alternate, rest)) = some (qhex alternate, rest)

-- The search for the closing brace, from behind the opening one: what stands for the argument, and the
-- rest; `none` for anything unexpected.
unfoldable pub close_brace : Text → Option (Text × Text)
unfolding hex_spec
close_brace [] = none
close_brace (c ∷ rest) =
    if c == b'}'
    then some (qvar, rest)
    else if c == b':'
    then hex_argument (hex_spec rest)
    else none

-- Where the closing brace is not found, the rest is copied from the opening one on.
unfoldable pub argument : (Text → Text) → Text → Text
unfolding close_brace
argument more [] = []
argument more (c ∷ rest) = elim (close_brace rest) [
  | none ↦ c ∷ rest
  | some (arg, r) ↦ arg ++ more r
]

abbrev pub continue : (Text → Text) → Opened → Text
continue more (ended out) = out
continue more (opened out rest) = out ++ argument more rest

-- The loop over the format: an argument in each round.
unfoldable pub generic_text : ℕ → Text → Text
unfolding open_brace argument
generic_text zero t = []
generic_text (suc fuel) t = continue (generic_text fuel) (open_brace t)

-- `className::funcName() `, without a class name that is empty; nothing for a null class name.
unfoldable pub function_name : Option Text → Text → Text
function_name none name = []
function_name (some []) name = name ++ (b'(' ∷ b')' ∷ b' ' ∷ [])
function_name (some (c ∷ cs)) name =
    (c ∷ cs) ++ ((b':' ∷ b':' ∷ []) ++ (name ++ (b'(' ∷ b')' ∷ b' ' ∷ [])))

-- `msgDesc`: what is appended to the description. Every round but the last takes two characters.
unfoldable pub generic_desc : Option Text → Text → Text → Text
unfolding generic_text function_name
generic_desc class_name name t = function_name class_name name ++ generic_text (suc (length t)) t
