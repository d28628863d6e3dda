-- ===== src/Formatter/Init.antt =====
-- `MessageFormatter::init`: the text of a message with its printf-style placeholders, and the format
-- letters of its parameters, compiled to a list of formatters and a list of lengths.
use quicktrace_public.Base.{ℕ, zero, suc, Bool, true, false, ◌&&◌, ◌||◌}
use quicktrace_public.Base.{List, [], ◌∷◌, ◌++◌, Option, none, some}
use quicktrace_public.Base.{Text, ◌==◌, if◌then◌else◌, length, is_prefix, drop}
use quicktrace_public.Formatter.{
  LengthType, FormatterType, Step, fixed_text, param, MessageFormatter,
}
use quicktrace_public.Formatter.Stream.{insert}
use quicktrace_public.Formatter.Select.{Tables, select_formatter, select_length, letter}
use quicktrace_public.Formatter.Spec.{CFormatSpec, invalid, found, overread, too_big, is_set}
use quicktrace_public.Formatter.Spec.{
  get_format_param_spec, apply_c_format_spec, reset_c_format_spec,
}

-- How the construction can fail: `exit` on an unknown format, the exception of `at`, that of `stoi`,
-- a read past the end of the text. `stuck` is no failure of the program: the loop ran out of fuel.
pub data Failure : Type 0 where
  unsupported : Text → Failure
  no_length : Text → Failure
  bad_number : Failure
  past_end : Failure
  stuck : Failure

pub data Result {ℓ} (A : Type ℓ) : Type ℓ where
  ok : A → Result A
  fail : Failure → Result A

infixl 5 ◌>>=◌
abbrev pub ◌>>=◌ {ℓ κ} : {A : Type ℓ} {B : Type κ} → Result A → (A → Result B) → Result B
ok a >>= f = f a
fail e >>= f = fail e

-- What `init` builds: `formatters_`, `lengths_`, the tables, and `fmtPtr`.
pub record Build : Type 0 where
  pub formatters : List Step
  pub lengths : List LengthType
  pub tables : Tables
  pub fmt_ptr : Text

abbrev pub print : Text → Step
print s = fixed_text (insert s)

unfoldable pub add_steps : List Step → Build → Build
add_steps ss b = record b { formatters = b.formatters ++ ss }

-- The format up to the next comma, and what is behind the comma.
unfoldable pub split_comma : Text → Text × Text
split_comma [] = ([], [])
split_comma (c ∷ cs) =
    let (front, rest) = split_comma cs in if c == b',' then ([], cs) else (c ∷ front, rest)

-- The end of `addFormatter`: the length is looked up, and both lists grow.
unfoldable pub add_pair :
    Text → Text → FormatterType → Tables → Option LengthType → Build → Result Build
add_pair fmt rest f t none b = fail (no_length fmt)
add_pair fmt rest f t (some g) b = ok (record {
  formatters = b.formatters ++ (param f ∷ []);
  lengths = b.lengths ++ (g ∷ []);
  tables = t;
  fmt_ptr = rest;
})

unfoldable pub add_selected : Text → Text → Option FormatterType × Tables → Build → Result Build
unfolding add_pair
add_selected fmt rest (none, t) b = fail (unsupported fmt)
add_selected fmt rest (some f, t) b = add_pair fmt rest f t (select_length t fmt) b

-- The lambda `addFormatter`.
unfoldable pub add_formatter : ℕ → Build → Result Build
unfolding split_comma add_steps add_selected
add_formatter conv b =
    let (fmt, rest) = split_comma b.fmt_ptr in
    add_selected fmt rest (select_formatter b.tables fmt (conv == b'p' || conv == b'x')) b

-- The next placeholder of a text: what stands before its '%', its specification, its last
-- character, and the text behind it. `none`: there is no more.
pub record Placeholder : Type 0 where
  pub before : Text
  pub spec : CFormatSpec
  pub conv : ℕ
  pub behind : Text

abbrev pub Next : Type 0
Next = Result (Option Placeholder)

unfoldable pub behind_char : ℕ → Next → Next
behind_char c (ok none) = ok none
behind_char c (ok (some p)) = ok (some (record p { before = c ∷ p.before }))
behind_char c (fail e) = fail e

-- An invalid specification is passed over.
unfoldable pub next_placeholder : Text → Next
unfolding behind_char
next_placeholder [] = ok none
next_placeholder (c ∷ cs) =
    let rest = behind_char c (next_placeholder cs) in
    if c == b'%'
    then elim (get_format_param_spec cs) [
      | invalid ↦ rest
      | found s conv behind ↦
          ok (some (record { before = []; spec = s; conv = conv; behind = behind }))
      | overread ↦ fail past_end
      | too_big ↦ fail bad_number
    ]
    else rest

unfoldable pub print_before : Text → Build → Build
unfolding add_steps
print_before [] b = b
print_before (c ∷ cs) b = add_steps (print (c ∷ cs) ∷ []) b

-- The steps that a placeholder puts round its parameter.
unfoldable pub add_placeholder : Placeholder → Build → Result Build
unfolding print_before add_steps
add_placeholder p b = do
  let b1 = print_before p.before b
  let b2 = if p.conv == b'p' then add_steps (print (b'0' ∷ b'x' ∷ []) ∷ []) b1 else b1
  let b3 = if is_set p.spec then add_steps (fixed_text (apply_c_format_spec p.spec) ∷ []) b2 else b2
  b4 ← add_formatter p.conv b3
  ok (if is_set p.spec then add_steps (fixed_text reset_c_format_spec ∷ []) b4 else b4)

-- A placeholder for which there is no parameter left ends the loop (`none`).
unfoldable pub put_placeholder : Placeholder → Text → Build → Result (Option Build)
put_placeholder p [] b = ok none
put_placeholder p (c ∷ cs) b = add_placeholder p b >>= λ b'. ok (some b')

-- "%%" prints a '%'.
unfoldable pub placeholder_step : Placeholder → Build → Result (Option Build)
unfolding put_placeholder
placeholder_step p b =
    if p.conv == b'%'
    then ok (some (add_steps (print (p.before ++ (b'%' ∷ [])) ∷ []) b))
    else put_placeholder p b.fmt_ptr b

-- The loop over the text; the second part of the result is the text left when it stops.
unfoldable pub text_loop : ℕ → Text → Build → Result (Build × Text)
unfolding placeholder_step next_placeholder
text_loop fuel [] b = ok (b, [])
text_loop zero (c ∷ cs) b = fail stuck
text_loop (suc fuel) (c ∷ cs) b = next_placeholder (c ∷ cs) >>= λ o. elim o [
  | none ↦ ok (add_steps (print (c ∷ cs) ∷ []) b, [])
  | some p ↦ placeholder_step p b >>= λ q. elim q [
    | none ↦ ok (b, c ∷ cs)
    | some b' ↦ text_loop fuel p.behind b'
  ]
]

-- The loop over the formats where text and parameters do not fit together; `t` is `fmtPtr`.
unfoldable pub list_loop : ℕ → Bool → Text → Build → Result Build
list_loop fuel first [] b = ok b
list_loop zero first (c ∷ cs) b = fail stuck
list_loop (suc fuel) first (c ∷ cs) b =
    add_formatter b's' (if first then b else add_steps (print (letter b',') ∷ []) b) >>= λ b'.
    list_loop fuel false b'.fmt_ptr b'

-- "q,q,"
abbrev pub wall_clock_format : Text
wall_clock_format = b'q' ∷ b',' ∷ b'q' ∷ b',' ∷ []

-- The two fields of a wall-clock time are passed over together.
unfoldable pub skip_wall_clock : ℕ → Build → Result Build
unfolding add_selected
skip_wall_clock lineno b =
    if lineno == 0 && is_prefix wall_clock_format b.fmt_ptr
    then add_selected (letter b'w') (drop 4 b.fmt_ptr)
        (select_formatter b.tables (letter b'w') false) b
    else ok b

-- " % ("
abbrev open_list : Text
open_list = b' ' ∷ b'%' ∷ b' ' ∷ b'(' ∷ []

-- The message followed by its parameters in a list.
unfoldable pub list_parameters : Text → Text → Build → Result Build
list_parameters msg fmt b = do
  let start : Build = record {
    formatters = print msg ∷ print open_list ∷ [];
    lengths = [];
    tables = b.tables;
    fmt_ptr = fmt;
  }
  b' ← list_loop (length fmt) true fmt start
  ok (add_steps (print (b')' ∷ b' ' ∷ []) ∷ []) b')

abbrev pub is_done : Text → Text → Bool
is_done [] [] = true
is_done _ _ = false

-- `init`, with the tables that later messages find.
unfoldable pub init : Tables → ℕ → Text → Text → Result Build
init tables lineno msg fmt = do
  let empty : Build = record { formatters = []; lengths = []; tables = tables; fmt_ptr = fmt }
  b ← skip_wall_clock lineno empty
  (b', rest) ← text_loop (length msg) msg b
  if is_done rest b'.fmt_ptr then ok b' else list_parameters msg fmt b'

-- The constructor of MessageFormatter.
unfoldable pub make_formatter : Tables → Text → ℕ → Text → Text → Result (MessageFormatter × Tables)
make_formatter tables filename lineno msg fmt = do
  b ← init tables lineno msg fmt
  let f : MessageFormatter = record {
    filename = filename;
    lineno = lineno;
    msg = msg;
    fmt = fmt;
    formatters = b.formatters;
    lengths = b.lengths;
  }
  ok (f, b.tables)
