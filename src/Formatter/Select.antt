-- ===== src/Formatter/Select.antt =====
-- The tables of formatters and lengths by format letter, and the look-up in them
-- (MessageFormatter.cpp: selectFormatter, selectLength and the static maps).
use quicktrace_public.Base.{ℕ, Bool, List, [], ◌∷◌, Option, none, some}
use quicktrace_public.Base.{Text, find, emplace, is_prefix, drop, if◌then◌else◌}
use quicktrace_public.Formatter.{LengthType, FormatterType}
use quicktrace_public.Formatter.Basic
use quicktrace_public.Formatter.Basic.{Host, format_opt, length_opt}
use quicktrace_public.Formatter.Float.{format_float, format_double}

-- `formattersById_`, `hexFormattersById_`, `lengthsById_`
pub record Tables : Type 0 where
  pub plain : List (Text × FormatterType)
  pub hex : List (Text × FormatterType)
  pub lengths : List (Text × LengthType)

abbrev pub letter : ℕ → Text
letter c = c ∷ []

-- "OPT"
abbrev pub opt_prefix : Text
opt_prefix = b'O' ∷ b'P' ∷ b'T' ∷ []

module _ (h : Host) where
  unfoldable pub formatters_by_id : List (Text × FormatterType)
  formatters_by_id =
      (letter b'u', Basic.format_u8)
      ∷ (letter b's', Basic.format_u16)
      ∷ (letter b'i', Basic.format_u32)
      ∷ (letter b'q', Basic.format_u64)
      ∷ (letter b'c', Basic.format_char)
      ∷ (letter b'p', Basic.format_string)
      ∷ (letter b'b', Basic.format_bool)
      ∷ (letter b'f', format_float h)
      ∷ (letter b'd', format_double h)
      ∷ (letter b'w', Basic.format_wall_clock)
      ∷ []

unfoldable pub hex_formatters_by_id : List (Text × FormatterType)
hex_formatters_by_id =
    (letter b'u', Basic.format_u8_hex)
    ∷ (letter b's', Basic.format_u16_hex)
    ∷ (letter b'i', Basic.format_u32_hex)
    ∷ (letter b'q', Basic.format_u64_hex)
    ∷ []

unfoldable pub lengths_by_id : List (Text × LengthType)
lengths_by_id =
    (letter b'u', Basic.length_u8)
    ∷ (letter b's', Basic.length_u16)
    ∷ (letter b'i', Basic.length_u32)
    ∷ (letter b'q', Basic.length_u64)
    ∷ (letter b'c', Basic.length_char)
    ∷ (letter b'p', Basic.length_string)
    ∷ (letter b'b', Basic.length_bool)
    ∷ (letter b'f', Basic.length_float)
    ∷ (letter b'd', Basic.length_double)
    ∷ (letter b'w', Basic.length_wall_clock)
    ∷ []

unfoldable pub built_in : Host → Tables
built_in h = record {
  plain = formatters_by_id h;
  hex = hex_formatters_by_id;
  lengths = lengths_by_id;
}

-- `addNewFormattersById` and `addNewLengthById`, which plugins call
unfoldable pub add_formatter_by_id : Text → FormatterType → Tables → Tables
add_formatter_by_id k f t = record t { plain = emplace k f t.plain }

unfoldable pub add_length_by_id : Text → LengthType → Tables → Tables
add_length_by_id k g t = record t { lengths = emplace k g t.lengths }

abbrev or_else {ℓ} : {A : Type ℓ} → Option A → Option A → Option A
or_else (some a) o = some a
or_else none o = o

-- The formatter behind "OPT": a hex one if asked for and there, else a plain one.
unfoldable pub inner_formatter : Tables → Text → Bool → Option FormatterType
inner_formatter t inner is_hex =
    if is_hex then or_else (find inner t.hex) (find inner t.plain) else find inner t.plain

-- A formatter made for an optional is kept in the table, for the next time.
unfoldable pub remember : Text → FormatterType → Bool → Tables → Tables
remember k f is_hex t =
    if is_hex
    then record t { hex = emplace k f t.hex }
    else record t { plain = emplace k f t.plain }

unfoldable pub select_opt : Tables → Text → Bool → Option FormatterType × Tables
unfolding inner_formatter remember
select_opt t fmt is_hex = elim (inner_formatter t (drop 3 fmt) is_hex) [
  | none ↦ (none, t)
  | some f ↦ (some (format_opt f), remember fmt (format_opt f) is_hex t)
]

-- `selectFormatter`: an exact match, then an optional, then (for hex) the plain formatter.
unfoldable pub select_formatter : Tables → Text → Bool → Option FormatterType × Tables
select_formatter t fmt is_hex = elim (if is_hex then find fmt t.hex else find fmt t.plain) [
  | some f ↦ (some f, t)
  | none ↦
      if is_prefix opt_prefix fmt
      then select_opt t fmt is_hex
      else (if is_hex then find fmt t.plain else none, t)
]

-- `selectLength`: `none` where `at` throws.
unfoldable pub select_length : Tables → Text → Option LengthType
select_length t fmt =
    if is_prefix opt_prefix fmt
    then elim (find (drop 3 fmt) t.lengths) [ none ↦ none | some g ↦ some (length_opt g) ]
    else find fmt t.lengths
