-- ===== src/Formatter/Basic.antt =====
-- The length functions and formatters of the basic types (MessageFormatter.cpp).
use quicktrace_public.Base.{ℕ, ◌+◌, Bool, ◌&&◌, List, [], ◌∷◌}
use quicktrace_public.Base.{read, load, ltb, leb, ◌==◌, ◌!=◌, if◌then◌else◌, hex_text}
use quicktrace_public.Formatter.{LengthType, FormatterType}
use quicktrace_public.Formatter.Stream.{insert, write_raw, insert_number, insert_hex}

-- What the C library prints for the bits of a float or double (`std::to_string`, and the stream
-- with a precision), and for a time (`strftime` of `localtime`).
pub record Host : Type 0 where
  pub float_to_text : ℕ → List ℕ
  pub double_to_text : ℕ → List ℕ
  pub float_fixed : ℕ → ℕ → List ℕ
  pub double_fixed : ℕ → ℕ → List ℕ
  pub local_time : ℕ → List ℕ

-- `lengthBool`, `lengthChar`, `lengthU8`, ...: a fixed number of bytes
unfoldable pub length_bool : LengthType
length_bool m buf = 1

unfoldable pub length_char : LengthType
length_char m buf = 1

unfoldable pub length_wall_clock : LengthType
length_wall_clock m buf = 16

unfoldable pub length_double : LengthType
length_double m buf = 8

unfoldable pub length_float : LengthType
length_float m buf = 4

-- A string has its length in front.
unfoldable pub length_string : LengthType
length_string m buf = 1 + m buf

unfoldable pub length_u8 : LengthType
length_u8 m buf = 1

unfoldable pub length_u16 : LengthType
length_u16 m buf = 2

unfoldable pub length_u32 : LengthType
length_u32 m buf = 4

unfoldable pub length_u64 : LengthType
length_u64 m buf = 8

-- An optional: the tag byte, and the value unless the tag is 0.
unfoldable pub length_opt : LengthType → LengthType
unfolding length_u8
length_opt inner m buf =
    let len = length_u8 m buf in if m buf != 0 then len + inner m (buf + len) else len

unfoldable pub format_bool : FormatterType
unfolding length_bool
format_bool m buf os = (
  length_bool m buf,
  insert
      (if m buf != 0 then b'T' ∷ b'r' ∷ b'u' ∷ b'e' ∷ [] else b'F' ∷ b'a' ∷ b'l' ∷ b's' ∷ b'e' ∷ [])
      os,
)

unfoldable pub is_print : ℕ → Bool
is_print c = leb 32 c && leb c 126

-- The text of a character: escaped where it would not print.
unfoldable pub char_text : ℕ → List ℕ
unfolding is_print
char_text c =
    if c == 10
    then b'\\' ∷ b'n' ∷ []
    else if c == 13
    then b'\\' ∷ b'r' ∷ []
    else if c == 9
    then b'\\' ∷ b't' ∷ []
    else if c == 39
    then b'\\' ∷ 39 ∷ []
    else if c == 92
    then b'\\' ∷ 92 ∷ []
    else if is_print c
    then c ∷ []
    else if ltb c 16
    then b'\\' ∷ b'x' ∷ b'0' ∷ hex_text c
    else b'\\' ∷ b'x' ∷ hex_text c

unfoldable pub format_char : FormatterType
unfolding length_char char_text
format_char m buf os = (length_char m buf, insert (char_text (m buf)) os)

unfoldable pub format_string : FormatterType
unfolding length_string
format_string m buf os = (length_string m buf, write_raw (read m (buf + 1) (m buf)) os)

unfoldable pub format_u8 : FormatterType
unfolding length_u8
format_u8 m buf os = (length_u8 m buf, insert_number (m buf) os)

unfoldable pub format_u8_hex : FormatterType
unfolding length_u8
format_u8_hex m buf os = (length_u8 m buf, insert_hex (m buf) os)

unfoldable pub format_u16 : FormatterType
unfolding length_u16
format_u16 m buf os = (length_u16 m buf, insert_number (load m buf 2) os)

unfoldable pub format_u16_hex : FormatterType
unfolding length_u16
format_u16_hex m buf os = (length_u16 m buf, insert_hex (load m buf 2) os)

-- With %+d a plus sign goes in front by hand.
unfoldable pub format_u32 : FormatterType
unfolding length_u32
format_u32 m buf os = (
  length_u32 m buf,
  insert_number (load m buf 4) (if os.showpos then insert (b'+' ∷ []) os else os),
)

unfoldable pub format_u32_hex : FormatterType
unfolding length_u32
format_u32_hex m buf os = (length_u32 m buf, insert_hex (load m buf 4) os)

unfoldable pub format_u64 : FormatterType
unfolding length_u64
format_u64 m buf os = (length_u64 m buf, insert_number (load m buf 8) os)

unfoldable pub format_u64_hex : FormatterType
unfolding length_u64
format_u64_hex m buf os = (length_u64 m buf, insert_hex (load m buf 8) os)

-- The time stamp of a wall-clock message is printed elsewhere, so nothing is printed here.
unfoldable pub format_wall_clock : FormatterType
unfolding length_wall_clock
format_wall_clock m buf os = (length_wall_clock m buf, os)

unfoldable pub none_text : List ℕ
none_text = b'O' ∷ b'p' ∷ b't' ∷ b'i' ∷ b'o' ∷ b'n' ∷ b'a' ∷ b'l' ∷ b'N' ∷ b'o' ∷ b'n' ∷ b'e' ∷ []

unfoldable pub format_opt : FormatterType → FormatterType
unfolding length_u8 none_text
format_opt inner m buf os =
    let len = length_u8 m buf in
    let (l, os') = inner m (buf + len) os in
    if m buf != 0 then (len + l, os') else (len, insert none_text os)
