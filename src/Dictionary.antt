-- ===== src/Dictionary.antt =====
-- The message descriptions at the end of a trace file: MsgDesc of QuickTrace.cpp writes them,
-- MessageParser (MessageParser.cpp) and Messages (qttail.cpp) read them.
pub mod Numbers
pub mod Signed
pub mod RoundTrip
mod Tests
use quicktrace_public.Base.{◌≡◌, refl, ℕ, zero, suc, ◌+◌, ◌-◌, ◌*◌, ◌/◌, ◌%◌, ◌^◌}
use quicktrace_public.Base.{
  Bool, true, false, ◌&&◌, ◌||◌, not, List, [], ◌∷◌, ◌++◌, Option, none, some, ◌==◌, ltb, leb,
  if◌then◌else◌,
}
use quicktrace_public.Base.{Text, take, drop, length, le_bytes, le_value, dec_text}

abbrev pub is_space : ℕ → Bool
is_space c = c == 32 || leb 9 c && leb c 13

-- `sprintf` of a signed number with `w` bits: the bits are given, as a number below 2 ^ w.
unfoldable pub signed_text : ℕ → ℕ → Text
signed_text w n = if ltb n (2 ^ (w - 1)) then dec_text n else b'-' ∷ dec_text (2 ^ w - n)

-- What the constructor of MsgDesc writes, `sprintf` of time stamp, file, line and id. The time
-- stamp is printed as a signed number with 64 bits, line and id as `int`.
unfoldable pub desc_head : ℕ → Text → ℕ → ℕ → Text
unfolding signed_text
desc_head tsc file line id =
    signed_text 64 tsc
    ++ (32 ∷ file ++ (32 ∷ signed_text 32 line ++ (32 ∷ signed_text 32 id ++ (32 ∷ []))))

-- A text behind its length, the terminating zero included.
unfoldable pub put_pstring : Text → Text
put_pstring s = le_bytes 4 (length s + 1) ++ (s ++ (0 ∷ []))

abbrev pub buf_size : ℕ
buf_size = 1024

-- `finish`: the message and its format keys; `none` where the buffer is too small and an assertion
-- fails.
unfoldable pub msg_desc : ℕ → Text → ℕ → ℕ → Text → Text → Option Text
unfolding desc_head put_pstring
msg_desc tsc file line id msg key =
    let bytes = desc_head tsc file line id ++ (put_pstring msg ++ put_pstring key) in
    if ltb buf_size (length bytes) then none else some bytes

-- The value of a digit, 99 for another character.
unfoldable pub digit_of : ℕ → ℕ
digit_of c =
    if leb b'0' c && leb c b'9'
    then c - b'0'
    else if leb b'a' c && leb c b'z'
    then c - b'a' + 10
    else if leb b'A' c && leb c b'Z'
    then c - b'A' + 10
    else 99

-- The digits of a base at the front of a text, and the rest.
unfoldable pub span_base : ℕ → Text → Text × Text
unfolding digit_of
span_base base [] = ([], [])
span_base base (c ∷ cs) =
    let (ds, rest) = span_base base cs in
    if ltb (digit_of c) base then (c ∷ ds, rest) else ([], c ∷ cs)

unfoldable pub base_value : ℕ → ℕ → Text → ℕ
unfolding digit_of
base_value base acc [] = acc
base_value base acc (c ∷ cs) = base_value base (acc * base + digit_of c) cs

unfoldable pub skip_white_space : Text → Text
skip_white_space [] = []
skip_white_space (c ∷ cs) = let rest = skip_white_space cs in if is_space c then rest else c ∷ cs

-- The number at the front of a text in a base, of any size, and the rest.
unfoldable pub base_number : ℕ → Text → ℕ × Text
unfolding span_base base_value
base_number base s = let (ds, rest) = span_base base s in (base_value base 0 ds, rest)

-- What follows a '0' in base 0: an 'x' and a digit begin a hexadecimal number, else it is octal.
unfoldable pub zero_number : Text → ℕ × Text
unfolding base_number
zero_number [] = (0, [])
zero_number (x ∷ []) = base_number 8 (x ∷ [])
zero_number (x ∷ d ∷ ds) =
    if (x == b'x' || x == b'X') && ltb (digit_of d) 16
    then base_number 16 (d ∷ ds)
    else base_number 8 (x ∷ d ∷ ds)

unfoldable pub unsigned_number : Text → ℕ × Text
unfolding zero_number
unsigned_number [] = (0, [])
unsigned_number (c ∷ cs) = if c == b'0' then zero_number cs else base_number 10 (c ∷ cs)

-- The 64-bit result of a number with a sign: a number that is too large gives the largest one,
-- whatever its sign is.
unfoldable pub with_sign : Bool → ℕ → ℕ
with_sign minus n =
    if ltb n (2 ^ 64) then if minus then (2 ^ 64 - n) % 2 ^ 64 else n else 2 ^ 64 - 1

-- What stands behind a sign. Where it is no digit there is no number: the result is zero and the
-- whole text, with the white space and the sign before, stays.
unfoldable pub number_behind : Text → Bool → Text → ℕ × Text
unfolding unsigned_number with_sign
number_behind whole minus [] = (0, whole)
number_behind whole minus (c ∷ cs) =
    let (n, rest) = unsigned_number (c ∷ cs) in
    if leb b'0' c && leb c b'9' then (with_sign minus n, rest) else (0, whole)

unfoldable pub signed_number : Text → Text → ℕ × Text
unfolding number_behind
signed_number whole [] = (0, whole)
signed_number whole (c ∷ cs) =
    if c == b'-'
    then number_behind whole true cs
    else if c == b'+'
    then number_behind whole false cs
    else number_behind whole false (c ∷ cs)

-- `readU64`, which is `strtouq` in base 0
unfoldable pub read_u64 : Text → ℕ × Text
unfolding skip_white_space signed_number
read_u64 s = signed_number s (skip_white_space s)

-- `readU32`: `strtoul` has 64 bits as well, and the result is cut to 32.
unfoldable pub read_u32 : Text → ℕ × Text
unfolding read_u64
read_u32 s = let (n, rest) = read_u64 s in (n % 2 ^ 32, rest)

-- `readStringUntilWhitespace`
unfoldable pub read_until_space : Text → Text × Text
read_until_space [] = ([], [])
read_until_space (c ∷ cs) =
    let (front, rest) = read_until_space cs in
    if is_space c then ([], c ∷ cs) else (c ∷ front, rest)

-- `readPString`; `none` where it reads past the end of the file or throws for a length of zero.
unfoldable pub read_pstring : Text → Option (Text × Text)
read_pstring s =
    let len = le_value (take 4 s) in
    let body = drop 4 s in
    if ltb (length s) 4 || len == 0 || ltb (length body) len
    then none
    else some (take (len - 1) body, drop len body)

pub record Message : Type 0 where
  pub tsc : ℕ
  pub msg_id : ℕ
  pub lineno : ℕ
  pub filename : Text
  pub msg : Text
  pub fmt : Text

-- The parts that `parse` reads before the texts: time stamp, file, line and id, and what is behind
-- the blank that follows. Before version 3 a message has no id but its number.
unfoldable pub read_head : ℕ → ℕ → Text → (ℕ × Text × ℕ × ℕ) × Text
read_head version index s =
    let (tsc, s1) = read_u64 s in
    let (file, s2) = read_until_space (skip_white_space s1) in
    let (line, s3) = read_u32 (skip_white_space s2) in
    let (id, s4) = read_u32 (skip_white_space s3) in
    if leb 3 version
    then ((tsc, file, line, id), drop 1 s4)
    else ((tsc, file, line, index), drop 1 s3)

-- The results of `parse`: a message and the text behind it; the empty message, with no step; a read
-- past the end of the file.
pub data Parsed : Type 0 where
  parsed : Message → Text → Parsed
  no_message : Parsed
  past_end : Parsed

abbrev pub Head : Type 0
Head = ℕ × Text × ℕ × ℕ

unfoldable pub parse_fmt : Head → Text → Option (Text × Text) → Parsed
parse_fmt h msg none = past_end
parse_fmt (tsc, file, line, id) msg (some (fmt, rest)) =
    parsed (record { tsc = tsc; msg_id = id; lineno = line; filename = file; msg = msg; fmt = fmt })
      rest

unfoldable pub parse_msg : Head → Option (Text × Text) → Parsed
parse_msg h none = past_end
parse_msg h (some (msg, s)) = parse_fmt h msg (read_pstring s)

unfoldable pub parse_texts : Head × Text → Parsed
parse_texts (h, s) = parse_msg h (read_pstring s)

-- `MessageParser::parse`; `index` is `index_` after its increment.
unfoldable pub parse : ℕ → ℕ → Text → Parsed
unfolding read_head parse_texts
parse version index [] = no_message
parse version index (c ∷ cs) =
    if c == 0 then no_message else parse_texts (read_head version index (c ∷ cs))

-- The results of `Messages::parse`: the messages by id, the first of an id being kept; a read past
-- the end; no end, at the given fuel.
pub data Loaded : Type 0 where
  loaded : List Message → Loaded
  load_past_end : Loaded
  running : Loaded

unfoldable pub find_message : ℕ → List Message → Option Message
find_message id [] = none
find_message id (m ∷ ms) = if m.msg_id == id then some m else find_message id ms

-- `try_emplace`
unfoldable pub add_message : Message → List Message → List Message
unfolding find_message
add_message m ms = elim (find_message m.msg_id ms) [ none ↦ m ∷ ms | some n ↦ ms ]

-- `Messages::parse`: until the end of the file; the empty message is added as well.
unfoldable pub load_messages : ℕ → ℕ → ℕ → Text → List Message → Loaded
unfolding parse add_message
load_messages zero version index s ms = running
load_messages (suc fuel) version index [] ms = loaded ms
load_messages (suc fuel) version index (c ∷ cs) ms =
    let empty : Message = record {
      tsc = 0;
      msg_id = 0;
      lineno = 0;
      filename = [];
      msg = [];
      fmt = [];
    } in
    elim (parse version (index + 1) (c ∷ cs)) [
      | parsed m rest ↦ load_messages fuel version (index + 1) rest (add_message m ms)
      | no_message ↦ load_messages fuel version index (c ∷ cs) (add_message empty ms)
      | past_end ↦ load_past_end
    ]

-- `Messages::get`: a message without text is none.
unfoldable pub get : List Message → ℕ → Option Message
unfolding find_message
get ms id = elim (find_message id ms) [
  | none ↦ none
  | some m ↦ elim m.msg [ [] ↦ none | c ∷ cs ↦ some m ]
]

-- A zero byte where a description should begin keeps `Messages::parse` in its loop for ever:
-- `parse` takes no step there, and the end of the file is not reached.
pub load_messages-zero :
    (fuel version index : ℕ) (s : Text) (ms : List Message)
    → load_messages fuel version index (0 ∷ s) ms ≡ running
unfolding load_messages
load_messages-zero zero version index s ms = refl
load_messages-zero (suc fuel) version index s ms = load_messages-zero fuel version index s _
