-- ===== src/Ring/Fields.antt =====
-- The dynamic part of a message: the overloads of `put` (QuickTraceRingBuf.h, QuickTrace.cpp,
-- QuickTraceOptFormatter.h), `operator<<` of RingBuf, and the format letters of the types
-- (QuickTraceFormatString.h).
use quicktrace_public.Base.{ℕ, zero, suc, ◌+◌, ◌%◌, Bool, true, false, List, [], ◌∷◌, ◌++◌}
use quicktrace_public.Base.{◌==◌, if◌then◌else◌, le_bytes, length}
use quicktrace_public.Ring.{Log, Clock, push_bytes, poke, enabled, start_msg, end_msg}

-- A value by its C++ type: numbers and pointers as bit patterns, a string as the bytes before its
-- terminating zero.
pub data Arg : Type 0 where
  char s8 u8 u16 s16 u32 s32 u64 s64 boolean float double pointer : ℕ → Arg
  str : List ℕ → Arg

-- A traced value, or a `std::optional` of one; of an empty optional only the type counts.
pub data Field : Type 0 where
  plain : Arg → Field
  optional : Bool → Arg → Field

-- What the copying loop of `putWithMaxLen` takes of a string.
unfoldable pub clip : ℕ → List ℕ → List ℕ
clip zero x = []
clip (suc n) [] = []
clip (suc n) (c ∷ x) = let rest = clip n x in if c == 0 then [] else c ∷ rest

-- The characters go behind the length byte, and then the length into it.
unfoldable pub put_with_max_len : ℕ → List ℕ → Log → Log
unfolding clip poke
put_with_max_len max_len x l =
    let s = clip max_len x in
    let f = poke l.ptr ((length s % 256) ∷ []) (poke (l.ptr + 1) s l.file) in
    record { ring = record (l.ring) { ptr = l.ptr + 1 + length s }; file = f }

-- `putLongString`
abbrev pub longstring_limit : ℕ
longstring_limit = 240

unfoldable pub put : ℕ → Arg → Log → Log
unfolding push_bytes put_with_max_len
put max_len (char v) l = push_bytes (le_bytes 1 v) l
put max_len (s8 v) l = push_bytes (le_bytes 1 v) l
put max_len (u8 v) l = push_bytes (le_bytes 1 v) l
put max_len (u16 v) l = push_bytes (le_bytes 2 v) l
put max_len (s16 v) l = push_bytes (le_bytes 2 v) l
put max_len (u32 v) l = push_bytes (le_bytes 4 v) l
put max_len (s32 v) l = push_bytes (le_bytes 4 v) l
put max_len (u64 v) l = push_bytes (le_bytes 8 v) l
put max_len (s64 v) l = push_bytes (le_bytes 8 v) l
put max_len (boolean v) l = push_bytes (le_bytes 1 v) l
put max_len (float v) l = push_bytes (le_bytes 4 v) l
put max_len (double v) l = push_bytes (le_bytes 8 v) l
put max_len (pointer v) l = push_bytes (le_bytes 8 v) l
put max_len (str x) l = put_with_max_len max_len x l

-- `put` of an optional: a tag byte, then the value if there is one.
unfoldable pub put_field : ℕ → Field → Log → Log
unfolding put
put_field max_len (plain a) l = put max_len a l
put_field max_len (optional true a) l = put max_len a (push_bytes (le_bytes 1 1) l)
put_field max_len (optional false a) l = push_bytes (le_bytes 1 0) l

-- `operator<<`, once for each argument: nothing is put into a message that is turned off.
unfoldable pub put_fields : ℕ → List Field → Log → Log
unfolding put_field enabled
put_fields max_len [] l = l
put_fields max_len (a ∷ as') l =
    put_fields max_len as' (if enabled l then put_field max_len a l else l)

-- The three calls of the QTRACE macros.
unfoldable pub trace_msg : Clock → ℕ → ℕ → List Field → Log → Log
trace_msg c max_len id fields l = end_msg (put_fields max_len fields (start_msg c id l))

-- `formatString` on a 64-bit machine
unfoldable pub format_string : Arg → List ℕ
format_string (char v) = b'c' ∷ []
format_string (s8 v) = b'u' ∷ []
format_string (u8 v) = b'u' ∷ []
format_string (u16 v) = b's' ∷ []
format_string (s16 v) = b's' ∷ []
format_string (u32 v) = b'i' ∷ []
format_string (s32 v) = b'i' ∷ []
format_string (u64 v) = b'q' ∷ []
format_string (s64 v) = b'q' ∷ []
format_string (boolean v) = b'b' ∷ []
format_string (float v) = b'f' ∷ []
format_string (double v) = b'd' ∷ []
format_string (pointer v) = b'q' ∷ []
format_string (str x) = b'p' ∷ []

-- The letter behind "OPT" for an optional.
unfoldable pub field_format : Field → List ℕ
unfolding format_string
field_format (plain a) = format_string a
field_format (optional p a) = b'O' ∷ b'P' ∷ b'T' ∷ format_string a

-- The bytes that each argument is meant to take: the format that the reader decodes.
unfoldable pub arg_bytes : ℕ → Arg → List ℕ
unfolding clip
arg_bytes max_len (char v) = le_bytes 1 v
arg_bytes max_len (s8 v) = le_bytes 1 v
arg_bytes max_len (u8 v) = le_bytes 1 v
arg_bytes max_len (u16 v) = le_bytes 2 v
arg_bytes max_len (s16 v) = le_bytes 2 v
arg_bytes max_len (u32 v) = le_bytes 4 v
arg_bytes max_len (s32 v) = le_bytes 4 v
arg_bytes max_len (u64 v) = le_bytes 8 v
arg_bytes max_len (s64 v) = le_bytes 8 v
arg_bytes max_len (boolean v) = le_bytes 1 v
arg_bytes max_len (float v) = le_bytes 4 v
arg_bytes max_len (double v) = le_bytes 8 v
arg_bytes max_len (pointer v) = le_bytes 8 v
arg_bytes max_len (str x) = let s = clip max_len x in (length s % 256) ∷ s

unfoldable pub field_bytes : ℕ → Field → List ℕ
unfolding arg_bytes
field_bytes max_len (plain a) = arg_bytes max_len a
field_bytes max_len (optional true a) = 1 ∷ arg_bytes max_len a
field_bytes max_len (optional false a) = 0 ∷ []

unfoldable pub payload : ℕ → List Field → List ℕ
unfolding field_bytes
payload max_len [] = []
payload max_len (a ∷ as') = field_bytes max_len a ++ payload max_len as'
