-- ===== src/Reader/Stored.antt =====
-- What the writer puts for a traced value, where it lies in memory, and its length there.
use quicktrace_public.Base.{ℕ, zero, suc, ◌+◌, ◌≤◌, ◌<◌, ◌≡◌, refl, arith}
use quicktrace_public.Base.{true, false, List, [], ◌∷◌, ◌++◌, some, map}
use quicktrace_public.Base.{Memory, read, le_bytes, length, length-append, Text}
use quicktrace_public.Formatter.{LengthType, length_from}
use quicktrace_public.Formatter.Basic
use quicktrace_public.Ring.Fields.{
  Arg, Field, plain, optional, char, s8, u8, u16, s16, u32, s32, u64, s64, boolean, float, double,
  pointer, str,
}
use quicktrace_public.Ring.Fields.{field_format, arg_bytes, field_bytes, payload, clip}

-- The format of a message's parameters, as `MsgFormatString::put` puts it together: the letters of
-- each type, with commas between them.
abbrev pub fields_format : List Field → Text
fields_format [] = []
fields_format (x ∷ []) = field_format x
fields_format (x ∷ y ∷ ys) = field_format x ++ (b',' ∷ fields_format (y ∷ ys))

abbrev pub arg_length : Arg → LengthType
arg_length (char v) = Basic.length_char
arg_length (s8 v) = Basic.length_u8
arg_length (u8 v) = Basic.length_u8
arg_length (u16 v) = Basic.length_u16
arg_length (s16 v) = Basic.length_u16
arg_length (u32 v) = Basic.length_u32
arg_length (s32 v) = Basic.length_u32
arg_length (u64 v) = Basic.length_u64
arg_length (s64 v) = Basic.length_u64
arg_length (boolean v) = Basic.length_bool
arg_length (float v) = Basic.length_float
arg_length (double v) = Basic.length_double
arg_length (pointer v) = Basic.length_u64
arg_length (str x) = Basic.length_string

abbrev pub field_length : Field → LengthType
field_length (plain a) = arg_length a
field_length (optional p a) = Basic.length_opt (arg_length a)

-- The bytes lie in memory at an address.
abbrev pub Holds : Memory → ℕ → List ℕ → Type 0
Holds m p [] = Unit
Holds m p (b ∷ bs) = (m p ≡ b) × Holds m (p + 1) bs

pub read-Holds : (m : Memory) (p : ℕ) (bs : List ℕ) → read m p (length bs) ≡ bs → Holds m p bs
unfolding read
read-Holds m p [] e = tt
read-Holds m p (b ∷ bs) e = (ground (arith, e), read-Holds m (p + 1) bs (ground (arith, e)))

Holds-left : (m : Memory) (p : ℕ) (bs cs : List ℕ) → Holds m p (bs ++ cs) → Holds m p bs
Holds-left m p [] cs h = tt
Holds-left m p (b ∷ bs) cs h = (h.0, Holds-left m (p + 1) bs cs h.1)

pub Holds-right :
    (m : Memory) (p : ℕ) (bs cs : List ℕ) → Holds m p (bs ++ cs) → Holds m (p + length bs) cs
Holds-right m p [] cs h = let e : p + 0 ≡ p = omega arith in rw e h
Holds-right m p (b ∷ bs) cs h =
    let e : p + suc (length bs) ≡ p + 1 + length bs = omega arith in
    rw e (Holds-right m (p + 1) bs cs h.1)

clip-length : (k : ℕ) (x : List ℕ) → length (clip k x) ≤ k
unfolding clip
clip-length zero x = omega arith
clip-length (suc k) [] = omega arith
clip-length (suc k) (c ∷ x) = ground (arith, clip-length k x)

-- The bytes of a value determine its length where they lie.
arg_length-bytes :
    (max_len : ℕ) (a : Arg) (m : Memory) (p : ℕ)
    → max_len < 256
    → Holds m p (arg_bytes max_len a)
    → arg_length a m p ≡ length (arg_bytes max_len a)
unfolding arg_bytes le_bytes Basic.length_char Basic.length_u8 Basic.length_u16 Basic.length_u32
    Basic.length_u64 Basic.length_bool Basic.length_float Basic.length_double Basic.length_string
arg_length-bytes k (char v) m p h e = refl
arg_length-bytes k (s8 v) m p h e = refl
arg_length-bytes k (u8 v) m p h e = refl
arg_length-bytes k (u16 v) m p h e = refl
arg_length-bytes k (s16 v) m p h e = refl
arg_length-bytes k (u32 v) m p h e = refl
arg_length-bytes k (s32 v) m p h e = refl
arg_length-bytes k (u64 v) m p h e = refl
arg_length-bytes k (s64 v) m p h e = refl
arg_length-bytes k (boolean v) m p h e = refl
arg_length-bytes k (float v) m p h e = refl
arg_length-bytes k (double v) m p h e = refl
arg_length-bytes k (pointer v) m p h e = refl
arg_length-bytes k (str x) m p h e = ground (arith, e.0, clip-length k x)

field_length-bytes :
    (max_len : ℕ) (x : Field) (m : Memory) (p : ℕ)
    → max_len < 256
    → Holds m p (field_bytes max_len x)
    → field_length x m p ≡ length (field_bytes max_len x)
unfolding field_bytes Basic.length_opt Basic.length_u8
field_length-bytes k (plain a) m p h e = arg_length-bytes k a m p h e
field_length-bytes k (optional true a) m p h e =
    ground (arith, e.0, arg_length-bytes k a m (p + 1) h e.1)
field_length-bytes k (optional false a) m p h e = ground (arith, e.0)

arg_bytes-positive : (k : ℕ) (a : Arg) → 0 < length (arg_bytes k a)
unfolding arg_bytes le_bytes
arg_bytes-positive k (char v) = omega arith
arg_bytes-positive k (s8 v) = omega arith
arg_bytes-positive k (u8 v) = omega arith
arg_bytes-positive k (u16 v) = omega arith
arg_bytes-positive k (s16 v) = omega arith
arg_bytes-positive k (u32 v) = omega arith
arg_bytes-positive k (s32 v) = omega arith
arg_bytes-positive k (u64 v) = omega arith
arg_bytes-positive k (s64 v) = omega arith
arg_bytes-positive k (boolean v) = omega arith
arg_bytes-positive k (float v) = omega arith
arg_bytes-positive k (double v) = omega arith
arg_bytes-positive k (pointer v) = omega arith
arg_bytes-positive k (str x) = omega arith

field_bytes-positive : (k : ℕ) (x : Field) → 0 < length (field_bytes k x)
unfolding field_bytes
field_bytes-positive k (plain a) = arg_bytes-positive k a
field_bytes-positive k (optional true a) = omega arith
field_bytes-positive k (optional false a) = omega arith

pub payload-length :
    (max_len : ℕ) (xs : List Field) (m : Memory) (buf n : ℕ)
    → max_len < 256
    → Holds m (buf + n) (payload max_len xs)
    → length_from (map field_length xs) m buf n ≡ some (n + length (payload max_len xs))
unfolding length_from payload
payload-length k [] m buf n h e = let z : n + 0 ≡ n = omega arith in rw z refl
payload-length k (x ∷ xs) m buf n h e =
    let l = field_length-bytes k x m (buf + n) h (Holds-left m (buf + n) (field_bytes k x) _ e) in
    let at' : buf + n + length (field_bytes k x) ≡ buf + (n + length (field_bytes k x)) =
      omega arith in
    let rest =
      payload-length k xs m buf (n + length (field_bytes k x)) h
        (rw at' at (Holds-right m (buf + n) (field_bytes k x) _ e)) in
    let size : n + length (field_bytes k x ++ payload k xs)
        ≡ n + length (field_bytes k x) + length (payload k xs) =
      omega (arith, length-append (field_bytes k x) (payload k xs)) in
    rw (l, rest, size) (ground (arith, field_bytes-positive k x))
