-- ===== src/Go/Encoded.antt =====
-- GoQuickTrace_fullMsg of QuickTrace.cpp on arguments serialized as its comments say.
use quicktrace_public.Base.{
  ℕ, zero, suc, ◌+◌, ◌*◌, ◌/◌, ◌%◌, ◌^◌, ◌<◌, ◌≡◌, refl, sym, ap, ap₂, ◌∙◌, arith, inl, inr,
}
use quicktrace_public.Base.{true, false, List, [], ◌∷◌, ◌++◌, map, All, length, length-append}
use quicktrace_public.Base.{Bool-cases, Memory, load, read}
use quicktrace_public.Base.{le_bytes, le_value, le_value-le_bytes, length-le_bytes}
use quicktrace_public.Ring.{Log, Clock, start_msg, end_msg, enabled}
use quicktrace_public.Ring.Fields.{
  Arg, char, s8, u8, u16, s16, u32, s32, u64, s64, boolean, float, double, pointer, str, put, Field,
  plain, put_field, put_fields, put_with_max_len, clip, trace_msg,
}
use quicktrace_public.Ring.Layout.{put_fields_off, put_field-Wrote}
use quicktrace_public.Go.{go_argument, put_arguments, full_msg, mask_shift}

-- The types that a Go program passes: numbers in range, and strings whose length fits below the mask.
abbrev pub IsGo : Arg → Type 0
IsGo (u8 v) = v < 256
IsGo (u16 v) = v < 256 ^ 2
IsGo (u32 v) = v < 256 ^ 4
IsGo (u64 v) = v < 256 ^ 8
IsGo (float v) = v < 256 ^ 4
IsGo (double v) = v < 256 ^ 8
IsGo (boolean v) = v < 256
IsGo (str x) = length x < 1024
IsGo (char v) = ⊥
IsGo (s8 v) = ⊥
IsGo (s16 v) = ⊥
IsGo (s32 v) = ⊥
IsGo (s64 v) = ⊥
IsGo (pointer v) = ⊥

-- The entry of `argLens`: the type's mask, or the length of a string.
abbrev pub go_len : Arg → ℕ
go_len (u8 v) = 1 * 1024
go_len (u16 v) = 2 * 1024
go_len (u32 v) = 3 * 1024
go_len (u64 v) = 4 * 1024
go_len (float v) = 5 * 1024
go_len (double v) = 6 * 1024
go_len (boolean v) = 7 * 1024
go_len (str x) = length x
go_len (char v) = 0
go_len (s8 v) = 0
go_len (s16 v) = 0
go_len (s32 v) = 0
go_len (s64 v) = 0
go_len (pointer v) = 0

-- Its bytes: little-endian, and a string with its terminating zero.
abbrev pub go_bytes : Arg → List ℕ
go_bytes (u8 v) = le_bytes 1 v
go_bytes (u16 v) = le_bytes 2 v
go_bytes (u32 v) = le_bytes 4 v
go_bytes (u64 v) = le_bytes 8 v
go_bytes (float v) = le_bytes 4 v
go_bytes (double v) = le_bytes 8 v
go_bytes (boolean v) = le_bytes 1 v
go_bytes (str x) = x ++ (0 ∷ [])
go_bytes (char v) = []
go_bytes (s8 v) = []
go_bytes (s16 v) = []
go_bytes (s32 v) = []
go_bytes (s64 v) = []
go_bytes (pointer v) = []

abbrev pub serialized : List Arg → List ℕ
serialized [] = []
serialized (a ∷ as') = go_bytes a ++ serialized as'

cons_tail {ℓ} : {A : Type ℓ} {x y : A} {xs ys : List A} → x ∷ xs ≡ y ∷ ys → xs ≡ ys
cons_tail e = cc e

-- A word that was serialized is loaded again.
load-le_bytes :
    (args : Memory) (a n v : ℕ)
    → v < 256 ^ n
    → read args a (length (le_bytes n v)) ≡ le_bytes n v
    → load args a n ≡ v
unfolding load
load-le_bytes args a n v h e = ap le_value (rw (length-le_bytes n v) at e) ∙ le_value-le_bytes n v h

-- Of a string in the buffer as much is copied as of the string.
clip-read :
    (args : Memory) (n a : ℕ) (x : List ℕ)
    → read args a (length (x ++ (0 ∷ []))) ≡ x ++ (0 ∷ [])
    → clip n (read args a n) ≡ clip n x
unfolding clip read
clip-read args zero a x e = refl
clip-read args (suc n) a [] e = let first : args a ≡ 0 = cc e in rw first refl
clip-read args (suc n) a (c ∷ x) e =
    let first : args a ≡ c = cc e in
    let rest = clip-read args n (a + 1) x (cons_tail e) in rw (first, rest) refl

put-clip :
    (max_len : ℕ) (x y : List ℕ) (l : Log)
    → clip max_len x ≡ clip max_len y
    → put max_len (str x) l ≡ put max_len (str y) l
unfolding put put_with_max_len
put-clip max_len x y l e = rw e refl

-- Below the mask an entry is the length of a string.
go_argument_string :
    (max_len : ℕ) (args : Memory) (a n : ℕ)
    → n < 1024
    → go_argument max_len args a n ≡ (str (read args a max_len), n + 1)
unfolding go_argument
go_argument_string max_len args a n h =
    let none' : n / 2 ^ mask_shift ≡ 0 = omega arith in rw none' refl

-- The step for one argument.
go_argument_lem :
    (max_len : ℕ) (args : Memory) (a : ℕ) (x : Arg) (l : Log)
    → IsGo x
    → read args a (length (go_bytes x)) ≡ go_bytes x
    → let (y, size) = go_argument max_len args a (go_len x) in
      (put max_len y l ≡ put max_len x l) × (size ≡ length (go_bytes x))
unfolding go_argument
go_argument_lem max_len args a (u8 v) l h e =
    (ap (λ (n : ℕ). put max_len (u8 n) l) (load-le_bytes args a 1 v h e), sym (length-le_bytes 1 v))
go_argument_lem max_len args a (u16 v) l h e = (
  ap (λ (n : ℕ). put max_len (u16 n) l) (load-le_bytes args a 2 v h e),
  sym (length-le_bytes 2 v),
)
go_argument_lem max_len args a (u32 v) l h e = (
  ap (λ (n : ℕ). put max_len (u32 n) l) (load-le_bytes args a 4 v h e),
  sym (length-le_bytes 4 v),
)
go_argument_lem max_len args a (u64 v) l h e = (
  ap (λ (n : ℕ). put max_len (u64 n) l) (load-le_bytes args a 8 v h e),
  sym (length-le_bytes 8 v),
)
go_argument_lem max_len args a (float v) l h e = (
  ap (λ (n : ℕ). put max_len (float n) l) (load-le_bytes args a 4 v h e),
  sym (length-le_bytes 4 v),
)
go_argument_lem max_len args a (double v) l h e = (
  ap (λ (n : ℕ). put max_len (double n) l) (load-le_bytes args a 8 v h e),
  sym (length-le_bytes 8 v),
)
go_argument_lem max_len args a (boolean v) l h e = (
  ap (λ (n : ℕ). put max_len (boolean n) l) (load-le_bytes args a 1 v h e),
  sym (length-le_bytes 1 v),
)
go_argument_lem max_len args a (str x) l h e =
    let known = go_argument_string max_len args a (length x) h in
    (
      ap (λ (p : Arg × ℕ). put max_len p.0 l) known
          ∙ put-clip max_len (read args a max_len) x l (clip-read args max_len a x e),
      ap (λ (p : Arg × ℕ). p.1) known ∙ omega (arith, length-append x (0 ∷ [])),
    )
go_argument_lem max_len args a (char v) l h e = absurd h
go_argument_lem max_len args a (s8 v) l h e = absurd h
go_argument_lem max_len args a (s16 v) l h e = absurd h
go_argument_lem max_len args a (s32 v) l h e = absurd h
go_argument_lem max_len args a (s64 v) l h e = absurd h
go_argument_lem max_len args a (pointer v) l h e = absurd h

read_parts :
    (m : Memory) (a : ℕ) (xs ys : List ℕ)
    → read m a (length (xs ++ ys)) ≡ xs ++ ys
    → (read m a (length xs) ≡ xs) × (read m (a + length xs) (length ys) ≡ ys)
unfolding read
read_parts m a [] ys e = let z : a + 0 ≡ a = omega arith in (refl, rw z e)
read_parts m a (x ∷ xs) ys e =
    let first : m a ≡ x = cc e in
    let parts = read_parts m (a + 1) xs ys (cons_tail e) in
    let z : a + suc (length xs) ≡ a + 1 + length xs = omega arith in
    (ap₂ ◌∷◌ first parts.0, rw z parts.1)

-- The steps of the two loops.
put_fields-plain :
    (max_len : ℕ) (a : Arg) (fs : List Field) (l : Log)
    → enabled l ≡ true
    → put_fields max_len (plain a ∷ fs) l ≡ put_fields max_len fs (put max_len a l)
unfolding put_fields
put_fields-plain max_len a fs l on = rw on refl

put_arguments-first :
    (max_len : ℕ) (args : Memory) (offset len : ℕ) (lens : List ℕ) (l : Log)
    → put_arguments max_len args offset (len ∷ lens) l
      ≡ put_arguments max_len args
          ((offset + (go_argument max_len args offset len).1) % 2 ^ 32)
          lens
          (put max_len (go_argument max_len args offset len).0 l)
unfolding put_arguments
put_arguments-first max_len args offset len lens l = refl

put-enabled :
    (max_len : ℕ) (a : Arg) (l : Log) → enabled l ≡ true → enabled (put max_len a l) ≡ true
unfolding enabled put_field
put-enabled max_len a l on = rw (put_field-Wrote max_len (plain a) l).same_start on

put_arguments_lem :
    (max_len : ℕ) (args : Memory) (offset : ℕ) (as' : List Arg) (l : Log)
    → All IsGo as'
    → offset + length (serialized as') < 2 ^ 32
    → read args offset (length (serialized as')) ≡ serialized as'
    → enabled l ≡ true
    → put_arguments max_len args offset (map go_len as') l ≡ put_fields max_len (map plain as') l
put_arguments_lem max_len args offset [] l h k e on = unfold put_arguments put_fields in refl
put_arguments_lem max_len args offset (a ∷ as') l h k e on =
    let parts = read_parts args offset (go_bytes a) (serialized as') e in
    let step = go_argument_lem max_len args offset a l h.0 parts.0 in
    let size = length-append (go_bytes a) (serialized as') in
    let next : (offset + (go_argument max_len args offset (go_len a)).1) % 2 ^ 32
        ≡ offset + length (go_bytes a) =
      omega (arith, size, step.1) in
    put_arguments-first max_len args offset (go_len a) (map go_len as') l
    ∙ ap₂ (λ o x. put_arguments max_len args o (map go_len as') x) next step.0
    ∙ put_arguments_lem max_len args (offset + length (go_bytes a)) as' (put max_len a l) h.1
        (omega (arith, size)) parts.1 (put-enabled max_len a l on)
    ∙ sym (put_fields-plain max_len a (map plain as') l on)

end_msg_off : (l : Log) → enabled l ≡ false → end_msg l ≡ l
unfolding end_msg
end_msg_off l h = rw h refl

-- A message from a Go program is traced as the QTRACE macros trace one with the same arguments, if these
-- are numbers in range and strings of less than 1024 characters, serialized one behind the other with
-- their masks or lengths, in less than 4 GB. The caller gets the time stamp of the message.
pub full_msg-trace_msg :
    (c : Clock) (max_len id : ℕ) (args : Memory) (as' : List Arg) (l : Log)
    → All IsGo as'
    → length (serialized as') < 2 ^ 32
    → read args 0 (length (serialized as')) ≡ serialized as'
    → full_msg c max_len id args (map go_len as') l
      ≡ (c.now, trace_msg c max_len id (map plain as') l)
unfolding full_msg trace_msg
full_msg-trace_msg c max_len id args as' l h k e = elim (Bool-cases (enabled (start_msg c id l))) [
  | inl on ↦
      rw (on, put_arguments_lem max_len args 0 as' (start_msg c id l) h (omega arith) e on) refl
  | inr off ↦
      rw (off, put_fields_off max_len (map plain as') (start_msg c id l) off)
        (ap (λ (x : Log). (c.now, x)) (sym (end_msg_off _ off)))
]
