-- ===== src/Reader/Lengths.antt =====
-- The lengths that a reader takes from the format letters of the traced types
-- (QuickTraceFormatString.h, MessageFormatter.cpp) are those of what the writer puts.
use quicktrace_public.Base.{some_eq, ℕ, ◌+◌, ◌<◌, ◌≡◌, ◌≢◌, refl, sym, ◌∙◌, ap, inl, inr, arith}
use quicktrace_public.Base.{
  subst₂, is_prefix, find, Bool, List, [], ◌∷◌, ◌++◌, none, some, map, append-nil, append_assoc,
}
use quicktrace_public.Base.{Memory, length, length-append, subst, Text}
use quicktrace_public.Formatter.{LengthType, MessageFormatter, message_length}
use quicktrace_public.Formatter.Basic
use quicktrace_public.Formatter.Select.{Tables, select_length, lengths_by_id}
use quicktrace_public.Formatter.Init.{split_comma, ok, make_formatter}
use quicktrace_public.Formatter.Agree.{Agrees}
use quicktrace_public.Formatter.Paired.{Consumed, start, next}
use quicktrace_public.Formatter.Compiled.{make_formatter-Consumed, Start}
use quicktrace_public.Ring.Fields.{
  Arg, Field, plain, optional, char, s8, u8, u16, s16, u32, s32, u64, s64, boolean, float, double,
  pointer, str,
}
use quicktrace_public.Ring.Fields.{format_string, field_format, payload}
use quicktrace_public.Base.{◌<◌, length}
use quicktrace_public.Reader.Stored.{fields_format, arg_length, field_length, Holds, payload-length}

abbrev pub Stock : Tables → Type 0
Stock t = t.lengths ≡ lengths_by_id

select_plain :
    (t : Tables) (a : Arg) → Stock t → select_length t (format_string a) ≡ some (arg_length a)
unfolding select_length format_string lengths_by_id is_prefix find
select_plain t (char v) e = rw e refl
select_plain t (s8 v) e = rw e refl
select_plain t (u8 v) e = rw e refl
select_plain t (u16 v) e = rw e refl
select_plain t (s16 v) e = rw e refl
select_plain t (u32 v) e = rw e refl
select_plain t (s32 v) e = rw e refl
select_plain t (u64 v) e = rw e refl
select_plain t (s64 v) e = rw e refl
select_plain t (boolean v) e = rw e refl
select_plain t (float v) e = rw e refl
select_plain t (double v) e = rw e refl
select_plain t (pointer v) e = rw e refl
select_plain t (str v) e = rw e refl

select_optional :
    (t : Tables) (p : Bool) (a : Arg)
    → Stock t
    → select_length t (field_format (optional p a)) ≡ some (Basic.length_opt (arg_length a))
unfolding select_length field_format lengths_by_id is_prefix find
select_optional t p (char v) e = rw e refl
select_optional t p (s8 v) e = rw e refl
select_optional t p (u8 v) e = rw e refl
select_optional t p (u16 v) e = rw e refl
select_optional t p (s16 v) e = rw e refl
select_optional t p (u32 v) e = rw e refl
select_optional t p (s32 v) e = rw e refl
select_optional t p (u64 v) e = rw e refl
select_optional t p (s64 v) e = rw e refl
select_optional t p (boolean v) e = rw e refl
select_optional t p (float v) e = rw e refl
select_optional t p (double v) e = rw e refl
select_optional t p (pointer v) e = rw e refl
select_optional t p (str v) e = rw e refl

split_arg :
    (a : Arg) (s : Text) → split_comma (format_string a ++ (b',' ∷ s)) ≡ (format_string a, s)
unfolding split_comma format_string
split_arg (char v) s = refl
split_arg (s8 v) s = refl
split_arg (u8 v) s = refl
split_arg (u16 v) s = refl
split_arg (s16 v) s = refl
split_arg (u32 v) s = refl
split_arg (s32 v) s = refl
split_arg (u64 v) s = refl
split_arg (s64 v) s = refl
split_arg (boolean v) s = refl
split_arg (float v) s = refl
split_arg (double v) s = refl
split_arg (pointer v) s = refl
split_arg (str v) s = refl

split_field :
    (x : Field) (s : Text) → split_comma (field_format x ++ (b',' ∷ s)) ≡ (field_format x, s)
unfolding split_comma field_format
split_field (plain a) s = split_arg a s
split_field (optional p a) s = rw (split_arg a s) refl

last_arg : (a : Arg) → split_comma (format_string a) ≡ (format_string a, [])
unfolding split_comma format_string
last_arg (char v) = refl
last_arg (s8 v) = refl
last_arg (u8 v) = refl
last_arg (u16 v) = refl
last_arg (s16 v) = refl
last_arg (u32 v) = refl
last_arg (s32 v) = refl
last_arg (u64 v) = refl
last_arg (s64 v) = refl
last_arg (boolean v) = refl
last_arg (float v) = refl
last_arg (double v) = refl
last_arg (pointer v) = refl
last_arg (str v) = refl

last_field : (x : Field) → split_comma (field_format x) ≡ (field_format x, [])
unfolding split_comma field_format
last_field (plain a) = last_arg a
last_field (optional p a) = rw (last_arg a) refl

split_fields :
    (x : Field) (xs : List Field)
    → split_comma (fields_format (x ∷ xs)) ≡ (field_format x, fields_format xs)
split_fields x [] = last_field x
split_fields x (y ∷ ys) = split_field x (fields_format (y ∷ ys))

field_format-positive : (x : Field) → 0 < length (field_format x)
unfolding field_format format_string
field_format-positive (plain (char v)) = omega arith
field_format-positive (plain (s8 v)) = omega arith
field_format-positive (plain (u8 v)) = omega arith
field_format-positive (plain (u16 v)) = omega arith
field_format-positive (plain (s16 v)) = omega arith
field_format-positive (plain (u32 v)) = omega arith
field_format-positive (plain (s32 v)) = omega arith
field_format-positive (plain (u64 v)) = omega arith
field_format-positive (plain (s64 v)) = omega arith
field_format-positive (plain (boolean v)) = omega arith
field_format-positive (plain (float v)) = omega arith
field_format-positive (plain (double v)) = omega arith
field_format-positive (plain (pointer v)) = omega arith
field_format-positive (plain (str v)) = omega arith
field_format-positive (optional p a) = omega arith

select_field :
    (t : Tables) (x : Field) → Stock t → select_length t (field_format x) ≡ some (field_length x)
unfolding field_format
select_field t (plain a) e = select_plain t a e
select_field t (optional p a) e = select_optional t p a e

-- A stretch of the fields is consumed with the lengths that are known.
Progress : List Field → List LengthType → Text → Type 0
Progress xs gs rest =
    (done : List Field) × (todo : List Field) × (xs ≡ done ++ todo)
    × (gs ≡ map field_length done)
    × (rest ≡ fields_format todo)

map-append {ℓ κ} :
    {A : Type ℓ} {B : Type κ} (f : A → B) (xs ys : List A) → map f (xs ++ ys) ≡ map f xs ++ map f ys
map-append f [] ys = refl
map-append f (x ∷ xs) ys = ap (λ zs. f x ∷ zs) (map-append f xs ys)

select_empty : (t : Tables) → Stock t → select_length t [] ≡ none
unfolding select_length lengths_by_id is_prefix find
select_empty t e = rw e refl

step-Progress :
    (t : Tables) (xs : List Field) (gs : List LengthType) (rest : Text) (g : LengthType)
    → Stock t
    → select_length t (split_comma rest).0 ≡ some g
    → Progress xs gs rest
    → Progress xs (gs ++ (g ∷ [])) (split_comma rest).1
unfolding Progress split_comma
step-Progress t xs gs rest g e k (done, [], p, q, r) =
    ground (arith, select_empty t e, subst (λ s. select_length t (split_comma s).0 ≡ some g) r k)
step-Progress t xs gs rest g e k (done, x ∷ todo, p, q, r) =
    let split = ap split_comma r ∙ split_fields x todo in
    let here = ap (select_length t) (sym (ap (λ u. u.0) split)) in
    let chosen = sym k ∙ sym here ∙ select_field t x e in
    let same : g ≡ field_length x = some_eq g (field_length x) chosen in
    (
      done ++ (x ∷ []),
      todo,
      p ∙ sym (append_assoc done (x ∷ []) todo),
      rw (q, same) (sym (map-append field_length done (x ∷ []))),
      ap (λ u. u.1) split,
    )

Consumed-Progress :
    (t : Tables) (xs : List Field) (gs : List LengthType) (rest : Text)
    → Stock t
    → Consumed t [] (fields_format xs) gs rest
    → Progress xs gs rest
Consumed-Progress t xs gs rest e start = unfold Progress in ([], xs, refl, refl, refl)
Consumed-Progress t xs gs rest e (next {gs = gs0} {rest = rest0} g c k) =
    step-Progress t xs gs0 rest0 g e k (Consumed-Progress t xs gs0 rest0 e c)

fields_format_empty : (xs : List Field) → fields_format xs ≡ [] → xs ≡ []
fields_format_empty [] e = refl
fields_format_empty (x ∷ []) e = ground (arith, ap length e, field_format-positive x)
fields_format_empty (x ∷ y ∷ ys) e =
    ground (arith, ap length e, length-append (field_format x) (b',' ∷ fields_format (y ∷ ys)))

-- The lengths of a whole format are those of its fields, in order.
whole : (xs : List Field) (gs : List LengthType) → Progress xs gs [] → gs ≡ map field_length xs
unfolding Progress
whole xs gs (done, todo, p, q, r) =
    q
    ∙ ap (map field_length)
        (sym (p ∙ ap (λ zs. done ++ zs) (fields_format_empty todo (sym r)) ∙ append-nil done))

made_lengths :
    (t : Tables) (lineno : ℕ) (xs : List Field) (gs first : List LengthType) (rest : Text)
    → Stock t
    → lineno ≢ 0
    → Start t lineno (fields_format xs) first rest
    → Consumed t first rest gs []
    → gs ≡ map field_length xs
made_lengths t lineno xs gs first rest e line (inl (p, q)) c =
    whole xs gs (Consumed-Progress t xs gs [] e (subst₂ (λ u v. Consumed t u v gs []) p q c))
made_lengths t lineno xs gs first rest e line (inr w) c = absurd (line w.0)

-- A message that is made for traced fields, with the tables' stock of lengths and on a line other
-- than 0, has in memory that holds the fields' bytes the length of these.
pub message_length-payload :
    (t u : Tables) (filename msg : Text) (lineno max_len : ℕ) (xs : List Field)
    (f : MessageFormatter) (m : Memory) (buf : ℕ)
    → Agrees t
    → Stock t
    → lineno ≢ 0
    → make_formatter t filename lineno msg (fields_format xs) ≡ ok (f, u)
    → max_len < 256
    → Holds m buf (payload max_len xs)
    → message_length f m buf ≡ some (length (payload max_len xs))
unfolding message_length
message_length-payload t u filename msg lineno k xs f m buf agrees e line made small holds =
    let (a, s, first, rest, w, c) =
      make_formatter-Consumed t filename msg (fields_format xs) lineno f u agrees made in
    let z : buf + 0 ≡ buf = omega arith in
    let zero_plus : 0 + length (payload k xs) ≡ length (payload k xs) = omega arith in
    rw (made_lengths t lineno xs f.lengths first rest e line w c)
      (payload-length k xs m buf 0 small (rw z holds) ∙ ap some zero_plus)
