-- ===== src/Ring/Layout.antt =====
-- What a step of the writer leaves in the ring: where it wrote, what it kept.
use quicktrace_public.Base.{ℕ, ◌+◌, ◌≡◌, refl, ap₂, ◌∙◌, arith}
use quicktrace_public.Base.{List, [], ◌∷◌, ◌++◌, length, length-append, true, false, inl, inr}
use quicktrace_public.Base.{read, write, Outside}
use quicktrace_public.Base.{read-agree, read-write_self, write-Outside, read-append}
use quicktrace_public.Base.{le_bytes}
use quicktrace_public.Ring.{Log, push_bytes, enabled}
use quicktrace_public.Ring.Fields.{Arg, Field, plain, optional}
use quicktrace_public.Ring.Fields.{str}
use quicktrace_public.Ring.Fields.{put_with_max_len, put, put_field, put_fields}
use quicktrace_public.Ring.Fields.{arg_bytes, field_bytes, payload}

-- The log `l'` is `l` after the bytes `bs` were put at its pointer, and nothing else was done.
pub record Wrote (l l' : Log) (bs : List ℕ) : Type 0 where
  pub ptr_moved : l'.ptr ≡ l.ptr + length bs
  pub bytes : read l'.mem l.ptr (length bs) ≡ bs
  pub kept : (x : ℕ) → Outside l.ptr (length bs) x → l'.mem x ≡ l.mem x
  pub same_buf : l'.buf ≡ l.buf
  pub same_end : l'.buf_end ≡ l.buf_end
  pub same_start : l'.msg_start ≡ l.msg_start
  pub same_counters : l'.counters ≡ l.counters
  pub same_num : l'.num_msg_counters ≡ l.num_msg_counters

pub Wrote-refl : (l : Log) → Wrote l l []
unfolding read
Wrote-refl l = record {
  ptr_moved = omega arith;
  bytes = refl;
  kept = λ x h. refl;
  same_buf = refl;
  same_end = refl;
  same_start = refl;
  same_counters = refl;
  same_num = refl;
}

pub Wrote-trans :
    {l l1 l2 : Log} {xs ys : List ℕ} → Wrote l l1 xs → Wrote l1 l2 ys → Wrote l l2 (xs ++ ys)
Wrote-trans {l} {l1} {l2} {xs} {ys} w v = record {
  ptr_moved = omega (arith, w.ptr_moved, v.ptr_moved, length-append xs ys);
  bytes = rw (length-append xs ys, read-append) (ap₂ ◌++◌ front back);
  kept = λ x h. v.kept x (behind x h) ∙ w.kept x (before x h);
  same_buf = v.same_buf ∙ w.same_buf;
  same_end = v.same_end ∙ w.same_end;
  same_start = v.same_start ∙ w.same_start;
  same_counters = v.same_counters ∙ w.same_counters;
  same_num = v.same_num ∙ w.same_num;
}
  where
    front : read l2.mem l.ptr (length xs) ≡ xs
    front =
        read-agree l2.mem l1.mem l.ptr (length xs)
          (λ x p q. v.kept x (inl (omega (arith, w.ptr_moved))))
        ∙ w.bytes

    back : read l2.mem (l.ptr + length xs) (length ys) ≡ ys
    back = rw (w.ptr_moved) at v.bytes

    behind : (x : ℕ) → Outside l.ptr (length (xs ++ ys)) x → Outside l1.ptr (length ys) x
    behind x h = elim h [
      | inl p ↦ inl (omega (arith, w.ptr_moved))
      | inr p ↦ inr (omega (arith, w.ptr_moved, length-append xs ys))
    ]

    before : (x : ℕ) → Outside l.ptr (length (xs ++ ys)) x → Outside l.ptr (length xs) x
    before x h = elim h [ inl p ↦ inl p | inr p ↦ inr (omega (arith, length-append xs ys)) ]

pub push_bytes-Wrote : (bs : List ℕ) (l : Log) → Wrote l (push_bytes bs l) bs
unfolding push_bytes
push_bytes-Wrote bs l = record {
  ptr_moved = refl;
  bytes = read-write_self l.mem l.ptr bs;
  kept = λ x h. write-Outside l.mem l.ptr bs x h;
  same_buf = refl;
  same_end = refl;
  same_start = refl;
  same_counters = refl;
  same_num = refl;
}

-- A length byte put in front of the characters is a single write of both.
string-Wrote :
    (max_len : ℕ) (x : List ℕ) (l : Log)
    → put_with_max_len max_len x l ≡ push_bytes (arg_bytes max_len (str x)) l
unfolding put_with_max_len push_bytes arg_bytes write
string-Wrote max_len x l = ground (arith)

put-Wrote : (max_len : ℕ) (a : Arg) (l : Log) → Wrote l (put max_len a l) (arg_bytes max_len a)
put-Wrote max_len (str x) l =
    unfold put in rw (string-Wrote max_len x l) (push_bytes-Wrote (arg_bytes max_len (str x)) l)
put-Wrote max_len a l = unfold put arg_bytes in push_bytes-Wrote _ l

pub put_field-Wrote :
    (max_len : ℕ) (a : Field) (l : Log) → Wrote l (put_field max_len a l) (field_bytes max_len a)
unfolding le_bytes
put_field-Wrote max_len (plain a) l = unfold put_field field_bytes in put-Wrote max_len a l
put_field-Wrote max_len (optional true a) l =
    unfold put_field field_bytes in
    Wrote-trans (push_bytes-Wrote (1 ∷ []) l) (put-Wrote max_len a (push_bytes (1 ∷ []) l))
put_field-Wrote max_len (optional false a) l =
    unfold put_field field_bytes in push_bytes-Wrote (0 ∷ []) l

pub put_fields-Wrote :
    (max_len : ℕ) (fs : List Field) (l : Log)
    → enabled l ≡ true
    → Wrote l (put_fields max_len fs l) (payload max_len fs)
unfolding put_fields payload
put_fields-Wrote max_len [] l h = Wrote-refl l
put_fields-Wrote max_len (a ∷ fs) l h =
    let w = put_field-Wrote max_len a l in
    rw h (
      Wrote-trans w (
        put_fields-Wrote max_len fs (put_field max_len a l)
          (unfold enabled in rw (w.same_start) h)))

-- Into a message that is turned off nothing is put.
pub put_fields_off :
    (max_len : ℕ) (fs : List Field) (l : Log) → enabled l ≡ false → put_fields max_len fs l ≡ l
unfolding put_fields
put_fields_off max_len [] l h = refl
put_fields_off max_len (a ∷ fs) l h = rw h (put_fields_off max_len fs l h)
