-- ===== src/Dictionary/RoundTrip.antt =====
-- A message description that MsgDesc writes is the one that MessageParser reads.
use quicktrace_public.Base.{ℕ, suc, ◌+◌, ◌-◌, ◌^◌, ◌≤◌, ◌<◌, ◌≡◌, ◌≢◌, refl, sym, ap, ◌∙◌, arith}
use quicktrace_public.Base.{
  subst, Bool, true, false, [], ◌∷◌, ◌++◌, ◌==◌, ltb, leb, if◌then◌else◌, All, Text, append_assoc,
  none, some,
}
use quicktrace_public.Base.{
  take, drop, length, length-append, le_bytes, length-le_bytes, le_value-le_bytes,
}
use quicktrace_public.Dictionary.{
  skip_white_space, is_space, read_until_space, read_pstring, put_pstring,
}
use quicktrace_public.Dictionary.{
  parse_msg, parse_fmt, signed_text, desc_head, msg_desc, read_head, parse_texts, parse, parsed,
  buf_size,
}
use quicktrace_public.Dictionary.Signed.{
  read_u64-signed_text, read_u32-signed_text, skip-Starts, Starts, signed_text-Starts,
}

take-length : (xs ys : Text) → take (length xs) (xs ++ ys) ≡ xs
take-length [] ys = refl
take-length (x ∷ xs) ys = ap (λ zs. x ∷ zs) (take-length xs ys)

drop-length : (xs ys : Text) → drop (length xs) (xs ++ ys) ≡ ys
drop-length [] ys = refl
drop-length (x ∷ xs) ys = drop-length xs ys

drop-behind : (xs ys : Text) → drop (length xs + 1) (xs ++ (0 ∷ ys)) ≡ ys
drop-behind [] ys = refl
drop-behind (x ∷ xs) ys =
    let e : suc (length xs) + 1 ≡ suc (length xs + 1) = omega arith in rw e (drop-behind xs ys)

-- A text behind its length is read back.
read_pstring-put_pstring :
    (s ys : Text) → length s + 1 < 2 ^ 32 → read_pstring (put_pstring s ++ ys) ≡ some (s, ys)
unfolding read_pstring put_pstring
read_pstring-put_pstring s ys h =
    let n : ℕ = length s + 1 in
    let body : Text = s ++ (0 ∷ ys) in
    let at' : le_bytes 4 n ++ (s ++ (0 ∷ [])) ++ ys ≡ le_bytes 4 n ++ body =
      append_assoc (le_bytes 4 n) (s ++ (0 ∷ [])) ys
      ∙ ap (λ zs. le_bytes 4 n ++ zs) (append_assoc s (0 ∷ []) ys) in
    let front = rw length-le_bytes at (take-length (le_bytes 4 n) body) in
    let back = rw length-le_bytes at (drop-length (le_bytes 4 n) body) in
    let long : ltb (length (le_bytes 4 n ++ body)) 4 ≡ false =
      ground (arith, length-append (le_bytes 4 n) body, length-le_bytes 4 n) in
    let some_bytes : n == 0 ≡ false = ground arith in
    let whole : ltb (length body) n ≡ false = ground (arith, length-append s (0 ∷ ys)) in
    let less : n - 1 ≡ length s = omega arith in
    let behind : drop n body ≡ ys = drop-behind s ys in
    rw
      (
        at',
        front,
        back,
        le_value-le_bytes 4 n (omega arith),
        long,
        some_bytes,
        whole,
        less,
        take-length s (0 ∷ ys),
        behind,
      )
      refl

abbrev pub NotSpace : ℕ → Type 0
NotSpace c = is_space c ≡ false

read_file : (xs ys : Text) → All NotSpace xs → read_until_space (xs ++ (32 ∷ ys)) ≡ (xs, 32 ∷ ys)
unfolding read_until_space
read_file [] ys h = refl
read_file (x ∷ xs) ys h = rw (read_file xs ys h.1, h.0) refl

skip_file : (xs ys : Text) → All NotSpace xs → xs ≢ [] → skip_white_space (32 ∷ xs ++ ys) ≡ xs ++ ys
unfolding skip_white_space
skip_file [] ys h k = absurd (k refl)
skip_file (x ∷ xs) ys h k = rw h.0 refl

parse-Starts :
    (version index : ℕ) (s : Text)
    → Starts s
    → parse version index s ≡ parse_texts (read_head version index s)
unfolding parse
parse-Starts version index [] h = absurd h
parse-Starts version index (c ∷ cs) h = let e : c == 0 ≡ false = ground (arith, h.1) in rw e refl

head_bytes : ℕ → Text → ℕ → ℕ → Text → Text
head_bytes tsc file line id ys =
    signed_text 64 tsc
    ++ (32 ∷ file ++ (32 ∷ signed_text 32 line ++ (32 ∷ signed_text 32 id ++ (32 ∷ ys))))

desc_head-append :
    (tsc line id : ℕ) (file ys : Text)
    → desc_head tsc file line id ++ ys ≡ head_bytes tsc file line id ys
unfolding desc_head head_bytes
desc_head-append tsc line id file ys =
    append_assoc (signed_text 64 tsc) _ ys
    ∙ ap (λ zs. signed_text 64 tsc ++ (32 ∷ zs))
        (append_assoc file _ ys
          ∙ ap (λ zs. file ++ (32 ∷ zs))
              (append_assoc (signed_text 32 line) _ ys
                ∙ ap (λ zs. signed_text 32 line ++ (32 ∷ zs))
                    (append_assoc (signed_text 32 id) _ ys)))

read_head-desc :
    (version index tsc line id : ℕ) (file ys : Text)
    → 3 ≤ version
    → tsc < 2 ^ 64
    → line < 2 ^ 32
    → id < 2 ^ 32
    → All NotSpace file
    → file ≢ []
    → read_head version index (head_bytes tsc file line id ys) ≡ ((tsc, file, line, id), ys)
unfolding read_head head_bytes
read_head-desc version index tsc line id file ys v ht hl hi hf ne =
    let v' : leb 3 version ≡ true = ground (arith, v) in
    let a : Text = signed_text 32 id ++ (32 ∷ ys) in
    let b : Text = signed_text 32 line ++ (32 ∷ a) in
    rw
      (
        read_u64-signed_text tsc (file ++ (32 ∷ b)) ht,
        skip_file file (32 ∷ b) hf ne,
        read_file file b hf,
        skip-Starts b (signed_text-Starts 32 line (32 ∷ a) (omega arith)),
        read_u32-signed_text line a hl,
        skip-Starts a (signed_text-Starts 32 id (32 ∷ ys) (omega arith)),
        read_u32-signed_text id ys hi,
        v',
      )
      refl

length-put_pstring : (s : Text) → length (put_pstring s) ≡ length s + 5
unfolding put_pstring
length-put_pstring s = omega (
  arith,
  length-append (le_bytes 4 (length s + 1)) (s ++ (0 ∷ [])),
  length-le_bytes 4 (length s + 1),
  length-append s (0 ∷ []),
)

none≢some {ℓ} : {A : Type ℓ} (y : A) → none ≢ some y
none≢some y e = subst (λ o. elim o [ none ↦ Unit | some z ↦ ⊥ ]) e tt

head-Starts :
    (tsc line id : ℕ) (file ys : Text) → tsc < 2 ^ 64 → Starts (head_bytes tsc file line id ys)
unfolding head_bytes
head-Starts tsc line id file ys h = signed_text-Starts 64 tsc _ h

texts_read :
    (tsc line id : ℕ) (file msg key rest : Text)
    → length msg + 1 < 2 ^ 32
    → length key + 1 < 2 ^ 32
    → parse_texts ((tsc, file, line, id), put_pstring msg ++ (put_pstring key ++ rest))
      ≡ parsed
          (record { tsc = tsc; msg_id = id; lineno = line; filename = file; msg = msg; fmt = key })
          rest
unfolding parse_texts parse_msg parse_fmt
texts_read tsc line id file msg key rest hm hk =
    rw
      (
        read_pstring-put_pstring msg (put_pstring key ++ rest) hm,
        read_pstring-put_pstring key rest hk,
      )
      refl

if-some {ℓ} :
    {A : Type ℓ} (b : Bool) (x y : A)
    → (if b then none else some x) ≡ some y
    → (b ≡ false) × (x ≡ y)
if-some true x y e = absurd (none≢some y e)
if-some false x y e = (refl, ap (λ o. elim o [ none ↦ x | some z ↦ z ]) e)

-- A description that fits its buffer is parsed to its message, for files from version 3 on, if the
-- name of the source file is not empty and has no white space. Time stamp, line and id are printed as
-- signed numbers of 64 and 32 bits, and the same bits are read back for every value.
pub parse-msg_desc :
    (version index tsc line id : ℕ) (file msg key bytes rest : Text)
    → 3 ≤ version
    → tsc < 2 ^ 64
    → line < 2 ^ 32
    → id < 2 ^ 32
    → All NotSpace file
    → file ≢ []
    → msg_desc tsc file line id msg key ≡ some bytes
    → parse version index (bytes ++ rest)
      ≡ parsed
          (record { tsc = tsc; msg_id = id; lineno = line; filename = file; msg = msg; fmt = key })
          rest
unfolding msg_desc
parse-msg_desc version index tsc line id file msg key bytes rest v ht hl hi hf ne e =
    let texts : Text = put_pstring msg ++ put_pstring key in
    let (short, same) =
      if-some (ltb buf_size (length (desc_head tsc file line id ++ texts)))
        (desc_head tsc file line id ++ texts) bytes e in
    let size : length (put_pstring msg) + length (put_pstring key) ≤ 1024 = ground (
      arith,
      short,
      length-append (desc_head tsc file line id) texts,
      length-append (put_pstring msg) (put_pstring key),
    ) in
    let ys : Text = put_pstring msg ++ (put_pstring key ++ rest) in
    let whole : bytes ++ rest ≡ head_bytes tsc file line id ys =
      ap (λ zs. zs ++ rest) (sym same)
      ∙ append_assoc (desc_head tsc file line id) texts rest
      ∙ ap (λ zs. desc_head tsc file line id ++ zs)
          (append_assoc (put_pstring msg) (put_pstring key) rest)
      ∙ desc_head-append tsc line id file ys in
    ap (parse version index) whole
    ∙ parse-Starts version index _ (head-Starts tsc line id file ys ht)
    ∙ ap parse_texts (read_head-desc version index tsc line id file ys v ht hl hi hf ne)
    ∙ texts_read tsc line id file msg key rest (omega (arith, size, length-put_pstring msg))
        (omega (arith, size, length-put_pstring key))
