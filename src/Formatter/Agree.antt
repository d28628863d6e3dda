-- ===== src/Formatter/Agree.antt =====
-- The formatters and the lengths of the tables agree, and so do those of a compiled message.
use quicktrace_public.Base.{ℕ, ◌+◌, ◌≡◌, refl, sym, ◌∙◌, ◌⊎◌, inl, inr, arith}
use quicktrace_public.Base.{
  Bool, true, false, ◌&&◌, not, List, [], ◌∷◌, Option, none, some, Memory, Option-cases,
}
use quicktrace_public.Base.{
  Text, find, emplace, text_eq, text_eq→eq, is_prefix, drop, if◌then◌else◌, Bool-cases,
}
use quicktrace_public.Formatter.{LengthType, FormatterType}
use quicktrace_public.Formatter.Stream.{OStream}
use quicktrace_public.Formatter.Basic
use quicktrace_public.Formatter.Basic.{Host, format_opt, length_opt, length_u8}
use quicktrace_public.Formatter.Float.{format_float, format_double}
use quicktrace_public.Formatter.Select.{
  letter, Tables, built_in, opt_prefix, select_formatter, select_length,
}
use quicktrace_public.Formatter.Select.{select_opt, inner_formatter, remember}
use quicktrace_public.Formatter.Select.{formatters_by_id, hex_formatters_by_id, lengths_by_id}
use mathlib.Core.Option.{some-injective}

-- A formatter takes as many bytes as a length function says, whatever it prints.
abbrev pub Same : FormatterType → LengthType → Type 0
Same f g = (m : Memory) (a : ℕ) (os : OStream) → (f m a os).0 ≡ g m a

abbrev pub Suits : Tables → Text → FormatterType → Type 0
Suits t k f = (g : LengthType) → select_length t k ≡ some g → Same f g

-- Every formatter of the tables agrees with the length of the same letter, and no letter of the
-- lengths begins with "OPT".
pub record Agrees (t : Tables) : Type 0 where
  pub plain_ok : (k : Text) (f : FormatterType) → find k t.plain ≡ some f → Suits t k f
  pub hex_ok : (k : Text) (f : FormatterType) → find k t.hex ≡ some f → Suits t k f
  pub no_opt :
      (k : Text) (g : LengthType) → find k t.lengths ≡ some g → is_prefix opt_prefix k ≡ false

Same-opt : (f : FormatterType) (g : LengthType) → Same f g → Same (format_opt f) (length_opt g)
unfolding format_opt length_opt
Same-opt f g h m a os = ground (arith, h m (a + 1) os)

find-emplace {ℓ} :
    {A : Type ℓ} (j k : Text) (v w : A) (t : List (Text × A))
    → find j (emplace k v t) ≡ some w
    → (find j t ≡ some w) ⊎ ((j ≡ k) × (v ≡ w))
unfolding emplace
find-emplace j k v w t h = ground (arith, text_eq→eq j k)

-- The length of an optional is that of its value, and a tag.
select_length-opt :
    (t : Tables) (k : Text) (g : LengthType)
    → is_prefix opt_prefix k ≡ true
    → select_length t k ≡ some g
    → (g' : LengthType) × (find (drop 3 k) t.lengths ≡ some g') × (length_opt g' ≡ g)
unfolding select_length
select_length-opt t k g p e = ground arith

select_length-plain :
    (t : Tables) (k : Text) → is_prefix opt_prefix k ≡ false → select_length t k ≡ find k t.lengths
unfolding select_length
select_length-plain t k p = rw p

-- The formatter of an optional suits it, if that of the value suits the value.
Suits-opt :
    (t : Tables) (k : Text) (f : FormatterType)
    → Agrees t
    → is_prefix opt_prefix k ≡ true
    → Suits t (drop 3 k) f
    → Suits t k (format_opt f)
Suits-opt t k f a p s g e =
    let (g', q, r) = select_length-opt t k g p e in
    rw (← r)
      (Same-opt f g' (s g' (select_length-plain t (drop 3 k) (a.no_opt (drop 3 k) g' q) ∙ q)))

inner_formatter-Suits :
    (t : Tables) (k : Text) (is_hex : Bool) (f : FormatterType)
    → Agrees t
    → inner_formatter t k is_hex ≡ some f
    → Suits t k f
unfolding inner_formatter
inner_formatter-Suits t k false f a e = a.plain_ok k f e
inner_formatter-Suits t k true f a e = elim (Option-cases (find k t.hex)) [
  | inl n ↦ a.plain_ok k f (rw n at e)
  | inr (f', h) ↦ a.hex_ok k f (h ∙ (rw h at e))
]

-- A formatter that suits its letter may be kept in the tables.
remember-Agrees :
    (t : Tables) (k : Text) (f : FormatterType) (is_hex : Bool)
    → Agrees t
    → Suits t k f
    → Agrees (remember k f is_hex t)
unfolding remember select_length
remember-Agrees t k f false a s = record {
  plain_ok = λ j u e. elim (find-emplace j k f u t.plain e) [
    | inl old ↦ a.plain_ok j u old
    | inr (same, eq) ↦ rw (same, ← eq) s
  ];
  hex_ok = a.hex_ok;
  no_opt = a.no_opt;
}
remember-Agrees t k f true a s = record {
  plain_ok = a.plain_ok;
  hex_ok = λ j u e. elim (find-emplace j k f u t.hex e) [
    | inl old ↦ a.hex_ok j u old
    | inr (same, eq) ↦ rw (same, ← eq) s
  ];
  no_opt = a.no_opt;
}

-- What a look-up leaves: tables that agree, with the same lengths, and a formatter that suits.
pub record Selected (t : Tables) (k : Text) (out : Option FormatterType × Tables) : Type 0 where
  pub tables_agree : Agrees out.1
  pub same_lengths : out.1.lengths ≡ t.lengths
  pub suits : (f : FormatterType) → out.0 ≡ some f → Suits t k f

Selected-same :
    (t : Tables) (k : Text) (o : Option FormatterType)
    → Agrees t
    → ((f : FormatterType) → o ≡ some f → Suits t k f)
    → Selected t k (o, t)
Selected-same t k o a s = record { tables_agree = a; same_lengths = refl; suits = s }

select_opt-Selected :
    (t : Tables) (k : Text) (is_hex : Bool)
    → Agrees t
    → is_prefix opt_prefix k ≡ true
    → Selected t k (select_opt t k is_hex)
unfolding select_opt
select_opt-Selected t k is_hex a p = go (inner_formatter t (drop 3 k) is_hex) refl
  where
    go :
        (o : Option FormatterType)
        → inner_formatter t (drop 3 k) is_hex ≡ o
        → Selected t k (select_opt t k is_hex)
    go none e = rw (e, select_opt) (Selected-same t k none a (λ f n. cc))
    go (some f) e =
        let s = Suits-opt t k f a p (inner_formatter-Suits t (drop 3 k) is_hex f a e) in
        rw (e, select_opt)
          record {
            tables_agree = remember-Agrees t k (format_opt f) is_hex a s;
            same_lengths = unfold remember in ground arith;
            suits = λ u q. rw (← some-injective _ _ q) s;
          }

fallback-Suits :
    (t : Tables) (k : Text) (x : Bool) (f : FormatterType)
    → Agrees t
    → (if x then find k t.plain else none) ≡ some f
    → Suits t k f
fallback-Suits t k false f a e = cc
fallback-Suits t k true f a e = a.plain_ok k f e

pub select_formatter-Selected :
    (t : Tables) (k : Text) (is_hex : Bool) → Agrees t → Selected t k (select_formatter t k is_hex)
unfolding select_formatter
select_formatter-Selected t k is_hex a = go is_hex refl (exact is_hex) refl
  where
    exact : Bool → Option FormatterType
    exact x = if x then find k t.hex else find k t.plain

    go :
        (x : Bool)
        → is_hex ≡ x
        → (o : Option FormatterType) → exact x ≡ o
        → Selected t k (select_formatter t k x)
    go false h (some f) e =
        rw (e, select_formatter)
          (Selected-same t k (some f) a (λ u q. rw (← some-injective _ _ q) (a.plain_ok k f e)))
    go true h (some f) e =
        rw (e, select_formatter)
          (Selected-same t k (some f) a (λ u q. rw (← some-injective _ _ q) (a.hex_ok k f e)))
    go x h none e = elim (Bool-cases (is_prefix opt_prefix k)) [
      | inl p ↦ rw (e, p, select_formatter) (select_opt-Selected t k x a p)
      | inr p ↦
          rw (e, p, select_formatter) (Selected-same t k _ a (λ u q. fallback-Suits t k x u a q))
    ]

-- A table all of whose entries suit.
AllSuit : Tables → List (Text × FormatterType) → Type 0
AllSuit t [] = Unit
AllSuit t ((k, f) ∷ r) = Suits t k f × AllSuit t r

find-AllSuit :
    (t : Tables) (r : List (Text × FormatterType)) (k : Text) (f : FormatterType)
    → AllSuit t r
    → find k r ≡ some f
    → Suits t k f
unfolding AllSuit find
find-AllSuit t [] k f a e = cc
find-AllSuit t ((j, u) ∷ r) k f a e = elim (Bool-cases (text_eq k j)) [
  | inl same ↦ rw (text_eq→eq k j same, ← some-injective _ _ (rw same at e)) a.0
  | inr other ↦ find-AllSuit t r k f a.1 (rw other at e)
]

known :
    (t : Tables) (k : Text) (f : FormatterType) (g : LengthType)
    → select_length t k ≡ some g
    → Same f g
    → Suits t k f
known t k f g e s g' e' = rw (some-injective _ _ (sym e' ∙ e)) s

no_opt_entries : List (Text × LengthType) → Bool
no_opt_entries [] = true
no_opt_entries ((k, g) ∷ r) = not (is_prefix opt_prefix k) && no_opt_entries r

find-no_opt :
    (r : List (Text × LengthType)) (k : Text) (g : LengthType)
    → no_opt_entries r ≡ true
    → find k r ≡ some g
    → is_prefix opt_prefix k ≡ false
unfolding no_opt_entries find
find-no_opt [] k g h e = cc
find-no_opt ((j, u) ∷ r) k g h e = ground (arith, find-no_opt r k g, text_eq→eq k j)

-- The built-in tables agree: each formatter takes as many bytes as the length of its letter.
pub built_in-Agrees : (h : Host) → Agrees (built_in h)
unfolding built_in formatters_by_id hex_formatters_by_id lengths_by_id AllSuit select_length find
    no_opt_entries Basic.format_u8 Basic.format_u8_hex Basic.format_u16 Basic.format_u16_hex
    Basic.format_u32 Basic.format_u32_hex Basic.format_u64 Basic.format_u64_hex Basic.format_char
    Basic.format_string Basic.format_bool Basic.format_wall_clock format_float format_double
    is_prefix
built_in-Agrees h = record {
  plain_ok = λ k f. find-AllSuit t t.plain k f (
    known t (letter b'u') Basic.format_u8 Basic.length_u8 refl (λ m a os. refl),
    (
      known t (letter b's') Basic.format_u16 Basic.length_u16 refl (λ m a os. refl),
      (
        known t (letter b'i') Basic.format_u32 Basic.length_u32 refl (λ m a os. refl),
        (
          known t (letter b'q') Basic.format_u64 Basic.length_u64 refl (λ m a os. refl),
          (
            known t (letter b'c') Basic.format_char Basic.length_char refl (λ m a os. refl),
            (
              known t (letter b'p') Basic.format_string Basic.length_string refl (λ m a os. refl),
              (
                known t (letter b'b') Basic.format_bool Basic.length_bool refl (λ m a os. refl),
                (
                  known t (letter b'f') (format_float h) Basic.length_float refl (λ m a os. refl),
                  (
                    known t (letter b'd') (format_double h) Basic.length_double refl
                        (λ m a os. refl),
                    (
                      known t (letter b'w') Basic.format_wall_clock Basic.length_wall_clock refl
                          (λ m a os. refl),
                      tt,
                    ),
                  ),
                ),
              ),
            ),
          ),
        ),
      ),
    ),
  );
  hex_ok = λ k f. find-AllSuit t t.hex k f (
    known t (letter b'u') Basic.format_u8_hex Basic.length_u8 refl (λ m a os. refl),
    (
      known t (letter b's') Basic.format_u16_hex Basic.length_u16 refl (λ m a os. refl),
      (
        known t (letter b'i') Basic.format_u32_hex Basic.length_u32 refl (λ m a os. refl),
        (known t (letter b'q') Basic.format_u64_hex Basic.length_u64 refl (λ m a os. refl), tt),
      ),
    ),
  );
  no_opt = λ k g e. find-no_opt t.lengths k g refl e;
}
  where
    t : Tables
    t = built_in h
