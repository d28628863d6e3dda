-- ===== src/Formatter/Paired.antt =====
-- Printing a message takes as many bytes of the buffer as its length says.
use quicktrace_public.Base.{ℕ, ◌+◌, ◌≡◌, refl, sym, ◌∙◌, inl, inr, arith}
use quicktrace_public.Base.{
  Bool, true, false, ◌||◌, List, [], ◌∷◌, ◌++◌, Option, none, some, Memory,
}
use quicktrace_public.Base.{Text, if◌then◌else◌, Bool-cases, ◌==◌}
use quicktrace_public.Formatter.{
  LengthType, FormatterType, Step, param, fixed_text, length_from, format_from,
}
use quicktrace_public.Formatter.Stream.{OStream, insert}
use quicktrace_public.Formatter.Select.{Tables, select_length}
use quicktrace_public.Formatter.Agree.{Same, Agrees, Selected, select_formatter-Selected}
use quicktrace_public.Formatter.Init.{
  Result, ok, fail, ◌>>=◌, Build, split_comma, add_formatter, add_steps, add_selected, add_pair,
}
use quicktrace_public.Formatter.Init.{
  print_before, add_placeholder, Placeholder, put_placeholder, placeholder_step,
}
use quicktrace_public.Formatter.Spec.{is_set, apply_c_format_spec, reset_c_format_spec}

-- The parameters among the steps take, in order, what the lengths say.
abbrev pub Paired : List Step → List LengthType → Type 0
Paired [] [] = Unit
Paired [] (g ∷ gs) = ⊥
Paired (fixed_text p ∷ ss) gs = Paired ss gs
Paired (param f ∷ ss) [] = ⊥
Paired (param f ∷ ss) (g ∷ gs) = Same f g × Paired ss gs

pub format_from-length_from :
    (ss : List Step) (gs : List LengthType) (m : Memory) (buf n : ℕ) (os : OStream)
    → Paired ss gs
    → (format_from ss m buf n os).0 ≡ length_from gs m buf n
unfolding format_from length_from
format_from-length_from [] [] m buf n os h = refl
format_from-length_from [] (g ∷ gs) m buf n os h = absurd h
format_from-length_from (fixed_text p ∷ ss) gs m buf n os h =
    format_from-length_from ss gs m buf n (p os) h
format_from-length_from (param f ∷ ss) [] m buf n os h = absurd h
format_from-length_from (param f ∷ ss) (g ∷ gs) m buf n os h = ground (
  arith,
  h.0 m (buf + n) os,
  format_from-length_from ss gs m buf (n + g m (buf + n)) (f m (buf + n) os).1,
)

Paired-fixed :
    (ss : List Step) (gs : List LengthType) (p : OStream → OStream)
    → Paired ss gs
    → Paired (ss ++ (fixed_text p ∷ [])) gs
Paired-fixed [] [] p h = tt
Paired-fixed [] (g ∷ gs) p h = h
Paired-fixed (fixed_text q ∷ ss) gs p h = Paired-fixed ss gs p h
Paired-fixed (param f ∷ ss) [] p h = h
Paired-fixed (param f ∷ ss) (g ∷ gs) p h = (h.0, Paired-fixed ss gs p h.1)

Paired-param :
    (ss : List Step) (gs : List LengthType) (f : FormatterType) (g : LengthType)
    → Paired ss gs
    → Same f g
    → Paired (ss ++ (param f ∷ [])) (gs ++ (g ∷ []))
Paired-param [] [] f g h s = (s, tt)
Paired-param [] (g' ∷ gs) f g h s = absurd h
Paired-param (fixed_text q ∷ ss) gs f g h s = Paired-param ss gs f g h s
Paired-param (param f' ∷ ss) [] f g h s = absurd h
Paired-param (param f' ∷ ss) (g' ∷ gs) f g h s = (h.0, Paired-param ss gs f g h.1 s)

-- The lengths `gs` are `first` and then those of the letters of `fmt` up to `rest`.
pub data Consumed (t : Tables) (first : List LengthType) (fmt : Text)
    : List LengthType → Text → Type 0 where
  start : Consumed t first fmt first fmt
  next :
      {gs : List LengthType} {rest : Text} (g : LengthType)
      → Consumed t first fmt gs rest
      → select_length t (split_comma rest).0 ≡ some g
      → Consumed t first fmt (gs ++ (g ∷ [])) (split_comma rest).1

-- What holds of the parts while `init` puts them together.
pub record Built (t : Tables) (first : List LengthType) (fmt : Text) (b : Build) : Type 0 where
  pub paired : Paired b.formatters b.lengths
  pub agrees : Agrees b.tables
  pub same : b.tables.lengths ≡ t.lengths
  pub consumed : Consumed t first fmt b.lengths b.fmt_ptr

abbrev pub Ensures {ℓ} : {A : Type ℓ} → (A → Type 0) → Result A → Type 0
Ensures P (ok a) = P a
Ensures P (fail e) = Unit

pub Ensures-bind {ℓ κ} :
    {X : Type ℓ} {Y : Type κ} (P : X → Type 0) (Q : Y → Type 0) (r : Result X) (f : X → Result Y)
    → Ensures P r
    → ((x : X) → P x → Ensures Q (f x))
    → Ensures Q (r >>= f)
Ensures-bind P Q (ok a) f h k = k a h
Ensures-bind P Q (fail e) f h k = tt

pub Ensures-any {ℓ} : {A : Type ℓ} (r : Result A) → Ensures (λ a. Unit) r
Ensures-any (ok a) = tt
Ensures-any (fail e) = tt

pub select_length-same :
    (t u : Tables) (k : Text) → u.lengths ≡ t.lengths → select_length u k ≡ select_length t k
unfolding select_length
select_length-same t u k e = rw e

-- What a step that takes the format letter `k` adds.
pub record Extended (t : Tables) (k rest : Text) (b b' : Build) : Type 0 where
  pub g : LengthType
  pub chosen : select_length t k ≡ some g
  pub lengths_are : b'.lengths ≡ b.lengths ++ (g ∷ [])
  pub rest_is : b'.fmt_ptr ≡ rest
  pub pairs : Paired b'.formatters b'.lengths
  pub agree : Agrees b'.tables
  pub as_before : b'.tables.lengths ≡ t.lengths

pub add_selected-Extended :
    (t : Tables) (k rest : Text) (b : Build) (sel : Option FormatterType × Tables)
    → Paired b.formatters b.lengths
    → b.tables.lengths ≡ t.lengths
    → Selected b.tables k sel
    → Ensures (Extended t k rest b) (add_selected k rest sel b)
unfolding add_selected
add_selected-Extended t k rest b (none, u) p same s = tt
add_selected-Extended t k rest b (some f, u) p same s = go (select_length u k) refl
  where
    same_table : u.lengths ≡ t.lengths
    same_table = s.same_lengths ∙ same

    go :
        (o : Option LengthType)
        → select_length u k ≡ o
        → Ensures (Extended t k rest b) (add_pair k rest f u o b)
    go none e = unfold add_pair in tt
    go (some g) e =
        unfold add_pair in
        record {
          g = g;
          chosen = select_length-same u t k (sym same_table) ∙ e;
          lengths_are = refl;
          rest_is = refl;
          pairs =
              Paired-param b.formatters b.lengths f g p
                (s.suits f refl g (select_length-same u b.tables k (sym s.same_lengths) ∙ e));
          agree = s.tables_agree;
          as_before = same_table;
        }

pub Ensures-map {ℓ} :
    {A : Type ℓ} (P Q : A → Type 0) (r : Result A)
    → Ensures P r
    → ((a : A) → P a → Q a)
    → Ensures Q r
Ensures-map P Q (ok a) h k = k a h
Ensures-map P Q (fail e) h k = tt

module _ (t : Tables) (first : List LengthType) (fmt : Text) where
  pub add_print-Built :
      (p : OStream → OStream) (b : Build)
      → Built t first fmt b
      → Built t first fmt (add_steps (fixed_text p ∷ []) b)
  unfolding add_steps
  add_print-Built p b h = record {
    paired = Paired-fixed b.formatters b.lengths p h.paired;
    agrees = h.agrees;
    same = h.same;
    consumed = h.consumed;
  }

  pub add_formatter-Built :
      (conv : ℕ) (b : Build)
      → Built t first fmt b
      → Ensures (Built t first fmt) (add_formatter conv b)
  unfolding add_formatter
  add_formatter-Built conv b h =
      Ensures-map (Extended t (split_comma b.fmt_ptr).0 (split_comma b.fmt_ptr).1 b)
        (Built t first fmt) _
        (add_selected-Extended t _ _ b _ h.paired h.same
          (select_formatter-Selected b.tables _ (conv == b'p' || conv == b'x') h.agrees))
        (λ b' x. record {
          paired = x.pairs;
          agrees = x.agree;
          same = x.as_before;
          consumed = rw (x.lengths_are, x.rest_is) (next x.g h.consumed x.chosen);
        })

  print_before-Built :
      (s : Text) (b : Build) → Built t first fmt b → Built t first fmt (print_before s b)
  unfolding print_before
  print_before-Built [] b h = h
  print_before-Built (c ∷ cs) b h = add_print-Built (insert (c ∷ cs)) b h

  pub if-Built :
      (x : Bool) (b b' : Build)
      → Built t first fmt b
      → Built t first fmt b'
      → Built t first fmt (if x then b else b')
  if-Built true b b' h h' = h
  if-Built false b b' h h' = h'

  add_placeholder-Built :
      (p : Placeholder) (b : Build)
      → Built t first fmt b
      → Ensures (Built t first fmt) (add_placeholder p b)
  unfolding add_placeholder
  add_placeholder-Built p b h =
      let h1 = print_before-Built p.before b h in
      let h2 = if-Built (p.conv == b'p') _ _ (add_print-Built _ _ h1) h1 in
      let h3 =
        if-Built (is_set p.spec) _ _ (add_print-Built (apply_c_format_spec p.spec) _ h2) h2 in
      Ensures-bind (Built t first fmt) (Built t first fmt) _ _ (add_formatter-Built p.conv _ h3)
        (λ b4 h4. if-Built (is_set p.spec) _ _ (add_print-Built reset_c_format_spec b4 h4) h4)

  abbrev pub OrStop : Option Build → Type 0
  OrStop none = Unit
  OrStop (some b) = Built t first fmt b

  put_placeholder-Built :
      (p : Placeholder) (s : Text) (b : Build)
      → Built t first fmt b
      → Ensures OrStop (put_placeholder p s b)
  unfolding put_placeholder
  put_placeholder-Built p [] b h = tt
  put_placeholder-Built p (c ∷ cs) b h =
      Ensures-bind (Built t first fmt) OrStop _ _ (add_placeholder-Built p b h) (λ b' h'. h')

  pub placeholder_step-Built :
      (p : Placeholder) (b : Build) → Built t first fmt b → Ensures OrStop (placeholder_step p b)
  unfolding placeholder_step
  placeholder_step-Built p b h = elim (Bool-cases (p.conv == b'%')) [
    | inl e ↦ rw e (add_print-Built _ b h)
    | inr e ↦ rw e (put_placeholder-Built p b.fmt_ptr b h)
  ]
