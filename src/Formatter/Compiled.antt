-- ===== src/Formatter/Compiled.antt =====
-- `MessageFormatter::init`: what its loops build.
use quicktrace_public.Base.{subst, ℕ, zero, suc, ◌≡◌, refl, sym, ◌⊎◌, inl, inr, arith, ◌&&◌}
use quicktrace_public.Base.{
  Bool, true, false, List, [], ◌∷◌, Option, none, some, Memory, Option-cases,
}
use quicktrace_public.Base.{Text, is_prefix, drop, if◌then◌else◌, Bool-cases, ◌==◌, length}
use quicktrace_public.Formatter.{LengthType}
use quicktrace_public.Formatter.{MessageFormatter, message_length, message_format}
use quicktrace_public.Formatter.Stream.{OStream, insert}
use quicktrace_public.Formatter.Select.{Tables, select_length, letter}
use quicktrace_public.Formatter.Agree.{Agrees, select_formatter-Selected}
use quicktrace_public.Formatter.Init.{Result, ok, ◌>>=◌, Build, add_steps}
use quicktrace_public.Formatter.Init.{text_loop, list_loop, placeholder_step}
use quicktrace_public.Formatter.Init.{
  next_placeholder, skip_wall_clock, list_parameters, init, make_formatter,
}
use quicktrace_public.Formatter.Init.{is_done, wall_clock_format}
use quicktrace_public.Formatter.Paired.{
  Paired, Consumed, start, Built, Ensures, Ensures-bind, Ensures-any, OrStop,
}
use quicktrace_public.Formatter.Paired.{
  Ensures-map, Extended, add_selected-Extended, add_formatter-Built, placeholder_step-Built,
  add_print-Built,
}
use quicktrace_public.Formatter.Paired.{if-Built, format_from-length_from}

module _ (t : Tables) (first : List LengthType) (fmt : Text) where
  abbrev BuiltRest : Build × Text → Type 0
  BuiltRest r = Built t first fmt r.0

  after :
      (b : Build) (s : Text)
      → Built t first fmt b
      → (q : Option Build) (f : Build → Result (Build × Text))
      → ((b' : Build) → Built t first fmt b' → Ensures BuiltRest (f b'))
      → OrStop t first fmt q
      → Ensures BuiltRest (elim q [ none ↦ ok (b, s) | some b' ↦ f b' ])
  after b s h none f k v = h
  after b s h (some b') f k v = k b' v

  text_loop-Built :
      (fuel : ℕ) (s : Text) (b : Build)
      → Built t first fmt b
      → Ensures BuiltRest (text_loop fuel s b)
  unfolding text_loop
  text_loop-Built fuel [] b h = h
  text_loop-Built zero (c ∷ cs) b h = tt
  text_loop-Built (suc fuel) (c ∷ cs) b h =
      Ensures-bind (λ o. Unit) BuiltRest (next_placeholder (c ∷ cs)) _ (Ensures-any _)
        (λ o u. elim (Option-cases o) [
          | inl e ↦ rw e (add_print-Built t first fmt (insert (c ∷ cs)) b h)
          | inr (p, e) ↦ rw e (
              Ensures-bind (OrStop t first fmt) BuiltRest (placeholder_step p b) _
                (placeholder_step-Built t first fmt p b h)
                (λ q.
                  after b (c ∷ cs) h q (λ b'. text_loop fuel p.behind b')
                    (λ b'. text_loop-Built fuel p.behind b')))
        ])

  -- The loop over the formats leaves none.
  abbrev BuiltAll : Build → Type 0
  BuiltAll b = Built t first fmt b × b.fmt_ptr ≡ []

  list_loop-Built :
      (fuel : ℕ) (from_start : Bool) (s : Text) (b : Build)
      → Built t first fmt b
      → b.fmt_ptr ≡ s
      → Ensures BuiltAll (list_loop fuel from_start s b)
  unfolding list_loop
  list_loop-Built fuel x [] b h e = (h, e)
  list_loop-Built zero x (c ∷ cs) b h e = tt
  list_loop-Built (suc fuel) x (c ∷ cs) b h e =
      Ensures-bind (Built t first fmt) BuiltAll _ _
        (add_formatter-Built t first fmt b's' _
          (if-Built t first fmt x _ _ h (add_print-Built t first fmt _ b h)))
        (λ b' h'. list_loop-Built fuel false b'.fmt_ptr b' h' refl)

list_parameters-Built :
    (t : Tables) (msg fmt : Text) (b : Build)
    → Agrees b.tables
    → b.tables.lengths ≡ t.lengths
    → Ensures (BuiltAll t [] fmt) (list_parameters msg fmt b)
unfolding list_parameters add_steps
list_parameters-Built t msg fmt b agrees same =
    Ensures-bind (BuiltAll t [] fmt) (BuiltAll t [] fmt) _ _
      (list_loop-Built t [] fmt (length fmt) true fmt _
        (record { paired = tt; agrees = agrees; same = same; consumed = start }) refl)
      (λ b' h. (add_print-Built t [] fmt _ b' h.0, h.1))

-- The lengths and the format that are done before the loop over the text starts.
abbrev pub Start : Tables → ℕ → Text → List LengthType → Text → Type 0
Start t lineno fmt first rest =
    ((first ≡ []) × (rest ≡ fmt))
    ⊎ ((lineno ≡ 0)
        × (is_prefix wall_clock_format fmt ≡ true)
        × (rest ≡ drop 4 fmt)
        × (g : LengthType) × (select_length t (letter b'w') ≡ some g)
        × (first ≡ g ∷ []))

abbrev pub Compiled : Tables → ℕ → Text → Build → Type 0
Compiled t lineno fmt b =
    Paired b.formatters b.lengths
    × Agrees b.tables
    × (b.tables.lengths ≡ t.lengths)
    × (first : List LengthType) × (rest : Text) × Start t lineno fmt first rest
    × Consumed t first rest b.lengths []

compiled :
    (t : Tables) (lineno : ℕ) (fmt : Text) (b : Build) (first : List LengthType) (rest : Text)
    → Start t lineno fmt first rest
    → BuiltAll t first rest b
    → Compiled t lineno fmt b
compiled t lineno fmt b first rest s (h, e) =
    (h.paired, h.agrees, h.same, first, rest, s, rw (sym e) h.consumed)

is_done-eq : (s fmt : Text) → is_done s fmt ≡ true → fmt ≡ []
is_done-eq [] [] e = refl
is_done-eq [] (c ∷ cs) e = ground arith
is_done-eq (d ∷ ds) fmt e = ground arith

rest_of_init-Compiled :
    (t : Tables) (lineno : ℕ) (msg fmt : Text) (b : Build) (first : List LengthType) (rest : Text)
    → Start t lineno fmt first rest
    → Built t first rest b
    → Ensures (Compiled t lineno fmt) (
        text_loop (length msg) msg b >>= λ r.
        if is_done r.1 r.0.fmt_ptr then ok r.0 else list_parameters msg fmt r.0)
rest_of_init-Compiled t lineno msg fmt b first rest s h =
    Ensures-bind (λ (r : Build × Text). Built t first rest r.0) (Compiled t lineno fmt) _ _
      (text_loop-Built t first rest (length msg) msg b h)
      (λ r h'. elim (Bool-cases (is_done r.1 r.0.fmt_ptr)) [
        | inl e ↦ rw e (compiled t lineno fmt r.0 first rest s (h', is_done-eq r.1 r.0.fmt_ptr e))
        | inr e ↦ rw e (
            Ensures-map (BuiltAll t [] fmt) (Compiled t lineno fmt) _
              (list_parameters-Built t msg fmt r.0 h'.agrees h'.same)
              (λ b' k. compiled t lineno fmt b' [] fmt (inl (refl, refl)) k))
      ])

init-Compiled :
    (t : Tables) (lineno : ℕ) (msg fmt : Text)
    → Agrees t
    → Ensures (Compiled t lineno fmt) (init t lineno msg fmt)
unfolding init skip_wall_clock
init-Compiled t lineno msg fmt h =
    elim (Bool-cases (lineno == 0 && is_prefix wall_clock_format fmt)) [
      | inl e ↦ rw e (
          Ensures-bind (Extended t (letter b'w') (drop 4 fmt) empty) (Compiled t lineno fmt) _ _
            (add_selected-Extended t (letter b'w') (drop 4 fmt) empty _ tt refl
              (select_formatter-Selected t (letter b'w') false h))
            (λ b x.
              rest_of_init-Compiled t lineno msg fmt b (x.g ∷ []) (drop 4 fmt)
                (inr ((ground arith), (ground arith), refl, x.g, x.chosen, refl))
                (record {
                  paired = x.pairs;
                  agrees = x.agree;
                  same = x.as_before;
                  consumed = rw (x.lengths_are, x.rest_is) start;
                })))
      | inr e ↦ rw e (
          rest_of_init-Compiled t lineno msg fmt empty [] fmt (inl (refl, refl))
            (record { paired = tt; agrees = h; same = refl; consumed = start }))
    ]
  where
    empty : Build
    empty = record { formatters = []; lengths = []; tables = t; fmt_ptr = fmt }

-- What is known of a message that was made, and of the tables after it.
abbrev Made : Tables → Text → ℕ → Text → MessageFormatter × Tables → Type 0
Made t filename lineno fmt r =
    Paired r.0.formatters r.0.lengths
    × Agrees r.1
    × (r.1.lengths ≡ t.lengths)
    × (first : List LengthType) × (rest : Text) × Start t lineno fmt first rest
    × Consumed t first rest r.0.lengths []

make_formatter-Made :
    (t : Tables) (filename : Text) (lineno : ℕ) (msg fmt : Text)
    → Agrees t
    → Ensures (Made t filename lineno fmt) (make_formatter t filename lineno msg fmt)
unfolding make_formatter
make_formatter-Made t filename lineno msg fmt h =
    Ensures-bind (Compiled t lineno fmt) (Made t filename lineno fmt) _ _
      (init-Compiled t lineno msg fmt h) (λ b k. k)

Ensures-ok {ℓ} : {A : Type ℓ} (P : A → Type 0) (r : Result A) (a : A) → Ensures P r → r ≡ ok a → P a
Ensures-ok {A = A} P r a h e = subst (Ensures P) e h

-- A message made from tables in which formatters and lengths agree takes, when it is printed, as
-- many bytes as its length says (or both fail), wherever it lies and whatever the stream.
pub message_format-message_length :
    (t : Tables) (filename msg fmt : Text) (lineno : ℕ) (f : MessageFormatter) (u : Tables)
    (m : Memory) (buf : ℕ) (os : OStream)
    → Agrees t
    → make_formatter t filename lineno msg fmt ≡ ok (f, u)
    → (message_format f m buf os).0 ≡ message_length f m buf
unfolding message_format message_length
message_format-message_length t filename msg fmt lineno f u m buf os h e =
    format_from-length_from f.formatters f.lengths m buf 0 os
      (Ensures-ok (Made t filename lineno fmt) _ (f, u)
        (make_formatter-Made t filename lineno msg fmt h) e).0

-- The lengths of a message that is made are those of the letters of its whole format, in order, each
-- looked up in the length table, whatever its text; on line 0 the wall clock's may stand for the
-- first two. The tables still agree, and the table of lengths is as it was.
pub make_formatter-Consumed :
    (t : Tables) (filename msg fmt : Text) (lineno : ℕ) (f : MessageFormatter) (u : Tables)
    → Agrees t
    → make_formatter t filename lineno msg fmt ≡ ok (f, u)
    → Agrees u
      × (u.lengths ≡ t.lengths)
      × (first : List LengthType) × (rest : Text) × Start t lineno fmt first rest
      × Consumed t first rest f.lengths []
make_formatter-Consumed t filename msg fmt lineno f u h e =
    let made =
      Ensures-ok (Made t filename lineno fmt) _ (f, u)
        (make_formatter-Made t filename lineno msg fmt h) e in
    (made.1, made.2, made.3, made.4, made.5, made.6)
