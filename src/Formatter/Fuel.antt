-- ===== src/Formatter/Fuel.antt =====
-- The loops of `MessageFormatter::init` never run out of the fuel that they are given.
use quicktrace_public.Base.{ℕ, zero, suc, ◌≤◌, ◌<◌, ◌≡◌, ◌≢◌, refl, inl, inr, arith, ◌&&◌}
use quicktrace_public.Base.{Bool, true, false, [], ◌∷◌, Option, none, some, subst}
use quicktrace_public.Base.{Text, is_prefix, drop, if◌then◌else◌, Bool-cases, ◌==◌, length}
use quicktrace_public.Formatter.{FormatterType, LengthType}
use quicktrace_public.Formatter.Select.{Tables, select_formatter, select_length, letter}
use quicktrace_public.Formatter.Init.{
  Result, ok, fail, unsupported, no_length, bad_number, past_end, stuck,
}
use quicktrace_public.Formatter.Init.{
  ◌>>=◌, Build, split_comma, add_formatter, add_selected, add_pair, add_steps, print, behind_char,
}
use quicktrace_public.Formatter.Init.{
  Placeholder, text_loop, list_loop, placeholder_step, put_placeholder, add_placeholder,
}
use quicktrace_public.Formatter.Init.{next_placeholder, skip_wall_clock, list_parameters, init}
use quicktrace_public.Formatter.Init.{is_done, wall_clock_format}
use quicktrace_public.Formatter.Spec.{
  Scan, invalid, found, overread, too_big, get_format_param_spec,
}
use quicktrace_public.Formatter.Scanned.{Shorter, get_format_param_spec-Shorter}

-- The result is no run out of fuel, and a success has the property.
abbrev Ends {ℓ} : {A : Type ℓ} → (A → Type 0) → Result A → Type 0
Ends P (ok a) = P a
Ends P (fail (unsupported s)) = Unit
Ends P (fail (no_length s)) = Unit
Ends P (fail bad_number) = Unit
Ends P (fail past_end) = Unit
Ends P (fail stuck) = ⊥

Ends-bind {ℓ κ} :
    {X : Type ℓ} {Y : Type κ} (P : X → Type 0) (Q : Y → Type 0) (r : Result X) (f : X → Result Y)
    → Ends P r
    → ((x : X) → P x → Ends Q (f x))
    → Ends Q (r >>= f)
Ends-bind P Q (ok a) f h k = k a h
Ends-bind P Q (fail (unsupported s)) f h k = tt
Ends-bind P Q (fail (no_length s)) f h k = tt
Ends-bind P Q (fail bad_number) f h k = tt
Ends-bind P Q (fail past_end) f h k = tt
Ends-bind P Q (fail stuck) f h k = h

Ends-map {ℓ} :
    {A : Type ℓ} (P Q : A → Type 0) (r : Result A) → Ends P r → ((a : A) → P a → Q a) → Ends Q r
Ends-map P Q (ok a) k h = h a k
Ends-map P Q (fail (unsupported s)) k h = tt
Ends-map P Q (fail (no_length s)) k h = tt
Ends-map P Q (fail bad_number) k h = tt
Ends-map P Q (fail past_end) k h = tt
Ends-map P Q (fail stuck) k h = k

-- The text behind the placeholder is shorter.
abbrev Behind : Text → Option Placeholder → Type 0
Behind s none = Unit
Behind s (some p) = length p.behind < length s

behind_char-Ends :
    (c : ℕ) (cs : Text) (r : Result (Option Placeholder))
    → Ends (Behind cs) r
    → Ends (Behind (c ∷ cs)) (behind_char c r)
unfolding behind_char
behind_char-Ends c cs (ok none) h = tt
behind_char-Ends c cs (ok (some p)) h = omega arith
behind_char-Ends c cs (fail (unsupported s)) h = tt
behind_char-Ends c cs (fail (no_length s)) h = tt
behind_char-Ends c cs (fail bad_number) h = tt
behind_char-Ends c cs (fail past_end) h = tt
behind_char-Ends c cs (fail stuck) h = h

next_placeholder-Ends : (s : Text) → Ends (Behind s) (next_placeholder s)
unfolding next_placeholder Shorter
next_placeholder-Ends [] = tt
next_placeholder-Ends (c ∷ cs) =
    let rest = behind_char-Ends c cs _ (next_placeholder-Ends cs) in
    elim (Bool-cases (c == b'%')) [
      | inl e ↦ rw e (go _ rest (get_format_param_spec cs) (get_format_param_spec-Shorter cs))
      | inr e ↦ rw e rest
    ]
  where
    go :
        (r : Result (Option Placeholder))
        → Ends (Behind (c ∷ cs)) r
        → (x : Scan) → Shorter cs x
        → Ends (Behind (c ∷ cs)) (elim x [
          | invalid ↦ r
          | found s conv behind ↦
              ok (some (record { before = []; spec = s; conv = conv; behind = behind }))
          | overread ↦ fail past_end
          | too_big ↦ fail bad_number
        ])
    go r k invalid h = k
    go r k (found s conv behind) h = omega arith
    go r k overread h = tt
    go r k too_big h = tt

-- After a parameter, the format is what is behind the comma.
abbrev IsAt : Text → Build → Type 0
IsAt s b = b.fmt_ptr ≡ s

add_selected-Ends :
    (k rest : Text) (sel : Option FormatterType × Tables) (b : Build)
    → Ends (IsAt rest) (add_selected k rest sel b)
unfolding add_selected add_pair
add_selected-Ends k rest (none, t) b = tt
add_selected-Ends k rest (some f, t) b = go (select_length t k)
  where
    go : (o : Option LengthType) → Ends (IsAt rest) (add_pair k rest f t o b)
    go none = tt
    go (some g) = refl

add_formatter-Ends :
    (conv : ℕ) (b : Build) → Ends (IsAt (split_comma b.fmt_ptr).1) (add_formatter conv b)
unfolding add_formatter
add_formatter-Ends conv b = add_selected-Ends _ _ _ b

if-Ends {ℓ} :
    {A : Type ℓ} (P : A → Type 0) (x : Bool) (r s : Result A)
    → Ends P r
    → Ends P s
    → Ends P (if x then r else s)
if-Ends P true r s h k = h
if-Ends P false r s h k = k

abbrev Any {ℓ} : {A : Type ℓ} → A → Type 0
Any a = Unit

placeholder_step-Ends : (p : Placeholder) (b : Build) → Ends Any (placeholder_step p b)
unfolding placeholder_step put_placeholder add_placeholder
placeholder_step-Ends p b = if-Ends Any (p.conv == b'%') _ _ tt (go b.fmt_ptr)
  where
    go : (s : Text) → Ends Any (put_placeholder p s b)
    go [] = tt
    go (c ∷ cs) =
        Ends-bind Any Any _ _
          (Ends-bind (IsAt _) Any _ _ (add_formatter-Ends p.conv _) (λ b' h. tt)) (λ b' h. tt)

text_loop-Ends : (fuel : ℕ) (s : Text) (b : Build) → length s ≤ fuel → Ends Any (text_loop fuel s b)
unfolding text_loop
text_loop-Ends fuel [] b h = tt
text_loop-Ends zero (c ∷ cs) b h = ground arith
text_loop-Ends (suc fuel) (c ∷ cs) b h =
    Ends-bind (Behind (c ∷ cs)) Any (next_placeholder (c ∷ cs)) _ (next_placeholder-Ends (c ∷ cs))
      (λ o. go o (λ s' b' k. text_loop-Ends fuel s' b' (omega arith)))
  where
    after :
        (p : Placeholder) (q : Option Build)
        → ((b' : Build) → Ends Any (text_loop fuel p.behind b'))
        → Ends {A = Build × Text} Any
            (elim q [ none ↦ ok (b, c ∷ cs) | some b' ↦ text_loop fuel p.behind b' ])
    after p none k = tt
    after p (some b') k = k b'

    go :
        (o : Option Placeholder)
        → ((s' : Text) (b' : Build) → length s' < length (c ∷ cs) → Ends Any (text_loop fuel s' b'))
        → Behind (c ∷ cs) o
        → Ends {A = Build × Text} Any (elim o [
          | none ↦ ok (add_steps (print (c ∷ cs) ∷ []) b, [])
          | some p ↦ placeholder_step p b >>= λ q. elim q [
            | none ↦ ok (b, c ∷ cs)
            | some b' ↦ text_loop fuel p.behind b'
          ]
        ])
    go none k v = tt
    go (some p) k v =
        Ends-bind Any Any _ _ (placeholder_step-Ends p b) (λ q u. after p q (λ b'. k p.behind b' v))

split_comma-le : (s : Text) → length (split_comma s).1 ≤ length s
unfolding split_comma
split_comma-le [] = omega arith
split_comma-le (c ∷ cs) = ground (arith, split_comma-le cs)

split_comma-lt : (c : ℕ) (cs : Text) → length (split_comma (c ∷ cs)).1 < length (c ∷ cs)
unfolding split_comma
split_comma-lt c cs = ground (arith, split_comma-le cs)

list_loop-Ends :
    (fuel : ℕ) (x : Bool) (s : Text) (b : Build)
    → b.fmt_ptr ≡ s
    → length s ≤ fuel
    → Ends Any (list_loop fuel x s b)
unfolding list_loop add_steps
list_loop-Ends fuel x [] b e h = tt
list_loop-Ends zero x (c ∷ cs) b e h = ground arith
list_loop-Ends (suc fuel) x (c ∷ cs) b e h =
    Ends-bind (λ b'. length b'.fmt_ptr ≤ fuel) Any _ _ (go x)
      (λ b' k. list_loop-Ends fuel false b'.fmt_ptr b' refl k)
  where
    shorter : (b' : Build) → b'.fmt_ptr ≡ (split_comma b.fmt_ptr).1 → length b'.fmt_ptr ≤ fuel
    shorter b' k = ground (arith, k, e, split_comma-lt c cs)

    go :
        (y : Bool)
        → Ends
            (λ b'. length b'.fmt_ptr ≤ fuel)
            (add_formatter b's' (if y then b else add_steps (print (letter b',') ∷ []) b))
    go true = Ends-map _ _ _ (add_formatter-Ends b's' b) shorter
    go false =
        Ends-map _ _ _ (add_formatter-Ends b's' (add_steps (print (letter b',') ∷ []) b)) shorter

list_parameters-Ends : (msg fmt : Text) (b : Build) → Ends Any (list_parameters msg fmt b)
unfolding list_parameters
list_parameters-Ends msg fmt b =
    Ends-bind Any Any _ _ (list_loop-Ends (length fmt) true fmt _ refl (omega arith)) (λ b' h. tt)

skip_wall_clock-Ends : (lineno : ℕ) (b : Build) → Ends Any (skip_wall_clock lineno b)
unfolding skip_wall_clock
skip_wall_clock-Ends lineno b =
    elim (Bool-cases (lineno == 0 && is_prefix wall_clock_format b.fmt_ptr)) [
      | inl e ↦ rw e (
          Ends-map (IsAt (drop 4 b.fmt_ptr)) Any
            (add_selected (letter b'w') (drop 4 b.fmt_ptr)
              (select_formatter b.tables (letter b'w') false) b)
            (add_selected-Ends (letter b'w') (drop 4 b.fmt_ptr)
              (select_formatter b.tables (letter b'w') false) b)
            (λ b h. tt))
      | inr e ↦ rw e tt
    ]

rest_of_init-Ends :
    (msg fmt : Text) (r : Build × Text)
    → Ends Any (if is_done r.1 r.0.fmt_ptr then ok r.0 else list_parameters msg fmt r.0)
rest_of_init-Ends msg fmt r =
    if-Ends Any (is_done r.1 r.0.fmt_ptr) (ok r.0) (list_parameters msg fmt r.0) tt
      (list_parameters-Ends msg fmt r.0)

init_lem : (t : Tables) (lineno : ℕ) (msg fmt : Text) → Ends Any (init t lineno msg fmt)
unfolding init
init_lem t lineno msg fmt =
    Ends-bind Any Any (skip_wall_clock lineno empty)
      (λ b. text_loop (length msg) msg b >>= λ r.
        if is_done r.1 r.0.fmt_ptr then ok r.0 else list_parameters msg fmt r.0)
      (skip_wall_clock-Ends lineno empty)
      (λ b h.
        Ends-bind Any Any (text_loop (length msg) msg b)
          (λ r. if is_done r.1 r.0.fmt_ptr then ok r.0 else list_parameters msg fmt r.0)
          (text_loop-Ends (length msg) msg b (omega arith)) (λ r k. rest_of_init-Ends msg fmt r))
  where
    empty : Build
    empty = record { formatters = []; lengths = []; tables = t; fmt_ptr = fmt }

-- `init` comes to an end: with formatters and lengths, or with a failure of the program, as the
-- loops have enough fuel.
pub init-Ends : (t : Tables) (lineno : ℕ) (msg fmt : Text) → init t lineno msg fmt ≢ fail stuck
init-Ends t lineno msg fmt e = subst (Ends Any) e (init_lem t lineno msg fmt)
