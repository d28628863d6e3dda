-- ===== src/Tail/Ready.antt =====
-- What `Tail::nextTsc` of qttail.cpp leaves of a file: the choice among its ring buffers.
use quicktrace_public.Base.{ℕ, ◌≡◌, refl, ap, ◌∙◌, ◌⊎◌, inl, inr, arith}
use quicktrace_public.Base.{
  Bool, true, false, not, [], ◌∷◌, Option, none, some, if◌then◌else◌, Bool-cases,
}
use quicktrace_public.Tail.{
  Tail, Status, initializing, active, delete_pending, reinit_pending, reinit_ready, Choice, Poll,
  chosen, idle,
}
use quicktrace_public.Tail.{status_is, change_status, polled, Mapped, Levels}
use quicktrace_public.Tail.{
  search, no_choice, initialize, ensure_ready, next_message, rewind_all, is_initializing, is_ready,
  make_readers,
}
use quicktrace_public.Tail.Events.{Holds, Holds-bind, Holds-map, if-Holds}
use quicktrace_public.Tail.Asserts.{rewind_all-Holds}
use quicktrace_public.Tail.Choice.{scan_rounds-still, IsLowest}
use quicktrace_public.Reader.{Messages}

-- A split on a test that keeps its equation.
pub if-Holds_cases {ℓ} :
    {A : Type ℓ} (P : A → Type 0) (b : Bool) (x y : Poll A)
    → (b ≡ true → Holds P x)
    → (b ≡ false → Holds P y)
    → Holds P (if b then x else y)
if-Holds_cases P true x y h k = h refl
if-Holds_cases P false x y h k = k refl

-- A change of status leaves the choice.
abbrev pub Kept : Status → Tail → Tail → Type 0
Kept s t t' = (t'.status ≡ s) × (t'.next ≡ t.next) × (t'.is_mapped ≡ t.is_mapped)

pub to_initializing :
    (old : Status) (t : Tail)
    → t.status ≡ old
    → (is_initializing old ≡ true) ⊎ (is_ready old ≡ true)
    → Holds (Kept initializing t) (change_status initializing old t)
unfolding change_status
to_initializing initializing t e h = (e, refl, refl)
to_initializing active t e h = ground (arith, h)
to_initializing delete_pending t e h = ground (arith, h)
to_initializing reinit_pending t e h = ground (arith, h)
to_initializing reinit_ready t e h = (refl, refl, refl)

pub to_active :
    (old : Status) (t : Tail)
    → old ≡ initializing
    → Holds (Kept active t) (change_status active old t)
unfolding change_status
to_active initializing t e = (refl, refl, refl)
to_active active t e = ground (arith, ap is_initializing e)
to_active delete_pending t e = ground (arith, ap is_initializing e)
to_active reinit_pending t e = ground (arith, ap is_initializing e)
to_active reinit_ready t e = ground (arith, ap is_initializing e)

-- The file is mapped and past its initialization.
abbrev pub IsOpen : Tail → Type 0
IsOpen t = (is_initializing t.status ≡ false) × (t.is_mapped ≡ true)

-- What `initialize` returns for a file: its choice, and whether it is open.
abbrev pub Initialized : Tail → Bool × Tail → Type 0
Initialized t p = (p.1.next ≡ t.next) × (p.0 ≡ true → IsOpen p.1)

pub initialize-Initialized :
    (get : Messages) (tail : Bool) (o : Levels) (f : Mapped) (t : Tail)
    → (is_initializing t.status ≡ true) ⊎ (is_ready t.status ≡ true)
    → Holds (Initialized t) (initialize get tail o f t)
unfolding initialize status_is
initialize-Initialized get tail o f t h =
    Holds-bind (Kept initializing t) (Initialized t) (change_status initializing t.status t) _
      (to_initializing t.status t refl h)
      (λ t1 k.
        if-Holds (Initialized t) f.is_usable _ _
          (Holds-bind (λ rs. Unit) (Initialized t)
            (rewind_all get tail o f.mem 0 (make_readers 0 f.file_header_size f.log_sizes)) _
            (rewind_all-Holds get tail o f.mem 0 (make_readers 0 f.file_header_size f.log_sizes))
            (λ rs u.
              Holds-bind (Kept active (record t1 { is_mapped = true; rbs = rs; tsc1 = f.tsc1 }))
                (Initialized t)
                (change_status active t1.status
                  (record t1 { is_mapped = true; rbs = rs; tsc1 = f.tsc1 }))
                _
                (to_active t1.status (record t1 { is_mapped = true; rbs = rs; tsc1 = f.tsc1 }) k.0)
                (λ t3 w. (w.1 ∙ k.1, λ e. (ap is_initializing w.0, w.2)))))
          (k.1, λ e. ground (arith, e)))

-- What `ensure_ready` leaves: a file that is open stays as it is.
abbrev pub Ensured : Tail → Bool × Tail → Type 0
Ensured t p = Initialized t p × (IsOpen t → p.1 ≡ t)

if_initializing :
    (get : Messages) (tail : Bool) (o : Levels) (f : Mapped) (t : Tail)
    → Holds
        (λ p.
          (p.1.next ≡ t.next)
          × (p.0 ≡ true → is_initializing p.1.status ≡ false)
          × (IsOpen t → (p.0 ≡ true) × (p.1 ≡ t)))
        (if is_initializing t.status then initialize get tail o f t else polled (true, t))
if_initializing get tail o f t = elim (Bool-cases (is_initializing t.status)) [
  | inl e ↦ rw e (
      Holds-map (Initialized t) _ (initialize get tail o f t)
        (initialize-Initialized get tail o f t (inl e))
        (λ p k. (k.0, λ h. (k.1 h).0, λ open'. ground (arith, e, open'.0))))
  | inr e ↦ rw e (refl, λ h. e, λ open'. (refl, refl))
]

abbrev Tried : Tail → Bool × Tail → Type 0
Tried t p =
    (p.1.next ≡ t.next)
    × (p.0 ≡ true → is_initializing p.1.status ≡ false)
    × (IsOpen t → (p.0 ≡ true) × (p.1 ≡ t))

if_ready :
    (get : Messages) (tail : Bool) (o : Levels) (f : Mapped) (t t1 : Tail)
    → t1.next ≡ t.next
    → ¬ (IsOpen t)
    → Holds
        (Ensured t)
        (if is_ready t1.status then initialize get tail o f t1 else polled (false, t1))
if_ready get tail o f t t1 k h = elim (Bool-cases (is_ready t1.status)) [
  | inl e ↦ rw e (
      Holds-map (Initialized t1) (Ensured t) (initialize get tail o f t1)
        (initialize-Initialized get tail o f t1 (inr e))
        (λ p w. ((w.0 ∙ k, w.1), λ open'. absurd (h open'))))
  | inr e ↦ rw e ((k, λ x. ground (arith, x)), λ open'. absurd (h open'))
]

if_mapped :
    (get : Messages) (tail : Bool) (o : Levels) (f : Mapped) (t t1 : Tail)
    → Tried t (true, t1)
    → Holds (Ensured t) (
        if t1.is_mapped
        then polled (true, t1)
        else if is_ready t1.status
        then initialize get tail o f t1
        else polled (false, t1))
if_mapped get tail o f t t1 k =
    if-Holds_cases (Ensured t) t1.is_mapped _ _
      (λ e. ((k.0, λ x. (k.1 refl, e)), λ open'. (k.2 open').1))
      (λ e.
        if_ready get tail o f t t1 k.0
          (λ open'. ground (arith, e, ap (λ (x : Tail). x.is_mapped) (k.2 open').1)))

Ensured-rest :
    (get : Messages) (tail : Bool) (o : Levels) (f : Mapped) (t : Tail) (p : Bool × Tail)
    → Tried t p
    → Holds (Ensured t) (
        if not p.0
        then polled p
        else if p.1.is_mapped
        then polled (true, p.1)
        else if is_ready p.1.status
        then initialize get tail o f p.1
        else polled (false, p.1))
Ensured-rest get tail o f t (true, t1) k = if_mapped get tail o f t t1 k
Ensured-rest get tail o f t (false, t1) k =
    ((k.0, λ x. ground (arith, x)), λ open'. ground (arith, (k.2 open').0))

pub ensure_ready-Ensured :
    (get : Messages) (tail : Bool) (o : Levels) (f : Mapped) (t : Tail)
    → Holds (Ensured t) (ensure_ready get tail o f t)
unfolding ensure_ready
ensure_ready-Ensured get tail o f t =
    Holds-bind (Tried t) (Ensured t)
      (if is_initializing t.status then initialize get tail o f t else polled (true, t)) _
      (if_initializing get tail o f t) (λ p k. Ensured-rest get tail o f t p k)

-- A choice that names a ring buffer is the lowest there is on a file that stays as it is.
abbrev pub Searched : Levels → Mapped → Tail → Tail → Type 0
Searched o f t t' =
    (i : ℕ)
    → t'.next.1 ≡ some i
    → IsOpen t' × IsLowest o f.mem 0 t'.rbs no_choice t'.next × (IsOpen t → t'.rbs ≡ t.rbs)

chosen-Searched :
    (o : Levels) (f : Mapped) (t t1 : Tail) (c : Choice)
    → IsOpen t1
    → (IsOpen t → t1 ≡ t)
    → IsLowest o f.mem 0 t1.rbs no_choice c
    → Searched o f t (chosen f c t1)
unfolding idle
chosen-Searched o f t t1 (tsc, some i) open' same low =
    λ j e. (open', low, λ x. ap (λ (u : Tail). u.rbs) (same x))
chosen-Searched o f t t1 (tsc, none) open' same low = λ j e. absurd (idle-none t1.status j e)
  where
    idle-none :
        (s : Status) (j : ℕ)
        → ¬ ((idle f (record t1 { status = s; next = (tsc, none) })).next.1 ≡ some j)
    idle-none initializing j e = cc
    idle-none active j e = cc
    idle-none delete_pending j e = cc
    idle-none reinit_pending j e = cc
    idle-none reinit_ready j e = cc

search-Searched :
    (get : Messages) (tail : Bool) (o : Levels) (f : Mapped) (t : Tail)
    → f.rounds ≡ f.mem ∷ f.mem ∷ []
    → t.next ≡ no_choice
    → Holds (Searched o f t) (search get tail o f t)
unfolding search
search-Searched get tail o f t e h =
    Holds-bind (Ensured t) (Searched o f t) (ensure_ready get tail o f t) _
      (ensure_ready-Ensured get tail o f t)
      (λ p k.
        if-Holds_cases (Searched o f t) p.0 _ _
          (λ x.
            let (c, found, low) = scan_rounds-still o f.mem [] p.1.rbs in
            rw (e, found) (chosen-Searched o f t p.1 c (k.0.1 x) k.1 low))
          (λ x j y. absurd (unchosen p.1.next (k.0.0 ∙ h) j y)))
  where
    unchosen : (c : Choice) → c ≡ no_choice → (j : ℕ) → ¬ (c.1 ≡ some j)
    unchosen c e j y = cc (ap (λ (x : Choice). x.1) e)

-- `nextTsc` of a file that stays as it is, without a choice made before: it is the lowest.
pub next_message-Searched :
    (get : Messages) (tail : Bool) (o : Levels) (f : Mapped) (t : Tail)
    → f.rounds ≡ f.mem ∷ f.mem ∷ []
    → t.next ≡ no_choice
    → Holds (Searched o f t) (next_message get tail o f t)
unfolding next_message
next_message-Searched get tail o f t e h = go t.next.1 (ap (λ (x : Choice). x.1) h)
  where
    go :
        (x : Option ℕ)
        → x ≡ none
        → Holds (Searched o f t) (elim x [ some i ↦ polled t | none ↦ search get tail o f t ])
    go none k = search-Searched get tail o f t e h
    go (some i) k = cc

-- A choice made before stands.
pub next_message_chosen :
    (get : Messages) (tail : Bool) (o : Levels) (f : Mapped) (t : Tail) (i : ℕ)
    → t.next.1 ≡ some i
    → next_message get tail o f t ≡ polled t
unfolding next_message
next_message_chosen get tail o f t i e = go t.next.1 e
  where
    go :
        (x : Option ℕ)
        → x ≡ some i
        → elim x [ some i ↦ polled t | none ↦ search get tail o f t ] ≡ polled t
    go none k = cc
    go (some j) k = refl
