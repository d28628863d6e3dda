-- ===== src/Tail/Events.antt =====
-- The events of qttail.cpp's Watch: its assertions hold, and it does not miss a modification.
use quicktrace_public.Base.{◌≡◌, refl, sym, ◌∙◌, ap, ◌⊎◌, inl, inr, arith}
use quicktrace_public.Base.{Bool, true, false, ◌||◌, List, [], ◌∷◌, if◌then◌else◌}
use quicktrace_public.Base.{Text, text_eq}
use quicktrace_public.Tail.{
  Tail, Status, initializing, active, delete_pending, reinit_pending, reinit_ready,
}
use quicktrace_public.Tail.{
  change_status, status_is, drop_unread, Poll, polled, assertion, exited, no_round, ◌>>=◌,
}
use quicktrace_public.Tail.Watch.{
  Watch, Kind, created, deleted, modified, other, is_waiting, any_waiting, set_status,
}
use quicktrace_public.Tail.Watch.{watch_for_modifications_is, update_status, process, is_known}

-- No assertion fails, and a state that is reached has the property.
abbrev pub Holds {ℓ} : {A : Type ℓ} → (A → Type 0) → Poll A → Type 0
Holds P (polled a) = P a
Holds P assertion = ⊥
Holds P exited = Unit
Holds P no_round = Unit

pub Holds-bind {ℓ κ} :
    {X : Type ℓ} {Y : Type κ} (P : X → Type 0) (Q : Y → Type 0) (r : Poll X) (f : X → Poll Y)
    → Holds P r
    → ((x : X) → P x → Holds Q (f x))
    → Holds Q (r >>= f)
Holds-bind P Q (polled a) f h k = k a h
Holds-bind P Q assertion f h k = h
Holds-bind P Q exited f h k = tt
Holds-bind P Q no_round f h k = tt

pub Holds-map {ℓ} :
    {A : Type ℓ} (P Q : A → Type 0) (r : Poll A) → Holds P r → ((a : A) → P a → Q a) → Holds Q r
Holds-map P Q (polled a) h k = k a h
Holds-map P Q assertion h k = h
Holds-map P Q exited h k = tt
Holds-map P Q no_round h k = tt

-- While a file waits for its modification, the watch is set for modifications.
abbrev pub IsWatching : Watch → Type 0
IsWatching w = any_waiting w.tails ≡ true → w.modifications ≡ true

-- The new statuses that events bring.
abbrev pub IsEvent : Status → Type 0
IsEvent initializing = ⊥
IsEvent active = ⊥
IsEvent delete_pending = Unit
IsEvent reinit_pending = Unit
IsEvent reinit_ready = Unit

abbrev Waits : Status → Status → Tail → Type 0
Waits s old t' = is_waiting t'.status ≡ true → (is_waiting old ≡ true) ⊎ (s ≡ reinit_pending)

-- No event makes an assertion fail, and only a creation makes a file wait.
change_status_lem :
    (s old : Status) (t : Tail)
    → t.status ≡ old
    → IsEvent s
    → Holds (Waits s old) (change_status s old t)
unfolding change_status is_waiting drop_unread
change_status_lem initializing old t e h = absurd h
change_status_lem active old t e h = absurd h
change_status_lem delete_pending initializing t e h = λ k. ground (arith, e)
change_status_lem delete_pending active t e h = λ k. ground (arith, e)
change_status_lem delete_pending delete_pending t e h = λ k. ground (arith, e)
change_status_lem delete_pending reinit_pending t e h = λ k. ground (arith, e)
change_status_lem delete_pending reinit_ready t e h = λ k. ground (arith, e)
change_status_lem reinit_pending initializing t e h = λ k. inr refl
change_status_lem reinit_pending active t e h = λ k. inr refl
change_status_lem reinit_pending delete_pending t e h = λ k. inr refl
change_status_lem reinit_pending reinit_pending t e h = λ k. inr refl
change_status_lem reinit_pending reinit_ready t e h = λ k. inr refl
change_status_lem reinit_ready initializing t e h = λ k. ground (arith, e)
change_status_lem reinit_ready active t e h = λ k. ground (arith, e)
change_status_lem reinit_ready delete_pending t e h = λ k. ground (arith, e)
change_status_lem reinit_ready reinit_pending t e h = λ k. ground (arith, e)
change_status_lem reinit_ready reinit_ready t e h = λ k. ground (arith, e)

status_is_lem : (s : Status) (t : Tail) → IsEvent s → Holds (Waits s t.status) (status_is s t)
unfolding status_is
status_is_lem s t h = change_status_lem s t.status t refl h

abbrev AnyWaits : Status → List (Text × Tail) → List (Text × Tail) → Type 0
AnyWaits s ts ts' = any_waiting ts' ≡ true → (any_waiting ts ≡ true) ⊎ (s ≡ reinit_pending)

pub if-Holds {ℓ} :
    {A : Type ℓ} (P : A → Type 0) (b : Bool) (x y : Poll A)
    → Holds P x
    → Holds P y
    → Holds P (if b then x else y)
if-Holds P true x y h k = h
if-Holds P false x y h k = k

or-waits :
    (a b c d : Bool) (s : Status)
    → (a ≡ true → (b ≡ true) ⊎ (s ≡ reinit_pending))
    → (c ≡ true → (d ≡ true) ⊎ (s ≡ reinit_pending))
    → a || c ≡ true
    → (b || d ≡ true) ⊎ (s ≡ reinit_pending)
or-waits true b c d s f g w = elim (f refl) [ inl e ↦ inl (rw e refl) | inr e ↦ inr e ]
or-waits false true c d s f g w = inl refl
or-waits false false c d s f g w = g w

set_status_lem :
    (k : Text) (s : Status) (ts : List (Text × Tail))
    → IsEvent s
    → Holds (AnyWaits s ts) (set_status k s ts)
unfolding set_status any_waiting
set_status_lem k s [] h = λ w. ground (arith, w)
set_status_lem k s ((j, t) ∷ ts) h =
    if-Holds (AnyWaits s ((j, t) ∷ ts)) (text_eq k j) _ _
      (Holds-bind (Waits s t.status) (AnyWaits s ((j, t) ∷ ts)) (status_is s t) _
        (status_is_lem s t h) (λ t' f w. first t' f w))
      (Holds-bind (AnyWaits s ts) (AnyWaits s ((j, t) ∷ ts)) (set_status k s ts) _
        (set_status_lem k s ts h) (λ ts' f w. later ts' f w))
  where
    first : (t' : Tail) → Waits s t.status t' → AnyWaits s ((j, t) ∷ ts) ((j, t') ∷ ts)
    first t' f w =
        or-waits (is_waiting t'.status) (is_waiting t.status) (any_waiting ts) (any_waiting ts) s f
          inl w

    later : (ts' : List (Text × Tail)) → AnyWaits s ts ts' → AnyWaits s ((j, t) ∷ ts) ((j, t) ∷ ts')
    later ts' f w =
        or-waits (is_waiting t.status) (is_waiting t.status) (any_waiting ts') (any_waiting ts) s
          inl f w

update_status_lem :
    (k : Text) (s : Status) (w : Watch)
    → IsEvent s
    → Holds
        (λ w'. AnyWaits s w.tails w'.tails × (w'.modifications ≡ w.modifications))
        (update_status k s w)
unfolding update_status
update_status_lem k s w h =
    Holds-bind (AnyWaits s w.tails)
      (λ w'. AnyWaits s w.tails w'.tails × (w'.modifications ≡ w.modifications))
      (set_status k s w.tails) _ (set_status_lem k s w.tails h) (λ ts f. (f, refl))

same_tails : (on : Bool) (w : Watch) → (watch_for_modifications_is on w).tails ≡ w.tails
unfolding watch_for_modifications_is
same_tails on w = ground arith

stays_on :
    (w : Watch)
    → IsWatching w
    → any_waiting w.tails ≡ true
    → (watch_for_modifications_is false w).modifications ≡ true
unfolding watch_for_modifications_is
stays_on w h e = rw e (h e)

-- Events on the files of a directory make no assertion fail, and while any file waits for its
-- modification, the directory stays watched for modifications.
pub process-IsWatching :
    (kind : Kind) (name : Text) (w : Watch) → IsWatching w → Holds IsWatching (process kind name w)
unfolding process is_waiting
process-IsWatching created name w h =
    if-Holds IsWatching (is_known name w) _ _
      (Holds-map _ IsWatching _
        (update_status_lem name reinit_pending (watch_for_modifications_is true w) tt)
        (λ w' f x. f.1 ∙ switched_on))
      h
  where
    switched_on : (watch_for_modifications_is true w).modifications ≡ true
    switched_on = unfold watch_for_modifications_is in ground (arith, h)
process-IsWatching deleted name w h =
    if-Holds IsWatching (is_known name w) _ _
      (Holds-map _ IsWatching _
        (update_status_lem name delete_pending (watch_for_modifications_is false w) tt)
        (λ w' f x. f.1 ∙ still_on (f.0 x)))
      h
  where
    still_on :
        (any_waiting (watch_for_modifications_is false w).tails ≡ true)
          ⊎ (delete_pending ≡ reinit_pending)
        → (watch_for_modifications_is false w).modifications ≡ true
    still_on (inl e) = stays_on w h (sym (ap any_waiting (same_tails false w)) ∙ e)
    still_on (inr e) = ground (arith, ap is_waiting e)
process-IsWatching modified name w h =
    if-Holds IsWatching (is_known name w) _ _
      (Holds-bind _ IsWatching _ _ (update_status_lem name reinit_ready w tt)
        (λ w' f. switched w' f))
      h
  where
    watched :
        (any_waiting w.tails ≡ true) ⊎ (reinit_ready ≡ reinit_pending) → w.modifications ≡ true
    watched (inl e) = h e
    watched (inr e) = ground (arith, ap is_waiting e)

    switched :
        (w' : Watch)
        → AnyWaits reinit_ready w.tails w'.tails × (w'.modifications ≡ w.modifications)
        → IsWatching (watch_for_modifications_is false w')
    switched w' f x =
        let e = sym (ap any_waiting (same_tails false w')) ∙ x in
        stays_on w' (λ y. f.1 ∙ watched (f.0 y)) e
process-IsWatching other name w h = h
