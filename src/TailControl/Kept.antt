-- ===== src/TailControl/Kept.antt =====
-- What the rounds of qttail.cpp's TailControl keep of its watches and their files.
use quicktrace_public.Base.{ℕ, ◌≡◌, ◌≢◌, refl, sym, arith, subst}
use quicktrace_public.Base.{Bool, true, false, ◌||◌, List, [], ◌∷◌}
use quicktrace_public.Base.{◌==◌, All, length}
use quicktrace_public.Tail.{assertion}
use quicktrace_public.Tail.Watch.{Watch, process}
use quicktrace_public.Tail.Events.{Holds, Holds-bind, if-Holds, IsWatching, process-IsWatching}
use quicktrace_public.Tail.Ready.{if-Holds_cases}
use quicktrace_public.Tail.Steps.{Holds-and, LowTails, process-LowTails}
use quicktrace_public.TailControl.{
  Watches, Event, Read, failed, nothing_yet, bytes, Wake, process_event, read_events, read_all,
  watch,
}
use quicktrace_public.TailControl.Events.{
  Written, IsWritten, written_all, process_all, read_events-written_all,
}

-- The watches of the descriptors `ks`: while a file waits for its modification, its directory is
-- watched for modifications, and every choice that is made is below the greatest time stamp.
abbrev pub IsFollowing : List ℕ → Watches → Type 0
IsFollowing [] [] = Unit
IsFollowing [] (x ∷ ws) = ⊥
IsFollowing (k ∷ ks) [] = ⊥
IsFollowing (k ∷ ks) ((wd, w) ∷ ws) = (wd ≡ k) × (IsWatching w × LowTails w) × IsFollowing ks ws

abbrev pub is_descriptor : ℕ → List ℕ → Bool
is_descriptor wd [] = false
is_descriptor wd (k ∷ ks) = k == wd || is_descriptor wd ks

process_kept :
    (e : Event) (w : Watch)
    → IsWatching w × LowTails w
    → Holds (λ w. IsWatching w × LowTails w) (process e.kind e.name w)
process_kept e w h =
    Holds-and IsWatching LowTails (process e.kind e.name w) (process-IsWatching e.kind e.name w h.0)
      (process-LowTails e.kind e.name w h.1)

pub process_event-IsFollowing :
    (ks : List ℕ) (e : Event) (ws : Watches)
    → IsFollowing ks ws
    → is_descriptor e.wd ks ≡ true
    → Holds (IsFollowing ks) (process_event e ws)
unfolding process_event
process_event-IsFollowing [] e [] h x = ground (arith, x)
process_event-IsFollowing [] e (y ∷ ws) h x = absurd h
process_event-IsFollowing (k ∷ ks) e [] h x = absurd h
process_event-IsFollowing (k ∷ ks) e ((wd, w) ∷ ws) h x =
    if-Holds_cases (IsFollowing (k ∷ ks)) (wd == e.wd) _ _
      (λ s.
        Holds-bind (λ w. IsWatching w × LowTails w) (IsFollowing (k ∷ ks)) (process e.kind e.name w)
          _ (process_kept e w h.1) (λ w' l. (h.0, l, h.2)))
      (λ s.
        Holds-bind (IsFollowing ks) (IsFollowing (k ∷ ks)) (process_event e ws) _
          (process_event-IsFollowing ks e ws h.2 (ground (arith, x, s, h.0)))
          (λ ws' l. (h.0, h.1, l)))

unknown_asserts :
    (ks : List ℕ) (e : Event) (ws : Watches)
    → IsFollowing ks ws
    → is_descriptor e.wd ks ≡ false
    → process_event e ws ≡ assertion
unfolding process_event
unknown_asserts ks e [] h x = refl
unknown_asserts [] e (y ∷ ws) h x = absurd h
unknown_asserts (k ∷ ks) e ((wd, w) ∷ ws) h x = ground (arith, x, h.0, unknown_asserts ks e ws h.2)

-- In watches as the rounds keep them, an event of a descriptor that no watch has makes the assertion
-- fail, and no other event does.
pub process_event-asserts :
    (ks : List ℕ) (e : Event) (ws : Watches)
    → IsFollowing ks ws
    → (is_descriptor e.wd ks ≡ true → process_event e ws ≢ assertion)
      × (is_descriptor e.wd ks ≡ false → process_event e ws ≡ assertion)
process_event-asserts ks e ws h = (
  λ x a. subst (Holds (IsFollowing ks)) a (process_event-IsFollowing ks e ws h x),
  unknown_asserts ks e ws h,
)

-- Events of descriptors that are known.
abbrev pub AreKnown : List ℕ → List Written → Type 0
AreKnown ks vs = All (λ (v : Written). is_descriptor v.event.wd ks ≡ true) vs

process_all-IsFollowing :
    (ks : List ℕ) (vs : List Written) (ws : Watches)
    → IsFollowing ks ws
    → AreKnown ks vs
    → Holds (IsFollowing ks) (process_all vs ws)
unfolding process_all
process_all-IsFollowing ks [] ws h x = h
process_all-IsFollowing ks (v ∷ vs) ws h x =
    Holds-bind (IsFollowing ks) (IsFollowing ks) (process_event v.event ws) _
      (process_event-IsFollowing ks v.event ws h x.0)
      (λ ws' l. process_all-IsFollowing ks vs ws' l x.1)

-- What the kernel writes: whole events, of descriptors that are known.
abbrev pub IsKernel : List ℕ → Read → Type 0
IsKernel ks failed = Unit
IsKernel ks nothing_yet = Unit
IsKernel ks (bytes bs) =
    (vs : List Written) × (bs ≡ written_all vs) × All IsWritten vs × AreKnown ks vs

read_all-IsFollowing :
    (ks : List ℕ) (a : Read) (ws : Watches)
    → IsKernel ks a
    → IsFollowing ks ws
    → Holds (IsFollowing ks) (read_all a ws)
unfolding read_all
read_all-IsFollowing ks failed ws k h = tt
read_all-IsFollowing ks nothing_yet ws k h = h
read_all-IsFollowing ks (bytes bs) ws (vs, e, fits, known) h =
    subst (λ bs. Holds (IsFollowing ks) (read_events (length bs) bs ws)) (sym e)
      (subst (Holds (IsFollowing ks))
        (sym (read_events-written_all (length (written_all vs)) vs ws fits (omega arith)))
        (process_all-IsFollowing ks vs ws h known))

pub watch-IsFollowing :
    (ks : List ℕ) (poll : Bool) (a : Wake) (ws : Watches)
    → IsKernel ks a.input
    → IsFollowing ks ws
    → Holds (IsFollowing ks) (watch poll a ws)
unfolding watch
watch-IsFollowing ks false a ws k h = read_all-IsFollowing ks a.input ws k h
watch-IsFollowing ks true a ws k h = if-Holds (IsFollowing ks) a.poll_failed _ _ tt (
    if-Holds (IsFollowing ks) a.is_closed _ _ tt
      (if-Holds (IsFollowing ks) a.has_input _ _ (read_all-IsFollowing ks a.input ws k h) h))
