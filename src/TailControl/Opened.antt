-- ===== src/TailControl/Opened.antt =====
-- The files and watches that the constructor of qttail.cpp's TailControl makes keep what its rounds keep.
use quicktrace_public.Base.{ℕ, ◌+◌, ◌≡◌, refl, ap, ◌∙◌, inl, inr, arith}
use quicktrace_public.Base.{true, false, List, [], ◌∷◌, ltb, ◌==◌}
use quicktrace_public.Base.{Text, text_eq, Memory, All, Bool-cases}
use quicktrace_public.Reader.{Reader, Messages}
use quicktrace_public.Reader.Rewind.{Forward, forward, threw, no_fuel, fastforward}
use quicktrace_public.Tail.{
  Tail, initializing, active, Levels, level_enabled, Mapped, polled, exited, no_round, ◌>>=◌,
  blank_tail, status_is, change_status, make_readers,
}
use quicktrace_public.Tail.Watch.{Watch, is_waiting, any_waiting}
use quicktrace_public.Tail.Events.{Holds, Holds-bind, Holds-map, if-Holds, IsWatching}
use quicktrace_public.Tail.Ready.{Kept, to_initializing, to_active}
use quicktrace_public.Tail.Steps.{IsLow, AllLow, LowTails}
use quicktrace_public.TailControl.{Watches}
use quicktrace_public.TailControl.Kept.{IsFollowing}
use quicktrace_public.TailControl.Start.{
  skip_all, open_tail, wds, insert_watch, text_lt, insert_tail, insert_at,
}

-- A file that was opened does not wait, and has no choice.
abbrev pub IsFresh : Tail → Type 0
IsFresh t = (is_waiting t.status ≡ false) × IsLow t

skip_all-Holds :
    (get : Messages) (o : Levels) (m : Memory) (fuel level : ℕ) (rs : List Reader)
    → Holds (λ rs. Unit) (skip_all get o m fuel level rs)
unfolding skip_all
skip_all-Holds get o m fuel level [] = tt
skip_all-Holds get o m fuel level (r ∷ rs) =
    let rest = skip_all-Holds get o m fuel (level + 1) rs in
    if-Holds (λ rs. Unit) (level_enabled o level) _ _ (go rest (fastforward get true m fuel r))
      (with_first r rest)
  where
    with_first :
        (x : Reader)
        → Holds (λ rs. Unit) (skip_all get o m fuel (level + 1) rs)
        → Holds {A = List Reader}
            (λ rs. Unit)
            (skip_all get o m fuel (level + 1) rs >>= λ rs'. polled (x ∷ rs'))
    with_first x rest =
        Holds-bind (λ rs. Unit) (λ rs. Unit) (skip_all get o m fuel (level + 1) rs) _ rest
          (λ rs' u. tt)

    go :
        Holds (λ rs. Unit) (skip_all get o m fuel (level + 1) rs)
        → (x : Forward)
        → Holds {A = List Reader}
            (λ rs. Unit)
            (elim x [
              | forward r' ↦ skip_all get o m fuel (level + 1) rs >>= λ rs'. polled (r' ∷ rs')
              | threw why ↦ exited
              | no_fuel ↦ no_round
            ])
    go rest (forward r') = with_first r' rest
    go rest (threw why) = tt
    go rest no_fuel = tt

fresh_lem : (t : Tail) → is_waiting t.status ≡ false → t.next ≡ blank_tail.next → IsFresh t
fresh_lem t w e = (w, λ i x. cc)

pub open_tail-IsFresh :
    (o : Levels) (fuel : ℕ) (file : Messages × Mapped) → Holds IsFresh (open_tail o fuel file)
unfolding open_tail status_is is_waiting
open_tail-IsFresh o fuel (get, f) =
    Holds-bind (Kept initializing blank_tail) IsFresh
      (change_status initializing blank_tail.status blank_tail) _
      (to_initializing blank_tail.status blank_tail refl (inr refl))
      (λ t1 k.
        if-Holds IsFresh f.is_usable _ (polled (record t1 { is_mapped = true }))
          (Holds-bind (λ rs. Unit) IsFresh
            (skip_all get o f.mem fuel 0 (make_readers 0 f.file_header_size f.log_sizes)) _
            (skip_all-Holds get o f.mem fuel 0 (make_readers 0 f.file_header_size f.log_sizes))
            (λ rs u.
              let t2 = record t1 { is_mapped = true; rbs = rs; tsc1 = f.tsc1 } in
              Holds-map (Kept active t2) IsFresh (change_status active t1.status t2)
                (to_active t1.status t2 k.0)
                (λ t3 w. fresh_lem t3 (ap is_waiting w.0) (w.1 ∙ k.1))))
          (fresh_lem (record t1 { is_mapped = true }) (ap is_waiting k.0) k.1))

-- Watches that keep what the rounds keep.
abbrev pub IsKept : Watches → Type 0
IsKept ws = All (λ (x : ℕ × Watch). IsWatching x.1 × LowTails x.1) ws

pub IsKept-IsFollowing : (ws : Watches) → IsKept ws → IsFollowing (wds ws) ws
IsKept-IsFollowing [] h = tt
IsKept-IsFollowing ((wd, w) ∷ ws) h = (refl, h.0, IsKept-IsFollowing ws h.1)

pub insert_watch-IsKept : (k : ℕ) (ws : Watches) → IsKept ws → IsKept (insert_watch k ws)
unfolding insert_watch any_waiting
insert_watch-IsKept k [] h = ((λ e. ground (arith, e), tt), tt)
insert_watch-IsKept k ((wd, w) ∷ ws) h = elim (Bool-cases (ltb k wd)) [
  | inl e ↦ rw e ((λ x. ground (arith, x), tt), h)
  | inr e ↦ rw e (h.0, insert_watch-IsKept k ws h.1)
]

insert_tail-AllLow :
    (name : Text) (t : Tail) (ts : List (Text × Tail))
    → IsFresh t
    → (any_waiting (insert_tail name t ts) ≡ true → any_waiting ts ≡ true)
      × (AllLow ts → AllLow (insert_tail name t ts))
unfolding insert_tail any_waiting
insert_tail-AllLow name t [] f = (λ x. ground (arith, x, f.0), λ h. (f.1, tt))
insert_tail-AllLow name t ((j, u) ∷ ts) f = elim (Bool-cases (text_eq name j)) [
  | inl e ↦ rw e (λ x. x, λ h. h)
  | inr e ↦ elim (Bool-cases (text_lt name j)) [
    | inl e' ↦ rw (e, e') (λ x. ground (arith, x, f.0), λ h. (f.1, h))
    | inr e' ↦
        let rest = insert_tail-AllLow name t ts f in
        rw (e, e') (λ x. ground (arith, x, rest.0), λ h. (h.0, rest.1 h.1))
  ]
]

pub insert_at-IsKept :
    (k : ℕ) (name : Text) (t : Tail) (ws : Watches)
    → IsFresh t
    → IsKept ws
    → IsKept (insert_at k name t ws) × (wds (insert_at k name t ws) ≡ wds ws)
unfolding insert_at
insert_at-IsKept k name t [] f h = (tt, refl)
insert_at-IsKept k name t ((wd, w) ∷ ws) f h = elim (Bool-cases (wd == k)) [
  | inl e ↦
      let ins = insert_tail-AllLow name t w.tails f in
      rw e (((λ x. h.0.0 (ins.0 x), ins.1 h.0.1), h.1), refl)
  | inr e ↦
      let rest = insert_at-IsKept k name t ws f h.1 in rw e ((h.0, rest.0), ap (λ l. wd ∷ l) rest.1)
]
