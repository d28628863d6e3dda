-- ===== src/TailControl/Rounds.antt =====
-- What nextTsc, tailBuffer and the watching of a round of qttail.cpp's TailControl keep of its watches.
use quicktrace_public.Base.{ℕ, zero, suc, ◌+◌, ◌≡◌, refl, sym, ap, ◌∙◌, arith, subst}
use quicktrace_public.Base.{Bool, true, false, not, ◌||◌, List, [], ◌∷◌, Option, none, some}
use quicktrace_public.Base.{Text, get_elem?, set, some_eq}
use quicktrace_public.Formatter.Stream.{OStream}
use quicktrace_public.Reader.Dump.{Options, Output}
use quicktrace_public.Tail.{Tail, Levels, polled, exited, ◌>>=◌, next_message}
use quicktrace_public.Tail.Watch.{Watch, any_waiting}
use quicktrace_public.Tail.Events.{Holds, Holds-bind, if-Holds, IsWatching}
use quicktrace_public.Tail.Steps.{Steps, next_message-Steps, tail_buffer-Steps, AllLow, LowTails}
use quicktrace_public.Tail.Buffer.{tail_buffer}
use quicktrace_public.TailControl.{
  Watches, Round, Best, visit_tails, visit_watches, dump_at, watch, look_at, after_message,
}
use quicktrace_public.TailControl.Kept.{IsFollowing, IsKernel, watch-IsFollowing}

-- Files after the files `ts`: none begins to wait.
abbrev StepTails : List (Text × Tail) → List (Text × Tail) → Type 0
StepTails ts ts' = (any_waiting ts' ≡ true → any_waiting ts ≡ true) × (AllLow ts → AllLow ts')

step_first :
    (name : Text) (t t' : Tail) (ts ts' : List (Text × Tail))
    → Steps t t'
    → StepTails ts ts'
    → StepTails ((name, t) ∷ ts) ((name, t') ∷ ts')
unfolding any_waiting
step_first name t t' ts ts' s k = (λ x. ground (arith, x, s.1, k.0), λ l. (s.0 l.0, k.1 l.1))

visit_tails-StepTails :
    (levels : Levels) (r : Round) (n k : ℕ) (ts : List (Text × Tail)) (best : Best)
    → Holds (λ p. StepTails ts p.0) (visit_tails levels r n k ts best)
unfolding visit_tails
visit_tails-StepTails levels r n k [] best = (λ x. x, λ l. l)
visit_tails-StepTails levels r n k ((name, t) ∷ ts) best =
    Holds-bind (Steps t) _ (next_message (r.file n k).0 true levels (r.file n k).1 t) _
      (next_message-Steps (r.file n k).0 true levels (r.file n k).1 t)
      (λ t' s.
        Holds-bind (λ p. StepTails ts p.0) _
          (visit_tails levels r n (k + 1) ts (look_at n k t' best)) _
          (visit_tails-StepTails levels r n (k + 1) ts (look_at n k t' best))
          (λ p l. step_first name t t' ts p.0 s l))

step_watch :
    (w : Watch) (ts : List (Text × Tail))
    → StepTails w.tails ts
    → IsWatching w × LowTails w
    → IsWatching (record w { tails = ts }) × LowTails (record w { tails = ts })
step_watch w ts s h = (λ x. h.0 (s.0 x), s.1 h.1)

pub visit_watches-IsFollowing :
    (levels : Levels) (r : Round) (ks : List ℕ) (n : ℕ) (ws : Watches) (best : Best)
    → IsFollowing ks ws
    → Holds (λ p. IsFollowing ks p.0) (visit_watches levels r n ws best)
unfolding visit_watches
visit_watches-IsFollowing levels r ks n [] best h = h
visit_watches-IsFollowing levels r [] n (x ∷ ws) best h = absurd h
visit_watches-IsFollowing levels r (k ∷ ks) n ((wd, w) ∷ ws) best h =
    Holds-bind (λ p. StepTails w.tails p.0) _ (visit_tails levels r n 0 w.tails best) _
      (visit_tails-StepTails levels r n 0 w.tails best)
      (λ p s.
        Holds-bind (λ q. IsFollowing ks q.0) _ (visit_watches levels r (n + 1) ws p.1) _
          (visit_watches-IsFollowing levels r ks (n + 1) ws p.1 h.2)
          (λ q l. (h.0, step_watch w p.0 s h.1, l)))

set_tail-StepTails :
    (ts : List (Text × Tail)) (k : ℕ) (name : Text) (t t' : Tail)
    → get_elem? ts k ≡ some (name, t)
    → Steps t t'
    → StepTails ts (set ts k (name, t'))
unfolding any_waiting
set_tail-StepTails [] k name t t' e s = cc
set_tail-StepTails ((name', u) ∷ ts) zero name t t' e s =
    let same = some_eq (name', u) (name, t) e in
    step_first name' u t' ts ts (subst (λ (x : Text × Tail). Steps x.1 t') (sym same) s)
      (λ x. x, λ l. l)
set_tail-StepTails ((name', u) ∷ ts) (suc k) name t t' e s =
    step_first name' u u ts (set ts k (name, t')) (λ l. l, λ x. x)
      (set_tail-StepTails ts k name t t' e s)

set_watch-IsFollowing :
    (ks : List ℕ) (ws : Watches) (n wd : ℕ) (w : Watch) (ts : List (Text × Tail))
    → get_elem? ws n ≡ some (wd, w)
    → IsFollowing ks ws
    → StepTails w.tails ts
    → IsFollowing ks (set ws n (wd, record w { tails = ts }))
set_watch-IsFollowing [] [] n wd w ts e h s = cc
set_watch-IsFollowing [] (x ∷ ws) n wd w ts e h s = absurd h
set_watch-IsFollowing (k ∷ ks) [] n wd w ts e h s = cc
set_watch-IsFollowing (k ∷ ks) ((wd', w') ∷ ws) zero wd w ts e h s =
    let same = some_eq (wd', w') (wd, w) e in
    (
      sym (ap (λ (x : ℕ × Watch). x.0) same) ∙ h.0,
      step_watch w ts s (subst (λ (x : ℕ × Watch). IsWatching x.1 × LowTails x.1) same h.1),
      h.2,
    )
set_watch-IsFollowing (k ∷ ks) ((wd', w') ∷ ws) (suc n) wd w ts e h s =
    (h.0, h.1, set_watch-IsFollowing ks ws n wd w ts e h.2 s)

dumped_tail :
    (options : Options) (os : OStream) (r : Round) (ks : List ℕ) (tsc n k i : ℕ) (ws : Watches)
    (out : Output) (wd : ℕ) (w : Watch)
    → get_elem? ws n ≡ some (wd, w)
    → IsFollowing ks ws
    → (x : Option (Text × Tail)) → get_elem? w.tails k ≡ x
    → Holds {A = Bool × Watches × Output}
        (λ q. IsFollowing ks q.1)
        (elim x [
          | none ↦ exited
          | some (name, t) ↦
              tail_buffer (r.file n k).0 options r.mem os tsc r.cur_tsc i out t >>= λ p.
              polled (p.0, set ws n (wd, record w { tails = set w.tails k (name, p.1) }), p.2)
        ])
dumped_tail options os r ks tsc n k i ws out wd w e h none f = tt
dumped_tail options os r ks tsc n k i ws out wd w e h (some (name, t)) f =
    Holds-bind (λ p. Steps t p.1) _
      (tail_buffer (r.file n k).0 options r.mem os tsc r.cur_tsc i out t) _
      (tail_buffer-Steps (r.file n k).0 options r.mem os tsc r.cur_tsc i out t)
      (λ p s.
        set_watch-IsFollowing ks ws n wd w (set w.tails k (name, p.1)) e h
          (set_tail-StepTails w.tails k name t p.1 f s))

pub dump_at-IsFollowing :
    (options : Options) (os : OStream) (r : Round) (ks : List ℕ) (tsc : ℕ) (place : ℕ × ℕ × ℕ)
    (ws : Watches) (out : Output)
    → IsFollowing ks ws
    → Holds (λ q. IsFollowing ks q.1) (dump_at options os r tsc place ws out)
unfolding dump_at
dump_at-IsFollowing options os r ks tsc (n, k, i) ws out h = go (get_elem? ws n) refl
  where
    go :
        (x : Option (ℕ × Watch))
        → get_elem? ws n ≡ x
        → Holds {A = Bool × Watches × Output}
            (λ q. IsFollowing ks q.1)
            (elim x [
              | none ↦ exited
              | some (wd, w) ↦ elim (get_elem? w.tails k) [
                | none ↦ exited
                | some (name, t) ↦
                    tail_buffer (r.file n k).0 options r.mem os tsc r.cur_tsc i out t >>= λ p.
                    polled (p.0, set ws n (wd, record w { tails = set w.tails k (name, p.1) }), p.2)
              ]
            ])
    go none e = tt
    go (some (wd, w)) e =
        dumped_tail options os r ks tsc n k i ws out wd w e h (get_elem? w.tails k) refl

pub after_message-IsFollowing :
    (r : Round) (ks : List ℕ) (second : Bool) (q : Bool × Watches × Output)
    → IsKernel ks r.wake.input
    → IsFollowing ks q.1
    → Holds (λ p. (p.0 ≡ true) × IsFollowing ks p.1.watches) (after_message r second q)
unfolding after_message
after_message-IsFollowing r ks second (ok, ws, out) k h =
    if-Holds _ (not ok || second) _ _
      (Holds-bind (IsFollowing ks) _ (watch false r.wake ws) _
        (watch-IsFollowing ks false r.wake ws k h) (λ ws' l. (refl, l)))
      (refl, h)
