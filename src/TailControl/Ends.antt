-- ===== src/TailControl/Ends.antt =====
-- When TailControl::tailMany of qttail.cpp ends.
use quicktrace_public.Base.{ℕ, ◌≡◌, subst, inl, inr, arith}
use quicktrace_public.Base.{Bool, true, false, not, ◌||◌, List, [], ◌∷◌, none, some, if◌then◌else◌}
use quicktrace_public.Base.{Text, All, Option-cases}
use quicktrace_public.Formatter.Stream.{OStream}
use quicktrace_public.Reader.{uint64_max}
use quicktrace_public.Reader.Dump.{Options, Output}
use quicktrace_public.Tail.{Tail, delete_pending, Levels, polled, exited, ◌>>=◌}
use quicktrace_public.Tail.Events.{Holds, Holds-bind, Holds-map, if-Holds}
use quicktrace_public.Tail.Ready.{if-Holds_cases}
use quicktrace_public.Tail.Steps.{Holds-and, AllLow, IsLow}
use quicktrace_public.TailControl.{
  Watches, Round, Best, no_best, Control, visit_watches, dump_at, after_message, watch,
  tail_many_round, tail_many,
}
use quicktrace_public.TailControl.Kept.{IsFollowing, IsKernel, watch-IsFollowing}
use quicktrace_public.TailControl.Rounds.{
  visit_watches-IsFollowing, dump_at-IsFollowing, after_message-IsFollowing,
}
use quicktrace_public.TailControl.Choice.{
  AllTails, AllFiles, NotBelow, IsGone, IsBest, visit_watches-IsBest,
}

-- A file that is deleted and has no message left.
abbrev pub IsFinished : Tail → Type 0
IsFinished t = (t.next.1 ≡ none) × (t.status ≡ delete_pending)

tail-IsFinished : (t : Tail) → IsLow t → NotBelow uint64_max t → IsGone t → IsFinished t
tail-IsFinished t low above gone = elim (Option-cases t.next.1) [
  | inl e ↦ (e, gone e)
  | inr (i, e) ↦ let lt = low i e in let le = above i e in absurd (omega arith)
]

tails-IsFinished :
    (ts : List (Text × Tail))
    → AllLow ts
    → AllTails (NotBelow uint64_max) ts
    → AllTails IsGone ts
    → AllTails IsFinished ts
tails-IsFinished [] low above gone = tt
tails-IsFinished (x ∷ ts) low above gone =
    (tail-IsFinished x.1 low.0 above.0 gone.0, tails-IsFinished ts low.1 above.1 gone.1)

files-IsFinished :
    (ks : List ℕ) (ws : Watches)
    → IsFollowing ks ws
    → AllFiles (NotBelow uint64_max) ws
    → AllFiles IsGone ws
    → AllFiles IsFinished ws
files-IsFinished ks [] h above gone = tt
files-IsFinished [] (x ∷ ws) h above gone = absurd h
files-IsFinished (k ∷ ks) ((wd, w) ∷ ws) h above gone =
    (tails-IsFinished w.tails h.1.1 above.0 gone.0, files-IsFinished ks ws h.2 above.1 gone.1)

-- After some rounds: the watches are kept, and the end comes only when every file is finished.
abbrev pub EndsFinished : List ℕ → Bool × Control × Output → Type 0
EndsFinished ks p = IsFollowing ks p.1.watches × (p.0 ≡ false → AllFiles IsFinished p.1.watches)

module _ (levels : Levels) (options : Options) (os : OStream) (ks : List ℕ) where
  idle_ends :
      (r : Round) (c : Control) (out : Output) (ws : Watches) (b : Best)
      → IsKernel ks r.wake.input
      → IsFollowing ks ws
      → AllFiles (NotBelow uint64_max) ws
      → (b.all_deleted ≡ true → AllFiles IsGone ws)
      → Holds (EndsFinished ks) (
          if not r.is_good
          then exited
          else if b.all_deleted
          then polled (false, record c { watches = ws }, out)
          else (watch true r.wake ws >>= λ ws'. polled (true, record c { watches = ws' }, out)))
  idle_ends r c out ws b k h above gone = if-Holds (EndsFinished ks) (not r.is_good) _ _ tt (
      if-Holds_cases (EndsFinished ks) b.all_deleted _ _
        (λ e. (h, λ x. files-IsFinished ks ws h above (gone e)))
        (λ e.
          Holds-bind (IsFollowing ks) (EndsFinished ks) (watch true r.wake ws) _
            (watch-IsFollowing ks true r.wake ws k h) (λ ws' l. (l, λ x. ground (arith, x)))))

  round_ends :
      (r : Round) (c : Control) (out : Output)
      → IsKernel ks r.wake.input
      → IsFollowing ks c.watches
      → Holds (EndsFinished ks) (tail_many_round levels options os r c out)
  unfolding tail_many_round
  round_ends r c out k h =
      Holds-bind (λ p. IsFollowing ks p.0 × IsBest p.0 p.1) (EndsFinished ks)
        (visit_watches levels r 0 c.watches no_best) _
        (Holds-and _ _ (visit_watches levels r 0 c.watches no_best)
          (visit_watches-IsFollowing levels r ks 0 c.watches no_best h)
          (visit_watches-IsBest levels r c.watches))
        (λ p g. go p.0 p.1 g.0 g.1)
    where
      chosen :
          (ws : Watches) (b : Best) (place : ℕ × ℕ × ℕ)
          → IsFollowing ks ws
          → Holds (EndsFinished ks) (
              dump_at options os r b.tsc place ws out >>= λ q.
              after_message r (c.next_second || r.new_second) q)
      chosen ws b place l =
          Holds-bind (λ q. IsFollowing ks q.1) (EndsFinished ks)
            (dump_at options os r b.tsc place ws out) _
            (dump_at-IsFollowing options os r ks b.tsc place ws out l)
            (λ q f.
              Holds-map _ _ (after_message r (c.next_second || r.new_second) q)
                (after_message-IsFollowing r ks (c.next_second || r.new_second) q k f)
                (λ p e. (e.1, λ x. ground (arith, x, e.0))))

      go :
          (ws : Watches) (b : Best)
          → IsFollowing ks ws
          → IsBest ws b
          → Holds (EndsFinished ks) (elim b.min_tail [
            | none ↦
                if not r.is_good
                then exited
                else if b.all_deleted
                then polled (false, record c { watches = ws }, out)
                else (watch true r.wake ws >>= λ ws'.
                    polled (true, record c { watches = ws' }, out))
            | some place ↦ dump_at options os r b.tsc place ws out >>= λ q.
                after_message r (c.next_second || r.new_second) q
          ])
      go ws b l (above, gone, inl (top, e)) =
          rw e (idle_ends r c out ws b k l (subst (λ m. AllFiles (NotBelow m) ws) top above) gone)
      go ws b l (above, gone, inr (m, j, i, x, y, there, there', place, e)) =
          rw place (chosen ws b (m, j, i) l)

  -- Where inotify reports whole events of the watched directories, and the watches are as the
  -- constructor leaves them (set for modifications while a file waits for one, and no choice made with
  -- the greatest time stamp), no assertion of tailMany fails, the watches stay so in every round, and
  -- it ends only when every file is deleted and has no message left.
  pub tail_many-EndsFinished :
      (rs : List Round) (c : Control) (out : Output)
      → All (λ (r : Round). IsKernel ks r.wake.input) rs
      → IsFollowing ks c.watches
      → Holds (EndsFinished ks) (tail_many levels options os rs c out)
  unfolding tail_many
  tail_many-EndsFinished [] c out k h = (h, λ x. ground (arith, x))
  tail_many-EndsFinished (r ∷ rs) c out k h =
      Holds-bind (EndsFinished ks) (EndsFinished ks) (tail_many_round levels options os r c out) _
        (round_ends r c out k.0 h)
        (λ p e. if-Holds (EndsFinished ks) p.0 _ _ (tail_many-EndsFinished rs p.1 p.2 k.1 e.0) e)
