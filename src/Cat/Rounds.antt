-- ===== src/Cat/Rounds.antt =====
-- The rounds of CatControl's catMany and catOne in qttail.cpp print in the order of time.
use quicktrace_public.Base.{
  ℕ, zero, suc, ◌≤◌, ◌≡◌, sym, ap, ◌∙◌, inl, inr, arith, subst, subst₂, some_eq,
}
use quicktrace_public.Base.{Bool, true, false, List, [], ◌∷◌, none, some, All}
use quicktrace_public.Formatter.Stream.{OStream}
use quicktrace_public.Reader.Dump.{Options, Output, Line}
use quicktrace_public.Reader.Printed.{Prints}
use quicktrace_public.Tail.{Choice, Levels, polled, ◌>>=◌}
use quicktrace_public.Tail.Events.{Holds, Holds-bind, Holds-map}
use quicktrace_public.Tail.Ready.{if-Holds_cases}
use quicktrace_public.Cat.{
  CatFile, Entry, poll_file, populate_queue, requeue, dump_file, tail_file, cat_one, cat_step,
  cat_loop, cat_many,
}
use quicktrace_public.Cat.Files.{
  IsReady, IsBetween, IsPolled, poll_file-IsPolled, poll_file_chosen, AfterDump,
  dump_file-AfterDump,
}
use quicktrace_public.Cat.Queue.{
  by_choice, IsQueue, raised, requeue-IsQueue, populate_queue-IsQueue,
}

-- The lines, the newest first, are none of them after `bound`, nor after the line printed next.
abbrev pub Descending : ℕ → List Line → Type 0
Descending bound [] = Unit
Descending bound (l ∷ ls) = (l.tsc ≤ bound) × Descending l.tsc ls

Descending-le : (b c : ℕ) (ls : List Line) → b ≤ c → Descending b ls → Descending c ls
Descending-le b c [] le h = tt
Descending-le b c (l ∷ ls) le h = (omega arith, h.1)

Prints-Descending :
    (bound tsc : ℕ) (out out' : Output)
    → bound ≤ tsc
    → Descending bound out.lines
    → Prints tsc out out'
    → Descending tsc out'.lines
Prints-Descending bound tsc out out' le h (inl same) =
    subst (λ (o : Output). Descending tsc o.lines) (sym same)
      (Descending-le bound tsc out.lines le h)
Prints-Descending bound tsc out out' le h (inr (l, at', ls)) =
    subst (Descending tsc) (sym ls)
      (omega arith, Descending-le bound l.tsc out.lines (omega arith) h)

-- The queue and the output after some rounds.
abbrev pub InOrder : Levels → List Entry × Output → Type 0
InOrder o p = (bound : ℕ) × Descending bound p.1.lines × IsQueue o bound p.0

module _ (o : Levels) (options : Options) (os : OStream) (still_on : options.tail ≡ false) where
  -- The file of the front entry is polled again and queued.
  polled_again :
      (bound : ℕ) (e : Entry) (f : CatFile) (q : List Entry) (out : Output)
      → Holds (IsPolled o bound) (poll_file o f)
      → IsQueue o bound q
      → Descending bound out.lines
      → Holds (InOrder o) (
          poll_file o f >>= λ f'. elim f'.tail.next.1 [
            | none ↦ polled (q, out)
            | some i ↦
                requeue o (record e { tsc = f'.tail.next.0; file = f'; buf_num = i }) q >>= λ q'.
                polled (q', out)
          ])
  polled_again bound e f q out p h d =
      Holds-bind (IsPolled o bound) (InOrder o) (poll_file o f) _ p (λ f' k.
        by_choice (InOrder o) f'.tail.next.1 _ _ (bound, d, h)
          (λ i x.
            let e' = record e { tsc = f'.tail.next.0; file = f'; buf_num = i } in
            Holds-bind (IsQueue o bound) (InOrder o) (requeue o e' q) _
              (requeue-IsQueue o bound e' q (k i x) h) (λ q' r. (bound, d, r))))

  stayed-IsPolled :
      (bound tsc i : ℕ) (f : CatFile)
      → IsReady o bound f tsc i
      → Holds (IsPolled o bound) (poll_file o f)
  stayed-IsPolled bound tsc i f h = rw (poll_file_chosen o f tsc i h.is_chosen) (λ j e.
      subst₂ (λ t n. IsReady o bound f t n) (sym (ap (λ (c : Choice). c.0) h.is_chosen))
        (some_eq i j (sym (ap (λ (c : Choice). c.1) h.is_chosen) ∙ e)) h)

  cat_step-InOrder :
      (e : Entry) (q : List Entry) (out : Output)
      → InOrder o (e ∷ q, out)
      → Holds (InOrder o) (cat_step o options os e q out)
  unfolding cat_step
  cat_step-InOrder e q out (bound, d, (all, sorted)) =
      Holds-bind (AfterDump o bound e.tsc e.buf_num out) (InOrder o)
        (dump_file o options os e.tsc e.buf_num e.file out) _
        (dump_file-AfterDump o options os bound e.tsc e.buf_num e.file out all.0 still_on)
        (λ p k. elim k [
          | inl (x, (ready, same)) ↦
              polled_again bound e p.1 q p.2 (stayed-IsPolled bound e.tsc e.buf_num p.1 ready)
                (all.1, sorted.1) (subst (λ (y : Output). Descending bound y.lines) (sym same) d)
          | inr (x, (le, between, printed)) ↦
              polled_again e.tsc e p.1 q p.2 (poll_file-IsPolled o e.tsc p.1 between)
                (raised o bound e.tsc q sorted.0 all.1, sorted.1)
                (Prints-Descending bound e.tsc out p.2 le d printed)
        ])

  cat_loop-InOrder :
      (fuel : ℕ) (q : List Entry) (out : Output)
      → InOrder o (q, out)
      → Holds (InOrder o) (cat_loop o options os fuel q out)
  unfolding cat_loop
  cat_loop-InOrder zero q out h = h
  cat_loop-InOrder (suc fuel) [] out h = h
  cat_loop-InOrder (suc fuel) (e ∷ q) out h =
      Holds-bind (InOrder o) (InOrder o) (cat_step o options os e q out) _
        (cat_step-InOrder e q out h) (λ p k. cat_loop-InOrder fuel p.0 p.1 k)

  pub cat_many-InOrder :
      (fuel : ℕ) (fs : List CatFile) (out : Output)
      → All (IsBetween o 0) fs
      → Descending 0 out.lines
      → Holds (InOrder o) (cat_many o options os fuel fs out)
  unfolding cat_many
  cat_many-InOrder fuel fs out h d =
      Holds-bind (IsQueue o 0) (InOrder o) (populate_queue o 0 fs []) _
        (populate_queue-IsQueue o 0 fs [] h (tt, tt)) (λ q k. cat_loop-InOrder fuel q out (0, d, k))

  -- One file: between two messages, or at the end.
  abbrev After : Bool × CatFile × Output → Type 0
  After p = (bound : ℕ) × Descending bound p.2.lines × (p.0 ≡ true → IsBetween o bound p.1)

  tail_file-After :
      (bound : ℕ) (f : CatFile) (out : Output)
      → IsBetween o bound f
      → Descending bound out.lines
      → Holds After (tail_file o options os f out)
  unfolding tail_file
  tail_file-After bound f out h d =
      Holds-bind (IsPolled o bound) After (poll_file o f) _ (poll_file-IsPolled o bound f h)
        (λ f' p.
          by_choice After f'.tail.next.1 _ _ (bound, d, λ e. ground (arith, e))
            (λ i e.
              Holds-map (AfterDump o bound f'.tail.next.0 i out) After
                (dump_file o options os f'.tail.next.0 i f' out)
                (dump_file-AfterDump o options os bound f'.tail.next.0 i f' out (p i e) still_on)
                (λ r k. elim k [
                  | inl (x, (ready, same)) ↦ (
                    bound,
                    subst (λ (y : Output). Descending bound y.lines) (sym same) d,
                    λ y. ground (arith, x, y),
                  )
                  | inr (x, (le, between, printed)) ↦ (
                    f'.tail.next.0,
                    Prints-Descending bound f'.tail.next.0 out r.2 le d printed,
                    λ y. between,
                  )
                ])))

  abbrev pub Printed : CatFile × Output → Type 0
  Printed p = (bound : ℕ) × Descending bound p.1.lines

  pub cat_one-Printed :
      (fuel bound : ℕ) (f : CatFile) (out : Output)
      → IsBetween o bound f
      → Descending bound out.lines
      → Holds Printed (cat_one o options os fuel f out)
  unfolding cat_one
  cat_one-Printed zero bound f out h d = (bound, d)
  cat_one-Printed (suc fuel) bound f out h d =
      Holds-bind After Printed (tail_file o options os f out) _ (tail_file-After bound f out h d)
        (λ p k.
          if-Holds_cases Printed p.0 _ _ (λ e. cat_one-Printed fuel k.0 p.1 p.2 (k.2 e) k.1)
            (λ e. (k.0, k.1)))
