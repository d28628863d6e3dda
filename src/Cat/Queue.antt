-- ===== src/Cat/Queue.antt =====
-- The queue of files of CatControl in qttail.cpp stays in the order of time.
use quicktrace_public.Base.{ℕ, ◌+◌, ◌≤◌, ◌≡◌, refl, ap, inl, inr, arith}
use quicktrace_public.Base.{
  Bool, true, false, List, [], ◌∷◌, Option, none, some, All, ltb, if◌then◌else◌, Bool-cases,
}
use quicktrace_public.Tail.{Choice, Levels, Poll}
use quicktrace_public.Tail.Events.{Holds, Holds-bind}
use quicktrace_public.Cat.{CatFile, Entry, key_lt, insert_entry, poll_file, populate_queue, requeue}
use quicktrace_public.Cat.Files.{
  IsReady, IsBetween, IsPolled, poll_file-IsPolled, poll_file_chosen, IsReady-raised,
}

pub by_choice {ℓ} :
    {A : Type ℓ} (P : A → Type 0) (c : Option ℕ) (x : Poll A) (g : ℕ → Poll A)
    → Holds P x
    → ((i : ℕ) → c ≡ some i → Holds P (g i))
    → Holds P (elim c [ none ↦ x | some i ↦ g i ])
by_choice P none x g h k = h
by_choice P (some i) x g h k = k i refl

module _ (o : Levels) where
  abbrev pub IsQueued : ℕ → Entry → Type 0
  IsQueued bound e = IsReady o bound e.file e.tsc e.buf_num

  abbrev pub IsBehind : ℕ → Entry → Type 0
  IsBehind tsc e = tsc ≤ e.tsc

  -- The queue is in the order of the time stamps.
  abbrev pub IsSorted : List Entry → Type 0
  IsSorted [] = Unit
  IsSorted (e ∷ q) = All (IsBehind e.tsc) q × IsSorted q

  behind : (a b : ℕ) (q : List Entry) → a ≤ b → All (IsBehind b) q → All (IsBehind a) q
  behind a b [] le h = tt
  behind a b (x ∷ q) le h = (omega arith, behind a b q le h.1)

  insert_entry-All :
      (P : Entry → Type 0) (e : Entry) (q : List Entry) → P e → All P q → All P (insert_entry e q)
  unfolding insert_entry
  insert_entry-All P e [] p h = (p, tt)
  insert_entry-All P e (x ∷ q) p h = elim (Bool-cases (key_lt e x)) [
    | inl lt ↦ rw lt (p, h)
    | inr ge ↦ rw ge (h.0, insert_entry-All P e q p h.1)
  ]

  insert_entry-IsSorted : (e : Entry) (q : List Entry) → IsSorted q → IsSorted (insert_entry e q)
  unfolding insert_entry
  insert_entry-IsSorted e [] h = (tt, tt)
  insert_entry-IsSorted e (x ∷ q) h = elim (Bool-cases (key_lt e x)) [
    | inl lt ↦ rw lt (
        let le : e.tsc ≤ x.tsc = unfold key_lt in ground (arith, lt) in
        ((le, behind e.tsc x.tsc q le h.0), h))
    | inr ge ↦ rw ge (
        let le : x.tsc ≤ e.tsc = unfold key_lt in ground (arith, ge) in
        (insert_entry-All (IsBehind x.tsc) e q le h.0, insert_entry-IsSorted e q h.1))
  ]

  -- A queue with what is printed up to `bound`.
  abbrev pub IsQueue : ℕ → List Entry → Type 0
  IsQueue bound q = All (IsQueued bound) q × IsSorted q

  -- With the front printed, the others are not early.
  pub raised :
      (bound tsc : ℕ) (q : List Entry)
      → All (IsBehind tsc) q
      → All (IsQueued bound) q
      → All (IsQueued tsc) q
  raised bound tsc [] h k = tt
  raised bound tsc (x ∷ q) h k =
      (IsReady-raised o bound tsc x.file x.tsc x.buf_num h.0 k.0, raised bound tsc q h.1 k.1)

  placed :
      (bound : ℕ) (e x : Entry) (q : List Entry) (b : Bool)
      → (b ≡ false → e.tsc ≤ x.tsc)
      → IsQueued bound e
      → IsQueue bound (x ∷ q)
      → IsQueue bound (if b then insert_entry e (x ∷ q) else e ∷ x ∷ q)
  placed bound e x q true le p h =
      (insert_entry-All (IsQueued bound) e (x ∷ q) p h.0, insert_entry-IsSorted e (x ∷ q) h.1)
  placed bound e x q false le p h =
      ((p, h.0), ((le refl, behind e.tsc x.tsc q (le refl) h.1.0), h.1))

  pub requeue-IsQueue :
      (bound : ℕ) (e : Entry) (q : List Entry)
      → IsQueued bound e
      → IsQueue bound q
      → Holds (IsQueue bound) (requeue o e q)
  unfolding requeue
  requeue-IsQueue bound e [] p h = ((p, tt), (tt, tt))
  requeue-IsQueue bound e (x ∷ q) p h =
      let key : x.file.tail.next.0 ≡ x.tsc = ap (λ (c : Choice). c.0) h.0.0.is_chosen in
      rw (poll_file_chosen o x.file x.tsc x.buf_num h.0.0.is_chosen)
        (placed bound e x q (ltb x.file.tail.next.0 e.tsc) (λ k. ground (arith, k, key)) p h)

  pub populate_queue-IsQueue :
      (n : ℕ) (fs : List CatFile) (q : List Entry)
      → All (IsBetween o 0) fs
      → IsQueue 0 q
      → Holds (IsQueue 0) (populate_queue o n fs q)
  unfolding populate_queue
  populate_queue-IsQueue n [] q h k = k
  populate_queue-IsQueue n (f ∷ fs) q h k =
      Holds-bind (IsPolled o 0) (IsQueue 0) (poll_file o f) _ (poll_file-IsPolled o 0 f h.0)
        (λ f' p.
          by_choice (IsQueue 0) f'.tail.next.1 _ _ (populate_queue-IsQueue n fs q h.1 k) (λ i e.
            populate_queue-IsQueue (n + 1) fs _ h.1
              (insert_entry-All (IsQueued 0) _ q (p i e) k.0, insert_entry-IsSorted _ q k.1)))
