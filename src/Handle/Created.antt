-- ===== src/Handle/Created.antt =====
-- A thread's file is created: maybeCreateMtTraceFile of QuickTrace.cpp.
use quicktrace_public.Base.{ℕ, ◌+◌, ◌<◌, ◌≡◌, ◌≢◌, refl, ◌⊎◌, inl, inr, arith, subst, some_eq}
use quicktrace_public.Base.{Bool, true, false, not, Option, none, some, Text, ◌==◌, Bool-cases}
use quicktrace_public.Handle.{
  Handle, done, ◌>>=◌, set_thread, new_trace_file, maybe_create_mt_trace_file,
}
use quicktrace_public.Handle.Sound.{
  IsLive, IsSound, Ends, Ends-bind, if-Ends, has_file-later, has_file_self, added, skipped,
  new_trace_file_lem, added-old,
}

-- What a thread keeps after a change of one thread.
set_thread-some :
    (t : ℕ) (o : Option ℕ) (fs : ℕ → Option ℕ) (u f : ℕ)
    → set_thread t o fs u ≡ some f
    → ((u ≡ t) × (o ≡ some f)) ⊎ ((u ≢ t) × (fs u ≡ some f))
unfolding set_thread
set_thread-some t o fs u f h = elim (Bool-cases (u == t)) [
  | inl e ↦ inl (ground (arith, e), ground (arith, e, h))
  | inr e ↦ inr (λ k. ground (arith, e, k), ground (arith, e, h))
]

-- A thread's new file.
module _ (t : ℕ) (name : Text) (h : Handle) (s : IsSound h) (open' : h.trace_files_closed ≡ false)
    (multi : h.multi_threading ≡ true) (without : h.thread_files t ≡ none) where
  abbrev after : ℕ → Option ℕ
  after = set_thread t (some h.fresh) h.thread_files

  after-IsLive : (u f : ℕ) → after u ≡ some f → IsLive (added name h) f
  after-IsLive u f e = elim (set_thread-some t (some h.fresh) h.thread_files u f e) [
    | inl (k, k') ↦
        subst (IsLive (added name h)) (some_eq h.fresh f k') (has_file_self h.fresh name h.files)
    | inr (k, k') ↦ has_file-later f h.fresh name h.files (s.thread_live open' u f k')
  ]

  after-distinct : (u v f : ℕ) → after u ≡ some f → after v ≡ some f → u ≡ v
  after-distinct u v f e e' = elim (set_thread-some t (some h.fresh) h.thread_files u f e) [
    | inl (k, k') ↦ elim (set_thread-some t (some h.fresh) h.thread_files v f e') [
      | inl (l, l') ↦ omega arith
      | inr (l, l') ↦ absurd (omega (arith, some_eq h.fresh f k', s.old_threads v f l'))
    ]
    | inr (k, k') ↦ elim (set_thread-some t (some h.fresh) h.thread_files v f e') [
      | inl (l, l') ↦ absurd (omega (arith, some_eq h.fresh f l', s.old_threads u f k'))
      | inr (l, l') ↦ s.distinct u v f k' l'
    ]
  ]

  after-old : (u f : ℕ) → after u ≡ some f → f < h.fresh + 1
  after-old u f e = elim (set_thread-some t (some h.fresh) h.thread_files u f e) [
    | inl (k, k') ↦ omega (arith, some_eq h.fresh f k')
    | inr (k, k') ↦ omega (arith, s.old_threads u f k')
  ]

  thread_added-IsSound : IsSound (record (added name h) { thread_files = after })
  thread_added-IsSound = record {
    single_live = λ f e. has_file-later f h.fresh name h.files (s.single_live f e);
    thread_live = λ c. after-IsLive;
    distinct = after-distinct;
    old_files = added-old name h s;
    old_threads = after-old;
    closed_off = s.closed_off;
    closed_empty = λ e. cc (e, open');
    single_only = λ e. cc (e, multi);
    multi_only = s.multi_only;
  }

-- Without a file of its own a thread keeps none.
pub without_file :
    (t : ℕ) (fs : ℕ → Option ℕ) (u f : ℕ)
    → set_thread t none fs u ≡ some f
    → (u ≢ t) × (fs u ≡ some f)
without_file t fs u f e = elim (set_thread-some t none fs u f e) [ inl k ↦ cc (k.1) | inr k ↦ k ]

thread_skipped-IsSound :
    (t : ℕ) (h : Handle)
    → IsSound h
    → IsSound (record (skipped h) { thread_files = set_thread t none h.thread_files })
unfolding set_thread
thread_skipped-IsSound t h s = record {
  single_live = s.single_live;
  thread_live = λ c u f e. s.thread_live c u f (without_file t h.thread_files u f e).1;
  distinct = λ u v f e e'.
      s.distinct u v f (without_file t h.thread_files u f e).1
        (without_file t h.thread_files v f e').1;
  old_files = λ f live. omega (arith, s.old_files f live);
  old_threads = λ u f e. omega (arith, s.old_threads u f (without_file t h.thread_files u f e).1);
  closed_off = s.closed_off;
  closed_empty = s.closed_empty;
  single_only = λ e u. ground (arith, s.single_only e u);
  multi_only = s.multi_only;
}

-- A handle that is initialized is open.
pub is_open : (h : Handle) → IsSound h → h.initialized ≡ true → h.trace_files_closed ≡ false
is_open h s e = elim (Bool-cases h.trace_files_closed) [
  | inl c ↦ cc (e, s.closed_off c)
  | inr c ↦ c
]

pub create-IsSound :
    (t : ℕ) (works : Bool) (name : Text) (h : Handle)
    → IsSound h
    → Ends (λ (p : Option ℕ × Handle). IsSound p.1) (maybe_create_mt_trace_file t works name h)
unfolding maybe_create_mt_trace_file
create-IsSound t works name h s =
    if-Ends Sound (not h.initialized) _ _ (λ e. tt)
      (λ e.
        if-Ends Sound (not h.multi_threading) _ _ (λ e'. s)
          (λ e'.
            own (h.thread_files t) refl (is_open h s (ground (arith, e))) (ground (arith, e'))))
  where
    Sound : Option ℕ × Handle → Type 0
    Sound p = IsSound p.1

    own :
        (o : Option ℕ)
        → h.thread_files t ≡ o
        → h.trace_files_closed ≡ false
        → h.multi_threading ≡ true
        → Ends {A = Option ℕ × Handle}
            (λ p. IsSound p.1)
            (elim o [
              | some f ↦ done (some f, h)
              | none ↦ new_trace_file works name h >>= λ p.
                  done (p.0, record (p.1) { thread_files = set_thread t p.0 p.1.thread_files })
            ])
    own (some f) k open' multi = s
    own none k open' multi =
        Ends-bind
          (λ (p : Option ℕ × Handle).
            IsSound (record (p.1) { thread_files = set_thread t p.0 p.1.thread_files }))
          (λ (p : Option ℕ × Handle). IsSound p.1) (new_trace_file works name h) _
          (new_trace_file_lem
            (λ (p : Option ℕ × Handle).
              IsSound (record (p.1) { thread_files = set_thread t p.0 p.1.thread_files }))
            works name h (thread_added-IsSound t name h s open' multi k)
            (thread_skipped-IsSound t h s))
          (λ p w. w)
