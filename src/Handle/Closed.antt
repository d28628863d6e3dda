-- ===== src/Handle/Closed.antt =====
-- A handle is closed, resized, or left by a thread (QuickTrace.cpp).
use quicktrace_public.Base.{ℕ, ◌≡◌, ◌≢◌, refl, ap, ◌∙◌, inl, inr, arith, subst, some_eq}
use quicktrace_public.Base.{
  Bool, true, false, ◌||◌, List, [], ◌∷◌, Option, none, some, Text, Bool-cases,
}
use quicktrace_public.Sizes.{SizeSpec, same_sizes}
use quicktrace_public.Handle.{
  Handle, done, has_file, erase, is_some, set_thread, new_trace_file, delete_file, close,
  thread_exit, resize, with_sizes, no_files,
}
use quicktrace_public.Handle.Sound.{
  IsLive, IsSound, Ends, Ends-bind, if-Ends, has_file_self, added, skipped, new_trace_file_lem,
  added-old,
}
use quicktrace_public.Handle.Created.{without_file}

-- No file exists in a handle that was closed.
closed-IsSound :
    (h : Handle)
    → IsSound h
    → IsSound (record h {
      initialized = false;
      trace_files_closed = true;
      non_mt_trace_file = none;
      files = [];
    })
unfolding has_file
closed-IsSound h s = record {
  single_live = λ f e. cc e;
  thread_live = λ c t f e. cc c;
  distinct = s.distinct;
  old_files = λ f live. cc live;
  old_threads = s.old_threads;
  closed_off = λ e. refl;
  closed_empty = λ e. refl;
  single_only = s.single_only;
  multi_only = λ e. refl;
}

-- What `close` returns is sound and of the same kind.
abbrev pub IsClosing : Handle → Handle → Type 0
IsClosing h h' = IsSound h' × (h'.multi_threading ≡ h.multi_threading)

pub close-IsClosing : (h : Handle) → IsSound h → Ends (IsClosing h) (close h)
unfolding close
close-IsClosing h s =
    if-Ends (IsClosing h) h.trace_files_closed _ _
      (λ e. if-Ends (IsClosing h) (no_files h.files) _ _ (λ e'. (s, refl)) (λ e'. tt))
      (λ e. (closed-IsSound h s, refl))

has_file-erase :
    (f g : ℕ) (fs : List (ℕ × Text)) → has_file g (erase f fs) ≡ true → has_file g fs ≡ true
unfolding has_file erase
has_file-erase f g [] h = h
has_file-erase f g ((k, name) ∷ fs) h = ground (arith, h, has_file-erase f g fs)

has_file-erase_other :
    (f g : ℕ) (fs : List (ℕ × Text)) → g ≢ f → has_file g fs ≡ true → has_file g (erase f fs) ≡ true
unfolding has_file erase
has_file-erase_other f g [] n h = h
has_file-erase_other f g ((k, name) ∷ fs) n h = ground (arith, h, n, has_file-erase_other f g fs n)

-- A thread that ends, with its file.
exited-IsSound :
    (t g : ℕ) (h : Handle)
    → IsSound h
    → h.thread_files t ≡ some g
    → IsSound
        (record h { files = erase g h.files; thread_files = set_thread t none h.thread_files })
unfolding set_thread
exited-IsSound t g h s own = record {
  single_live = λ f e. elim (Bool-cases h.multi_threading) [
    | inl m ↦ cc (e, s.multi_only m)
    | inr m ↦ cc (own, s.single_only m t)
  ];
  thread_live = λ c u f e.
      let other = without_file t h.thread_files u f e in
      has_file-erase_other g f h.files
        (λ same. other.0 (s.distinct u t g (other.1 ∙ ap some same) own))
        (s.thread_live c u f other.1);
  distinct = λ u v f e e'.
      s.distinct u v f (without_file t h.thread_files u f e).1
        (without_file t h.thread_files v f e').1;
  old_files = λ f live. s.old_files f (has_file-erase g f h.files live);
  old_threads = λ u f e. s.old_threads u f (without_file t h.thread_files u f e).1;
  closed_off = s.closed_off;
  closed_empty = λ e. ap (erase g) (s.closed_empty e) ∙ unfold erase in refl;
  single_only = λ e u. ground (arith, s.single_only e u);
  multi_only = s.multi_only;
}

pub exit-IsSound : (t : ℕ) (h : Handle) → IsSound h → Ends IsSound (thread_exit t h)
unfolding thread_exit
exit-IsSound t h s = go (h.thread_files t) refl
  where
    go :
        (o : Option ℕ)
        → h.thread_files t ≡ o
        → Ends IsSound (elim o [
          | none ↦ done h
          | some f ↦ delete_file f (record h { thread_files = set_thread t none h.thread_files })
        ])
    go none k = s
    go (some g) k =
        if-Ends IsSound (has_file g h.files) _ _ (λ e. exited-IsSound t g h s k) (λ e. tt)

-- A resized file: the only one of a handle without threads.
abbrev pub reopened : Option ℕ × Handle → Handle
reopened p = record (p.1) {
  non_mt_trace_file = p.0;
  initialized = true;
  trace_files_closed = false;
}

module _ (h : Handle) (s : IsSound h) (single : h.multi_threading ≡ false) where
  no_thread : (t f : ℕ) → h.thread_files t ≢ some f
  no_thread t f e = cc (e, s.single_only single t)

  pub reopened-added-IsSound : (name : Text) → IsSound (reopened (some h.fresh, added name h))
  reopened-added-IsSound name = record {
    single_live = λ f e.
        subst (IsLive (added name h)) (some_eq h.fresh f e) (has_file_self h.fresh name h.files);
    thread_live = λ c t f e. absurd (no_thread t f e);
    distinct = λ t u f e e'. absurd (no_thread t f e);
    old_files = added-old name h s;
    old_threads = λ t f e. absurd (no_thread t f e);
    closed_off = λ e. cc e;
    closed_empty = λ e. cc e;
    single_only = s.single_only;
    multi_only = λ e. cc (e, single);
  }

  reopened-skipped-IsSound : IsSound (reopened (none, skipped h))
  reopened-skipped-IsSound = record {
    single_live = λ f e. cc e;
    thread_live = λ c t f e. absurd (no_thread t f e);
    distinct = s.distinct;
    old_files = λ f live. omega (arith, s.old_files f live);
    old_threads = λ t f e. absurd (no_thread t f e);
    closed_off = λ e. cc e;
    closed_empty = λ e. cc e;
    single_only = s.single_only;
    multi_only = λ e. refl;
  }

module _ (scale : ℕ → ℕ → ℕ → ℕ) (memory_size num_msg_counters : ℕ) where
  with_sizes-IsSound :
      (sizes : SizeSpec) (h : Handle)
      → IsSound h
      → IsSound (with_sizes scale memory_size num_msg_counters sizes h)
  unfolding with_sizes
  with_sizes-IsSound sizes h s = record {
    single_live = s.single_live;
    thread_live = s.thread_live;
    distinct = s.distinct;
    old_files = s.old_files;
    old_threads = s.old_threads;
    closed_off = s.closed_off;
    closed_empty = s.closed_empty;
    single_only = s.single_only;
    multi_only = s.multi_only;
  }

  with_sizes-multi_threading :
      (sizes : SizeSpec) (h : Handle)
      → (with_sizes scale memory_size num_msg_counters sizes h).multi_threading ≡ h.multi_threading
  unfolding with_sizes
  with_sizes-multi_threading sizes h = refl

  pub resize-IsSound :
      (sizes : SizeSpec) (works : Bool) (name : Text) (h : Handle)
      → IsSound h
      → Ends
          (λ (p : Bool × Handle). IsSound p.1)
          (resize scale memory_size num_msg_counters sizes works name h)
  unfolding resize
  resize-IsSound sizes works name h s =
      if-Ends Sound (h.multi_threading || same_sizes h.size_spec sizes) _ _ (λ e. s)
        (λ e.
          if-Ends Sound (is_some h.non_mt_trace_file) _ _
            (λ e'. Ends-bind (IsClosing h) Sound (close h) _ (close-IsClosing h s) (λ h1 k.
              let h2 = with_sizes scale memory_size num_msg_counters sizes h1 in
              let s2 = with_sizes-IsSound sizes h1 k.0 in
              let single = with_sizes-multi_threading sizes h1 ∙ k.1 ∙ ground (arith, e) in
              Ends-bind (λ (p : Option ℕ × Handle). IsSound (reopened p)) Sound
                (new_trace_file works name h2) _
                (new_trace_file_lem (λ (p : Option ℕ × Handle). IsSound (reopened p)) works name h2
                  (reopened-added-IsSound h2 s2 single name)
                  (reopened-skipped-IsSound h2 s2 single))
                (λ p w. w)))
            (λ e'. with_sizes-IsSound sizes h s))
    where
      Sound : Bool × Handle → Type 0
      Sound p = IsSound p.1
