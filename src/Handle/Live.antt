-- ===== src/Handle/Live.antt =====
-- TraceHandle of QuickTrace.cpp over any sequence of calls: the file that a thread gets exists.
use quicktrace_public.Base.{ℕ, ◌≡◌, refl, ap, ◌∙◌, inl, inr, arith, subst}
use quicktrace_public.Base.{Bool, true, false, ◌&&◌, not, [], Option, none, some, Bool-cases}
use quicktrace_public.Handle.{
  Handle, Setup, Run, done, fault, ◌>>=◌, has_file, erase, is_some, set_thread, delete_file,
  make_handle, trace_file, close, thread_exit, blank_handle, no_files,
}
use quicktrace_public.Handle.Sound.{
  IsLive, IsSound, Step, create, closing, exit, resizing, Reach, here, later, Ends, Ends-bind,
  if-Ends,
}
use quicktrace_public.Handle.Created.{create-IsSound, is_open}
use quicktrace_public.Handle.Closed.{
  IsClosing, close-IsClosing, exit-IsSound, resize-IsSound, reopened-added-IsSound,
}

of_done {ℓ} : {A : Type ℓ} (P : A → Type 0) (r : Run A) (a : A) → Ends P r → r ≡ done a → P a
of_done P r a h e = subst (Ends P) e h

module _ (scale : ℕ → ℕ → ℕ → ℕ) (memory_size num_msg_counters : ℕ) where
  Step-IsSound :
      {h h' : Handle} → Step scale memory_size num_msg_counters h h' → IsSound h → IsSound h'
  Step-IsSound {h} {h'} (create {o = o} t works name e) s =
      of_done (λ (p : Option ℕ × Handle). IsSound p.1) _ (o, h') (create-IsSound t works name h s) e
  Step-IsSound {h} {h'} (closing e) s = (of_done (IsClosing h) _ h' (close-IsClosing h s) e).0
  Step-IsSound {h} {h'} (exit t e) s = of_done IsSound _ h' (exit-IsSound t h s) e
  Step-IsSound {h} {h'} (resizing {b = b} sizes works name e) s =
      of_done (λ (p : Bool × Handle). IsSound p.1) _ (b, h')
        (resize-IsSound scale memory_size num_msg_counters sizes works name h s) e

  Reach-IsSound :
      {h h' : Handle} → Reach scale memory_size num_msg_counters h h' → IsSound h → IsSound h'
  Reach-IsSound here s = s
  Reach-IsSound (later r st) s = Step-IsSound st (Reach-IsSound r s)

-- A handle without any file.
empty-IsSound :
    (h : Handle)
    → h.files ≡ []
    → h.non_mt_trace_file ≡ none
    → ((t : ℕ) → h.thread_files t ≡ none)
    → h.trace_files_closed ≡ false
    → IsSound h
unfolding has_file
empty-IsSound h no_files no_single no_thread open' = record {
  single_live = λ f e. cc (e, no_single);
  thread_live = λ c t f e. cc (e, no_thread t);
  distinct = λ t u f e e'. cc (e, no_thread t);
  old_files = λ f live. cc (live, ap (has_file f) no_files);
  old_threads = λ t f e. cc (e, no_thread t);
  closed_off = λ e. cc (e, open');
  closed_empty = λ e. no_files;
  single_only = λ e. no_thread;
  multi_only = λ e. no_single;
}

-- A new handle.
pub make_handle-IsSound : (s : Setup) → Ends IsSound (make_handle s)
unfolding make_handle
make_handle-IsSound s =
    if-Ends IsSound (s.forever_log && s.multi_threading) _ _ (λ e. tt)
      (λ e.
        if-Ends IsSound (not s.has_dir) _ _ (λ e'. empty-IsSound _ refl refl (λ t. refl) refl)
          (λ e'.
            if-Ends IsSound s.multi_threading _ _ (λ m. empty-IsSound _ refl refl (λ t. refl) refl)
              (λ m.
                Ends-bind
                  (λ (p : Option ℕ × Handle).
                    IsSound (record (p.1) { non_mt_trace_file = p.0; initialized = is_some p.0 }))
                  IsSound _ _
                  (if-Ends
                    (λ (p : Option ℕ × Handle).
                      IsSound (record (p.1) { non_mt_trace_file = p.0; initialized = is_some p.0 }))
                    s.works _ _
                    (λ w.
                      reopened-added-IsSound (blank_handle s)
                        (empty-IsSound (blank_handle s) refl refl (λ t. refl) refl) m s.name)
                    (λ w. empty-IsSound _ refl refl (λ t. refl) refl))
                  (λ p k. k))))

-- In a handle that the constructor made, after any calls by any threads, the file that a thread gets
-- for its traces exists: it was not deleted, whichever threads ended and whether the handle was resized
-- or closed.
pub trace_file-IsLive :
    (scale : ℕ → ℕ → ℕ → ℕ) (memory_size num_msg_counters : ℕ) (s : Setup) (h0 h : Handle) (t f : ℕ)
    → make_handle s ≡ done h0
    → Reach scale memory_size num_msg_counters h0 h
    → trace_file t h ≡ some f
    → IsLive h f
unfolding trace_file
trace_file-IsLive scale memory_size num_msg_counters s h0 h t f made reach e = live (
    Reach-IsSound scale memory_size num_msg_counters reach
      (of_done IsSound _ h0 (make_handle-IsSound s) made))
  where
    live : IsSound h → IsLive h f
    live k = elim (Bool-cases h.multi_threading) [
      | inl m ↦ elim (Bool-cases h.initialized) [
        | inl i ↦ k.thread_live (is_open h k i) t f (ground (arith, e, m, i))
        | inr i ↦ ground (arith, e, m, i)
      ]
      | inr m ↦ k.single_live f (ground (arith, e, m))
    ]

exit_own :
    (t f : ℕ) (h : Handle)
    → h.thread_files t ≡ some f
    → thread_exit t h ≡ delete_file f (record h { thread_files = set_thread t none h.thread_files })
unfolding thread_exit
exit_own t f h own = rw (own, thread_exit)

deleted :
    (f : ℕ) (h : Handle)
    → IsLive h f
    → delete_file f h ≡ done (record h { files = erase f h.files })
unfolding delete_file
deleted f h live = rw live

close_open :
    (h : Handle)
    → h.trace_files_closed ≡ false
    → close h
      ≡ done (record h {
        initialized = false;
        trace_files_closed = true;
        non_mt_trace_file = none;
        files = [];
      })
unfolding close
close_open h e = simp e

-- When a thread ends that has a file, its file is deleted, and nothing else happens, while the handle is
-- open; but after the handle was closed, a file that was deleted already is deleted again.
pub thread_exit-close :
    (scale : ℕ → ℕ → ℕ → ℕ) (memory_size num_msg_counters : ℕ) (s : Setup) (h0 h : Handle) (t f : ℕ)
    → make_handle s ≡ done h0
    → Reach scale memory_size num_msg_counters h0 h
    → h.trace_files_closed ≡ false
    → h.thread_files t ≡ some f
    → (thread_exit t h
        ≡ done
            (record h { files = erase f h.files; thread_files = set_thread t none h.thread_files }))
      × ((close h >>= thread_exit t) ≡ fault)
unfolding delete_file
thread_exit-close scale memory_size num_msg_counters s h0 h t f made reach open' own =
    let k =
      Reach-IsSound scale memory_size num_msg_counters reach
        (of_done IsSound _ h0 (make_handle-IsSound s) made) in
    (
      exit_own t f h own ∙ deleted f _ (k.thread_live open' t f own),
      rw (close_open h open') (exit_own t f _ own),
    )
