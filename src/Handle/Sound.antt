-- ===== src/Handle/Sound.antt =====
-- What every call of TraceHandle of QuickTrace.cpp keeps, and the calls as steps.
use quicktrace_public.Base.{ℕ, ◌+◌, ◌<◌, ◌≡◌, refl, ◌⊎◌, inl, inr, arith}
use quicktrace_public.Base.{
  Bool, true, false, List, [], ◌∷◌, Option, none, some, Text, if◌then◌else◌,
}
use quicktrace_public.Sizes.{SizeSpec}
use quicktrace_public.Handle.{
  Handle, Run, done, assertion, fault, ◌>>=◌, has_file, has_name, new_trace_file,
  maybe_create_mt_trace_file, close, thread_exit, resize,
}

-- `f` exists.
abbrev pub IsLive : Handle → ℕ → Type 0
IsLive h f = has_file f h.files ≡ true

-- What every call keeps.
pub record IsSound (h : Handle) : Type 0 where
  pub single_live : (f : ℕ) → h.non_mt_trace_file ≡ some f → IsLive h f
  pub thread_live :
      h.trace_files_closed ≡ false → (t f : ℕ) → h.thread_files t ≡ some f → IsLive h f
  pub distinct : (t u f : ℕ) → h.thread_files t ≡ some f → h.thread_files u ≡ some f → t ≡ u
  pub old_files : (f : ℕ) → IsLive h f → f < h.fresh
  pub old_threads : (t f : ℕ) → h.thread_files t ≡ some f → f < h.fresh
  pub closed_off : h.trace_files_closed ≡ true → h.initialized ≡ false
  pub closed_empty : h.trace_files_closed ≡ true → h.files ≡ []
  pub single_only : h.multi_threading ≡ false → (t : ℕ) → h.thread_files t ≡ none
  pub multi_only : h.multi_threading ≡ true → h.non_mt_trace_file ≡ none

-- One call, by any thread.
module _ (scale : ℕ → ℕ → ℕ → ℕ) (memory_size num_msg_counters : ℕ) where
  pub data Step (h : Handle) : Handle → Type 0 where
    create :
        {h' : Handle} {o : Option ℕ} (t : ℕ) (works : Bool) (name : Text)
        → maybe_create_mt_trace_file t works name h ≡ done (o, h')
        → Step h h'
    closing : {h' : Handle} → close h ≡ done h' → Step h h'
    exit : {h' : Handle} (t : ℕ) → thread_exit t h ≡ done h' → Step h h'
    resizing :
        {h' : Handle} {b : Bool} (sizes : SizeSpec) (works : Bool) (name : Text)
        → resize scale memory_size num_msg_counters sizes works name h ≡ done (b, h')
        → Step h h'

  pub data Reach (h : Handle) : Handle → Type 0 where
    here : Reach h h
    later : {h1 h2 : Handle} → Reach h h1 → Step h1 h2 → Reach h h2

-- The predicate on the results of a call.
abbrev pub Ends {ℓ} : {A : Type ℓ} → (A → Type 0) → Run A → Type 0
Ends P (done a) = P a
Ends P assertion = Unit
Ends P fault = Unit

pub Ends-bind {ℓ κ} :
    {A : Type ℓ} {B : Type κ} (P : A → Type 0) (Q : B → Type 0) (r : Run A) (f : A → Run B)
    → Ends P r
    → ((a : A) → P a → Ends Q (f a))
    → Ends Q (r >>= f)
Ends-bind P Q (done a) f h k = k a h
Ends-bind P Q assertion f h k = tt
Ends-bind P Q fault f h k = tt

pub if-Ends {ℓ} :
    {A : Type ℓ} (P : A → Type 0) (b : Bool) (x y : Run A)
    → (b ≡ true → Ends P x)
    → (b ≡ false → Ends P y)
    → Ends P (if b then x else y)
if-Ends P true x y h k = h refl
if-Ends P false x y h k = k refl

pub has_file-first :
    (f g : ℕ) (name : Text) (fs : List (ℕ × Text))
    → has_file f ((g, name) ∷ fs) ≡ true
    → (f ≡ g) ⊎ (has_file f fs ≡ true)
unfolding has_file
has_file-first f g name fs h = ground (arith, h)

pub has_file-later :
    (f g : ℕ) (name : Text) (fs : List (ℕ × Text))
    → has_file f fs ≡ true
    → has_file f ((g, name) ∷ fs) ≡ true
unfolding has_file
has_file-later f g name fs h = ground (arith, h)

pub has_file_self :
    (f : ℕ) (name : Text) (fs : List (ℕ × Text)) → has_file f ((f, name) ∷ fs) ≡ true
unfolding has_file
has_file_self f name fs = ground arith

-- The two results of `newTraceFile`.
abbrev pub added : Text → Handle → Handle
added name h = record h { files = (h.fresh, name) ∷ h.files; fresh = h.fresh + 1 }

abbrev pub skipped : Handle → Handle
skipped h = record h { fresh = h.fresh + 1 }

pub new_trace_file_lem :
    (P : Option ℕ × Handle → Type 0) (works : Bool) (name : Text) (h : Handle)
    → P (some h.fresh, added name h)
    → P (none, skipped h)
    → Ends P (new_trace_file works name h)
unfolding new_trace_file
new_trace_file_lem P works name h a b =
    if-Ends P (has_name name h.files) _ _ (λ e. tt) (λ e. if-Ends P works _ _ (λ e'. a) (λ e'. b))

pub added-old :
    (name : Text) (h : Handle) → IsSound h → (f : ℕ) → IsLive (added name h) f → f < h.fresh + 1
added-old name h s f live = elim (has_file-first f h.fresh name h.files live) [
  | inl e ↦ omega arith
  | inr old ↦ omega (arith, s.old_files f old)
]
