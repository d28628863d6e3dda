-- ===== src/Handle.antt =====
-- The handle of a program's trace files: class TraceHandle of QuickTrace.cpp, with the files of its threads.
pub mod Sound
pub mod Created
pub mod Closed
pub mod Live
pub mod Ids
mod Tests
use quicktrace_public.Base.{
  ℕ, zero, suc, ◌+◌, ◌%◌, ◌^◌, Bool, true, false, ◌&&◌, ◌||◌, not, List, [], ◌∷◌,
}
use quicktrace_public.Base.{Option, none, some, Text, text_eq, ◌==◌, ◌!=◌, if◌then◌else◌}
use quicktrace_public.Sizes.{SizeSpec, same_sizes, adjust_size_spec}

-- The fields of TraceHandle. A TraceFile is known by a number of its own, `fresh` is the next; `files` is
-- `traceFiles_`, the files that exist, with their names; `thread_files` is what the threads keep under
-- `traceFileThreadLocalKey_`.
pub record Handle : Type 0 where
  pub multi_threading : Bool
  pub initialized : Bool
  pub trace_files_closed : Bool
  pub non_mt_trace_file : Option ℕ
  pub files : List (ℕ × Text)
  pub thread_files : ℕ → Option ℕ
  pub fresh : ℕ
  pub size_spec : SizeSpec
  pub mapped_size : ℕ

-- The results of a call: a value, an assertion that fails, or the deletion of a file that does not exist.
pub data Run {ℓ} (A : Type ℓ) : Type ℓ where
  done : A → Run A
  assertion : Run A
  fault : Run A

infixl 5 ◌>>=◌
abbrev pub ◌>>=◌ {ℓ κ} : {A : Type ℓ} {B : Type κ} → Run A → (A → Run B) → Run B
done a >>= f = f a
assertion >>= f = assertion
fault >>= f = fault

unfoldable pub has_file : ℕ → List (ℕ × Text) → Bool
has_file f [] = false
has_file f ((g, name) ∷ fs) = g == f || has_file f fs

unfoldable pub has_name : Text → List (ℕ × Text) → Bool
unfolding text_eq
has_name name [] = false
has_name name ((g, other) ∷ fs) = text_eq name other || has_name name fs

unfoldable pub erase : ℕ → List (ℕ × Text) → List (ℕ × Text)
erase f [] = []
erase f ((g, name) ∷ fs) = let rest = erase f fs in if g == f then rest else (g, name) ∷ rest

unfoldable pub is_some {ℓ} : {A : Type ℓ} → Option A → Bool
is_some none = false
is_some (some a) = true

unfoldable pub set_thread : ℕ → Option ℕ → (ℕ → Option ℕ) → ℕ → Option ℕ
set_thread t f fs u = if u == t then f else fs u

-- `newTraceFile` with the constructor of TraceFile, which wants a new name; `works` says that the file
-- could be made and mapped.
unfoldable pub new_trace_file : Bool → Text → Handle → Run (Option ℕ × Handle)
unfolding has_name
new_trace_file works name h =
    if has_name name h.files
    then assertion
    else if works
    then done (some h.fresh, record h { files = (h.fresh, name) ∷ h.files; fresh = h.fresh + 1 })
    else done (none, record h { fresh = h.fresh + 1 })

-- `delete tf`: the destructor takes the file out of the set.
unfoldable pub delete_file : ℕ → Handle → Run Handle
unfolding has_file erase
delete_file f h = if has_file f h.files then done (record h { files = erase f h.files }) else fault

-- What the constructor is given, and what it meets: a directory for the files, and one that works.
pub record Setup : Type 0 where
  pub multi_threading : Bool
  pub forever_log : Bool
  pub has_dir : Bool
  pub works : Bool
  pub name : Text
  pub size_spec : SizeSpec
  pub mapped_size : ℕ

-- The fields that the constructor sets first.
abbrev pub blank_handle : Setup → Handle
blank_handle s = record {
  multi_threading = s.multi_threading;
  initialized = false;
  trace_files_closed = false;
  non_mt_trace_file = none;
  files = [];
  thread_files = λ t. none;
  fresh = 0;
  size_spec = s.size_spec;
  mapped_size = s.mapped_size;
}

-- The constructor.
unfoldable pub make_handle : Setup → Run Handle
unfolding new_trace_file is_some
make_handle s =
    let single : Run Handle = new_trace_file s.works s.name (blank_handle s) >>= λ p.
    done (record (p.1) { non_mt_trace_file = p.0; initialized = is_some p.0 }) in
    if s.forever_log && s.multi_threading
    then assertion
    else if not s.has_dir
    then done (blank_handle s)
    else if s.multi_threading
    then done (record (blank_handle s) { initialized = true })
    else single

-- `traceFile`, called by the thread `t`.
unfoldable pub trace_file : ℕ → Handle → Option ℕ
trace_file t h =
    if h.multi_threading
    then (if h.initialized then h.thread_files t else none)
    else h.non_mt_trace_file

-- `maybeCreateMtTraceFile`, called by the thread `t`.
unfoldable pub maybe_create_mt_trace_file : ℕ → Bool → Text → Handle → Run (Option ℕ × Handle)
unfolding new_trace_file set_thread
maybe_create_mt_trace_file t works name h =
    let created : Run (Option ℕ × Handle) = new_trace_file works name h >>= λ p.
    done (p.0, record (p.1) { thread_files = set_thread t p.0 p.1.thread_files }) in
    if not h.initialized
    then assertion
    else if not h.multi_threading
    then done (h.non_mt_trace_file, h)
    else elim (h.thread_files t) [ some f ↦ done (some f, h) | none ↦ created ]

abbrev no_files : List (ℕ × Text) → Bool
no_files [] = true
no_files (f ∷ fs) = false

-- `close`, that is `disableTracing`: every file is deleted.
unfoldable pub close : Handle → Run Handle
close h =
    if h.trace_files_closed
    then (if no_files h.files then done h else assertion)
    else done (record h {
      initialized = false;
      trace_files_closed = true;
      non_mt_trace_file = none;
      files = [];
    })

-- `deleteTraceFile`: what the end of the thread `t` does to its file.
unfoldable pub thread_exit : ℕ → Handle → Run Handle
unfolding delete_file set_thread
thread_exit t h = elim (h.thread_files t) [
  | none ↦ done h
  | some f ↦ delete_file f (record h { thread_files = set_thread t none h.thread_files })
]

-- `resize`, with what `adjustSizeSpec` needs.
module _ (scale : ℕ → ℕ → ℕ → ℕ) (memory_size num_msg_counters : ℕ) where
  unfoldable pub with_sizes : SizeSpec → Handle → Handle
  unfolding adjust_size_spec
  with_sizes sizes h =
      let adjusted = adjust_size_spec scale memory_size false num_msg_counters sizes in
      record h { mapped_size = adjusted.0; size_spec = adjusted.1 }

  unfoldable pub resize : SizeSpec → Bool → Text → Handle → Run (Bool × Handle)
  unfolding with_sizes close new_trace_file is_some
  resize sizes works name h =
      let reopened : Run (Bool × Handle) = close h >>= λ h1.
      new_trace_file works name (with_sizes sizes h1) >>= λ p. done (
        true,
        record (p.1) { non_mt_trace_file = p.0; initialized = true; trace_files_closed = false },
      ) in
      if h.multi_threading || same_sizes h.size_spec sizes
      then done (false, h)
      else if is_some h.non_mt_trace_file
      then reopened
      else done (true, with_sizes sizes h)

-- `allocateMsgId`: the id that `*msgIdPtr` has after it, and `nextMsgId_`, both of 32 bits.
unfoldable pub allocate_msg_id : ℕ → ℕ → ℕ × ℕ
allocate_msg_id id next =
    let n = if next == 0 then 1 else next in if id != 0 then (id, next) else (n, (n + 1) % 2 ^ 32)
