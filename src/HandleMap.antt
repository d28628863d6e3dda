-- ===== src/HandleMap.antt =====
-- All handles of a program: traceHandleMap and defaultQuickTraceHandle of QuickTrace.cpp, with initialize,
-- close, and what happens in the child after a fork.
pub mod Entered
pub mod Closed
pub mod Fork
pub mod Kept
mod Tests
use quicktrace_public.Base.{
  ℕ, zero, suc, ◌+◌, ◌^◌, Bool, true, false, ◌&&◌, ◌||◌, not, List, [], ◌∷◌,
}
use quicktrace_public.Base.{Option, none, some, Text, text_eq, find, ◌==◌, ltb, if◌then◌else◌}
use quicktrace_public.Handle.{Handle, Setup, Run, done, assertion, fault, ◌>>=◌, make_handle, close}

-- A handle with its `fileNameFormat_` and its `fileNameSuffix_`.
pub record Named : Type 0 where
  pub format : Text
  pub suffix : Text
  pub handle : Handle

-- The handles that exist, each with a number of its own (`fresh` is the next); `traceHandleMap`, by
-- suffix; `defaultQuickTraceHandle`; and `qtMaxStringLen`, as 32 bits.
pub record HandleMap : Type 0 where
  pub handles : List (ℕ × Named)
  pub map : List (Text × ℕ)
  pub default_handle : Option ℕ
  pub max_string_len : ℕ
  pub fresh : ℕ

unfoldable pub lookup : ℕ → List (ℕ × Named) → Option Named
lookup i [] = none
lookup i ((j, n) ∷ hs) = if j == i then some n else lookup i hs

unfoldable pub forget : ℕ → List (ℕ × Named) → List (ℕ × Named)
forget i [] = []
forget i ((j, n) ∷ hs) = let rest = forget i hs in if j == i then rest else (j, n) ∷ rest

unfoldable pub change : ℕ → Handle → List (ℕ × Named) → List (ℕ × Named)
change i h [] = []
change i h ((j, n) ∷ hs) =
    let rest = change i h hs in
    if j == i then (j, record n { handle = h }) ∷ rest else (j, n) ∷ rest

-- `traceHandleMap.erase`
unfoldable pub erase_suffix : Text → List (Text × ℕ) → List (Text × ℕ)
unfolding text_eq
erase_suffix s [] = []
erase_suffix s ((k, i) ∷ m) =
    let rest = erase_suffix s m in if text_eq s k then rest else (k, i) ∷ rest

-- The constructor of TraceHandle: only a handle that is initialized is entered in the map, in place of
-- one with the same suffix.
unfoldable pub new_handle : Setup → Text → Text → HandleMap → Run (ℕ × HandleMap)
unfolding make_handle erase_suffix
new_handle s format suffix r = make_handle s >>= λ h. done (
  r.fresh,
  record r {
    handles = (r.fresh, record { format = format; suffix = suffix; handle = h }) ∷ r.handles;
    map = if h.initialized then (suffix, r.fresh) ∷ erase_suffix suffix r.map else r.map;
    fresh = r.fresh + 1;
  },
)

abbrev is_default : ℕ → Option ℕ → Bool
is_default i none = false
is_default i (some j) = j == i

-- The destructor.
unfoldable pub delete_handle : ℕ → HandleMap → Run HandleMap
unfolding lookup forget erase_suffix close
delete_handle i r = elim (lookup i r.handles) [
  | none ↦ fault
  | some n ↦ close n.handle >>= λ h. done (record r {
    handles = forget i r.handles;
    map = erase_suffix n.suffix r.map;
    default_handle = if is_default i r.default_handle then none else r.default_handle;
  })
]

-- `close` of one handle.
unfoldable pub close_handle : ℕ → HandleMap → Run HandleMap
unfolding lookup change close
close_handle i r = elim (lookup i r.handles) [
  | none ↦ fault
  | some n ↦ close n.handle >>= λ h. done (record r { handles = change i h r.handles })
]

-- `processForkChild`, when the handles are deleted: always the first one of the map.
unfoldable pub delete_all : ℕ → HandleMap → Run HandleMap
unfolding delete_handle
delete_all zero r = done r
delete_all (suc fuel) r = elim r.map [
  | [] ↦ done r
  | ((k, i) ∷ m) ↦ delete_handle i r >>= λ r'. delete_all fuel r'
]

-- `processForkChild`, when they are only closed.
unfoldable pub close_all : List (Text × ℕ) → HandleMap → Run HandleMap
unfolding close_handle
close_all [] r = done r
close_all ((k, i) ∷ m) r = close_handle i r >>= λ r'. close_all m r'

-- `traceHandle`
unfoldable pub trace_handle : Text → HandleMap → Option ℕ
unfolding find
trace_handle suffix r = find suffix r.map

-- `QuickTrace::close`: the default handle is deleted, if any.
unfoldable pub close_default : HandleMap → Run HandleMap
unfolding delete_handle
close_default r = elim r.default_handle [ none ↦ done r | some i ↦ delete_handle i r ]

-- No more than 80; a length is an `int`.
unfoldable pub limit_string_len : ℕ → ℕ
limit_string_len n = if ltb 80 n && ltb n (2 ^ 31) then 80 else n

abbrev is_initialized : ℕ → HandleMap → Bool
is_initialized i r = elim (lookup i r.handles) [ none ↦ false | some n ↦ n.handle.initialized ]

-- `initialize` of a file name, none for a null pointer; `suffix` is the name with the process's number.
unfoldable pub initialize : Option Text → Text → Setup → ℕ → HandleMap → Run (Bool × HandleMap)
unfolding new_handle lookup close_default limit_string_len text_eq
initialize none suffix s len r = done (false, r)
initialize (some []) suffix s len r = done (false, r)
initialize (some (c ∷ cs)) suffix s len r =
    let limited = record r { max_string_len = limit_string_len len } in
    let made : Run (Bool × HandleMap) = new_handle s (c ∷ cs) suffix limited >>= λ p.
    let with_default = record (p.1) { default_handle = some p.0 } in
    let dropped : Run (Bool × HandleMap) = close_default with_default >>= λ r'. done (false, r') in
    if is_initialized p.0 with_default then done (true, with_default) else dropped in
    if not s.multi_threading && text_eq (c ∷ cs) (b'.' ∷ b'q' ∷ b't' ∷ [])
    then assertion
    else elim r.default_handle [
      | none ↦ made
      | some i ↦ elim (lookup i r.handles) [
        | none ↦ fault
        | some n ↦ done (text_eq n.format (c ∷ cs), limited)
      ]
    ]
