-- ===== src/HandleMap/Tests.antt =====
-- A program with one handle, and its fork.
use quicktrace_public.Base.{
  ℕ, ◌≡◌, refl, arith, Bool, true, false, [], ◌∷◌, Option, none, some, Text, text_eq, All,
}
use quicktrace_public.Examples.{file_name}
use quicktrace_public.Handle.{Handle, Setup, Run, done, assertion, fault, trace_file}
use quicktrace_public.HandleMap.{
  Named, HandleMap, lookup, delete_all, close_all, initialize, limit_string_len,
}
use quicktrace_public.HandleMap.Entered.{IsHandleMap}
use quicktrace_public.HandleMap.Kept.{IsMade, initialize-IsMade}
use quicktrace_public.Handle.Sound.{Ends}
use quicktrace_public.HandleMap.Fork.{delete_all-Ends, close_all-trace_file, close_all-initialize}

abbrev handle : Handle
handle = record {
  multi_threading = false;
  initialized = true;
  trace_files_closed = false;
  non_mt_trace_file = some 0;
  files = (0, file_name) ∷ [];
  thread_files = λ t. none;
  fresh = 1;
  size_spec = [];
  mapped_size = 94000;
}

abbrev one : HandleMap
one = record {
  handles = (0, record { format = file_name; suffix = file_name; handle = handle }) ∷ [];
  map = (file_name, 0) ∷ [];
  default_handle = some 0;
  max_string_len = 24;
  fresh = 1;
}

one-IsHandleMap : IsHandleMap one
unfolding lookup
one-IsHandleMap = ((λ e. ground (arith, e), tt), ((_, refl, refl), tt))

delete_all-Ends_example : (r' : HandleMap) × (delete_all 1 one ≡ done r') × (r'.map ≡ [])
delete_all-Ends_example = delete_all-Ends 1 one one-IsHandleMap (omega arith)

close_all-trace_file_example :
    (r' : HandleMap) × (close_all one.map one ≡ done r')
    × (r'.map ≡ one.map)
    × All
        (λ (x : Text × ℕ).
          (n : Named) × (lookup x.1 r'.handles ≡ some n) × ((t : ℕ) → trace_file t n.handle ≡ none))
        one.map
close_all-trace_file_example = close_all-trace_file one one-IsHandleMap

abbrev setup : Setup
setup = record {
  multi_threading = false;
  forever_log = false;
  has_dir = true;
  works = true;
  name = file_name;
  size_spec = [];
  mapped_size = 94000;
}

abbrev answer : Run (Bool × HandleMap) → Option Bool
answer (done p) = some p.0
answer assertion = none
answer fault = none

-- In the child the default handle is closed, but `initialize` of the same file says that all is well.
abbrev child : Run HandleMap → Option Bool
child (done r) = answer (initialize (some file_name) file_name setup 24 r)
child assertion = none
child fault = none

child-test : child (close_all one.map one) ≡ some true
unfolding close_all initialize
child-test = refl

close_all-initialize_example :
    (r' : HandleMap) × (n' : Named) × (close_all one.map one ≡ done r')
    × (initialize (some file_name) file_name setup 24 r'
        ≡ done (true, record r' { max_string_len = limit_string_len 24 }))
    × (lookup 0 r'.handles ≡ some n')
    × ((t : ℕ) → trace_file t n'.handle ≡ none)
close_all-initialize_example =
    close_all-initialize one 0 0 file_name
      (record { format = file_name; suffix = file_name; handle = handle }) _ _ file_name setup 24
      one-IsHandleMap refl refl (unfold lookup in refl) refl (unfold text_eq in refl)

abbrev other_name : Text
other_name = b'b' ∷ []

initialize-IsMade_example :
    Ends (λ p. IsMade p.1) (initialize (some other_name) other_name setup 24 one)
initialize-IsMade_example =
    initialize-IsMade (some other_name) other_name setup 24 one (one-IsHandleMap, (omega arith, tt))
