-- ===== src/TailControl/Start.antt =====
-- The constructor of qttail.cpp's TailControl: every directory gets a watch, every file its place there.
use quicktrace_public.Base.{ℕ, ◌+◌, Bool, true, false, ◌||◌, List, [], ◌∷◌, Option, none, some}
use quicktrace_public.Base.{◌==◌, ltb, if◌then◌else◌, Text, text_eq, find, Memory, take, drop}
use quicktrace_public.Reader.{Reader, Messages}
use quicktrace_public.Reader.Rewind.{fastforward, forward, threw, no_fuel}
use quicktrace_public.Tail.{
  Tail, initializing, active, Levels, level_enabled, Mapped, Poll, polled, exited, no_round, ◌>>=◌,
  blank_tail, status_is, make_readers,
}
use quicktrace_public.TailControl.{Watches}

-- Every enabled ring buffer goes to its end; nobody catches an exception.
unfoldable pub skip_all : Messages → Levels → Memory → ℕ → ℕ → List Reader → Poll (List Reader)
unfolding level_enabled fastforward
skip_all get o m fuel level [] = polled []
skip_all get o m fuel level (r ∷ rs) =
    let rest = skip_all get o m fuel (level + 1) rs in
    if level_enabled o level
    then elim (fastforward get true m fuel r) [
      | forward r' ↦ rest >>= λ rs'. polled (r' ∷ rs')
      | threw why ↦ exited
      | no_fuel ↦ no_round
    ]
    else rest >>= λ rs'. polled (r ∷ rs')

-- The constructor of Tail for a file that is tailed: `initialize( true, true )`.
unfoldable pub open_tail : Levels → ℕ → Messages × Mapped → Poll Tail
unfolding status_is make_readers skip_all
open_tail o fuel (get, f) = do
  t1 ← status_is initializing blank_tail
  let t2 = record t1 { is_mapped = true }
  let filled : Poll Tail = do
    rs ← skip_all get o f.mem fuel 0 (make_readers 0 f.file_header_size f.log_sizes)
    status_is active (record t2 { rbs = rs; tsc1 = f.tsc1 })
  if f.is_usable then filled else polled t2

-- `filename.rfind( '/' )`, from the position `n` on.
unfoldable pub last_slash : ℕ → Text → Option ℕ
last_slash n [] = none
last_slash n (c ∷ cs) = elim (last_slash (n + 1) cs) [
  | some k ↦ some k
  | none ↦ if c == b'/' then some n else none
]

-- The directory and the short name.
unfoldable pub split_path : Text → Text × Text
unfolding last_slash
split_path t = elim (last_slash 0 t) [ none ↦ (b'.' ∷ [], t) | some n ↦ (take n t, drop (n + 1) t) ]

-- `watchesByDir`, `watches_`, and the descriptors that the kernel watches.
pub record Opening : Type 0 where
  pub by_dir : List (Text × ℕ)
  pub watches : Watches
  pub active : List ℕ

unfoldable pub is_member : ℕ → List ℕ → Bool
is_member k [] = false
is_member k (j ∷ js) = j == k || is_member k js

unfoldable pub remove : ℕ → List ℕ → List ℕ
remove k [] = []
remove k (j ∷ js) = let rest = remove k js in if j == k then rest else j ∷ rest

abbrev pub wds : Watches → List ℕ
wds [] = []
wds ((wd, w) ∷ ws) = wd ∷ wds ws

-- A watch without files, in the order of the descriptors.
unfoldable pub insert_watch : ℕ → Watches → Watches
insert_watch k [] = (k, record { tails = []; modifications = false }) ∷ []
insert_watch k ((wd, w) ∷ ws) =
    let rest = insert_watch k ws in
    if ltb k wd
    then (k, record { tails = []; modifications = false }) ∷ (wd, w) ∷ ws
    else (wd, w) ∷ rest

-- A directory that has no watch yet. A descriptor that is there already is not inserted again, and the
-- destructor of the Watch that is left over removes it from the kernel.
unfoldable pub enter : Text → ℕ → Opening → Opening
unfolding is_member remove insert_watch
enter dir wd s =
    if is_member wd (wds s.watches)
    then record s { by_dir = (dir, wd) ∷ s.by_dir; active = remove wd s.active }
    else record s {
      by_dir = (dir, wd) ∷ s.by_dir;
      watches = insert_watch wd s.watches;
      active = wd ∷ s.active;
    }

-- What `inotify_add_watch` answers for a directory; it gives the same descriptor for the same directory.
module _ (inotify : Text → Option ℕ) where
  unfoldable pub add_dir : Text → Opening → Poll (ℕ × Opening)
  unfolding find enter
  add_dir dir s = elim (find dir s.by_dir) [
    | some wd ↦ polled (wd, s)
    | none ↦ elim (inotify dir) [ none ↦ exited | some wd ↦ polled (wd, enter dir wd s) ]
  ]

-- The order of std::string.
unfoldable pub text_lt : Text → Text → Bool
text_lt [] [] = false
text_lt [] (y ∷ ys) = true
text_lt (x ∷ xs) [] = false
text_lt (x ∷ xs) (y ∷ ys) = let rest = text_lt xs ys in if x == y then rest else ltb x y

-- A name that is there keeps its file.
unfoldable pub insert_tail : Text → Tail → List (Text × Tail) → List (Text × Tail)
unfolding text_eq text_lt
insert_tail name t [] = (name, t) ∷ []
insert_tail name t ((j, u) ∷ ts) =
    let rest = insert_tail name t ts in
    if text_eq name j
    then (j, u) ∷ ts
    else if text_lt name j
    then (name, t) ∷ (j, u) ∷ ts
    else (j, u) ∷ rest

unfoldable pub insert_at : ℕ → Text → Tail → Watches → Watches
unfolding insert_tail
insert_at k name t [] = []
insert_at k name t ((wd, w) ∷ ws) =
    let rest = insert_at k name t ws in
    if wd == k then (wd, record w { tails = insert_tail name t w.tails }) ∷ ws else (wd, w) ∷ rest

module _ (inotify : Text → Option ℕ) (o : Levels) (fuel : ℕ)
    (files : Text → Messages × Mapped) where
  -- The body of the loop over the file names.
  unfoldable pub add_file : Text → Opening → Poll Opening
  unfolding split_path add_dir open_tail insert_at
  add_file filename s = add_dir inotify (split_path filename).0 s >>= λ p.
      open_tail o fuel (files filename) >>= λ t.
      polled (record (p.1) { watches = insert_at p.0 (split_path filename).1 t p.1.watches })

  unfoldable pub add_files : List Text → Opening → Poll Opening
  unfolding add_file
  add_files [] s = polled s
  add_files (f ∷ fs) s = add_file f s >>= λ s'. add_files fs s'

  unfoldable pub open_files : List Text → Poll Opening
  unfolding add_files
  open_files fs = add_files fs (record { by_dir = []; watches = []; active = [] })
