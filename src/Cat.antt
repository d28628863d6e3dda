-- ===== src/Cat.antt =====
-- The merging of files by time stamp: class CatControl of qttail.cpp (`qttail --cat`), over files that
-- nobody writes while they are read.
pub mod Files
pub mod Queue
pub mod Rounds
pub mod Order
mod Tests
use quicktrace_public.Base.{ℕ, zero, suc, ◌+◌, Bool, true, false, ◌&&◌, ◌||◌}
use quicktrace_public.Base.{List, [], ◌∷◌, Option, none, some, ◌==◌, ltb, if◌then◌else◌}
use quicktrace_public.Formatter.Stream.{OStream}
use quicktrace_public.Reader.{Messages, uint64_max}
use quicktrace_public.Reader.Dump.{Options, Output}
use quicktrace_public.Tail.{
  Tail, Choice, Levels, Mapped, Poll, polled, ◌>>=◌, blank_tail, initialize, next_message,
}
use quicktrace_public.Tail.Buffer.{tail_buffer}

-- A file with its messages and what is mapped of it.
pub record CatFile : Type 0 where
  pub tail : Tail
  pub get : Messages
  pub mapped : Mapped

-- Every round of a search meets the same bytes.
abbrev pub still : Mapped → Mapped
still f = record f { rounds = f.mem ∷ f.mem ∷ [] }

-- An entry of `fileQueue_`, its key (`tsc` and `file_num`) and its value.
pub record Entry : Type 0 where
  pub tsc : ℕ
  pub file_num : ℕ
  pub file : CatFile
  pub buf_num : ℕ

-- `QueueKey::operator<`
unfoldable pub key_lt : Entry → Entry → Bool
key_lt a b = if a.tsc == b.tsc then ltb a.file_num b.file_num else ltb a.tsc b.tsc

-- An entry goes before the first one with a greater key; every file has a number of its own.
unfoldable pub insert_entry : Entry → List Entry → List Entry
unfolding key_lt
insert_entry e [] = e ∷ []
insert_entry e (x ∷ q) = let rest = insert_entry e q in if key_lt e x then e ∷ x ∷ q else x ∷ rest

-- The levels that are shown.
module _ (levels : Levels) where
  -- The constructor of Tail: `initialize( true, false )`.
  unfoldable pub make_file : Messages → Mapped → Poll CatFile
  unfolding initialize
  make_file get f = initialize get false levels f blank_tail >>= λ p.
      polled (record { tail = p.1; get = get; mapped = f })

  -- `nextTsc( UINT64_MAX )` of a file: the choice is in its field `next`.
  unfoldable pub poll_file : CatFile → Poll CatFile
  unfolding next_message
  poll_file f = next_message f.get false levels (still f.mapped) f.tail >>= λ t.
      polled (record f { tail = t })

  -- `populateQueue`: empty files are dropped, the others numbered.
  unfoldable pub populate_queue : ℕ → List CatFile → List Entry → Poll (List Entry)
  unfolding poll_file insert_entry
  populate_queue n [] q = polled q
  populate_queue n (f ∷ fs) q = poll_file f >>= λ f'. elim f'.tail.next.1 [
    | none ↦ populate_queue n fs q
    | some i ↦
        populate_queue (n + 1) fs
          (insert_entry (record { tsc = f'.tail.next.0; file_num = n; file = f'; buf_num = i }) q)
  ]

  -- The file at the front has a new time stamp: it is queued again if the next file is now before
  -- it, else its key is changed in place.
  unfoldable pub requeue : Entry → List Entry → Poll (List Entry)
  unfolding poll_file insert_entry
  requeue e [] = polled (e ∷ [])
  requeue e (x ∷ q) = poll_file x.file >>= λ f.
      let x' = record x { file = f } in
      let moved = insert_entry e (x' ∷ q) in
      polled (if ltb f.tail.next.0 e.tsc then moved else e ∷ x' ∷ q)

-- The other options: TAIL is not among them here.
module _ (levels : Levels) (options : Options) (os : OStream) where
  -- `tailBuffer` of a file
  unfoldable pub dump_file : ℕ → ℕ → CatFile → Output → Poll (Bool × CatFile × Output)
  unfolding tail_buffer
  dump_file tsc i f out =
      tail_buffer f.get options f.mapped.mem os tsc uint64_max i out f.tail >>= λ p.
      polled (p.0, record f { tail = p.1 }, p.2)

  -- `tail( UINT64_MAX )`, and `catOne`, which calls it until there is nothing more; `fuel` calls at
  -- most.
  unfoldable pub tail_file : CatFile → Output → Poll (Bool × CatFile × Output)
  unfolding poll_file dump_file
  tail_file f out = poll_file levels f >>= λ f'. elim f'.tail.next.1 [
    | none ↦ polled (false, f', out)
    | some i ↦ dump_file f'.tail.next.0 i f' out
  ]

  unfoldable pub cat_one : ℕ → CatFile → Output → Poll (CatFile × Output)
  unfolding tail_file
  cat_one zero f out = polled (f, out)
  cat_one (suc fuel) f out = tail_file f out >>= λ p.
      let more = cat_one fuel p.1 p.2 in if p.0 then more else polled (p.1, p.2)

  -- The body of the loop of `catMany`.
  unfoldable pub cat_step : Entry → List Entry → Output → Poll (List Entry × Output)
  unfolding poll_file dump_file requeue
  cat_step e q out = dump_file e.tsc e.buf_num e.file out >>= λ p. poll_file levels p.1 >>= λ f.
      elim f.tail.next.1 [
        | none ↦ polled (q, p.2)
        | some i ↦
            requeue levels (record e { tsc = f.tail.next.0; file = f; buf_num = i }) q >>= λ q'.
            polled (q', p.2)
      ]

  unfoldable pub cat_loop : ℕ → List Entry → Output → Poll (List Entry × Output)
  unfolding cat_step
  cat_loop zero q out = polled (q, out)
  cat_loop (suc fuel) [] out = polled ([], out)
  cat_loop (suc fuel) (e ∷ q) out = cat_step e q out >>= λ p. cat_loop fuel p.0 p.1

  -- `catMany`, `fuel` rounds of its loop at most.
  unfoldable pub cat_many : ℕ → List CatFile → Output → Poll (List Entry × Output)
  unfolding populate_queue cat_loop
  cat_many fuel fs out = populate_queue levels 0 fs [] >>= λ q. cat_loop fuel q out

-- More than one file: their names are printed.
abbrev pub with_names : Options → Options
with_names o = record o { print_qt_file_name = true }

-- `cat`, by the number of files.
unfoldable pub cat_files : Levels → Options → OStream → ℕ → List CatFile → Output → Poll Output
unfolding cat_one cat_many
cat_files levels options os fuel (f ∷ []) out =
    cat_one levels options os fuel f out >>= λ p. polled p.1
cat_files levels options os fuel fs out =
    cat_many levels (with_names options) os fuel fs out >>= λ p. polled p.1

unfoldable pub make_files : Levels → List (Messages × Mapped) → Poll (List CatFile)
unfolding make_file
make_files levels [] = polled []
make_files levels ((get, f) ∷ rest) =
    make_file levels get f >>= λ x. make_files levels rest >>= λ xs. polled (x ∷ xs)

-- The constructor and `cat`: nothing is printed before.
unfoldable pub cat : Levels → Options → OStream → ℕ → List (Messages × Mapped) → Poll Output
unfolding make_files cat_files
cat levels options os fuel files = make_files levels files >>= λ fs.
    cat_files levels options os fuel fs (record { last_printed_tsc = 0; lines = [] })
