-- ===== src/Cat/Order.antt =====
-- CatControl of qttail.cpp prints in the order of time.
use quicktrace_public.Base.{ℕ, ◌≡◌, refl, inl, inr}
use quicktrace_public.Base.{false, List, [], ◌∷◌, All}
use quicktrace_public.Formatter.Stream.{OStream}
use quicktrace_public.Reader.{Messages}
use quicktrace_public.Reader.Dump.{Options, Output, Line}
use quicktrace_public.Tail.{Levels, Mapped, initialize}
use quicktrace_public.Tail.Events.{Holds, Holds-bind}
use quicktrace_public.Tail.Ready.{Initialized, initialize-Initialized}
use quicktrace_public.Tail.{blank_tail}
use quicktrace_public.Cat.{
  CatFile, make_file, cat_one, cat_many, cat_files, make_files, cat, with_names,
}
use quicktrace_public.Cat.Files.{IsBetween}
use quicktrace_public.Cat.Rounds.{Descending, InOrder, Printed, cat_many-InOrder, cat_one-Printed}

abbrev pub IsChronological : List Line → Type 0
IsChronological [] = Unit
IsChronological (l ∷ ls) = Descending l.tsc ls

Descending-IsChronological : (bound : ℕ) (ls : List Line) → Descending bound ls → IsChronological ls
Descending-IsChronological bound [] h = tt
Descending-IsChronological bound (l ∷ ls) h = h.1

-- What is printed by `cat` is in the order of time.
abbrev Chronological : Output → Type 0
Chronological out = IsChronological out.lines

cat_files-Chronological :
    (o : Levels) (options : Options) (os : OStream) (fuel : ℕ) (fs : List CatFile) (out : Output)
    → options.tail ≡ false
    → All (IsBetween o 0) fs
    → Descending 0 out.lines
    → Holds Chronological (cat_files o options os fuel fs out)
unfolding cat_files
cat_files-Chronological o options os fuel (f ∷ []) out e h d =
    Holds-bind (Printed o options os e) Chronological (cat_one o options os fuel f out) _
      (cat_one-Printed o options os e fuel 0 f out h.0 d)
      (λ p k. Descending-IsChronological k.0 p.1.lines k.1)
cat_files-Chronological o options os fuel [] out e h d =
    Holds-bind (InOrder o) Chronological (cat_many o (with_names options) os fuel [] out) _
      (cat_many-InOrder o (with_names options) os e fuel [] out h d)
      (λ p k. Descending-IsChronological k.0 p.1.lines k.1)
cat_files-Chronological o options os fuel (f ∷ g ∷ fs) out e h d =
    Holds-bind (InOrder o) Chronological (cat_many o (with_names options) os fuel (f ∷ g ∷ fs) out)
      _ (cat_many-InOrder o (with_names options) os e fuel (f ∷ g ∷ fs) out h d)
      (λ p k. Descending-IsChronological k.0 p.1.lines k.1)

make_file-IsBetween :
    (o : Levels) (get : Messages) (f : Mapped) → Holds (IsBetween o 0) (make_file o get f)
unfolding make_file
make_file-IsBetween o get f =
    Holds-bind (Initialized blank_tail) (IsBetween o 0) (initialize get false o f blank_tail) _
      (initialize-Initialized get false o f blank_tail (inr refl)) (λ p k. (k.0, inl refl))

make_files-IsBetween :
    (o : Levels) (files : List (Messages × Mapped))
    → Holds (All (IsBetween o 0)) (make_files o files)
unfolding make_files
make_files-IsBetween o [] = tt
make_files-IsBetween o ((get, f) ∷ rest) =
    Holds-bind (IsBetween o 0) (All (IsBetween o 0)) (make_file o get f) _
      (make_file-IsBetween o get f)
      (λ x k.
        Holds-bind (All (IsBetween o 0)) (All (IsBetween o 0)) (make_files o rest) _
          (make_files-IsBetween o rest) (λ xs w. (k, w)))

-- `qttail --cat` (without TAIL), on files that nobody writes, prints the lines of all files and levels
-- in the order of their time stamps, however many rounds it makes, unless it exits: no line has a
-- time stamp before that of a line printed earlier. No assertion fails.
pub cat-IsChronological :
    (o : Levels) (options : Options) (os : OStream) (fuel : ℕ) (files : List (Messages × Mapped))
    → options.tail ≡ false
    → Holds (λ out. IsChronological out.lines) (cat o options os fuel files)
unfolding cat
cat-IsChronological o options os fuel files e =
    Holds-bind (All (IsBetween o 0)) Chronological (make_files o files) _
      (make_files-IsBetween o files) (λ fs h. cat_files-Chronological o options os fuel fs _ e h tt)
