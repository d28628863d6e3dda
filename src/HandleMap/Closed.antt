-- ===== src/HandleMap/Closed.antt =====
-- One handle of QuickTrace.cpp's traceHandleMap is closed: the others stay as they are.
use quicktrace_public.Base.{ℕ, ◌≡◌, refl, sym, ap, ◌∙◌, inl, inr, arith, some_eq}
use quicktrace_public.Base.{true, false, List, [], ◌∷◌, some, ◌==◌, if◌then◌else◌, Bool-cases}
use quicktrace_public.Base.{Text, ==_iff}
use quicktrace_public.Handle.{Handle, done}
use quicktrace_public.HandleMap.{Named, HandleMap, lookup, change, close_handle}
use quicktrace_public.HandleMap.Entered.{
  IsClosed, IsQuiet, AllQuiet, Entered, IsHandleMap, close_lem, lookup-IsQuiet,
}

abbrev changed : ℕ → ℕ → Handle → Named → Named
changed i j h n = if i == j then record n { handle = h } else n

lookup-change :
    (i j : ℕ) (h : Handle) (hs : List (ℕ × Named)) (n : Named)
    → lookup j hs ≡ some n
    → lookup j (change i h hs) ≡ some (changed i j h n)
unfolding lookup change
lookup-change i j h [] n e = cc
lookup-change i j h ((k, m) ∷ hs) n e = elim (Bool-cases (k == j)) [
  | inl c ↦
      let own : lookup j ((k, m) ∷ hs) ≡ some m = rw (lookup, c) refl in
      let same = some_eq m n (sym own ∙ e) in
      elim (Bool-cases (k == i)) [
        | inl a ↦
            let equal = (==_iff i j).1 (sym ((==_iff k i).0 a) ∙ (==_iff k j).0 c) in
            rw (a, c, equal) (ap (λ (x : Named). some (record x { handle = h })) same)
        | inr a ↦
            let differ : (i == j) ≡ false = ground (arith, a, c) in rw (a, c, differ) (ap some same)
      ]
  | inr c ↦
      let behind : lookup j ((k, m) ∷ hs) ≡ lookup j hs = rw (lookup, c) refl in
      let later = lookup-change i j h hs n (sym behind ∙ e) in
      elim (Bool-cases (k == i)) [ inl a ↦ rw (a, c) later | inr a ↦ rw (a, c) later ]
]

change-AllQuiet :
    (i : ℕ) (h : Handle) (hs : List (ℕ × Named))
    → IsQuiet h
    → AllQuiet hs
    → AllQuiet (change i h hs)
unfolding change
change-AllQuiet i h [] k q = tt
change-AllQuiet i h ((j, n) ∷ hs) k q = elim (Bool-cases (j == i)) [
  | inl e ↦ rw e (k, change-AllQuiet i h hs k q.1)
  | inr e ↦ rw e (q.0, change-AllQuiet i h hs k q.1)
]

changed_suffix : (i j : ℕ) (h : Handle) (n : Named) → (changed i j h n).suffix ≡ n.suffix
changed_suffix i j h n = elim (Bool-cases (i == j)) [ inl e ↦ rw e refl | inr e ↦ rw e refl ]

Entered-change :
    (i : ℕ) (h : Handle) (hs : List (ℕ × Named)) (m : List (Text × ℕ))
    → Entered hs m
    → Entered (change i h hs) m
Entered-change i h hs [] e = tt
Entered-change i h hs ((k, j) ∷ m) ((n, found, own), e) = (
  (changed i j h n, lookup-change i j h hs n found, changed_suffix i j h n ∙ own),
  Entered-change i h hs m e,
)

-- The handle is closed.
abbrev pub HasClosed : HandleMap → ℕ → Type 0
HasClosed r j = (n : Named) × (lookup j r.handles ≡ some n) × IsClosed n.handle

-- The handles keep their names, and the default handle stays.
abbrev pub KeepsNames : HandleMap → HandleMap → Type 0
KeepsNames r r' =
    (r'.default_handle ≡ r.default_handle)
    × ((j : ℕ) (n : Named)
        → lookup j r.handles ≡ some n
        → (n' : Named) × (lookup j r'.handles ≡ some n') × (n'.format ≡ n.format))

changed_format : (i j : ℕ) (h : Handle) (n : Named) → (changed i j h n).format ≡ n.format
changed_format i j h n = elim (Bool-cases (i == j)) [ inl e ↦ rw e refl | inr e ↦ rw e refl ]

pub KeepsNames-trans : (r r1 r2 : HandleMap) → KeepsNames r r1 → KeepsNames r1 r2 → KeepsNames r r2
KeepsNames-trans r r1 r2 h k = (
  k.0 ∙ h.0,
  λ j n e. let (n1, e1, f1) = h.1 j n e in let (n2, e2, f2) = k.1 j n1 e1 in (n2, e2, f2 ∙ f1),
)

pub close_handle_lem :
    (i : ℕ) (r : HandleMap) (n : Named)
    → IsHandleMap r
    → lookup i r.handles ≡ some n
    → (r' : HandleMap) × (close_handle i r ≡ done r')
      × IsHandleMap r'
      × (r'.map ≡ r.map)
      × HasClosed r' i
      × ((j : ℕ) → HasClosed r j → HasClosed r' j)
      × ((m : List (Text × ℕ)) → Entered r.handles m → Entered r'.handles m)
      × KeepsNames r r'
unfolding close_handle
close_handle_lem i r n (quiet, entered) e =
    let (h', closing, k) = close_lem n.handle (lookup-IsQuiet i r.handles n quiet e) in
    let itself : (i == i) ≡ true = ground arith in
    (
      record r { handles = change i h' r.handles },
      rw (close_handle, e, closing) refl,
      (
        change-AllQuiet i h' r.handles (λ c. (k.1, k.2, k.3)) quiet,
        Entered-change i h' r.handles r.map entered,
      ),
      refl,
      (
        record n { handle = h' },
        lookup-change i i h' r.handles n e
            ∙ ap (λ b. some (if b then record n { handle = h' } else n)) itself,
        k,
      ),
      λ j (m, found, c). (
        changed i j h' m,
        lookup-change i j h' r.handles m found,
        elim (Bool-cases (i == j)) [ inl x ↦ rw x k | inr x ↦ rw x c ],
      ),
      Entered-change i h' r.handles,
      (
        refl,
        λ j m found.
            (changed i j h' m, lookup-change i j h' r.handles m found, changed_format i j h' m),
      ),
    )
