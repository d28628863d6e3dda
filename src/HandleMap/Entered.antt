-- ===== src/HandleMap/Entered.antt =====
-- traceHandleMap of QuickTrace.cpp names handles that exist, each under its own suffix.
use quicktrace_public.Base.{ℕ, ◌≡◌, ◌≢◌, refl, sym, ap, ◌∙◌, inl, inr, arith, subst, some_eq}
use quicktrace_public.Base.{true, false, List, [], ◌∷◌, none, some, ◌==◌, if◌then◌else◌, Bool-cases}
use quicktrace_public.Base.{Text, text_eq, text_eq_refl, All, ==_iff}
use quicktrace_public.Handle.{Handle, done, close}
use quicktrace_public.HandleMap.{
  Named, HandleMap, lookup, forget, erase_suffix, delete_handle, is_default,
}

-- A handle whose files are closed has none, and is good for nothing.
abbrev pub IsClosed : Handle → Type 0
IsClosed h =
    (h.trace_files_closed ≡ true)
    × (h.files ≡ [])
    × (h.initialized ≡ false)
    × (h.non_mt_trace_file ≡ none)

abbrev pub IsQuiet : Handle → Type 0
IsQuiet h =
    h.trace_files_closed ≡ true
    → (h.files ≡ []) × (h.initialized ≡ false) × (h.non_mt_trace_file ≡ none)

abbrev pub AllQuiet : List (ℕ × Named) → Type 0
AllQuiet hs = All (λ (x : ℕ × Named). IsQuiet x.1.handle) hs

abbrev pub Entered : List (ℕ × Named) → List (Text × ℕ) → Type 0
Entered hs m = All (λ (x : Text × ℕ). (n : Named) × (lookup x.1 hs ≡ some n) × (n.suffix ≡ x.0)) m

-- What every operation keeps.
abbrev pub IsHandleMap : HandleMap → Type 0
IsHandleMap r = AllQuiet r.handles × Entered r.handles r.map

pub close_lem : (h : Handle) → IsQuiet h → (h' : Handle) × (close h ≡ done h') × IsClosed h'
unfolding close
close_lem h quiet = elim (Bool-cases h.trace_files_closed) [
  | inl e ↦
      let q = quiet e in
      let same : close h ≡ done h = rw (close, e, q.0) refl in (h, same, (e, q.0, q.1, q.2))
  | inr e ↦
      let h' = record h {
        initialized = false;
        trace_files_closed = true;
        non_mt_trace_file = none;
        files = [];
      } in
      let closed : close h ≡ done h' = rw (close, e) refl in (h', closed, (refl, refl, refl, refl))
]

pub lookup-IsQuiet :
    (i : ℕ) (hs : List (ℕ × Named)) (n : Named)
    → AllQuiet hs
    → lookup i hs ≡ some n
    → IsQuiet n.handle
unfolding lookup
lookup-IsQuiet i [] n q e = cc
lookup-IsQuiet i ((j, m) ∷ hs) n q e = elim (Bool-cases (j == i)) [
  | inl k ↦
      let same : lookup i ((j, m) ∷ hs) ≡ some m = rw (lookup, k) refl in
      subst (λ (x : Named). IsQuiet x.handle) (some_eq m n (sym same ∙ e)) q.0
  | inr k ↦
      let same : lookup i ((j, m) ∷ hs) ≡ lookup i hs = rw (lookup, k) refl in
      lookup-IsQuiet i hs n q.1 (sym same ∙ e)
]

lookup-forget : (i j : ℕ) (hs : List (ℕ × Named)) → i ≢ j → lookup j (forget i hs) ≡ lookup j hs
unfolding lookup forget
lookup-forget i j [] h = refl
lookup-forget i j ((k, n) ∷ hs) h = elim (Bool-cases (k == i)) [
  | inl a ↦ elim (Bool-cases (k == j)) [
    | inl c ↦ absurd (h (sym ((==_iff k i).0 a) ∙ (==_iff k j).0 c))
    | inr c ↦ rw (a, c) (lookup-forget i j hs h)
  ]
  | inr a ↦ elim (Bool-cases (k == j)) [
    | inl c ↦ rw (a, c) refl
    | inr c ↦ rw (a, c) (lookup-forget i j hs h)
  ]
]

forget-AllQuiet : (i : ℕ) (hs : List (ℕ × Named)) → AllQuiet hs → AllQuiet (forget i hs)
unfolding forget
forget-AllQuiet i [] q = tt
forget-AllQuiet i ((j, n) ∷ hs) q = elim (Bool-cases (j == i)) [
  | inl e ↦ rw e (forget-AllQuiet i hs q.1)
  | inr e ↦ rw e (q.0, forget-AllQuiet i hs q.1)
]

Entered-erase_suffix :
    (i : ℕ) (n : Named) (hs : List (ℕ × Named)) (m : List (Text × ℕ))
    → lookup i hs ≡ some n
    → Entered hs m
    → Entered (forget i hs) (erase_suffix n.suffix m)
unfolding erase_suffix
Entered-erase_suffix i n hs [] e h = tt
Entered-erase_suffix i n hs ((k, j) ∷ m) e ((n', e', s'), h) =
    elim (Bool-cases (text_eq n.suffix k)) [
      | inl d ↦ rw d (Entered-erase_suffix i n hs m e h)
      | inr d ↦
          let other : i ≢ j = λ same.
            let here = subst (λ x. lookup x hs ≡ some n) same e in
            let own = ap (λ (x : Named). x.suffix) (some_eq n n' (sym here ∙ e')) ∙ s' in
            let equal = subst (λ x. text_eq n.suffix x ≡ true) own (text_eq_refl n.suffix) in
            ground (arith, equal, d) in
          rw d ((n', lookup-forget i j hs other ∙ e', s'), Entered-erase_suffix i n hs m e h)
    ]

abbrev without : ℕ → Named → HandleMap → HandleMap
without i n r = record r {
  handles = forget i r.handles;
  map = erase_suffix n.suffix r.map;
  default_handle = if is_default i r.default_handle then none else r.default_handle;
}

-- The destructor of a handle.
pub delete_handle-IsHandleMap :
    (i : ℕ) (r : HandleMap) (n : Named)
    → IsHandleMap r
    → lookup i r.handles ≡ some n
    → (r' : HandleMap) × (delete_handle i r ≡ done r')
      × IsHandleMap r'
      × (r'.map ≡ erase_suffix n.suffix r.map)
      × (r'.handles ≡ forget i r.handles)
      × (r'.fresh ≡ r.fresh)
unfolding delete_handle
delete_handle-IsHandleMap i r n (quiet, entered) e =
    let (h', closed, k) = close_lem n.handle (lookup-IsQuiet i r.handles n quiet e) in
    (
      without i n r,
      rw (delete_handle, e, closed) refl,
      (forget-AllQuiet i r.handles quiet, Entered-erase_suffix i n r.handles r.map e entered),
      refl,
      refl,
      refl,
    )
