-- ===== src/HandleMap/Fork.antt =====
-- The child after a fork: processForkChild of QuickTrace.cpp.
use quicktrace_public.Base.{
  ℕ, zero, suc, ◌≤◌, ◌≡◌, refl, sym, ap, ◌∙◌, inl, inr, arith, subst, some_eq,
}
use quicktrace_public.Base.{true, false, not, List, [], ◌∷◌, none, some, Bool-cases}
use quicktrace_public.Base.{Text, text_eq, text_eq_refl, get_elem?, ◌&&◌, All, length}
use quicktrace_public.Handle.{Handle, Setup, done, ◌>>=◌, trace_file}
use quicktrace_public.HandleMap.{
  Named, HandleMap, lookup, erase_suffix, delete_handle, delete_all, close_all, initialize,
  limit_string_len,
}
use quicktrace_public.HandleMap.Entered.{IsClosed, Entered, IsHandleMap, delete_handle-IsHandleMap}
use quicktrace_public.HandleMap.Closed.{HasClosed, KeepsNames, KeepsNames-trans, close_handle_lem}

length-erase_suffix : (s : Text) (m : List (Text × ℕ)) → length (erase_suffix s m) ≤ length m
unfolding erase_suffix
length-erase_suffix s [] = omega arith
length-erase_suffix s ((k, i) ∷ m) = elim (Bool-cases (text_eq s k)) [
  | inl e ↦ rw e (omega (arith, length-erase_suffix s m))
  | inr e ↦ rw e (omega (arith, length-erase_suffix s m))
]

first_erased :
    (s k : Text) (i : ℕ) (m : List (Text × ℕ))
    → s ≡ k
    → length (erase_suffix s ((k, i) ∷ m)) ≤ length m
unfolding erase_suffix
first_erased s k i m e =
    let same = subst (λ x. text_eq s x ≡ true) e (text_eq_refl s) in
    rw same (length-erase_suffix s m)

-- If every entry of the map names a handle that exists, under its suffix, and closed handles have no
-- files, the child's loop that deletes the first handle of the map ends, with an empty map, in no more
-- rounds than the map has entries; no handle is deleted twice, and no assertion fails.
pub delete_all-Ends :
    (fuel : ℕ) (r : HandleMap)
    → IsHandleMap r
    → length r.map ≤ fuel
    → (r' : HandleMap) × (delete_all fuel r ≡ done r') × (r'.map ≡ [])
unfolding delete_all
delete_all-Ends zero r h le = (r, refl, empty r.map le)
  where
    empty : (m : List (Text × ℕ)) → length m ≤ 0 → m ≡ []
    empty [] le = refl
    empty (x ∷ m) le = absurd (omega arith)
delete_all-Ends (suc fuel) r h le = go (λ r'. delete_all-Ends fuel r') r.map refl
  where
    go :
        ((r' : HandleMap)
          → IsHandleMap r'
          → length r'.map ≤ fuel
          → (r'' : HandleMap) × (delete_all fuel r' ≡ done r'') × (r''.map ≡ []))
        → (m : List (Text × ℕ)) → r.map ≡ m
        → (r' : HandleMap) × ((elim m [
          | [] ↦ done r
          | ((k, i) ∷ m) ↦ delete_handle i r >>= λ r'. delete_all fuel r'
        ])
            ≡ done r')
          × (r'.map ≡ [])
    go later [] e = (r, refl, e)
    go later ((k, i) ∷ m) e =
        let (n, found, own) = (subst (Entered r.handles) e h.1).0 in
        let (r1, deleted, kept, rest, left, number) = delete_handle-IsHandleMap i r n h found in
        let fewer = first_erased n.suffix k i m own in
        let same = ap length (rest ∙ ap (erase_suffix n.suffix) e) in
        let all = ap length e in
        let (r2, ended, nothing) = later r1 kept (omega arith) in
        (r2, rw (deleted, ended) refl, nothing)

closed_trace_file : (t : ℕ) (h : Handle) → IsClosed h → trace_file t h ≡ none
unfolding trace_file
closed_trace_file t h (closed, files, off, single) = elim (Bool-cases h.multi_threading) [
  | inl e ↦ rw (e, off) refl
  | inr e ↦ rw e single
]

close_all_lem :
    (m : List (Text × ℕ)) (r : HandleMap)
    → IsHandleMap r
    → Entered r.handles m
    → (r' : HandleMap) × (close_all m r ≡ done r')
      × All (λ (x : Text × ℕ). HasClosed r' x.1) m
      × ((j : ℕ) → HasClosed r j → HasClosed r' j)
      × (r'.map ≡ r.map)
      × KeepsNames r r'
unfolding close_all
close_all_lem [] r h e = (r, refl, tt, λ j c. c, refl, (refl, λ j n e. (n, e, refl)))
close_all_lem ((k, i) ∷ m) r h ((n, found, own), e) =
    let (r1, closing, kept, same, first, stay, entered, names) = close_handle_lem i r n h found in
    let (r2, ended, all, stay', same', names') = close_all_lem m r1 kept (entered m e) in
    (
      r2,
      rw (closing, ended) refl,
      (stay' i first, all),
      λ j c. stay' j (stay j c),
      same' ∙ same,
      KeepsNames-trans r r1 r2 names names',
    )

-- If every entry of the map names a handle that exists, under its suffix, and closed handles have no
-- files, then in the child, where the handles are only closed, no assertion fails, the map keeps its
-- entries, and no handle of the map gives a trace file to any thread any more.
pub close_all-trace_file :
    (r : HandleMap)
    → IsHandleMap r
    → (r' : HandleMap) × (close_all r.map r ≡ done r')
      × (r'.map ≡ r.map)
      × All
          (λ (x : Text × ℕ).
            (n : Named) × (lookup x.1 r'.handles ≡ some n)
            × ((t : ℕ) → trace_file t n.handle ≡ none))
          r.map
close_all-trace_file r h =
    let (r', ended, all, stay, same, names) = close_all_lem r.map r h h.1 in
    (r', ended, same, off r' r.map all)
  where
    off :
        (r' : HandleMap) (m : List (Text × ℕ))
        → All (λ (x : Text × ℕ). HasClosed r' x.1) m
        → All
            (λ (x : Text × ℕ).
              (n : Named) × (lookup x.1 r'.handles ≡ some n)
              × ((t : ℕ) → trace_file t n.handle ≡ none))
            m
    off r' [] all = tt
    off r' (x ∷ m) ((n, found, c), all) =
        ((n, found, λ t. closed_trace_file t n.handle c), off r' m all)

initialize_again :
    (r : HandleMap) (i : ℕ) (n : Named) (c : ℕ) (cs suffix : Text) (s : Setup) (len : ℕ)
    → r.default_handle ≡ some i
    → lookup i r.handles ≡ some n
    → text_eq n.format (c ∷ cs) ≡ true
    → not s.multi_threading && text_eq (c ∷ cs) (b'.' ∷ b'q' ∷ b't' ∷ []) ≡ false
    → initialize (some (c ∷ cs)) suffix s len r
      ≡ done (true, record r { max_string_len = limit_string_len len })
unfolding initialize
initialize_again r i n c cs suffix s len d e f g = simp (initialize, g, d, e, f)

-- If every entry of the map names a handle that exists, under its suffix, closed handles have no files,
-- and the map has the default handle, then in the child, after the handles were closed, `initialize` of
-- the default handle's file name succeeds (a name other than `.qt`, or with threads), but the handle
-- does not give a trace file to any thread.
pub close_all-initialize :
    (r : HandleMap) (p i : ℕ) (k : Text) (n : Named) (c : ℕ) (cs suffix : Text) (s : Setup)
    (len : ℕ)
    → IsHandleMap r
    → r.default_handle ≡ some i
    → get_elem? r.map p ≡ some (k, i)
    → lookup i r.handles ≡ some n
    → n.format ≡ c ∷ cs
    → not s.multi_threading && text_eq (c ∷ cs) (b'.' ∷ b'q' ∷ b't' ∷ []) ≡ false
    → (r' : HandleMap) × (n' : Named) × (close_all r.map r ≡ done r')
      × (initialize (some (c ∷ cs)) suffix s len r'
          ≡ done (true, record r' { max_string_len = limit_string_len len }))
      × (lookup i r'.handles ≡ some n')
      × ((t : ℕ) → trace_file t n'.handle ≡ none)
close_all-initialize r p i k n c cs suffix s len h d there e f g =
    let (r', ended, all, stay, same, names) = close_all_lem r.map r h h.1 in
    let (n', found, closed) = member r' r.map p all there in
    let (m, found', format) = names.1 i n e in
    let one = some_eq m n' (sym found' ∙ found) in
    let name = sym (ap (λ (x : Named). x.format) one) ∙ format ∙ f in
    let equal = subst (λ x. text_eq x (c ∷ cs) ≡ true) (sym name) (text_eq_refl (c ∷ cs)) in
    (
      r',
      n',
      ended,
      initialize_again r' i n' c cs suffix s len (names.0 ∙ d) found equal g,
      found,
      λ t. closed_trace_file t n'.handle closed,
    )
  where
    member :
        (r' : HandleMap) (m : List (Text × ℕ)) (p : ℕ)
        → All (λ (x : Text × ℕ). HasClosed r' x.1) m
        → get_elem? m p ≡ some (k, i)
        → HasClosed r' i
    member r' [] p all x = cc
    member r' (y ∷ m) zero all x =
        subst (λ (z : Text × ℕ). HasClosed r' z.1) (some_eq y (k, i) x) all.0
    member r' (y ∷ m) (suc p) all x = member r' m p all.1 x
