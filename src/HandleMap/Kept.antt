-- ===== src/HandleMap/Kept.antt =====
-- What initialize and close of QuickTrace.cpp keep of the handles.
use quicktrace_public.Base.{ℕ, ◌+◌, ◌<◌, ◌≡◌, refl, sym, ◌∙◌, inl, inr, arith, subst}
use quicktrace_public.Base.{
  Bool, true, false, not, ◌&&◌, List, [], ◌∷◌, Option, none, some, ◌==◌, if◌then◌else◌, Bool-cases,
  Option-cases,
}
use quicktrace_public.Base.{Text, text_eq, All}
use quicktrace_public.Handle.{Handle, Setup, Run, done, has_file, make_handle}
use quicktrace_public.Handle.Sound.{IsSound, Ends, Ends-bind, if-Ends}
use quicktrace_public.Handle.Live.{make_handle-IsSound}
use quicktrace_public.HandleMap.{
  Named, HandleMap, lookup, forget, erase_suffix, new_handle, delete_handle, close_default,
  initialize, is_initialized, limit_string_len,
}
use quicktrace_public.HandleMap.Entered.{IsQuiet, Entered, IsHandleMap, delete_handle-IsHandleMap}

-- Every handle is older than the next one.
abbrev AllOld : ℕ → List (ℕ × Named) → Type 0
AllOld fresh hs = All (λ (x : ℕ × Named). x.0 < fresh) hs

abbrev pub IsMade : HandleMap → Type 0
IsMade r = IsHandleMap r × AllOld r.fresh r.handles

IsSound-IsQuiet : (h : Handle) → IsSound h → IsQuiet h
unfolding has_file
IsSound-IsQuiet h k closed = (
  k.closed_empty closed,
  k.closed_off closed,
  elim (Option-cases h.non_mt_trace_file) [
    | inl e ↦ e
    | inr (f, e) ↦
        let live = subst (λ fs. has_file f fs ≡ true) (k.closed_empty closed) (k.single_live f e) in
        ground (arith, live)
  ],
)

lookup-old :
    (j fresh : ℕ) (hs : List (ℕ × Named)) (n : Named)
    → AllOld fresh hs
    → lookup j hs ≡ some n
    → j < fresh
unfolding lookup
lookup-old j fresh [] n old e = cc
lookup-old j fresh ((k, m) ∷ hs) n old e = elim (Bool-cases (k == j)) [
  | inl a ↦ ground (arith, a, old.0)
  | inr a ↦
      let behind : lookup j ((k, m) ∷ hs) ≡ lookup j hs = rw (lookup, a) refl in
      lookup-old j fresh hs n old.1 (sym behind ∙ e)
]

lookup-behind :
    (j fresh : ℕ) (hs : List (ℕ × Named)) (m n : Named)
    → AllOld fresh hs
    → lookup j hs ≡ some n
    → lookup j ((fresh, m) ∷ hs) ≡ some n
unfolding lookup
lookup-behind j fresh hs m n old e =
    let lt = lookup-old j fresh hs n old e in
    let differ : (fresh == j) ≡ false = ground (arith, lt) in rw differ e

Entered-behind :
    (fresh : ℕ) (hs : List (ℕ × Named)) (m : Named) (t : List (Text × ℕ))
    → AllOld fresh hs
    → Entered hs t
    → Entered ((fresh, m) ∷ hs) t
Entered-behind fresh hs m [] old h = tt
Entered-behind fresh hs m ((k, j) ∷ t) old ((n, e, s), h) =
    ((n, lookup-behind j fresh hs m n old e, s), Entered-behind fresh hs m t old h)

Entered-erased :
    (s : Text) (hs : List (ℕ × Named)) (t : List (Text × ℕ))
    → Entered hs t
    → Entered hs (erase_suffix s t)
unfolding erase_suffix
Entered-erased s hs [] h = tt
Entered-erased s hs ((k, j) ∷ t) h = elim (Bool-cases (text_eq s k)) [
  | inl e ↦ rw e (Entered-erased s hs t h.1)
  | inr e ↦ rw e (h.0, Entered-erased s hs t h.1)
]

AllOld-later : (fresh : ℕ) (hs : List (ℕ × Named)) → AllOld fresh hs → AllOld (fresh + 1) hs
AllOld-later fresh [] h = tt
AllOld-later fresh (x ∷ hs) h = (omega (arith, h.0), AllOld-later fresh hs h.1)

forget-AllOld : (i fresh : ℕ) (hs : List (ℕ × Named)) → AllOld fresh hs → AllOld fresh (forget i hs)
unfolding forget
forget-AllOld i fresh [] h = tt
forget-AllOld i fresh ((j, n) ∷ hs) h = elim (Bool-cases (j == i)) [
  | inl e ↦ rw e (forget-AllOld i fresh hs h.1)
  | inr e ↦ rw e (h.0, forget-AllOld i fresh hs h.1)
]

lookup_first : (i : ℕ) (n : Named) (hs : List (ℕ × Named)) → lookup i ((i, n) ∷ hs) ≡ some n
unfolding lookup
lookup_first i n hs = let same : (i == i) ≡ true = ground arith in rw same refl

new_handle-IsMade :
    (s : Setup) (format suffix : Text) (r : HandleMap)
    → IsMade r
    → Ends (λ p. IsMade p.1) (new_handle s format suffix r)
unfolding new_handle
new_handle-IsMade s format suffix r ((quiet, entered), old) =
    Ends-bind IsSound _ (make_handle s) _ (make_handle-IsSound s) (λ h k.
      let n : Named = record { format = format; suffix = suffix; handle = h } in
      let behind = Entered-behind r.fresh r.handles n r.map old entered in
      (
        ((IsSound-IsQuiet h k, quiet), entered_map h.initialized n refl behind),
        (omega arith, AllOld-later r.fresh r.handles old),
      ))
  where
    entered_map :
        (b : Bool) (n : Named)
        → n.suffix ≡ suffix
        → Entered ((r.fresh, n) ∷ r.handles) r.map
        → Entered
            ((r.fresh, n) ∷ r.handles)
            (if b then (suffix, r.fresh) ∷ erase_suffix suffix r.map else r.map)
    entered_map true n own e =
        ((n, lookup_first r.fresh n r.handles, own), Entered-erased suffix _ r.map e)
    entered_map false n own e = e

delete_handle-IsMade : (i : ℕ) (r : HandleMap) → IsMade r → Ends IsMade (delete_handle i r)
unfolding delete_handle
delete_handle-IsMade i r (h, old) = elim (Option-cases (lookup i r.handles)) [
  | inl e ↦ rw (delete_handle, e) tt
  | inr (n, e) ↦
      let (r', deleted, kept, rest, left, number) = delete_handle-IsHandleMap i r n h e in
      let old' =
        subst (λ hs. AllOld r.fresh hs) (sym left) (forget-AllOld i r.fresh r.handles old) in
      subst (Ends IsMade) (sym deleted) (kept, subst (λ k. AllOld k r'.handles) (sym number) old')
]

-- `QuickTrace::close`
close_default-IsMade : (r : HandleMap) → IsMade r → Ends IsMade (close_default r)
unfolding close_default
close_default-IsMade r h = go r.default_handle
  where
    go : (x : Option ℕ) → Ends IsMade (elim x [ none ↦ done r | some i ↦ delete_handle i r ])
    go none = h
    go (some i) = delete_handle-IsMade i r h

by_option {ℓ κ} :
    {X : Type κ} {A : Type ℓ} (P : A → Type 0) (x : Option X) (a : Run A) (f : X → Run A)
    → Ends P a
    → ((y : X) → Ends P (f y))
    → Ends P (elim x [ none ↦ a | some y ↦ f y ])
by_option P none a f h k = h
by_option P (some y) a f h k = k y

-- If every entry of the map names a handle that exists, under its suffix, closed handles have no files,
-- and the next number is above those given, then all this holds after `initialize`, whatever it is
-- called with and meets, if it comes back.
pub initialize-IsMade :
    (name : Option Text) (suffix : Text) (s : Setup) (len : ℕ) (r : HandleMap)
    → IsMade r
    → Ends (λ p. IsMade p.1) (initialize name suffix s len r)
unfolding initialize
initialize-IsMade none suffix s len r h = h
initialize-IsMade (some []) suffix s len r h = h
initialize-IsMade (some (c ∷ cs)) suffix s len r h =
    if-Ends _ (not s.multi_threading && text_eq (c ∷ cs) (b'.' ∷ b'q' ∷ b't' ∷ [])) _ _ (λ e. tt)
      (λ e.
        by_option _ r.default_handle _ _
          (Ends-bind (λ p. IsMade p.1) _ (new_handle s (c ∷ cs) suffix limited) _
            (new_handle-IsMade s (c ∷ cs) suffix limited h)
            (λ p k.
              let with_default = record (p.1) { default_handle = some p.0 } in
              if-Ends _ (is_initialized p.0 with_default) _ _ (λ x. k)
                (λ x.
                  Ends-bind IsMade _ (close_default with_default) _
                    (close_default-IsMade with_default k) (λ r' l. l))))
          (λ i. by_option _ (lookup i r.handles) _ _ tt (λ n. h)))
  where
    limited : HandleMap
    limited = record r { max_string_len = limit_string_len len }
