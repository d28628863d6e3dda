-- ===== src/TailControl/Watched.antt =====
-- The watches that the constructor of qttail.cpp's TailControl leaves, and whether the kernel still has
-- their descriptors.
use quicktrace_public.Base.{ℕ, ◌≡◌, ◌≢◌, refl, sym, ap, ◌∙◌, ◌⊎◌, inl, inr, arith, subst}
use quicktrace_public.Base.{true, false, List, [], ◌∷◌, Option, none, some, ltb}
use quicktrace_public.Base.{Text, text_eq, text_eq→eq, text_eq_refl, find, Bool-cases}
use quicktrace_public.Reader.{Messages}
use quicktrace_public.Tail.{Levels, Mapped, polled, exited, ◌>>=◌}
use quicktrace_public.Tail.Events.{Holds, Holds-bind, Holds-map}
use quicktrace_public.TailControl.{Watches}
use quicktrace_public.TailControl.Kept.{IsFollowing}
use quicktrace_public.TailControl.Start.{
  open_tail, split_path, Opening, is_member, remove, wds, insert_watch, enter, add_dir, add_file,
  add_files, open_files,
}
use quicktrace_public.TailControl.Opened.{
  IsFresh, IsKept, open_tail-IsFresh, IsKept-IsFollowing, insert_watch-IsKept, insert_at-IsKept,
}

-- No two directories have the same descriptor.
abbrev pub IsInjective : (Text → Option ℕ) → Type 0
IsInjective inotify = (d d' : Text) (wd : ℕ) → inotify d ≡ some wd → inotify d' ≡ some wd → d ≡ d'

-- The kernel watches the directory of every watch.
abbrev pub AreActive : Opening → Type 0
AreActive s = (wd : ℕ) → is_member wd (wds s.watches) ≡ true → is_member wd s.active ≡ true

-- Every watch has its directory in `watchesByDir`.
abbrev HasDirs : (Text → Option ℕ) → Opening → Type 0
HasDirs inotify s =
    (wd : ℕ)
    → is_member wd (wds s.watches) ≡ true
    → (d : Text) × (find d s.by_dir ≡ some wd) × (inotify d ≡ some wd)

is_member-insert_watch :
    (wd k : ℕ) (ws : Watches)
    → is_member wd (wds (insert_watch k ws)) ≡ true
    → (k ≡ wd) ⊎ (is_member wd (wds ws) ≡ true)
unfolding insert_watch is_member
is_member-insert_watch wd k [] h = ground (arith, h)
is_member-insert_watch wd k ((j, w) ∷ ws) h = elim (Bool-cases (ltb k j)) [
  | inl e ↦
      let at_front : wds (insert_watch k ((j, w) ∷ ws)) ≡ k ∷ j ∷ wds ws = rw e refl in
      let h' = sym (ap (is_member wd) at_front) ∙ h in ground (arith, h')
  | inr e ↦
      let behind : wds (insert_watch k ((j, w) ∷ ws)) ≡ j ∷ wds (insert_watch k ws) = rw e refl in
      let h' = sym (ap (is_member wd) behind) ∙ h in
      ground (arith, h', is_member-insert_watch wd k ws)
]

inserted_lem : (k : ℕ) (ws : Watches) → is_member k (wds (insert_watch k ws)) ≡ true
unfolding insert_watch is_member
inserted_lem k [] = ground arith
inserted_lem k ((j, w) ∷ ws) = elim (Bool-cases (ltb k j)) [
  | inl e ↦ rw e (ground arith)
  | inr e ↦ rw e (ground (arith, inserted_lem k ws))
]

is_member-remove : (k : ℕ) (js : List ℕ) → is_member k (remove k js) ≡ false
unfolding remove is_member
is_member-remove k [] = refl
is_member-remove k (j ∷ js) = ground (arith, is_member-remove k js)

found_again :
    (d d' : Text) (k wd : ℕ) (t : List (Text × ℕ))
    → find d t ≡ none
    → find d' t ≡ some k
    → find d' ((d, wd) ∷ t) ≡ some k
unfolding find
found_again d d' k wd t new found = elim (Bool-cases (text_eq d' d)) [
  | inl e ↦ absurd (cc (ap (λ x. find x t) (text_eq→eq d' d e), new, found))
  | inr e ↦ rw e found
]

enter-AreActive :
    (inotify : Text → Option ℕ) (d : Text) (wd : ℕ) (s : Opening)
    → IsInjective inotify
    → inotify d ≡ some wd
    → find d s.by_dir ≡ none
    → HasDirs inotify s
    → AreActive s
    → IsKept s.watches
    → HasDirs inotify (enter d wd s) × AreActive (enter d wd s) × IsKept (enter d wd s).watches
unfolding enter is_member find
enter-AreActive inotify d wd s inj ans new dirs act kept =
    elim (Bool-cases (is_member wd (wds s.watches))) [
      | inl e ↦ let (d', found, ans') = dirs wd e in absurd (cc (inj d d' wd ans ans', found, new))
      | inr e ↦ rw e (
        λ k x. elim (is_member-insert_watch k wd s.watches x) [
          | inl same ↦ (d, rw (text_eq_refl d) (ap some same), ans ∙ ap some same)
          | inr m ↦
              let (d', found, ans') = dirs k m in
              (d', found_again d d' k wd s.by_dir new found, ans')
        ],
        λ k x. elim (is_member-insert_watch k wd s.watches x) [
          | inl same ↦ ground (arith, same)
          | inr m ↦ ground (arith, act k m)
        ],
        insert_watch-IsKept wd s.watches kept,
      )
    ]

-- What the constructor keeps.
abbrev IsOpening : (Text → Option ℕ) → Opening → Type 0
IsOpening inotify s = HasDirs inotify s × AreActive s × IsKept s.watches

module _ (inotify : Text → Option ℕ) (inj : IsInjective inotify) where
  add_dir-IsOpening :
      (d : Text) (s : Opening)
      → IsOpening inotify s
      → Holds (λ p. IsOpening inotify p.1) (add_dir inotify d s)
  unfolding add_dir
  add_dir-IsOpening d s (dirs, act, kept) = go (find d s.by_dir) (inotify d) refl refl
    where
      go :
          (x y : Option ℕ)
          → find d s.by_dir ≡ x
          → inotify d ≡ y
          → Holds {A = ℕ × Opening}
              (λ p. IsOpening inotify p.1)
              (elim x [
                | some wd ↦ polled (wd, s)
                | none ↦ elim y [ none ↦ exited | some wd ↦ polled (wd, enter d wd s) ]
              ])
      go (some wd) y e f = (dirs, act, kept)
      go none none e f = tt
      go none (some wd) e f = enter-AreActive inotify d wd s inj f e dirs act kept

  module _ (o : Levels) (fuel : ℕ) (files : Text → Messages × Mapped) where
    add_file-IsOpening :
        (f : Text) (s : Opening)
        → IsOpening inotify s
        → Holds (IsOpening inotify) (add_file inotify o fuel files f s)
    unfolding add_file
    add_file-IsOpening f s h =
        Holds-bind (λ p. IsOpening inotify p.1) (IsOpening inotify)
          (add_dir inotify (split_path f).0 s) _ (add_dir-IsOpening (split_path f).0 s h)
          (λ p (dirs, act, kept).
            Holds-bind IsFresh (IsOpening inotify) (open_tail o fuel (files f)) _
              (open_tail-IsFresh o fuel (files f))
              (λ t fresh.
                let (kept', same) =
                  insert_at-IsKept p.0 (split_path f).1 t p.1.watches fresh kept in
                (
                  λ k x. dirs k (sym (ap (is_member k) same) ∙ x),
                  λ k x. act k (sym (ap (is_member k) same) ∙ x),
                  kept',
                )))

    add_files-IsOpening :
        (fs : List Text) (s : Opening)
        → IsOpening inotify s
        → Holds (IsOpening inotify) (add_files inotify o fuel files fs s)
    unfolding add_files
    add_files-IsOpening [] s h = h
    add_files-IsOpening (f ∷ fs) s h =
        Holds-bind (IsOpening inotify) (IsOpening inotify) (add_file inotify o fuel files f s) _
          (add_file-IsOpening f s h) (λ s' h'. add_files-IsOpening fs s' h')

    -- Where no two names of directories have the same descriptor, the constructor of TailControl, unless
    -- it exits or does not come to the end of a log, leaves every watch active in the kernel, and its
    -- watches as the rounds keep them. No assertion fails.
    pub open_files-AreActive :
        (fs : List Text)
        → Holds
            (λ s. IsFollowing (wds s.watches) s.watches × AreActive s)
            (open_files inotify o fuel files fs)
    unfolding open_files is_member
    open_files-AreActive fs =
        Holds-map (IsOpening inotify) _ (open_files inotify o fuel files fs)
          (add_files-IsOpening fs (record { by_dir = []; watches = []; active = [] })
            (λ k x. ground (arith, x), λ k x. ground (arith, x), tt))
          (λ s (dirs, act, kept). (IsKept-IsFollowing s.watches kept, act))

added :
    (inotify : Text → Option ℕ) (d : Text) (wd : ℕ) (s : Opening)
    → find d s.by_dir ≡ none
    → inotify d ≡ some wd
    → add_dir inotify d s ≡ polled (wd, enter d wd s)
unfolding add_dir
added inotify d wd s new ans = rw (add_dir, new, ans) refl

find_other :
    (d d' : Text) (wd : ℕ) (s : Opening)
    → d ≢ d'
    → find d' s.by_dir ≡ none
    → find d' (enter d wd s).by_dir ≡ none
unfolding enter find
find_other d d' wd s other new' = elim (Bool-cases (text_eq d' d)) [
  | inl e ↦ absurd (other (sym (text_eq→eq d' d e)))
  | inr e ↦ elim (Bool-cases (is_member wd (wds s.watches))) [
    | inl m ↦ rw (m, e) new'
    | inr m ↦ rw (m, e) new'
  ]
]

entered_lem : (d : Text) (wd : ℕ) (s : Opening) → is_member wd (wds (enter d wd s).watches) ≡ true
unfolding enter
entered_lem d wd s = elim (Bool-cases (is_member wd (wds s.watches))) [
  | inl m ↦ rw m m
  | inr m ↦ rw m (inserted_lem wd s.watches)
]

enter_again :
    (d : Text) (wd : ℕ) (s : Opening)
    → is_member wd (wds s.watches) ≡ true
    → (is_member wd (wds (enter d wd s).watches) ≡ true)
      × (is_member wd (enter d wd s).active ≡ false)
unfolding enter
enter_again d wd s m = rw m (m, is_member-remove wd s.active)

-- If two names of directories, neither of them seen before, have the same descriptor, as `.` and `./`
-- have, the kernel does not watch the directory any more after the second one, though its watch is
-- still there.
pub add_dir-twice :
    (inotify : Text → Option ℕ) (d d' : Text) (wd : ℕ) (s : Opening)
    → d ≢ d'
    → find d s.by_dir ≡ none
    → find d' s.by_dir ≡ none
    → inotify d ≡ some wd
    → inotify d' ≡ some wd
    → Holds
        (λ p.
          (p.0 ≡ wd) × (is_member wd (wds p.1.watches) ≡ true) × (is_member wd p.1.active ≡ false))
        (add_dir inotify d s >>= λ p. add_dir inotify d' p.1)
unfolding add_dir
add_dir-twice inotify d d' wd s other new new' ans ans' =
    let s' = enter d wd s in
    subst (Holds _)
      (sym (
        ap (λ r. r >>= λ p. add_dir inotify d' p.1) (added inotify d wd s new ans)
        ∙ added inotify d' wd s' (find_other d d' wd s other new') ans'))
      (
        refl,
        (enter_again d' wd s' (entered_lem d wd s)).0,
        (enter_again d' wd s' (entered_lem d wd s)).1,
      )
