-- ===== src/TailControl/Choice.antt =====
-- Which file TailControl::tailMany of qttail.cpp chooses in a round.
use quicktrace_public.Base.{ℕ, suc, ◌+◌, ◌≤◌, ◌≡◌, refl, sym, ap, ap₂, ◌∙◌, ◌⊎◌, inl, inr, arith}
use quicktrace_public.Base.{
  true, false, List, [], ◌∷◌, Option, none, some, ltb, if◌then◌else◌, Bool-cases,
}
use quicktrace_public.Base.{Text, All, get_elem?}
use quicktrace_public.Reader.{uint64_max}
use quicktrace_public.Tail.{
  Tail, Status, initializing, active, delete_pending, reinit_pending, reinit_ready, Levels,
  next_message,
}
use quicktrace_public.Tail.Watch.{Watch}
use quicktrace_public.Tail.Events.{Holds, Holds-bind, Holds-map}
use quicktrace_public.Tail.Steps.{Steps, next_message-Steps}
use quicktrace_public.TailControl.{
  Watches, Round, Best, no_best, is_deleted, look_at, visit_tails, visit_watches,
}

-- No choice of a file is below `low`.
abbrev pub NotBelow : ℕ → Tail → Type 0
NotBelow low t = (i : ℕ) → t.next.1 ≡ some i → low ≤ t.next.0

-- A file without a choice is deleted.
abbrev pub IsGone : Tail → Type 0
IsGone t = t.next.1 ≡ none → t.status ≡ delete_pending

abbrev pub AllTails : (Tail → Type 0) → List (Text × Tail) → Type 0
AllTails P ts = All (λ (x : Text × Tail). P x.1) ts

abbrev pub AllFiles : (Tail → Type 0) → Watches → Type 0
AllFiles P ws = All (λ (x : ℕ × Watch). AllTails P x.1.tails) ws

abbrev SameBest : Best → Best → Type 0
SameBest best b = (b.tsc ≡ best.tsc) × (b.min_tail ≡ best.min_tail)

deleted_lem : (s : Status) → is_deleted s ≡ true → s ≡ delete_pending
deleted_lem initializing e = ground (arith, e)
deleted_lem active e = ground (arith, e)
deleted_lem delete_pending e = refl
deleted_lem reinit_pending e = ground (arith, e)
deleted_lem reinit_ready e = ground (arith, e)

-- The best after one more file.
abbrev LookedAt : ℕ → ℕ → Tail → Best → Best → Type 0
LookedAt n k t best b =
    (b.tsc ≤ best.tsc)
    × NotBelow b.tsc t
    × (b.all_deleted ≡ true → (best.all_deleted ≡ true) × IsGone t)
    × (SameBest best b ⊎ ((i : ℕ) × (b.min_tail ≡ some (n, k, i)) × (t.next ≡ (b.tsc, some i))))

look_at-LookedAt : (n k : ℕ) (t : Tail) (best : Best) → LookedAt n k t best (look_at n k t best)
unfolding look_at
look_at-LookedAt n k t best = go t.next.1 refl
  where
    go :
        (x : Option ℕ)
        → t.next.1 ≡ x
        → LookedAt n k t best (elim x [
          | none ↦ if is_deleted t.status then best else record best { all_deleted = false }
          | some i ↦
              if ltb t.next.0 best.tsc
              then record best { tsc = t.next.0; min_tail = some (n, k, i) }
              else best
        ])
    go none e = elim (Bool-cases (is_deleted t.status)) [
      | inl d ↦
          rw d (omega arith, λ i f. cc, λ a. (a, λ x. deleted_lem t.status d), inl (refl, refl))
      | inr d ↦ rw d (omega arith, λ i f. cc, λ a. ground (arith, a), inl (refl, refl))
    ]
    go (some i) e = elim (Bool-cases (ltb t.next.0 best.tsc)) [
      | inl d ↦ rw d (
        ground (arith, d),
        λ j f. omega arith,
        λ a. (a, λ x. cc),
        inr (i, refl, λ j. (t.next.0, e j)),
      )
      | inr d ↦ rw d (omega arith, λ j f. ground (arith, d), λ a. (a, λ x. cc), inl (refl, refl))
    ]

abbrev FoundTail : ℕ → ℕ → List (Text × Tail) → Best → Type 0
FoundTail n k ts b =
    (j : ℕ) × (i : ℕ) × (x : Text × Tail) × (get_elem? ts j ≡ some x)
    × (b.min_tail ≡ some (n, k + j, i))
    × (x.1.next ≡ (b.tsc, some i))

-- The best after the files `ts` of the watch `n`, from its position `k` on.
abbrev VisitedTails : ℕ → ℕ → List (Text × Tail) → Best → Best → Type 0
VisitedTails n k ts best b =
    (b.tsc ≤ best.tsc)
    × AllTails (NotBelow b.tsc) ts
    × (b.all_deleted ≡ true → (best.all_deleted ≡ true) × AllTails IsGone ts)
    × (SameBest best b ⊎ FoundTail n k ts b)

VisitedTails-first :
    (n k : ℕ) (name : Text) (t : Tail) (ts : List (Text × Tail)) (best mid b : Best)
    → LookedAt n k t best mid
    → VisitedTails n (k + 1) ts mid b
    → VisitedTails n k ((name, t) ∷ ts) best b
VisitedTails-first n k name t ts best mid b (le, low, gone, how) (le', low', gone', how') = (
  omega arith,
  (λ i e. let le'' = low i e in omega arith, low'),
  λ a. ((gone (gone' a).0).0, ((gone (gone' a).0).1, (gone' a).1)),
  found how how',
)
  where
    found :
        SameBest best mid
          ⊎ ((i : ℕ) × (mid.min_tail ≡ some (n, k, i)) × (t.next ≡ (mid.tsc, some i)))
        → SameBest mid b ⊎ FoundTail n (k + 1) ts b
        → SameBest best b ⊎ FoundTail n k ((name, t) ∷ ts) b
    found how (inr (j, i, x, there, place, e)) =
        let z : k + 1 + j ≡ k + suc j = omega arith in
        inr (suc j, i, x, there, place ∙ ap (λ m. some (n, m, i)) z, e)
    found (inl same) (inl same') = inl (same'.0 ∙ same.0, same'.1 ∙ same.1)
    found (inr (i, place, e)) (inl same') =
        let z : k ≡ k + 0 = omega arith in
        inr (
          0,
          i,
          (name, t),
          refl,
          same'.1 ∙ place ∙ ap (λ m. some (n, m, i)) z,
          e ∙ ap (λ m. (m, some i)) (sym same'.0),
        )

visit_tails-VisitedTails :
    (levels : Levels) (r : Round) (n k : ℕ) (ts : List (Text × Tail)) (best : Best)
    → Holds (λ p. VisitedTails n k p.0 best p.1) (visit_tails levels r n k ts best)
unfolding visit_tails
visit_tails-VisitedTails levels r n k [] best = (omega arith, tt, λ a. (a, tt), inl (refl, refl))
visit_tails-VisitedTails levels r n k ((name, t) ∷ ts) best =
    Holds-bind (Steps t) _ (next_message (r.file n k).0 true levels (r.file n k).1 t) _
      (next_message-Steps (r.file n k).0 true levels (r.file n k).1 t)
      (λ t' s.
        let mid = look_at n k t' best in
        Holds-bind (λ p. VisitedTails n (k + 1) p.0 mid p.1) _
          (visit_tails levels r n (k + 1) ts mid) _
          (visit_tails-VisitedTails levels r n (k + 1) ts mid)
          (λ p v. VisitedTails-first n k name t' p.0 best mid p.1 (look_at-LookedAt n k t' best) v))

abbrev FoundFile : ℕ → Watches → Best → Type 0
FoundFile n ws b =
    (m : ℕ) × (j : ℕ) × (i : ℕ) × (x : ℕ × Watch) × (y : Text × Tail) × (get_elem? ws m ≡ some x)
    × (get_elem? x.1.tails j ≡ some y)
    × (b.min_tail ≡ some (n + m, j, i))
    × (y.1.next ≡ (b.tsc, some i))

-- The best after the watches `ws` from the position `n` on.
abbrev Visited : ℕ → Watches → Best → Best → Type 0
Visited n ws best b =
    (b.tsc ≤ best.tsc)
    × AllFiles (NotBelow b.tsc) ws
    × (b.all_deleted ≡ true → (best.all_deleted ≡ true) × AllFiles IsGone ws)
    × (SameBest best b ⊎ FoundFile n ws b)

lowered :
    (low low' : ℕ) (ts : List (Text × Tail))
    → low' ≤ low
    → AllTails (NotBelow low) ts
    → AllTails (NotBelow low') ts
lowered low low' [] h all = tt
lowered low low' (x ∷ ts) h all =
    (λ i e. let le = all.0 i e in omega arith, lowered low low' ts h all.1)

Visited-first :
    (n wd : ℕ) (w : Watch) (ws : Watches) (best mid b : Best)
    → VisitedTails n 0 w.tails best mid
    → Visited (n + 1) ws mid b
    → Visited n ((wd, w) ∷ ws) best b
Visited-first n wd w ws best mid b (le, low, gone, how) (le', low', gone', how') = (
  omega arith,
  (lowered mid.tsc b.tsc w.tails le' low, low'),
  λ a. ((gone (gone' a).0).0, ((gone (gone' a).0).1, (gone' a).1)),
  found how how',
)
  where
    found :
        SameBest best mid ⊎ FoundTail n 0 w.tails mid
        → SameBest mid b ⊎ FoundFile (n + 1) ws b
        → SameBest best b ⊎ FoundFile n ((wd, w) ∷ ws) b
    found how (inr (m, j, i, x, y, there, there', place, e)) =
        let z : n + 1 + m ≡ n + suc m = omega arith in
        inr (suc m, j, i, x, y, there, there', place ∙ ap (λ l. some (l, j, i)) z, e)
    found (inl same) (inl same') = inl (same'.0 ∙ same.0, same'.1 ∙ same.1)
    found (inr (j, i, y, there, place, e)) (inl same') =
        let z : n ≡ n + 0 = omega arith in
        let z' : 0 + j ≡ j = omega arith in
        inr (
          0,
          j,
          i,
          (wd, w),
          y,
          refl,
          there,
          same'.1 ∙ place ∙ ap₂ (λ l k. some (l, k, i)) z z',
          e ∙ ap (λ l. (l, some i)) (sym same'.0),
        )

visit_watches-Visited :
    (levels : Levels) (r : Round) (n : ℕ) (ws : Watches) (best : Best)
    → Holds (λ p. Visited n p.0 best p.1) (visit_watches levels r n ws best)
unfolding visit_watches
visit_watches-Visited levels r n [] best = (omega arith, tt, λ a. (a, tt), inl (refl, refl))
visit_watches-Visited levels r n ((wd, w) ∷ ws) best =
    Holds-bind (λ p. VisitedTails n 0 p.0 best p.1) _ (visit_tails levels r n 0 w.tails best) _
      (visit_tails-VisitedTails levels r n 0 w.tails best)
      (λ p v.
        Holds-bind (λ q. Visited (n + 1) q.0 p.1 q.1) _ (visit_watches levels r (n + 1) ws p.1) _
          (visit_watches-Visited levels r (n + 1) ws p.1)
          (λ q k. Visited-first n wd (record w { tails = p.0 }) q.0 best p.1 q.1 v k))

-- The best of all files: none has a choice with a lower time stamp, and `minTail` is a file that has
-- this one; without it no file has any below the greatest; and under `allFilesDeleted`, every file
-- without a choice is deleted.
abbrev pub IsBest : Watches → Best → Type 0
IsBest ws b =
    AllFiles (NotBelow b.tsc) ws
    × (b.all_deleted ≡ true → AllFiles IsGone ws)
    × (((b.tsc ≡ uint64_max) × (b.min_tail ≡ none))
        ⊎ ((m : ℕ) × (j : ℕ) × (i : ℕ) × (x : ℕ × Watch) × (y : Text × Tail) × (get_elem? ws m
              ≡ some x)
            × (get_elem? x.1.tails j ≡ some y)
            × (b.min_tail ≡ some (m, j, i))
            × (y.1.next ≡ (b.tsc, some i))))

-- A round chooses the file whose next message has the lowest time stamp of all files; where it chooses
-- none, no file has a message with a time stamp below the greatest, and `allFilesDeleted` is only left
-- when every file without a message is deleted. No assertion fails.
pub visit_watches-IsBest :
    (levels : Levels) (r : Round) (ws : Watches)
    → Holds (λ p. IsBest p.0 p.1) (visit_watches levels r 0 ws no_best)
visit_watches-IsBest levels r ws =
    Holds-map _ _ (visit_watches levels r 0 ws no_best)
      (visit_watches-Visited levels r 0 ws no_best)
      (λ p (le, low, gone, how). (
        low,
        λ a. (gone a).1,
        elim how [
          | inl same ↦ inl same
          | inr (m, j, i, x, y, there, there', place, e) ↦
              let z : 0 + m ≡ m = omega arith in
              inr (m, j, i, x, y, there, there', place ∙ ap (λ l. some (l, j, i)) z, e)
        ],
      ))
