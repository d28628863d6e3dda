-- ===== src/Tail/Asserts.antt =====
-- The assertions of `Tail::statusIs` hold whenever `Tail::nextTsc` of qttail.cpp calls it.
use quicktrace_public.Base.{ℕ, ◌+◌, ◌≡◌, refl, ap, subst, ◌≢◌, arith, ◌⊎◌, inl, inr}
use quicktrace_public.Base.{
  Bool, true, false, not, List, [], ◌∷◌, Option, none, some, if◌then◌else◌, Bool-cases, Memory,
  ◌==◌,
}
use quicktrace_public.Tail.{
  Tail, Status, initializing, active, delete_pending, reinit_pending, reinit_ready,
}
use quicktrace_public.Tail.{
  status_is, change_status, polled, assertion, exited, ◌>>=◌, Mapped, Levels, level_enabled,
}
use quicktrace_public.Tail.{
  search, scan, no_choice, initialize, ensure_ready, next_message, rewind_all, scan_rounds,
  is_initializing, is_ready, make_readers,
}
use quicktrace_public.Tail.Events.{Holds, Holds-bind, if-Holds}
use quicktrace_public.Reader.{Messages, Reader, uint64_max}
use quicktrace_public.Reader.Rewind.{rewind}

abbrev pub Any {ℓ} : {A : Type ℓ} → A → Type 0
Any a = Unit

pub rewind_all-Holds :
    (get : Messages) (tail : Bool) (o : Levels) (m : Memory) (level : ℕ) (rs : List Reader)
    → Holds Any (rewind_all get tail o m level rs)
unfolding rewind_all
rewind_all-Holds get tail o m level [] = tt
rewind_all-Holds get tail o m level (r ∷ rs) =
    if-Holds Any (level_enabled o level) _ _
      (go (rewind_all-Holds get tail o m (level + 1) rs) (rewind get tail m r))
      (Holds-bind Any Any (rewind_all get tail o m (level + 1) rs) _
        (rewind_all-Holds get tail o m (level + 1) rs) (λ rs' k. tt))
  where
    go :
        Holds Any (rewind_all get tail o m (level + 1) rs)
        → (x : Option Reader)
        → Holds {A = List Reader} Any (elim x [
          | none ↦ exited
          | some r' ↦ rewind_all get tail o m (level + 1) rs >>= λ rs'. polled (r' ∷ rs')
        ])
    go k none = tt
    go k (some r') = Holds-bind Any Any (rewind_all get tail o m (level + 1) rs) _ k (λ rs' u. tt)

scan_rounds-Holds :
    (o : Levels) (ms : List Memory) (prev : ℕ) (rs : List Reader)
    → Holds Any (scan_rounds o ms prev rs)
unfolding scan_rounds
scan_rounds-Holds o [] prev rs = tt
scan_rounds-Holds o (m ∷ ms) prev rs =
    let found = scan o m 0 rs no_choice in
    if-Holds Any (found.0 == prev) (polled found) (scan_rounds o ms found.0 rs) tt
      (scan_rounds-Holds o ms found.0 rs)

abbrev HasStatus : Status → Tail → Type 0
HasStatus s t = t.status ≡ s

to_initializing :
    (old : Status) (t : Tail)
    → t.status ≡ old
    → (is_initializing old ≡ true) ⊎ (is_ready old ≡ true)
    → Holds (HasStatus initializing) (change_status initializing old t)
unfolding change_status
to_initializing initializing t e h = e
to_initializing active t e h = ground (arith, h)
to_initializing delete_pending t e h = ground (arith, h)
to_initializing reinit_pending t e h = ground (arith, h)
to_initializing reinit_ready t e h = refl

to_active : (old : Status) (t : Tail) → old ≡ initializing → Holds Any (change_status active old t)
unfolding change_status
to_active initializing t e = tt
to_active active t e = tt
to_active delete_pending t e = ground (arith, ap is_initializing e)
to_active reinit_pending t e = ground (arith, ap is_initializing e)
to_active reinit_ready t e = ground (arith, ap is_initializing e)

initialize-Holds :
    (get : Messages) (tail : Bool) (o : Levels) (f : Mapped) (t : Tail)
    → (is_initializing t.status ≡ true) ⊎ (is_ready t.status ≡ true)
    → Holds Any (initialize get tail o f t)
unfolding initialize status_is
initialize-Holds get tail o f t h =
    Holds-bind (HasStatus initializing) Any (change_status initializing t.status t) _
      (to_initializing t.status t refl h)
      (λ t1 e.
        if-Holds Any f.is_usable _ _
          (Holds-bind Any Any
            (rewind_all get tail o f.mem 0 (make_readers 0 f.file_header_size f.log_sizes)) _
            (rewind_all-Holds get tail o f.mem 0 (make_readers 0 f.file_header_size f.log_sizes))
            (λ rs u.
              Holds-bind Any Any
                (change_status active t1.status
                  (record t1 { is_mapped = true; rbs = rs; tsc1 = f.tsc1 }))
                _ (to_active t1.status (record t1 { is_mapped = true; rbs = rs; tsc1 = f.tsc1 }) e)
                (λ t3 w. tt)))
          tt)

if_initializing :
    (get : Messages) (tail : Bool) (o : Levels) (f : Mapped) (t : Tail)
    → Holds Any (if is_initializing t.status then initialize get tail o f t else polled (true, t))
if_initializing get tail o f t = elim (Bool-cases (is_initializing t.status)) [
  | inl e ↦ rw e (initialize-Holds get tail o f t (inl e))
  | inr e ↦ rw e tt
]

if_ready :
    (get : Messages) (tail : Bool) (o : Levels) (f : Mapped) (t : Tail)
    → Holds Any (if is_ready t.status then initialize get tail o f t else polled (false, t))
if_ready get tail o f t = elim (Bool-cases (is_ready t.status)) [
  | inl e ↦ rw e (initialize-Holds get tail o f t (inr e))
  | inr e ↦ rw e tt
]

ensure_ready-Holds :
    (get : Messages) (tail : Bool) (o : Levels) (f : Mapped) (t : Tail)
    → Holds Any (ensure_ready get tail o f t)
unfolding ensure_ready
ensure_ready-Holds get tail o f t =
    Holds-bind Any Any
      (if is_initializing t.status then initialize get tail o f t else polled (true, t)) _
      (if_initializing get tail o f t)
      (λ p u.
        if-Holds Any (not p.0) _ _ tt
          (if-Holds Any p.1.is_mapped _ _ tt (if_ready get tail o f p.1)))

search-Holds :
    (get : Messages) (tail : Bool) (o : Levels) (f : Mapped) (t : Tail)
    → Holds Any (search get tail o f t)
unfolding search
search-Holds get tail o f t =
    Holds-bind Any Any (ensure_ready get tail o f t) _ (ensure_ready-Holds get tail o f t) (λ p u.
      if-Holds Any p.0 _ _
        (Holds-bind Any Any (scan_rounds o f.rounds uint64_max p.1.rbs) _
          (scan_rounds-Holds o f.rounds uint64_max p.1.rbs) (λ found w. tt))
        tt)

next_message-Holds :
    (get : Messages) (tail : Bool) (o : Levels) (f : Mapped) (t : Tail)
    → Holds Any (next_message get tail o f t)
unfolding next_message
next_message-Holds get tail o f t = go t.next.1
  where
    go :
        (x : Option ℕ)
        → Holds {A = Tail} Any (elim x [ some i ↦ polled t | none ↦ search get tail o f t ])
    go (some i) = tt
    go none = search-Holds get tail o f t

-- `nextTsc` never runs into the assertions of `statusIs`, whatever the state of the file.
pub next_message-asserts :
    (get : Messages) (tail : Bool) (o : Levels) (f : Mapped) (t : Tail)
    → next_message get tail o f t ≢ assertion
next_message-asserts get tail o f t e = subst (Holds Any) e (next_message-Holds get tail o f t)
