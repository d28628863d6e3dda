-- ===== src/Tail/Steps.antt =====
-- What `nextTsc`, `statusIs` and `tailBuffer` of qttail.cpp keep of a file that grows.
use quicktrace_public.Base.{ℕ, ◌<◌, ◌≡◌, refl, sym, ap, ◌∙◌, ◌⊎◌, inl, inr, arith}
use quicktrace_public.Base.{Bool, true, false, not, List, [], ◌∷◌, Option, none, some, Bool-cases}
use quicktrace_public.Base.{◌==◌, Memory, Text, text_eq, All, get_elem?}
use quicktrace_public.Formatter.Stream.{OStream}
use quicktrace_public.Reader.{Reader, Messages, uint64_max}
use quicktrace_public.Reader.Dump.{Options, Output, Dumped, consumed, failed, broken, dump}
use quicktrace_public.Tail.{
  Tail, Status, initializing, active, delete_pending, reinit_pending, reinit_ready, Choice, Levels,
  Mapped,
}
use quicktrace_public.Tail.{
  no_choice, Poll, polled, assertion, exited, no_round, chosen, idle, scan, scan_rounds, initialize,
  ensure_ready, search, make_readers, rewind_all, next_message, is_initializing, is_ready,
  change_status, status_is, drop_unread,
}
use quicktrace_public.Tail.Choice.{IsLowest, scan-IsLowest}
use quicktrace_public.Tail.Events.{Holds, Holds-bind, Holds-map, if-Holds, IsEvent}
use quicktrace_public.Tail.Ready.{
  if-Holds_cases, Ensured, ensure_ready-Ensured, Kept, to_initializing, to_active,
}
use quicktrace_public.Tail.Watch.{
  Watch, Kind, created, deleted, modified, other, is_waiting, any_waiting, set_status,
  update_status, watch_for_modifications_is, is_known, process,
}
use quicktrace_public.Tail.Asserts.{rewind_all-Holds}
use quicktrace_public.Tail.Buffer.{tail_buffer, after_dump}

-- A choice that names a ring buffer has a time stamp below the greatest.
abbrev pub IsLow : Tail → Type 0
IsLow t = (i : ℕ) → t.next.1 ≡ some i → t.next.0 < uint64_max

abbrev IsLowChoice : Choice → Type 0
IsLowChoice c = (i : ℕ) → c.1 ≡ some i → c.0 < uint64_max

-- A file after a step: it keeps the bound, and does not begin to wait.
abbrev pub Steps : Tail → Tail → Type 0
Steps t t' = (IsLow t → IsLow t') × (is_waiting t'.status ≡ true → is_waiting t.status ≡ true)

IsLow-again : (t t' : Tail) → t'.next ≡ t.next → IsLow t → IsLow t'
IsLow-again t t' e h i x = rw e (h i (sym (ap (λ (c : Choice). c.1) e) ∙ x))

pub Holds-and {ℓ} :
    {A : Type ℓ} (P Q : A → Type 0) (r : Poll A) → Holds P r → Holds Q r → Holds (λ a. P a × Q a) r
Holds-and P Q (polled a) h k = (h, k)
Holds-and P Q assertion h k = h
Holds-and P Q exited h k = tt
Holds-and P Q no_round h k = tt

scan-low : (o : Levels) (m : Memory) (rs : List Reader) → IsLowChoice (scan o m 0 rs no_choice)
scan-low o m rs i x = go (scan o m 0 rs no_choice) (scan-IsLowest o m 0 rs no_choice) x
  where
    go : (c : Choice) → IsLowest o m 0 rs no_choice c → c.1 ≡ some i → c.0 < uint64_max
    go c (low, all, inl e) x = cc (ap (λ (c : Choice). c.1) e, x)
    go c (low, all, inr (j, r, there, on, e, pos, lt)) x = rw e lt

scan_rounds-low :
    (o : Levels) (ms : List Memory) (prev : ℕ) (rs : List Reader)
    → Holds IsLowChoice (scan_rounds o ms prev rs)
unfolding scan_rounds
scan_rounds-low o [] prev rs = tt
scan_rounds-low o (m ∷ ms) prev rs =
    let found = scan o m 0 rs no_choice in
    if-Holds IsLowChoice (found.0 == prev) (polled found) (scan_rounds o ms found.0 rs)
      (scan-low o m rs) (scan_rounds-low o ms found.0 rs)

not_waiting :
    (t : Tail) (s : Status) → t.status ≡ s → is_waiting s ≡ false → is_waiting t.status ≡ false
not_waiting t s e h = ap is_waiting e ∙ h

initialize_waits :
    (get : Messages) (tail : Bool) (o : Levels) (f : Mapped) (t : Tail)
    → (is_initializing t.status ≡ true) ⊎ (is_ready t.status ≡ true)
    → Holds (λ p. is_waiting p.1.status ≡ false) (initialize get tail o f t)
unfolding initialize status_is is_waiting
initialize_waits get tail o f t h =
    Holds-bind (Kept initializing t) _ (change_status initializing t.status t) _
      (to_initializing t.status t refl h)
      (λ t1 k.
        if-Holds _ f.is_usable _ _
          (Holds-bind (λ rs. Unit) _
            (rewind_all get tail o f.mem 0 (make_readers 0 f.file_header_size f.log_sizes)) _
            (rewind_all-Holds get tail o f.mem 0 (make_readers 0 f.file_header_size f.log_sizes))
            (λ rs u.
              let t2 = record t1 { is_mapped = true; rbs = rs; tsc1 = f.tsc1 } in
              Holds-bind (Kept active t2) _ (change_status active t1.status t2) _
                (to_active t1.status t2 k.0) (λ t3 w. not_waiting t3 active w.0 refl)))
          (not_waiting t1 initializing k.0 refl))

abbrev Waited : Tail → Bool × Tail → Type 0
Waited t p = is_waiting p.1.status ≡ true → is_waiting t.status ≡ true

waited :
    (get : Messages) (tail : Bool) (o : Levels) (f : Mapped) (t t1 : Tail)
    → (is_initializing t1.status ≡ true) ⊎ (is_ready t1.status ≡ true)
    → Holds (Waited t) (initialize get tail o f t1)
waited get tail o f t t1 h =
    Holds-map _ (Waited t) _ (initialize_waits get tail o f t1 h) (λ p k x. ground (arith, k, x))

ensure_ready_waits :
    (get : Messages) (tail : Bool) (o : Levels) (f : Mapped) (t : Tail)
    → Holds (Waited t) (ensure_ready get tail o f t)
unfolding ensure_ready
ensure_ready_waits get tail o f t =
    Holds-bind (Waited t) (Waited t) _ _
      (if-Holds_cases (Waited t) (is_initializing t.status) _ _
        (λ e. waited get tail o f t t (inl e)) (λ e x. x))
      (λ p k. if-Holds (Waited t) (not p.0) _ _ k (
        if-Holds (Waited t) p.1.is_mapped _ _ k (
          if-Holds_cases (Waited t) (is_ready p.1.status) _ _
            (λ e. waited get tail o f t p.1 (inr e)) (λ e. k))))

chosen-Steps :
    (f : Mapped) (t t1 : Tail) (c : Choice)
    → IsLowChoice c
    → (is_waiting t1.status ≡ true → is_waiting t.status ≡ true)
    → Steps t (chosen f c t1)
unfolding idle
chosen-Steps f t t1 (tsc, some i) low k = (λ h. low, k)
chosen-Steps f t t1 (tsc, none) low k = go t1.status k
  where
    go :
        (s : Status)
        → (is_waiting s ≡ true → is_waiting t.status ≡ true)
        → Steps t (idle f (record t1 { status = s; next = (tsc, none) }))
    go initializing k = (λ h i x. cc, k)
    go active k = (λ h i x. cc, k)
    go delete_pending k = (λ h i x. cc, k)
    go reinit_pending k = (λ h i x. cc, k)
    go reinit_ready k = (λ h i x. cc, k)

search-Steps :
    (get : Messages) (tail : Bool) (o : Levels) (f : Mapped) (t : Tail)
    → Holds (Steps t) (search get tail o f t)
unfolding search
search-Steps get tail o f t =
    Holds-bind (λ p. Ensured t p × Waited t p) (Steps t) (ensure_ready get tail o f t) _
      (Holds-and (Ensured t) (Waited t) _ (ensure_ready-Ensured get tail o f t)
        (ensure_ready_waits get tail o f t))
      (λ p k.
        if-Holds (Steps t) p.0 _ _
          (Holds-bind IsLowChoice (Steps t) (scan_rounds o f.rounds uint64_max p.1.rbs) _
            (scan_rounds-low o f.rounds uint64_max p.1.rbs)
            (λ c low. chosen-Steps f t p.1 c low k.1))
          (IsLow-again t p.1 k.0.0.0, k.1))

-- `nextTsc`
pub next_message-Steps :
    (get : Messages) (tail : Bool) (o : Levels) (f : Mapped) (t : Tail)
    → Holds (Steps t) (next_message get tail o f t)
unfolding next_message
next_message-Steps get tail o f t = go t.next.1
  where
    go :
        (x : Option ℕ)
        → Holds (Steps t) (elim x [ some i ↦ polled t | none ↦ search get tail o f t ])
    go none = search-Steps get tail o f t
    go (some i) = (λ h. h, λ x. x)

-- `tailBuffer`
pub tail_buffer-Steps :
    (get : Messages) (o : Options) (m : Memory) (os : OStream) (tsc cur_tsc i : ℕ) (out : Output)
    (t : Tail)
    → Holds (λ p. Steps t p.1) (tail_buffer get o m os tsc cur_tsc i out t)
unfolding tail_buffer after_dump
tail_buffer-Steps get o m os tsc cur_tsc i out t = go (get_elem? t.rbs i)
  where
    dumped : (r : Reader) (d : Dumped) → Holds (λ p. Steps t p.1) (after_dump o i r out t d)
    dumped r (consumed r' out') = (λ h j x. cc, λ x. x)
    dumped r (failed r') = (λ h. h, λ x. x)
    dumped r (broken why out') = if-Holds (λ p. Steps t p.1) o.tail _ _ (λ h j x. cc, λ x. x) tt

    go :
        (x : Option Reader)
        → Holds {A = Bool × Tail × Output}
            (λ p. Steps t p.1)
            (elim x [
              | none ↦ exited
              | some r ↦ after_dump o i r out t (dump get o m tsc cur_tsc out os r)
            ])
    go none = tt
    go (some r) = dumped r (dump get o m tsc cur_tsc out os r)

change_status-next :
    (s old : Status) (t : Tail) → IsEvent s → Holds (λ t'. t'.next ≡ t.next) (change_status s old t)
unfolding change_status drop_unread
change_status-next initializing old t h = absurd h
change_status-next active old t h = absurd h
change_status-next delete_pending initializing t h = refl
change_status-next delete_pending active t h = refl
change_status-next delete_pending delete_pending t h = refl
change_status-next delete_pending reinit_pending t h = refl
change_status-next delete_pending reinit_ready t h = refl
change_status-next reinit_pending initializing t h = refl
change_status-next reinit_pending active t h = refl
change_status-next reinit_pending delete_pending t h = refl
change_status-next reinit_pending reinit_pending t h = refl
change_status-next reinit_pending reinit_ready t h = refl
change_status-next reinit_ready initializing t h = refl
change_status-next reinit_ready active t h = refl
change_status-next reinit_ready delete_pending t h = refl
change_status-next reinit_ready reinit_pending t h = refl
change_status-next reinit_ready reinit_ready t h = refl

abbrev pub AllLow : List (Text × Tail) → Type 0
AllLow ts = All (λ (x : Text × Tail). IsLow x.1) ts

set_status-AllLow :
    (k : Text) (s : Status) (ts : List (Text × Tail))
    → IsEvent s
    → AllLow ts
    → Holds AllLow (set_status k s ts)
unfolding set_status status_is
set_status-AllLow k s [] h low = low
set_status-AllLow k s ((j, t) ∷ ts) h low =
    if-Holds AllLow (text_eq k j) _ _
      (Holds-bind _ AllLow (change_status s t.status t) _ (change_status-next s t.status t h)
        (λ t' e. (IsLow-again t t' e low.0, low.1)))
      (Holds-bind AllLow AllLow (set_status k s ts) _ (set_status-AllLow k s ts h low.1)
        (λ ts' l. (low.0, l)))

abbrev pub LowTails : Watch → Type 0
LowTails w = AllLow w.tails

update_status-LowTails :
    (k : Text) (s : Status) (w : Watch)
    → IsEvent s
    → LowTails w
    → Holds LowTails (update_status k s w)
unfolding update_status
update_status-LowTails k s w h low =
    Holds-bind AllLow LowTails (set_status k s w.tails) _ (set_status-AllLow k s w.tails h low)
      (λ ts l. l)

switched-LowTails :
    (on : Bool) (w : Watch) → LowTails w → LowTails (watch_for_modifications_is on w)
unfolding watch_for_modifications_is
switched-LowTails on w low = elim (Bool-cases (any_waiting w.tails)) [
  | inl e ↦ rw e low
  | inr e ↦ rw e low
]

-- An event
pub process-LowTails :
    (kind : Kind) (name : Text) (w : Watch) → LowTails w → Holds LowTails (process kind name w)
unfolding process
process-LowTails created name w low =
    if-Holds LowTails (is_known name w) _ _
      (update_status-LowTails name reinit_pending _ tt (switched-LowTails true w low)) low
process-LowTails deleted name w low =
    if-Holds LowTails (is_known name w) _ _
      (update_status-LowTails name delete_pending _ tt (switched-LowTails false w low)) low
process-LowTails modified name w low =
    if-Holds LowTails (is_known name w) _ _
      (Holds-bind LowTails LowTails (update_status name reinit_ready w) _
        (update_status-LowTails name reinit_ready w tt low) (λ w' l. switched-LowTails false w' l))
      low
process-LowTails other name w low = low
