-- ===== src/Reader/Sound.antt =====
-- Which messages `next` of qttail's RingBuffer accepts, and what its callers do with them.
use quicktrace_public.Base.{
  ◌↔◌, ℕ, ◌+◌, ◌≤◌, ◌<◌, ◌≡◌, ◌≢◌, refl, ap, sym, subst, some_eq, ◌∙◌, ◌⊎◌, inl, inr, arith,
}
use quicktrace_public.Base.{Bool, true, false, not, leb, Bool-cases, Option, none, some}
use quicktrace_public.Base.{◌==◌, ◌!=◌, if◌then◌else◌, Memory, load}
use quicktrace_public.Formatter.{MessageFormatter, message_length}
use quicktrace_public.Reader.{
  Reader, Messages, Reason, Outcome, nothing, message, corrupt, next, next_tsc, is_valid_tsc,
  refuse, uint64_max,
}
use quicktrace_public.Reader.{stamp_behind, check_stamp, check_length, check_message}
use quicktrace_public.Reader.{invalid_tsc, invalid_length, invalid_next_tsc}

-- A time stamp that is zero, or between the message's and the current one.
abbrev Fits : ℕ → ℕ → ℕ → Type 0
Fits tsc cur_tsc t = (t ≡ 0) ⊎ ((tsc ≤ t) × (t ≤ cur_tsc))

-- What stands behind a message of time stamp `tsc` that ends at `pos`: nothing yet; inside the log, a
-- later message's time stamp; or in the trailer all ones, for a log that went on at its start. Only
-- when tailing, the stamp there must then be none or a later message's.
pub data Behind (tail : Bool) (m : Memory) (r : Reader) (cur_tsc tsc pos : ℕ) : Type 0 where
  is_last : load m pos 8 ≡ 0 → Behind tail m r cur_tsc tsc pos
  goes_on :
      pos < r.fin → tsc ≤ load m pos 8 → load m pos 8 ≤ cur_tsc → Behind tail m r cur_tsc tsc pos
  went_round :
      r.fin ≤ pos
      → load m pos 8 ≡ uint64_max
      → (tail ≡ true
          → (load m r.start 8 ≡ 0) ⊎ ((tsc ≤ load m r.start 8) × (load m r.start 8 ≤ cur_tsc)))
      → Behind tail m r cur_tsc tsc pos

-- A complete message stands at the reader's position.
pub record Accepted (get : Messages) (tail : Bool) (m : Memory) (cur_tsc : ℕ) (r : Reader)
    (tsc id : ℕ) : Type 0 where
  pub is_tsc : load m r.cur 8 ≡ tsc
  pub positive : 0 < tsc
  pub not_older : r.last_tsc ≤ tsc
  pub not_later : tsc < cur_tsc
  pub is_id : load m (r.cur + 8) 4 ≡ id
  pub formatter : MessageFormatter
  pub known : get id ≡ some formatter
  pub size : ℕ
  pub decoded : message_length formatter m (r.cur + 12) ≡ some size
  pub size_byte : m (r.cur + (size + 12)) ≡ size + 12
  pub behind : Behind tail m r cur_tsc tsc (r.cur + 13 + size)

-- A stamp that is not older than the last one is taken as it is.
pub next_tsc_read :
    (m : Memory) (r : Reader) (tsc : ℕ)
    → load m r.cur 8 ≡ tsc
    → r.last_tsc ≤ tsc
    → next_tsc m r ≡ tsc
unfolding next_tsc
next_tsc_read m r tsc e h = rw e (ground (arith, h))

next_tsc_stays : (m : Memory) (r : Reader) → next_tsc m r ≢ 0 → load m r.cur 8 ≡ next_tsc m r
unfolding next_tsc
next_tsc_stays m r h = ground (arith, h)

refuse-message : (r : Reader) (why : Reason) (tsc id : ℕ) → refuse r why ≢ message tsc id
unfolding refuse
refuse-message r why tsc id e = ground arith

Behind-stamp_behind :
    (tail : Bool) (m : Memory) (r : Reader) (c tsc pos : ℕ)
    → Behind tail m r c tsc pos
    → (t : ℕ) × (stamp_behind tail m r pos ≡ some t) × Fits tsc c t
unfolding stamp_behind
Behind-stamp_behind tail m r c tsc pos (is_last e) = (0, rw e refl, inl refl)
Behind-stamp_behind tail m r c tsc pos (goes_on inside low high) =
    let early : leb r.fin pos ≡ false = ground (arith, inside) in
    (load m pos 8, rw early (ground arith), inr (low, high))
Behind-stamp_behind true m r c tsc pos (went_round late ones at_start) =
    let past : leb r.fin pos ≡ true = ground (arith, late) in
    (load m r.start 8, rw (ones, past) refl, at_start refl)
Behind-stamp_behind false m r c tsc pos (went_round late ones at_start) =
    let past : leb r.fin pos ≡ true = ground (arith, late) in (0, rw (ones, past) refl, inl refl)

stamp_behind-Behind :
    (tail : Bool) (m : Memory) (r : Reader) (c tsc pos t : ℕ)
    → stamp_behind tail m r pos ≡ some t
    → Fits tsc c t
    → Behind tail m r c tsc pos
unfolding stamp_behind
stamp_behind-Behind tail m r c tsc pos t e f = elim (Bool-cases (load m pos 8 == 0)) [
  | inl z ↦ is_last (ground (arith, z))
  | inr z ↦
      let some_stamp : (load m pos 8 != 0) ≡ true = ground (arith, z) in
      elim (Bool-cases (leb r.fin pos)) [
        | inr early ↦
            let own : stamp_behind tail m r pos ≡ some (load m pos 8) =
              rw (stamp_behind, early, some_stamp) refl in
            let same = some_eq (load m pos 8) t (sym own ∙ e) in
            goes_on (ground (arith, early)) (ground (arith, f, same, z))
              (ground (arith, f, same, z))
        | inl past ↦ elim (Bool-cases (load m pos 8 == uint64_max)) [
          | inl ones ↦
              let at_start : stamp_behind tail m r pos
                  ≡ some (if tail then load m r.start 8 else 0) =
                rw (stamp_behind, past, some_stamp, ones) refl in
              let same = some_eq (if tail then load m r.start 8 else 0) t (sym at_start ∙ e) in
              went_round (ground (arith, past)) (ground (arith, ones)) (λ k.
                let start : (if tail then load m r.start 8 else 0) ≡ load m r.start 8 = rw k refl in
                subst (Fits tsc c) (sym same ∙ start) f)
          | inr other ↦
              let refused : stamp_behind tail m r pos ≡ none =
                rw (stamp_behind, past, some_stamp, other) refl in
              cc (sym refused ∙ e)
        ]
      ]
]

-- Where a message is complete, `next` reports it.
pub Accepted-next :
    (get : Messages) (tail : Bool) (m : Memory) (cur_tsc : ℕ) (r : Reader) (tsc id : ℕ)
    → Accepted get tail m cur_tsc r tsc id
    → next get tail m cur_tsc r ≡ message tsc id
unfolding next is_valid_tsc check_message check_length check_stamp
Accepted-next get tail m cur_tsc r tsc id a =
    let (t, behind, fits) = Behind-stamp_behind tail m r cur_tsc tsc _ a.behind in
    rw
      (next_tsc_read m r tsc a.is_tsc a.not_older, a.is_id, a.known, a.decoded, a.size_byte, behind)
      (ground (arith, a.positive, a.not_older, a.not_later, fits))

-- The parts of an outcome that is a message.
abbrev stamp_of : Outcome → ℕ
stamp_of nothing = 0
stamp_of (message tsc id) = tsc
stamp_of (corrupt why) = 0

abbrev id_of : Outcome → ℕ
id_of nothing = 0
id_of (message tsc id) = id
id_of (corrupt why) = 0

if-message :
    (r : Reader) (why : Reason) (b : Bool) (o : Outcome) (tsc id : ℕ)
    → (if b then refuse r why else o) ≡ message tsc id
    → (b ≡ false) × (o ≡ message tsc id)
if-message r why true o tsc id e = absurd (refuse-message r why tsc id e)
if-message r why false o tsc id e = (refl, e)

check_stamp_lem :
    (r : Reader) (c tsc id tsc' id' : ℕ) (o : Option ℕ)
    → check_stamp r c tsc id o ≡ message tsc' id'
    → (tsc ≡ tsc') × (id ≡ id') × (t : ℕ) × (o ≡ some t) × Fits tsc c t
unfolding check_stamp
check_stamp_lem r c tsc id tsc' id' none e = absurd (refuse-message r _ tsc' id' e)
check_stamp_lem r c tsc id tsc' id' (some t) e =
    let (b, k) = if-message r invalid_next_tsc _ (message tsc id) tsc' id' e in
    (ap stamp_of k, ap id_of k, t, refl, ground (arith, b))

check_length_lem :
    (tail : Bool) (m : Memory) (r : Reader) (c tsc id tsc' id' : ℕ) (o : Option ℕ)
    → check_length tail m r c tsc id o ≡ message tsc' id'
    → (tsc ≡ tsc')
      × (id ≡ id')
      × (n : ℕ) × (o ≡ some n)
      × (m (r.cur + (n + 12)) ≡ n + 12)
      × (t : ℕ) × (stamp_behind tail m r (r.cur + 13 + n) ≡ some t)
      × Fits tsc c t
unfolding check_length
check_length_lem tail m r c tsc id tsc' id' none e = absurd (refuse-message r _ tsc' id' e)
check_length_lem tail m r c tsc id tsc' id' (some n) e =
    let (b, k) = if-message r invalid_length (n + 12 != m (r.cur + (n + 12))) _ tsc' id' e in
    let (p, q, t, o, f) = check_stamp_lem r c tsc id tsc' id' _ k in
    (p, q, n, refl, ground (arith, b), t, o, f)

check_message_lem :
    (tail : Bool) (m : Memory) (r : Reader) (c tsc id tsc' id' : ℕ) (o : Option MessageFormatter)
    → check_message tail m r c tsc id o ≡ message tsc' id'
    → (tsc ≡ tsc')
      × (id ≡ id')
      × (f : MessageFormatter) × (o ≡ some f)
      × (n : ℕ) × (message_length f m (r.cur + 12) ≡ some n)
      × (m (r.cur + (n + 12)) ≡ n + 12)
      × (t : ℕ) × (stamp_behind tail m r (r.cur + 13 + n) ≡ some t)
      × Fits tsc c t
unfolding check_message
check_message_lem tail m r c tsc id tsc' id' none e = absurd (refuse-message r _ tsc' id' e)
check_message_lem tail m r c tsc id tsc' id' (some f) e =
    let (p, q, n, d, l, t, o, x) = check_length_lem tail m r c tsc id tsc' id' _ e in
    (p, q, f, refl, n, d, l, t, o, x)

if-nothing :
    (b : Bool) (o : Outcome) (tsc id : ℕ)
    → (if b then nothing else o) ≡ message tsc id
    → (b ≡ false) × (o ≡ message tsc id)
if-nothing true o tsc id e = ground arith
if-nothing false o tsc id e = (refl, e)

-- What `next` reports is a complete message at the reader's position.
pub next-Accepted :
    (get : Messages) (tail : Bool) (m : Memory) (cur_tsc : ℕ) (r : Reader) (tsc id : ℕ)
    → next get tail m cur_tsc r ≡ message tsc id
    → Accepted get tail m cur_tsc r tsc id
unfolding next is_valid_tsc
next-Accepted get tail m c r tsc id e =
    let (z, k) = if-nothing (next_tsc m r == 0) _ tsc id e in
    let (v, k') = if-message r invalid_tsc (not (is_valid_tsc (next_tsc m r) c r)) _ tsc id k in
    let (p, q, f, o, n, d, l, t, b, x) = check_message_lem tail m r c _ _ tsc id _ k' in
    record {
      is_tsc = next_tsc_stays m r (λ y. ground (arith, z, y)) ∙ p;
      positive = ground (arith, p, z);
      not_older = ground (arith, p, v);
      not_later = ground (arith, p, v);
      is_id = q;
      formatter = f;
      known = rw (← q) o;
      size = n;
      decoded = d;
      size_byte = l;
      behind = stamp_behind-Behind tail m r c tsc _ t b (rw (← p) x);
    }

-- `next` reports a message exactly where a complete one stands at the reader's position: a nonzero
-- time stamp that is not older than the last one and is before the current one, a known id, parameters
-- that decode, the length byte that says so, and behind it either zero; or, if the message ends inside
-- the log, a time stamp from the message's to the current one; or, if it ends in the trailer, all
-- ones, and when tailing such a time stamp or zero at the start of the log.
pub next-iff-Accepted :
    (get : Messages) (tail : Bool) (m : Memory) (cur_tsc : ℕ) (r : Reader) (tsc id : ℕ)
    → (next get tail m cur_tsc r ≡ message tsc id) ↔ Accepted get tail m cur_tsc r tsc id
next-iff-Accepted get tail m c r tsc id =
    (next-Accepted get tail m c r tsc id, Accepted-next get tail m c r tsc id)
