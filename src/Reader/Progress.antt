-- ===== src/Reader/Progress.antt =====
-- How qttail's RingBuffer goes on: `dump`, `skip` and `reset`.
use quicktrace_public.Base.{ℕ, ◌+◌, ◌≤◌, ◌<◌, ◌≡◌, refl, sym, ◌∙◌, ◌⊎◌, inl, inr, arith}
use quicktrace_public.Base.{Bool, true, false, Option, none, some, Bool-cases}
use quicktrace_public.Base.{◌==◌, ◌!=◌, Memory, subst}
use quicktrace_public.Formatter.{MessageFormatter, message_length, message_format}
use quicktrace_public.Formatter.Stream.{OStream}
use quicktrace_public.Reader.{Reader, Messages, message, next, uint64_max}
use quicktrace_public.Reader.{message_at, skip, moved, reset, skip_outcome, advance}
use quicktrace_public.Reader.Sound.{Accepted, next-Accepted, Accepted-next}
use quicktrace_public.Base.{leb, ◌≤◌, if◌then◌else◌, ◌&&◌, ◌∷◌}
use quicktrace_public.Reader.Dump.{
  finish_dump, Options, Output, consumed, dump, wrapped, line_of, add_line, dump_message,
}

-- The reader's position is in the part of the log where messages start.
abbrev pub IsInside : Reader → Type 0
IsInside r = (r.start ≤ r.cur) × (r.cur < r.fin)

finish_dump_lem :
    (o : Options) (m : Memory) (r : Reader) (tsc n : ℕ) (out : Output) (f : MessageFormatter)
    (p : Option ℕ × OStream)
    → p.0 ≡ some n
    → m (r.cur + (n + 12)) ≡ n + 12
    → finish_dump o m r tsc tsc out f p
      ≡ consumed
          (wrapped (record r { cur = r.cur + (13 + n); last_tsc = tsc; corruption = 0 }))
          (add_line o tsc f (line_of o r tsc tsc out f p.1) out)
unfolding finish_dump
finish_dump_lem o m r tsc n out f (none, os) e h = ground arith
finish_dump_lem o m r tsc n out f (some k, os) e h =
    let e' : k ≡ n = ground (arith, e) in rw e' (ground (arith, h))

wrapped-IsInside :
    (r : Reader)
    → r.start < r.fin
    → r.start ≤ r.cur
    → IsInside (wrapped r)
      × ((wrapped r).cur ≡ (if leb r.fin r.cur then r.start else r.cur))
      × ((wrapped r).last_tsc ≡ r.last_tsc)
      × ((wrapped r).corruption ≡ r.corruption)
unfolding wrapped
wrapped-IsInside r h k = ground arith

-- A complete message with the time stamp by which its log was chosen is printed, unless wall-clock
-- times are asked for and it has none, and the reader goes to the byte behind it, or to the start of
-- the log if that is in the trailer: it stays inside its log, remembers the time stamp, and counts
-- corruptions from zero again. `dump` does not throw where the formatter prints as many bytes as its
-- length says.
pub dump-Accepted :
    (get : Messages) (o : Options) (m : Memory) (cur_tsc tsc id : ℕ) (out : Output) (os : OStream)
    (r : Reader)
    → (a : Accepted get o.tail m cur_tsc r tsc id)
    → (message_format a.formatter m (r.cur + 12) os).0 ≡ message_length a.formatter m (r.cur + 12)
    → r.start < r.fin
    → r.start ≤ r.cur
    → (r' : Reader) × (out' : Output) × (dump get o m tsc cur_tsc out os r ≡ consumed r' out')
      × IsInside r'
      × (r'.cur ≡ (if leb r.fin (r.cur + (13 + a.size)) then r.start else r.cur + (13 + a.size)))
      × (r'.last_tsc ≡ tsc)
      × (r'.corruption ≡ 0)
      × (out' ≡ (
          if o.print_wall_clock_time && a.formatter.lineno != 0 then out else record {
            last_printed_tsc = tsc;
            lines =
                line_of o r tsc tsc out a.formatter (message_format a.formatter m (r.cur + 12) os).1
                ∷ out.lines;
          }))
unfolding dump dump_message add_line
dump-Accepted get o m c tsc id out os r a same full low =
    let same_order : (tsc != tsc) ≡ false = ground arith in
    let behind : Reader = record r {
      cur = r.cur + (13 + a.size);
      last_tsc = tsc;
      corruption = 0;
    } in
    let line =
      line_of o r tsc tsc out a.formatter (message_format a.formatter m (r.cur + 12) os).1 in
    let (inside, at', last, none_left) = wrapped-IsInside behind full (omega arith) in
    (
      wrapped behind,
      add_line o tsc a.formatter line out,
      rw (Accepted-next get o.tail m c r tsc id a, same_order, a.known)
          (finish_dump_lem o m r tsc a.size out a.formatter _ (same ∙ a.decoded) a.size_byte),
      inside,
      at',
      last,
      none_left,
      refl,
    )

message_at_known :
    (get : Messages) (m : Memory) (id a n : ℕ) (f : MessageFormatter)
    → get id ≡ some f
    → message_length f m a ≡ some n
    → message_at get m id a ≡ some n
message_at_known get m id a n f k d =
    subst (λ o. (elim o [ none ↦ none | some f' ↦ message_length f' m a ]) ≡ some n) (sym k) d

-- A message that `next` would accept is skipped: the reader moves past its 13 bytes of frame and its
-- payload, as long as the decoder of its id says, and remembers its time stamp.
pub skip-Accepted :
    (get : Messages) (tail : Bool) (m : Memory) (tsc id : ℕ) (r : Reader)
    → (a : Accepted get tail m uint64_max r tsc id)
    → skip get tail m r ≡ moved (record r { cur = r.cur + (13 + a.size); last_tsc = tsc })
unfolding skip skip_outcome advance
skip-Accepted get tail m tsc id r a =
    rw (Accepted-next get tail m uint64_max r tsc id a)
      (rw (message_at_known get m id (r.cur + 12) a.size a.formatter a.known a.decoded) refl)

-- After a reset the log is read again from its start, but only messages newer than the last are
-- reported, whatever the log now has; a reader at the start is not reset.
pub next-reset :
    (get : Messages) (tail : Bool) (m : Memory) (cur_tsc : ℕ) (r : Reader)
    → r.last_tsc < uint64_max
    → let (done, r') = reset r in
      ((done ≡ true)
        × (r'.cur ≡ r.start)
        × ((tsc id : ℕ) → next get tail m cur_tsc r' ≡ message tsc id → r.last_tsc < tsc))
      ⊎ ((done ≡ false) × (r' ≡ r) × (r.cur ≡ r.start))
unfolding reset
next-reset get tail m c r h = elim (Bool-cases (r.cur == r.start)) [
  | inl e ↦ inr (ground (arith, e))
  | inr e ↦ inl (
    ground (arith, e),
    ground (arith, e),
    λ tsc id k. newer e tsc id (next-Accepted get tail m c (reset r).1 tsc id k),
  )
]
  where
    newer :
        (r.cur == r.start ≡ false)
        → (tsc id : ℕ) → Accepted get tail m c (reset r).1 tsc id
        → r.last_tsc < tsc
    newer e tsc id a = ground (arith, e, a.not_older)
