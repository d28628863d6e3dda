-- ===== src/Reader/Printed.antt =====
-- Every result of RingBuffer::dump of qttail.cpp: what it prints, and where the reader stands.
use quicktrace_public.Base.{ℕ, ◌+◌, ◌≤◌, ◌≡◌, refl, sym, ◌∙◌, ◌⊎◌, inl, inr, arith}
use quicktrace_public.Base.{Bool, true, false, Option, none, some, ◌∷◌, subst}
use quicktrace_public.Base.{◌!=◌, if◌then◌else◌, Memory}
use quicktrace_public.Formatter.{MessageFormatter, message_format}
use quicktrace_public.Formatter.Stream.{OStream}
use quicktrace_public.Reader.{
  Reader, Messages, Outcome, nothing, message, corrupt, next, next_tsc, invalid_length,
}
use quicktrace_public.Reader.Sound.{next-Accepted, next_tsc_read}
use quicktrace_public.Reader.Dump.{
  Options, Output, Line, Dumped, consumed, failed, broken, one_more, dump, dump_outcome,
  dump_message, finish_dump, wrapped, line_of, add_line, print_line, is_hidden,
}

-- One line with the time stamp, or none.
abbrev pub Prints : ℕ → Output → Output → Type 0
Prints tsc out out' = (out' ≡ out) ⊎ ((l : Line) × (l.tsc ≡ tsc) × (out'.lines ≡ l ∷ out.lines))

-- The result of a dump of the buffer whose next time stamp is `tsc`.
abbrev pub Dumps : Reader → ℕ → Output → Dumped → Type 0
Dumps r tsc out (consumed r' out') = (r.last_tsc ≤ tsc) × (r'.last_tsc ≡ tsc) × Prints tsc out out'
Dumps r tsc out (failed r') = r' ≡ one_more r
Dumps r tsc out (broken why out') = Prints tsc out out'

add_line-Prints :
    (o : Options) (r : Reader) (tsc : ℕ) (out : Output) (f : MessageFormatter) (os : OStream)
    → Prints tsc out (add_line o tsc f (line_of o r tsc tsc out f os) out)
unfolding add_line
add_line-Prints o r tsc out f os = go (is_hidden o f)
  where
    go :
        (b : Bool)
        → Prints tsc out (
            if b then out else record {
              last_printed_tsc = tsc;
              lines = line_of o r tsc tsc out f os ∷ out.lines;
            })
    go true = inl refl
    go false = inr (line_of o r tsc tsc out f os, unfold line_of in refl, refl)

print_line-Prints :
    (o : Options) (tsc : ℕ) (out : Output) (f : MessageFormatter) (l : Line)
    → l.tsc ≡ tsc
    → Prints tsc out (print_line o f l out)
unfolding print_line
print_line-Prints o tsc out f l e = go (is_hidden o f)
  where
    go : (b : Bool) → Prints tsc out (if b then out else record out { lines = l ∷ out.lines })
    go true = inl refl
    go false = inr (l, e, refl)

wrapped-last_tsc : (r : Reader) → (wrapped r).last_tsc ≡ r.last_tsc
unfolding wrapped
wrapped-last_tsc r = ground arith

finish_dump-Dumps :
    (o : Options) (m : Memory) (r : Reader) (tsc : ℕ) (out : Output) (f : MessageFormatter)
    (p : Option ℕ × OStream)
    → r.last_tsc ≤ tsc
    → Dumps r tsc out (finish_dump o m r tsc tsc out f p)
unfolding finish_dump
finish_dump-Dumps o m r tsc out f (none, os) h =
    print_line-Prints o tsc out f (record (line_of o r tsc tsc out f os) { is_whole = false })
      (unfold line_of in refl)
finish_dump-Dumps o m r tsc out f (some n, os) h = go (n + 12 != m (r.cur + (n + 12)))
  where
    go :
        (b : Bool)
        → Dumps r tsc out (
            if b
            then broken invalid_length (print_line o f (line_of o r tsc tsc out f os) out)
            else consumed
                (wrapped (record r { cur = r.cur + (13 + n); last_tsc = tsc; corruption = 0 }))
                (add_line o tsc f (line_of o r tsc tsc out f os) out))
    go true = print_line-Prints o tsc out f (line_of o r tsc tsc out f os) (unfold line_of in refl)
    go false = (
      h,
      wrapped-last_tsc (record r { cur = r.cur + (13 + n); last_tsc = tsc; corruption = 0 }),
      add_line-Prints o r tsc out f os,
    )

-- A dump of the buffer by whose next time stamp it was chosen prints at most that message, and only
-- if it is not older than the last one of the buffer.
pub dump-Dumps :
    (get : Messages) (o : Options) (m : Memory) (tsc cur_tsc : ℕ) (out : Output) (os : OStream)
    (r : Reader)
    → next_tsc m r ≡ tsc
    → Dumps r tsc out (dump get o m tsc cur_tsc out os r)
unfolding dump dump_outcome
dump-Dumps get o m tsc cur_tsc out os r e = go (next get o.tail m cur_tsc r) refl
  where
    known :
        (id : ℕ)
        → r.last_tsc ≤ tsc
        → (f : Option MessageFormatter) → Dumps r tsc out (dump_message o m r tsc tsc out os f)
    known id h none = unfold dump_message in inl refl
    known id h (some f) =
        unfold dump_message in
        finish_dump-Dumps o m r tsc out f (message_format f m (r.cur + 12) os) h

    go :
        (x : Outcome)
        → next get o.tail m cur_tsc r ≡ x
        → Dumps r tsc out (dump_outcome get o m r tsc out os x)
    go nothing k = refl
    go (message tsc' id) k =
        let a = next-Accepted get o.tail m cur_tsc r tsc' id k in
        let same : tsc' ≡ tsc = sym (next_tsc_read m r tsc' a.is_tsc a.not_older) ∙ e in
        let equal : (tsc != tsc) ≡ false = ground arith in
        rw (same, equal) (known id (subst (λ t. r.last_tsc ≤ t) same a.not_older) (get id))
    go (corrupt why) k = inl refl
