-- ===== src/Cat/Files.antt =====
-- A file between two messages, and with a choice made: what CatControl of qttail.cpp relies on.
use quicktrace_public.Base.{
  ℕ, ◌+◌, ◌≤◌, ◌<◌, ◌≡◌, refl, sym, ap, ◌∙◌, ◌⊎◌, inl, inr, arith, subst, some_eq,
}
use quicktrace_public.Base.{Bool, true, false, some}
use quicktrace_public.Base.{get_elem?, get_elem?-set_self, leb, leb→le, Bool-cases, get_elem?-set}
use quicktrace_public.Formatter.Stream.{OStream}
use quicktrace_public.Reader.{Reader, next_tsc, uint64_max}
use quicktrace_public.Reader.Dump.{
  Options, Output, Dumped, consumed, failed, broken, one_more, dump,
}
use quicktrace_public.Reader.Printed.{Prints, Dumps, dump-Dumps}
use quicktrace_public.Tail.{Tail, Choice, Levels, level_enabled, polled, no_choice, next_message}
use quicktrace_public.Tail.Buffer.{tail_buffer, after_dump, with_reader}
use quicktrace_public.Tail.Choice.{IsLowest}
use quicktrace_public.Tail.Events.{Holds, Holds-bind}
use quicktrace_public.Tail.Ready.{IsOpen, Searched, next_message-Searched, next_message_chosen}
use quicktrace_public.Cat.{CatFile, still, poll_file, dump_file}

-- What a buffer's next message may be after everything up to `bound` is printed: one that is not
-- older, or one that is refused, since it is older than the last of its own buffer.
abbrev pub NotEarly : ℕ → ℕ → Reader → Type 0
NotEarly bound tsc r = (bound ≤ tsc) ⊎ (tsc < r.last_tsc)

-- The choice of a file: buffer `i`, whose next message has the lowest time stamp.
pub record IsReady (o : Levels) (bound : ℕ) (f : CatFile) (tsc i : ℕ) : Type 0 where
  pub is_open : IsOpen f.tail
  pub is_chosen : f.tail.next ≡ (tsc, some i)
  pub is_low :
      (j : ℕ) (r : Reader)
      → get_elem? f.tail.rbs j ≡ some r
      → level_enabled o j ≡ true
      → (next_tsc f.mapped.mem r ≡ 0) ⊎ (tsc ≤ next_tsc f.mapped.mem r)
  pub reader : Reader
  pub is_there : get_elem? f.tail.rbs i ≡ some reader
  pub is_enabled : level_enabled o i ≡ true
  pub is_next : next_tsc f.mapped.mem reader ≡ tsc
  pub not_early : NotEarly bound tsc reader

-- The buffers of an open file.
abbrev Guarded : Levels → ℕ → CatFile → Type 0
Guarded o bound f =
    (j : ℕ) (r : Reader)
    → get_elem? f.tail.rbs j ≡ some r
    → level_enabled o j ≡ true
    → 0 < next_tsc f.mapped.mem r
    → NotEarly bound (next_tsc f.mapped.mem r) r

-- A file whose next choice is still to be made.
abbrev pub IsBetween : Levels → ℕ → CatFile → Type 0
IsBetween o bound f =
    (f.tail.next ≡ no_choice) × ((bound ≡ 0) ⊎ (IsOpen f.tail × Guarded o bound f))

-- The choice that a poll of the file makes, if any.
abbrev pub IsPolled : Levels → ℕ → CatFile → Type 0
IsPolled o bound f = (i : ℕ) → f.tail.next.1 ≡ some i → IsReady o bound f f.tail.next.0 i

Searched-IsReady :
    (o : Levels) (bound : ℕ) (f : CatFile) (t : Tail)
    → IsBetween o bound f
    → Searched o (still f.mapped) f.tail t
    → IsPolled o bound (record f { tail = t })
Searched-IsReady o bound f t (fresh, guard) s i e = go (s i e).0 (s i e).1 (s i e).2
  where
    at_zero : (j : ℕ) → level_enabled o (0 + j) ≡ level_enabled o j
    at_zero j = let z : 0 + j ≡ j = omega arith in ap (level_enabled o) z

    not_early :
        (j : ℕ) (r : Reader)
        → (IsOpen f.tail → t.rbs ≡ f.tail.rbs)
        → get_elem? t.rbs j ≡ some r
        → level_enabled o j ≡ true
        → 0 < next_tsc f.mapped.mem r
        → NotEarly bound (next_tsc f.mapped.mem r) r
    not_early j r same there on pos = elim guard [
      | inl z ↦ inl (omega arith)
      | inr (open', all) ↦ all j r (subst (λ rs. get_elem? rs j ≡ some r) (same open') there) on pos
    ]

    go :
        IsOpen t
        → IsLowest o f.mapped.mem 0 t.rbs no_choice t.next
        → (IsOpen f.tail → t.rbs ≡ f.tail.rbs)
        → IsReady o bound (record f { tail = t }) t.next.0 i
    go open' (least, all, inl none') same = cc (e, ap (λ (c : Choice). c.1) none')
    go open' (least, all, inr (j, r, there, on, k, pos, lt)) same =
        let chosen' : i ≡ 0 + j = some_eq i (0 + j) (sym e ∙ ap (λ (c : Choice). c.1) k) in
        let at' : j ≡ i = omega arith in
        let stamp : t.next.0 ≡ next_tsc f.mapped.mem r = ap (λ (c : Choice). c.0) k in
        record {
          is_open = open';
          is_chosen = λ n. (t.next.0, e n);
          is_low = λ j' r' there' on'. all j' r' there' (at_zero j' ∙ on');
          reader = r;
          is_there = subst (λ n. get_elem? t.rbs n ≡ some r) at' there;
          is_enabled = subst (λ n. level_enabled o n ≡ true) at' (sym (at_zero j) ∙ on);
          is_next = sym stamp;
          not_early =
              subst (λ n. NotEarly bound n r) (sym stamp)
                (not_early j r same there (sym (at_zero j) ∙ on) pos);
        }

pub poll_file-IsPolled :
    (o : Levels) (bound : ℕ) (f : CatFile)
    → IsBetween o bound f
    → Holds (IsPolled o bound) (poll_file o f)
unfolding poll_file
poll_file-IsPolled o bound f h =
    Holds-bind (Searched o (still f.mapped) f.tail) (IsPolled o bound)
      (next_message f.get false o (still f.mapped) f.tail) _
      (next_message-Searched f.get false o (still f.mapped) f.tail refl h.0)
      (λ t s. Searched-IsReady o bound f t h s)

-- A file with a choice is not searched again.
pub poll_file_chosen :
    (o : Levels) (f : CatFile) (tsc i : ℕ) → f.tail.next ≡ (tsc, some i) → poll_file o f ≡ polled f
unfolding poll_file
poll_file_chosen o f tsc i e =
    rw (next_message_chosen f.get false o (still f.mapped) f.tail i (ap (λ (c : Choice). c.1) e))

-- What a dump of a file with a choice made leaves: the file as it is, or one more message consumed,
-- which is not older than the bound.
abbrev pub Stays : Levels → ℕ → ℕ → ℕ → Output → CatFile × Output → Type 0
Stays o bound tsc i out p = IsReady o bound p.0 tsc i × (p.1 ≡ out)

abbrev pub Goes : Levels → ℕ → ℕ → Output → CatFile × Output → Type 0
Goes o bound tsc out p = (bound ≤ tsc) × IsBetween o tsc p.0 × Prints tsc out p.1

abbrev pub AfterDump : Levels → ℕ → ℕ → ℕ → Output → Bool × CatFile × Output → Type 0
AfterDump o bound tsc i out p =
    ((p.0 ≡ false) × Stays o bound tsc i out (p.1, p.2))
    ⊎ ((p.0 ≡ true) × Goes o bound tsc out (p.1, p.2))

module _ (o : Levels) (options : Options) (os : OStream) (bound tsc i : ℕ) (f : CatFile)
    (out : Output) (h : IsReady o bound f tsc i) where
  -- The file with another state of the chosen buffer.
  abbrev with : Reader → Tail
  with r' = with_reader i r' f.tail

  consumed-Guarded : (r' : Reader) → r'.last_tsc ≡ tsc → Guarded o tsc (record f { tail = with r' })
  consumed-Guarded r' last j r there on pos =
      elim (get_elem?-set f.tail.rbs i j h.reader r' r h.is_there there) [
        | inl (e, e') ↦
            let last' : r.last_tsc ≡ tsc = ap (λ (x : Reader). x.last_tsc) e' ∙ last in
            elim (Bool-cases (leb tsc (next_tsc f.mapped.mem r))) [
              | inl le ↦ inl (leb→le _ _ le)
              | inr gt ↦ inr (ground (arith, gt, last'))
            ]
        | inr there' ↦ elim (h.is_low j r there' on) [
          | inl z ↦ absurd (omega arith)
          | inr le ↦ inl le
        ]
      ]

  failed-IsReady : IsReady o bound (record f { tail = with (one_more h.reader) }) tsc i
  unfolding next_tsc
  failed-IsReady = record {
    is_open = h.is_open;
    is_chosen = h.is_chosen;
    is_low = λ j r there on.
        elim (get_elem?-set f.tail.rbs i j h.reader (one_more h.reader) r h.is_there there) [
          | inl (e, e') ↦
              inr (subst (λ x. tsc ≤ next_tsc f.mapped.mem x) (sym e') (omega (arith, h.is_next)))
          | inr there' ↦ h.is_low j r there' on
        ];
    reader = one_more h.reader;
    is_there = get_elem?-set_self f.tail.rbs i h.reader (one_more h.reader) h.is_there;
    is_enabled = h.is_enabled;
    is_next = h.is_next;
    not_early = h.not_early;
  }

  not_before : h.reader.last_tsc ≤ tsc → bound ≤ tsc
  not_before old = elim h.not_early [ inl le ↦ le | inr lt ↦ absurd (omega arith) ]

  after_dump-AfterDump :
      (d : Dumped)
      → Dumps h.reader tsc out d
      → options.tail ≡ false
      → Holds
          (λ (p : Bool × Tail × Output).
            AfterDump o bound tsc i out (p.0, record f { tail = p.1 }, p.2))
          (after_dump options i h.reader out f.tail d)
  unfolding after_dump
  after_dump-AfterDump (consumed r' out') (old, last, printed) e =
      inr (refl, (not_before old, (refl, inr (h.is_open, consumed-Guarded r' last)), printed))
  after_dump-AfterDump (failed r') k e = inl (
    refl,
    (subst (λ r. IsReady o bound (record f { tail = with r }) tsc i) (sym k) failed-IsReady, refl),
  )
  after_dump-AfterDump (broken why out') k e = rw e tt

  buffer_there :
      tail_buffer f.get options f.mapped.mem os tsc uint64_max i out f.tail
      ≡ after_dump options i h.reader out f.tail
          (dump f.get options f.mapped.mem tsc uint64_max out os h.reader)
  unfolding tail_buffer
  buffer_there = rw (h.is_there, tail_buffer)

  pub dump_file-AfterDump :
      options.tail ≡ false
      → Holds (AfterDump o bound tsc i out) (dump_file o options os tsc i f out)
  unfolding dump_file
  dump_file-AfterDump e =
      Holds-bind
        (λ (p : Bool × Tail × Output).
          AfterDump o bound tsc i out (p.0, record f { tail = p.1 }, p.2))
        (AfterDump o bound tsc i out)
        (tail_buffer f.get options f.mapped.mem os tsc uint64_max i out f.tail) _
        (rw buffer_there (
          after_dump-AfterDump (dump f.get options f.mapped.mem tsc uint64_max out os h.reader)
            (dump-Dumps f.get options f.mapped.mem tsc uint64_max out os h.reader h.is_next) e))
        (λ p k. k)

-- What is not before the choice may be printed first.
pub IsReady-raised :
    (o : Levels) (bound bound' : ℕ) (f : CatFile) (tsc i : ℕ)
    → bound' ≤ tsc
    → IsReady o bound f tsc i
    → IsReady o bound' f tsc i
IsReady-raised o bound bound' f tsc i le h = record {
  is_open = h.is_open;
  is_chosen = h.is_chosen;
  is_low = h.is_low;
  reader = h.reader;
  is_there = h.is_there;
  is_enabled = h.is_enabled;
  is_next = h.is_next;
  not_early = inl le;
}
