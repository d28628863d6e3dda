-- ===== src/Reader/RoundTrip.antt =====
-- What the writer traces, the reader finds: RingBuf of QuickTrace.cpp with RingBuffer of qttail.cpp.
use quicktrace_public.Base.{ℕ, ◌+◌, ◌%◌, ◌^◌, ◌≤◌, ◌<◌, ◌≡◌, ◌≢◌, refl, ◌∙◌, ap, ap₂, arith}
use quicktrace_public.Base.{subst, append_assoc, Text, Bool, List, [], ◌∷◌, ◌++◌, some}
use quicktrace_public.Base.{
  Memory, read, load, le_bytes, le_value, length, length-le_bytes, le_value-le_bytes,
}
use quicktrace_public.Formatter.{MessageFormatter, message_length}
use quicktrace_public.Formatter.Select.{Tables}
use quicktrace_public.Formatter.Init.{ok, make_formatter}
use quicktrace_public.Formatter.Agree.{Agrees}
use quicktrace_public.Ring.{Log, Clock, maybe_wrap}
use quicktrace_public.Ring.Fields.{Field, payload, trace_msg}
use quicktrace_public.Ring.Trace.{IsValid, IsOn, Message, trace_msg-Message, prepared, header_bytes}
use quicktrace_public.Ring.Bounds.{length-header}
use quicktrace_public.Reader.{
  refuse, invalid_length, is_valid_tsc, check_message, check_length, Reader, Messages, message,
  next, next_tsc, skip, moved, uint64_max,
}
use quicktrace_public.Reader.Sound.{Accepted, Accepted-next, is_last, next_tsc_read}
use quicktrace_public.Reader.Progress.{skip-Accepted}
use quicktrace_public.Reader.Stored.{fields_format, Holds, read-Holds, Holds-right}
use quicktrace_public.Reader.Lengths.{message_length-payload, Stock}

-- The part of a message's bytes that is read back as a word.
load-part : (m : Memory) (p n v : ℕ) → v < 256 ^ n → read m p n ≡ le_bytes n v → load m p n ≡ v
unfolding load
load-part m p n v h e = rw e (le_value-le_bytes n v h)

read-left : (m : Memory) (p : ℕ) (xs ys : List ℕ) → Holds m p (xs ++ ys) → read m p (length xs) ≡ xs
unfolding read
read-left m p [] ys h = refl
read-left m p (x ∷ xs) ys h = ap₂ ◌∷◌ h.0 (read-left m (p + 1) xs ys h.1)

-- The reader stands where the writer puts its next message, in the same ring.
pub record Follows (c : Clock) (l : Log) (r : Reader) : Type 0 where
  pub same_cur : r.cur ≡ (maybe_wrap c l).ptr
  pub same_fin : r.fin ≡ l.buf_end
  pub not_older : r.last_tsc ≤ c.now
  pub positive : 0 < c.now
  pub not_last : c.now < uint64_max

module _ (c : Clock) (max_len id : ℕ) (xs : List Field) (l : Log) (r : Reader) (v : IsValid l)
    (on : IsOn id l) (id_fits : id < 256 ^ 4) (follows : Follows c l r) where
  abbrev after : Log
  after = trace_msg c max_len id xs l

  abbrev size : ℕ
  size = length (payload max_len xs)

  written :
      Message
        (prepared c id l)
        after
        (maybe_wrap c l).ptr
        (header_bytes c.now id ++ payload max_len xs)
  written = trace_msg-Message c max_len id xs l v on

  held : Holds after.mem r.cur (header_bytes c.now id ++ payload max_len xs)
  held = rw follows.same_cur (read-Holds after.mem _ _ written.bytes)

  apart : Holds after.mem r.cur (le_bytes 8 c.now ++ (le_bytes 4 id ++ payload max_len xs))
  apart =
      subst (Holds after.mem r.cur)
        (append_assoc (le_bytes 8 c.now) (le_bytes 4 id) (payload max_len xs)) held

  tsc_read : load after.mem r.cur 8 ≡ c.now
  tsc_read =
      load-part after.mem r.cur 8 c.now (omega (arith, follows.not_last))
        (rw length-le_bytes at (read-left after.mem r.cur (le_bytes 8 c.now) _ apart))

  id_held : Holds after.mem (r.cur + 8) (le_bytes 4 id ++ payload max_len xs)
  id_held = rw length-le_bytes at (Holds-right after.mem r.cur (le_bytes 8 c.now) _ apart)

  id_read : load after.mem (r.cur + 8) 4 ≡ id
  id_read =
      load-part after.mem (r.cur + 8) 4 id id_fits
        (rw length-le_bytes at (read-left after.mem (r.cur + 8) (le_bytes 4 id) _ id_held))

  payload_held : Holds after.mem (r.cur + 12) (payload max_len xs)
  payload_held =
      let e : r.cur + 8 + 4 ≡ r.cur + 12 = omega arith in
      rw e at (rw length-le_bytes at (Holds-right after.mem (r.cur + 8) (le_bytes 4 id) _ id_held))

  behind : r.cur + 13 + size ≡ after.ptr
  behind =
      omega
        (arith, follows.same_cur, written.ptr_after, length-header c.now id (payload max_len xs))

  end_read : load after.mem (r.cur + 13 + size) 8 ≡ 0
  end_read =
      unfold load le_value in ap le_value (ap (λ p. read after.mem p 8) behind ∙ written.stop)

  length_read : after.mem (r.cur + (size + 12)) ≡ (size + 12) % 256
  length_read =
      let e : r.cur + (size + 12)
          ≡ (maybe_wrap c l).ptr + length (header_bytes c.now id ++ payload max_len xs) =
        omega (arith, follows.same_cur, length-header c.now id (payload max_len xs)) in
      let n : length (header_bytes c.now id ++ payload max_len xs) ≡ size + 12 =
        omega (arith, length-header c.now id (payload max_len xs)) in
      rw e (written.len ∙ ap (λ k. k % 256) n)

  stamp_read : next_tsc after.mem r ≡ c.now
  stamp_read = next_tsc_read after.mem r c.now tsc_read follows.not_older

  traced :
      (get : Messages) (tail : Bool) (cur_tsc : ℕ) (f : MessageFormatter)
      → get id ≡ some f
      → message_length f after.mem (r.cur + 12) ≡ some size
      → size + 12 < 256
      → c.now < cur_tsc
      → (a : Accepted get tail after.mem cur_tsc r c.now id) × (a.size ≡ size)
  traced get tail cur_tsc f known decoded short later = (
    record {
      is_tsc = tsc_read;
      positive = follows.positive;
      not_older = follows.not_older;
      not_later = later;
      is_id = id_read;
      formatter = f;
      known = known;
      size = size;
      decoded = decoded;
      size_byte = length_read ∙ omega arith;
      behind = is_last end_read;
    },
    refl,
  )

-- A message that the writer traces is the one that a reader in step with it finds: if the file's
-- message `id` has the traced types' formats and the arguments take fewer than 244 bytes, `next`
-- reports its time stamp and id, and `skip` goes to the writer's new position.
pub trace_msg-next :
    (c : Clock) (max_len id : ℕ) (xs : List Field) (l : Log) (r : Reader) (get : Messages)
    (tail : Bool) (cur_tsc : ℕ) (t u : Tables) (filename msg : Text) (lineno : ℕ)
    (f : MessageFormatter)
    → IsValid l
    → IsOn id l
    → id < 256 ^ 4
    → Follows c l r
    → Agrees t
    → Stock t
    → lineno ≢ 0
    → make_formatter t filename lineno msg (fields_format xs) ≡ ok (f, u)
    → get id ≡ some f
    → max_len < 256
    → length (payload max_len xs) < 244
    → c.now < cur_tsc
    → let l' = trace_msg c max_len id xs l in
      (next get tail l'.mem cur_tsc r ≡ message c.now id)
      × (skip get tail l'.mem r ≡ moved (record r { cur = l'.ptr; last_tsc = c.now }))
trace_msg-next c k id xs l r get tail cur_tsc t u filename msg lineno f v on fits follows agrees
      stock line made known small short later =
    let decoded =
      message_length-payload t u filename msg lineno k xs f _ (r.cur + 12) agrees stock line made
        small (payload_held c k id xs l r v on fits follows) in
    let (found, z) =
      traced c k id xs l r v on fits follows get tail cur_tsc f known decoded (omega arith) later in
    let (found', sized) =
      traced c k id xs l r v on fits follows get tail uint64_max f known decoded (omega arith)
        follows.not_last in
    (
      Accepted-next get tail _ cur_tsc r c.now id found,
      skip-Accepted get tail _ c.now id r found'
          ∙ ap (λ p. moved (record r { cur = p; last_tsc = c.now }))
              (omega (arith, sized, behind c k id xs l r v on fits follows)),
    )

-- A traced message whose arguments take 244 bytes or more is not reported by a reader that is in step
-- with the log: its length does not fit the length byte, so `next` refuses it for that. The
-- message's formatter is made, on a line other than 0 and by tables that agree and have the stock of
-- lengths, for the formats of the traced types; strings are cut at less than 256 bytes; the message
-- is enabled, its id has 32 bits, and its time stamp is before the current one.
pub trace_msg-oversize :
    (c : Clock) (max_len id : ℕ) (xs : List Field) (l : Log) (r : Reader) (get : Messages)
    (tail : Bool) (cur_tsc : ℕ) (t u : Tables) (filename msg : Text) (lineno : ℕ)
    (f : MessageFormatter)
    → IsValid l
    → IsOn id l
    → id < 256 ^ 4
    → Follows c l r
    → Agrees t
    → Stock t
    → lineno ≢ 0
    → make_formatter t filename lineno msg (fields_format xs) ≡ ok (f, u)
    → get id ≡ some f
    → max_len < 256
    → 244 ≤ length (payload max_len xs)
    → c.now < cur_tsc
    → next get tail (trace_msg c max_len id xs l).mem cur_tsc r ≡ refuse r invalid_length
unfolding next is_valid_tsc check_message check_length
trace_msg-oversize c k id xs l r get tail cur_tsc t u filename msg lineno f v on fits follows agrees
      stock line made known small long later =
    let decoded =
      message_length-payload t u filename msg lineno k xs f _ (r.cur + 12) agrees stock line made
        small (payload_held c k id xs l r v on fits follows) in
    rw
      (
        stamp_read c k id xs l r v on fits follows,
        id_read c k id xs l r v on fits follows,
        known,
        decoded,
        length_read c k id xs l r v on fits follows,
      )
      (ground (arith, follows.not_older, follows.positive))
