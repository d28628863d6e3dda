-- ===== src/Ring/Bounds.antt =====
-- Where the writer may write: inside its ring, as long as messages are short enough.
use quicktrace_public.Base.{ℕ, ◌+◌, ◌-◌, ◌≤◌, ◌<◌, ◌≡◌, refl, ◌∙◌, arith}
use quicktrace_public.Base.{List, ◌++◌, length, ◌⊎◌, inl, inr}
use quicktrace_public.Base.{Memory, read, write, replicate, Bool-cases}
use quicktrace_public.Base.{
  write-fill, read-replicate, read-write_self, write-Outside, read-write_other,
}
use quicktrace_public.Base.{length-le_bytes, le_bytes}
use quicktrace_public.Counter.{is_off, counter_index}
use quicktrace_public.Ring.{Log, Clock, poke, maybe_wrap}
use quicktrace_public.Ring.{trailer_size, take_timestamp, buf_is}
use quicktrace_public.Ring.Fields.{Field, payload, trace_msg}
use quicktrace_public.Ring.Trace.{
  IsValid, IsOn, Message, trace_msg-Message, trace_msg_off, prepared,
}
use quicktrace_public.Ring.Trace.{maybe_wrap-IsValid, header_bytes}

-- The room for arguments: time stamp, id, arguments, length byte and stop mark fit the trailer even
-- if the message starts at the last byte before it.
abbrev pub max_payload : ℕ
max_payload = 236

-- A byte outside the ring of a log, its trailer included.
abbrev pub OutsideRing : Log → ℕ → Type 0
OutsideRing l x = (x < l.buf) ⊎ (l.buf_end + trailer_size ≤ x)

pub length-header : (tsc id : ℕ) (bs : List ℕ) → length (header_bytes tsc id ++ bs) ≡ 12 + length bs
unfolding le_bytes
length-header tsc id bs = omega arith

maybe_wrap_kept :
    (c : Clock) (l : Log) (x : ℕ) → IsValid l → OutsideRing l x → (maybe_wrap c l).mem x ≡ l.mem x
unfolding maybe_wrap poke take_timestamp
maybe_wrap_kept c l x v o = ground (
  arith,
  write-Outside (write l.mem l.ptr (replicate 8 255)) l.buf (le_bytes 4 (l.ptr - l.buf)) x,
  write-Outside l.mem l.ptr (replicate 8 255) x,
  length-le_bytes 4 (l.ptr - l.buf),
)

-- A message whose arguments take at most 236 bytes keeps the ring valid and writes nothing outside
-- it, whether it is turned on or off.
pub trace_msg-confined :
    (c : Clock) (max_len id : ℕ) (fs : List Field) (l : Log)
    → IsValid l
    → length (payload max_len fs) ≤ max_payload
    → let t = trace_msg c max_len id fs l in
      IsValid t × ((x : ℕ) → OutsideRing l x → t.mem x ≡ l.mem x)
trace_msg-confined c max_len id fs l v small =
    elim (Bool-cases (is_off (l.counters (counter_index l.num_msg_counters id)).last_tsc)) [
      | inl off ↦
          rw (trace_msg_off c max_len id fs l off)
            (omega (arith, maybe_wrap-IsValid c l v), λ x o. maybe_wrap_kept c l x v o)
      | inr on ↦ (
        valid (trace_msg-Message c max_len id fs l v on),
        λ x o. kept (trace_msg-Message c max_len id fs l v on) x o,
      )
    ]
  where
    body : List ℕ
    body = header_bytes c.now id ++ payload max_len fs

    valid :
        Message (prepared c id l) (trace_msg c max_len id fs l) (maybe_wrap c l).ptr body
        → IsValid (trace_msg c max_len id fs l)
    valid m =
        omega (arith, m, maybe_wrap-IsValid c l v, length-header c.now id (payload max_len fs))

    kept :
        Message (prepared c id l) (trace_msg c max_len id fs l) (maybe_wrap c l).ptr body
        → (x : ℕ) → OutsideRing l x
        → (trace_msg c max_len id fs l).mem x ≡ l.mem x
    kept m x o = ground (
      arith,
      m.kept x,
      maybe_wrap-IsValid c l v,
      length-header c.now id (payload max_len fs),
      maybe_wrap_kept c l x v o,
    )

maybe_wrap-ready : (c : Clock) (l : Log) → l.ptr < l.buf_end → maybe_wrap c l ≡ l
unfolding maybe_wrap
maybe_wrap-ready c l h = ground arith

-- Longer arguments spill: a message that starts at the last byte before the trailer and has 237 to
-- 243 bytes of arguments (a long string may have 241) zeroes the first byte behind its ring, where
-- the header of the next log stands.
pub trace_msg_spills :
    (c : Clock) (max_len id : ℕ) (fs : List Field) (l : Log)
    → IsValid l
    → IsOn id l
    → l.ptr + 1 ≡ l.buf_end
    → max_payload < length (payload max_len fs)
    → length (payload max_len fs) ≤ 243
    → (trace_msg c max_len id fs l).mem (l.buf_end + trailer_size) ≡ 0
trace_msg_spills c max_len id fs l v on last long short =
    let m = trace_msg-Message c max_len id fs l v on in
    let n : ℕ = length (payload max_len fs) in
    let e : (maybe_wrap c l).ptr ≡ l.ptr = rw (maybe_wrap-ready c l (omega arith)) in
    let at' : (trace_msg c max_len id fs l).ptr + (244 - n) ≡ l.buf_end + trailer_size =
      omega (arith, m.ptr_after, e, length-header c.now id (payload max_len fs)) in
    rw (← at') (read-replicate _ _ 8 0 (244 - n) m.stop (omega arith))

-- The four writes of `bufIs`.
abbrev blank : Memory → ℕ → ℕ → Memory
blank m buf size =
    write
      (write
        (write (write m (buf + size - trailer_size) (replicate trailer_size 255)) buf
          (replicate 8 255))
        buf (le_bytes 4 (buf - buf)))
      (buf + 4) (replicate 8 0)

buf_is-blank :
    (c : Clock) (buf size : ℕ) (l : Log) → (buf_is c buf size l).mem ≡ blank l.mem buf size
unfolding buf_is take_timestamp
buf_is-blank c buf size l = ground arith

blank_behind :
    (m : Memory) (buf size x : ℕ)
    → (x < buf) ⊎ (buf + 12 ≤ x)
    → blank m buf size x ≡ write m (buf + size - trailer_size) (replicate trailer_size 255) x
blank_behind m buf size x o = ground (
  arith,
  write-Outside
      (write
        (write (write m (buf + size - trailer_size) (replicate trailer_size 255)) buf
          (replicate 8 255))
        buf (le_bytes 4 (buf - buf)))
      (buf + 4) (replicate 8 0) x,
  write-Outside
      (write (write m (buf + size - trailer_size) (replicate trailer_size 255)) buf
        (replicate 8 255))
      buf (le_bytes 4 (buf - buf)) x,
  length-le_bytes 4 (buf - buf),
  write-Outside (write m (buf + size - trailer_size) (replicate trailer_size 255)) buf
      (replicate 8 255) x,
)

blank_header : (m : Memory) (buf size : ℕ) → read (blank m buf size) buf 4 ≡ replicate 4 0
unfolding le_bytes
blank_header m buf size =
    read-write_other _ (buf + 4) (replicate 8 0) buf 4 (inl (omega arith))
    ∙ read-write_self _ buf (le_bytes 4 (buf - buf))
    ∙ (let e : buf - buf ≡ 0 = omega arith in rw e refl)

-- `bufIs` makes a valid, empty ring of its part of the file: the time stamp at its start is zero,
-- its header says that it never wrapped, its trailer is all 0xff, and the file outside it is kept.
pub buf_is-empty :
    (c : Clock) (buf size : ℕ) (l : Log)
    → 0 < buf
    → 512 ≤ size
    → let r = buf_is c buf size l in
      IsValid r
      × (r.buf_end + trailer_size ≡ buf + size)
      × (r.ptr ≡ buf + 4)
      × (read r.mem (buf + 4) 8 ≡ replicate 8 0)
      × (read r.mem buf 4 ≡ replicate 4 0)
      × ((k : ℕ) → k < trailer_size → r.mem (buf + size - trailer_size + k) ≡ 255)
      × ((x : ℕ) → OutsideRing r x → r.mem x ≡ l.mem x)
buf_is-empty c buf size l pos big = (
  unfold buf_is in omega arith,
  unfold buf_is in omega arith,
  unfold buf_is in refl,
  rw (buf_is-blank c buf size l) (read-write_self _ (buf + 4) (replicate 8 0)),
  rw (buf_is-blank c buf size l) (blank_header l.mem buf size),
  λ k h. rw (buf_is-blank c buf size l) (
      blank_behind l.mem buf size _ (inr (omega arith))
      ∙ write-fill l.mem (buf + size - trailer_size) trailer_size 255 k h),
  λ x o. rw (buf_is-blank c buf size l) (
      blank_behind l.mem buf size x (unfold buf_is in ground arith)
      ∙ write-Outside l.mem (buf + size - trailer_size) (replicate trailer_size 255) x
          (unfold buf_is in ground arith)),
)
