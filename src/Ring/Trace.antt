-- ===== src/Ring/Trace.antt =====
-- What one traced message leaves in the ring: its place, its bytes, and what it keeps.
use quicktrace_public.Base.{ℕ, ◌+◌, ◌-◌, ◌%◌, ◌≤◌, ◌<◌, ◌≡◌, refl, ◌∙◌, arith}
use quicktrace_public.Base.{List, [], ◌∷◌, ◌++◌, length, true, false, inl}
use quicktrace_public.Base.{read, write, Outside, replicate}
use quicktrace_public.Base.{read-agree, read-write_self, write-Outside, write-at}
use quicktrace_public.Base.{le_bytes}
use quicktrace_public.Counter.{is_off, counter_index, update}
use quicktrace_public.Ring.{Log, Clock, push_bytes, poke, enabled, maybe_wrap}
use quicktrace_public.Ring.{start_msg, end_msg, trailer_size, hit}
use quicktrace_public.Ring.Fields.{Field, put_fields, payload, trace_msg}
use quicktrace_public.Ring.Layout.{
  Wrote, Wrote-trans, push_bytes-Wrote, put_fields-Wrote, put_fields_off,
}

-- The ring of a log lies in the file, has room for its header, and its pointer stands where eight
-- more bytes fit before the end of the trailer.
pub record IsValid (l : Log) : Type 0 where
  pub not_null : 0 < l.buf
  pub header : l.buf + 4 < l.buf_end
  pub low : l.buf + 4 ≤ l.ptr
  pub high : l.ptr + 8 ≤ l.buf_end + trailer_size

-- The counter of a message is not turned off.
abbrev pub IsOn : ℕ → Log → Type 0
IsOn id l = is_off (l.counters (counter_index l.num_msg_counters id)).last_tsc ≡ false

-- Time stamp and id
abbrev pub header_bytes : ℕ → ℕ → List ℕ
header_bytes tsc id = le_bytes 8 tsc ++ le_bytes 4 id

pub maybe_wrap-IsValid :
    (c : Clock) (l : Log)
    → IsValid l
    → let w = maybe_wrap c l in
      IsValid w × (w.ptr < l.buf_end) × (w.buf ≡ l.buf) × (w.buf_end ≡ l.buf_end)
unfolding maybe_wrap
maybe_wrap-IsValid c l v = ground arith

-- The log as the header of a message that is on is written into it.
abbrev pub prepared : Clock → ℕ → Log → Log
prepared c id l =
    let w = maybe_wrap c l in
    let i = counter_index l.num_msg_counters id in
    record w {
      ring = record (w.ring) { msg_start = w.ptr };
      file = record (w.file) { counters = update l.counters i (hit c.now (l.counters i)) };
    }

start_msg_on :
    (c : Clock) (id : ℕ) (l : Log)
    → IsOn id l
    → start_msg c id l ≡ push_bytes (header_bytes c.now id) (prepared c id l)
unfolding start_msg push_bytes
start_msg_on c id l on = rw on

-- The zero time stamp behind a message.
abbrev pub stopped : Log → Log
stopped l = record l { file = poke l.ptr (replicate 8 0) l.file }

abbrev pub length_byte : Log → ℕ
length_byte l = (l.ptr - l.msg_start) % 256

end_msg_on : (l : Log) → enabled l ≡ true → end_msg l ≡ stopped (push_bytes (length_byte l ∷ []) l)
unfolding end_msg push_bytes
end_msg_on l h = rw h

-- The message `body` stands at `p` in the log `l'`: its bytes, the length byte, and the stop mark
-- at the new pointer. The rest of the file is that of `w`.
pub record Message (w l' : Log) (p : ℕ) (body : List ℕ) : Type 0 where
  pub ptr_after : l'.ptr ≡ p + length body + 1
  pub bytes : read l'.mem p (length body) ≡ body
  pub len : l'.mem (p + length body) ≡ length body % 256
  pub stop : read l'.mem l'.ptr 8 ≡ replicate 8 0
  pub kept : (x : ℕ) → Outside p (length body + 9) x → l'.mem x ≡ w.mem x
  pub same_buf : l'.buf ≡ w.buf
  pub same_end : l'.buf_end ≡ w.buf_end
  pub same_counters : l'.counters ≡ w.counters
  pub same_num : l'.num_msg_counters ≡ w.num_msg_counters

closed_kept :
    (l : Log) (b x : ℕ) → Outside l.ptr 9 x → (stopped (push_bytes (b ∷ []) l)).mem x ≡ l.mem x
unfolding push_bytes poke
closed_kept l b x h =
    write-Outside (write l.mem l.ptr (b ∷ [])) (l.ptr + 1) (replicate 8 0) x (ground arith)
    ∙ write-Outside l.mem l.ptr (b ∷ []) x (ground arith)

closed_len : (l : Log) (b : ℕ) → (stopped (push_bytes (b ∷ []) l)).mem l.ptr ≡ b
unfolding push_bytes poke
closed_len l b =
    write-Outside (write l.mem l.ptr (b ∷ [])) (l.ptr + 1) (replicate 8 0) l.ptr (inl (omega arith))
    ∙ write-at l.mem l.ptr b []

end_msg-Message :
    (w l : Log) (body : List ℕ)
    → Wrote w l body
    → w.msg_start ≡ w.ptr
    → enabled w ≡ true
    → Message w (end_msg l) w.ptr body
unfolding push_bytes
end_msg-Message w l body h s on = rw (end_msg_on l on') record {
  ptr_after = omega (arith, h.ptr_moved);
  bytes =
      read-agree _ l.mem w.ptr (length body)
        (λ x p q. closed_kept l _ x (inl (omega (arith, h.ptr_moved))))
      ∙ h.bytes;
  len = rw (← h.ptr_moved) (closed_len l _ ∙ omega (arith, h.ptr_moved, h.same_start));
  stop = read-write_self _ (l.ptr + 1) (replicate 8 0);
  kept = λ x o. closed_kept l _ x (ground (arith, h.ptr_moved)) ∙ h.kept x (ground arith);
  same_buf = h.same_buf;
  same_end = h.same_end;
  same_counters = h.same_counters;
  same_num = h.same_num;
}
  where
    on' : enabled l ≡ true
    on' = unfold enabled in rw h.same_start on

prepared-enabled : (c : Clock) (id : ℕ) (l : Log) → IsValid l → enabled (prepared c id l) ≡ true
unfolding enabled
prepared-enabled c id l v = ground (arith, maybe_wrap-IsValid c l v)

-- A traced message that is turned on stands at the ring's position (the start, after a wrap): time
-- stamp, id, arguments, length byte, a zero time stamp behind it; every other byte of the file is
-- as it was before the message (and after the wrap), and the hit is counted.
pub trace_msg-Message :
    (c : Clock) (max_len id : ℕ) (fs : List Field) (l : Log)
    → IsValid l
    → IsOn id l
    → Message
        (prepared c id l)
        (trace_msg c max_len id fs l)
        (maybe_wrap c l).ptr
        (header_bytes c.now id ++ payload max_len fs)
unfolding trace_msg
trace_msg-Message c max_len id fs l v on =
    let w = prepared c id l in
    let en = prepared-enabled c id l v in
    let s = push_bytes (header_bytes c.now id) w in
    let h = push_bytes-Wrote (header_bytes c.now id) w in
    rw (start_msg_on c id l on) (
      end_msg-Message w (put_fields max_len fs s) _
        (Wrote-trans h (put_fields-Wrote max_len fs s (unfold enabled in rw h.same_start en))) refl
        en)

-- The log after the start of a message that is turned off.
abbrev pub passed : Clock → ℕ → Log → Log
passed c id l =
    let w = maybe_wrap c l in
    let i = counter_index l.num_msg_counters id in
    record w {
      ring = record (w.ring) { msg_start = 0 };
      file = record (w.file) { counters = update l.counters i (hit c.now (l.counters i)) };
    }

start_msg_off :
    (c : Clock) (id : ℕ) (l : Log)
    → is_off (l.counters (counter_index l.num_msg_counters id)).last_tsc ≡ true
    → start_msg c id l ≡ passed c id l
unfolding start_msg
start_msg_off c id l off = rw off

end_msg_off : (l : Log) → enabled l ≡ false → end_msg l ≡ l
unfolding end_msg
end_msg_off l h = rw h

-- A message turned off puts nothing into the ring: after a due wrap only its counter moves.
pub trace_msg_off :
    (c : Clock) (max_len id : ℕ) (fs : List Field) (l : Log)
    → is_off (l.counters (counter_index l.num_msg_counters id)).last_tsc ≡ true
    → trace_msg c max_len id fs l ≡ passed c id l
unfolding trace_msg enabled
trace_msg_off c max_len id fs l off =
    rw (start_msg_off c id l off)
      (rw (put_fields_off max_len fs (passed c id l) refl) (end_msg_off (passed c id l) refl))
