-- ===== src/Sizes/Layout.antt =====
-- The logs of a trace file lie one behind the other, and the reader finds them where the writer put
-- them: the constructor of TraceFile (QuickTrace.cpp) and Tail::initialize (qttail.cpp).
use quicktrace_public.Base.{ℕ, zero, suc, ◌+◌, ◌*◌, ◌%◌, ◌^◌, ◌≤◌, ◌<◌, ◌≡◌, refl, ap, ◌∙◌, arith}
use quicktrace_public.Base.{
  true, ◌&&◌, [], ◌∷◌, some, inl, inr, get_elem?, ltb, map, All, length, Bool-cases,
}
use quicktrace_public.Sizes.{
  SizeSpec, add_level_sizes, log_start, adjust_size_spec, limit_size, scale_size, sum_sizes,
  file_header_size,
}
use quicktrace_public.Sizes.{add_and_limit_sizes, scale_down_sizes, max_size}
use quicktrace_public.Reader.{Reader, make_reader}
use quicktrace_public.Tail.{make_readers}
use quicktrace_public.Ring.{Log, Clock, buf_is, trailer_size}

-- The sum of the sizes, without wrap-around.
abbrev pub total : SizeSpec → ℕ
total [] = 0
total (s ∷ ss) = s + total ss

-- The sizes are positive, and together less than four gigabytes.
abbrev pub Fits : SizeSpec → Type 0
Fits ss = All (λ s. 0 < s) ss × (total ss * 1024 < 2 ^ 32)

add_level_sizes-le : (i : ℕ) (ss : SizeSpec) → add_level_sizes i ss ≤ total ss
unfolding add_level_sizes
add_level_sizes-le zero ss = omega arith
add_level_sizes-le (suc i) [] = omega arith
add_level_sizes-le (suc i) (s ∷ ss) = ground (arith, add_level_sizes-le i ss)

get-le : (ss : SizeSpec) (i s : ℕ) → get_elem? ss i ≡ some s → add_level_sizes i ss + s ≤ total ss
unfolding add_level_sizes
get-le [] i s e = ground arith
get-le (k ∷ ks) zero s e = ground (arith, e)
get-le (k ∷ ks) (suc i) s e = ground (arith, get-le ks i s e)

-- Where the reader, which adds up unsigned sizes, finds a log.
unfoldable log_position : ℕ → SizeSpec → ℕ → ℕ
log_position at' ss i = at' + add_level_sizes i ss * 1024 % 2 ^ 32

-- Below two gigabytes the writer's signed offset is the same.
log_start-log_position :
    (at' : ℕ) (ss : SizeSpec) (i : ℕ)
    → total ss * 1024 < 2 ^ 31
    → log_start at' ss i ≡ log_position at' ss i
unfolding log_start log_position
log_start-log_position at' ss i h =
    let e : ltb (add_level_sizes i ss * 1024 % 2 ^ 32) (2 ^ 31) ≡ true =
      ground (arith, add_level_sizes-le i ss) in
    rw e refl

log_position-next :
    (at' k i : ℕ) (ks : SizeSpec)
    → (k + total ks) * 1024 < 2 ^ 32
    → log_position at' (k ∷ ks) (suc i) ≡ log_position (at' + k * 1024 % 2 ^ 32) ks i
unfolding log_position add_level_sizes
log_position-next at' k i ks h = omega (arith, add_level_sizes-le i ks)

make_readers-get :
    (level at' : ℕ) (ss : SizeSpec) (i s : ℕ)
    → total ss * 1024 < 2 ^ 32
    → get_elem? ss i ≡ some s
    → get_elem? (make_readers level at' ss) i
      ≡ some (make_reader (level + i) (log_position at' ss i) (log_position at' ss i + s * 1024))
unfolding make_readers
make_readers-get level at' [] i s h e = ground arith
make_readers-get level at' (k ∷ ks) zero s h e =
    let z : level + 0 ≡ level = omega arith in
    let b : log_position at' (k ∷ ks) 0 ≡ at' =
      unfold log_position add_level_sizes in omega arith in
    let k' : k ≡ s = ground (arith, e) in
    let w : s * 1024 % 2 ^ 32 ≡ s * 1024 = omega (arith, k') in rw (z, b, k', w) refl
make_readers-get level at' (k ∷ ks) (suc i) s h e =
    let z : level + suc i ≡ level + 1 + i = omega arith in
    rw (z, log_position-next at' k i ks h)
      (make_readers-get (level + 1) (at' + k * 1024 % 2 ^ 32) ks i s (omega arith) e)

-- A log ends where the next one starts or before, and all of them in the part of the file that is
-- mapped.
logs_apart :
    (at' : ℕ) (ss : SizeSpec) (i j s t : ℕ)
    → total ss * 1024 < 2 ^ 32
    → get_elem? ss i ≡ some s
    → get_elem? ss j ≡ some t
    → i < j
    → log_position at' ss i + s * 1024 ≤ log_position at' ss j
unfolding log_position add_level_sizes
logs_apart at' [] i j s t h e e' l = ground arith
logs_apart at' (k ∷ ks) i zero s t h e e' l = ground arith
logs_apart at' (k ∷ ks) zero (suc j) s t h e e' l = ground (arith, e, add_level_sizes-le j ks)
logs_apart at' (k ∷ ks) (suc i) (suc j) s t h e e' l =
    let rest = logs_apart at' ks i j s t (omega arith) e e' (omega arith) in
    omega (arith, rest, add_level_sizes-le i ks, add_level_sizes-le j ks)

-- Where the writer and the reader place log `i`, for sizes that are together less than two gigabytes
-- and a log whose size is not zero: the reader's start, end and position are those of the ring that
-- `bufIs` makes there; a later log starts behind it, and it ends in the mapped file.
pub log_places :
    (c : Clock) (l : Log) (at' : ℕ) (ss : SizeSpec) (i s : ℕ)
    → total ss * 1024 < 2 ^ 31
    → get_elem? ss i ≡ some s
    → 0 < s
    → let w = buf_is c (log_start at' ss i) (s * 1024) l in
      ((r : Reader) × (get_elem? (make_readers 0 at' ss) i ≡ some r)
        × (r.level ≡ i)
        × (r.start ≡ w.buf + 4)
        × (r.fin ≡ w.buf_end)
        × (r.cur ≡ w.ptr))
      × ((j t : ℕ)
          → get_elem? ss j ≡ some t
          → i < j
          → w.buf_end + trailer_size ≤ log_start at' ss j)
      × (at' ≤ w.buf)
      × (w.buf_end + trailer_size ≤ at' + total ss * 1024)
unfolding buf_is make_reader
log_places c l at' ss i s h e pos =
    let h' : total ss * 1024 < 2 ^ 32 = omega arith in
    let here = log_start-log_position at' ss i h in
    rw here (
      (
        make_reader (0 + i) (log_position at' ss i) (log_position at' ss i + s * 1024),
        make_readers-get 0 at' ss i s h' e,
        omega arith,
        refl,
        refl,
        refl,
      ),
      (λ j t e' k.
          let there = log_start-log_position at' ss j h in
          omega (arith, there, logs_apart at' ss i j s t h' e e' k)),
      unfold log_position in omega arith,
      unfold log_position in omega (arith, get-le ss i s e),
    )

sum_sizes-total :
    (acc : ℕ) (ss : SizeSpec) → acc + total ss < 2 ^ 32 → sum_sizes acc ss ≡ acc + total ss
unfolding sum_sizes
sum_sizes-total acc [] h = omega arith
sum_sizes-total acc (s ∷ ss) h =
    let e : (acc + s) % 2 ^ 32 ≡ acc + s = omega arith in
    rw e (sum_sizes-total (acc + s) ss (omega arith) ∙ omega arith)

-- A size from 1 to 16 MB
abbrev pub IsLimited : ℕ → Type 0
IsLimited s = (1 ≤ s) × (s ≤ 16384)

total-limited : (ss : SizeSpec) → All IsLimited ss → total ss ≤ length ss * 16384
total-limited [] h = omega arith
total-limited (s ∷ ss) h = omega (arith, h.0, total-limited ss h.1)

limited : (ss : SizeSpec) → All IsLimited (map (limit_size true) ss)
unfolding limit_size
limited [] = tt
limited (s ∷ ss) = (ground arith, limited ss)

scaled :
    (f : ℕ → ℕ) (ss : SizeSpec)
    → ((s : ℕ) → f s ≤ s)
    → All IsLimited ss
    → All IsLimited (map (scale_size f) ss)
unfolding scale_size
scaled f [] k h = tt
scaled f (s ∷ ss) k h = (ground (arith, k s, h.0), scaled f ss k h.1)

length-map : (f : ℕ → ℕ) (ss : SizeSpec) → length (map f ss) ≡ length ss
length-map f [] = refl
length-map f (s ∷ ss) = ap suc (length-map f ss)

abbrev Adjusted : ℕ → ℕ → ℕ × SizeSpec → Type 0
Adjusted counters n r =
    All IsLimited r.1
    × (length r.1 ≡ n)
    × (r.0 ≡ file_header_size counters + total r.1 * 1024)
    × (total r.1 * 1024 < 2 ^ 32)

mapped_size :
    (counters n : ℕ) (ts : SizeSpec)
    → n ≤ 10
    → counters ≤ 2 ^ 24
    → All IsLimited ts
    → length ts ≡ n
    → Adjusted counters n ((sum_sizes 0 ts * 1024 + file_header_size counters) % 2 ^ 32, ts)
unfolding file_header_size
mapped_size counters n ts few small h e =
    let bound : total ts ≤ 163840 = omega (arith, total-limited ts h, e) in
    let sum = sum_sizes-total 0 ts (omega arith) in (h, e, omega (arith, sum), omega arith)

-- `adjustSizeSpec` with a limit, for at most ten sizes and at most 2 ^ 24 message counters, if the
-- product of a size with the factor is no more than the size: every size is from 1 KB to 16 MB, there
-- are as many as before, and the size to map is that of the header, the counters and the logs,
-- without overflow.
pub adjust_size_spec-IsLimited :
    (scale : ℕ → ℕ → ℕ → ℕ) (memory_size counters : ℕ) (ss : SizeSpec)
    → length ss ≤ 10
    → ((a b s : ℕ) → scale a b s ≤ s)
    → counters ≤ 2 ^ 24
    → let r = adjust_size_spec scale memory_size true counters ss in
      All IsLimited r.1
      × (length r.1 ≡ length ss)
      × (r.0 ≡ file_header_size counters + total r.1 * 1024)
      × (total r.1 * 1024 < 2 ^ 32)
unfolding adjust_size_spec add_and_limit_sizes scale_down_sizes
adjust_size_spec-IsLimited scale mem counters ss few smaller small =
    elim (Bool-cases (true && ltb (max_size mem) (sum_sizes 0 ts))) [
      | inl e ↦ rw e (
          mapped_size counters (length ss) (map (scale_size f) ts) few small
            (scaled f ts (smaller _ _) (limited ss))
            (length-map (scale_size f) ts ∙ length-map (limit_size true) ss))
      | inr e ↦ rw e (
          mapped_size counters (length ss) ts few small (limited ss)
            (length-map (limit_size true) ss))
    ]
  where
    ts : SizeSpec
    ts = map (limit_size true) ss

    f : ℕ → ℕ
    f = scale (max_size mem) (sum_sizes 0 ts)
