-- ===== src/Sizes.antt =====
-- The sizes of a trace file's logs and where each lies: SizeSpec of QuickTraceFileHeader.h, and
-- addAndLimitSizes, addLevelSizes, scaleDownSizes, adjustSizeSpec, the constructor of TraceFile and
-- TraceHandle::resize of QuickTrace.cpp. A size is in kilobytes.
pub mod Layout
pub mod Parse
pub mod Lists
mod Tests
use quicktrace_public.Base.{
  ℕ, zero, suc, ◌+◌, ◌-◌, ◌*◌, ◌/◌, ◌%◌, ◌^◌, Bool, true, false, ◌&&◌, ◌||◌, not,
}
use quicktrace_public.Base.{List, [], ◌∷◌, ◌==◌, ltb, leb, if◌then◌else◌, map}
use quicktrace_public.Ring.{Log, Clock, buf_is}

abbrev pub SizeSpec : Type 0
SizeSpec = List ℕ

-- `operator==`
unfoldable pub same_sizes : SizeSpec → SizeSpec → Bool
same_sizes [] [] = true
same_sizes [] (t ∷ ts) = false
same_sizes (s ∷ ss) [] = false
same_sizes (s ∷ ss) (t ∷ ts) = s == t && same_sizes ss ts

unfoldable pub limit_size : Bool → ℕ → ℕ
limit_size limit s = if ltb 16384 s && limit then 16384 else if s == 0 then 1 else s

-- A sum of `uint32_t`.
unfoldable pub sum_sizes : ℕ → SizeSpec → ℕ
sum_sizes acc [] = acc
sum_sizes acc (s ∷ ss) = sum_sizes ((acc + s) % 2 ^ 32) ss

unfoldable pub add_and_limit_sizes : Bool → SizeSpec → ℕ × SizeSpec
unfolding limit_size sum_sizes
add_and_limit_sizes limit ss = let ts = map (limit_size limit) ss in (sum_sizes 0 ts, ts)

-- The sum of the first `n` sizes.
unfoldable pub add_level_sizes : ℕ → SizeSpec → ℕ
add_level_sizes zero ss = 0
add_level_sizes (suc n) [] = 0
add_level_sizes (suc n) (s ∷ ss) = (s + add_level_sizes n ss) % 2 ^ 32

-- `scale` is the product with the factor, a float, as an integer.
unfoldable pub scale_size : (ℕ → ℕ) → ℕ → ℕ
scale_size scale s = if ltb (scale s) 1 then 1 else scale s

unfoldable pub scale_down_sizes : (ℕ → ℕ) → SizeSpec → ℕ × SizeSpec
unfolding scale_size sum_sizes
scale_down_sizes scale ss = let ts = map (scale_size scale) ss in (sum_sizes 0 ts, ts)

-- sizeof( TraceFileHeader ) and sizeof( MsgCounter )
abbrev pub trace_file_header_size : ℕ
trace_file_header_size = 104

abbrev pub msg_counter_size : ℕ
msg_counter_size = 24

-- In kilobytes: 32 MB, or 512 KB on a machine with at most 4 GB.
unfoldable pub max_size : ℕ → ℕ
max_size memory_size = if leb memory_size (2 ^ 32 / 1024) then 512 else 32 * 1024

unfoldable pub file_header_size : ℕ → ℕ
file_header_size num_msg_counters = trace_file_header_size + num_msg_counters * msg_counter_size

-- `adjustSizeSpec`: the mapped size and the sizes; `scale` takes the factor's two parts.
unfoldable pub adjust_size_spec : (ℕ → ℕ → ℕ → ℕ) → ℕ → Bool → ℕ → SizeSpec → ℕ × SizeSpec
unfolding add_and_limit_sizes scale_down_sizes max_size file_header_size
adjust_size_spec scale memory_size limit counters ss =
    let (sz, ts) = add_and_limit_sizes limit ss in
    let scaled = scale_down_sizes (scale (max_size memory_size) sz) ts in
    let r = if limit && ltb (max_size memory_size) sz then scaled else (sz, ts) in
    ((r.0 * 1024 + file_header_size counters) % 2 ^ 32, r.1)

-- The start of a log behind the header, as the constructor of TraceFile computes it for each level.
-- The offset is an `int`: from two gigabytes on it is negative, and the address wraps around.
unfoldable pub log_start : ℕ → SizeSpec → ℕ → ℕ
unfolding add_level_sizes
log_start log_base ss i =
    let level_offset = add_level_sizes i ss * 1024 % 2 ^ 32 in
    if ltb level_offset (2 ^ 31)
    then log_base + level_offset
    else (log_base + (2 ^ 64 - 2 ^ 32 + level_offset)) % 2 ^ 64
