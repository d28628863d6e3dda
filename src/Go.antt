-- ===== src/Go.antt =====
-- A whole message traced by a Go program in a single call: GoQuickTrace_fullMsg of QuickTrace.cpp.
mod Encoded
mod Tests
use quicktrace_public.Base.{ℕ, ◌+◌, ◌/◌, ◌%◌, ◌^◌, Bool, true, false, List, [], ◌∷◌}
use quicktrace_public.Base.{◌==◌, if◌then◌else◌, Memory, load, read}
use quicktrace_public.Ring.{Log, Clock, start_msg, end_msg, enabled}
use quicktrace_public.Ring.Fields.{Arg, u8, u16, u32, u64, float, double, boolean, str, put}

-- The masks, each above ten bits that hold the length of a string.
abbrev pub mask_shift : ℕ
mask_shift = 10

-- An argument in the buffer at `a` and the step to the next. A string is read up to its terminating
-- zero, and no further than `put` copies.
unfoldable pub go_argument : ℕ → Memory → ℕ → ℕ → Arg × ℕ
go_argument max_len args a len =
    let mask = len / 2 ^ mask_shift in
    if mask == 1
    then (u8 (load args a 1), 1)
    else if mask == 2
    then (u16 (load args a 2), 2)
    else if mask == 3
    then (u32 (load args a 4), 4)
    else if mask == 4
    then (u64 (load args a 8), 8)
    else if mask == 5
    then (float (load args a 4), 4)
    else if mask == 6
    then (double (load args a 8), 8)
    else if mask == 7
    then (boolean (load args a 1), 1)
    else (str (read args a max_len), len + 1)

-- The loop over the arguments; `offset` is a `uint32_t`.
unfoldable pub put_arguments : ℕ → Memory → ℕ → List ℕ → Log → Log
put_arguments max_len args offset [] l = l
put_arguments max_len args offset (len ∷ lens) l =
    let (a, size) = go_argument max_len args offset len in
    put_arguments max_len args ((offset + size) % 2 ^ 32) lens (put max_len a l)

-- The result is the time stamp that the caller gets back, and the log.
unfoldable pub full_msg : Clock → ℕ → ℕ → Memory → List ℕ → Log → ℕ × Log
unfolding put_arguments enabled go_argument put
full_msg c max_len id args lens l =
    let started = start_msg c id l in
    (
      c.now,
      if enabled started then end_msg (put_arguments max_len args 0 lens started) else started,
    )
