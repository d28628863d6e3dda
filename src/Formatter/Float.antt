-- ===== src/Formatter/Float.antt =====
-- Formatters that need the C library: floating point, and the wall-clock time of a message.
use quicktrace_public.Base.{ℕ, ◌+◌, ◌-◌, Bool, false, ◌||◌, List, [], ◌∷◌, ◌++◌}
use quicktrace_public.Base.{Memory, load, length, ◌==◌, if◌then◌else◌, dec_text}
use quicktrace_public.Base.{replicate}
use quicktrace_public.Formatter.{FormatterType}
use quicktrace_public.Formatter.Stream.{OStream, insert}
use quicktrace_public.Formatter.Basic.{Host, length_double, length_float}
use mathlib.Core.List.{reverse}

unfoldable pub has_period : List ℕ → Bool
has_period [] = false
has_period (c ∷ cs) = c == b'.' || has_period cs

unfoldable pub drop_zeros : List ℕ → List ℕ
drop_zeros [] = []
drop_zeros (c ∷ cs) = let rest = drop_zeros cs in if c == b'0' then rest else c ∷ cs

-- A zero behind the period is kept. The text is reversed.
unfoldable pub keep_one : List ℕ → List ℕ
keep_one [] = []
keep_one (c ∷ cs) = if c == b'.' then b'0' ∷ c ∷ cs else c ∷ cs

-- `float_to_string` on the text of `std::to_string`: 123.400000 is 123.4, 123.000000 is 123.0.
unfoldable pub trim_float : List ℕ → List ℕ
unfolding has_period drop_zeros keep_one
trim_float s = if has_period s then reverse (keep_one (drop_zeros (reverse s))) else s

module _ (h : Host) where
  unfoldable pub format_double : FormatterType
  unfolding length_double trim_float
  format_double m buf os =
      let v = load m buf 8 in
      (
        length_double m buf,
        insert (if os.fixed then h.double_fixed os.precision v else trim_float (h.double_to_text v))
            os,
      )

  unfoldable pub format_float : FormatterType
  unfolding length_float trim_float
  format_float m buf os =
      let v = load m buf 4 in
      (
        length_float m buf,
        insert (if os.fixed then h.float_fixed os.precision v else trim_float (h.float_to_text v))
            os,
      )

  -- `formatWallClockTimeStamp`: seconds, then microseconds in six digits.
  unfoldable pub wall_clock_stamp : Memory → ℕ → OStream → OStream
  wall_clock_stamp m buf os =
      let us = dec_text (load m (buf + 8) 8) in
      insert (replicate (6 - length us) b'0' ++ us) (insert (h.local_time (load m buf 8)) os)
