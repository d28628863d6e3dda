-- ===== src/Formatter.antt =====
-- The decoder of messages: class MessageFormatter of MessageFormatter.h and MessageFormatter.cpp.
-- A length function reads the buffer and says how many bytes a parameter takes; a formatter does
-- so too and prints the parameter on a stream. The child modules have the functions for the basic
-- types, the tables by format letter, and `init`, which compiles a message's text.
pub mod Stream
pub mod Basic
pub mod Float
pub mod Select
pub mod Spec
pub mod Init
pub mod Agree
pub mod Paired
pub mod Compiled
pub mod Scanned
pub mod Fuel
mod Tests
use quicktrace_public.Base.{ℕ, ◌+◌, Bool, true, false, List, [], ◌∷◌, Option, none, some, Memory}
use quicktrace_public.Base.{◌==◌, if◌then◌else◌}
use Stream.{OStream}

-- `LengthType` and `FormatterType`: a memory, an address in it, and for the latter a stream.
abbrev pub LengthType : Type 0
LengthType = Memory → ℕ → ℕ

abbrev pub FormatterType : Type 0
FormatterType = Memory → ℕ → OStream → ℕ × OStream

-- An entry of `formatters_`: what is printed from the message's text, or a parameter to decode.
pub data Step : Type 0 where
  fixed_text : (OStream → OStream) → Step
  param : FormatterType → Step

-- `length`: -1 is `none`. `n` is what the parameters so far have taken.
unfoldable pub length_from : List LengthType → Memory → ℕ → ℕ → Option ℕ
length_from [] m buf n = some n
length_from (f ∷ fs) m buf n =
    let l = f m (buf + n) in
    let rest = length_from fs m buf (n + l) in if l == 0 then none else rest

-- `format`, with the stream as it is when the loop ends.
unfoldable pub format_from : List Step → Memory → ℕ → ℕ → OStream → Option ℕ × OStream
format_from [] m buf n os = (some n, os)
format_from (fixed_text g ∷ fs) m buf n os = format_from fs m buf n (g os)
format_from (param f ∷ fs) m buf n os =
    let (l, os') = f m (buf + n) os in
    let rest = format_from fs m buf (n + l) os' in if l == 0 then (none, os') else rest

-- A compiled message; the line number 0 marks a message with a wall-clock time.
pub record MessageFormatter : Type 0 where
  pub filename : List ℕ
  pub lineno : ℕ
  pub msg : List ℕ
  pub fmt : List ℕ
  pub formatters : List Step
  pub lengths : List LengthType

unfoldable pub message_length : MessageFormatter → Memory → ℕ → Option ℕ
unfolding length_from
message_length f m buf = length_from f.lengths m buf 0

unfoldable pub message_format : MessageFormatter → Memory → ℕ → OStream → Option ℕ × OStream
unfolding format_from
message_format f m buf os = format_from f.formatters m buf 0 os
