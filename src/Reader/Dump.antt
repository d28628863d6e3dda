-- ===== src/Reader/Dump.antt =====
-- RingBuffer::dump of qttail.cpp: one line of output, and the step to the next message.
use quicktrace_public.Base.{ℕ, ◌+◌, ◌-◌, ◌%◌, ◌^◌, Bool, true, false, ◌&&◌}
use quicktrace_public.Base.{List, ◌∷◌, Option, none, some, ◌==◌, ◌!=◌, leb, if◌then◌else◌, Memory}
use quicktrace_public.Formatter.{MessageFormatter, message_format}
use quicktrace_public.Formatter.Stream.{OStream}
use quicktrace_public.Reader.{
  Reader, Reason, invalid_data, invalid_length, Outcome, nothing, message, corrupt, Messages, next,
}

-- The options that `dump` looks at.
pub record Options : Type 0 where
  pub tail : Bool
  pub debug : Bool
  pub print_tsc : Bool
  pub print_file_line : Bool
  pub print_qt_file_name : Bool
  pub print_wall_clock_time : Bool

-- What a line of output has: `wall` is the place of the wall-clock time that stands for the time
-- stamp; the optional parts are there by option; `delta` is since the last line; a line that is not
-- whole ends with what `format` printed before it failed.
pub record Line : Type 0 where
  pub wall : Option ℕ
  pub tsc : ℕ
  pub level : ℕ
  pub order_tsc : Option ℕ
  pub raw_tsc : Option ℕ
  pub qt_name : Bool
  pub delta : ℕ
  pub file_line : Option (List ℕ × ℕ)
  pub text : OStream
  pub is_whole : Bool

-- `lastPrintedTsc_`, which all readers share, and the lines printed, the newest first.
pub record Output : Type 0 where
  pub last_printed_tsc : ℕ
  pub lines : List Line

-- The results of `dump`: consumed (also if only the order is to be looked at again), not decoded, a
-- CorruptionError, with what was printed before it.
pub data Dumped : Type 0 where
  consumed : Reader → Output → Dumped
  failed : Reader → Dumped
  broken : Reason → Output → Dumped

unfoldable pub wrapped : Reader → Reader
wrapped r = if leb r.fin r.cur then record r { cur = r.start } else r

abbrev on_option {ℓ} : {A : Type ℓ} → Bool → A → Option A
on_option b a = if b then some a else none

-- A message without a wall-clock time is hidden where those times are asked for.
abbrev pub is_hidden : Options → MessageFormatter → Bool
is_hidden o f = o.print_wall_clock_time && f.lineno != 0

unfoldable pub line_of : Options → Reader → ℕ → ℕ → Output → MessageFormatter → OStream → Line
line_of o r order_tsc tsc out f os = record {
  wall = on_option (f.lineno == 0 && o.print_wall_clock_time) (r.cur + 12);
  tsc = tsc;
  level = r.level;
  order_tsc = on_option o.debug order_tsc;
  raw_tsc = on_option o.print_tsc tsc;
  qt_name = o.print_qt_file_name;
  delta = (tsc + 2 ^ 64 - out.last_printed_tsc) % 2 ^ 64;
  file_line = on_option o.print_file_line (f.filename, f.lineno);
  text = os;
  is_whole = true;
}

unfoldable pub add_line : Options → ℕ → MessageFormatter → Line → Output → Output
add_line o tsc f line out =
    if is_hidden o f then out else record { last_printed_tsc = tsc; lines = line ∷ out.lines }

-- What a dump that fails has printed: the line is there before the length is looked at, but it is not
-- the last printed one. Not followed here: where the line is hidden, the stream's failbit stays set
-- behind the throw.
unfoldable pub print_line : Options → MessageFormatter → Line → Output → Output
print_line o f line out = if is_hidden o f then out else record out { lines = line ∷ out.lines }

-- The end of `dump`, with what `format` returned.
unfoldable pub finish_dump :
    Options → Memory → Reader → ℕ → ℕ → Output → MessageFormatter → Option ℕ × OStream → Dumped
unfolding wrapped line_of add_line print_line
finish_dump o m r order_tsc tsc out f (none, os) =
    broken invalid_data
      (print_line o f (record (line_of o r order_tsc tsc out f os) { is_whole = false }) out)
finish_dump o m r order_tsc tsc out f (some n, os) =
    if n + 12 != m (r.cur + (n + 12))
    then broken invalid_length (print_line o f (line_of o r order_tsc tsc out f os) out)
    else consumed (wrapped (record r { cur = r.cur + (13 + n); last_tsc = tsc; corruption = 0 }))
        (add_line o tsc f (line_of o r order_tsc tsc out f os) out)

-- A message that `next` accepted has a formatter; without one the code would not get this far.
unfoldable pub dump_message :
    Options → Memory → Reader → ℕ → ℕ → Output → OStream → Option MessageFormatter → Dumped
unfolding finish_dump
dump_message o m r order_tsc tsc out os none = broken invalid_data out
dump_message o m r order_tsc tsc out os (some f) =
    finish_dump o m r order_tsc tsc out f (message_format f m (r.cur + 12) os)

abbrev pub one_more : Reader → Reader
one_more r = record r { corruption = (r.corruption + 1) % 2 ^ 32 }

unfoldable pub dump_outcome :
    Messages → Options → Memory → Reader → ℕ → Output → OStream → Outcome → Dumped
unfolding dump_message
dump_outcome get o m r order_tsc out os nothing = failed (one_more r)
dump_outcome get o m r order_tsc out os (message tsc id) =
    if tsc != order_tsc
    then consumed (one_more r) out
    else dump_message o m r order_tsc tsc out os (get id)
dump_outcome get o m r order_tsc out os (corrupt why) = broken why out

unfoldable pub dump : Messages → Options → Memory → ℕ → ℕ → Output → OStream → Reader → Dumped
unfolding dump_outcome
dump get o m order_tsc cur_tsc out os r =
    dump_outcome get o m r order_tsc out os (next get o.tail m cur_tsc r)
