-- ===== src/Examples.antt =====
-- The concrete log, clock, formatter and files on which the theorems are tried.
use quicktrace_public.Base.{ℕ, true, false, List, [], ◌∷◌, none, some, Memory, Text, replicate}
use quicktrace_public.Counter.{MsgCounter, Counters}
use quicktrace_public.Backup.{ForeverLog, BackupIo}
use quicktrace_public.Ring.{Clock, Log}
use quicktrace_public.Ring.Fields.{field_format, Field, plain, optional, u32, str}
use quicktrace_public.Formatter.{MessageFormatter}
use quicktrace_public.Formatter.Stream.{OStream}
use quicktrace_public.Formatter.Basic.{Host}
use quicktrace_public.Formatter.Select.{
  Tables, built_in, formatters_by_id, lengths_by_id, select_formatter, select_length, select_opt,
}
use quicktrace_public.Formatter.Init.{
  ok, fail, make_formatter, init, skip_wall_clock, text_loop, add_placeholder, add_formatter,
}
use quicktrace_public.Formatter.Spec.{get_format_param_spec, is_set}
use quicktrace_public.Base.{find, is_prefix, ◌≡◌, refl}
use quicktrace_public.Reader.{Reader, Messages}
use quicktrace_public.Reader.Stored.{fields_format}
use quicktrace_public.Base.{if◌then◌else◌, ◌==◌}

abbrev pub zero_memory : Memory
zero_memory x = 0

abbrev pub on_counter : MsgCounter
on_counter = record { count = 0; last_tsc = 0; tsc_count = 0; tsc_self_count = 0 }

abbrev pub off_counter : MsgCounter
off_counter = record { count = 3; last_tsc = 2147483655; tsc_count = 0; tsc_self_count = 0 }

-- Message 7 is turned off.
abbrev pub counters : Counters
counters i = if i == 7 then off_counter else on_counter

abbrev pub io : BackupIo
io = record { src_open = true; stat_ok = true; dest_open = true; sent = true }

abbrev pub clock : Clock
clock = record { wrap_tsc = 5000000; mono = 7; utc = 9; now = 5000100; io = io }

abbrev pub forever : ForeverLog
forever = record { forever_log = true; path = b'/' ∷ b'f' ∷ []; index = 2; copies = 1 ∷ 0 ∷ [] }

abbrev pub log_at : ℕ → Log
log_at ptr = record {
  ring = record { buf = 1000; buf_end = 1512; ptr = ptr; msg_start = 0; has_file = true };
  file = record {
    mem = zero_memory;
    counters = counters;
    num_msg_counters = 512;
    stamp = record { tsc1 = 4; monotime1 = 5; utc1 = 6 };
    forever = forever;
  };
}

-- An empty log, and one that is about to wrap.
abbrev pub log : Log
log = log_at 1004

abbrev pub full_log : Log
full_log = log_at 1530

-- 7, and an optional "ab"
abbrev pub fields : List Field
fields = plain (u32 7) ∷ optional true (str (b'a' ∷ b'b' ∷ [])) ∷ []

abbrev pub long_field : Field
long_field = plain (str (replicate 240 b'x'))

abbrev pub host : Host
host = record {
  float_to_text = λ n. [];
  double_to_text = λ n. [];
  float_fixed = λ p n. [];
  double_fixed = λ p n. [];
  local_time = λ n. [];
}

abbrev pub stream : OStream
stream = record {
  out = [];
  failed = false;
  hex = false;
  showbase = false;
  showpos = false;
  fixed = false;
  fill = b' ';
  width = 0;
  precision = 6;
}

abbrev pub file_name : Text
file_name = b'a' ∷ b'.' ∷ b'c' ∷ []

-- "n=%d %s"
abbrev pub text : Text
text = b'n' ∷ b'=' ∷ b'%' ∷ b'd' ∷ b' ' ∷ b'%' ∷ b's' ∷ []

abbrev pub nobody : MessageFormatter × Tables
nobody = (
  record { filename = []; lineno = 0; msg = []; fmt = []; formatters = []; lengths = [] },
  built_in host,
)

abbrev pub made : List Field → MessageFormatter × Tables
made xs = elim (make_formatter (built_in host) file_name 12 text (fields_format xs)) [
  | ok r ↦ r
  | fail e ↦ nobody
]

pub made-fields :
    make_formatter (built_in host) file_name 12 text (fields_format fields)
    ≡ ok ((made fields).0, (made fields).1)
unfolding make_formatter init skip_wall_clock text_loop get_format_param_spec field_format
    add_placeholder add_formatter select_formatter find is_set built_in formatters_by_id
    select_length is_prefix lengths_by_id select_opt
made-fields = refl

-- Two strings of 130 characters, too long for the length byte of a message
abbrev pub long_fields : List Field
long_fields = plain (str (replicate 130 b'x')) ∷ plain (str (replicate 130 b'y')) ∷ []

pub made-long_fields :
    make_formatter (built_in host) file_name 12 text (fields_format long_fields)
    ≡ ok ((made long_fields).0, (made long_fields).1)
unfolding make_formatter init skip_wall_clock text_loop get_format_param_spec field_format
    add_placeholder add_formatter select_formatter find is_set built_in formatters_by_id
    select_length is_prefix lengths_by_id select_opt
made-long_fields = refl

abbrev pub formatter : MessageFormatter
formatter = (made fields).0

abbrev pub tables : Tables
tables = (made fields).1

-- Messages 5 and 6 are known.
abbrev pub messages : Messages
messages id =
    if id == 5 then some (made fields).0 else if id == 6 then some (made long_fields).0 else none

-- A reader in step with the empty log.
abbrev pub reader : Reader
reader = record { corruption = 0; level = 3; start = 1004; fin = 1512; cur = 1004; last_tsc = 10 }
