-- ===== src/Cat/Tests.antt =====
-- Two concrete files, the second with the earlier message.
use quicktrace_public.Base.{ℕ, ◌≡◌, refl, true, false, List, [], ◌∷◌, map}
use quicktrace_public.Examples.{messages, log, clock, fields, stream}
use quicktrace_public.Ring.Fields.{trace_msg}
use quicktrace_public.Reader.{Messages}
use quicktrace_public.Reader.Dump.{Options, Output, Line}
use quicktrace_public.Tail.{Levels, Mapped, Poll, polled, assertion, exited, no_round}
use quicktrace_public.Tail.Events.{Holds}
use quicktrace_public.Base.{write, le_bytes, load, find, is_prefix}
use quicktrace_public.Counter.{is_off, counter_index}
use quicktrace_public.Ring.{end_msg, enabled, start_msg, maybe_wrap, hit}
use quicktrace_public.Ring.Fields.{put_fields, field_format}
use quicktrace_public.Reader.{make_reader}
use quicktrace_public.Reader.Rewind.{rewind}
use quicktrace_public.Formatter.{message_length, message_format}
use quicktrace_public.Formatter.Basic.{
  length_u32, length_opt, length_string, format_u32, format_opt, format_string,
}
use quicktrace_public.Formatter.Select.{
  select_formatter, built_in, formatters_by_id, select_length, lengths_by_id, select_opt,
}
use quicktrace_public.Formatter.Init.{
  make_formatter, init, skip_wall_clock, text_loop, add_placeholder, add_formatter,
}
use quicktrace_public.Formatter.Spec.{get_format_param_spec, is_set}
use quicktrace_public.Cat.{cat}
use quicktrace_public.Cat.Order.{IsChronological, cat-IsChronological}

abbrev all_levels : Levels
all_levels = record { check_level = false; mask = 0 }

abbrev options : Options
options = record {
  tail = false;
  debug = false;
  print_tsc = true;
  print_file_line = false;
  print_qt_file_name = false;
  print_wall_clock_time = false;
}

-- A file with one message.
abbrev traced_at : ℕ → Messages × Mapped
traced_at now = (
  messages,
  record {
    is_usable = true;
    file_header_size = 1000;
    log_sizes = 1 ∷ [];
    tsc1 = 4;
    mem = (trace_msg (record clock { now = now }) 80 5 fields log).mem;
    rounds = [];
  },
)

abbrev files : List (Messages × Mapped)
files = traced_at 5000200 ∷ traced_at 5000100 ∷ []

cat-IsChronological_example :
    Holds (λ (out : Output). IsChronological out.lines) (cat all_levels options stream 9 files)
cat-IsChronological_example = cat-IsChronological all_levels options stream 9 files refl

abbrev printed : Poll Output → List ℕ
printed (polled out) = map (λ (l : Line). l.tsc) out.lines
printed assertion = []
printed exited = []
printed no_round = []

cat-test : printed (cat all_levels options stream 9 files) ≡ 5000200 ∷ 5000100 ∷ []
unfolding cat trace_msg end_msg enabled put_fields start_msg is_off counter_index maybe_wrap write
    le_bytes load rewind make_reader message_length message_format make_formatter init
    skip_wall_clock text_loop get_format_param_spec field_format add_placeholder add_formatter
    select_formatter find is_set built_in formatters_by_id select_length is_prefix lengths_by_id
    select_opt hit length_u32 length_opt length_string format_u32 format_opt format_string
cat-test = refl
