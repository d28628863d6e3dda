-- ===== src/Tail/Tests.antt =====
-- A tailed directory with concrete files and events.
use quicktrace_public.Base.{◌≡◌, arith, true, false, [], ◌∷◌}
use quicktrace_public.Examples.{reader, zero_memory, file_name, log, clock, fields}
use quicktrace_public.Ring.Fields.{trace_msg}
use quicktrace_public.Reader.{uint64_max}
use quicktrace_public.Tail.{
  Tail, Levels, Mapped, Choice, polled, no_choice, reinit_ready, active, scan_rounds,
}
use quicktrace_public.Tail.Choice.{IsLowest, scan_rounds-still}
use quicktrace_public.Tail.Watch.{is_waiting, any_waiting, Watch}
use quicktrace_public.Tail.Events.{IsWatching}
use quicktrace_public.Base.{Memory}

abbrev all_levels : Levels
all_levels = record { check_level = false; mask = 0 }

abbrev traced : Memory
traced = (trace_msg clock 80 5 fields log).mem

scan_rounds-still_example :
    (c : Choice) × (scan_rounds all_levels (traced ∷ traced ∷ []) uint64_max (reader ∷ [])
      ≡ polled c)
    × IsLowest all_levels traced 0 (reader ∷ []) no_choice c
scan_rounds-still_example = scan_rounds-still all_levels traced [] (reader ∷ [])

abbrev tail : Tail
tail = record { status = active; is_mapped = true; next = no_choice; rbs = reader ∷ []; tsc1 = 4 }

abbrev watch : Watch
watch = record { tails = (file_name, tail) ∷ []; modifications = false }

quiet : IsWatching watch
unfolding any_waiting is_waiting
quiet e = ground (arith, e)

abbrev mapped : Mapped
mapped = record {
  is_usable = true;
  file_header_size = 12392;
  log_sizes = 8 ∷ [];
  tsc1 = 4;
  mem = zero_memory;
  rounds = zero_memory ∷ zero_memory ∷ [];
}

abbrev new_tail : Tail
new_tail = record { status = reinit_ready; is_mapped = false; next = no_choice; rbs = []; tsc1 = 0 }
