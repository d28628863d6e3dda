-- ===== src/Counter/Tests.antt =====
-- The counters on concrete words and files.
use quicktrace_public.Base.{◌≡◌, refl, true, [], ◌∷◌, List, none, some, if◌then◌else◌}
use quicktrace_public.Counter.{selects, counter_index, is_off, Descriptor, off, control}
use quicktrace_public.Counter.Control.{verdict, reached, control_lem, SameCounts}
use quicktrace_public.Examples.{counters, file_name, text}

abbrev descriptors : List Descriptor
descriptors =
    record { msg_id = 5; filename = file_name; msg = text }
    ∷ record { msg_id = 519; filename = file_name; msg = text }
    ∷ []

control_lem_example :
    let c = control none (some 519) off 512 descriptors counters 7 in
    (is_off c.last_tsc ≡ (
      if reached none (some 519) 512 7 descriptors
      then verdict off (is_off (counters 7).last_tsc)
      else is_off (counters 7).last_tsc))
    × SameCounts none (some 519) 512 c (counters 7)
control_lem_example = control_lem none (some 519) 512 off descriptors counters 7

reached-test : reached none (some 519) 512 7 descriptors ≡ true
unfolding reached selects counter_index
reached-test = refl
