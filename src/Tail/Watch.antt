-- ===== src/Tail/Watch.antt =====
-- Class Watch of qttail.cpp: the files of a watched directory and the events on them.
use quicktrace_public.Base.{Bool, true, false, ◌||◌, List, [], ◌∷◌, none, some, if◌then◌else◌}
use quicktrace_public.Base.{Text, text_eq, find}
use quicktrace_public.Tail.{
  Tail, Status, initializing, active, delete_pending, reinit_pending, reinit_ready, status_is, Poll,
  polled, ◌>>=◌,
}

-- The files by name, and whether the watch is set for modifications as well.
pub record Watch : Type 0 where
  pub tails : List (Text × Tail)
  pub modifications : Bool

-- The first of the three bits that is set in an event's mask.
pub data Kind : Type 0 where
  created deleted modified other : Kind

unfoldable pub is_waiting : Status → Bool
is_waiting initializing = false
is_waiting active = false
is_waiting delete_pending = false
is_waiting reinit_pending = true
is_waiting reinit_ready = false

unfoldable pub any_waiting : List (Text × Tail) → Bool
unfolding is_waiting
any_waiting [] = false
any_waiting ((k, t) ∷ ts) = is_waiting t.status || any_waiting ts

-- `watchForModificationsIs`: no change while a file waits for its modification.
unfoldable pub watch_for_modifications_is : Bool → Watch → Watch
unfolding any_waiting
watch_for_modifications_is on w = if any_waiting w.tails then w else record w { modifications = on }

-- `statusIs` of the file with a name.
unfoldable pub set_status : Text → Status → List (Text × Tail) → Poll (List (Text × Tail))
unfolding status_is text_eq
set_status k s [] = polled []
set_status k s ((j, t) ∷ ts) =
    let rest = set_status k s ts >>= λ ts'. polled ((j, t) ∷ ts') in
    if text_eq k j then (status_is s t >>= λ t'. polled ((j, t') ∷ ts)) else rest

unfoldable pub update_status : Text → Status → Watch → Poll Watch
unfolding set_status
update_status k s w = set_status k s w.tails >>= λ ts. polled (record w { tails = ts })

abbrev pub is_known : Text → Watch → Bool
is_known k w = elim (find k w.tails) [ none ↦ false | some t ↦ true ]

-- `process` of an event.
unfoldable pub process : Kind → Text → Watch → Poll Watch
unfolding watch_for_modifications_is update_status find
process created name w =
    if is_known name w
    then update_status name reinit_pending (watch_for_modifications_is true w)
    else polled w
process deleted name w =
    if is_known name w
    then update_status name delete_pending (watch_for_modifications_is false w)
    else polled w
process modified name w =
    if is_known name w
    then (update_status name reinit_ready w >>= λ w'. polled (watch_for_modifications_is false w'))
    else polled w
process other name w = polled w
