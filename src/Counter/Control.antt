-- ===== src/Counter/Control.antt =====
-- qtctl over a whole file: which counters it changes, and how.
use quicktrace_public.Base.{ℕ, ◌≡◌, refl, Bool, true, false, ◌&&◌, ◌||◌, arith}
use quicktrace_public.Base.{List, [], ◌∷◌, Option, ◌==◌, if◌then◌else◌}
use quicktrace_public.Counter.{Counters, MsgCounter, Descriptor, Command, show, on, off}
use quicktrace_public.Counter.{is_off, selects, counter_index, control_one, control}

-- What a command leaves in the off bit of a counter that it reaches.
unfoldable pub verdict : Command → Bool → Bool
verdict show b = b
verdict on b = false
verdict off b = true

module _ (matches : Option (List ℕ → Bool)) (msg_index : Option ℕ) (num : ℕ) where
  -- Is the counter `i` that of a selected message?
  unfoldable pub reached : ℕ → List Descriptor → Bool
  reached i [] = false
  reached i (d ∷ ds) =
      (selects matches msg_index d && i == counter_index num d.msg_id) || reached i ds

  abbrev pub SameCounts : MsgCounter → MsgCounter → Type 0
  SameCounts c c' =
      (c.count ≡ c'.count) × (c.tsc_count ≡ c'.tsc_count) × (c.tsc_self_count ≡ c'.tsc_self_count)

  control_one_lem :
      (cmd : Command) (d : Descriptor) (cs : Counters) (i : ℕ)
      → let c = (control_one matches msg_index cmd num d cs).0 i in
        (is_off c.last_tsc ≡ (
          if selects matches msg_index d && i == counter_index num d.msg_id
          then verdict cmd (is_off (cs i).last_tsc)
          else is_off (cs i).last_tsc))
        × SameCounts c (cs i)
  unfolding control_one verdict
  control_one_lem cmd d cs i = ground arith

  -- A command sets the off bit of exactly the counters that a selected message of the file has, to
  -- off for `off`, to on for `on`, and to what it was for `show`; no count changes.
  pub control_lem :
      (cmd : Command) (ds : List Descriptor) (cs : Counters) (i : ℕ)
      → let c = control matches msg_index cmd num ds cs i in
        (is_off c.last_tsc
          ≡ (if reached i ds then verdict cmd (is_off (cs i).last_tsc) else is_off (cs i).last_tsc))
        × SameCounts c (cs i)
  unfolding control reached verdict
  control_lem cmd [] cs i = (refl, (refl, refl, refl))
  control_lem cmd (d ∷ ds) cs i = ground (
    arith,
    control_one_lem cmd d cs i,
    control_lem cmd ds (control_one matches msg_index cmd num d cs).0 i,
  )
