-- ===== src/Counter/OffBit.antt =====
-- The off bit of a counter: tracing keeps it, qtctl and qtclear set it.
use quicktrace_public.Base.{ℕ, ◌<◌, ◌^◌, ◌≡◌, ◌==◌, refl, arith, if◌then◌else◌}
use quicktrace_public.Counter.{is_off, update_last_tsc, update, Counters, MsgCounter}

-- A trace keeps the off bit of its counter whatever the clock says, and the word stays 32 bits wide.
pub is_off-update_last_tsc :
    (last_tsc tsc : ℕ)
    → last_tsc < 2 ^ 32
    → (is_off (update_last_tsc last_tsc tsc) ≡ is_off last_tsc)
      × (update_last_tsc last_tsc tsc < 2 ^ 32)
unfolding is_off update_last_tsc
is_off-update_last_tsc last_tsc tsc h = ground arith

pub update-eq :
    (cs : Counters) (i j : ℕ) (c : MsgCounter) → update cs i c j ≡ (if j == i then c else cs j)
unfolding update
update-eq cs i j c = refl
