-- ===== src/Timer.antt =====
-- The block timers: BlockTimer, BlockTimerMsg, BlockTimerSelf and BlockTimerSelfMsg of QuickTrace.cpp,
-- with the stack `threadSubFuncStack` of a thread.
mod Tests
use quicktrace_public.Base.{ℕ, ◌+◌, ◌-◌, ◌%◌, ◌^◌, ◌≤◌, ◌<◌, ◌≡◌, refl, sym, ap, ◌∙◌, arith}
use quicktrace_public.Base.{Bool, true, false, List, [], ◌∷◌, if◌then◌else◌, ◌==◌}
use quicktrace_public.Counter.{MsgCounter, Counters, update, update_last_tsc, counter_index}
use quicktrace_public.Counter.OffBit.{update-eq}

-- What a thread times: the counters of its file, and the time spent in the blocks below each open
-- one, the innermost first; the last entry belongs to no block.
pub record Thread : Type 0 where
  pub counters : Counters
  pub stack : List ℕ

-- `now - tsc_`, an unsigned 64-bit difference
abbrev pub delta : ℕ → ℕ → ℕ
delta start now = (now + 2 ^ 64 - start) % 2 ^ 64

-- The destructor of BlockTimer (`counts`) and that of BlockTimerMsg.
unfoldable pub end_timer : Bool → ℕ → ℕ → ℕ → ℕ → Thread → Thread
end_timer counts num id start now t =
    let i = counter_index num id in
    let c = t.counters i in
    record t {
      counters = update t.counters i (record c {
        tsc_count = (c.tsc_count + delta start now) % 2 ^ 64;
        count = if counts then (c.count + 1) % 2 ^ 32 else c.count;
      });
    }

-- The constructors of the timers of self time.
unfoldable pub start_self : Thread → Thread
start_self t = record t { stack = 0 ∷ t.stack }

unfoldable pub top : List ℕ → ℕ
top [] = 0
top (x ∷ xs) = x

-- `pop_back`, and what the block took goes to the one round it.
unfoldable pub pop_into : ℕ → List ℕ → List ℕ
pop_into d [] = []
pop_into d (x ∷ []) = []
pop_into d (x ∷ y ∷ ys) = (y + d) % 2 ^ 64 ∷ ys

-- The destructor of BlockTimerSelf (`counts`) and that of BlockTimerSelfMsg.
unfoldable pub end_self : Bool → ℕ → ℕ → ℕ → ℕ → Thread → Thread
unfolding top pop_into
end_self counts num id start now t =
    let i = counter_index num id in
    let c = t.counters i in
    let d = delta start now in
    record {
      counters = update t.counters i (record {
        count = if counts then (c.count + 1) % 2 ^ 32 else c.count;
        last_tsc = if counts then update_last_tsc c.last_tsc now else c.last_tsc;
        tsc_count = (c.tsc_count + d) % 2 ^ 64;
        tsc_self_count = (c.tsc_self_count + d + 2 ^ 64 - top t.stack) % 2 ^ 64;
      });
      stack = pop_into d t.stack;
    }

-- A run of a program with timers of self time: the blocks one behind the other, each with those
-- inside it, the number of its message and the two readings of the clock.
pub data Blocks : Type 0 where
  done : Blocks
  block : Bool → ℕ → ℕ → ℕ → Blocks → Blocks → Blocks

unfoldable pub run : ℕ → Blocks → Thread → Thread
unfolding start_self end_self
run num done t = t
run num (block counts id start now inner next) t =
    run num next (end_self counts num id start now (run num inner (start_self t)))

-- The time of the outermost blocks.
unfoldable pub spent : Blocks → ℕ
spent done = 0
spent (block counts id start now inner next) = (delta start now + spent next) % 2 ^ 64

spent-lt : (bs : Blocks) → spent bs < 2 ^ 64
unfolding spent
spent-lt done = omega arith
spent-lt (block counts id start now inner next) = omega arith

-- If the top of a thread's stack is below 2 ^ 64, timed blocks leave the stack as deep as it was, with
-- the time of the outermost of them added to its top modulo 2 ^ 64: what was below stays.
pub run-stack :
    (num : ℕ) (bs : Blocks) (t : Thread) (x : ℕ) (xs : List ℕ)
    → t.stack ≡ x ∷ xs
    → x < 2 ^ 64
    → (run num bs t).stack ≡ (x + spent bs) % 2 ^ 64 ∷ xs
unfolding run spent
run-stack num done t x xs e h = e ∙ ap (λ y. y ∷ xs) (omega arith)
run-stack num (block counts id start now inner next) t x xs e h =
    let below = run-stack num inner (start_self t) 0 (x ∷ xs) (ap (λ ys. 0 ∷ ys) e) (omega arith) in
    run-stack num next _ ((x + delta start now) % 2 ^ 64) xs (ap (pop_into (delta start now)) below)
      (omega arith)
    ∙ ap (λ y. y ∷ xs) (omega arith)

-- The self time that a block adds to its message's counter is its own time less that of the blocks
-- directly inside it, modulo 2 ^ 64, whatever these have inside them.
pub end_self-run :
    (counts : Bool) (num id start now : ℕ) (inner : Blocks) (t : Thread)
    → let before = run num inner (start_self t) in
      let i = counter_index num id in
      ((end_self counts num id start now before).counters i).tsc_self_count
      ≡ ((before.counters i).tsc_self_count + delta start now + 2 ^ 64 - spent inner) % 2 ^ 64
unfolding end_self start_self
end_self-run counts num id start now inner t =
    let below = run-stack num inner (start_self t) 0 t.stack refl (omega arith) in
    let least : spent inner < 2 ^ 64 = spent-lt inner in
    let on_top : top (run num inner (start_self t)).stack ≡ spent inner =
      ap top below ∙ omega arith in
    let same : (counter_index num id == counter_index num id) ≡ true = ground arith in
    rw
      (
        update-eq (run num inner (start_self t)).counters (counter_index num id)
            (counter_index num id),
        same,
        on_top,
      )
      refl
