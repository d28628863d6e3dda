-- ===== src/Timer/Tests.antt =====
-- Two nested blocks.
use quicktrace_public.Base.{◌≡◌, refl, arith, ◌+◌, ◌%◌, ◌^◌, true, false, [], ◌∷◌}
use quicktrace_public.Examples.{counters}
use quicktrace_public.Timer.{Thread, Blocks, done, block, run, spent, run-stack}

abbrev thread : Thread
thread = record { counters = counters; stack = 0 ∷ [] }

abbrev inner : Blocks
inner = block true 2 120 150 done (block false 3 150 155 done done)

run-stack_example :
    (run 512 (block true 1 100 200 inner done) thread).stack
    ≡ (0 + spent (block true 1 100 200 inner done)) % 2 ^ 64 ∷ []
run-stack_example = run-stack 512 (block true 1 100 200 inner done) thread 0 [] refl (omega arith)

spent-test : spent inner ≡ 35
unfolding spent
spent-test = refl
