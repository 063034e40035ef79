-- ===== src/CircularBuffer/Tests.antt =====
-- The circular buffer on concrete calls.
use frontier_htsim.Prelude.{ℕ, ◌≡◌, refl, List, [], ◌∷◌, some, false, arith}
use frontier_htsim.CircularBuffer.{
  init, push, pop, resize, copy_up, store, grow, pop_front, next_to_pop, empty,
}
use frontier_htsim.CircularBuffer.Refine.{
  Op, pushes, pops, pops_front, peeks, tests, pushed, item, truth, step_fifo, step_buffer, run,
  run-init,
}

-- Two places: the third push has to go round and grow.
abbrev calls : List (Op ℕ)
calls =
    pushes 1
    ∷ pops
    ∷ pushes 2
    ∷ pushes 3
    ∷ pushes 4
    ∷ pushes 5
    ∷ pops
    ∷ pops_front
    ∷ peeks
    ∷ tests
    ∷ []

run-init_example : run (step_buffer 0) (init 0 2) calls ≡ run step_fifo [] calls
run-init_example = run-init 0 2 calls (omega arith)

replies :
    run (step_buffer 0) (init 0 2) calls
    ≡ some (
        pushed
        ∷ item 1
        ∷ pushed
        ∷ pushed
        ∷ pushed
        ∷ pushed
        ∷ item 2
        ∷ item 5
        ∷ item 3
        ∷ truth (false)
        ∷ [])
unfolding run step_buffer init push pop store resize grow copy_up pop_front next_to_pop empty
replies = refl
