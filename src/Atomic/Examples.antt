-- ===== src/Atomic/Examples.antt =====
-- The properties of the counter at small states.
use thread_and_net.Prelude.{◌≡◌, [], ◌∷◌, arith, some, none, ◌^◌}
use thread_and_net.Atomic.{init, increments}
use thread_and_net.Atomic.Count.{increments-distinct}

increments-distinct_example :
    (increments 31 3 init ≡ some (1 ∷ 2 ∷ 3 ∷ [], record { value = 3 }))
    × (increments 31 (2 ^ 31) init ≡ none)
increments-distinct_example = increments-distinct 31 3 (omega arith) (omega arith)
