-- ===== src/Timer/Examples.antt =====
-- The loop of a timer at a small state.
use thread_and_net.Prelude.{ℕ, Bool, true, ◌==◌, refl, List, [], ◌∷◌, arith}
use thread_and_net.Timer.{Timer, Poll, timeout, ready, init, run_timer}
use thread_and_net.Timer.Loop.{Stopped, run_timer-Stopped}

abbrev accepts : ℕ → ℕ → Bool
accepts val interval = true

abbrev second : ℕ → Bool
second n = n == 1

abbrev every_second : Timer
every_second = record init { it_value = 1; it_interval = 1 }

abbrev reports : List Poll
reports = ready ∷ timeout ∷ ready ∷ ready ∷ []

run_timer-Stopped_example : Stopped 2 (run_timer accepts second every_second reports)
unfolding init
run_timer-Stopped_example =
    run_timer-Stopped accepts second 1 every_second reports refl refl refl refl (omega arith) refl
