-- ===== src/EventLoop/Examples.antt =====
-- The event loop's theorems on a loop that another thread hands a functor while it waits.
use thread_and_net.Prelude.{
  ℕ, ◌≡◌, ◌++◌, refl, true, false, List, [], ◌∷◌, some, ◌==◌, if◌then◌else◌, ◌||◌, ltb,
}
use thread_and_net.EventLoop.{
  EventLoop, made, polling, calling, other_appends, poll_returns, takes, runs, Reach, here, next,
  init, start_loop, append_func_in_loop, append_all, take_functors, run_one, do_append_functors,
}
use thread_and_net.EventLoop.Halves as Between
use thread_and_net.EventLoop.Halves.{Halves, other_pushes, halves-woken}
use thread_and_net.EventLoop.Order.{loop-in_order}
use thread_and_net.EventLoop.Round.{all_calls, do_append_functors_lem}

-- Functor 7 appends functor 8.
abbrev calls : ℕ → List ℕ
calls cb = if cb == 7 then 8 ∷ [] else []

abbrev waiting : EventLoop
waiting = record {
  thread_id = 1;
  looping = true;
  quit = false;
  appended = [];
  calling_pending_functors = false;
  running = [];
  woken = false;
  given = [];
  ran = [];
}

waiting-eq : start_loop 1 (init 1) ≡ some waiting
unfolding start_loop init
waiting-eq = refl

abbrev handed : EventLoop
handed = record waiting { appended = 7 ∷ []; woken = true; given = 7 ∷ [] }

handed-Reach : Reach calls polling waiting polling handed
unfolding append_func_in_loop
handed-Reach = next here (other_appends polling waiting 2 7 refl)

abbrev ran_one : EventLoop
ran_one = record handed {
  appended = 8 ∷ [];
  calling_pending_functors = true;
  given = 7 ∷ 8 ∷ [];
  ran = 7 ∷ [];
}

ran_one-Reach : Reach calls polling waiting calling ran_one
unfolding append_func_in_loop append_all take_functors run_one
ran_one-Reach = next (next (next handed-Reach (poll_returns handed)) (takes handed)) (
    runs (record handed { calling_pending_functors = true; running = 7 ∷ []; appended = [] }) 7 []
      refl)

loop-in_order_example : ran_one.given ≡ ran_one.ran ++ (ran_one.running ++ ran_one.appended)
loop-in_order_example = loop-in_order calls 1 made waiting-eq ran_one-Reach

do_append_functors_example :
    ((do_append_functors calls handed).ran ≡ [] ++ 7 ∷ [])
    × ((do_append_functors calls handed).appended ≡ all_calls calls (7 ∷ []))
    × ((do_append_functors calls handed).calling_pending_functors ≡ false)
do_append_functors_example = do_append_functors_lem calls handed

-- Thread 2 has appended functor 7, and has not written to the descriptor yet.
abbrev half_handed : Halves
half_handed = record { loop = record waiting { appended = 7 ∷ []; given = 7 ∷ [] }; wakers = 1 }

half_handed-Reach :
    Between.Reach calls polling (record { loop = waiting; wakers = 0 }) polling half_handed
half_handed-Reach = Between.next Between.here (other_pushes 2 7 refl)

halves-woken_example : (half_handed.loop.woken || ltb 0 half_handed.wakers) ≡ true
unfolding init
halves-woken_example = halves-woken calls 1 made refl waiting-eq half_handed-Reach refl
