-- ===== src/BlockingQueue/Examples.antt =====
-- The queue's theorems on a thread that has put an element, and on three threads.
use thread_and_net.Prelude.{ℕ, ◌≡◌, ◌≢◌, refl, [], ◌∷◌, arith, update, some, true}
use thread_and_net.Lock.{lock, unlock}
use thread_and_net.BlockingQueue.{
  System, idle, putting, notifying, aborted, leaving, checking, taking, notifies, unlocks,
  take_locks, leaves_loop, put_locks, pushes, moves, Reach, here, next, init,
}
use thread_and_net.BlockingQueue.Safety.{mutual_exclusion, taking_nonempty}
use thread_and_net.BlockingQueue.Abort.{take_aborts}

-- Thread 0 has pushed 7.
abbrev pushed : System
pushed = record {
  shared = record {
    mutex = record { mutex = some 0; is_lock = true };
    queue = 7 ∷ [];
    given = 7 ∷ [];
    taken = [];
  };
  pc = update (update (λ i. idle) 0 (putting 7)) 0 notifying;
}

pushed-Reach : Reach init pushed
unfolding init lock
pushed-Reach = next (next here (moves 0 (put_locks 7 refl))) (moves 0 pushes)

mutual_exclusion_example : ◌≡◌ {A = ℕ} 0 0
mutual_exclusion_example = mutual_exclusion 0 0 pushed-Reach refl refl

-- Thread 0 has put 7, and thread 1 is about to take it.
abbrev about_to_take : System
about_to_take = record {
  shared = record (pushed.shared) { mutex = record { mutex = some 1; is_lock = true } };
  pc = update (update (update (update pushed.pc 0 leaving) 0 idle) 1 checking) 1 taking;
}

about_to_take-Reach : Reach init about_to_take
unfolding lock unlock
about_to_take-Reach =
    next
      (next (next (next pushed-Reach (moves 0 notifies)) (moves 0 unlocks))
        (moves 1 (take_locks refl)))
      (moves 1 (leaves_loop refl))

taking_nonempty_example : about_to_take.shared.queue ≢ []
taking_nonempty_example = taking_nonempty 1 about_to_take-Reach refl

take_aborts_example : (s : System) × Reach init s × (s.pc 0 ≡ aborted)
take_aborts_example = take_aborts 0 1 2 7 (omega arith) (omega arith) (omega arith)
