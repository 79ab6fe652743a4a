-- ===== src/ThreadPool/Examples.antt =====
-- The pool's theorem on a pool that was given two tasks, of which one was taken.
use thread_and_net.Prelude.{
  length, ◌≤◌, ◌++◌, refl, inr, false, arith, ◌≡◌, true, [], ◌∷◌, some, ltb, if◌then◌else◌, update,
}
use thread_and_net.ThreadPool.{
  ThreadPool, adds, takes, Reach, here, next, init, start, add_task, take_task,
}
use thread_and_net.Lock
use thread_and_net.Lock.{lock, unlock, wait_sleep}
use thread_and_net.ThreadPool.Threads
use thread_and_net.ThreadPool.Threads.{
  System, started, calling, user, looping, add_checking, adding, add_notifying, moves, add_locks,
  add_passes, pushes, add_notifies, add_unlocks, add_waits, add_sleeping, stop_begins, stop_locks,
  stop_sets, stop_notifies, stop_unlocks, ends,
}
use thread_and_net.ThreadPool.Signals
use thread_and_net.ThreadPool.Signals.{Signalled, signal, hears}
use thread_and_net.ThreadPool.Starved.{starved}
use thread_and_net.ThreadPool.Bounded.{Reach-bounded}
use thread_and_net.ThreadPool.Simulation.{Reach-refines}

abbrev one_added : ThreadPool
one_added = record {
  size_queue = 2;
  is_start = true;
  b_queue = 5 ∷ [];
  threads = 3;
  added = 5 ∷ [];
  taken = [];
}

abbrev two_added : ThreadPool
two_added = record one_added { b_queue = 5 ∷ 6 ∷ []; added = 5 ∷ 6 ∷ [] }

abbrev one_taken : ThreadPool
one_taken = record two_added { b_queue = 6 ∷ []; taken = 5 ∷ [] }

one_taken-Reach : Reach (start init 2 3) one_taken
unfolding start init add_task take_task
one_taken-Reach =
    next
      (next (next here (adds (start init 2 3) one_added 5 refl)) (adds one_added two_added 6 refl))
      (takes two_added one_taken (some 5) refl)

Reach-bounded_example :
    (length one_taken.b_queue ≤ one_taken.size_queue)
    × (one_taken.added ≡ one_taken.taken ++ one_taken.b_queue)
Reach-bounded_example = Reach-bounded 2 3 one_taken-Reach

-- Thread 3, which is none of the three workers, has pushed 5.
abbrev pushed : System
pushed = record {
  shared = record { mutex = record { mutex = some 3; is_lock = true }; pool = one_added };
  pc =
      update
        (update (update (λ i. if ltb i 3 then looping else calling user) 3 (add_checking user 5)) 3
          (adding user 5))
        3 (add_notifying user);
}

pushed-Reach : Threads.Reach (started 2 3) pushed
unfolding started start init Lock.init lock
pushed-Reach =
    Threads.next
      (Threads.next (Threads.next Threads.here (moves 3 (add_locks 5 refl)))
        (moves 3 (add_passes refl)))
      (moves 3 pushes)

Reach-refines_example : Reach (start init 2 3) one_added
Reach-refines_example = Reach-refines 2 3 pushed-Reach

-- One worker, a queue of one, and `woken` for nobody
abbrev at_first : Signalled
at_first = record { system = started 1 1; woken = λ j. false; alone = λ j. false }

-- Thread 1 fills the queue and waits to add a second task; thread 2 stops the pool; the worker, thread 0,
-- ends without a look at the queue.
unfoldable stuck : (x : Signalled) × Signals.Reach at_first x
unfolding started start init Lock.init lock wait_sleep unlock signal hears
stuck =
    let filled =
      (Signals.next
        (Signals.next
          (Signals.next
            (Signals.next (Signals.next Signals.here (Signals.moves 1 (add_locks 5 refl) refl))
              (Signals.moves 1 (add_passes refl) refl))
            (Signals.moves 1 pushes refl))
          (Signals.notifies_nobody 1 add_notifies (inr refl) (λ j. ground arith)))
        (Signals.moves 1 add_unlocks refl)) in
    let waiting =
      (Signals.next (Signals.next filled (Signals.moves 1 (add_locks 6 refl) refl))
        (Signals.falls_asleep 1 (add_waits refl refl) refl)) in
    let stopped =
      (Signals.next
        (Signals.next
          (Signals.next
            (Signals.next (Signals.next waiting (Signals.moves 2 (stop_begins refl) refl))
              (Signals.moves 2 (stop_locks refl) refl))
            (Signals.moves 2 stop_sets refl))
          (Signals.notifies_all 2 stop_notifies refl))
        (Signals.moves 2 stop_unlocks refl)) in
    (_, Signals.next stopped (Signals.moves 0 (ends refl) refl))

-- Thread 3 comes to add a task.
unfoldable later : (y : Signalled) × Signals.Reach stuck.0 y
unfolding stuck started start init Lock.init lock wait_sleep unlock signal hears
later = (_, Signals.next Signals.here (Signals.moves 3 (add_locks 7 refl) refl))

starved_example : (later.0.system.pc 1 ≡ add_sleeping user 6) × (later.0.woken 1 ≡ false)
unfolding later stuck started start init Lock.init lock wait_sleep unlock signal hears
starved_example = starved 1 6 user stuck.0 later.0 refl refl (λ j. ground arith) later.1 refl
