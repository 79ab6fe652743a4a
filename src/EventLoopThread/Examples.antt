-- ===== src/EventLoopThread/Examples.antt =====
-- The properties of an event loop's thread at small states.
use thread_and_net.Prelude.{◌≡◌, refl, true, false, none}
use thread_and_net.Lock
use thread_and_net.Lock.{MutexLock, lock, unlock}
use thread_and_net.EventLoopThread.{
  EventLoopThread, init, starts, locks, finds, unlocks, returns, exits, quits, fresh_locks, sets,
  notifies, fresh_unlocks, Reach, here, next, joining, returned, entering, looping,
}
use thread_and_net.EventLoopThread.Start.{is_bad, Reach-is_bad}

-- The new thread runs up to the call of `loop` before the owner comes to its lock, and the owner
-- destroys its object as soon as `startLoop` has returned.
abbrev started : EventLoopThread
started = record {
  mutex = record { mutex = none; is_lock = false };
  loop = true;
  quit = false;
  exiting = false;
  owner = returned true;
  fresh = entering;
}

abbrev joined : EventLoopThread
joined = record started { quit = true; exiting = true; owner = joining }

abbrev in_loop : EventLoopThread
in_loop = record joined { quit = false; fresh = looping }

init-started : Reach init started
unfolding Lock.init init lock unlock
init-started =
    next
      (next
        (next
          (next
            (next
              (next (next (next (next here (starts refl)) (fresh_locks refl refl)) (sets refl))
                (notifies refl))
              (fresh_unlocks refl))
            (locks refl refl))
          (finds refl refl))
        (unlocks refl))
      (returns refl)

started-joined : Reach started joined
started-joined = next (next here (exits refl refl)) (quits refl)

Reach-is_bad_example : is_bad started.owner ≡ false
Reach-is_bad_example = Reach-is_bad init-started
