-- ===== src/EventLoopThread/Start.antt =====
-- `startLoop` returns the loop of the new thread.
use thread_and_net.Prelude.{◌≡◌, refl, Bool, true, false, not, ◌&&◌, ◌||◌, arith}
use thread_and_net.Lock.{lock, unlock, wait_sleep, wait_wake}
use thread_and_net.EventLoopThread.{
  init, Reach, here, next, EventLoopThread, Owner, unstarted, testing, sleeping, woken, aborted,
  unlocking, returning, returned, quitting, joining, destroyed, Fresh, unborn, born, setting, left,
  ended, Step, starts, locks, waits, wait_fails, wakes, relocks, finds, unlocks, returns,
  quits_early, exits, exits_at_once, quits, joins, fresh_locks, sets, notifies, fresh_unlocks,
  enters, leaves, clears, Reach, here, next, init,
}

-- `startLoop` has not returned.
abbrev is_starting : Owner → Bool
is_starting (returned b) = false
is_starting quitting = false
is_starting joining = false
is_starting destroyed = false
is_starting _ = true

-- The wait of `startLoop`: its flag counts from here on.
abbrev is_waiting : Owner → Bool
is_waiting testing = true
is_waiting sleeping = true
is_waiting woken = true
is_waiting _ = false

abbrev is_unstarted : Owner → Bool
is_unstarted unstarted = true
is_unstarted _ = false

abbrev is_unborn : Fresh → Bool
is_unborn unborn = true
is_unborn _ = false

-- `loop_` has not been set.
abbrev is_early : Fresh → Bool
is_early unborn = true
is_early born = true
is_early setting = true
is_early _ = false

abbrev is_over : Fresh → Bool
is_over left = true
is_over ended = true
is_over _ = false

-- The test of `while` has found the pointer.
abbrev has_found : Owner → Bool
has_found unlocking = true
has_found returning = true
has_found _ = false

-- `startLoop` has failed, or has returned a null pointer.
abbrev pub is_bad : Owner → Bool
is_bad aborted = true
is_bad (returned b) = not b
is_bad _ = false

abbrev implies : Bool → Bool → Bool
implies true b = b
implies false _ = true

abbrev sound : Owner → Fresh → Bool → Bool → Bool → Bool
sound o f loop quit locked =
    not (is_bad o)
    && implies (is_starting o) (not quit && not (is_over f))
    && implies (is_unstarted o) (is_unborn f)
    && implies (is_early f) (not loop)
    && (is_over f || is_early f || loop)
    && implies (is_waiting o) (loop || locked)
    && implies (has_found o) loop

abbrev Inv : EventLoopThread → Type 0
Inv s = sound s.owner s.fresh s.loop s.quit s.mutex.is_lock ≡ true

Step-Inv : {s t : EventLoopThread} → Step s t → Inv s → Inv t
unfolding lock unlock wait_sleep wait_wake
Step-Inv (starts h) i = ground arith
Step-Inv (locks h k) i = ground arith
Step-Inv (waits h k l) i = ground arith
Step-Inv (wait_fails h k l) i = ground arith
Step-Inv (wakes h) i = ground arith
Step-Inv (relocks h k) i = ground arith
Step-Inv (finds h k) i = ground arith
Step-Inv (unlocks h) i = ground arith
Step-Inv (returns h) i = ground arith
Step-Inv (quits_early h) i = ground arith
Step-Inv (exits h k) i = ground arith
Step-Inv (exits_at_once h k) i = ground arith
Step-Inv (quits h) i = ground arith
Step-Inv (joins h k) i = ground arith
Step-Inv (fresh_locks h k) i = ground arith
Step-Inv (sets h) i = ground arith
Step-Inv (notifies h) i = ground arith
Step-Inv (fresh_unlocks h) i = ground arith
Step-Inv (enters h) i = ground arith
Step-Inv (leaves h k) i = ground arith
Step-Inv (clears h) i = ground arith

Reach-Inv : {s t : EventLoopThread} → Reach s t → Inv s → Inv t
Reach-Inv here i = i
Reach-Inv (next r st) i = Step-Inv st (Reach-Inv r i)

-- Whatever the order in which the two threads move, `startLoop` does not fail at the assert of its
-- wait, and the pointer that it returns is not null.
pub Reach-is_bad : {s : EventLoopThread} → Reach init s → is_bad s.owner ≡ false
unfolding init
Reach-is_bad r = let i = Reach-Inv r refl in ground arith
