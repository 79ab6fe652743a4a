-- ===== src/Lock.antt =====
-- ThreadAndNetWorkCoding/zdq_mutex.h and zdq_condition.h: a mutex with the flag that its holder
-- keeps, and the two halves of a wait. `mutex` is the thread that holds the pthread mutex; a thread
-- gets it only while nobody holds it, and `pthread_cond_wait` gives it up and gets it back. A thread
-- may wake from a wait at any time, as POSIX allows, so that a signal leaves no trace here.
use thread_and_net.Prelude.{ℕ, Bool, true, false, Option, none, some, ◌>>◌, assert, is_none}

pub record MutexLock : Type 0 where
  pub mutex : Option ℕ
  pub is_lock : Bool

unfoldable pub init : MutexLock
init = record { mutex = none; is_lock = false }

-- `MutexLock::lock` by thread `i`; `none` means that it blocks.
unfoldable pub lock : ℕ → MutexLock → Option MutexLock
lock i l = do assert (is_none l.mutex); some (record { mutex = some i; is_lock = true })

-- `MutexLock::unlock`
unfoldable pub unlock : MutexLock → MutexLock
unlock l = record { mutex = none; is_lock = false }

-- `Condition::wait` until the thread sleeps; `none` is a failed assert.
unfoldable pub wait_sleep : MutexLock → Option MutexLock
wait_sleep l = do assert l.is_lock; some (record l { mutex = none })

-- The rest of it, by thread `i`; `none` means that it blocks.
unfoldable pub wait_wake : ℕ → MutexLock → Option MutexLock
wait_wake i l = do assert (is_none l.mutex); some (record l { mutex = some i })
