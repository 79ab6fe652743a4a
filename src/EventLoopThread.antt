-- ===== src/EventLoopThread.antt =====
-- ThreadAndNetWorkCoding/zdq_eventloop_thread.h and zdq_eventloop_thread.cpp: a thread with an event
-- loop, and its owner, who starts it and destroys it. The owner is thread 0 of the mutex, and the new
-- thread is thread 1. `loop` tells that `loop_` is set, and `quit` is the loop's `quit_`, which
-- `EventLoop::loop` clears at its head.
pub mod Start
pub mod Join
pub mod Examples
use thread_and_net.Prelude.{ℕ, ◌≡◌, Bool, true, false, none, some}
use thread_and_net.Lock
use thread_and_net.Lock.{MutexLock, lock, unlock, wait_sleep, wait_wake}

-- Where the owner stands.
pub data Owner : Type 0 where
  unstarted : Owner  -- before `startLoop`
  locking : Owner  -- after `thread_.start()`
  testing : Owner  -- at the test of `while`
  sleeping : Owner
  woken : Owner
  aborted : Owner  -- after the failed assert of the wait
  unlocking : Owner
  returning : Owner  -- before `return loop_`
  returned : Bool → Owner  -- with the pointer that was returned: whether it is not null
  quitting : Owner  -- in the destructor, after its test
  joining : Owner
  destroyed : Owner

-- Where the new thread stands, in `creadLoop`.
pub data Fresh : Type 0 where
  unborn born setting notifying fresh_unlocking entering looping left ended : Fresh

pub record EventLoopThread : Type 0 where
  pub mutex : MutexLock
  pub loop : Bool
  pub quit : Bool
  pub exiting : Bool
  pub owner : Owner
  pub fresh : Fresh

pub init : EventLoopThread
unfolding Lock.init
init = record {
  mutex = Lock.init;
  loop = false;
  quit = false;
  exiting = false;
  owner = unstarted;
  fresh = unborn;
}

pub data Step (s : EventLoopThread) : EventLoopThread → Type 0 where
  -- `startLoop`
  starts : s.owner ≡ unstarted → Step s (record s { owner = locking; fresh = born })
  locks :
      {m : MutexLock}
      → s.owner ≡ locking
      → lock 0 s.mutex ≡ some m
      → Step s (record s { mutex = m; owner = testing })
  waits :
      {m : MutexLock}
      → s.owner ≡ testing
      → s.loop ≡ false
      → wait_sleep s.mutex ≡ some m
      → Step s (record s { mutex = m; owner = sleeping })
  wait_fails :
      s.owner ≡ testing
      → s.loop ≡ false
      → wait_sleep s.mutex ≡ none
      → Step s (record s { owner = aborted })
  wakes : s.owner ≡ sleeping → Step s (record s { owner = woken })
  relocks :
      {m : MutexLock}
      → s.owner ≡ woken
      → wait_wake 0 s.mutex ≡ some m
      → Step s (record s { mutex = m; owner = testing })
  finds : s.owner ≡ testing → s.loop ≡ true → Step s (record s { owner = unlocking })
  unlocks : s.owner ≡ unlocking → Step s (record s { mutex = unlock s.mutex; owner = returning })
  returns : s.owner ≡ returning → Step s (record s { owner = returned s.loop })
  -- The owner may call `quit` on the loop that it got.
  quits_early : {b : Bool} → s.owner ≡ returned b → Step s (record s { quit = true })
  -- The destructor
  exits :
      {b : Bool}
      → s.owner ≡ returned b
      → s.loop ≡ true
      → Step s (record s { exiting = true; owner = quitting })
  exits_at_once :
      {b : Bool}
      → s.owner ≡ returned b
      → s.loop ≡ false
      → Step s (record s { exiting = true; owner = destroyed })
  quits : s.owner ≡ quitting → Step s (record s { quit = true; owner = joining })
  joins : s.owner ≡ joining → s.fresh ≡ ended → Step s (record s { owner = destroyed })
  -- `creadLoop`
  fresh_locks :
      {m : MutexLock}
      → s.fresh ≡ born
      → lock 1 s.mutex ≡ some m
      → Step s (record s { mutex = m; fresh = setting })
  sets : s.fresh ≡ setting → Step s (record s { loop = true; fresh = notifying })
  notifies : s.fresh ≡ notifying → Step s (record s { fresh = fresh_unlocking })
  fresh_unlocks :
      s.fresh ≡ fresh_unlocking → Step s (record s { mutex = unlock s.mutex; fresh = entering })
  enters : s.fresh ≡ entering → Step s (record s { quit = false; fresh = looping })
  leaves : s.fresh ≡ looping → s.quit ≡ true → Step s (record s { fresh = left })
  clears : s.fresh ≡ left → Step s (record s { loop = false; fresh = ended })

pub data Reach (s : EventLoopThread) : EventLoopThread → Type 0 where
  here : Reach s s
  next : {t u : EventLoopThread} → Reach s t → Step t u → Reach s u
