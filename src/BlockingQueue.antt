-- ===== src/BlockingQueue.antt =====
-- ThreadAndNetWorkCoding/zdq_blocking_queue.h: the queue without a bound, under threads that call
-- `put` and `take` in any order. A thread's place in the code is its `Pc`; `given` and `taken` list the
-- elements that were put into the queue and those that a thread got from it.
pub mod Safety
pub mod Abort
pub mod Examples
use thread_and_net.Prelude.{
  ℕ, ◌≡◌, Option, none, some, List, [], ◌∷◌, ◌++◌, update, Bool, true, false,
}
use thread_and_net.Lock
use thread_and_net.Lock.{MutexLock, lock, unlock, wait_sleep, wait_wake}

-- Where a thread stands.
pub data Pc : Type 0 where
  idle : Pc
  putting : ℕ → Pc  -- before `push_back`
  notifying : Pc
  checking : Pc  -- at the test of `while`
  sleeping : Pc  -- in `pthread_cond_wait`
  woken : Pc  -- woken, without the mutex
  taking : Pc  -- after the loop
  leaving : Pc  -- before the guard's destructor
  aborted : Pc  -- after a failed assert

-- The members, and the history
pub record BlockingQueue : Type 0 where
  pub mutex : MutexLock
  pub queue : List ℕ
  pub given : List ℕ
  pub taken : List ℕ

-- One step of thread `i`
pub data Move (i : ℕ) (q : BlockingQueue) : Pc → BlockingQueue → Pc → Type 0 where
  put_locks :
      (x : ℕ) {m : MutexLock}
      → lock i q.mutex ≡ some m
      → Move i q idle (record q { mutex = m }) (putting x)
  pushes :
      {x : ℕ}
      → Move i q
          (putting x)
          (record q { queue = q.queue ++ x ∷ []; given = q.given ++ x ∷ [] })
          notifying
  notifies : Move i q notifying q leaving
  take_locks :
      {m : MutexLock} → lock i q.mutex ≡ some m → Move i q idle (record q { mutex = m }) checking
  waits :
      {m : MutexLock}
      → q.queue ≡ []
      → wait_sleep q.mutex ≡ some m
      → Move i q checking (record q { mutex = m }) sleeping
  wait_fails : q.queue ≡ [] → wait_sleep q.mutex ≡ none → Move i q checking q aborted
  wakes : Move i q sleeping q woken
  relocks :
      {m : MutexLock}
      → wait_wake i q.mutex ≡ some m
      → Move i q woken (record q { mutex = m }) checking
  leaves_loop : {x : ℕ} {xs : List ℕ} → q.queue ≡ x ∷ xs → Move i q checking q taking
  pops :
      {x : ℕ} {xs : List ℕ}
      → q.queue ≡ x ∷ xs
      → Move i q taking (record q { queue = xs; taken = q.taken ++ x ∷ [] }) leaving
  pop_fails : q.queue ≡ [] → Move i q taking q aborted
  unlocks : Move i q leaving (record q { mutex = unlock q.mutex }) idle

-- Threads over one queue
pub record System : Type 0 where
  pub shared : BlockingQueue
  pub pc : ℕ → Pc

pub init : System
unfolding Lock.init
init = record {
  shared = record { mutex = Lock.init; queue = []; given = []; taken = [] };
  pc = λ i. idle;
}

pub data Step (s : System) : System → Type 0 where
  moves :
      (i : ℕ) {q : BlockingQueue} {p : Pc}
      → Move i s.shared (s.pc i) q p
      → Step s (record { shared = q; pc = update s.pc i p })

pub data Reach (s : System) : System → Type 0 where
  here : Reach s s
  next : {t u : System} → Reach s t → Step t u → Reach s u

-- Between the guard's constructor and its destructor, and not in a wait.
abbrev pub is_inside : Pc → Bool
is_inside idle = false
is_inside sleeping = false
is_inside woken = false
is_inside aborted = false
is_inside _ = true
