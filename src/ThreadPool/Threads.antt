-- ===== src/ThreadPool/Threads.antt =====
-- The pool's threads, one step for each access to its mutex, its queue and its flag: the threads that
-- call `addTask` and `stop`, and the workers in `runInThread`, whose tasks may call them, too. A thread may wake from a wait at any
-- time. The steps go up to the joins of `stop`.
use thread_and_net.Prelude.{
  ℕ, ◌≡◌, ◌++◌, Bool, true, false, ◌&&◌, Option, none, some, List, [], ◌∷◌, ltb, length,
  if◌then◌else◌, update,
}
use thread_and_net.Lock
use thread_and_net.Lock.{MutexLock, lock, unlock, wait_sleep, wait_wake}
use thread_and_net.ThreadPool
use thread_and_net.ThreadPool.{ThreadPool}

-- Who calls `addTask` and `stop`: a thread of the user, or the task that a worker runs.
pub data Caller : Type 0 where
  user : Caller
  task : ℕ → Caller

-- Where a thread stands.
pub data Pc : Type 0 where
  calling : Caller → Pc  -- between two calls
  add_checking add_sleeping add_woken : Caller → ℕ → Pc  -- in the loop of `addTask`
  adding : Caller → ℕ → Pc  -- after it
  add_notifying add_leaving : Caller → Pc
  looping : Pc  -- at the `while` of `runInThread`
  take_entering take_checking take_sleeping take_woken : Pc  -- in the loop of `take`
  taking : Pc  -- after it
  take_notifying take_leaving : Option ℕ → Pc
  running : Option ℕ → Pc  -- with the task that `take` returned
  ended : Pc
  stop_entering stopping stop_notifying stop_leaving joining : Caller → Pc
  aborted : Pc  -- after a failed assert

pub record Shared : Type 0 where
  pub mutex : MutexLock
  pub pool : ThreadPool

abbrev pub has_room : ThreadPool → Bool
has_room p = ltb (length p.b_queue) p.size_queue

abbrev pub is_empty : List ℕ → Bool
is_empty [] = true
is_empty (x ∷ xs) = false

-- One step of thread `i`
pub data Move (i : ℕ) (s : Shared) : Pc → Shared → Pc → Type 0 where
  -- `addTask`
  add_locks :
      {k : Caller} (t : ℕ) {m : MutexLock}
      → lock i s.mutex ≡ some m
      → Move i s (calling k) (record s { mutex = m }) (add_checking k t)
  add_waits :
      {k : Caller} {t : ℕ} {m : MutexLock}
      → has_room s.pool ≡ false
      → wait_sleep s.mutex ≡ some m
      → Move i s (add_checking k t) (record s { mutex = m }) (add_sleeping k t)
  add_wait_fails :
      {k : Caller} {t : ℕ}
      → has_room s.pool ≡ false
      → wait_sleep s.mutex ≡ none
      → Move i s (add_checking k t) s aborted
  add_wakes : {k : Caller} {t : ℕ} → Move i s (add_sleeping k t) s (add_woken k t)
  add_relocks :
      {k : Caller} {t : ℕ} {m : MutexLock}
      → wait_wake i s.mutex ≡ some m
      → Move i s (add_woken k t) (record s { mutex = m }) (add_checking k t)
  add_passes :
      {k : Caller} {t : ℕ} → has_room s.pool ≡ true → Move i s (add_checking k t) s (adding k t)
  add_fails : {k : Caller} {t : ℕ} → has_room s.pool ≡ false → Move i s (adding k t) s aborted
  pushes :
      {k : Caller} {t : ℕ}
      → Move i s
          (adding k t)
          (record s {
            pool = record (s.pool) {
              b_queue = s.pool.b_queue ++ t ∷ [];
              added = s.pool.added ++ t ∷ [];
            };
          })
          (add_notifying k)
  add_notifies : {k : Caller} → Move i s (add_notifying k) s (add_leaving k)
  add_unlocks :
      {k : Caller} → Move i s (add_leaving k) (record s { mutex = unlock s.mutex }) (calling k)
  -- `runInThread`
  loops : s.pool.is_start ≡ true → Move i s looping s take_entering
  ends : s.pool.is_start ≡ false → Move i s looping s ended
  runs_none : Move i s (running none) s looping
  begins : {t : ℕ} → Move i s (running (some t)) s (calling (task t))
  returns : {t : ℕ} → Move i s (calling (task t)) s looping
  -- `take`
  take_locks :
      {m : MutexLock}
      → lock i s.mutex ≡ some m
      → Move i s take_entering (record s { mutex = m }) take_checking
  take_waits :
      {m : MutexLock}
      → (is_empty s.pool.b_queue && s.pool.is_start) ≡ true
      → wait_sleep s.mutex ≡ some m
      → Move i s take_checking (record s { mutex = m }) take_sleeping
  take_wait_fails :
      (is_empty s.pool.b_queue && s.pool.is_start) ≡ true
      → wait_sleep s.mutex ≡ none
      → Move i s take_checking s aborted
  take_wakes : Move i s take_sleeping s take_woken
  take_relocks :
      {m : MutexLock}
      → wait_wake i s.mutex ≡ some m
      → Move i s take_woken (record s { mutex = m }) take_checking
  take_passes :
      (is_empty s.pool.b_queue && s.pool.is_start) ≡ false → Move i s take_checking s taking
  pops :
      {t : ℕ} {ts : List ℕ}
      → s.pool.b_queue ≡ t ∷ ts
      → Move i s taking
          (record s { pool = record (s.pool) { b_queue = ts; taken = s.pool.taken ++ t ∷ [] } })
          (take_notifying (some t))
  finds_none : s.pool.b_queue ≡ [] → Move i s taking s (take_leaving none)
  take_notifies : {t : Option ℕ} → Move i s (take_notifying t) s (take_leaving t)
  take_unlocks :
      {t : Option ℕ} → Move i s (take_leaving t) (record s { mutex = unlock s.mutex }) (running t)
  -- `stop`
  stop_returns : {k : Caller} → s.pool.is_start ≡ false → Move i s (calling k) s (calling k)
  stop_begins : {k : Caller} → s.pool.is_start ≡ true → Move i s (calling k) s (stop_entering k)
  stop_locks :
      {k : Caller} {m : MutexLock}
      → lock i s.mutex ≡ some m
      → Move i s (stop_entering k) (record s { mutex = m }) (stopping k)
  stop_sets :
      {k : Caller}
      → Move i s
          (stopping k)
          (record s { pool = record (s.pool) { is_start = false } })
          (stop_notifying k)
  stop_notifies : {k : Caller} → Move i s (stop_notifying k) s (stop_leaving k)
  stop_unlocks :
      {k : Caller} → Move i s (stop_leaving k) (record s { mutex = unlock s.mutex }) (joining k)

-- Threads over one pool
pub record System : Type 0 where
  pub shared : Shared
  pub pc : ℕ → Pc

-- A pool that was started: the workers are the threads below `size_thread`.
unfoldable pub started : ℕ → ℕ → System
unfolding Lock.init ThreadPool.init ThreadPool.start
started size_queue size_thread = record {
  shared = record {
    mutex = Lock.init;
    pool = ThreadPool.start ThreadPool.init size_queue size_thread;
  };
  pc = λ i. if ltb i size_thread then looping else calling user;
}

pub data Step (s : System) : System → Type 0 where
  moves :
      (i : ℕ) {q : Shared} {p : Pc}
      → Move i s.shared (s.pc i) q p
      → Step s (record { shared = q; pc = update s.pc i p })

pub data Reach (s : System) : System → Type 0 where
  here : Reach s s
  next : {t u : System} → Reach s t → Step t u → Reach s u

-- Between the guard's constructor and its destructor, and not in a wait.
abbrev pub is_inside : Pc → Bool
is_inside (add_checking k t) = true
is_inside (adding k t) = true
is_inside (add_notifying k) = true
is_inside (add_leaving k) = true
is_inside take_checking = true
is_inside taking = true
is_inside (take_notifying t) = true
is_inside (take_leaving t) = true
is_inside (stopping k) = true
is_inside (stop_notifying k) = true
is_inside (stop_leaving k) = true
is_inside _ = false
