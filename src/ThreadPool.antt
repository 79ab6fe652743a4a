-- ===== src/ThreadPool.antt =====
-- ThreadAndNetWorkCoding/zdq_thread_pool.h and zdq_thread_pool.cpp: the pool's queue of tasks. Each
-- operation is what a thread does in its critical section; `none` means that the thread waits on a
-- condition. A task is a name; `added` and `taken` list the tasks that were put into the queue and
-- those that a thread got from it.
pub mod Bounded
pub mod Threads
pub mod Simulation
pub mod Signals
pub mod Starved
pub mod Examples
use thread_and_net.Prelude.{
  ℕ, ◌+◌, ◌≡◌, Bool, true, false, Option, none, some, List, [], ◌∷◌, ◌++◌, ltb, if◌then◌else◌,
  length,
}

pub record ThreadPool : Type 0 where
  pub size_queue : ℕ
  pub is_start : Bool
  pub b_queue : List ℕ
  pub threads : ℕ
  pub added : List ℕ
  pub taken : List ℕ

pub init : ThreadPool
init = record {
  size_queue = 0;
  is_start = false;
  b_queue = [];
  threads = 0;
  added = [];
  taken = [];
}

-- `start`
pub start : ThreadPool → ℕ → ℕ → ThreadPool
start p size_queue size_thread = record p {
  size_queue = size_queue;
  is_start = true;
  threads = p.threads + size_thread;
}

-- `addTask`: while the queue is full, the thread waits.
pub add_task : ThreadPool → ℕ → Option ThreadPool
add_task p t =
    if ltb (length p.b_queue) p.size_queue
    then some (record p { b_queue = p.b_queue ++ t ∷ []; added = p.added ++ t ∷ [] })
    else none

-- `take`: while the queue is empty and the pool runs, the thread waits; when the pool has been
-- stopped it may get an empty task.
pub take_task : ThreadPool → Option (Option ℕ × ThreadPool)
take_task p = elim p.b_queue [
  | [] ↦ if p.is_start then none else some (none, p)
  | t ∷ ts ↦ some (some t, record p { b_queue = ts; taken = p.taken ++ t ∷ [] })
]

-- `stop`, up to the joins
pub stop : ThreadPool → ThreadPool
stop p = if p.is_start then record p { is_start = false } else p

-- Its end: the tasks that are left are dropped.
pub end_stop : ThreadPool → ThreadPool
end_stop p = record p { b_queue = []; threads = 0 }

-- The steps of the threads, until `stop` clears the queue
pub data Step : ThreadPool → ThreadPool → Type 0 where
  adds : (p p' : ThreadPool) (t : ℕ) → add_task p t ≡ some p' → Step p p'
  takes : (p p' : ThreadPool) (t : Option ℕ) → take_task p ≡ some (t, p') → Step p p'
  stops : (p : ThreadPool) → Step p (stop p)

pub data Reach (p : ThreadPool) : ThreadPool → Type 0 where
  here : Reach p p
  next : {q r : ThreadPool} → Reach p q → Step q r → Reach p r
