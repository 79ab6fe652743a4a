-- ===== src/EventLoopThreadPool.antt =====
-- ThreadAndNetWorkCoding/zdq_eventloop_threadpool.h and zdq_eventloop_threadpool.cpp: the pool of
-- event loops that a server spreads its connections over. A loop is a name; `start` is given the
-- loops that `EventLoopThread::startLoop` returns, and whether each call is in the base loop's
-- thread. `init_called` tells that the initial callback has been run on the base loop. `none` is a
-- failed assert, or a read out of range.
pub mod Rotation
pub mod Examples
use thread_and_net.Prelude.{
  ℕ, zero, suc, ◌+◌, Bool, true, false, not, ◌&&◌, Option, none, some, List, [], ◌∷◌, ◌++◌, leb,
  ◌==◌, if◌then◌else◌, ◌>>=◌, ◌>>◌, assert, length, get_elem?,
}

pub record EventLoopThreadPool : Type 0 where
  pub base_loop : ℕ
  pub started : Bool
  pub num_threads : ℕ
  pub next : ℕ
  pub loops : List ℕ
  pub init_called : Bool

unfoldable pub init : ℕ → EventLoopThreadPool
init base = record {
  base_loop = base;
  started = false;
  num_threads = 0;
  next = 0;
  loops = [];
  init_called = false;
}

-- `setThreadNum`
unfoldable pub set_thread_num : EventLoopThreadPool → ℕ → EventLoopThreadPool
set_thread_num p n = record p { num_threads = n }

-- The loop of `start`, for the numbers below `n`; `new_loop i` is the loop of the thread started `i`th.
unfoldable pub start_threads : (ℕ → ℕ) → ℕ → List ℕ
start_threads new_loop zero = []
start_threads new_loop (suc n) = start_threads new_loop n ++ new_loop n ∷ []

-- `start`; `cb` tells that there is an initial callback.
unfoldable pub start : Bool → EventLoopThreadPool → (ℕ → ℕ) → Bool → Option EventLoopThreadPool
unfolding start_threads
start in_loop p new_loop cb = do
  assert (not p.started)
  assert in_loop
  some (record p {
    started = true;
    loops = p.loops ++ start_threads new_loop p.num_threads;
    init_called = (p.num_threads == 0) && cb;
  })

-- `getNextLoop`
unfoldable pub get_next_loop : Bool → EventLoopThreadPool → Option (ℕ × EventLoopThreadPool)
get_next_loop in_loop p = do
  assert p.started
  assert in_loop
  (if length p.loops == 0 then some (p.base_loop, p) else (do
    loop ← get_elem? p.loops p.next
    some (loop, record p { next = if leb (length p.loops) (p.next + 1) then 0 else p.next + 1 })))
