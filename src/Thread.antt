-- ===== src/Thread.antt =====
-- ThreadAndNetWorkCoding/zdq_thread.h and zdq_thread.cpp: the class Thread. `status` is what the system
-- knows of the thread that was created last, and `makes` the results of `pthread_create`, whether it makes one.
pub mod Life
use thread_and_net.Prelude.{
  ℕ, Bool, true, false, not, ◌&&◌, Option, none, some, if◌then◌else◌, ◌>>=◌, ◌>>◌, assert, ◌≡◌,
}

-- A system thread; `invalid` is one that was detached or joined after its end, which POSIX leaves open.
pub data Status : Type 0 where
  absent joinable joined detached invalid : Status

pub record Thread : Type 0 where
  pub is_start : Bool
  pub is_join : Bool
  pub status : Status

unfoldable pub init : Thread
init = record { is_start = false; is_join = false; status = absent }

-- `pthread_join`, once the thread has ended
pub pthread_join : Status → Status
pthread_join joinable = joined
pthread_join _ = invalid

-- `pthread_detach`
pub pthread_detach : Status → Status
pthread_detach joinable = detached
pthread_detach _ = invalid

-- `start`
pub start : Bool → Thread → Option Thread
start makes t = do
  assert (not t.is_start)
  some (if makes then record t { is_start = true; status = joinable } else t)

-- `join`
pub join : Thread → Option Thread
unfolding pthread_join
join t = do
  assert t.is_start
  assert (not t.is_join)
  some (record t { is_join = true; status = pthread_join t.status })

-- The destructor
pub destroy : Thread → Thread
unfolding pthread_detach
destroy t = if t.is_start && t.is_join then record t { status = pthread_detach t.status } else t

pub data Step (t : Thread) : Thread → Type 0 where
  starts : (makes : Bool) {u : Thread} → start makes t ≡ some u → Step t u
  joins : {u : Thread} → join t ≡ some u → Step t u

pub data Reach (t : Thread) : Thread → Type 0 where
  here : Reach t t
  next : {u v : Thread} → Reach t u → Step u v → Reach t v
