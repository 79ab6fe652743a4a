-- ===== src/TimeQueue.antt =====
-- ThreadAndNetWorkCoding/zdq_time_queue.h, zdq_time_queue.cpp and zdq_timer_info.h: the timers of
-- an event loop. `std::set` is a list in the order of `std::pair`; timers live in a heap, from
-- addresses to `TimerInfo`, and `none` there is memory that is not allocated, which no operation may
-- read. `requested` is the time that the last `resetTimerfd` was given, which `howMuchTimeFromNow`, in
-- Timestamp, makes the timerfd's delay of; `ran` lists the callbacks run so far.
-- Each operation runs in the loop's thread. `none` as a result is a failed assert, or a read of
-- memory that is not allocated. What a callback does to the queue is to add timers: the requests
-- that the parameter `calls` gives for it, each with the address that `new` returns.
pub mod Inv
pub mod Insert
pub mod Expire
pub mod Reset
pub mod Add
pub mod Run
pub mod Handle
pub mod Armed
pub mod Examples
use thread_and_net.Prelude.{
  ℕ, ◌+◌, ◌-◌, ◌^◌, Bool, true, false, not, ◌&&◌, ◌||◌, Option, none, some, List, [], ◌∷◌, ◌++◌,
  ltb, if◌then◌else◌, ◌>>=◌, ◌>>◌, assert, update,
}
use thread_and_net.Timestamp.{Seconds, now_after}

-- `TimerInfo`. Its callback is a name.
pub record TimerInfo : Type 0 where
  pub callback : ℕ
  pub expiration : ℕ
  pub interval : Seconds
  pub repeat : Bool
  pub sequence : ℕ

-- `Entry`
pub record Entry : Type 0 where
  pub when : ℕ
  pub ptr : ℕ

pub record TimeQueue : Type 0 where
  pub timers : List Entry
  pub heap : ℕ → Option TimerInfo
  pub requested : Option ℕ
  pub num_created : ℕ
  pub ran : List ℕ

-- The constructor `TimeQueue(loop)`
pub init : TimeQueue
init = record { timers = []; heap = λ p. none; requested = none; num_created = 0; ran = [] }

-- `addTimer`'s arguments, and the address of the new `TimerInfo`
pub record Request : Type 0 where
  pub ptr : ℕ
  pub callback : ℕ
  pub when : ℕ
  pub interval : Seconds

abbrev pub uintptr_max : ℕ
uintptr_max = 2 ^ 64 - 1

-- The order of `std::pair`
abbrev pub entry_ltb : Entry → Entry → Bool
entry_ltb a b = ltb a.when b.when || (not (ltb b.when a.when) && ltb a.ptr b.ptr)

-- `std::set::insert`, which leaves a set with an equal entry alone
pub insert : Entry → List Entry → List Entry
insert e [] = e ∷ []
insert e (x ∷ xs) =
    if entry_ltb e x then e ∷ x ∷ xs else (if entry_ltb x e then x ∷ insert e xs else x ∷ xs)

-- The constructor `TimerInfo(cb, when, interval)`
abbrev pub create_info : Request → ℕ → TimerInfo
create_info r n = record {
  callback = r.callback;
  expiration = r.when;
  interval = r.interval;
  repeat = r.interval.positive;
  sequence = n;
}

-- `TimerInfo::restart`
abbrev pub restart : TimerInfo → ℕ → TimerInfo
restart i now = record i { expiration = if i.repeat then now_after now i.interval else 0 }

-- `iter == timers_.end() || when < iter->first`, for `iter` the first entry before the insertion
abbrev pub comes_first : ℕ → List Entry → Bool
comes_first when [] = true
comes_first when (x ∷ xs) = ltb when x.when

-- `timers_.insert`, then `resetTimerfd` if the new entry comes first
pub schedule : TimeQueue → Entry → TimeQueue
schedule q e = record q {
  timers = insert e q.timers;
  requested = if comes_first e.when q.timers then some e.when else q.requested;
}

-- `addTimerInloop`
pub add_timer_in_loop : TimeQueue → ℕ → Option TimeQueue
unfolding schedule
add_timer_in_loop q ptr = do
  info ← q.heap ptr
  some (schedule q (record { when = info.expiration; ptr = ptr }))

-- `addTimer` in the loop's thread, where `runInLoop` calls `addTimerInloop` at once
pub add_timer : TimeQueue → Request → Option TimeQueue
unfolding add_timer_in_loop
add_timer q r =
    add_timer_in_loop
      (record q {
        heap = update q.heap r.ptr (some (create_info r (q.num_created + 1)));
        num_created = q.num_created + 1;
      })
      r.ptr

pub add_timers : TimeQueue → List Request → Option TimeQueue
unfolding add_timer
add_timers q [] = some q
add_timers q (r ∷ rs) = do q' ← add_timer q r; add_timers q' rs

-- `lower_bound`: the entries below `now_entry`, and the others
pub split_at : Entry → List Entry → List Entry × List Entry
split_at now_entry [] = ([], [])
split_at now_entry (x ∷ xs) =
    let (below, rest) = split_at now_entry xs in
    if entry_ltb x now_entry then (x ∷ below, rest) else ([], x ∷ xs)

-- `getAllExpiredTimers`
pub get_all_expired_timers : TimeQueue → ℕ → Option (List Entry × TimeQueue)
get_all_expired_timers q now = do
  let now_entry : Entry = record { when = now; ptr = uintptr_max }
  let (expired, rest) = split_at now_entry q.timers
  assert (comes_first now rest)
  some (expired, record q { timers = rest })

-- One round of `reset`
pub reset_one : TimeQueue → Entry → ℕ → Option TimeQueue
unfolding schedule
reset_one q e now = do
  info ← q.heap e.ptr
  let again = restart info now
  some (
      if info.repeat
      then schedule (record q { heap = update q.heap e.ptr (some again) })
          (record { when = again.expiration; ptr = e.ptr })
      else record q { heap = update q.heap e.ptr none })

pub reset : TimeQueue → List Entry → ℕ → Option TimeQueue
unfolding reset_one
reset q [] now = some q
reset q (e ∷ es) now = do q' ← reset_one q e now; reset q' es now

module _ (calls : ℕ → List Request) where
  -- `for (auto & elem : expired) elem.second->run();`
  pub run_all : TimeQueue → List Entry → Option TimeQueue
  unfolding add_timers
  run_all q [] = some q
  run_all q (e ∷ es) = do
    info ← q.heap e.ptr
    q' ← add_timers (record q { ran = q.ran ++ info.callback ∷ [] }) (calls info.callback)
    run_all q' es

  -- `handleRead`
  pub handle_read : TimeQueue → ℕ → Option TimeQueue
  unfolding get_all_expired_timers run_all reset
  handle_read q now = do r ← get_all_expired_timers q now; q' ← run_all r.1 r.0; reset q' r.0 now
