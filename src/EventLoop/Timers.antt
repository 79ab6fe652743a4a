-- ===== src/EventLoop/Timers.antt =====
-- `EventLoop::runAt`, `runAfter` and `runEvery` of zdq_event_loop.cpp, in the loop's thread: timers for the
-- loop's queue. `ptr` is the address that `new TimerInfo` returns, and `now` the time of the call.
use thread_and_net.Prelude.{ℕ, ◌≡◌, ◌<◌, Option, some, none, false, [], ◌∷◌}
use thread_and_net.Timestamp.{Seconds, now_after}
use thread_and_net.TimeQueue.{TimeQueue, add_timer, uintptr_max}
use thread_and_net.TimeQueue.Inv.{Wf}
use thread_and_net.TimeQueue.Reset.{Has}
use thread_and_net.TimeQueue.Add.{Grown, add_timer_lem}

-- `0.0`
abbrev pub zero_seconds : Seconds
zero_seconds = record { positive = false; micros = 0 }

-- `runAt`
pub run_at : TimeQueue → ℕ → ℕ → ℕ → Option TimeQueue
run_at q ptr time cb =
    add_timer q (record { ptr = ptr; callback = cb; when = time; interval = zero_seconds })

-- `runAfter`
pub run_after : TimeQueue → ℕ → ℕ → Seconds → ℕ → Option TimeQueue
unfolding run_at
run_after q ptr now delay cb = run_at q ptr (now_after now delay) cb

-- `runEvery`
pub run_every : TimeQueue → ℕ → ℕ → Seconds → ℕ → Option TimeQueue
run_every q ptr now interval cb =
    add_timer q
      (record { ptr = ptr; callback = cb; when = now_after now interval; interval = interval })

-- After `runAfter` at a fresh address the queue is well formed, has the timer at its delay from now, and
-- every timer that it had.
run_after-Grown :
    (q : TimeQueue) (ptr now cb : ℕ) (delay : Seconds)
    → Wf q
    → q.heap ptr ≡ none
    → ptr < uintptr_max
    → (q' : TimeQueue) × (run_after q ptr now delay cb ≡ some q')
      × Grown q q' (ptr ∷ [])
      × Has (record { when = now_after now delay; ptr = ptr }) q'.timers
unfolding run_after run_at
run_after-Grown q ptr now cb delay w free small =
    add_timer_lem q
      (record { ptr = ptr; callback = cb; when = now_after now delay; interval = zero_seconds }) w
      free small

-- So it has after `runEvery`, with the timer at its interval from now.
run_every-Grown :
    (q : TimeQueue) (ptr now cb : ℕ) (interval : Seconds)
    → Wf q
    → q.heap ptr ≡ none
    → ptr < uintptr_max
    → (q' : TimeQueue) × (run_every q ptr now interval cb ≡ some q')
      × Grown q q' (ptr ∷ [])
      × Has (record { when = now_after now interval; ptr = ptr }) q'.timers
unfolding run_every
run_every-Grown q ptr now cb interval w free small =
    add_timer_lem q
      (record { ptr = ptr; callback = cb; when = now_after now interval; interval = interval }) w
      free small
