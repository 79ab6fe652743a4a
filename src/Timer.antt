-- ===== src/Timer.antt =====
-- ThreadAndNetWorkCoding/zdq_timer.h and zdq_timer.cpp: the class Timer, a timerfd with a loop of its
-- own. `it_value` and `it_interval` are the seconds in `howlong_`, and `armed` what the timerfd was last
-- set for. What `poll` reports is a list, and `cancels` tells at which calls the timer's callback calls
-- `cannelTimer`; `calls` counts them. `settime` tells whether
-- `timerfd_settime` takes the seconds. The timerfd has been created, and a callback has been set.
pub mod Loop
pub mod Examples
use thread_and_net.Prelude.{
  ℕ, ◌+◌, Bool, true, false, Option, none, some, List, [], ◌∷◌, if◌then◌else◌, ◌>>=◌, ◌>>◌, assert,
}

pub record Timer : Type 0 where
  pub it_value : ℕ
  pub it_interval : ℕ
  pub armed : ℕ × ℕ
  pub is_started : Bool
  pub calls : ℕ

-- What `poll` returns, with the result of the `read` that follows an event
pub data Poll : Type 0 where
  failed timeout ready unreadable : Poll

-- Where `runTimer` is: it has returned, it is in `poll` when there are no more reports, or it has ended
-- the process.
pub data Outcome : Type 0 where
  returned : Timer → List Poll → Outcome
  polling : Timer → Outcome
  ended : Outcome

-- The constructor
unfoldable pub init : Timer
init = record { it_value = 0; it_interval = 0; armed = (0, 0); is_started = false; calls = 0 }

-- `setTimer`
pub set_timer : Timer → ℕ → ℕ → Timer
set_timer t val interval = record t { it_value = val; it_interval = interval }

module _ (settime : ℕ → ℕ → Bool) where
  -- `timerfd_settime` of `howlong_`
  pub set_time : Timer → Option Timer
  set_time t = do
    assert (settime t.it_value t.it_interval)
    some (record t { armed = (t.it_value, t.it_interval) })

  -- `cannelTimer`
  pub cannel_timer : Timer → Option Timer
  unfolding set_time
  cannel_timer t = do
    t' ← set_time (record t { it_value = 0; it_interval = 0 })
    some (record t' { is_started = false })

  -- `timerCallback_`
  pub run_callback : (ℕ → Bool) → Timer → Option Timer
  unfolding cannel_timer
  run_callback cancels t =
      let t' : Timer = record t { calls = t.calls + 1 } in
      if cancels t.calls then cannel_timer t' else some t'

  -- The body of the loop, for one report
  pub run_event : (ℕ → Bool) → Timer → Poll → Option Timer
  unfolding run_callback
  run_event cancels t failed = none
  run_event cancels t timeout = some t
  run_event cancels t ready = run_callback cancels t
  run_event cancels t unreadable = none

  -- The loop of `runTimer`
  pub run_loop : (ℕ → Bool) → Timer → List Poll → Outcome
  unfolding run_event
  run_loop cancels t [] = if t.is_started then polling t else returned t []
  run_loop cancels t (p ∷ ps) =
      let next = run_event cancels t p in
      if t.is_started
      then elim next [ none ↦ ended | some t' ↦ run_loop cancels t' ps ]
      else returned t (p ∷ ps)

  -- `runTimer`
  pub run_timer : (ℕ → Bool) → Timer → List Poll → Outcome
  unfolding set_time run_loop
  run_timer cancels t ps = elim (set_time t) [
    | none ↦ ended
    | some t' ↦ run_loop cancels (record t' { is_started = true }) ps
  ]
