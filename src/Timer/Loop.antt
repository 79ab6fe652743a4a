-- ===== src/Timer/Loop.antt =====
-- When the loop of a timer returns.
use thread_and_net.Prelude.{
  ℕ, ◌+◌, ◌≤◌, ◌<◌, ◌≡◌, refl, Bool, true, false, List, [], ◌∷◌, arith, Bool-cases, inl, inr, ◌≢◌,
  ◌∙◌,
}
use thread_and_net.Timer.{
  Timer, Poll, failed, timeout, ready, unreadable, Outcome, returned, set_time, cannel_timer,
  run_callback, run_event, run_loop, run_timer,
}

-- Neither `poll` nor `read` fails.
abbrev pub is_good : List Poll → Bool
is_good [] = true
is_good (timeout ∷ ps) = is_good ps
is_good (ready ∷ ps) = is_good ps
is_good (_ ∷ ps) = false

-- How often the timerfd is readable
abbrev pub events : List Poll → ℕ
events [] = 0
events (ready ∷ ps) = events ps + 1
events (_ ∷ ps) = events ps

-- `runTimer` has returned, with the timer stopped and the timerfd off, after at most `n` calls.
pub record Stopped (n : ℕ) (o : Outcome) : Type 0 where
  pub timer : Timer
  pub rest : List Poll
  pub is_returned : o ≡ returned timer rest
  pub stopped : timer.is_started ≡ false
  pub off : timer.armed ≡ (0, 0)
  pub few : timer.calls ≤ n

with_outcome : {n : ℕ} {o o' : Outcome} → Stopped n o → o' ≡ o → Stopped n o'
with_outcome s e = record {
  timer = s.timer;
  rest = s.rest;
  is_returned = e ∙ s.is_returned;
  stopped = s.stopped;
  off = s.off;
  few = s.few;
}

run_loop-returned :
    (settime : ℕ → ℕ → Bool) (cancels : ℕ → Bool) (t : Timer) (ps : List Poll)
    → t.is_started ≡ false
    → run_loop settime cancels t ps ≡ returned t ps
unfolding run_loop
run_loop-returned settime cancels t [] h = ground arith
run_loop-returned settime cancels t (p ∷ ps) h = ground arith

-- The timer after a call that cancels it
abbrev off_timer : Timer → Timer
off_timer t = record {
  it_value = 0;
  it_interval = 0;
  armed = (0, 0);
  is_started = false;
  calls = t.calls + 1;
}

run_loop-Stopped :
    (settime : ℕ → ℕ → Bool) (cancels : ℕ → Bool) (n : ℕ) (t : Timer) (ps : List Poll)
    → settime 0 0 ≡ true
    → is_good ps ≡ true
    → t.is_started ≡ true
    → t.calls ≤ n
    → n < t.calls + events ps
    → cancels n ≡ true
    → Stopped (n + 1) (run_loop settime cancels t ps)
unfolding run_loop run_event run_callback cannel_timer set_time
run_loop-Stopped settime cancels n t [] off good on low high c = absurd (omega arith)
run_loop-Stopped settime cancels n t (timeout ∷ ps) off good on low high c =
    let rest = run_loop-Stopped settime cancels n t ps off good on low high c in
    with_outcome rest (ground arith)
run_loop-Stopped settime cancels n t (ready ∷ ps) off good on low high c =
    elim (Bool-cases (cancels t.calls)) [
      | inl e ↦
          let t' : Timer = off_timer t in
          record {
            timer = t';
            rest = ps;
            is_returned = ground (arith, run_loop-returned settime cancels t' ps refl);
            stopped = refl;
            off = refl;
            few = omega arith;
          }
      | inr e ↦
          let other : t.calls ≢ n = λ q. ground arith in
          let rest =
            run_loop-Stopped settime cancels n (record t { calls = t.calls + 1 }) ps off good on
              (omega arith) (omega arith) c in
          with_outcome rest (ground arith)
    ]
run_loop-Stopped settime cancels n t (failed ∷ ps) off good on low high c = absurd (ground arith)
run_loop-Stopped settime cancels n t (unreadable ∷ ps) off good on low high c =
    absurd (ground arith)

-- `runTimer` of a timer that has not run returns, if its callback calls `cannelTimer` at some call, here
-- call `n`, the timerfd is readable more than `n` times, and no system call fails: it has then called
-- back at most `n + 1` times, and the timerfd is off.
pub run_timer-Stopped :
    (settime : ℕ → ℕ → Bool) (cancels : ℕ → Bool) (n : ℕ) (t : Timer) (ps : List Poll)
    → settime 0 0 ≡ true
    → settime t.it_value t.it_interval ≡ true
    → is_good ps ≡ true
    → t.calls ≡ 0
    → n < events ps
    → cancels n ≡ true
    → Stopped (n + 1) (run_timer settime cancels t ps)
unfolding run_timer set_time
run_timer-Stopped settime cancels n t ps off set good new enough c =
    let started : Timer = record t { armed = (t.it_value, t.it_interval); is_started = true } in
    let rest =
      run_loop-Stopped settime cancels n started ps off good refl (omega arith) (omega arith) c in
    with_outcome rest (ground arith)
