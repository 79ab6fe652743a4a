-- ===== src/TimeQueue/Examples.antt =====
-- The timer queue's theorems on a queue of two timers.
use thread_and_net.Prelude.{
  ℕ, ◌+◌, ◌*◌, ◌⊎◌, ◌≡◌, ◌≤◌, refl, List, [], ◌∷◌, some, none, arith, inl, true, false, ◌==◌,
  if◌then◌else◌, update,
}
use thread_and_net.Timestamp.{Seconds, how_much_time_from_now}
use thread_and_net.Timestamp.Delay.{nanos}
use thread_and_net.TimeQueue.{
  TimerInfo, Entry, TimeQueue, Request, init, insert, schedule, add_timer_in_loop, add_timer,
  handle_read,
}
use thread_and_net.TimeQueue.Inv.{All, Wf}
use thread_and_net.TimeQueue.Expire.{due, later}
use thread_and_net.TimeQueue.Reset.{Has, Settles}
use thread_and_net.TimeQueue.Add.{Fresh}
use thread_and_net.TimeQueue.Run.{requests, callbacks}
use thread_and_net.TimeQueue.Handle.{handle_read_lem}
use thread_and_net.TimeQueue.Armed.{Reach, here, next, adds, Reach-armed}

abbrev once : Seconds
once = record { positive = false; micros = 0 }

abbrev each_second : Seconds
each_second = record { positive = true; micros = 1000000 }

abbrev info : ℕ → Seconds → TimerInfo
info when s = record {
  callback = when;
  expiration = when;
  interval = s;
  repeat = s.positive;
  sequence = 1;
}

-- At address 1 a timer for time 10 that repeats, at address 2 one for time 20.
abbrev two_timers : TimeQueue
two_timers = record {
  timers = record { when = 10; ptr = 1 } ∷ record { when = 20; ptr = 2 } ∷ [];
  heap = λ p.
      if p == 1 then some (info 10 each_second) else (if p == 2 then some (info 20 once) else none);
  requested = some 10;
  num_created = 2;
  ran = [];
}

two_timers-Wf : Wf two_timers
two_timers-Wf = record {
  sorted = ((inl (omega arith), tt), (tt, tt));
  apart = ((ground arith, tt), (tt, tt));
  owned = (
    (info 10 each_second, refl, refl, omega arith),
    ((info 20 once, refl, refl, omega arith), tt),
  );
  armed_for = (10, refl, omega arith);
}

-- The callback of the timer for time 10 adds one for time 30.
abbrev calls : ℕ → List Request
calls c =
    if c == 10 then (record { ptr = 3; callback = 30; when = 30; interval = once }) ∷ [] else []

fresh : Fresh two_timers.heap (requests calls two_timers.heap (due 15 two_timers.timers))
unfolding due
fresh = (refl, omega arith, tt, tt)

handle_read_example :
    (q' : TimeQueue) × (handle_read calls two_timers 15 ≡ some q')
    × Wf q'
    × (q'.ran ≡ callbacks calls two_timers.heap (due 15 two_timers.timers))
    × All (Settles 15 two_timers.heap q') (due 15 two_timers.timers)
    × ((d : Entry) → Has d (later 15 two_timers.timers) → Has d q'.timers)
handle_read_example = handle_read_lem calls two_timers 15 two_timers-Wf fresh

abbrev for_ten : Request
for_ten = record { ptr = 1; callback = 10; when = 10; interval = each_second }

abbrev one_timer : TimeQueue
one_timer = record {
  timers = record { when = 10; ptr = 1 } ∷ [];
  heap = update (λ p. none) 1 (some (info 10 each_second));
  requested = some 10;
  num_created = 1;
  ran = [];
}

one_timer-Reach : Reach init one_timer
unfolding init add_timer add_timer_in_loop schedule insert
one_timer-Reach = next here (adds init one_timer for_ten refl (omega arith) refl)

Reach-armed_example :
    (t : ℕ) × (one_timer.requested ≡ some t)
    × (t ≤ 10)
    × ((3 * 1000 + nanos (how_much_time_from_now t 3) ≤ 10 * 1000)
        ⊎ (nanos (how_much_time_from_now t 3) ≡ 100_000))
Reach-armed_example = Reach-armed 3 (record { when = 10; ptr = 1 }) one_timer-Reach (inl refl)
