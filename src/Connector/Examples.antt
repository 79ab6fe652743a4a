-- ===== src/Connector/Examples.antt =====
-- The connector's theorems from its initial state.
use thread_and_net.Prelude.{◌+◌, ◌++◌, false, ◌≡◌, refl, [], ◌∷◌, some, none, arith, true, update}
use thread_and_net.Connector.{
  init, apply, errors, handle_error, starts, timer_fires, writes, connected, econnrefused, retry,
  handle_write, remove_and_reset_channel, reset_channel_functor, Connector, connecting,
  disconnected, eagain, einprogress, start_in_loop, start, start_connecting, connect,
}
use thread_and_net.Connector.Backoff.{retries, delays, retries-delays}
use thread_and_net.Connector.Sockets.{Reach, here, next, times, held, Reach-balance}
use thread_and_net.Channel.{Channel, create, interest}
use thread_and_net.Poller.{change}
use thread_and_net.Poller.Inv.{Wf}
use thread_and_net.Poller.Examples.{two, two-Wf, chan, slot}
use thread_and_net.Connector.Polling
use thread_and_net.Connector.Polling.{Polled, step, effect, touch, start_polling}
use thread_and_net.Connector.Attached.{Reach-attached, step_succeeds}
use thread_and_net.Connector.Race.{start-timer-none}

-- A connector after a first attempt that failed
abbrev put_off : Connector
put_off = record {
  connect_wanted = true;
  state = disconnected;
  channel = none;
  retry_delay_ms = 1000;
  created = 3 ∷ [];
  closed = 3 ∷ [];
  handed = [];
  queued = [];
  timers = 500 ∷ [];
}

retries-delays_example : (retries put_off (4 ∷ 5 ∷ [])).timers ≡ (500 ∷ []) ++ delays 1000 2
retries-delays_example = retries-delays put_off (4 ∷ 5 ∷ []) refl (omega arith)

abbrev started : Connector
started = record put_off { state = connecting; channel = some 4; created = 4 ∷ 3 ∷ [] }

started-eq : start put_off 4 einprogress ≡ some started
unfolding start start_in_loop connect start_connecting
started-eq = refl

-- Before that attempt
abbrev wanted : Connector
wanted = record put_off { retry_delay_ms = 500; created = []; closed = []; timers = [] }

put_off-eq : connect wanted 3 econnrefused ≡ some put_off
unfolding connect retry
put_off-eq = refl

start-timer-none_example : (started.timers ≡ 500 ∷ []) × (start_in_loop started 5 eagain ≡ none)
start-timer-none_example =
    start-timer-none wanted put_off started 3 4 5 eagain refl put_off-eq started-eq

-- A first attempt that is refused, and one that succeeds
abbrev first_refused : Connector
first_refused = record put_off { retry_delay_ms = 1000 }

abbrev second_begun : Connector
second_begun = record first_refused { state = connecting; channel = some 4; created = 4 ∷ 3 ∷ [] }

abbrev second_done : Connector
second_done = record second_begun {
  state = connected;
  handed = 4 ∷ [];
  queued = reset_channel_functor ∷ [];
}

second_done-Reach : Reach init second_done
unfolding init apply start start_in_loop connect start_connecting retry handle_write
    remove_and_reset_channel
second_done-Reach =
    next {d = second_begun} (writes false false)
      (next {d = first_refused} (timer_fires 4 einprogress)
        (next {d = init} (starts 3 econnrefused) here tt refl) tt refl)
      tt refl

Reach-balance_example :
    times 4 second_done.created
    ≡ times 4 second_done.closed
      + times 4 second_done.handed
      + times 4 (held second_done.state second_done.channel)
Reach-balance_example = Reach-balance 4 second_done-Reach

-- An attempt to connect, on descriptor 12, beside two other channels
abbrev dialing : Polled
dialing = record {
  connector = record init {
    connect_wanted = true;
    state = connecting;
    channel = some 12;
    created = 12 ∷ [];
  };
  poller = record two {
    pollfds = slot 10 0 ∷ slot 11 1 ∷ record { fd = some 12; events = 4; revents = 0 } ∷ [];
    channels = update two.channels 12 (some 7);
    heap = update (update (update chan 7 fresh) 7 enabled) 7 (record enabled { index = some 2 });
  };
  address = 7;
}
  where
    fresh : Channel
    fresh = record (create 0 12) { write_callback = true; error_callback = true }

    enabled : Channel
    enabled = record fresh { events = 4 }

dialing-Reach : Polling.Reach 1 two dialing
unfolding step effect touch start_polling apply init change interest
dialing-Reach =
    Polling.next (starts 12 einprogress) 7 (Polling.here 0)
      (record { unused = refl; unnamed = λ f h. ground arith }) refl

Reach-attached_example : Wf dialing.poller × (dialing.poller.channels 12 ≡ some 7)
unfolding create
Reach-attached_example = Reach-attached 1 two dialing 12 two-Wf refl dialing-Reach

-- After an error
abbrev failed : Connector
failed = record (dialing.connector) {
  state = disconnected;
  retry_delay_ms = 1000;
  closed = 12 ∷ [];
  queued = reset_channel_functor ∷ [];
  timers = 500 ∷ [];
}

step_succeeds_example : (y : Polled) × (step 1 dialing errors 8 ≡ some y) × (y.connector ≡ failed)
unfolding apply handle_error remove_and_reset_channel retry init
step_succeeds_example =
    step_succeeds 1 two dialing errors 8 failed two-Wf refl dialing-Reach tt refl
