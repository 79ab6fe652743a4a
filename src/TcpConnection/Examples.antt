-- ===== src/TcpConnection/Examples.antt =====
-- A connection's theorems, where `::write` takes a part of a message.
use thread_and_net.Prelude.{
  ℕ, ◌≡◌, ◌++◌, refl, List, [], ◌∷◌, Bool, Option, some, none, arith, true, false, take, drop, ◌<◌,
  ◌+◌, ◌^◌, ◌≤◌, update, inl,
}
use thread_and_net.Buffer.{Buffer, received, append, movetohead, retrieve, read_buff_size, read_fd}
use thread_and_net.Buffer
use thread_and_net.Buffer.Inv.{IsValid}
use thread_and_net.Channel.{create, interest, handle_event}
use thread_and_net.Channel.Events.{mask}
use thread_and_net.TcpConnection.{
  TcpConnection, StateE, connected, disconnecting, create_conn, send_in_loop_now, handle_write,
  wrote, keep_rest, connect_established, event, run_callbacks, handle_read, read_result,
  handle_close, connect_destroyed,
}
use thread_and_net.TcpConnection.Stream.{Good, unsent, send_in_loop_now_lem}
use thread_and_net.TcpConnection.Written.{handle_write_lem}
use thread_and_net.Poller.{Poller}
use thread_and_net.Poller.Inv.{Wf}
use thread_and_net.Poller.Examples.{two, two-Wf}
use thread_and_net.TcpConnection.Closing.{close_round, close_round-one, close_round-none}
use thread_and_net.TcpConnection.Calls.{Op, events, queued_send, establishes, destroys, apply, run}
use thread_and_net.TcpConnection.Flush.{never_flushed}
use thread_and_net.TcpConnection.Life.{told, closed-told_once}

-- A connection in state `s` with `bytes` waiting, on a channel with the given events.
abbrev conn : StateE → Bool → Bool → List ℕ → ℕ → TcpConnection
conn s r w bytes n = record {
  state = s;
  channel = record {
    loop = 0;
    fd = 5;
    events = mask r w;
    revents = 0;
    index = some 0;
    read_callback = true;
    write_callback = false;
    error_callback = false;
    close_callback = false;
    event_handling = false;
  };
  input_buf = record { v_buff = []; read_index = 0; write_index = 0 };
  output_buf = record { v_buff = bytes; read_index = 0; write_index = n };
  has_write_complete = false;
  wire = [];
  closed = false;
  queued = [];
  log = [];
}

abbrev idle : TcpConnection
idle = conn connected true false (0 ∷ 0 ∷ []) 0

idle-Good : Good idle
idle-Good = record {
  valid = record { ordered = omega arith; inside = omega arith; small = omega arith };
  reads = true;
  writes = false;
  events = refl;
  busy = λ _. refl;
}

send_in_loop_now_example :
    (c' : TcpConnection) × (send_in_loop_now idle (1 ∷ 2 ∷ 3 ∷ []) (wrote 1) ≡ some c')
    × Good c'
    × (c'.wire ++ unsent c' ≡ ([] ++ unsent idle) ++ 1 ∷ 2 ∷ 3 ∷ [])
send_in_loop_now_example =
    send_in_loop_now_lem idle (1 ∷ 2 ∷ 3 ∷ []) 1 idle-Good (omega arith) (omega arith) (omega arith)

abbrev leaving : TcpConnection
leaving = conn disconnecting true true (7 ∷ 8 ∷ []) 2

leaving-Good : Good leaving
leaving-Good = record {
  valid = record { ordered = omega arith; inside = omega arith; small = omega arith };
  reads = true;
  writes = true;
  events = refl;
  busy = λ h. absurd (ground arith);
}

handle_write_example :
    (c' : TcpConnection) × (handle_write leaving (wrote 1) ≡ some c')
    × Good c'
    × (c'.wire ≡ [] ++ take 1 (unsent leaving))
    × (unsent c' ≡ drop 1 (unsent leaving))
unfolding leaving-Good
handle_write_example =
    handle_write_lem leaving 1 leaving-Good refl (omega arith) (omega arith) (omega arith)

-- A new connection that has been established and has written the first byte of three.
abbrev past : List Op
past = establishes ∷ queued_send (1 ∷ 2 ∷ 3 ∷ []) (wrote 1) ∷ []

abbrev or_new : Option TcpConnection → TcpConnection
or_new none = create_conn 0 5
or_new (some c) = c

unfoldable stuck : TcpConnection
unfolding run apply
stuck = or_new (run (create_conn 0 5) past)

stuck-eq : run (create_conn 0 5) past ≡ some stuck
unfolding stuck run apply create_conn connect_established send_in_loop_now keep_rest append
    Buffer.init interest create
stuck-eq = refl

stuck-IsValid : IsValid stuck.output_buf
unfolding stuck run apply create_conn connect_established send_in_loop_now keep_rest append
    Buffer.init interest create
stuck-IsValid = record { ordered = omega arith; inside = omega arith; small = omega arith }

stuck_waits : 0 < read_buff_size stuck.output_buf
unfolding stuck run apply create_conn connect_established send_in_loop_now keep_rest append
    Buffer.init interest create
stuck_waits = omega arith

stuck_small : stuck.output_buf.write_index + 0 < 2 ^ 31
unfolding stuck run apply create_conn connect_established send_in_loop_now keep_rest append
    Buffer.init interest create
stuck_small = omega arith

-- The kernel reports that the socket is writable.
abbrev writable : List Op
writable = events 4 (received []) (wrote 2) ∷ []

unfoldable still_stuck : TcpConnection
unfolding run apply
still_stuck = or_new (run stuck writable)

still_stuck-eq : run stuck writable ≡ some still_stuck
unfolding still_stuck stuck run apply event run_callbacks handle_event create_conn
    connect_established send_in_loop_now keep_rest append Buffer.init interest create
still_stuck-eq = refl

never_flushed_example : still_stuck.wire ≡ stuck.wire
never_flushed_example =
    never_flushed 0 5 past writable stuck still_stuck stuck-eq stuck-IsValid stuck_waits stuck_small
      still_stuck-eq

-- A connection whose peer closes, and which the server removes then
unfoldable opened : TcpConnection
unfolding run apply
opened = or_new (run (create_conn 0 5) (establishes ∷ []))

unfoldable left_by_peer : TcpConnection
unfolding run apply
left_by_peer = or_new (apply opened (events 1 (received []) (wrote 0)))

unfoldable removed : TcpConnection
unfolding run apply
removed = or_new (run left_by_peer (destroys ∷ []))

closed-told_once_example : told removed.log ≤ 1
unfolding opened left_by_peer removed run apply event run_callbacks handle_event handle_read
    read_result handle_close create_conn connect_established connect_destroyed read_fd Buffer.init
    interest create
closed-told_once_example =
    closed-told_once 0 5 (establishes ∷ []) (destroys ∷ []) (events 1 (received []) (wrote 0))
      opened left_by_peer removed refl (omega arith) refl refl refl refl

close_round-one_example :
    (s' : Poller) × (close_round 1 two (1 ∷ []) ≡ some s')
    × Wf s'
    × (s'.channels ≡ update two.channels 11 none)
close_round-one_example =
    close_round-one 1 two 1 two-Wf (record { loop = refl; there = refl }) refl (inl refl)

close_round-none_example : close_round 1 two (0 ∷ 1 ∷ []) ≡ none
close_round-none_example =
    close_round-none 1 two 0 1 0 two-Wf (record { loop = refl; there = refl })
      (record { loop = refl; there = refl }) refl refl refl (omega arith)
