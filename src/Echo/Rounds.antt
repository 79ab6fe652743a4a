-- ===== src/Echo/Rounds.antt =====
-- What comes in goes out.
use thread_and_net.Prelude.{
  ℕ, ◌+◌, ◌^◌, ◌≡◌, ◌≤◌, ◌<◌, refl, sym, ap, subst, ◌∙◌, List, [], ◌∷◌, ◌++◌, arith, true, false,
  Option, some, length, ◌>>=◌, append_assoc, append-nil, lt→ltb,
}
use thread_and_net.Channel.{create, interest, enable_reading}
use thread_and_net.Channel.Events.{mask}
use thread_and_net.Buffer.{
  received, default_size, Buffer, extrabuf_size, readv_room, read_fd, read_buff_size,
  retrieve_all_as_string,
}
use thread_and_net.Buffer
use thread_and_net.Buffer.Inv.{IsValid}
use thread_and_net.Buffer.Contents.{contents, length-contents, Holds}
use thread_and_net.Buffer.Fifo.{read_fd_lem, retrieve_all_as_string_lem}
use thread_and_net.TcpConnection.{
  TcpConnection, note, message_callback, connection_callback, with_interest, connected, Write,
  wrote, send, send_in_loop_now, read_result, create_conn, connect_established,
}
use thread_and_net.TcpConnection.Stream.{Good, unsent, Good-of, send_in_loop_now-Kept}
use thread_and_net.Echo.{
  Session, new_connection, received_line, on_connection, on_message, handle_read, accept, establish,
}

-- The bytes that one read brings, and how many of them the write takes that follows.
pub record Round : Type 0 where
  pub bytes : List ℕ
  pub taken : ℕ

-- The kernel hands over some bytes, up to the room of `extrabuf`, and takes no more than it is given.
pub record IsSound (r : Round) : Type 0 where
  pub some_bytes : 0 < length r.bytes
  pub at_most : length r.bytes ≤ extrabuf_size
  pub taken_fit : r.taken ≤ length r.bytes

abbrev pub AllSound : List Round → Type 0
AllSound [] = Unit {0}
AllSound (r ∷ rs) = IsSound r × AllSound rs

abbrev pub input_of : List Round → List ℕ
input_of [] = []
input_of (r ∷ rs) = r.bytes ++ input_of rs

abbrev pub total : List Round → ℕ
total [] = 0
total (r ∷ rs) = length r.bytes + total rs

pub run : Session → List Round → Option Session
run s [] = some s
run s (r ∷ rs) = do s' ← handle_read s (received r.bytes) (wrote r.taken); run s' rs

-- A session between two events: connected, and with an empty input buffer.
record Ready (bound : ℕ) (s : Session) : Type 0 where
  good : Good s.conn
  on : s.conn.state ≡ connected
  valid : IsValid s.conn.input_buf
  empty : contents s.conn.input_buf ≡ []
  room_in : s.conn.input_buf.write_index ≤ bound
  room_out : s.conn.output_buf.write_index ≤ bound

-- The bytes on the wire, then those that wait
abbrev pub output : Session → List ℕ
output s = s.conn.wire ++ unsent s.conn

send-connected :
    (c : TcpConnection) (message : List ℕ) (w : Write)
    → c.state ≡ connected
    → send true c message w ≡ send_in_loop_now c message w
unfolding send
send-connected c message w h = rw h refl

-- `onMessage` takes every byte out of the input buffer, and sends it.
on_message-Ready :
    (bound : ℕ) (s : Session) (bytes : List ℕ) (taken : ℕ)
    → Good s.conn
    → s.conn.state ≡ connected
    → Holds bytes s.conn.input_buf
    → s.conn.input_buf.write_index ≤ bound + length bytes
    → s.conn.output_buf.write_index ≤ bound
    → taken ≤ length bytes
    → bound + length bytes < 2 ^ 31
    → (s' : Session) × (on_message s (wrote taken) ≡ some s')
      × Ready (bound + length bytes) s'
      × (output s' ≡ output s ++ bytes)
unfolding on_message
on_message-Ready bound s bytes taken good on holds in_fit out_fit le fit =
    let size : read_buff_size s.conn.input_buf ≡ length bytes =
      sym (length-contents holds.valid) ∙ ap length holds.holds in
    let (b, e, emptied, w) =
      retrieve_all_as_string_lem s.conn.input_buf holds.valid (omega (arith, size)) in
    let c : TcpConnection = record (s.conn) { input_buf = b } in
    let (c', sent, g, out, k) =
      send_in_loop_now-Kept c bytes taken (Good-of (s.conn) c refl refl good) le (omega arith)
        (omega arith) in
    let got = e ∙ ap (λ m. some (m, b)) holds.holds in
    (
      record { conn = c'; printed = s.printed ++ received_line bytes ∷ [] },
      rw (got, send-connected c bytes (wrote taken) on, sent) refl,
      record {
        good = g;
        on = k.state ∙ on;
        valid = subst IsValid (sym k.input) emptied.valid;
        empty = ap contents k.input ∙ emptied.holds;
        room_in = omega (arith, ap (λ (x : Buffer). x.write_index) k.input, w);
        room_out = omega (arith, k.room);
      },
      out,
    )

round-Ready :
    (bound : ℕ) (s : Session) (r : Round)
    → Ready bound s
    → IsSound r
    → bound + length r.bytes < 2 ^ 31
    → (s' : Session) × (handle_read s (received r.bytes) (wrote r.taken) ≡ some s')
      × Ready (bound + length r.bytes) s'
      × (output s' ≡ output s ++ r.bytes)
unfolding handle_read read_result
round-Ready bound s r i h fit =
    let (b, e, holds, w) =
      read_fd_lem s.conn.input_buf r.bytes i.valid room (omega (arith, i.room_in)) in
    let read : Session = record s {
      conn = record (note (s.conn) message_callback) { input_buf = b };
    } in
    let (s', ran, ready, out) =
      on_message-Ready bound read r.bytes r.taken (Good-of (s.conn) read.conn refl refl i.good) i.on
        (record { valid = holds.valid; holds = holds.holds ∙ ap (λ t. t ++ r.bytes) i.empty })
        (omega (arith, w, i.room_in)) i.room_out h.taken_fit fit in
    (s', rw (e, lt→ltb 0 (length r.bytes) h.some_bytes) ran, ready, out)
  where
    room : length r.bytes ≤ readv_room s.conn.input_buf
    room = ground (arith, h.at_most)

run-Ready :
    (bound : ℕ) (s : Session) (rs : List Round)
    → Ready bound s
    → AllSound rs
    → bound + total rs < 2 ^ 31
    → (s' : Session) × (run s rs ≡ some s')
      × Ready (bound + total rs) s'
      × (output s' ≡ output s ++ input_of rs)
unfolding run
run-Ready bound s [] i h fit =
    (s, refl, subst (λ n. Ready n s) (omega arith) i, sym (append-nil (output s)))
run-Ready bound s (r ∷ rs) i h fit =
    let (s', e, i', o) = round-Ready bound s r i h.0 (omega arith) in
    let (s'', e', i'', o') = run-Ready (bound + length r.bytes) s' rs i' h.1 (omega arith) in
    (
      s'',
      rw e e',
      subst (λ n. Ready n s'') (omega arith) i'',
      o' ∙ ap (λ t. t ++ input_of rs) o ∙ append_assoc (output s) r.bytes (input_of rs),
    )

-- A session that was just accepted
fresh : ℕ → ℕ → Session
unfolding create_conn connect_established
fresh loop sockfd = record {
  conn =
      note (with_interest (record (create_conn loop sockfd) { state = connected }) enable_reading)
        connection_callback;
  printed = new_connection ∷ [];
}

new_valid : IsValid (Buffer.init default_size)
unfolding Buffer.init
new_valid = record { ordered = omega arith; inside = omega arith; small = omega arith }

accept-Ready :
    (loop sockfd : ℕ)
    → (s : Session) × (accept loop sockfd ≡ some s) × Ready default_size s × (output s ≡ [])
unfolding accept establish on_connection create_conn connect_established create Buffer.init interest
    fresh mask
accept-Ready loop sockfd = (
  fresh loop sockfd,
  refl,
  record {
    good = record {
      valid = new_valid;
      reads = true;
      writes = false;
      events = refl;
      busy = λ _. refl;
    };
    on = refl;
    valid = new_valid;
    empty = refl;
    room_in = omega arith;
    room_out = omega arith;
  },
  refl,
)

-- Whatever comes in on a new session, in whatever pieces, and however much of it each `::write` takes: no
-- call fails, and the bytes on the wire, then those that wait, are the bytes that came in, in order. They
-- come to less than 2 ^ 30, and each read brings some, up to 65536.
pub echo-round_trip :
    (loop sockfd : ℕ) (rs : List Round)
    → AllSound rs
    → total rs < 2 ^ 30
    → (s : Session) × (s' : Session) × (accept loop sockfd ≡ some s)
      × (run s rs ≡ some s')
      × (output s' ≡ input_of rs)
echo-round_trip loop sockfd rs h fit =
    let (s, e, i, o) = accept-Ready loop sockfd in
    let (s', e', _, o') = run-Ready default_size s rs i h (omega arith) in
    (s, s', e, e', o' ∙ ap (λ t. t ++ input_of rs) o)
