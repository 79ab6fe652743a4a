-- ===== src/Echo.antt =====
-- demos/echo/echo_server.cpp: the server's callbacks on one connection, called where TcpConnection calls
-- them. A line that is printed is kept as its kind and its message; names and addresses are left out.
pub mod Rounds
pub mod Examples
use thread_and_net.Prelude.{
  ℕ, Bool, true, false, Option, none, some, List, [], ◌∷◌, ◌++◌, ltb, if◌then◌else◌, ◌>>=◌, ◌>>◌,
}
use thread_and_net.Buffer.{
  Readv, ReadResult, bytes_read, read_error, read_fd, retrieve_all_as_string,
}
use thread_and_net.TcpConnection.{
  TcpConnection, Write, create_conn, is_connected, send, read_result, connect_established,
  connect_destroyed,
}

pub data Line : Type 0 where
  new_connection down : Line
  received_line : List ℕ → Line

pub record Session : Type 0 where
  pub conn : TcpConnection
  pub printed : List Line

-- `onConnection`
pub on_connection : Session → Session
on_connection s = record s {
  printed = s.printed ++ (if is_connected s.conn.state then new_connection else down) ∷ [];
}

-- `onMessage`; `w` is the result of the `::write` that `send` makes.
pub on_message : Session → Write → Option Session
on_message s w = do
  r ← retrieve_all_as_string s.conn.input_buf
  c ← send true (record (s.conn) { input_buf = r.1 }) r.0 w
  some (record { conn = c; printed = s.printed ++ received_line r.0 ∷ [] })

-- Does `handleRead` call the message callback?
abbrev pub is_message : ReadResult → Bool
is_message (bytes_read n) = ltb 0 n
is_message (read_error e) = false

-- `TcpConnection::handleRead`, with `onMessage` as the callback
pub handle_read : Session → Readv → Write → Option Session
unfolding on_message
handle_read s input w = do
  r ← read_fd s.conn.input_buf input
  let s' : Session = record s { conn = read_result (record (s.conn) { input_buf = r.1 }) r.0 }
  (if is_message r.0 then on_message s' w else some s')

-- `connectEstablished`, with `onConnection` as the callback
pub establish : Session → Option Session
unfolding on_connection
establish s = do c ← connect_established s.conn; some (on_connection (record s { conn = c }))

-- `connectDestroyed`, which calls `onConnection` for a connection that is still connected
pub destroy : Session → Session
unfolding on_connection
destroy s =
    let s' : Session = record s { conn = connect_destroyed s.conn } in
    if is_connected s.conn.state then on_connection s' else s'

-- A session that the server has just accepted
pub accept : ℕ → ℕ → Option Session
unfolding establish
accept loop sockfd = establish (record { conn = create_conn loop sockfd; printed = [] })
