-- ===== src/TcpConnection.antt =====
-- ThreadAndNetWorkCoding/zdq_tcp_connection.h and zdq_tcp_connection.cpp: one connection, as its
-- loop's thread works on it. `wire` is what `::write` has taken of the connection's bytes so far, and
-- `closed` tells that `shutdown(SHUT_WR)` has been called. `queued` is what the connection has passed
-- to `appendFuncInLoop`, and `log` the user's callbacks, in order; what a user does in a callback is
-- a later call. The channel's mask is kept here; the poller's part of `update` is in Poller. `none`
-- is the end of the process, by a failed assert or by ERR_EXIT.
pub mod Stream
pub mod Written
pub mod Calls
pub mod Stuck
pub mod Flush
pub mod Life
pub mod Closing
pub mod Examples
use thread_and_net.Prelude.{
  ℕ, ◌+◌, ◌-◌, Bool, true, false, not, ◌&&◌, ◌||◌, Option, none, some, List, [], ◌∷◌, ◌++◌, ltb,
  ◌==◌, if◌then◌else◌, ◌>>=◌, ◌>>◌, assert, length, take, drop,
}
use thread_and_net.Channel.{
  Channel, Callback, Interest, interest, create, is_writeing, handle_event, enable_reading,
  enable_writeing, disable_writeing, disable_all,
}
use thread_and_net.Channel
use thread_and_net.Buffer
use thread_and_net.Buffer.{
  Buffer, Readv, ReadResult, bytes_read, read_error, read_buff_size, peek, retrieve, append,
  read_fd, as_int, default_size,
}

-- `StateE`
pub data StateE : Type 0 where
  disconnected connecting connected disconnecting : StateE

pub data Functor : Type 0 where
  write_complete force_close_in_loop shutdown_in_loop : Functor
  send_in_loop : List ℕ → Functor

pub data Note : Type 0 where
  connection_callback message_callback close_callback error_printed : Note

pub record TcpConnection : Type 0 where
  pub state : StateE
  pub channel : Channel
  pub input_buf : Buffer
  pub output_buf : Buffer
  pub has_write_complete : Bool
  pub wire : List ℕ
  pub closed : Bool
  pub queued : List Functor
  pub log : List Note

-- The constructor, which sets the read callback of the channel.
unfoldable pub create_conn : ℕ → ℕ → TcpConnection
unfolding create
create_conn loop sockfd = record {
  state = connecting;
  channel = record (create loop sockfd) { read_callback = true };
  input_buf = Buffer.init default_size;
  output_buf = Buffer.init default_size;
  has_write_complete = false;
  wire = [];
  closed = false;
  queued = [];
  log = [];
}

abbrev pub is_connected : StateE → Bool
is_connected connected = true
is_connected _ = false

abbrev pub is_connecting : StateE → Bool
is_connecting connecting = true
is_connecting _ = false

abbrev pub is_disconnecting : StateE → Bool
is_disconnecting disconnecting = true
is_disconnecting _ = false

abbrev pub with_interest : TcpConnection → Interest → TcpConnection
with_interest c i = record c {
  channel = record (c.channel) { events = interest i c.channel.events };
}

abbrev pub enqueue : TcpConnection → Functor → TcpConnection
enqueue c f = record c { queued = c.queued ++ f ∷ [] }

abbrev pub note : TcpConnection → Note → TcpConnection
note c n = record c { log = c.log ++ n ∷ [] }

-- The result of `::write`
pub data Write : Type 0 where
  wrote : ℕ → Write
  write_failed : Write

-- `if (writeCompleteCallback_) loop_->appendFuncInLoop(...)`
abbrev pub notify_complete : TcpConnection → TcpConnection
notify_complete c = if c.has_write_complete then enqueue c write_complete else c

-- The second half of `sendInLoop`, with the first `n` bytes of the message written
pub keep_rest : TcpConnection → List ℕ → ℕ → Option TcpConnection
keep_rest c message n =
    if ltb n (length message)
    then (do
      buf ← append c.output_buf (drop n message) (as_int (length message - n))
      let c' : TcpConnection = record c { output_buf = buf }
      some (if not (is_writeing c.channel) then with_interest c' enable_writeing else c'))
    else some (notify_complete c)

-- `sendInLoop`; `w` is the result of its `::write`, if it makes one.
pub send_in_loop_now : TcpConnection → List ℕ → Write → Option TcpConnection
unfolding keep_rest
send_in_loop_now c message w =
    if not (is_writeing c.channel) && (read_buff_size c.output_buf == 0)
    then elim w [
      | wrote n ↦ keep_rest (record c { wire = c.wire ++ take n message }) message n
      | write_failed ↦ none
    ]
    else keep_rest c message 0

-- `send`
unfoldable pub send : Bool → TcpConnection → List ℕ → Write → Option TcpConnection
unfolding send_in_loop_now
send in_loop c message w =
    if is_connected c.state
    then (if in_loop then send_in_loop_now c message w else some (enqueue c (send_in_loop message)))
    else some c

-- `shutdownInLoop`
pub shutdown_now : TcpConnection → TcpConnection
shutdown_now c = if not (is_writeing c.channel) then record c { closed = true } else c

-- `shutdown`
pub shutdown : Bool → TcpConnection → TcpConnection
unfolding shutdown_now
shutdown in_loop c =
    if is_connected c.state
    then (let c' : TcpConnection = record c { state = disconnecting } in
        if in_loop then shutdown_now c' else enqueue c' shutdown_in_loop)
    else c

-- What `handleWrite` does once the output buffer is empty
pub drained : TcpConnection → TcpConnection
unfolding shutdown_now
drained c =
    let c' = notify_complete (with_interest c disable_writeing) in
    if is_disconnecting c'.state then shutdown_now c' else c'

-- `handleWrite`
pub handle_write : TcpConnection → Write → Option TcpConnection
unfolding drained
handle_write c write_failed = some c
handle_write c (wrote n) =
    if is_writeing c.channel && ltb 0 n
    then (do
      buf ← retrieve c.output_buf (as_int n)
      let c' : TcpConnection = record c {
        output_buf = buf;
        wire = c.wire ++ take n (peek c.output_buf);
      }
      some (if read_buff_size buf == 0 then drained c' else c'))
    else some c

-- `handleClose`
unfoldable pub handle_close : TcpConnection → TcpConnection
handle_close c = note (with_interest (record c { state = disconnected }) disable_all) close_callback

-- `handleRead`, by the result of `readFd`
unfoldable pub read_result : TcpConnection → ReadResult → TcpConnection
unfolding handle_close
read_result c (bytes_read n) = if ltb 0 n then note c message_callback else handle_close c
read_result c (read_error e) = note c error_printed

unfoldable pub handle_read : TcpConnection → Readv → Option TcpConnection
unfolding read_result
handle_read c input = do
  r ← read_fd c.input_buf input
  some (read_result (record c { input_buf = r.1 }) r.0)

-- `connectEstablished`
unfoldable pub connect_established : TcpConnection → Option TcpConnection
connect_established c = do
  assert (is_connecting c.state)
  some (note (with_interest (record c { state = connected }) enable_reading) connection_callback)

-- `connectDestroyed`, up to the removal of the channel from the poller
unfoldable pub connect_destroyed : TcpConnection → TcpConnection
connect_destroyed c =
    if is_connected c.state
    then note (with_interest (record c { state = disconnected }) disable_all) connection_callback
    else c

-- `forceClose`
unfoldable pub force_close : TcpConnection → TcpConnection
force_close c =
    if is_connected c.state || is_disconnecting c.state
    then enqueue (record c { state = disconnecting }) force_close_in_loop
    else c

-- `forceCloseInLoop`
unfoldable pub force_close_now : TcpConnection → TcpConnection
unfolding handle_close
force_close_now c = if is_connected c.state || is_disconnecting c.state then handle_close c else c

-- The class's handler for each callback of its channel; the constructor sets the one for reading.
pub run_callbacks : TcpConnection → List Callback → Readv → Write → Option TcpConnection
unfolding handle_read handle_write
run_callbacks c [] input w = some c
run_callbacks c (Channel.read ∷ ks) input w = do
  c' ← handle_read c input
  run_callbacks c' ks input w
run_callbacks c (Channel.write ∷ ks) input w = do c' ← handle_write c w; run_callbacks c' ks input w
run_callbacks c (k ∷ ks) input w = run_callbacks c ks input w

-- `channel_->handleEvent`, with the events that the poller found
pub event : TcpConnection → ℕ → Readv → Write → Option TcpConnection
unfolding run_callbacks
event c revents input w =
    run_callbacks c (handle_event (record (c.channel) { revents = revents })) input w
