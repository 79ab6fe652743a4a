-- ===== src/Connector.antt =====
-- ThreadAndNetWorkCoding/zdq_connector.h and zdq_connector.cpp, with `Socket::closeFd`: a client's
-- attempts to connect, in the loop's thread. `created`, `closed` and `handed` list the descriptors
-- that `socket` returned, that were closed, and that the callback got; `queued` is what was passed to
-- `appendFuncInLoop`, and `timers` the delays, in milliseconds, after which `startInLoop` was
-- scheduled. `none` is the end of the process by a failed assert or a null pointer. A `close` that
-- fails ends the process too; it is taken to succeed, as it does on a descriptor that is open.
pub mod Backoff
pub mod Sockets
pub mod Effects
pub mod Race
pub mod Polling
pub mod Moves
pub mod Attached
pub mod Examples
use thread_and_net.Prelude.{
  ℕ, ◌*◌, Bool, true, false, Option, none, some, List, [], ◌∷◌, ◌++◌, min, if◌then◌else◌, ◌>>=◌,
  ◌>>◌, assert, is_none,
}

-- `States`
pub data States : Type 0 where
  disconnected connecting connected : States

-- The values of `errno` that `connect` tells apart, and 0.
pub data Errno : Type 0 where
  zero_errno einprogress eintr eisconn : Errno
  eagain eaddrinuse eaddrnotavail econnrefused enetunreach : Errno
  eacces eperm eafnosupport ealready ebadf efault enotsock other_errno : Errno

pub data Functor : Type 0 where
  reset_channel_functor stop_in_loop_functor : Functor

abbrev pub max_retry_delay_ms : ℕ
max_retry_delay_ms = 30 * 1000

abbrev pub init_retry_delay_ms : ℕ
init_retry_delay_ms = 500

-- `channel_`, where there is one, is given by its descriptor.
pub record Connector : Type 0 where
  pub connect_wanted : Bool
  pub state : States
  pub channel : Option ℕ
  pub retry_delay_ms : ℕ
  pub created : List ℕ
  pub closed : List ℕ
  pub handed : List ℕ
  pub queued : List Functor
  pub timers : List ℕ

unfoldable pub init : Connector
init = record {
  connect_wanted = false;
  state = disconnected;
  channel = none;
  retry_delay_ms = init_retry_delay_ms;
  created = [];
  closed = [];
  handed = [];
  queued = [];
  timers = [];
}

abbrev pub is_disconnected : States → Bool
is_disconnected disconnected = true
is_disconnected _ = false

abbrev pub is_connecting : States → Bool
is_connecting connecting = true
is_connecting _ = false

abbrev pub close_fd : Connector → ℕ → Connector
close_fd c fd = record c { closed = fd ∷ c.closed }

-- `retry`
unfoldable pub retry : Connector → ℕ → Connector
retry c sockfd =
    let c' : Connector = record (close_fd c sockfd) { state = disconnected } in
    if c.connect_wanted
    then record c' {
      timers = c.timers ++ c.retry_delay_ms ∷ [];
      retry_delay_ms = min (c.retry_delay_ms * 2) max_retry_delay_ms;
    }
    else c'

-- `connecting`
unfoldable pub start_connecting : Connector → ℕ → Option Connector
start_connecting c sockfd = do
  assert (is_none c.channel)
  some (record c { state = connecting; channel = some sockfd })

-- `connect`: `socket` returns `sockfd`, and its attempt to connect leaves `errno`.
unfoldable pub connect : Connector → ℕ → Errno → Option Connector
unfolding start_connecting retry
connect c sockfd errno =
    let c' : Connector = record c { created = sockfd ∷ c.created } in
    elim errno [
      | zero_errno ↦ start_connecting c' sockfd
      | einprogress ↦ start_connecting c' sockfd
      | eintr ↦ start_connecting c' sockfd
      | eisconn ↦ start_connecting c' sockfd
      | eagain ↦ some (retry c' sockfd)
      | eaddrinuse ↦ some (retry c' sockfd)
      | eaddrnotavail ↦ some (retry c' sockfd)
      | econnrefused ↦ some (retry c' sockfd)
      | enetunreach ↦ some (retry c' sockfd)
      | eacces ↦ some (close_fd c' sockfd)
      | eperm ↦ some (close_fd c' sockfd)
      | eafnosupport ↦ some (close_fd c' sockfd)
      | ealready ↦ some (close_fd c' sockfd)
      | ebadf ↦ some (close_fd c' sockfd)
      | efault ↦ some (close_fd c' sockfd)
      | enotsock ↦ some (close_fd c' sockfd)
      | other_errno ↦ some (close_fd c' sockfd)
    ]

-- `startInLoop`
unfoldable pub start_in_loop : Connector → ℕ → Errno → Option Connector
unfolding connect
start_in_loop c sockfd errno = do
  assert (is_disconnected c.state)
  if c.connect_wanted then connect c sockfd errno else some c

-- `start`, from the loop's thread
unfoldable pub start : Connector → ℕ → Errno → Option Connector
unfolding start_in_loop
start c sockfd errno = start_in_loop (record c { connect_wanted = true }) sockfd errno

-- `restart`
unfoldable pub restart : Connector → ℕ → Errno → Option Connector
unfolding start_in_loop
restart c sockfd errno =
    start_in_loop
      (record c {
        state = disconnected;
        retry_delay_ms = init_retry_delay_ms;
        connect_wanted = true;
      })
      sockfd errno

-- `stop`
unfoldable pub stop : Connector → Connector
stop c = record c { connect_wanted = false; queued = c.queued ++ stop_in_loop_functor ∷ [] }

-- `removeAndResetChannel`
unfoldable pub remove_and_reset_channel : Connector → Option (ℕ × Connector)
remove_and_reset_channel c = do
  fd ← c.channel
  some (fd, record c { queued = c.queued ++ reset_channel_functor ∷ [] })

-- `resetChannel`
unfoldable pub reset_channel : Connector → Connector
reset_channel c = record c { channel = none }

-- `stopInLoop`
unfoldable pub stop_in_loop : Connector → Option Connector
unfolding remove_and_reset_channel retry
stop_in_loop c =
    if is_connecting c.state
    then (do r ← remove_and_reset_channel (record c { state = disconnected }); some (retry r.1 r.0))
    else some c

-- `handleWrite`; `err` tells that the socket has an error, `self` that it is connected to itself.
unfoldable pub handle_write : Connector → Bool → Bool → Option Connector
unfolding remove_and_reset_channel retry
handle_write c err self =
    if is_connecting c.state
    then (do
      r ← remove_and_reset_channel c
      some (
          if err
          then retry r.1 r.0
          else (if self
              then retry r.1 r.0
              else (if c.connect_wanted
                  then record (r.1) { state = connected; handed = r.0 ∷ c.handed }
                  else record (close_fd (r.1) (r.0)) { state = connected }))))
    else (do assert (is_disconnected c.state); some c)

-- `handleError`
pub handle_error : Connector → Option Connector
unfolding remove_and_reset_channel retry
handle_error c =
    if is_connecting c.state
    then (do r ← remove_and_reset_channel c; some (retry r.1 r.0))
    else some c

-- The loop takes the oldest functor of the queue and runs it.
unfoldable pub run_functor : Connector → Functor → Option Connector
unfolding stop_in_loop reset_channel
run_functor c reset_channel_functor = some (reset_channel c)
run_functor c stop_in_loop_functor = stop_in_loop c

unfoldable pub run_queued : Connector → Option Connector
unfolding run_functor
run_queued c = elim c.queued [ [] ↦ some c | f ∷ fs ↦ run_functor (record c { queued = fs }) f ]

-- The calls on a connector: by its user, by the loop on its queue, by its timers, and by its
-- channel's events.
pub data Op : Type 0 where
  starts restarts timer_fires : ℕ → Errno → Op
  stops runs_queued errors : Op
  writes : Bool → Bool → Op

pub apply : Connector → Op → Option Connector
unfolding start restart run_queued handle_write handle_error stop
apply c (starts fd errno) = start c fd errno
apply c (restarts fd errno) = restart c fd errno
apply c (timer_fires fd errno) = start_in_loop c fd errno
apply c stops = some (stop c)
apply c runs_queued = run_queued c
apply c errors = handle_error c
apply c (writes err self) = handle_write c err self
