-- ===== src/TcpClient.antt =====
-- ThreadAndNetWorkCoding/zdq_tcp_client.h and zdq_tcp_client.cpp: a client, its connector and its
-- connection, in the loop's thread. Connections live in a heap, from the addresses that `new` returns
-- to `TcpConnection`; `accepted` and `removed` list the addresses of the connections that were made
-- and that were removed, and `queued` what was passed to `appendFuncInLoop`. An attempt to connect
-- has the descriptor that `socket` returns and the `errno` it leaves as arguments. The connection's
-- name is left out: its format does not fit its argument. `none` is a failed assert, or the use of
-- memory that is not there.
pub mod Single
pub mod Retry
pub mod Destroy
pub mod Examples
use thread_and_net.Prelude.{
  ℕ, ◌+◌, Bool, true, false, ◌&&◌, Option, none, some, List, [], ◌∷◌, ◌++◌, ◌==◌, if◌then◌else◌,
  ◌>>=◌, ◌>>◌, assert, update, eq_opt, length,
}
use thread_and_net.Connector
use thread_and_net.Connector.{Connector, Errno}
use thread_and_net.TcpConnection.{
  TcpConnection, create_conn, connect_established, shutdown, force_close,
}

pub data Functor : Type 0 where
  connect_destroyed : ℕ → Functor

-- The close callback of a connection: `TcpClient::removeConnection`, or, once the client is destroyed, the
-- function `removeConnection` of the file, which does not know the client.
pub data CloseCallback : Type 0 where
  client_remove detached_remove : CloseCallback

pub record TcpClient : Type 0 where
  pub loop : ℕ
  pub connector : Connector
  pub retry : Bool
  pub connected : Bool
  pub next_conn_id : ℕ
  pub connection : Option ℕ
  pub heap : ℕ → Option TcpConnection
  pub close_callbacks : ℕ → CloseCallback
  pub queued : List Functor
  pub accepted : List ℕ
  pub removed : List ℕ

-- The constructor
pub init : ℕ → TcpClient
init loop = record {
  loop = loop;
  connector = Connector.init;
  retry = false;
  connected = true;
  next_conn_id = 1;
  connection = none;
  heap = λ p. none;
  close_callbacks = λ p. client_remove;
  queued = [];
  accepted = [];
  removed = [];
}

-- `enableRetry`
pub enable_retry : TcpClient → TcpClient
enable_retry c = record c { retry = true }

-- `connect`
pub connect : TcpClient → ℕ → Errno → Option TcpClient
connect c sockfd errno = do
  k ← Connector.start c.connector sockfd errno
  some (record c { connected = true; connector = k })

-- `disconnect`
pub disconnect : TcpClient → Option TcpClient
disconnect c =
    let c' : TcpClient = record c { connected = false } in
    elim c.connection [
      | none ↦ some c'
      | some p ↦ (do
        t ← c.heap p
        some (record c' { heap = update c.heap p (some (shutdown true t)) }))
    ]

-- `stop`
pub stop : TcpClient → TcpClient
stop c = record c { connected = false; connector = Connector.stop c.connector }

-- `newConnection`, where `new` returns the address `p`
pub new_connection : TcpClient → ℕ → ℕ → Option TcpClient
new_connection c sockfd p = do
  t ← connect_established (create_conn c.loop sockfd)
  some (record c {
    next_conn_id = c.next_conn_id + 1;
    connection = some p;
    heap = update c.heap p (some t);
    close_callbacks = update c.close_callbacks p client_remove;
    accepted = c.accepted ++ p ∷ [];
  })

-- `removeConnection`, the close callback of the connection at `p`
pub remove_connection : TcpClient → ℕ → ℕ → Errno → Option TcpClient
remove_connection c p sockfd errno = do
  assert (eq_opt c.connection (some p))
  let c' : TcpClient = record c {
    connection = none;
    queued = c.queued ++ connect_destroyed p ∷ [];
    removed = c.removed ++ p ∷ [];
  }
  (if c.retry && c.connected
      then (do k ← Connector.restart c.connector sockfd errno; some (record c' { connector = k }))
      else some c')

-- The connector's `handleWrite`, whose callback is `newConnection`
pub connector_write : TcpClient → Bool → Bool → ℕ → Option TcpClient
unfolding new_connection
connector_write c err self p = do
  k ← Connector.handle_write c.connector err self
  let c' : TcpClient = record c { connector = k }
  (elim k.handed [
    | [] ↦ some c'
    | fd ∷ fds ↦ if length c.connector.handed == length fds then new_connection c' fd p else some c'
  ])

-- The connector's other handlers
pub connector_error : TcpClient → Option TcpClient
connector_error c = do k ← Connector.handle_error c.connector; some (record c { connector = k })

pub connector_timer : TcpClient → ℕ → Errno → Option TcpClient
connector_timer c sockfd errno = do
  k ← Connector.start_in_loop c.connector sockfd errno
  some (record c { connector = k })

pub connector_queued : TcpClient → Option TcpClient
connector_queued c = do k ← Connector.run_queued c.connector; some (record c { connector = k })

-- The destructor; `unique` tells that nobody else has a pointer to the connection.
pub destroy_client : TcpClient → Bool → Option TcpClient
destroy_client c unique = elim c.connection [
  | none ↦ some (record c { connector = Connector.stop c.connector })
  | some p ↦ (do
    t ← c.heap p
    let c' : TcpClient = record c { close_callbacks = update c.close_callbacks p detached_remove }
    some (if unique then record c' { heap = update c.heap p (some (force_close t)) } else c'))
]

-- The file's own `removeConnection`
pub remove_detached : TcpClient → ℕ → TcpClient
remove_detached c p = record c { queued = c.queued ++ connect_destroyed p ∷ [] }

-- The close callback of the connection at `p`
pub on_close : TcpClient → ℕ → ℕ → Errno → Option TcpClient
unfolding remove_connection remove_detached
on_close c p sockfd errno = elim (c.close_callbacks p) [
  | client_remove ↦ remove_connection c p sockfd errno
  | detached_remove ↦ some (remove_detached c p)
]
