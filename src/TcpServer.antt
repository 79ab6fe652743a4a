-- ===== src/TcpServer.antt =====
-- ThreadAndNetWorkCoding/zdq_tcp_server.h and zdq_tcp_server.cpp: the server's map of connections, and
-- the loops that it spreads them over. Loops are numbers, and `cur` is the loop in whose thread a call
-- is made: `runInLoop` makes its call at once there, and hands it over elsewhere. `handed` lists what
-- was handed to each loop. Connections live in a heap, from the addresses that `new` returns to
-- `Conn`, and are never freed: each is bound into its own close callback. `accepted` and `removed` list
-- the addresses of the connections that were created and that were taken out of the map. `print` is
-- what `snprintf` makes of `%d`. `none` is a failed assert, or the use of memory that is not there.
pub mod Names
pub mod Change
pub mod Accept
pub mod Live
pub mod Conns
pub mod Examples
use thread_and_net.Prelude.{
  eq_string, ltb_string, ℕ, ◌+◌, Bool, true, false, not, ◌&&◌, Option, none, some, List, [], ◌∷◌,
  ◌++◌, ◌==◌, if◌then◌else◌, ◌>>=◌, ◌>>◌, assert, update,
}
use thread_and_net.EventLoopThreadPool
use thread_and_net.EventLoopThreadPool.{EventLoopThreadPool, get_next_loop}
use thread_and_net.TcpConnection.{
  TcpConnection, create_conn, connect_established, connect_destroyed,
}

-- A connection, with the members that the server reads
pub record Conn : Type 0 where
  pub name : List ℕ
  pub io_loop : ℕ
  pub conn : TcpConnection

pub data Functor : Type 0 where
  established destroyed remove_in_loop : ℕ → Functor
  listen : Functor

pub record TcpServer : Type 0 where
  pub loop : ℕ
  pub pool : EventLoopThreadPool
  pub name : List ℕ
  pub started : Bool
  pub next_conn_id : ℕ
  pub conns : List (List ℕ × ℕ)
  pub heap : ℕ → Option Conn
  pub handed : List (ℕ × Functor)
  pub listening : Bool
  pub accepted : List ℕ
  pub removed : List ℕ

-- The constructor
pub init : ℕ → List ℕ → TcpServer
unfolding EventLoopThreadPool.init
init loop name = record {
  loop = loop;
  pool = EventLoopThreadPool.init loop;
  name = name;
  started = false;
  next_conn_id = 1;
  conns = [];
  heap = λ p. none;
  handed = [];
  listening = false;
  accepted = [];
  removed = [];
}

-- `conns_[name] = conn`: the map is in the order of its names.
pub put_conn : List ℕ → ℕ → List (List ℕ × ℕ) → List (List ℕ × ℕ)
put_conn name p [] = (name, p) ∷ []
put_conn name p ((n, q) ∷ es) =
    if ltb_string name n
    then (name, p) ∷ (n, q) ∷ es
    else (if eq_string n name then (n, p) ∷ es else (n, q) ∷ put_conn name p es)

-- `conns_.erase(name)`
pub erase_conn : List ℕ → List (List ℕ × ℕ) → List (List ℕ × ℕ)
erase_conn name [] = []
erase_conn name ((n, q) ∷ es) =
    if eq_string n name then erase_conn name es else (n, q) ∷ erase_conn name es

abbrev pub hand : TcpServer → ℕ → Functor → TcpServer
hand s l f = record s { handed = s.handed ++ (l, f) ∷ [] }

-- `connectEstablished`, in the thread of loop `cur`
pub establish : ℕ → TcpServer → ℕ → Option TcpServer
establish cur s p = do
  c ← s.heap p
  assert (cur == c.io_loop)
  k ← connect_established c.conn
  some (record s { heap = update s.heap p (some (record c { conn = k })) })

-- `connectDestroyed`
pub destroy : ℕ → TcpServer → ℕ → Option TcpServer
destroy cur s p = do
  c ← s.heap p
  assert (cur == c.io_loop)
  some (record s { heap = update s.heap p (some (record c { conn = connect_destroyed c.conn })) })

-- `removeConnectionInLoop`
pub remove_connection_in_loop : ℕ → TcpServer → ℕ → Option TcpServer
unfolding erase_conn
remove_connection_in_loop cur s p = do
  assert (cur == s.loop)
  c ← s.heap p
  some (
      hand (record s { conns = erase_conn c.name s.conns; removed = s.removed ++ p ∷ [] }) c.io_loop
        (destroyed p))

-- `removeConnection`, the close callback of the connection at `p`
pub remove_connection : ℕ → TcpServer → ℕ → Option TcpServer
unfolding remove_connection_in_loop
remove_connection cur s p =
    if cur == s.loop
    then remove_connection_in_loop cur s p
    else some (hand s s.loop (remove_in_loop p))

-- A loop runs a functor that it was handed.
pub run_functor : ℕ → TcpServer → Functor → Option TcpServer
unfolding establish destroy remove_connection_in_loop
run_functor cur s (established p) = establish cur s p
run_functor cur s (destroyed p) = destroy cur s p
run_functor cur s (remove_in_loop p) = remove_connection_in_loop cur s p
run_functor cur s listen = do assert (cur == s.loop); some (record s { listening = true })

-- `start`; `new_loop` gives the loops of the pool's threads.
pub start : ℕ → TcpServer → (ℕ → ℕ) → Option TcpServer
unfolding run_functor
start cur s new_loop = do
  assert (not s.started)
  pool ← EventLoopThreadPool.start (cur == s.loop) s.pool new_loop false
  let s' : TcpServer = record s { started = true; pool = pool }
  (if cur == s.loop then run_functor cur s' listen else some (hand s' s.loop listen))

-- `setThreadNum`
pub set_thread_num : TcpServer → ℕ → TcpServer
set_thread_num s n = record s { pool = EventLoopThreadPool.set_thread_num s.pool n }

module _ (print : ℕ → List ℕ) where
  -- `name_ + buf`, for `#%d`
  abbrev pub conn_name : List ℕ → ℕ → List ℕ
  conn_name name n = name ++ b'#' ∷ print n

  -- The new connection, before it is told that it is established
  pub create_connection : TcpServer → EventLoopThreadPool → ℕ → ℕ → ℕ → TcpServer
  unfolding put_conn
  create_connection s pool io_loop sockfd p =
      let name = conn_name s.name s.next_conn_id in
      record s {
        next_conn_id = s.next_conn_id + 1;
        pool = pool;
        conns = put_conn name p s.conns;
        heap =
            update s.heap p
              (some (record { name = name; io_loop = io_loop; conn = create_conn io_loop sockfd }));
        accepted = s.accepted ++ p ∷ [];
      }

  -- `newConnection`, where `new` returns the address `p`
  pub new_connection : ℕ → TcpServer → ℕ → ℕ → Option TcpServer
  unfolding create_connection establish
  new_connection cur s sockfd p = do
    assert (cur == s.loop)
    r ← get_next_loop (cur == s.loop) s.pool
    let s' = create_connection s r.1 r.0 sockfd p
    (if cur == r.0 then establish cur s' p else some (hand s' r.0 (established p)))
