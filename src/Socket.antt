-- ===== src/Socket.antt =====
-- ThreadAndNetWorkCoding/zdq_socket.h and zdq_socket.cpp: a socket's calls. The results of the system's
-- calls are arguments, and `none` is ERR_EXIT, or a read past the end of a buffer. `sent` lists the bytes
-- that were passed to `::send`. `Accept` is in Acceptor, and `closeFd` in Connector.
pub mod Messages
pub mod Examples
use thread_and_net.Prelude.{
  ℕ, ◌-◌, ◌+◌, Bool, true, false, Option, none, some, List, [], ◌∷◌, ◌++◌, ◌==◌, leb, if◌then◌else◌,
  ◌>>=◌, ◌>>◌, assert, length, take, drop,
}

-- The options that the setters write, as `opt_val`
pub record Options : Type 0 where
  pub reuse_addr : ℕ
  pub reuse_port : ℕ
  pub keep_alive : ℕ
  pub tcp_no_delay : ℕ

pub record Socket : Type 0 where
  pub socket_fd : ℕ
  pub bound : Bool
  pub listens : Bool
  pub write_shut : Bool
  pub closed : Bool
  pub options : Options
  pub sent : List ℕ

-- `creatSockFd`, for what `::socket` returns, `none` for -1
pub creat_sock_fd : Option ℕ → Option ℕ
creat_sock_fd result = do fd ← result; some fd

-- The constructor for a descriptor
unfoldable pub of_fd : ℕ → Socket
of_fd fd = record {
  socket_fd = fd;
  bound = false;
  listens = false;
  write_shut = false;
  closed = false;
  options = record { reuse_addr = 0; reuse_port = 0; keep_alive = 0; tcp_no_delay = 0 };
  sent = [];
}

-- The constructor for an address
pub create_socket : Option ℕ → Option Socket
unfolding creat_sock_fd of_fd
create_socket result = do fd ← creat_sock_fd result; some (of_fd fd)

-- The destructor; `ok` is whether the system's call succeeds, here and below.
pub destroy : Socket → Bool → Option Socket
destroy s ok = do assert ok; some (record s { closed = true })

-- `Bind` and `Listen`
pub bind : Socket → Bool → Option Socket
bind s ok = do assert ok; some (record s { bound = true })

pub listen : Socket → Bool → Option Socket
listen s ok = do assert ok; some (record s { listens = true })

-- `shutdownWrite`
pub shutdown_write : Socket → Bool → Option Socket
shutdown_write s ok = do assert ok; some (record s { write_shut = true })

-- `int opt_val = on ? 1:0`
abbrev pub opt_val : Bool → ℕ
opt_val on = if on then 1 else 0

-- `setReuseAddr`, `setReusePort`, `setKeepAlive` and `setTcpNoDelay`
pub set_reuse_addr : Socket → Bool → Bool → Option Socket
set_reuse_addr s on ok = do
  assert ok
  some (record s { options = record (s.options) { reuse_addr = opt_val on } })

pub set_reuse_port : Socket → Bool → Bool → Option Socket
set_reuse_port s on ok = do
  assert ok
  some (record s { options = record (s.options) { reuse_port = opt_val on } })

pub set_keep_alive : Socket → Bool → Bool → Option Socket
set_keep_alive s on ok = do
  assert ok
  some (record s { options = record (s.options) { keep_alive = opt_val on } })

pub set_tcp_no_delay : Socket → Bool → Bool → Option Socket
set_tcp_no_delay s on ok = do
  assert ok
  some (record s { options = record (s.options) { tcp_no_delay = opt_val on } })

-- `getSocketError`: what `getsockopt` puts into `optval`, or `errno` if it fails
pub get_socket_error : Option ℕ → ℕ → ℕ
get_socket_error optval errno = elim optval [ none ↦ errno | some e ↦ e ]

-- `sizeof(msg.c_str())`, the size of a pointer
abbrev pub sizeof_pointer : ℕ
sizeof_pointer = 8

-- `msg.c_str()` points to the message and a 0.
abbrev pub c_str : List ℕ → List ℕ
c_str msg = msg ++ 0 ∷ []

-- `sendMsg`
pub send_msg : Socket → List ℕ → Bool → Option Socket
send_msg s msg ok = do
  assert (leb sizeof_pointer (length (c_str msg)))
  assert ok
  some (record s { sent = s.sent ++ take sizeof_pointer (c_str msg) })

-- `std::string(buf)`: the bytes before the first 0
pub string_of : List ℕ → Option (List ℕ)
string_of [] = none
string_of (x ∷ xs) =
    let rest = string_of xs in if x == 0 then some [] else (do r ← rest; some (x ∷ r))

-- `recvMsg`, where `::recv` stores `bytes` at the start of `buf`, or fails
pub recv_msg : List ℕ → Option (List ℕ) → Option (List ℕ)
unfolding string_of
recv_msg buf result = do bytes ← result; string_of (bytes ++ drop (length bytes) buf)
