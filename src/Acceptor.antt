-- ===== src/Acceptor.antt =====
-- ThreadAndNetWorkCoding/zdq_acceptor.h, zdq_acceptor.cpp, and `Socket::Accept` of zdq_socket.h: the
-- descriptors that `accept` returns, and what becomes of them. `cur` is the loop in whose thread a call is
-- made. `accept`'s result, `none` for -1, and `listen`'s are arguments. `fds` are the descriptors of
-- connections that are open, and `given` is what the callback got. `none` is a failed assert or
-- `ERR_EXIT`.
pub mod Handed
pub mod Examples
use thread_and_net.Prelude.{
  ℕ, Bool, true, false, not, Option, none, some, List, [], ◌∷◌, ◌++◌, ◌==◌, if◌then◌else◌, ◌>>=◌,
  ◌>>◌, assert,
}
use thread_and_net.InetAddress.{SockAddrIn, InetAddress, any_address, set_sock_addr_inet}

pub record Acceptor : Type 0 where
  pub loop : ℕ
  pub has_callback : Bool
  pub listening : Bool
  pub reading : Bool
  pub fds : List ℕ
  pub given : List (ℕ × InetAddress)

-- The constructor, after `setReuseAddr`, `setReusePort` and `Bind`
unfoldable pub init : ℕ → Acceptor
init loop = record {
  loop = loop;
  has_callback = false;
  listening = false;
  reading = false;
  fds = [];
  given = [];
}

-- `setConnCallback`
pub set_conn_callback : Acceptor → Acceptor
set_conn_callback a = record a { has_callback = true }

-- `listen`
pub listen : ℕ → Acceptor → Bool → Option Acceptor
listen cur a listens = do
  assert (cur == a.loop)
  assert listens
  some (record a { listening = true; reading = true })

-- Is the descriptor open?
pub is_open : ℕ → List ℕ → Bool
is_open fd [] = false
is_open fd (x ∷ xs) = if x == fd then true else is_open fd xs

-- `::close`
pub close : ℕ → List ℕ → List ℕ
close fd [] = []
close fd (x ∷ xs) = if x == fd then xs else x ∷ close fd xs

-- `Socket::Accept` of a result of `accept`: the descriptor that it returns, the peer's address, and the
-- open descriptors
pub accept : Option (ℕ × SockAddrIn) → InetAddress → List ℕ → Option ℕ × InetAddress × List ℕ
unfolding close
accept none peeraddr fds = (none, peeraddr, fds)
accept (some (fd, addr)) peeraddr fds =
    if fd == 0
    then (some fd, peeraddr, close fd (fds ++ fd ∷ []))
    else (some fd, set_sock_addr_inet peeraddr addr, fds ++ fd ∷ [])

module _ (htons : ℕ → ℕ) where
  -- `handleRead`
  pub handle_read : ℕ → Acceptor → Option (ℕ × SockAddrIn) → Option Acceptor
  unfolding accept close is_open
  handle_read cur a result = do
    assert (cur == a.loop)
    let (connfd, peeraddr, fds) = accept result (any_address htons 0) a.fds
    fd ← connfd
    (if a.has_callback
        then some (record a { fds = fds; given = a.given ++ (fd, peeraddr) ∷ [] })
        else (do assert (is_open fd fds); some (record a { fds = close fd fds })))

  -- One read event after the other
  pub handle_reads : ℕ → Acceptor → List (Option (ℕ × SockAddrIn)) → Option Acceptor
  unfolding handle_read
  handle_reads cur a [] = some a
  handle_reads cur a (r ∷ rs) = do a' ← handle_read cur a r; handle_reads cur a' rs
