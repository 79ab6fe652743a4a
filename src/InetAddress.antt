-- ===== src/InetAddress.antt =====
-- ThreadAndNetWorkCoding/zdq_inet_address.h: IPv4 addresses with a port. The fields of `SockAddrIn` are
-- kept in network order, as `struct sockaddr_in` has them. `htons`, `ntohs`, `inet_pton`, `inet_ntoa`,
-- `getsockname` and `getpeername` are parameters; the last two give the address of a descriptor, or
-- `none` for an error. A port is the `int` that a caller passes, of which `htons` gets 16 bits.
-- `none` is `ERR_EXIT`.
pub mod SelfConnect
use thread_and_net.Prelude.{
  eq_string, ℕ, ◌%◌, ◌^◌, Bool, ◌&&◌, ◌==◌, Option, none, some, List, [], ◌∷◌, if◌then◌else◌, ◌>>=◌,
}

pub record SockAddrIn : Type 0 where
  pub family : ℕ
  pub addr : ℕ
  pub port : ℕ

pub record InetAddress : Type 0 where
  pub sock_addr : SockAddrIn

-- `AF_INET` and `INADDR_ANY`
abbrev af_inet : ℕ
af_inet = 2

abbrev inaddr_any : ℕ
inaddr_any = 0

-- `setSockAddrInet`
unfoldable pub set_sock_addr_inet : InetAddress → SockAddrIn → InetAddress
set_sock_addr_inet a s = record { sock_addr = s }

-- `getIpAddress` and `getPort`
pub get_ip_address : InetAddress → ℕ
get_ip_address a = a.sock_addr.addr

pub get_port : InetAddress → ℕ
get_port a = a.sock_addr.port

-- `ip.c_str()`, as `inet_pton` reads it: the characters before the first 0
pub c_str : List ℕ → List ℕ
c_str [] = []
c_str (x ∷ xs) = if x == 0 then [] else x ∷ c_str xs

module _ (htons : ℕ → ℕ) where
  -- The constructor for a port
  pub any_address : ℕ → InetAddress
  any_address port = record {
    sock_addr = record { family = af_inet; addr = inaddr_any; port = htons (port % 2 ^ 16) };
  }

  -- The constructor for an address and a port
  pub address_of : (List ℕ → Option ℕ) → List ℕ → ℕ → Option InetAddress
  unfolding c_str
  address_of inet_pton ip port = do
    addr ← inet_pton (c_str ip)
    some (record {
      sock_addr = record { family = af_inet; addr = addr; port = htons (port % 2 ^ 16) };
    })

-- `getPort_h`
pub get_port_h : (ℕ → ℕ) → InetAddress → ℕ
get_port_h ntohs a = ntohs a.sock_addr.port

-- `getIpAsString`
pub get_ip_as_string : (ℕ → List ℕ) → InetAddress → List ℕ
get_ip_as_string inet_ntoa a = inet_ntoa a.sock_addr.addr

-- `getLocalInetAddress`, and `getPeerInetAddress`, which differ in the call they make
pub get_local_inet_address : (ℕ → Option SockAddrIn) → ℕ → Option InetAddress
get_local_inet_address getsockname fd = do s ← getsockname fd; some (record { sock_addr = s })

pub get_peer_inet_address : (ℕ → Option SockAddrIn) → ℕ → Option InetAddress
get_peer_inet_address getpeername fd = do s ← getpeername fd; some (record { sock_addr = s })

-- `isSelfConnect`
pub is_self_connect :
    (ℕ → List ℕ) → (ℕ → Option SockAddrIn) → (ℕ → Option SockAddrIn) → ℕ → Option Bool
unfolding get_local_inet_address get_peer_inet_address get_ip_as_string get_port
is_self_connect inet_ntoa getsockname getpeername fd = do
  local ← get_local_inet_address getsockname fd
  peer ← get_peer_inet_address getpeername fd
  some (
      eq_string (get_ip_as_string inet_ntoa local) (get_ip_as_string inet_ntoa peer)
      && (get_port local == get_port peer))
