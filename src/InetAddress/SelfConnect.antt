-- ===== src/InetAddress/SelfConnect.antt =====
-- A connection to itself.
use thread_and_net.Prelude.{
  eq_string, eq_string-eq, eq_string_refl, ℕ, ◌≡◌, arith, ◌&&◌, ◌==◌, Option, some, List,
  Bool-cases, inl, inr,
}
use thread_and_net.InetAddress.{
  SockAddrIn, is_self_connect, get_local_inet_address, get_peer_inet_address, get_ip_as_string,
  get_port,
}

eq_string-inet_ntoa :
    (inet_ntoa : ℕ → List ℕ) (x y : ℕ)
    → ((a b : ℕ) → inet_ntoa a ≡ inet_ntoa b → a ≡ b)
    → eq_string (inet_ntoa x) (inet_ntoa y) ≡ (x == y)
eq_string-inet_ntoa inet_ntoa x y injective =
    elim (Bool-cases (eq_string (inet_ntoa x) (inet_ntoa y))) [
      | inl e ↦ ground (arith, injective x y (eq_string-eq (inet_ntoa x) (inet_ntoa y) e))
      | inr e ↦ ground (arith, eq_string_refl (inet_ntoa x))
    ]

-- When both ends of a socket are known, `isSelfConnect`, which compares printed addresses, tells whether
-- the two addresses and the two ports are the same. `inet_ntoa` writes different addresses differently.
pub is_self_connect_lem :
    (inet_ntoa : ℕ → List ℕ) (getsockname getpeername : ℕ → Option SockAddrIn) (fd : ℕ)
    (s p : SockAddrIn)
    → ((a b : ℕ) → inet_ntoa a ≡ inet_ntoa b → a ≡ b)
    → getsockname fd ≡ some s
    → getpeername fd ≡ some p
    → is_self_connect inet_ntoa getsockname getpeername fd
      ≡ some ((s.addr == p.addr) && (s.port == p.port))
unfolding is_self_connect get_local_inet_address get_peer_inet_address get_ip_as_string get_port
is_self_connect_lem inet_ntoa getsockname getpeername fd s p injective l r =
    ground (arith, eq_string-inet_ntoa inet_ntoa s.addr p.addr injective)
