-- ===== src/Acceptor/Handed.antt =====
-- What the acceptor's callback gets.
use thread_and_net.Prelude.{
  ℕ, ◌≡◌, refl, sym, ap₂, arith, Bool, true, false, not, ◌&&◌, ◌==◌, some, List, [], ◌∷◌, ◌++◌, map,
  append-nil, append_assoc,
}
use thread_and_net.InetAddress.{SockAddrIn, InetAddress, any_address, set_sock_addr_inet}
use thread_and_net.Acceptor.{Acceptor, accept, handle_read, handle_reads, close, is_open}

-- No descriptor is 0.
abbrev pub all_positive : List (ℕ × SockAddrIn) → Bool
all_positive [] = true
all_positive (r ∷ rs) = not (r.0 == 0) && all_positive rs

-- A descriptor with its peer's address
abbrev pub peer : ℕ × SockAddrIn → ℕ × InetAddress
peer r = (r.0, record { sock_addr = r.1 })

-- The acceptor after it has handed connections over
abbrev pub after : Acceptor → List (ℕ × SockAddrIn) → Acceptor
after a rs = record a { fds = a.fds ++ map (λ r. r.0) rs; given = a.given ++ map peer rs }

handle_read-after :
    (htons : ℕ → ℕ) (a : Acceptor) (r : ℕ × SockAddrIn)
    → a.has_callback ≡ true
    → not (r.0 == 0) ≡ true
    → handle_read htons a.loop a (some r) ≡ some (after a (r ∷ []))
unfolding handle_read accept set_sock_addr_inet
handle_read-after htons a r h p = ground arith

-- An acceptor with a callback hands over every connection that is accepted, in order, with its
-- descriptor open and its peer's address, however many there are. No descriptor is 0.
pub handle_reads-after :
    (htons : ℕ → ℕ) (a : Acceptor) (rs : List (ℕ × SockAddrIn))
    → a.has_callback ≡ true
    → all_positive rs ≡ true
    → handle_reads htons a.loop a (map some rs) ≡ some (after a rs)
unfolding handle_reads
handle_reads-after htons a [] h p =
    ap₂ (λ xs ys. some (record a { fds = xs; given = ys })) (sym (append-nil a.fds))
      (sym (append-nil a.given))
handle_reads-after htons a (r ∷ rs) h p =
    let first = handle_read-after htons a r h (ground arith) in
    let rest = handle_reads-after htons (after a (r ∷ [])) rs h (ground arith) in
    let moved : after (after a (r ∷ [])) rs ≡ after a (r ∷ rs) =
      ap₂ (λ xs ys. record a { fds = xs; given = ys })
        (append_assoc a.fds (r.0 ∷ []) (map (λ q. q.0) rs))
        (append_assoc a.given (peer r ∷ []) (map peer rs)) in
    ground (arith, first, rest, moved)

close_last : (fds : List ℕ) → is_open 0 fds ≡ false → close 0 (fds ++ 0 ∷ []) ≡ fds
unfolding is_open close
close_last [] h = refl
close_last (x ∷ fds) h = ground (arith, close_last fds)

-- Descriptor 0 is handed over as well, if the acceptor has a callback, but closed, and with the wildcard
-- address in place of the peer's.
pub handle_read-zero :
    (htons : ℕ → ℕ) (a : Acceptor) (addr : SockAddrIn) {a' : Acceptor}
    → a.has_callback ≡ true
    → is_open 0 a.fds ≡ false
    → handle_read htons a.loop a (some (0, addr)) ≡ some a'
    → (a'.given ≡ a.given ++ (0, any_address htons 0) ∷ []) × (is_open 0 a'.fds ≡ false)
unfolding handle_read accept set_sock_addr_inet
handle_read-zero htons a addr h o e = ground (arith, close_last a.fds o)
