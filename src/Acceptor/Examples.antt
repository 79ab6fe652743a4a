-- ===== src/Acceptor/Examples.antt =====
-- The acceptor at small states.
use thread_and_net.Prelude.{ℕ, ◌≡◌, refl, some, List, [], ◌∷◌, map, true}
use thread_and_net.InetAddress.{SockAddrIn}
use thread_and_net.Acceptor.{Acceptor, init, handle_reads}
use thread_and_net.Acceptor.Handed.{after, handle_reads-after}

abbrev same_order : ℕ → ℕ
same_order x = x

abbrev ready_acceptor : Acceptor
ready_acceptor = record (init 7) { has_callback = true; listening = true; reading = true }

abbrev client_address : SockAddrIn
client_address = record { family = 2; addr = 2130706433; port = 40000 }

abbrev two_clients : List (ℕ × SockAddrIn)
two_clients = (5, client_address) ∷ (6, client_address) ∷ []

handle_reads-after_example :
    handle_reads same_order 7 ready_acceptor (map some two_clients)
    ≡ some (after ready_acceptor two_clients)
unfolding init
handle_reads-after_example = handle_reads-after same_order ready_acceptor two_clients refl refl
