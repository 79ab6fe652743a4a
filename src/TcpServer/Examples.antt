-- ===== src/TcpServer/Examples.antt =====
-- The server's theorem on a server that has accepted two connections and removed the first.
use thread_and_net.Prelude.{ℕ, ◌≡◌, refl, ◌+◌, List, [], ◌∷◌, Option, some, none, arith}
use thread_and_net.EventLoopThreadPool.{EventLoopThreadPool, get_next_loop}
use thread_and_net.EventLoopThreadPool
use thread_and_net.TcpServer.{
  TcpServer, init, start, run_functor, set_thread_num, new_connection, create_connection, put_conn,
  erase_conn, remove_connection, remove_connection_in_loop,
}
use thread_and_net.TcpServer.Names.{ptrs, times, IsSorted}
use thread_and_net.TcpServer.Conns.{minus}
use thread_and_net.TcpServer.Accept.{Injective}
use thread_and_net.TcpServer.Live.{
  Reach, here, next, accepts, closes, starts, sets_threads, Reach-conns,
}

abbrev print : ℕ → List ℕ
print n = (n + 48) ∷ []

print-Injective : Injective print
print-Injective a b x y e = ground arith

abbrev or_new : Option TcpServer → TcpServer
or_new none = init 0 []
or_new (some s) = s

-- Two threads, whose loops are 1 and 2
abbrev two_threads : TcpServer
two_threads = set_thread_num (init 0 (b's' ∷ [])) 2

unfoldable started : TcpServer
started = or_new (start 0 two_threads (λ i. i + 1))

unfoldable one_conn : TcpServer
one_conn = or_new (new_connection print 0 started 5 100)

unfoldable two_conns : TcpServer
two_conns = or_new (new_connection print 0 one_conn 6 101)

unfoldable one_left : TcpServer
one_left = or_new (remove_connection 0 two_conns 100)

one_left-Reach : Reach print (init 0 (b's' ∷ [])) one_left
unfolding one_left two_conns one_conn started init set_thread_num start EventLoopThreadPool.start
    EventLoopThreadPool.start_threads EventLoopThreadPool.set_thread_num EventLoopThreadPool.init
    get_next_loop run_functor new_connection create_connection put_conn erase_conn remove_connection
    remove_connection_in_loop
one_left-Reach =
    next
      (next
        (next (next (next here (sets_threads 2)) (starts 0 (λ i. i + 1) refl))
          (accepts 0 5 100 refl (omega arith) refl))
        (accepts 0 6 101 refl (omega arith) refl))
      (closes 0 100 refl)

Reach-conns_example :
    IsSorted one_left.conns
    × (times 101 (ptrs one_left.conns) ≡ times 101 (minus one_left.accepted one_left.removed))
Reach-conns_example = Reach-conns print 0 (b's' ∷ []) 101 print-Injective one_left-Reach
