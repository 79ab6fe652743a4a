-- ===== src/TcpServer/Live.antt =====
-- The server's map over its whole life.
use thread_and_net.Prelude.{
  ℕ, ◌+◌, ◌^◌, ◌<◌, ◌≡◌, refl, subst, some-inj, true, false, none, some, Option-cases, List, [],
  ◌∷◌, ◌++◌, ◌==◌, arith, Bool-cases, inl, inr, update,
}
use thread_and_net.EventLoopThreadPool
use thread_and_net.EventLoopThreadPool.{EventLoopThreadPool, get_next_loop}
use thread_and_net.TcpConnection.{TcpConnection, connect_established, connect_destroyed}
use thread_and_net.TcpServer.{
  Conn, Functor, established, destroyed, remove_in_loop, listen, TcpServer, erase_conn, hand,
  establish, destroy, remove_connection_in_loop, remove_connection, run_functor, start,
  set_thread_num, create_connection, new_connection, init,
}
use thread_and_net.TcpServer.Names.{ptrs, times, IsSorted}
use thread_and_net.TcpServer.Conns.{minus, Good, Inv-changed, Inv-removed}
use thread_and_net.TcpServer.Accept.{Injective, Good-create_connection}

-- A call on the server, in the thread of some loop. A connection may change by its own calls; `new`
-- returns an address that is not in use, and the numbers of the connections stay below 2 ^ 31.
pub data Step (print : ℕ → List ℕ) (s : TcpServer) : TcpServer → Type 0 where
  accepts :
      (cur sockfd p : ℕ) {t : TcpServer}
      → s.heap p ≡ none
      → s.next_conn_id + 1 < 2 ^ 31
      → new_connection print cur s sockfd p ≡ some t
      → Step print s t
  closes : (cur p : ℕ) {t : TcpServer} → remove_connection cur s p ≡ some t → Step print s t
  runs : (cur : ℕ) (f : Functor) {t : TcpServer} → run_functor cur s f ≡ some t → Step print s t
  changes :
      (p : ℕ) (c : Conn) (k : TcpConnection)
      → s.heap p ≡ some c
      → Step print s (record s { heap = update s.heap p (some (record c { conn = k })) })
  starts :
      (cur : ℕ) (new_loop : ℕ → ℕ) {t : TcpServer} → start cur s new_loop ≡ some t → Step print s t
  sets_threads : (n : ℕ) → Step print s (set_thread_num s n)

pub data Reach (print : ℕ → List ℕ) (s : TcpServer) : TcpServer → Type 0 where
  here : Reach print s s
  next : {t u : TcpServer} → Reach print s t → Step print t u → Reach print s u

module _ (print : ℕ → List ℕ) where
  with_heap :
      (s : TcpServer) (p : ℕ) (c : Conn) (k : TcpConnection)
      → s.heap p ≡ some c
      → Good print s
      → Good print (record s { heap = update s.heap p (some (record c { conn = k })) })
  with_heap s p c k at i =
      Inv-changed print s.name s.next_conn_id s.heap s.conns s.accepted s.removed p c at k i

  Good-remove_connection_in_loop :
      (cur : ℕ) (s t : TcpServer) (p : ℕ)
      → Good print s
      → remove_connection_in_loop cur s p ≡ some t
      → Good print t
  unfolding remove_connection_in_loop
  Good-remove_connection_in_loop cur s t p i h = elim (Option-cases (s.heap p)) [
    | inl e ↦ absurd (ground arith)
    | inr (c, e) ↦
        (let out : TcpServer =
            hand (record s { conns = erase_conn c.name s.conns; removed = s.removed ++ p ∷ [] })
              c.io_loop (destroyed p) in
          let same : out ≡ t = ground arith in
          subst (Good print) same
            (Inv-removed print s.name s.next_conn_id s.heap s.conns s.accepted s.removed p c e i))
  ]

  Good-remove_connection :
      (cur : ℕ) (s t : TcpServer) (p : ℕ)
      → Good print s
      → remove_connection cur s p ≡ some t
      → Good print t
  unfolding remove_connection
  Good-remove_connection cur s t p i h = elim (Bool-cases (cur == s.loop)) [
    | inl e ↦ Good-remove_connection_in_loop cur s t p i (ground arith)
    | inr e ↦
        (let same : hand s s.loop (remove_in_loop p) ≡ t = some-inj (rw e at h) in
          subst (Good print) same i)
  ]

  Good-establish :
      (cur : ℕ) (s t : TcpServer) (p : ℕ) → Good print s → establish cur s p ≡ some t → Good print t
  unfolding establish
  Good-establish cur s t p i h = elim (Option-cases (s.heap p)) [
    | inl e ↦ absurd (ground arith)
    | inr (c, e) ↦ elim (Option-cases (connect_established c.conn)) [
      | inl f ↦ absurd (ground arith)
      | inr (k, f) ↦
          (let out : TcpServer = record s {
            heap = update s.heap p (some (record c { conn = k }));
          } in
            let same : out ≡ t = ground arith in subst (Good print) same (with_heap s p c k e i))
    ]
  ]

  Good-destroy :
      (cur : ℕ) (s t : TcpServer) (p : ℕ) → Good print s → destroy cur s p ≡ some t → Good print t
  unfolding destroy
  Good-destroy cur s t p i h = elim (Option-cases (s.heap p)) [
    | inl e ↦ absurd (ground arith)
    | inr (c, e) ↦
        (let k = connect_destroyed c.conn in
          let out : TcpServer = record s {
            heap = update s.heap p (some (record c { conn = k }));
          } in
          let same : out ≡ t = ground arith in subst (Good print) same (with_heap s p c k e i))
  ]

  Good-run_functor :
      (cur : ℕ) (s t : TcpServer) (f : Functor)
      → Good print s
      → run_functor cur s f ≡ some t
      → Good print t
  unfolding run_functor
  Good-run_functor cur s t (established p) i h = Good-establish cur s t p i h
  Good-run_functor cur s t (destroyed p) i h = Good-destroy cur s t p i h
  Good-run_functor cur s t (remove_in_loop p) i h = Good-remove_connection_in_loop cur s t p i h
  Good-run_functor cur s t listen i h =
      let same : record s { listening = true } ≡ t = ground arith in subst (Good print) same i

  Good-start :
      (cur : ℕ) (s t : TcpServer) (new_loop : ℕ → ℕ)
      → Good print s
      → start cur s new_loop ≡ some t
      → Good print t
  unfolding start
  Good-start cur s t new_loop i h =
      elim (Option-cases (EventLoopThreadPool.start (cur == s.loop) s.pool new_loop false)) [
        | inl e ↦ absurd (ground arith)
        | inr (pool, e) ↦
            (let s' : TcpServer = record s { started = true; pool = pool } in
              elim (Bool-cases (cur == s.loop)) [
                | inl here_now ↦ Good-run_functor cur s' t listen i (ground arith)
                | inr later ↦
                    (let same : hand s' s.loop listen ≡ t = ground arith in
                      subst (Good print) same i)
              ])
      ]

  module _ (injective : Injective print) where
    Good-new_connection :
        (cur sockfd p : ℕ) (s t : TcpServer)
        → Good print s
        → s.heap p ≡ none
        → s.next_conn_id + 1 < 2 ^ 31
        → new_connection print cur s sockfd p ≡ some t
        → Good print t
    unfolding new_connection
    Good-new_connection cur sockfd p s t i at fits h =
        elim (Option-cases (get_next_loop (cur == s.loop) s.pool)) [
          | inl e ↦ absurd (ground arith)
          | inr ((io_loop, pool), e) ↦
              (let s' = create_connection print s pool io_loop sockfd p in
                let i' = Good-create_connection print injective s pool io_loop sockfd p i at fits in
                elim (Bool-cases (cur == io_loop)) [
                  | inl here_now ↦ Good-establish cur s' t p i' (ground arith)
                  | inr later ↦
                      (let same : hand s' io_loop (established p) ≡ t = ground arith in
                        subst (Good print) same i')
                ])
        ]

    Step-Good : {s t : TcpServer} → Step print s t → Good print s → Good print t
    unfolding set_thread_num
    Step-Good {s} {t} (accepts cur sockfd p at fits h) i =
        Good-new_connection cur sockfd p s t i at fits h
    Step-Good {s} {t} (closes cur p h) i = Good-remove_connection cur s t p i h
    Step-Good {s} {t} (runs cur f h) i = Good-run_functor cur s t f i h
    Step-Good {s} (changes p c k at) i = with_heap s p c k at i
    Step-Good {s} {t} (starts cur new_loop h) i = Good-start cur s t new_loop i h
    Step-Good (sets_threads n) i = i

    Reach-Good : {s t : TcpServer} → Good print s → Reach print s t → Good print t
    Reach-Good i here = i
    Reach-Good i (next r m) = Step-Good m (Reach-Good i r)

-- The server's map is an implementation of the set of live connections: in every state that a new
-- server reaches, whatever loops' threads call it, the map is in the order of its names, and a connection
-- is in it as often as it is among those that were accepted and have not been removed. So a name
-- never replaces another connection's entry, nor does a removal erase another's. `snprintf` prints
-- different numbers differently.
pub Reach-conns :
    (print : ℕ → List ℕ) (loop : ℕ) (name : List ℕ) (p : ℕ) {s : TcpServer}
    → Injective print
    → Reach print (init loop name) s
    → IsSorted s.conns × (times p (ptrs s.conns) ≡ times p (minus s.accepted s.removed))
unfolding init
Reach-conns print loop name p injective r =
    let start : Good print (init loop name) = record {
      named = tt;
      distinct = λ p q c d h g e. absurd (ground arith);
      numbered = λ p c h. absurd (ground arith);
      live = λ q. refl;
      sorted = tt;
      known = λ p h. absurd (ground arith);
      small = omega arith;
    } in
    let i = Reach-Good print injective start r in (i.sorted, i.live p)
