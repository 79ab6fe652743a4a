-- ===== src/TcpServer/Accept.antt =====
-- A new connection in the map.
use thread_and_net.Prelude.{
  ℕ, ◌+◌, ◌^◌, ◌<◌, ◌≡◌, ◌≢◌, refl, ap, sym, ◌∙◌, some-inj, false, Option, none, some, List, [],
  ◌∷◌, ◌==◌, ==_iff, arith, Bool-cases, inl, inr, if◌then◌else◌, update, update_self, ◌⊎◌,
}
use thread_and_net.TcpConnection.{create_conn}
use thread_and_net.EventLoopThreadPool.{EventLoopThreadPool}
use thread_and_net.TcpServer.{Conn, TcpServer, conn_name, create_connection}
use thread_and_net.TcpServer.Names.{
  append-cancel, Named, Unnamed, times, times-put_conn, Named-put_conn, put_conn-IsSorted,
}
use thread_and_net.TcpServer.Conns.{contains, minus, times-append, minus-append, Good}

-- `snprintf` prints two numbers of type `int` differently.
abbrev pub Injective : (ℕ → List ℕ) → Type 0
Injective print = (a b : ℕ) → a < 2 ^ 31 → b < 2 ^ 31 → print a ≡ print b → a ≡ b

-- A heap with a connection at a fresh address
module _ (heap : ℕ → Option Conn) (p : ℕ) (at : heap p ≡ none) (c : Conn) where
  abbrev added : ℕ → Option Conn
  added = update heap p (some c)

  added-old : (q : ℕ) (d : Conn) → heap q ≡ some d → added q ≡ some d
  added-old q d h = elim (Bool-cases (q == p)) [
    | inl same ↦
        (let e : heap q ≡ none = ap heap ((==_iff q p).0 same) ∙ at in absurd (ground arith))
    | inr other ↦ rw other h
  ]

  -- What is there is the new one, or was there before.
  added-back : (q : ℕ) (d : Conn) → added q ≡ some d → ((q ≡ p) × (c ≡ d)) ⊎ (heap q ≡ some d)
  added-back q d h = elim (Bool-cases (q == p)) [
    | inl same ↦ inl ((==_iff q p).0 same, some-inj (rw same at h))
    | inr other ↦ inr (rw other at h)
  ]

  Named-added : (es : List (List ℕ × ℕ)) → Named heap es → Named added es
  Named-added [] n = tt
  Named-added ((m, q) ∷ es) ((d, h, e), n) = ((d, added-old q d h, e), Named-added es n)

module _ (print : ℕ → List ℕ) (injective : Injective print) where
  number-eq :
      (name : List ℕ) (j k : ℕ)
      → j < 2 ^ 31
      → k < 2 ^ 31
      → conn_name print name j ≡ conn_name print name k
      → j ≡ k
  number-eq name j k a b e =
      let tail = append-cancel name (b'#' ∷ print j) (b'#' ∷ print k) e in injective j k a b (cc)

  fresh_name :
      (heap : ℕ → Option Conn) (name : List ℕ) (next : ℕ) (es : List (List ℕ × ℕ))
      → next < 2 ^ 31
      → ((p : ℕ) (c : Conn)
          → heap p ≡ some c
          → (k : ℕ) × (k < next) × (c.name ≡ conn_name print name k))
      → Named heap es
      → Unnamed (conn_name print name next) es
  fresh_name heap name next [] lt n d = tt
  fresh_name heap name next ((m, q) ∷ es) lt n ((c, h, e), d) = (
    λ same.
        (let (k, below, called) = n q c h in
          let eq : k ≡ next = number-eq name k next (omega arith) lt (sym called ∙ e ∙ same) in
          omega arith),
    fresh_name heap name next es lt n d,
  )

  -- A connection that was there has an older name.
  not_old :
      (s : TcpServer) (i : Good print s) (d : Conn) (q : ℕ)
      → s.heap q ≡ some d
      → conn_name print s.name s.next_conn_id ≢ d.name
  not_old s i d q h same =
      let (k, below, called) = i.numbered q d h in
      let eq : k ≡ s.next_conn_id =
        number-eq s.name k s.next_conn_id (omega (arith, i.small)) i.small
          (sym called ∙ sym same) in
      omega arith

  not_removed :
      (s : TcpServer) (i : Good print s) (p : ℕ) → s.heap p ≡ none → contains p s.removed ≡ false
  not_removed s i p at = elim (Bool-cases (contains p s.removed)) [
    | inl old ↦ (let (c, h) = i.known p old in absurd (ground arith))
    | inr new ↦ new
  ]

  pub Good-create_connection :
      (s : TcpServer) (pool : EventLoopThreadPool) (io_loop sockfd p : ℕ)
      → Good print s
      → s.heap p ≡ none
      → s.next_conn_id + 1 < 2 ^ 31
      → Good print (create_connection print s pool io_loop sockfd p)
  unfolding create_connection
  Good-create_connection s pool io_loop sockfd p i at fits =
      let name = conn_name print s.name s.next_conn_id in
      let c : Conn = record { name = name; io_loop = io_loop; conn = create_conn io_loop sockfd } in
      let unnamed = fresh_name s.heap s.name s.next_conn_id s.conns i.small i.numbered i.named in
      record {
        named =
            Named-put_conn (added s.heap p at c) name p c s.conns (update_self s.heap p (some c))
              refl (Named-added s.heap p at c s.conns i.named);
        distinct = λ q r d e h g same. elim (added-back s.heap p at c q d h) [
          | inl (q_new, d_new) ↦ elim (added-back s.heap p at c r e g) [
            | inl (r_new, _) ↦ q_new ∙ sym r_new
            | inr old ↦ absurd (not_old s i e r old (ap (λ (x : Conn). x.name) d_new ∙ same))
          ]
          | inr q_old ↦ elim (added-back s.heap p at c r e g) [
            | inl (_, e_new) ↦
                absurd (not_old s i d q q_old (ap (λ (x : Conn). x.name) e_new ∙ sym same))
            | inr r_old ↦ i.distinct q r d e q_old r_old same
          ]
        ];
        numbered = λ q d h. elim (added-back s.heap p at c q d h) [
          | inl (_, d_new) ↦ (s.next_conn_id, omega arith, sym (ap (λ (x : Conn). x.name) d_new))
          | inr old ↦ let (k, lt, e) = i.numbered q d old in (k, omega arith, e)
        ];
        live = λ q.
            times-put_conn name p q s.conns unnamed
            ∙ ap (λ n. (if p == q then 1 else 0) + n) (i.live q)
            ∙ sym (times-append q p (minus s.accepted s.removed))
            ∙ ap (times q) (sym (minus-append s.accepted s.removed p (not_removed s i p at)));
        sorted = put_conn-IsSorted name p s.conns i.sorted;
        known = λ q h. let (d, old) = i.known q h in (d, added-old s.heap p at c q d old);
        small = fits;
      }
