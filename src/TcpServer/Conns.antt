-- ===== src/TcpServer/Conns.antt =====
-- The map of connections against the history: who is in it.
use thread_and_net.Prelude.{
  ℕ, ◌+◌, ◌^◌, ◌<◌, ◌≡◌, refl, ap, sym, ◌∙◌, Bool, true, false, ◌||◌, Option, some, List, [], ◌∷◌,
  ◌++◌, ◌==◌, if◌then◌else◌, arith, Bool-cases, inl, inr,
}
use thread_and_net.TcpConnection.{TcpConnection}
use thread_and_net.TcpServer.{Conn, TcpServer, erase_conn, conn_name}
use thread_and_net.TcpServer.Change.{
  changed, changed-there, changed-back, Named-changed, Distinct-changed,
}
use thread_and_net.TcpServer.Names.{
  times, times-without, IsSorted, erase_conn-IsSorted, ptrs, Named, without, Distinct,
  ptrs-erase_conn, Named-erase_conn,
}

abbrev pub contains : ℕ → List ℕ → Bool
contains p [] = false
contains p (x ∷ xs) = x == p || contains p xs

-- The elements of the first list that are not in the second, in order
abbrev pub minus : List ℕ → List ℕ → List ℕ
minus [] rs = []
minus (x ∷ xs) rs = if contains x rs then minus xs rs else x ∷ minus xs rs

pub minus-append :
    (xs rs : List ℕ) (p : ℕ)
    → contains p rs ≡ false
    → minus (xs ++ p ∷ []) rs ≡ minus xs rs ++ p ∷ []
minus-append [] rs p h = rw h
minus-append (x ∷ xs) rs p h = elim (Bool-cases (contains x rs)) [
  | inl e ↦ rw e (minus-append xs rs p h)
  | inr e ↦ rw e (ap (◌∷◌ x) (minus-append xs rs p h))
]

pub times-append :
    (q p : ℕ) (xs : List ℕ) → times q (xs ++ p ∷ []) ≡ (if p == q then 1 else 0) + times q xs
times-append q p [] = refl
times-append q p (x ∷ xs) = ground (arith, times-append q p xs)

contains-append : (x p : ℕ) (rs : List ℕ) → contains x (rs ++ p ∷ []) ≡ (contains x rs || p == x)
contains-append x p [] = ground arith
contains-append x p (r ∷ rs) = ground (arith, contains-append x p rs)

minus-without : (xs rs : List ℕ) (p : ℕ) → minus xs (rs ++ p ∷ []) ≡ without p (minus xs rs)
minus-without [] rs p = refl
minus-without (x ∷ xs) rs p = ground (arith, contains-append x p rs, minus-without xs rs p)

module _ (print : ℕ → List ℕ) where
  -- What holds of the members and the history
  pub record Inv (name : List ℕ) (next : ℕ) (heap : ℕ → Option Conn) (conns : List (List ℕ × ℕ))
      (accepted removed : List ℕ) : Type 0 where
    pub named : Named heap conns
    pub distinct : Distinct heap
    pub numbered :
        (p : ℕ) (c : Conn)
        → heap p ≡ some c
        → (k : ℕ) × (k < next) × (c.name ≡ conn_name print name k)
    pub live : (q : ℕ) → times q (ptrs conns) ≡ times q (minus accepted removed)
    pub sorted : IsSorted conns
    pub known : (p : ℕ) → contains p removed ≡ true → (c : Conn) × (heap p ≡ some c)
    pub small : next < 2 ^ 31

  abbrev pub Good : TcpServer → Type 0
  Good s = Inv s.name s.next_conn_id s.heap s.conns s.accepted s.removed

  pub Inv-changed :
      (name : List ℕ) (next : ℕ) (heap : ℕ → Option Conn) (conns : List (List ℕ × ℕ))
      (accepted removed : List ℕ) (p : ℕ) (c : Conn) (at : heap p ≡ some c) (k : TcpConnection)
      → Inv name next heap conns accepted removed
      → Inv name next (changed heap p c at k) conns accepted removed
  Inv-changed name next heap conns accepted removed p c at k i = record {
    named = Named-changed heap p c at k conns i.named;
    distinct = Distinct-changed heap p c at k i.distinct;
    numbered = λ q d h.
        let (d', h', n) = changed-back heap p c at k q d h in
        let (j, lt, e) = i.numbered q d' h' in (j, lt, sym n ∙ e);
    live = i.live;
    sorted = i.sorted;
    known = λ q h.
        let (d, h') = i.known q h in let (e, g, _) = changed-there heap p c at k q d h' in (e, g);
    small = i.small;
  }

  -- A connection is taken out.
  pub Inv-removed :
      (name : List ℕ) (next : ℕ) (heap : ℕ → Option Conn) (conns : List (List ℕ × ℕ))
      (accepted removed : List ℕ) (p : ℕ) (c : Conn)
      → heap p ≡ some c
      → Inv name next heap conns accepted removed
      → Inv name next heap (erase_conn c.name conns) accepted (removed ++ p ∷ [])
  Inv-removed name next heap conns accepted removed p c at i = record {
    named = Named-erase_conn heap c.name conns i.named;
    distinct = i.distinct;
    numbered = i.numbered;
    live = λ q.
        ap (times q) (ptrs-erase_conn heap p c conns i.distinct at i.named)
        ∙ times-without p q (ptrs conns)
        ∙ ap (λ n. if p == q then 0 else n) (i.live q)
        ∙ sym (times-without p q (minus accepted removed))
        ∙ ap (times q) (sym (minus-without accepted removed p));
    sorted = erase_conn-IsSorted c.name conns i.sorted;
    known = λ q h. elim (Bool-cases (contains q removed)) [
      | inl old ↦ i.known q old
      | inr new ↦ (c, ap heap (ground (arith, contains-append q p removed)) ∙ at)
    ];
    small = i.small;
  }
