-- ===== src/TcpServer/Names.antt =====
-- The map's keys: comparison of names, and the two operations on the map.
use thread_and_net.Prelude.{
  eq_string, ltb_string, ltb_string_total, ltb_string_trans, ◌+◌, eq_string-eq, eq_string_refl, ℕ,
  ◌≡◌, ◌≢◌, refl, ap, sym, ◌∙◌, subst, some-inj, true, Option, some, List, [], ◌∷◌, ◌++◌, ◌==◌,
  if◌then◌else◌, arith, Bool-cases, inl, inr,
}
use thread_and_net.TcpServer.{Conn, put_conn, erase_conn}

pub append-cancel : (a b c : List ℕ) → a ++ b ≡ a ++ c → b ≡ c
append-cancel [] b c h = h
append-cancel (x ∷ a) b c h = append-cancel a b c (cc)

-- The addresses in the map, in the order of their names
abbrev pub ptrs : List (List ℕ × ℕ) → List ℕ
ptrs [] = []
ptrs ((n, p) ∷ es) = p ∷ ptrs es

-- An entry's connection is there, under its own name.
abbrev pub Named : (ℕ → Option Conn) → List (List ℕ × ℕ) → Type 0
Named heap [] = Unit {0}
Named heap ((n, p) ∷ es) = ((c : Conn) × (heap p ≡ some c) × (c.name ≡ n)) × Named heap es

-- No entry has the name.
abbrev pub Unnamed : List ℕ → List (List ℕ × ℕ) → Type 0
Unnamed name [] = Unit {0}
Unnamed name ((n, p) ∷ es) = (n ≢ name) × Unnamed name es

-- How often an address stands in a list
abbrev pub times : ℕ → List ℕ → ℕ
times q [] = 0
times q (x ∷ xs) = (if x == q then 1 else 0) + times q xs

-- A name that is not there gets an entry, and the others stay.
pub times-put_conn :
    (name : List ℕ) (p q : ℕ) (es : List (List ℕ × ℕ))
    → Unnamed name es
    → times q (ptrs (put_conn name p es)) ≡ (if p == q then 1 else 0) + times q (ptrs es)
unfolding put_conn
times-put_conn name p q [] u = refl
times-put_conn name p q ((n, r) ∷ es) u =
    ground (arith, times-put_conn name p q es u.1, eq_string-eq n name)

pub Named-put_conn :
    (heap : ℕ → Option Conn) (name : List ℕ) (p : ℕ) (c : Conn) (es : List (List ℕ × ℕ))
    → heap p ≡ some c
    → c.name ≡ name
    → Named heap es
    → Named heap (put_conn name p es)
unfolding put_conn
Named-put_conn heap name p c [] h e n = ((c, h, e), tt)
Named-put_conn heap name p c ((m, q) ∷ es) h e (d, n) = elim (Bool-cases (ltb_string name m)) [
  | inl before ↦ rw before ((c, h, e), (d, n))
  | inr not_before ↦ elim (Bool-cases (eq_string m name)) [
    | inl same ↦ rw (not_before, same) ((c, h, e ∙ sym (eq_string-eq m name same)), n)
    | inr other ↦ rw (not_before, other) (d, Named-put_conn heap name p c es h e n)
  ]
]

-- The names are in order.
abbrev pub First : List ℕ → List (List ℕ × ℕ) → Type 0
First n [] = Unit {0}
First n ((m, q) ∷ es) = ltb_string n m ≡ true

abbrev pub IsSorted : List (List ℕ × ℕ) → Type 0
IsSorted [] = Unit {0}
IsSorted ((n, p) ∷ es) = First n es × IsSorted es

First-put_conn :
    (n name : List ℕ) (p : ℕ) (es : List (List ℕ × ℕ))
    → ltb_string n name ≡ true
    → First n es
    → First n (put_conn name p es)
unfolding put_conn
First-put_conn n name p [] l f = l
First-put_conn n name p ((m, q) ∷ es) l f = elim (Bool-cases (ltb_string name m)) [
  | inl before ↦ rw before l
  | inr not_before ↦ elim (Bool-cases (eq_string m name)) [
    | inl same ↦ rw (not_before, same) f
    | inr other ↦ rw (not_before, other) f
  ]
]

pub put_conn-IsSorted :
    (name : List ℕ) (p : ℕ) (es : List (List ℕ × ℕ)) → IsSorted es → IsSorted (put_conn name p es)
unfolding put_conn
put_conn-IsSorted name p [] s = (tt, tt)
put_conn-IsSorted name p ((m, q) ∷ es) (f, s) = elim (Bool-cases (ltb_string name m)) [
  | inl before ↦ rw before (before, (f, s))
  | inr not_before ↦ elim (Bool-cases (eq_string m name)) [
    | inl same ↦ rw (not_before, same) (f, s)
    | inr other ↦
        rw (not_before, other)
          (
            First-put_conn m name p es (ltb_string_total name m not_before other) f,
            put_conn-IsSorted name p es s,
          )
  ]
]

First-trans :
    (n m : List ℕ) (es : List (List ℕ × ℕ)) → ltb_string n m ≡ true → First m es → First n es
First-trans n m [] l f = tt
First-trans n m ((k, q) ∷ es) l f = ltb_string_trans n m k l f

First-erase_conn :
    (n name : List ℕ) (es : List (List ℕ × ℕ))
    → First n es
    → IsSorted es
    → First n (erase_conn name es)
unfolding erase_conn
First-erase_conn n name [] f s = tt
First-erase_conn n name ((m, q) ∷ es) f (g, s) = elim (Bool-cases (eq_string m name)) [
  | inl same ↦ rw same (First-erase_conn n name es (First-trans n m es f g) s)
  | inr other ↦ rw other f
]

pub erase_conn-IsSorted :
    (name : List ℕ) (es : List (List ℕ × ℕ)) → IsSorted es → IsSorted (erase_conn name es)
unfolding erase_conn
erase_conn-IsSorted name [] s = tt
erase_conn-IsSorted name ((m, q) ∷ es) (f, s) = elim (Bool-cases (eq_string m name)) [
  | inl same ↦ rw same (erase_conn-IsSorted name es s)
  | inr other ↦ rw other (First-erase_conn m name es f s, erase_conn-IsSorted name es s)
]

abbrev pub without : ℕ → List ℕ → List ℕ
without p [] = []
without p (x ∷ xs) = if x == p then without p xs else x ∷ without p xs

pub times-without :
    (p q : ℕ) (xs : List ℕ) → times q (without p xs) ≡ (if p == q then 0 else times q xs)
times-without p q [] = ground arith
times-without p q (x ∷ xs) = ground (arith, times-without p q xs)

-- Two connections have two names.
abbrev pub Distinct : (ℕ → Option Conn) → Type 0
Distinct heap = (p q : ℕ) (c d : Conn) → heap p ≡ some c → heap q ≡ some d → c.name ≡ d.name → p ≡ q

-- So the erasure of a connection's name takes out that connection, and no other.
pub ptrs-erase_conn :
    (heap : ℕ → Option Conn) (p : ℕ) (c : Conn) (es : List (List ℕ × ℕ))
    → Distinct heap
    → heap p ≡ some c
    → Named heap es
    → ptrs (erase_conn c.name es) ≡ without p (ptrs es)
unfolding erase_conn
ptrs-erase_conn heap p c [] u h n = refl
ptrs-erase_conn heap p c ((m, q) ∷ es) u h ((d, at, e), n) =
    let rest = ptrs-erase_conn heap p c es u h n in
    elim (Bool-cases (eq_string m c.name)) [
      | inl same ↦
          (let eq : q ≡ p = u q p d c at h (e ∙ eq_string-eq m c.name same) in ground (arith, rest))
      | inr other ↦
          (let ne : q ≢ p = λ (eq : q ≡ p).
              (let same_c : d ≡ c = some-inj (sym at ∙ ap heap eq ∙ h) in
                let same_name : m ≡ c.name = sym e ∙ ap (λ (x : Conn). x.name) same_c in
                let found : eq_string m c.name ≡ true =
                  subst (λ x. eq_string x c.name ≡ true) (sym same_name) (eq_string_refl c.name) in
                ground arith) in
            ground (arith, rest))
    ]

pub Named-erase_conn :
    (heap : ℕ → Option Conn) (name : List ℕ) (es : List (List ℕ × ℕ))
    → Named heap es
    → Named heap (erase_conn name es)
unfolding erase_conn
Named-erase_conn heap name [] n = tt
Named-erase_conn heap name ((m, q) ∷ es) (d, n) = elim (Bool-cases (eq_string m name)) [
  | inl same ↦ rw same (Named-erase_conn heap name es n)
  | inr other ↦ rw other (d, Named-erase_conn heap name es n)
]
