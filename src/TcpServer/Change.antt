-- ===== src/TcpServer/Change.antt =====
-- A change of a connection that leaves its name alone.
use thread_and_net.Prelude.{
  ℕ, ◌≡◌, refl, ap, sym, ◌∙◌, some-inj, Option, some, List, [], ◌∷◌, ◌==◌, ==_iff, arith,
  Bool-cases, inl, inr, update,
}
use thread_and_net.TcpConnection.{TcpConnection}
use thread_and_net.TcpServer.{Conn}
use thread_and_net.TcpServer.Names.{Named, Distinct}

module _ (heap : ℕ → Option Conn) (p : ℕ) (c : Conn) (at : heap p ≡ some c)
    (k : TcpConnection) where
  abbrev pub changed : ℕ → Option Conn
  changed = update heap p (some (record c { conn = k }))

  pub changed-there :
      (q : ℕ) (d : Conn) → heap q ≡ some d → (e : Conn) × (changed q ≡ some e) × (e.name ≡ d.name)
  changed-there q d h = elim (Bool-cases (q == p)) [
    | inl same ↦ (
      record c { conn = k },
      ground arith,
      ap (λ (x : Conn). x.name) (some-inj (sym (ap heap ((==_iff q p).0 same) ∙ at) ∙ h)),
    )
    | inr other ↦ (d, ground arith, refl)
  ]

  pub changed-back :
      (q : ℕ) (d : Conn) → changed q ≡ some d → (e : Conn) × (heap q ≡ some e) × (e.name ≡ d.name)
  changed-back q d h = elim (Bool-cases (q == p)) [
    | inl same ↦ (
      c,
      ap heap ((==_iff q p).0 same) ∙ at,
      (let now : changed q ≡ some (record c { conn = k }) = ground arith in
          ap (λ (x : Conn). x.name) (some-inj (sym now ∙ h))),
    )
    | inr other ↦ (d, ground arith, refl)
  ]

  pub Named-changed : (es : List (List ℕ × ℕ)) → Named heap es → Named changed es
  Named-changed [] n = tt
  Named-changed ((m, q) ∷ es) ((d, h, e), n) =
      let (d', h', e') = changed-there q d h in ((d', h', e' ∙ e), Named-changed es n)

  pub Distinct-changed : Distinct heap → Distinct changed
  Distinct-changed u q r d e h g same =
      let (d', h', n) = changed-back q d h in
      let (e', g', m) = changed-back r e g in u q r d' e' h' g' (n ∙ same ∙ sym m)
