-- ===== src/Poller/Fill.antt =====
-- `fillActiveChannels`: which channels it hands to the event loop.
use native.Mathlib.Decide.{dec_lt, ℕ_discrete}
use thread_and_net.Prelude.{
  ℕ, suc, ◌+◌, ◌-◌, ◌<◌, ◌≡◌, refl, ◌∙◌, sym, ap, Option, some, none, List, [], ◌∷◌, ◌++◌, arith,
  ltb, ◌==◌, ==_refl, if◌then◌else◌, get_elem?, append-nil, append_assoc, false, lt→ltb,
}
use thread_and_net.Poller.{Poller, PollFd, modify, fill_active}
use thread_and_net.Poller.Inv.{Wf}

-- What poll(2) reports: the slots with something in `revents`.
pub count_ready : List PollFd → ℕ
count_ready [] = 0
count_ready (e ∷ es) = (if ltb 0 e.revents then 1 else 0) + count_ready es

-- The channel behind a descriptor, for the specification: `none` where there is none.
abbrev pub behind : Poller → PollFd → Option ℕ
behind s e = elim e.fd [ none ↦ none | some f ↦ s.channels f ]

abbrev cons_opt : Option ℕ → List ℕ → List ℕ
cons_opt none ps = ps
cons_opt (some p) ps = p ∷ ps

-- The channels of the slots that are ready, in the order of the slots.
pub ready : Poller → List PollFd → List ℕ
ready s [] = []
ready s (e ∷ es) = if ltb 0 e.revents then cons_opt (behind s e) (ready s es) else ready s es

-- Each slot that is ready has a descriptor (poll(2) ignores those of -1), and the map knows it.
abbrev pub Served : Poller → List PollFd → Type 0
Served s [] = Unit {0}
Served s (e ∷ es) =
    (0 < e.revents
      → (f : ℕ) × (p : ℕ) × (e.fd ≡ some f) × (s.channels f ≡ some p) × ((s.heap p).fd ≡ f))
    × Served s es

-- A slot of -1 has been left alone by poll(2).
abbrev pub Quiet : List PollFd → Type 0
Quiet [] = Unit {0}
Quiet (e ∷ es) = (e.fd ≡ none → e.revents ≡ 0) × Quiet es

Wf-Served_from :
    (s : Poller) (es : List PollFd)
    → Wf s
    → ((i : ℕ) (e : PollFd) → get_elem? es i ≡ some e → (j : ℕ) × (get_elem? s.pollfds j ≡ some e))
    → Quiet es
    → Served s es
Wf-Served_from s [] w inside q = tt
Wf-Served_from s (e ∷ es) w inside q =
    (λ pos. found e.fd refl pos, Wf-Served_from s es w (λ i x h. inside (suc i) x h) q.1)
  where
    found :
        (o : Option ℕ)
        → e.fd ≡ o
        → 0 < e.revents
        → (f : ℕ) × (p : ℕ) × (e.fd ≡ some f) × (s.channels f ≡ some p) × ((s.heap p).fd ≡ f)
    found none off pos = absurd (omega (arith, q.0 off))
    found (some f) on pos =
        let (j, at) = inside 0 e refl in
        let (p, m, idx) = w.filled j f e at on in (f, p, on, m, w.mapped f p m)

Served-modify :
    (s : Poller) (p r : ℕ) (es : List PollFd)
    → Served s es
    → Served (modify s p (λ c. record c { revents = r })) es
Served-modify s p r [] v = tt
Served-modify s p r (e ∷ es) v =
    (λ pos. let (f, q, a, b, c) = v.0 pos in (f, q, a, b, ground arith), Served-modify s p r es v.1)

ready-modify :
    (s : Poller) (p r : ℕ) (es : List PollFd)
    → ready (modify s p (λ c. record c { revents = r })) es ≡ ready s es
unfolding ready
ready-modify s p r [] = refl
ready-modify s p r (e ∷ es) = rw (ready-modify s p r es)

ready_nil : (s : Poller) (es : List PollFd) → count_ready es ≡ 0 → ready s es ≡ []
unfolding count_ready ready
ready_nil s [] h = refl
ready_nil s (e ∷ es) h = ground (arith, ready_nil s es)

fill_active_hit :
    (s : Poller) (e : PollFd) (es : List PollFd) (k : ℕ) (active : List ℕ) (f p : ℕ)
    → 0 < e.revents
    → e.fd ≡ some f
    → s.channels f ≡ some p
    → (s.heap p).fd ≡ f
    → fill_active s (e ∷ es) (1 + k) active
      ≡ fill_active (modify s p (λ c. record c { revents = e.revents })) es k (active ++ p ∷ [])
unfolding fill_active
fill_active_hit s e es k active f p hit a b c =
    let some_left : ((1 + k) == 0) ≡ false = ground arith in
    let one_less : 1 + k - 1 ≡ k = omega arith in
    rw (some_left, lt→ltb 0 e.revents hit, a, b, c, ==_refl f, one_less) refl

fill_active_idle :
    (s : Poller) (e : PollFd) (es : List PollFd) (k : ℕ) (active : List ℕ)
    → e.revents ≡ 0
    → fill_active s (e ∷ es) k active
      ≡ (if k == 0 then some (active, s) else fill_active s es k active)
unfolding fill_active
fill_active_idle s e es k active idle = rw idle refl

count_ready_hit :
    (e : PollFd) (es : List PollFd) → 0 < e.revents → count_ready (e ∷ es) ≡ 1 + count_ready es
unfolding count_ready
count_ready_hit e es h = ground arith

ready_hit :
    (s : Poller) (e : PollFd) (es : List PollFd) (f p : ℕ)
    → 0 < e.revents
    → e.fd ≡ some f
    → s.channels f ≡ some p
    → ready s (e ∷ es) ≡ p ∷ ready s es
unfolding ready
ready_hit s e es f p h a b = ground arith

skipped :
    (s : Poller) (e : PollFd) (es : List PollFd)
    → e.revents ≡ 0
    → (count_ready (e ∷ es) ≡ count_ready es) × (ready s (e ∷ es) ≡ ready s es)
unfolding count_ready ready
skipped s e es h = ground arith

-- With `poll`'s own count the scan misses no slot that is ready: it hands over the channels of just
-- those slots, in order, and changes neither the slots nor the map.
pub fill_active-Served :
    (s : Poller) (es : List PollFd) (active : List ℕ)
    → Served s es
    → (s' : Poller) × (fill_active s es (count_ready es) active ≡ some (active ++ ready s es, s'))
      × (s'.channels ≡ s.channels)
      × (s'.pollfds ≡ s.pollfds)
fill_active-Served s [] active v =
    (s, unfold fill_active count_ready ready in rw append-nil refl, refl, refl)
fill_active-Served s (e ∷ es) active v = elim (dec_lt 0 e.revents) [
  | yes hit ↦
      let (f, p, a, b, c) = v.0 hit in
      let t : Poller = modify s p (λ c. record c { revents = e.revents }) in
      let (s', r, ch, pf) =
        fill_active-Served t es (active ++ p ∷ []) (Served-modify s p e.revents es v.1) in
      (
        s',
        ap (λ n. fill_active s (e ∷ es) n active) (count_ready_hit e es hit)
            ∙ fill_active_hit s e es (count_ready es) active f p hit a b c
            ∙ r
            ∙ ap (λ l. some (l, s'))
                (append_assoc active (p ∷ []) (ready t es)
                  ∙ ap (λ l. active ++ p ∷ l) (ready-modify s p e.revents es)
                  ∙ ap (◌++◌ active) (sym (ready_hit s e es f p hit a b))),
        ch,
        pf,
      )
  | no idle ↦
      let quiet : e.revents ≡ 0 = omega arith in
      let (same, rest) = skipped s e es quiet in
      let (s', r, ch, pf) = fill_active-Served s es active v.1 in
      elim (ℕ_discrete (count_ready es) 0) [
        | yes done ↦ (
          s,
          ap (λ n. fill_active s (e ∷ es) n active) (same ∙ done)
              ∙ fill_active_idle s e es 0 active quiet
              ∙ ap (λ l. some (l, s))
                  (sym (append-nil active) ∙ ap (◌++◌ active) (sym (rest ∙ ready_nil s es done))),
          refl,
          refl,
        )
        | no more ↦
            let go : (count_ready es == 0) ≡ false = ground arith in
            (
              s',
              ap (λ n. fill_active s (e ∷ es) n active) same
                  ∙ fill_active_idle s e es (count_ready es) active quiet
                  ∙ rw go r
                  ∙ ap (λ l. some (active ++ l, s')) (sym rest),
              ch,
              pf,
            )
      ]
]

-- So after a `poll` that leaves the slots of -1 alone, no assert of the scan fails under the
-- bookkeeping, and the active channels are those of the slots that are ready, in order.
pub fill_active-ready :
    (s : Poller)
    → Wf s
    → Quiet s.pollfds
    → (s' : Poller) × (fill_active s s.pollfds (count_ready s.pollfds) []
        ≡ some (ready s s.pollfds, s'))
      × (s'.channels ≡ s.channels)
      × (s'.pollfds ≡ s.pollfds)
fill_active-ready s w q =
    fill_active-Served s s.pollfds [] (Wf-Served_from s s.pollfds w (λ i e h. (i, h)) q)
