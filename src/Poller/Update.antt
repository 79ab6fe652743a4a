-- ===== src/Poller/Update.antt =====
-- `updateChannel` keeps the bookkeeping.
use native.Mathlib.Decide.{ℕ_discrete}
use thread_and_net.Prelude.{
  ◌<◌, get_elem?-set_self, get_elem?-set_ne, eq_opt_refl, ℕ, ◌≡◌, ◌≢◌, ◌⊎◌, inl, inr, refl, sym,
  ◌∙◌, ap, some, none, get_elem?, arith, length, List, [], ◌∷◌, ◌++◌, get_elem?-lt, suc, zero,
}
use thread_and_net.Channel.{Channel}
use thread_and_net.Poller.{Poller, PollFd, added, refreshed, refreshed_slot, update_channel, modify}
use thread_and_net.Poller.Inv.{Wf}

get_elem?-append_left :
    (v : List PollFd) (x : PollFd) (i : ℕ) {e : PollFd}
    → get_elem? v i ≡ some e
    → get_elem? (v ++ x ∷ []) i ≡ some e
get_elem?-append_left [] x i h = ground arith
get_elem?-append_left (y ∷ v) x zero h = h
get_elem?-append_left (y ∷ v) x (suc i) h = get_elem?-append_left v x i h

get_elem?-append_last : (v : List PollFd) (x : PollFd) → get_elem? (v ++ x ∷ []) (length v) ≡ some x
get_elem?-append_last [] x = refl
get_elem?-append_last (y ∷ v) x = get_elem?-append_last v x

get_elem?-append_cases :
    (v : List PollFd) (x : PollFd) (i : ℕ) (e : PollFd)
    → get_elem? (v ++ x ∷ []) i ≡ some e
    → (get_elem? v i ≡ some e) ⊎ ((i ≡ length v) × (x ≡ e))
get_elem?-append_cases [] x zero e h = inr (refl, ground arith)
get_elem?-append_cases [] x (suc i) e h = ground arith
get_elem?-append_cases (y ∷ v) x zero e h = inl h
get_elem?-append_cases (y ∷ v) x (suc i) e h = elim (get_elem?-append_cases v x i e h) [
  | inl l ↦ inl l
  | inr r ↦ inr (ap suc r.0, r.1)
]

-- A channel that is not in the map under its descriptor is nowhere in it.
pub unmapped :
    (s : Poller) (f p q : ℕ)
    → Wf s
    → s.channels (s.heap p).fd ≡ none
    → s.channels f ≡ some q
    → q ≢ p
unmapped s f p q w free h e = ground (arith, w.mapped f q h, ap (λ n. s.channels (s.heap n).fd) e)

module _ (s : Poller) (p : ℕ) (w : Wf s) (free : s.channels (s.heap p).fd ≡ none) where
  added-mapped : (f q : ℕ) → (added s p).channels f ≡ some q → ((added s p).heap q).fd ≡ f
  unfolding added
  added-mapped f q h = ground (arith, w.mapped f q)

  added-placed :
      (f q : ℕ)
      → (added s p).channels f ≡ some q
      → (i : ℕ) × (e : PollFd) × (((added s p).heap q).index ≡ some i)
        × (get_elem? (added s p).pollfds i ≡ some e)
        × ((e.fd ≡ some f) ⊎ (e.fd ≡ none))
  unfolding added
  added-placed f q h = elim (ℕ_discrete f (s.heap p).fd) [
    | yes e ↦ (length s.pollfds, _, ground arith, get_elem?-append_last s.pollfds _, ground arith)
    | no ne ↦
        let h' : s.channels f ≡ some q = ground arith in
        let (i, e, at, slot, fd) = w.placed f q h' in
        (
          i,
          e,
          ground (arith, unmapped s f p q w free h'),
          get_elem?-append_left s.pollfds _ i slot,
          fd,
        )
  ]

  added-filled :
      (i f : ℕ) (e : PollFd)
      → get_elem? (added s p).pollfds i ≡ some e
      → e.fd ≡ some f
      → (q : ℕ) × ((added s p).channels f ≡ some q) × (((added s p).heap q).index ≡ some i)
  unfolding added
  added-filled i f e h hf = elim (get_elem?-append_cases s.pollfds _ i e h) [
    | inl old ↦
        let (q, m, at) = w.filled i f e old hf in
        (q, ground arith, ground (arith, unmapped s f p q w free m))
    | inr new ↦ (p, ground arith, ground arith)
  ]

  added-distinct :
      (f g q r i : ℕ)
      → (added s p).channels f ≡ some q
      → (added s p).channels g ≡ some r
      → ((added s p).heap q).index ≡ some i
      → ((added s p).heap r).index ≡ some i
      → f ≡ g
  unfolding added
  added-distinct f g q r i hf hg hq hr = ground (
    arith,
    w.distinct f g q r i,
    w.placed f q,
    w.placed g r,
    unmapped s f p q w free,
    unmapped s g p r w free,
    bound f q,
    bound g r,
  )
    where
      bound :
          (f q : ℕ)
          → s.channels f ≡ some q
          → (i : ℕ) × ((s.heap q).index ≡ some i) × (i < length s.pollfds)
      bound f q h =
          let (i, e, at, slot, fd) = w.placed f q h in (i, at, get_elem?-lt s.pollfds i slot)

added-Wf : (s : Poller) (p : ℕ) → Wf s → s.channels (s.heap p).fd ≡ none → Wf (added s p)
added-Wf s p w free = record {
  mapped = added-mapped s p w free;
  placed = added-placed s p w free;
  distinct = added-distinct s p w free;
  filled = added-filled s p w free;
}

module _ (s : Poller) (p idx : ℕ) (pfd : PollFd) (w : Wf s) (at : (s.heap p).index ≡ some idx)
    (slot : get_elem? s.pollfds idx ≡ some pfd) where
  refreshed-placed :
      (f q : ℕ)
      → s.channels f ≡ some q
      → (i : ℕ) × (e : PollFd) × ((s.heap q).index ≡ some i)
        × (get_elem? (refreshed s p idx pfd).pollfds i ≡ some e)
        × ((e.fd ≡ some f) ⊎ (e.fd ≡ none))
  unfolding refreshed
  refreshed-placed f q h =
      let (i, e, atq, old, fd) = w.placed f q h in
      elim (ℕ_discrete i idx) [
        | yes same ↦ (
          i,
          refreshed_slot (s.heap p) pfd,
          atq,
          rw same (get_elem?-set_self s.pollfds idx _ (get_elem?-lt s.pollfds idx slot)),
          ground arith,
        )
        | no ne ↦ (i, e, atq, get_elem?-set_ne s.pollfds idx i _ (λ x. ne (sym x)) ∙ old, fd)
      ]

  refreshed-filled :
      (i f : ℕ) (e : PollFd)
      → get_elem? (refreshed s p idx pfd).pollfds i ≡ some e
      → e.fd ≡ some f
      → (q : ℕ) × (s.channels f ≡ some q) × ((s.heap q).index ≡ some i)
  unfolding refreshed
  refreshed-filled i f e h hf = elim (ℕ_discrete i idx) [
    | yes same ↦ rw same (
        w.filled idx f pfd slot (
          ground (
            arith,
            get_elem?-set_self s.pollfds idx (refreshed_slot (s.heap p) pfd)
                (get_elem?-lt s.pollfds idx slot),
          )))
    | no ne ↦ w.filled i f e (sym (get_elem?-set_ne s.pollfds idx i _ (λ x. ne (sym x))) ∙ h) hf
  ]

  refreshed-Wf : Wf (refreshed s p idx pfd)
  unfolding refreshed
  refreshed-Wf = record {
    mapped = w.mapped;
    placed = refreshed-placed;
    distinct = w.distinct;
    filled = refreshed-filled;
  }

-- A store that leaves the descriptors and the indices alone keeps the bookkeeping.
pub modify-Wf :
    (s : Poller) (p : ℕ) (g : Channel → Channel)
    → Wf s
    → (g (s.heap p)).fd ≡ (s.heap p).fd
    → (g (s.heap p)).index ≡ (s.heap p).index
    → Wf (modify s p g)
modify-Wf s p g w hf hi = record {
  mapped = λ f q h. ground (arith, w.mapped f q h);
  placed = λ f q h. let (i, e, at, slot, fd) = w.placed f q h in (i, e, ground arith, slot, fd);
  distinct = λ f h q r i cf ch iq ir. ground (arith, w.distinct f h q r i cf ch);
  filled = λ i f e h hfd. let (q, m, at) = w.filled i f e h hfd in (q, m, ground arith);
}

-- A channel that the poller's owner may pass to `updateChannel`: a new one for a descriptor that is
-- not in the map, or one that is in it.
abbrev pub Updatable : Poller → ℕ → Type 0
Updatable s p =
    (((s.heap p).index ≡ none) × (s.channels (s.heap p).fd ≡ none))
    ⊎ (s.channels (s.heap p).fd ≡ some p)

-- `updateChannel` from the loop's thread succeeds on such a channel, keeps the bookkeeping, and has
-- the channel in the map.
pub update_channel-Wf :
    (tid : ℕ) (s : Poller) (p : ℕ)
    → Wf s
    → (s.heap p).loop ≡ s.loop
    → tid ≡ s.thread_id
    → Updatable s p
    → (s' : Poller) × (update_channel tid s p ≡ some s')
      × Wf s'
      × (s'.channels (s.heap p).fd ≡ some p)
unfolding update_channel added refreshed
update_channel-Wf tid s p w hl ht (inl (i, c)) =
    (added s p, ground arith, added-Wf s p w c, ground arith)
update_channel-Wf tid s p w hl ht (inr c) =
    let (i, e, at, slot, fd) = w.placed (s.heap p).fd p c in
    (refreshed s p i e, ground (arith, eq_opt_refl (some p)), refreshed-Wf s p i e w at slot, c)
