-- ===== src/Poller/Remove.antt =====
-- `removeChannel` keeps the bookkeeping, unless the slot that it moves has been switched off.
use native.Mathlib.Decide.{ℕ_discrete}
use thread_and_net.Prelude.{
  ℕ, zero, suc, ◌-◌, ◌<◌, ◌≡◌, ◌≢◌, ◌⊎◌, inl, inr, refl, sym, ◌∙◌, ap, some, none, get_elem?, arith,
  update, length, List, [], ◌∷◌, get_elem?-lt, take, set, get_elem?-set_self, get_elem?-set_ne,
}
use thread_and_net.Poller.{Poller, PollFd, swap_remove, remove_channel}
use thread_and_net.Poller.Inv.{Wf}

get_elem?-take_lt :
    (n : ℕ) (v : List PollFd) (i : ℕ) → i < n → get_elem? (take n v) i ≡ get_elem? v i
get_elem?-take_lt zero v i h = absurd (omega arith)
get_elem?-take_lt (suc n) [] i h = refl
get_elem?-take_lt (suc n) (x ∷ v) zero h = refl
get_elem?-take_lt (suc n) (x ∷ v) (suc i) h = get_elem?-take_lt n v i (omega arith)

lt_of_get_elem?-take :
    (n : ℕ) (v : List PollFd) (i : ℕ) {e : PollFd} → get_elem? (take n v) i ≡ some e → i < n
lt_of_get_elem?-take zero v i h = ground arith
lt_of_get_elem?-take (suc n) [] i h = ground arith
lt_of_get_elem?-take (suc n) (x ∷ v) zero h = omega arith
lt_of_get_elem?-take (suc n) (x ∷ v) (suc i) h = omega (arith, lt_of_get_elem?-take n v i h)

-- The poller after the removal of the channel in the last slot.
abbrev pop_last : Poller → ℕ → Poller
pop_last s p = record s {
  channels = update s.channels (s.heap p).fd none;
  pollfds = take (length s.pollfds - 1) s.pollfds;
}

-- The poller after the last slot, of channel `q`, has moved to index `idx`.
abbrev moved_last : Poller → ℕ → ℕ → PollFd → ℕ → Poller
moved_last s p idx last q = record s {
  channels = update s.channels (s.heap p).fd none;
  pollfds = swap_remove s.pollfds idx last;
  heap = update s.heap q (record (s.heap q) { index = some idx });
}

module _ (s : Poller) (p idx : ℕ) (w : Wf s) (reg : s.channels (s.heap p).fd ≡ some p)
    (at : (s.heap p).index ≡ some idx) where
  -- A channel that stays has another index than the one that goes.
  stays_elsewhere :
      (f q i : ℕ) → f ≢ (s.heap p).fd → s.channels f ≡ some q → (s.heap q).index ≡ some i → i ≢ idx
  stays_elsewhere f q i ne m atq e =
      ne (w.distinct f (s.heap p).fd q p idx m reg (atq ∙ ap some e) at)

  pop_last-Wf : idx ≡ length s.pollfds - 1 → Wf (pop_last s p)
  pop_last-Wf last = record {
    mapped = λ f q h. ground (arith, w.mapped f q);
    placed = λ f q h.
        let ne : f ≢ (s.heap p).fd = ground arith in
        let h' : s.channels f ≡ some q = ground arith in
        let (i, e, atq, slot, fd) = w.placed f q h' in
        let low : i < length s.pollfds - 1 =
          omega (arith, get_elem?-lt s.pollfds i slot, stays_elsewhere f q i ne h' atq) in
        (i, e, atq, get_elem?-take_lt (length s.pollfds - 1) s.pollfds i low ∙ slot, fd);
    distinct = λ f g q r i hf hg. ground (arith, w.distinct f g q r i);
    filled = λ i f e h hf.
        let low = lt_of_get_elem?-take (length s.pollfds - 1) s.pollfds i h in
        let (q, m, atq) =
          w.filled i f e (sym (get_elem?-take_lt (length s.pollfds - 1) s.pollfds i low) ∙ h) hf in
        (q, ground arith, atq);
  }

module _ (s : Poller) (p idx : ℕ) (w : Wf s) (reg : s.channels (s.heap p).fd ≡ some p)
    (at : (s.heap p).index ≡ some idx) (low : idx < length s.pollfds - 1) (last : PollFd)
    (slot : get_elem? s.pollfds (length s.pollfds - 1) ≡ some last) (fl q : ℕ)
    (named : last.fd ≡ some fl) (owner : s.channels fl ≡ some q)
    (at_q : (s.heap q).index ≡ some (length s.pollfds - 1)) where
  last_stays : fl ≢ (s.heap p).fd
  last_stays e = ground (arith, ap s.channels e)

  slot_idx : get_elem? (swap_remove s.pollfds idx last) idx ≡ some last
  slot_idx =
      get_elem?-take_lt (length s.pollfds - 1) (set s.pollfds idx last) idx low
      ∙ get_elem?-set_self s.pollfds idx last (omega arith)

  slot_other :
      (i : ℕ)
      → i < length s.pollfds - 1
      → i ≢ idx
      → get_elem? (swap_remove s.pollfds idx last) i ≡ get_elem? s.pollfds i
  slot_other i h ne =
      get_elem?-take_lt (length s.pollfds - 1) (set s.pollfds idx last) i h
      ∙ get_elem?-set_ne s.pollfds idx i last (λ e. ne (sym e))

  moved-placed :
      (f r : ℕ)
      → (moved_last s p idx last q).channels f ≡ some r
      → (i : ℕ) × (e : PollFd) × (((moved_last s p idx last q).heap r).index ≡ some i)
        × (get_elem? (swap_remove s.pollfds idx last) i ≡ some e)
        × ((e.fd ≡ some f) ⊎ (e.fd ≡ none))
  moved-placed f r h = elim (ℕ_discrete f fl) [
    | yes same ↦ (idx, last, ground (arith, ap s.channels same), slot_idx, inl (ground arith))
    | no other ↦
        let ne : f ≢ (s.heap p).fd = ground arith in
        let h' : s.channels f ≡ some r = ground arith in
        let (i, e, atr, old, fd) = w.placed f r h' in
        let not_last : i ≢ length s.pollfds - 1 =
          λ x. other (w.distinct f fl r q i h' owner atr (at_q ∙ ap some (sym x))) in
        let elsewhere = stays_elsewhere s p idx w reg at f r i ne h' atr in
        (
          i,
          e,
          ground (arith, w.mapped f r, w.mapped fl q),
          slot_other i (omega (arith, get_elem?-lt s.pollfds i old)) elsewhere ∙ old,
          fd,
        )
  ]

  moved-filled :
      (i f : ℕ) (e : PollFd)
      → get_elem? (swap_remove s.pollfds idx last) i ≡ some e
      → e.fd ≡ some f
      → (r : ℕ) × ((moved_last s p idx last q).channels f ≡ some r)
        × (((moved_last s p idx last q).heap r).index ≡ some i)
  moved-filled i f e h hf =
      let small = lt_of_get_elem?-take (length s.pollfds - 1) (set s.pollfds idx last) i h in
      elim (ℕ_discrete i idx) [
        | yes same ↦
            let same_slot : e ≡ last =
              ground (arith, slot_idx, ap (get_elem? (swap_remove s.pollfds idx last)) same) in
            let same_fd : f ≡ fl = ground (arith, ap (λ (x : PollFd). x.fd) same_slot) in
            (q, ground (arith, last_stays, ap s.channels same_fd), ground arith)
        | no other ↦
            let (r, m, atr) = w.filled i f e (sym (slot_other i small other) ∙ h) hf in
            let stays : f ≢ (s.heap p).fd = λ x. ground (arith, ap s.channels x) in
            (r, ground arith, ground arith)
      ]

  moved_index :
      (f r i : ℕ)
      → (moved_last s p idx last q).channels f ≡ some r
      → ((moved_last s p idx last q).heap r).index ≡ some i
      → ((f ≡ fl) × (i ≡ idx)) ⊎ ((s.channels f ≡ some r) × ((s.heap r).index ≡ some i) × (i ≢ idx))
  moved_index f r i h hi = elim (ℕ_discrete f fl) [
    | yes same ↦ inl (same, ground (arith, ap s.channels same))
    | no other ↦
        let ne : f ≢ (s.heap p).fd = ground arith in
        let h' : s.channels f ≡ some r = ground arith in
        let old : (s.heap r).index ≡ some i = ground (arith, w.mapped f r, w.mapped fl q) in
        inr (h', old, stays_elsewhere s p idx w reg at f r i ne h' old)
  ]

  moved-distinct :
      (f g r t i : ℕ)
      → (moved_last s p idx last q).channels f ≡ some r
      → (moved_last s p idx last q).channels g ≡ some t
      → ((moved_last s p idx last q).heap r).index ≡ some i
      → ((moved_last s p idx last q).heap t).index ≡ some i
      → f ≡ g
  moved-distinct f g r t i hf hg hr ht = elim (moved_index f r i hf hr) [
    | inl (a, b) ↦ elim (moved_index g t i hg ht) [
      | inl (c, d) ↦ a ∙ sym c
      | inr (c, d, e) ↦ absurd (e b)
    ]
    | inr (a, b, c) ↦ elim (moved_index g t i hg ht) [
      | inl (d, e) ↦ absurd (c e)
      | inr (d, e, x) ↦ w.distinct f g r t i a d b e
    ]
  ]

  moved_last-Wf : Wf (moved_last s p idx last q)
  moved_last-Wf = record {
    mapped = λ f r h. ground (arith, w.mapped f r);
    placed = moved-placed;
    distinct = moved-distinct;
    filled = moved-filled;
  }

-- The slot that `removeChannel` moves still has its descriptor, or nothing is moved.
abbrev pub Movable : Poller → ℕ → Type 0
Movable s p =
    ((s.heap p).index ≡ some (length s.pollfds - 1))
    ⊎ ((e : PollFd) × (f : ℕ) × (get_elem? s.pollfds (length s.pollfds - 1) ≡ some e)
        × (e.fd ≡ some f))

module _ (tid : ℕ) (s : Poller) (p idx : ℕ) (w : Wf s) (hl : (s.heap p).loop ≡ s.loop)
    (ht : tid ≡ s.thread_id) (reg : s.channels (s.heap p).fd ≡ some p)
    (at : (s.heap p).index ≡ some idx) (bound : idx < length s.pollfds) where
  remove_inner :
      idx ≢ length s.pollfds - 1
      → Movable s p
      → (s' : Poller) × (remove_channel tid s p ≡ some s')
        × Wf s'
        × (s'.channels ≡ update s.channels (s.heap p).fd none)
  unfolding remove_channel
  remove_inner inner (inl last) = absurd (ground arith)
  remove_inner inner (inr (e, f, slot, named)) =
      let (q, owner, at_q) = w.filled (length s.pollfds - 1) f e slot named in
      let low : idx < length s.pollfds - 1 = omega arith in
      let stays = last_stays s p idx w reg at low e slot f q named owner at_q in
      (
        moved_last s p idx e q,
        ground arith,
        moved_last-Wf s p idx w reg at low e slot f q named owner at_q,
        refl,
      )

-- `removeChannel` from the loop's thread, of a channel in the map, succeeds then: the channel leaves
-- the map, every other entry of the map stays, and so does the bookkeeping.
pub remove_channel-Wf :
    (tid : ℕ) (s : Poller) (p : ℕ)
    → Wf s
    → (s.heap p).loop ≡ s.loop
    → tid ≡ s.thread_id
    → s.channels (s.heap p).fd ≡ some p
    → Movable s p
    → (s' : Poller) × (remove_channel tid s p ≡ some s')
      × Wf s'
      × (s'.channels ≡ update s.channels (s.heap p).fd none)
unfolding remove_channel
remove_channel-Wf tid s p w hl ht reg mv =
    let (idx, e, at, slot, _) = w.placed (s.heap p).fd p reg in
    let low = get_elem?-lt s.pollfds idx slot in
    elim (ℕ_discrete idx (length s.pollfds - 1)) [
      | yes last ↦ (pop_last s p, ground arith, pop_last-Wf s p idx w reg at last, refl)
      | no inner ↦ remove_inner tid s p idx w hl ht reg at low inner mv
    ]

-- If it has been switched off, the map is read at -1, and the process dies on a null pointer.
pub remove_channel-crash :
    (tid : ℕ) (s : Poller) (p idx : ℕ) (last : PollFd)
    → (s.heap p).index ≡ some idx
    → idx ≢ length s.pollfds - 1
    → get_elem? s.pollfds (length s.pollfds - 1) ≡ some last
    → last.fd ≡ none
    → remove_channel tid s p ≡ none
unfolding remove_channel
remove_channel-crash tid s p idx last at inner slot off = ground arith
