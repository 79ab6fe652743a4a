-- ===== src/Poller/Deaf.antt =====
-- What becomes of a channel whose events were all switched off: its slot has lost the descriptor.
use thread_and_net.Prelude.{
  subst, Option-cases, inl, inr, ℕ, ◌-◌, ◌≡◌, ◌≢◌, ◌∙◌, ap, Option, some, none, List, [], ◌∷◌,
  arith, get_elem?, get_elem?-lt, get_elem?-set_self, length, length-set, set, ◌>>=◌,
}
use thread_and_net.Channel.{Interest, interest, disable_all}
use thread_and_net.Poller.{
  Poller, PollFd, modify, refreshed, refreshed_slot, change, remove_channel,
}
use thread_and_net.Poller.Inv.{Wf}
use thread_and_net.Poller.Remove.{remove_channel-crash}

-- The channel's slot is one that poll(2) passes over.
pub record IsDeaf (s : Poller) (p : ℕ) : Type 0 where
  pub idx : ℕ
  pub slot : PollFd
  pub at : (s.heap p).index ≡ some idx
  pub slot_eq : get_elem? s.pollfds idx ≡ some slot
  pub off : slot.fd ≡ none

-- A change of interest of a channel that has a slot, when it succeeds.
pub change-refreshed :
    (tid : ℕ) (s s' : Poller) (i : Interest) (p idx : ℕ) (e : PollFd)
    → (s.heap p).index ≡ some idx
    → get_elem? s.pollfds idx ≡ some e
    → change tid s i p ≡ some s'
    → s' ≡ refreshed (modify s p (λ c. record c { events = interest i c.events })) p idx e
unfolding change
change-refreshed tid s s' i p idx e at slot h = ground arith

set_slot :
    (v : List PollFd) (idx : ℕ) {e : PollFd} (x : PollFd)
    → get_elem? v idx ≡ some e
    → get_elem? (set v idx x) idx ≡ some x
set_slot v idx x slot = get_elem?-set_self v idx x (get_elem?-lt v idx slot)

-- No later change of interest gives the slot its descriptor back.
change-IsDeaf :
    (tid : ℕ) (s s' : Poller) (i : Interest) (p : ℕ)
    → IsDeaf s p
    → change tid s i p ≡ some s'
    → IsDeaf s' p
unfolding refreshed
change-IsDeaf tid s s' i p d h =
    let t : Poller = modify s p (λ c. record c { events = interest i c.events }) in
    rw (change-refreshed tid s s' i p d.idx d.slot d.at d.slot_eq h) (record {
      idx = d.idx;
      slot = refreshed_slot (t.heap p) d.slot;
      at = ground (arith, d.at);
      slot_eq = set_slot s.pollfds d.idx (refreshed_slot (t.heap p) d.slot) d.slot_eq;
      off = ground (arith, d.off);
    })

-- Changes of interest in turn.
unfoldable pub changes : ℕ → Poller → List Interest → ℕ → Option Poller
changes tid s [] p = some s
changes tid s (i ∷ is) p = do s' ← change tid s i p; changes tid s' is p

later-IsDeaf :
    (tid : ℕ) (s s' : Poller) (is : List Interest) (p : ℕ)
    → IsDeaf s p
    → changes tid s is p ≡ some s'
    → IsDeaf s' p
unfolding changes
later-IsDeaf tid s s' [] p d h = let e : s ≡ s' = cc in subst (λ t. IsDeaf t p) e d
later-IsDeaf tid s s' (i ∷ is) p d h = elim (Option-cases (change tid s i p)) [
  | inl e ↦ absurd (failed e h)
  | inr (t, e) ↦ later-IsDeaf tid t s' is p (change-IsDeaf tid s t i p d e) (rw e at h)
]
  where
    failed : change tid s i p ≡ none → (change tid s i p >>= λ t. changes tid t is p) ≡ some s' → ⊥
    failed e h = ground arith

first-IsDeaf :
    (tid : ℕ) (s s' : Poller) (p idx : ℕ) (e : PollFd)
    → (s.heap p).index ≡ some idx
    → get_elem? s.pollfds idx ≡ some e
    → change tid s disable_all p ≡ some s'
    → IsDeaf s' p
unfolding refreshed interest
first-IsDeaf tid s s' p idx e at slot h =
    let t : Poller = modify s p (λ c. record c { events = 0 }) in
    rw (change-refreshed tid s s' disable_all p idx e at slot h) (record {
      idx = idx;
      slot = refreshed_slot (t.heap p) e;
      at = ground arith;
      slot_eq = set_slot s.pollfds idx (refreshed_slot (t.heap p) e) slot;
      off = ground arith;
    })

-- Once `disableAll` has been called on a channel in the map, poll(2) passes over its slot whatever
-- is enabled afterwards: no change of interest writes the descriptor back into the slot.
pub changes-disable_all-IsDeaf :
    (tid : ℕ) (s s₁ s₂ : Poller) (p : ℕ) (is : List Interest)
    → Wf s
    → s.channels (s.heap p).fd ≡ some p
    → change tid s disable_all p ≡ some s₁
    → changes tid s₁ is p ≡ some s₂
    → IsDeaf s₂ p
changes-disable_all-IsDeaf tid s s₁ s₂ p is w reg h₁ h₂ =
    let (idx, e, at, slot, _) = w.placed (s.heap p).fd p reg in
    later-IsDeaf tid s₁ s₂ is p (first-IsDeaf tid s s₁ p idx e at slot h₁) h₂

-- If channel `q` in the last slot has been switched off, the removal of another channel `p` of the
-- poller ends the process.
pub remove_beside_deaf :
    (tid : ℕ) (s s' : Poller) (p q idx : ℕ)
    → Wf s
    → s.channels (s.heap q).fd ≡ some q
    → (s.heap q).index ≡ some (length s.pollfds - 1)
    → (s.heap p).index ≡ some idx
    → idx ≢ length s.pollfds - 1
    → change tid s disable_all q ≡ some s'
    → remove_channel tid s' p ≡ none
unfolding refreshed interest
remove_beside_deaf tid s s' p q idx w reg at_q at_p inner h =
    let (i, e, at, slot, _) = w.placed (s.heap q).fd q reg in
    let same : i ≡ length s.pollfds - 1 = ground arith in
    let t : Poller = modify s q (λ c. record c { events = 0 }) in
    let v = set s.pollfds i (refreshed_slot (t.heap q) e) in
    let len : length v ≡ length s.pollfds = length-set s.pollfds i (refreshed_slot (t.heap q) e) in
    rw (change-refreshed tid s s' disable_all q i e at slot h) (
      remove_channel-crash tid (refreshed t q i e) p idx (refreshed_slot (t.heap q) e)
        (ground arith) (omega (arith, len))
        (ap (get_elem? v) (omega (arith, len, same))
          ∙ set_slot s.pollfds i (refreshed_slot (t.heap q) e) slot)
        (ground arith))
