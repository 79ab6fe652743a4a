-- ===== src/Poller/Inv.antt =====
-- The bookkeeping that ties the slots of `pollfds_`, the map `channels_` and each channel's index.
use thread_and_net.Prelude.{ℕ, ◌≡◌, ◌⊎◌, some, none, get_elem?}
use thread_and_net.Poller.{Poller, PollFd}

pub record Wf (s : Poller) : Type 0 where
  -- A channel is in the map under its own descriptor.
  pub mapped : (f p : ℕ) → s.channels f ≡ some p → (s.heap p).fd ≡ f
  -- Its index leads to a slot with its descriptor, or with -1.
  pub placed :
      (f p : ℕ)
      → s.channels f ≡ some p
      → (i : ℕ) × (e : PollFd) × ((s.heap p).index ≡ some i)
        × (get_elem? s.pollfds i ≡ some e)
        × ((e.fd ≡ some f) ⊎ (e.fd ≡ none))
  -- No two channels share a slot.
  pub distinct :
      (f g p q i : ℕ)
      → s.channels f ≡ some p
      → s.channels g ≡ some q
      → (s.heap p).index ≡ some i
      → (s.heap q).index ≡ some i
      → f ≡ g
  -- A slot with a descriptor belongs to the channel of that descriptor.
  pub filled :
      (i f : ℕ) (e : PollFd)
      → get_elem? s.pollfds i ≡ some e
      → e.fd ≡ some f
      → (p : ℕ) × (s.channels f ≡ some p) × ((s.heap p).index ≡ some i)
