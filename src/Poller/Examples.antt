-- ===== src/Poller/Examples.antt =====
-- The poller's theorems on pollers with one and two channels.
use thread_and_net.Prelude.{
  ℕ, ◌≡◌, refl, [], ◌∷◌, some, none, arith, inl, inr, ◌==◌, if◌then◌else◌, update, ◌⊎◌, ◌+◌,
  get_elem?, Bool-cases, zero, suc, true, false,
}
use thread_and_net.Channel.{Channel, enable_reading, disable_all, interest}
use thread_and_net.Poller.{
  PollFd, Poller, update_channel, remove_channel, fill_active, change, refresh_channel, refreshed,
}
use thread_and_net.Poller.Inv.{Wf}
use thread_and_net.Poller.Update.{update_channel-Wf}
use thread_and_net.Poller.Remove.{remove_channel-Wf}
use thread_and_net.Poller.Fill.{fill_active-ready, ready, count_ready}
use thread_and_net.Poller.Deaf.{IsDeaf, changes, changes-disable_all-IsDeaf}

-- The channel at address `p` has descriptor `p + 10`, and slot `p`.
abbrev pub chan : ℕ → Channel
chan p = record {
  loop = 0;
  fd = p + 10;
  events = 3;
  revents = 0;
  index = some p;
  read_callback = true;
  write_callback = false;
  error_callback = false;
  close_callback = false;
  event_handling = false;
}

abbrev pub slot : ℕ → ℕ → PollFd
slot fd revents = record { fd = some fd; events = 3; revents = revents }

-- Two channels, at addresses 0 and 1; the second is ready.
abbrev pub two : Poller
two = record {
  loop = 0;
  thread_id = 1;
  pollfds = slot 10 0 ∷ slot 11 1 ∷ [];
  channels = λ f. if f == 10 then some 0 else (if f == 11 then some 1 else none);
  heap = chan;
}

two-mapped : (f p : ℕ) → two.channels f ≡ some p → p + 10 ≡ f
two-mapped f p h = ground arith

two-placed :
    (f p : ℕ)
    → two.channels f ≡ some p
    → (i : ℕ) × (e : PollFd) × ((two.heap p).index ≡ some i)
      × (get_elem? two.pollfds i ≡ some e)
      × ((e.fd ≡ some f) ⊎ (e.fd ≡ none))
two-placed f p h = elim (Bool-cases (f == 10)) [
  | inl e ↦ (0, slot 10 0, ground arith, refl, inl (ground arith))
  | inr n ↦ elim (Bool-cases (f == 11)) [
    | inl e ↦ (1, slot 11 1, ground arith, refl, inl (ground arith))
    | inr m ↦ absurd (ground arith)
  ]
]

two-distinct :
    (f g p q i : ℕ)
    → two.channels f ≡ some p
    → two.channels g ≡ some q
    → (two.heap p).index ≡ some i
    → (two.heap q).index ≡ some i
    → f ≡ g
two-distinct f g p q i hf hg hp hq = ground arith

two-filled :
    (i f : ℕ) (e : PollFd)
    → get_elem? two.pollfds i ≡ some e
    → e.fd ≡ some f
    → (p : ℕ) × (two.channels f ≡ some p) × ((two.heap p).index ≡ some i)
two-filled zero f e h k = (0, ground arith, refl)
two-filled (suc zero) f e h k = (1, ground arith, refl)
two-filled (suc (suc i)) f e h k = absurd (ground arith)

pub two-Wf : Wf two
two-Wf = record {
  mapped = two-mapped;
  placed = two-placed;
  distinct = two-distinct;
  filled = two-filled;
}

update_channel_example :
    (s' : Poller) × (update_channel 1 two 0 ≡ some s') × Wf s' × (s'.channels 10 ≡ some 0)
update_channel_example = update_channel-Wf 1 two 0 two-Wf refl refl (inr refl)

remove_channel_example :
    (s' : Poller) × (remove_channel 1 two 0 ≡ some s')
    × Wf s'
    × (s'.channels ≡ update two.channels 10 none)
remove_channel_example =
    remove_channel-Wf 1 two 0 two-Wf refl refl refl (inr (slot 11 1, 11, refl, refl))

fill_active_example :
    (s' : Poller) × (fill_active two two.pollfds (count_ready two.pollfds) []
      ≡ some (ready two two.pollfds, s'))
    × (s'.channels ≡ two.channels)
    × (s'.pollfds ≡ two.pollfds)
fill_active_example =
    fill_active-ready two two-Wf ((λ h. absurd (ground arith)), ((λ h. absurd (ground arith)), tt))

-- The second channel has been switched off.
abbrev off : Poller
off = record two {
  pollfds = slot 10 0 ∷ record { fd = none; events = 0; revents = 0 } ∷ [];
  heap = update chan 1 (record (chan 1) { events = 0 });
}

off-eq : change 1 two disable_all 1 ≡ some off
unfolding change update_channel refresh_channel refreshed interest
off-eq = refl

abbrev on_again : Poller
on_again = record two {
  pollfds = slot 10 0 ∷ record { fd = none; events = 3; revents = 0 } ∷ [];
  heap = update off.heap 1 (record (off.heap 1) { events = 3 });
}

on_again-eq : changes 1 off (enable_reading ∷ []) 1 ≡ some on_again
unfolding changes change update_channel refresh_channel refreshed interest
on_again-eq = refl

changes-disable_all-IsDeaf_example : IsDeaf on_again 1
changes-disable_all-IsDeaf_example =
    changes-disable_all-IsDeaf 1 two off on_again 1 (enable_reading ∷ []) two-Wf refl off-eq
      on_again-eq
