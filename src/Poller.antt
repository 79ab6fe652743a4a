-- ===== src/Poller.antt =====
-- ThreadAndNetWorkCoding/zdq_poller.h and zdq_poller.cpp, with the checks that
-- `EventLoop::updateChannel` and `EventLoop::removeChannel` (zdq_event_loop.cpp) make first.
-- The channels live in a heap, from pointers to records. In `struct pollfd` an `fd` of `none` is -1.
-- `none` as a result is a failed assert, or a use of a null pointer or of a slot out of range.
pub mod Inv
pub mod Update
pub mod Remove
pub mod Fill
pub mod Deaf
pub mod Disable
pub mod Attempt
pub mod Examples
use thread_and_net.Prelude.{
  ℕ, ◌-◌, Bool, true, false, ◌&&◌, Option, none, some, List, [], ◌∷◌, ◌++◌, ltb, ◌==◌,
  if◌then◌else◌, ◌>>=◌, ◌>>◌, assert, length, get_elem?, set, take, update, eq_opt, is_none,
}
use thread_and_net.Channel.{Channel, Interest, interest, is_none_event}

pub record PollFd : Type 0 where
  pub fd : Option ℕ
  pub events : ℕ
  pub revents : ℕ

pub record Poller : Type 0 where
  pub loop : ℕ
  pub thread_id : ℕ
  pub pollfds : List PollFd
  pub channels : ℕ → Option ℕ
  pub heap : ℕ → Channel

-- A store into the channel at pointer `p`.
abbrev pub modify : Poller → ℕ → (Channel → Channel) → Poller
modify s p f = record s { heap = update s.heap p (f (s.heap p)) }

-- The first branch of `Poller::updateChannel`, for a channel that is not there yet: a new slot at
-- the end, whose index the channel keeps.
pub added : Poller → ℕ → Poller
added s p = record s {
  pollfds =
      s.pollfds
      ++ (record { fd = some (s.heap p).fd; events = (s.heap p).events; revents = 0 }) ∷ [];
  channels = update s.channels (s.heap p).fd (some p);
  heap = update s.heap p (record (s.heap p) { index = some (length s.pollfds) });
}

pub add_channel : Poller → ℕ → Option Poller
unfolding added
add_channel s p = do assert (is_none (s.channels (s.heap p).fd)); some (added s p)

-- The second branch, at index `idx`: the slot takes the new events, and -1 for its descriptor if
-- there are none.
abbrev pub refreshed_slot : Channel → PollFd → PollFd
refreshed_slot c pfd = record {
  fd = if is_none_event c then none else pfd.fd;
  events = c.events;
  revents = 0;
}

unfoldable pub refreshed : Poller → ℕ → ℕ → PollFd → Poller
refreshed s p idx pfd = record s { pollfds = set s.pollfds idx (refreshed_slot (s.heap p) pfd) }

pub refresh_channel : Poller → ℕ → ℕ → Option Poller
unfolding refreshed
refresh_channel s p idx = do
  assert (eq_opt (s.channels (s.heap p).fd) (some p))
  pfd ← get_elem? s.pollfds idx
  some (refreshed s p idx pfd)

-- `EventLoop::updateChannel`, from thread `tid`.
unfoldable pub update_channel : ℕ → Poller → ℕ → Option Poller
unfolding add_channel refresh_channel
update_channel tid s p = do
  assert ((s.heap p).loop == s.loop)
  assert (tid == s.thread_id)
  elim (s.heap p).index [ none ↦ add_channel s p | some idx ↦ refresh_channel s p idx ]

-- `channels_[fd]->setIndex(idx)`: for an `fd` of -1, and for one that is not in the map, the map's
-- new entry is a null pointer.
pub set_index : Poller → Option ℕ → ℕ → Option Poller
set_index s fd idx = do
  f ← fd
  q ← s.channels f
  some (modify s q (λ c. record c { index = some idx }))

-- `std::swap` of slot `idx` with the last one, then `pop_back`
abbrev pub swap_remove : List PollFd → ℕ → PollFd → List PollFd
swap_remove v idx last = take (length v - 1) (set v idx last)

-- `Poller::removeChannel`, at the channel's index
pub remove_at : Poller → ℕ → ℕ → Option Poller
unfolding set_index
remove_at s p idx =
    let s' : Poller = record s { channels = update s.channels (s.heap p).fd none } in
    if idx == length s.pollfds - 1
    then some (record s' { pollfds = take (length s.pollfds - 1) s.pollfds })
    else (do
      assert (ltb idx (length s.pollfds))
      last ← get_elem? s.pollfds (length s.pollfds - 1)
      s'' ← set_index s' last.fd idx
      some (record s'' { pollfds = swap_remove s.pollfds idx last }))

-- `EventLoop::removeChannel`, from thread `tid`.
unfoldable pub remove_channel : ℕ → Poller → ℕ → Option Poller
unfolding remove_at
remove_channel tid s p = do
  assert ((s.heap p).loop == s.loop)
  assert (tid == s.thread_id)
  idx ← (s.heap p).index
  assert (ltb 0 (length s.pollfds))
  remove_at s p idx

-- `enableReading` and its kin: the mask changes, and `Channel::update` follows.
unfoldable pub change : ℕ → Poller → Interest → ℕ → Option Poller
unfolding update_channel
change tid s i p =
    update_channel tid (modify s p (λ c. record c { events = interest i c.events })) p

-- `Channel::remove`
unfoldable pub remove : ℕ → Poller → ℕ → Option Poller
unfolding remove_channel
remove tid s p = do assert (is_none_event (s.heap p)); remove_channel tid s p

-- `fillActiveChannels`: the slots in order, until `numEvents` of them have been found ready.
pub fill_active : Poller → List PollFd → ℕ → List ℕ → Option (List ℕ × Poller)
fill_active s [] n active = some (active, s)
fill_active s (pfd ∷ pfds) n active =
    let skip = fill_active s pfds n active in
    if n == 0
    then some (active, s)
    else (if ltb 0 pfd.revents
        then (do
          f ← pfd.fd
          p ← s.channels f
          assert ((s.heap p).fd == f)
          fill_active (modify s p (λ c. record c { revents = pfd.revents })) pfds (n - 1)
              (active ++ p ∷ []))
        else skip)
