-- ===== src/TcpConnection/Closing.antt =====
-- What `handleClose` and `connectDestroyed` of zdq_tcp_connection.cpp do in the poller, when connections
-- close in one round of the loop: their events come first, in order, and then, by `doAppendFunctors`,
-- the calls of `connectDestroyed`. A connection is given by the address of its channel.
use thread_and_net.Prelude.{
  ℕ, ◌-◌, ◌≡◌, ◌≢◌, refl, sym, ap, ap₂, ◌∙◌, Bool, false, Option, none, some, List, [], ◌∷◌, arith,
  length, update, if◌then◌else◌, ◌>>=◌,
}
use thread_and_net.Channel.{disable_all}
use thread_and_net.Poller.{Poller, change, remove_channel}
use thread_and_net.Poller.Inv.{Wf}
use thread_and_net.Poller.Remove.{Movable, remove_channel-Wf}
use thread_and_net.Poller.Deaf.{remove_beside_deaf}
use thread_and_net.Poller.Disable.{Registered, change-Disabled, still-Registered, still-Movable}

-- `channel_->disableAll()` of `handleClose`
pub close_channel : ℕ → Poller → ℕ → Option Poller
close_channel tid s p = change tid s disable_all p

-- `connectDestroyed`, of a connection that is connected or not
pub destroy_channel : ℕ → Poller → Bool → ℕ → Option Poller
destroy_channel tid s is_connected p = do
  s' ← (if is_connected then change tid s disable_all p else some s)
  remove_channel tid s' p

pub close_all : ℕ → Poller → List ℕ → Option Poller
unfolding close_channel
close_all tid s [] = some s
close_all tid s (p ∷ ps) = do s' ← close_channel tid s p; close_all tid s' ps

pub destroy_all : ℕ → Poller → List ℕ → Option Poller
unfolding destroy_channel
destroy_all tid s [] = some s
destroy_all tid s (p ∷ ps) = do s' ← destroy_channel tid s false p; destroy_all tid s' ps

-- The connections of `ps` close in one round.
pub close_round : ℕ → Poller → List ℕ → Option Poller
unfolding close_all destroy_all
close_round tid s ps = do s' ← close_all tid s ps; destroy_all tid s' ps

-- One connection that closes alone is taken out of the poller, if its slot is the last, or the channel of
-- the last slot is not switched off: `connectDestroyed` succeeds, the bookkeeping holds, and the rest of
-- the map stays.
pub close_round-one :
    (tid : ℕ) (s : Poller) (p : ℕ)
    → Wf s
    → Registered s p
    → tid ≡ s.thread_id
    → Movable s p
    → (s' : Poller) × (close_round tid s (p ∷ []) ≡ some s')
      × Wf s'
      × (s'.channels ≡ update s.channels (s.heap p).fd none)
unfolding close_round close_all close_channel destroy_all destroy_channel
close_round-one tid s p w r ht m =
    let (t, e, d) = change-Disabled tid s p w r ht in
    let r' = still-Registered p d r in
    let (u, e', w', c) =
      remove_channel-Wf tid t p d.wf r'.loop (ht ∙ sym d.thread) r'.there
        (still-Movable p d (w.placed (s.heap p).fd p r.there).2 m) in
    (u, rw (e, e') refl, w', c ∙ ap₂ (λ map f. update map f none) d.channels (d.fd p))

-- Two connections that close in one round end the process, if the second is in the last slot: the
-- removal of the first reads the map at the -1 of the last slot.
pub close_round-none :
    (tid : ℕ) (s : Poller) (p q idx : ℕ)
    → Wf s
    → Registered s p
    → Registered s q
    → tid ≡ s.thread_id
    → (s.heap q).index ≡ some (length s.pollfds - 1)
    → (s.heap p).index ≡ some idx
    → idx ≢ length s.pollfds - 1
    → close_round tid s (p ∷ q ∷ []) ≡ none
unfolding close_round close_all close_channel destroy_all destroy_channel
close_round-none tid s p q idx w rp rq ht at_q at_p inner =
    let (t, e, d) = change-Disabled tid s p w rp ht in
    let r' = still-Registered q d rq in
    let (u, e', d') = change-Disabled tid t q d.wf r' (ht ∙ sym d.thread) in
    let dies =
      remove_beside_deaf tid t u p q idx d.wf r'.there (ground (arith, d.index q, d.slots))
        (d.index p ∙ at_p) (λ k. inner (k ∙ ap (λ n. n - 1) d.slots)) e' in
    rw (e, e', dies) refl
