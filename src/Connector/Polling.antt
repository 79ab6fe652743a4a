-- ===== src/Connector/Polling.antt =====
-- What `connecting` and `removeAndResetChannel` of zdq_connector.cpp do in the poller: a connector and the
-- poller of its loop, which nobody else changes meanwhile.
use thread_and_net.Prelude.{
  ℕ, ◌≡◌, Bool, true, false, ◌&&◌, Option, some, [], ◌∷◌, if◌then◌else◌, ◌>>=◌,
}
use thread_and_net.Channel.{Channel, create, disable_all, enable_writeing}
use thread_and_net.Poller.{Poller, modify, change, remove}
use thread_and_net.Poller.Attempt.{Fresh}
use thread_and_net.Connector.{
  Connector, Errno, zero_errno, einprogress, eintr, eisconn, reset_channel_functor,
  stop_in_loop_functor, Op, starts, restarts, timer_fires, stops, runs_queued, errors, writes,
  is_connecting, init, apply,
}

-- `connecting`: `new` returns the address `p`, and the channel's two callbacks are set before it is enabled.
unfoldable pub start_polling : ℕ → Poller → ℕ → ℕ → Option Poller
unfolding create
start_polling tid s p fd =
    let c : Channel = record (create s.loop fd) { write_callback = true; error_callback = true } in
    change tid (modify s p (λ _. c)) enable_writeing p

-- `removeAndResetChannel`: `disableAll`, then `remove`
unfoldable pub stop_polling : ℕ → Poller → ℕ → Option Poller
stop_polling tid s p = do t ← change tid s disable_all p; remove tid t p

-- What an operation does in the poller
pub data Effect : Type 0 where
  nothing removes : Effect
  adds : ℕ → Effect

-- Does `connect` go on to `connecting`?
unfoldable pub is_attempt : Errno → Bool
is_attempt zero_errno = true
is_attempt einprogress = true
is_attempt eintr = true
is_attempt eisconn = true
is_attempt _ = false

-- `stopInLoop`, `handleWrite` and `handleError` take the channel out if the attempt is under way.
abbrev pub ending : Connector → Effect
ending c = if is_connecting c.state then removes else nothing

unfoldable pub effect : Connector → Op → Effect
unfolding is_attempt
effect c (starts fd errno) = if is_attempt errno then adds fd else nothing
effect c (restarts fd errno) = if is_attempt errno then adds fd else nothing
effect c (timer_fires fd errno) = if c.connect_wanted && is_attempt errno then adds fd else nothing
effect c stops = nothing
effect c runs_queued = elim c.queued [
  | [] ↦ nothing
  | f ∷ fs ↦ elim f [ reset_channel_functor ↦ nothing | stop_in_loop_functor ↦ ending c ]
]
effect c errors = ending c
effect c (writes err self) = ending c

-- The address is the one of the latest channel.
pub record Polled : Type 0 where
  pub connector : Connector
  pub poller : Poller
  pub address : ℕ

unfoldable pub touch : ℕ → Polled → Effect → ℕ → Option Polled
unfolding start_polling stop_polling
touch tid x nothing p = some x
touch tid x removes p = do s ← stop_polling tid x.poller x.address; some (record x { poller = s })
touch tid x (adds fd) p = do
  s ← start_polling tid x.poller p fd
  some (record x { poller = s; address = p })

-- One operation; a channel that it makes gets the address `p`.
unfoldable pub step : ℕ → Polled → Op → ℕ → Option Polled
unfolding effect touch
step tid x op p = do
  c ← apply x.connector op
  touch tid (record x { connector = c }) (effect x.connector op) p

-- The system gives an attempt a descriptor and an address that are not in use; no restart comes in the
-- middle of an attempt.
abbrev pub Fits : Polled → Op → ℕ → Type 0
Fits x (starts fd errno) p = Fresh x.poller fd p
Fits x (restarts fd errno) p = Fresh x.poller fd p × (is_connecting x.connector.state ≡ false)
Fits x (timer_fires fd errno) p = Fresh x.poller fd p
Fits x _ p = Unit {0}

-- From a new connector and a poller, in the loop's thread `tid`
pub data Reach (tid : ℕ) (s : Poller) : Polled → Type 0 where
  here : (p : ℕ) → Reach tid s (record { connector = init; poller = s; address = p })
  next :
      {x y : Polled} (op : Op) (p : ℕ)
      → Reach tid s x
      → Fits x op p
      → step tid x op p ≡ some y
      → Reach tid s y
