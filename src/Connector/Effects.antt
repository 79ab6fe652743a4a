-- ===== src/Connector/Effects.antt =====
-- What each operation does to the connector's state, for its client.
use thread_and_net.Prelude.{
  ℕ, ◌≡◌, ◌≢◌, ◌⊎◌, inl, inr, refl, Bool, true, List, [], ◌∷◌, some, none, arith, Bool-cases,
  Option-cases, not, ◌&&◌,
}
use thread_and_net.Connector.{
  Connector, connected, connecting, disconnected, Errno, einprogress, Functor,
  reset_channel_functor, stop_in_loop_functor, retry, start_connecting, connect, start_in_loop,
  start, restart, stop, stop_in_loop, remove_and_reset_channel, reset_channel, handle_write,
  handle_error, run_functor, run_queued, init_retry_delay_ms, init, is_connecting,
}

-- An attempt starts from the disconnected state only.
pub start_in_loop-disconnected :
    (c c' : Connector) (fd : ℕ) (e : Errno)
    → start_in_loop c fd e ≡ some c'
    → (c.state ≡ disconnected) × (c'.handed ≡ c.handed)
unfolding start_in_loop connect retry start_connecting
start_in_loop-disconnected c c' fd e h = ground arith

pub start-disconnected :
    (c c' : Connector) (fd : ℕ) (e : Errno)
    → start c fd e ≡ some c'
    → (c.state ≡ disconnected) × (c'.handed ≡ c.handed)
unfolding start
start-disconnected c c' fd e h =
    start_in_loop-disconnected (record c { connect_wanted = true }) c' fd e h

pub start-connected-none :
    (c : Connector) (fd : ℕ) (e : Errno) → c.state ≡ connected → start c fd e ≡ none
unfolding start start_in_loop
start-connected-none c fd e h = ground arith

pub restart-handed :
    (c c' : Connector) (fd : ℕ) (e : Errno) → restart c fd e ≡ some c' → c'.handed ≡ c.handed
unfolding restart
restart-handed c c' fd e h =
    (start_in_loop-disconnected
      (record c {
        state = disconnected;
        retry_delay_ms = init_retry_delay_ms;
        connect_wanted = true;
      })
      c' fd e h).1

-- With the channel reset, `restart` begins an attempt, with the first delay.
pub restart-connecting :
    (c : Connector) (fd : ℕ)
    → c.channel ≡ none
    → (c' : Connector) × (restart c fd einprogress ≡ some c')
      × (c'.state ≡ connecting)
      × (c'.channel ≡ some fd)
      × (c'.retry_delay_ms ≡ init_retry_delay_ms)
unfolding restart start_in_loop connect start_connecting
restart-connecting c fd h = (
  record c {
    state = connecting;
    retry_delay_ms = init_retry_delay_ms;
    connect_wanted = true;
    created = fd ∷ c.created;
    channel = some fd;
  },
  ground arith,
  refl,
  refl,
  refl,
)

-- A connection is handed over at the end of an attempt only.
pub handle_write-handed :
    (c c' : Connector) (err self : Bool)
    → handle_write c err self ≡ some c'
    → (c.state ≢ connected)
      × ((c'.handed ≡ c.handed) ⊎ ((fd : ℕ) × (c'.handed ≡ fd ∷ c.handed) × (c'.state ≡ connected)))
unfolding handle_write remove_and_reset_channel retry
handle_write-handed c c' err self h = (
  ground arith,
  (elim (Option-cases c.channel) [
    | inl e ↦ inl (ground arith)
    | inr (fd, e) ↦
        (elim (Bool-cases (is_connecting c.state && (not err && (not self && c.connect_wanted)))) [
          | inl made ↦ inr (fd, ground arith, ground arith)
          | inr unmade ↦ inl (ground arith)
        ])
  ]),
)

pub handle_error-connected :
    (c c' : Connector)
    → handle_error c ≡ some c'
    → (c.state ≡ connected → c'.state ≡ connected) × (c'.handed ≡ c.handed)
unfolding handle_error remove_and_reset_channel retry
handle_error-connected c c' h = (ground arith, ground arith)

stop_in_loop-connected :
    (c c' : Connector)
    → stop_in_loop c ≡ some c'
    → (c.state ≡ connected → c'.state ≡ connected) × (c'.handed ≡ c.handed)
unfolding stop_in_loop remove_and_reset_channel retry
stop_in_loop-connected c c' h = (ground arith, ground arith)

pub run_queued-connected :
    (c c' : Connector)
    → run_queued c ≡ some c'
    → (c.state ≡ connected → c'.state ≡ connected) × (c'.handed ≡ c.handed)
unfolding run_queued run_functor reset_channel
run_queued-connected c c' h = from c.queued refl
  where
    from :
        (fs : List Functor)
        → c.queued ≡ fs
        → (c.state ≡ connected → c'.state ≡ connected) × (c'.handed ≡ c.handed)
    from [] e = (ground arith, ground arith)
    from (reset_channel_functor ∷ fs) e = (ground arith, ground arith)
    from (stop_in_loop_functor ∷ fs) e =
        stop_in_loop-connected (record c { queued = fs }) c' (ground arith)

pub stop-connected : (c : Connector) → ((stop c).state ≡ c.state) × ((stop c).handed ≡ c.handed)
unfolding stop
stop-connected c = (refl, refl)

pub init-handed : (init.state ≡ disconnected) × (init.handed ≡ [])
unfolding init
init-handed = (refl, refl)
