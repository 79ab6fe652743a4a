-- ===== src/Connector/Moves.antt =====
-- Which attempts begin and end with an operation, as its part in the poller has it.
use thread_and_net.Prelude.{
  ℕ, ◌≡◌, ◌≢◌, inl, inr, refl, sym, subst, ◌∙◌, Bool, true, false, ◌&&◌, some, List, [], ◌∷◌, arith,
  if◌then◌else◌, Bool-cases,
}
use thread_and_net.Poller.{Poller}
use thread_and_net.Poller.Attempt.{Fresh}
use thread_and_net.Connector.{
  Connector, disconnected, init_retry_delay_ms, Errno, Functor, reset_channel_functor,
  stop_in_loop_functor, Op, starts, restarts, timer_fires, stops, runs_queued, errors, writes,
  is_connecting, apply, start, restart, start_in_loop, connect, start_connecting, retry, stop,
  run_queued, run_functor, stop_in_loop, reset_channel, handle_error, handle_write,
  remove_and_reset_channel,
}
use thread_and_net.Connector.Polling.{
  Effect, nothing, removes, adds, is_attempt, ending, effect, Polled, Fits,
}

-- Before and after each kind of effect, is an attempt under way?
abbrev pub Moves : Effect → Bool → Bool → Type 0
Moves nothing b b' = b' ≡ b
Moves removes b b' = (b ≡ true) × (b' ≡ false)
Moves (adds fd) b b' = (b ≡ false) × (b' ≡ true)

connect-is_connecting :
    (c c' : Connector) (fd : ℕ) (errno : Errno)
    → is_connecting c.state ≡ false
    → connect c fd errno ≡ some c'
    → is_connecting c'.state ≡ is_attempt errno
unfolding connect start_connecting retry is_attempt
connect-is_connecting c c' fd errno n h = ground arith

start_in_loop-Moves :
    (c c' : Connector) (fd : ℕ) (errno : Errno)
    → start_in_loop c fd errno ≡ some c'
    → Moves
        (if c.connect_wanted && is_attempt errno then adds fd else nothing)
        (is_connecting c.state)
        (is_connecting c'.state)
unfolding start_in_loop
start_in_loop-Moves c c' fd errno h =
    let idle : is_connecting c.state ≡ false = ground arith in
    elim (Bool-cases c.connect_wanted) [
      | inl wanted ↦
          let k : connect c fd errno ≡ some c' = ground arith in
          let m = connect-is_connecting c c' fd errno idle k in
          elim (Bool-cases (is_attempt errno)) [
            | inl e ↦ rw (wanted, e) (idle, m ∙ e)
            | inr n ↦ rw (wanted, n) (m ∙ n ∙ sym idle)
          ]
      | inr unwanted ↦ rw unwanted (ground arith)
    ]

ending-Moves :
    (c c' : Connector)
    → (is_connecting c.state ≡ true → is_connecting c'.state ≡ false)
    → (is_connecting c.state ≡ false → is_connecting c'.state ≡ false)
    → Moves (ending c) (is_connecting c.state) (is_connecting c'.state)
ending-Moves c c' on off = elim (Bool-cases (is_connecting c.state)) [
  | inl e ↦ rw e (refl, on e)
  | inr n ↦ rw n (off n)
]

stop_in_loop-Moves :
    (c c' : Connector)
    → stop_in_loop c ≡ some c'
    → Moves (ending c) (is_connecting c.state) (is_connecting c'.state)
unfolding stop_in_loop remove_and_reset_channel retry
stop_in_loop-Moves c c' h = ending-Moves c c' (λ e. ground arith) (λ n. ground arith)

queued-Moves :
    (c c' : Connector) (fs : List Functor)
    → c.queued ≡ fs
    → run_queued c ≡ some c'
    → Moves (effect c runs_queued) (is_connecting c.state) (is_connecting c'.state)
unfolding run_queued run_functor reset_channel effect
queued-Moves c c' [] e h = rw e (ground arith)
queued-Moves c c' (reset_channel_functor ∷ fs) e h = rw e (ground arith)
queued-Moves c c' (stop_in_loop_functor ∷ fs) e h =
    rw e (stop_in_loop-Moves (record c { queued = fs }) c' (rw e at h))

-- What an operation does in the poller fits the states before and after it.
pub apply-Moves :
    (x : Polled) (op : Op) (p : ℕ) {c' : Connector}
    → Fits x op p
    → apply x.connector op ≡ some c'
    → Moves (effect x.connector op) (is_connecting x.connector.state) (is_connecting c'.state)
unfolding apply effect start restart stop handle_error handle_write remove_and_reset_channel retry
apply-Moves x (starts fd errno) p {c' = c'} f h =
    start_in_loop-Moves (record (x.connector) { connect_wanted = true }) c' fd errno h
apply-Moves x (restarts fd errno) p {c' = c'} f h = rw f.1 (
    start_in_loop-Moves
      (record (x.connector) {
        state = disconnected;
        retry_delay_ms = init_retry_delay_ms;
        connect_wanted = true;
      })
      c' fd errno h)
apply-Moves x (timer_fires fd errno) p {c' = c'} f h = start_in_loop-Moves x.connector c' fd errno h
apply-Moves x stops p f h = ground arith
apply-Moves x runs_queued p {c' = c'} f h = queued-Moves x.connector c' x.connector.queued refl h
apply-Moves x errors p {c' = c'} f h =
    ending-Moves x.connector c' (λ e. ground arith) (λ n. ground arith)
apply-Moves x (writes err self) p {c' = c'} f h =
    ending-Moves x.connector c' (λ e. ground arith) (λ n. ground arith)

attempt-Fresh :
    {s : Poller} {p : ℕ} (b : Bool) (g fd : ℕ)
    → Fresh s g p
    → (if b then adds g else nothing) ≡ adds fd
    → Fresh s fd p
attempt-Fresh {s} {p} b g fd f e =
    let same : g ≡ fd = ground arith in subst (λ n. Fresh s n p) same f

ending-adds : (c : Connector) (fd : ℕ) → ending c ≢ adds fd
ending-adds c fd e = ground arith

pub effect-Fresh :
    (x : Polled) (op : Op) (p fd : ℕ)
    → Fits x op p
    → effect x.connector op ≡ adds fd
    → Fresh x.poller fd p
unfolding effect
effect-Fresh x (starts g errno) p fd f e = attempt-Fresh (is_attempt errno) g fd f e
effect-Fresh x (restarts g errno) p fd f e = attempt-Fresh (is_attempt errno) g fd f.0 e
effect-Fresh x (timer_fires g errno) p fd f e =
    attempt-Fresh (x.connector.connect_wanted && is_attempt errno) g fd f e
effect-Fresh x stops p fd f e = absurd (ground arith)
effect-Fresh x runs_queued p fd f e = absurd (ground arith)
effect-Fresh x errors p fd f e = absurd (ending-adds x.connector fd e)
effect-Fresh x (writes err self) p fd f e = absurd (ending-adds x.connector fd e)
