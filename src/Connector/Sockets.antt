-- ===== src/Connector/Sockets.antt =====
-- Where a connector's descriptors go.
use thread_and_net.Prelude.{
  ap, Bool-cases, subst, ℕ, ◌+◌, ◌≡◌, ◌≤◌, refl, List, [], ◌∷◌, ◌++◌, arith, Bool, true, false,
  Option, some, is_none, ◌==◌, if◌then◌else◌, inl, inr,
}
use thread_and_net.Connector.{
  Connector, disconnected, init_retry_delay_ms, States, connecting, Functor, reset_channel_functor,
  stop_in_loop_functor, Op, starts, restarts, timer_fires, stops, runs_queued, errors, writes,
  Errno, init, is_connecting, retry, start_connecting, connect, start_in_loop, start, restart, stop,
  remove_and_reset_channel, reset_channel, stop_in_loop, handle_write, handle_error, run_functor,
  run_queued, apply,
}

-- How often a descriptor stands in a list
abbrev pub times : ℕ → List ℕ → ℕ
times fd [] = 0
times fd (x ∷ xs) = (if x == fd then 1 else 0) + times fd xs

-- The descriptor of an attempt that is under way.
abbrev pub held : States → Option ℕ → List ℕ
held connecting (some fd) = fd ∷ []
held _ _ = []

pub resets : List Functor → ℕ
resets [] = 0
resets (reset_channel_functor ∷ fs) = 1 + resets fs
resets (stop_in_loop_functor ∷ fs) = resets fs

resets_last : (fs : List Functor) → resets (fs ++ reset_channel_functor ∷ []) ≡ resets fs + 1
unfolding resets
resets_last [] = refl
resets_last (reset_channel_functor ∷ fs) = omega (arith, resets_last fs)
resets_last (stop_in_loop_functor ∷ fs) = resets_last fs

resets_stop : (fs : List Functor) → resets (fs ++ stop_in_loop_functor ∷ []) ≡ resets fs
unfolding resets
resets_stop [] = refl
resets_stop (reset_channel_functor ∷ fs) = omega (arith, resets_stop fs)
resets_stop (stop_in_loop_functor ∷ fs) = resets_stop fs

-- Every descriptor, here `fd`, is accounted for; the channel of an attempt is not about to be reset.
record Inv (fd : ℕ) (c : Connector) : Type 0 where
  balance :
      times fd c.created ≡ times fd c.closed + times fd c.handed + times fd (held c.state c.channel)
  kept : is_connecting c.state ≡ true → resets c.queued ≡ 0
  there : is_connecting c.state ≡ true → is_none c.channel ≡ false
  clear : is_none c.channel ≡ true → resets c.queued ≡ 0
  once : resets c.queued ≤ 1

retry-Inv :
    (a fd : ℕ) (c : Connector)
    → times a c.created ≡ times a c.closed + times a c.handed + times a (fd ∷ [])
    → (is_none c.channel ≡ true → resets c.queued ≡ 0)
    → resets c.queued ≤ 1
    → Inv a (retry c fd)
unfolding retry
retry-Inv a fd c b n o = ground arith

start_connecting-Inv :
    (a fd : ℕ) (c c' : Connector)
    → times a c.created ≡ times a c.closed + times a c.handed + times a (fd ∷ [])
    → (is_none c.channel ≡ true → resets c.queued ≡ 0)
    → start_connecting c fd ≡ some c'
    → Inv a c'
unfolding start_connecting
start_connecting-Inv a fd c c' b n h = ground arith

-- `retry` at the end of `connect`, and at the end of an attempt.
opened :
    (a fd : ℕ) (c : Connector)
    → Inv a c
    → is_connecting c.state ≡ false
    → times a (fd ∷ c.created) ≡ times a c.closed + times a c.handed + times a (fd ∷ [])
opened a fd c i off = ground arith

connect-Inv :
    (a fd : ℕ) (c c' : Connector) (e : Errno)
    → Inv a c
    → is_connecting c.state ≡ false
    → connect c fd e ≡ some c'
    → Inv a c'
unfolding connect retry start_connecting
connect-Inv a fd c c' e i off h = record {
  balance = ground arith;
  kept = ground arith;
  there = ground arith;
  clear = ground arith;
  once = ground arith;
}

start_in_loop-Inv :
    (a fd : ℕ) (c c' : Connector) (e : Errno) → Inv a c → start_in_loop c fd e ≡ some c' → Inv a c'
unfolding start_in_loop
start_in_loop-Inv a fd c c' e i h = elim (Bool-cases c.connect_wanted) [
  | inl on ↦ connect-Inv a fd c c' e i (ground arith) (ground arith)
  | inr no_wish ↦ let same : c ≡ c' = ground arith in subst (Inv a) same i
]

handle_write-Inv :
    (a : ℕ) (c c' : Connector) (err self : Bool)
    → Inv a c
    → handle_write c err self ≡ some c'
    → Inv a c'
unfolding handle_write remove_and_reset_channel retry
handle_write-Inv a c c' err self i h = record {
  balance = ground arith;
  kept = ground arith;
  there = ground arith;
  clear = ground (arith, resets_last c.queued);
  once = ground (arith, resets_last c.queued);
}

handle_error-Inv : (a : ℕ) (c c' : Connector) → Inv a c → handle_error c ≡ some c' → Inv a c'
unfolding handle_error remove_and_reset_channel retry
handle_error-Inv a c c' i h = record {
  balance = ground arith;
  kept = ground arith;
  there = ground arith;
  clear = ground (arith, resets_last c.queued);
  once = ground (arith, resets_last c.queued);
}

stop_in_loop-Inv : (a : ℕ) (c c' : Connector) → Inv a c → stop_in_loop c ≡ some c' → Inv a c'
unfolding stop_in_loop remove_and_reset_channel retry
stop_in_loop-Inv a c c' i h = record {
  balance = ground arith;
  kept = ground arith;
  there = ground arith;
  clear = ground (arith, resets_last c.queued);
  once = ground (arith, resets_last c.queued);
}

reset_channel-Inv :
    (a : ℕ) (c : Connector) (fs : List Functor)
    → c.queued ≡ reset_channel_functor ∷ fs
    → Inv a c
    → Inv a (reset_channel (record c { queued = fs }))
unfolding reset_channel resets
reset_channel-Inv a c fs e i = record {
  balance = ground (arith, ap resets e);
  kept = ground (arith, ap resets e);
  there = ground (arith, ap resets e);
  clear = ground (arith, ap resets e);
  once = ground (arith, ap resets e);
}

pop_stop-Inv :
    (a : ℕ) (c : Connector) (fs : List Functor)
    → c.queued ≡ stop_in_loop_functor ∷ fs
    → Inv a c
    → Inv a (record c { queued = fs })
unfolding resets
pop_stop-Inv a c fs e i = ground (arith, ap resets e)

run_queued-Inv : (a : ℕ) (c c' : Connector) → Inv a c → run_queued c ≡ some c' → Inv a c'
unfolding run_queued run_functor
run_queued-Inv a c c' i h = from c.queued refl
  where
    from : (fs : List Functor) → c.queued ≡ fs → Inv a c'
    from [] e = let same : c ≡ c' = ground arith in subst (Inv a) same i
    from (reset_channel_functor ∷ fs) e =
        let same : reset_channel (record c { queued = fs }) ≡ c' = ground arith in
        subst (Inv a) same (reset_channel-Inv a c fs e i)
    from (stop_in_loop_functor ∷ fs) e =
        stop_in_loop-Inv a (record c { queued = fs }) c' (pop_stop-Inv a c fs e i) (ground arith)

stop-Inv : (a : ℕ) (c : Connector) → Inv a c → Inv a (stop c)
unfolding stop
stop-Inv a c i = ground (arith, resets_stop c.queued)

-- `restart` is not called in the middle of an attempt.
abbrev pub IsCalm : Connector → Op → Type 0
IsCalm c (restarts fd e) = is_connecting c.state ≡ false
IsCalm c _ = Unit {0}

-- The states that a connector reaches
pub data Reach (c : Connector) : Connector → Type 0 where
  here : Reach c c
  next : {d e : Connector} (o : Op) → Reach c d → IsCalm d o → apply d o ≡ some e → Reach c e

apply-Inv : (a : ℕ) (c d : Connector) (o : Op) → Inv a c → IsCalm c o → apply c o ≡ some d → Inv a d
unfolding apply start restart
apply-Inv a c d (starts fd e) i k h =
    start_in_loop-Inv a fd (record c { connect_wanted = true }) d e (ground arith) h
apply-Inv a c d (restarts fd e) i k h =
    start_in_loop-Inv a fd
      (record c {
        state = disconnected;
        retry_delay_ms = init_retry_delay_ms;
        connect_wanted = true;
      })
      d e (ground arith) h
apply-Inv a c d (timer_fires fd e) i k h = start_in_loop-Inv a fd c d e i h
apply-Inv a c d stops i k h = let same : stop c ≡ d = cc in subst (Inv a) same (stop-Inv a c i)
apply-Inv a c d runs_queued i k h = run_queued-Inv a c d i h
apply-Inv a c d errors i k h = handle_error-Inv a c d i h
apply-Inv a c d (writes err self) i k h = handle_write-Inv a c d err self i h

Reach-Inv : (a : ℕ) {c d : Connector} → Inv a c → Reach c d → Inv a d
Reach-Inv a i here = i
Reach-Inv a i (next o r k h) = apply-Inv a _ _ o (Reach-Inv a i r) k h

init-Inv : (a : ℕ) → Inv a init
unfolding init resets
init-Inv a = ground arith

-- No descriptor is leaked, and none is closed or handed over twice: whatever a new connector has
-- been through, with no `restart` in the middle of an attempt, each descriptor has been closed or
-- handed over as often as it has been created, but for the one of the attempt under way.
pub Reach-balance :
    (fd : ℕ) {c : Connector}
    → Reach init c
    → times fd c.created ≡ times fd c.closed + times fd c.handed + times fd (held c.state c.channel)
Reach-balance fd r = (Reach-Inv fd (init-Inv fd) r).balance
