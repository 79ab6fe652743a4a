-- ===== src/TcpConnection/Life.antt =====
-- The life of a connection, and what its user hears of it.
use thread_and_net.Prelude.{
  ℕ, ◌+◌, ◌≡◌, ◌≤◌, inl, inr, refl, List, [], ◌∷◌, ◌++◌, arith, Bool, true, false, some,
  Option-cases, Bool-cases, ap, subst, ◌∙◌, ltb, ◌&&◌,
}
use thread_and_net.Channel
use thread_and_net.Channel.{Callback, handle_event}
use thread_and_net.Buffer.{ReadResult, Readv, bytes_read, read_error, read_fd}
use thread_and_net.TcpConnection.{
  TcpConnection, StateE, connecting, connected, disconnecting, disconnected, Note,
  connection_callback, message_callback, close_callback, error_printed, Write, create_conn,
  keep_rest, send_in_loop_now, send, shutdown, shutdown_now, drained, handle_read, handle_write,
  handle_close, read_result, force_close, force_close_now, connect_established, connect_destroyed,
  event, run_callbacks, is_connected,
}
use thread_and_net.TcpConnection.Calls.{
  Op, establishes, events, sends, queued_send, shutdowns, queued_shutdown, force_closes,
  queued_force_close, destroys, apply, run,
}

-- How often the user's connection callback has been called
abbrev pub told : List Note → ℕ
told [] = 0
told (connection_callback ∷ ns) = 1 + told ns
told (_ ∷ ns) = told ns

told_last : (ns : List Note) (n : Note) → told (ns ++ n ∷ []) ≡ told ns + told (n ∷ [])
told_last [] n = omega arith
told_last (connection_callback ∷ ns) n = omega (arith, told_last ns n)
told_last (message_callback ∷ ns) n = told_last ns n
told_last (close_callback ∷ ns) n = told_last ns n
told_last (error_printed ∷ ns) n = told_last ns n

-- The order of the states
abbrev pub rank : StateE → ℕ
rank connecting = 0
rank connected = 1
rank disconnecting = 2
rank disconnected = 3

-- The state moves forward only, and the connection callback is not called.
record Quiet (c c' : TcpConnection) : Type 0 where
  onward : rank c.state ≤ rank c'.state
  quiet : told c'.log ≡ told c.log

same_life : (c c' : TcpConnection) → c'.state ≡ c.state → c'.log ≡ c.log → Quiet c c'
same_life c c' s l = record { onward = ground (arith, s); quiet = ap told l }

Quiet-trans : (c d e : TcpConnection) → Quiet c d → Quiet d e → Quiet c e
Quiet-trans c d e p q = record {
  onward = omega (arith, p.onward, q.onward);
  quiet = q.quiet ∙ p.quiet;
}

keep_rest-Quiet :
    (c c' : TcpConnection) (message : List ℕ) (n : ℕ) → keep_rest c message n ≡ some c' → Quiet c c'
unfolding keep_rest
keep_rest-Quiet c c' message n h = same_life c c' (ground arith) (ground arith)

send_in_loop_now-Quiet :
    (c c' : TcpConnection) (message : List ℕ) (w : Write)
    → send_in_loop_now c message w ≡ some c'
    → Quiet c c'
unfolding send_in_loop_now keep_rest
send_in_loop_now-Quiet c c' message w h = same_life c c' (ground arith) (ground arith)

handle_close-Quiet : (c : TcpConnection) → Quiet c (handle_close c)
unfolding handle_close
handle_close-Quiet c = record {
  onward = ground arith;
  quiet = ground (arith, told_last c.log close_callback);
}

read_result-Quiet : (c : TcpConnection) (r : ReadResult) → Quiet c (read_result c r)
unfolding read_result
read_result-Quiet c (bytes_read n) = elim (Bool-cases (ltb 0 n)) [
  | inl e ↦ record {
    onward = ground arith;
    quiet = ground (arith, told_last c.log message_callback);
  }
  | inr e ↦ rw e (handle_close-Quiet c)
]
read_result-Quiet c (read_error e) = record {
  onward = ground arith;
  quiet = ground (arith, told_last c.log error_printed);
}

handle_read-Quiet :
    (c c' : TcpConnection) (input : Readv) → handle_read c input ≡ some c' → Quiet c c'
unfolding handle_read
handle_read-Quiet c c' input h = elim (Option-cases (read_fd c.input_buf input)) [
  | inl e ↦ absurd (ground arith)
  | inr (r, e) ↦
      let q = read_result-Quiet (record c { input_buf = r.1 }) r.0 in
      let same : read_result (record c { input_buf = r.1 }) r.0 ≡ c' = ground arith in
      subst (Quiet c) same (record { onward = q.onward; quiet = q.quiet })
]

handle_write-Quiet : (c c' : TcpConnection) (w : Write) → handle_write c w ≡ some c' → Quiet c c'
unfolding handle_write drained shutdown_now
handle_write-Quiet c c' w h = same_life c c' (ground arith) (ground arith)

run_callbacks-Quiet :
    (c c' : TcpConnection) (ks : List Callback) (input : Readv) (w : Write)
    → run_callbacks c ks input w ≡ some c'
    → Quiet c c'
unfolding run_callbacks
run_callbacks-Quiet c c' [] input w h = same_life c c' (ground arith) (ground arith)
run_callbacks-Quiet c c' (Channel.read ∷ ks) input w h = elim (Option-cases (handle_read c input)) [
  | inl e ↦ absurd (ground arith)
  | inr (d, e) ↦
      Quiet-trans c d c' (handle_read-Quiet c d input e)
        (run_callbacks-Quiet d c' ks input w (ground arith))
]
run_callbacks-Quiet c c' (Channel.write ∷ ks) input w h = elim (Option-cases (handle_write c w)) [
  | inl e ↦ absurd (ground arith)
  | inr (d, e) ↦
      Quiet-trans c d c' (handle_write-Quiet c d w e)
        (run_callbacks-Quiet d c' ks input w (ground arith))
]
run_callbacks-Quiet c c' (Channel.close ∷ ks) input w h = run_callbacks-Quiet c c' ks input w h
run_callbacks-Quiet c c' (Channel.error ∷ ks) input w h = run_callbacks-Quiet c c' ks input w h

-- The calls but `connectEstablished` and `connectDestroyed`
abbrev pub is_plain : Op → Bool
is_plain establishes = false
is_plain destroys = false
is_plain _ = true

apply-Quiet : (c c' : TcpConnection) (o : Op) → is_plain o ≡ true → apply c o ≡ some c' → Quiet c c'
unfolding apply send shutdown shutdown_now force_close force_close_now handle_close event
apply-Quiet c c' (events revents input w) p h =
    run_callbacks-Quiet c c' (handle_event (record (c.channel) { revents = revents })) input w h
apply-Quiet c c' (sends in_loop message w) p h =
    elim (Bool-cases (is_connected c.state && in_loop)) [
      | inl e ↦ send_in_loop_now-Quiet c c' message w (ground arith)
      | inr e ↦ same_life c c' (ground arith) (ground arith)
    ]
apply-Quiet c c' (queued_send message w) p h = send_in_loop_now-Quiet c c' message w h
apply-Quiet c c' (shutdowns in_loop) p h = record { onward = ground arith; quiet = ground arith }
apply-Quiet c c' establishes p h = absurd (ground arith)
apply-Quiet c c' queued_shutdown p h = same_life c c' (ground arith) (ground arith)
apply-Quiet c c' force_closes p h = record { onward = ground arith; quiet = ground arith }
apply-Quiet c c' queued_force_close p h = record {
  onward = ground arith;
  quiet = ground (arith, told_last c.log close_callback);
}
apply-Quiet c c' destroys p h = absurd (ground arith)

-- What the user has been told, as long as the connection is not disconnected
record Told (c : TcpConnection) : Type 0 where
  before : c.state ≡ connecting → told c.log ≡ 0
  once : rank c.state ≤ 2 → told c.log ≤ 1

Quiet-Told : (c c' : TcpConnection) → Quiet c c' → Told c → Told c'
Quiet-Told c c' q t = record {
  before = λ e.
      q.quiet
      ∙ t.before (connecting_before c.state (subst (λ s. rank c.state ≤ rank s) e q.onward));
  once = λ le. omega (arith, q.quiet, q.onward, t.once (omega (arith, q.onward)));
}
  where
    connecting_before : (s : StateE) → rank s ≤ 0 → s ≡ connecting
    connecting_before s h = ground arith

apply-Told : (c c' : TcpConnection) (o : Op) → Told c → apply c o ≡ some c' → Told c'
unfolding apply connect_established connect_destroyed
apply-Told c c' establishes t h = record {
  before = ground arith;
  once = ground (arith, t.before, told_last c.log connection_callback);
}
apply-Told c c' destroys t h = record {
  before = ground (arith, t.before);
  once = ground (arith, t.once);
}
apply-Told c c' o t h = Quiet-Told c c' (apply-Quiet c c' o refl h) t

run-Told : (c c' : TcpConnection) (os : List Op) → Told c → run c os ≡ some c' → Told c'
unfolding run
run-Told c c' [] t h = ground arith
run-Told c c' (o ∷ os) t h = elim (Option-cases (apply c o)) [
  | inl e ↦ absurd (ground arith)
  | inr (d, e) ↦ run-Told d c' os (apply-Told c d o t e) (rw e at h)
]

-- Once it is disconnected, a connection stays so, and nothing is told.
apply_ended :
    (c c' : TcpConnection) (o : Op)
    → c.state ≡ disconnected
    → apply c o ≡ some c'
    → (c'.state ≡ disconnected) × (told c'.log ≡ told c.log)
unfolding apply connect_established connect_destroyed
apply_ended c c' establishes e h = absurd (ground arith)
apply_ended c c' destroys e h = (ground arith, ground arith)
apply_ended c c' o e h =
    let q = apply-Quiet c c' o refl h in
    (last c'.state (subst (λ s. rank s ≤ rank c'.state) e q.onward), q.quiet)
  where
    last : (s : StateE) → 3 ≤ rank s → s ≡ disconnected
    last s h = ground arith

run_ended :
    (c c' : TcpConnection) (os : List Op)
    → c.state ≡ disconnected
    → run c os ≡ some c'
    → (c'.state ≡ disconnected) × (told c'.log ≡ told c.log)
unfolding run
run_ended c c' [] e h = ground arith
run_ended c c' (o ∷ os) e h = elim (Option-cases (apply c o)) [
  | inl x ↦ absurd (ground arith)
  | inr (d, x) ↦
      let (s, t) = apply_ended c d o e x in
      let (s', t') = run_ended d c' os s (rw x at h) in (s', t' ∙ t)
]

-- The user of a connection hears once of it, and never of its end: whatever a new connection has been
-- through, if a call other than `connectDestroyed` disconnects it, such as a read that finds that the
-- peer has closed, then the connection callback has been called at most once, whatever calls follow,
-- `connectDestroyed` among them.
pub closed-told_once :
    (loop sockfd : ℕ) (past later : List Op) (o : Op) (c d e : TcpConnection)
    → run (create_conn loop sockfd) past ≡ some c
    → rank c.state ≤ 2
    → is_plain o ≡ true
    → apply c o ≡ some d
    → d.state ≡ disconnected
    → run d later ≡ some e
    → told e.log ≤ 1
unfolding create_conn
closed-told_once loop sockfd past later o c d e h alive plain closes ended h' =
    let t =
      run-Told (create_conn loop sockfd) c past
        (record { before = λ _. refl; once = λ _. omega arith }) h in
    omega (
      arith,
      t.once alive,
      (apply-Quiet c d o plain closes).quiet,
      (run_ended d e later ended h').1,
    )
