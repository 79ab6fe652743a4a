-- ===== src/TcpConnection/Stuck.antt =====
-- What a message that `::write` did not take in one go comes to.
use thread_and_net.Prelude.{
  subst, length-append, ℕ, ◌+◌, ◌-◌, ◌^◌, ◌≡◌, ◌≤◌, ◌<◌, ◌⊎◌, refl, sym, ◌∙◌, ap, List, [], ◌∷◌,
  arith, true, false, not, ◌&&◌, some, none, ltb, ◌==◌, if◌then◌else◌, ◌>>=◌, length, take,
  Bool-cases, inl, inr, Option-cases,
}
use thread_and_net.Channel.{enable_reading, enable_writeing, is_writeing, handle_event}
use thread_and_net.Buffer.{
  Buffer, read_buff_size, append, as_int, Readv, ReadResult, bytes_read, read_error, read_fd,
}
use thread_and_net.Buffer.Inv.{IsValid}
use thread_and_net.Buffer.Contents.{contents, length-contents, Holds-append}
use thread_and_net.Buffer.Fifo.{as_int-eq}
use thread_and_net.TcpConnection.Calls.{
  Op, establishes, events, sends, queued_send, shutdowns, queued_shutdown, force_closes,
  queued_force_close, destroys, apply, run, size_of, total,
}
use thread_and_net.TcpConnection.{
  TcpConnection, note, is_connecting, connected, connection_callback, enqueue, send_in_loop,
  with_interest, Write, keep_rest, send_in_loop_now, send, shutdown, shutdown_now, handle_read,
  handle_close, read_result, force_close, force_close_now, connect_established, connect_destroyed,
  event, run_callbacks, notify_complete, is_connected,
}

-- Bytes are left over, and nothing is set for the event that the socket can be written to.
pub record IsStuck (bound : ℕ) (c : TcpConnection) : Type 0 where
  pub valid : IsValid c.output_buf
  pub left : 0 < read_buff_size c.output_buf
  pub unset : c.channel.write_callback ≡ false
  pub room : c.output_buf.write_index ≤ bound

record Same (bound : ℕ) (c c' : TcpConnection) : Type 0 where
  stuck : IsStuck bound c'
  wire : c'.wire ≡ c.wire

-- What touches neither the output buffer, nor the wire, nor the write callback.
carry :
    (bound : ℕ) (c c' : TcpConnection)
    → IsStuck bound c
    → c'.output_buf ≡ c.output_buf
    → c'.channel.write_callback ≡ c.channel.write_callback
    → c'.wire ≡ c.wire
    → Same bound c c'
carry bound c c' s b k w = record {
  stuck = ground (arith, s.valid, s.left, s.unset, s.room);
  wire = w;
}

-- The connection with a new output buffer, waiting to write.
abbrev joined : TcpConnection → Buffer → TcpConnection
joined c buf =
    if not (is_writeing c.channel)
    then with_interest (record c { output_buf = buf }) enable_writeing
    else record c { output_buf = buf }

joined-Same :
    (bound bound' : ℕ) (c : TcpConnection) (buf : Buffer)
    → IsStuck bound c
    → IsValid buf
    → 0 < read_buff_size buf
    → buf.write_index ≤ bound'
    → Same bound' c (joined c buf)
joined-Same bound bound' c buf s v l r = elim (Bool-cases (is_writeing c.channel)) [
  | inl on ↦
      rw on
        (record { stuck = record { valid = v; left = l; unset = s.unset; room = r }; wire = refl })
  | inr off ↦
      rw off
        (record { stuck = record { valid = v; left = l; unset = s.unset; room = r }; wire = refl })
]

-- A message joins the bytes that are left over.
keep_rest-Same :
    (bound : ℕ) (c c' : TcpConnection) (message : List ℕ)
    → IsStuck bound c
    → bound + length message < 2 ^ 31
    → keep_rest c message 0 ≡ some c'
    → Same (bound + length message) c c'
unfolding keep_rest
keep_rest-Same bound c c' message s fit h = elim (Bool-cases (ltb 0 (length message))) [
  | inl part ↦
      let (buf, e, held, w) =
        Holds-append c.output_buf message (length message) s.valid (omega arith)
          (omega (arith, s.room)) in
      let size =
        ap length held.holds
        ∙ length-append (contents c.output_buf) (take (length message) message) in
      let more : 0 < read_buff_size buf =
        omega (arith, size, length-contents held.valid, length-contents s.valid, s.left) in
      let is : some (joined c buf) ≡ some c' = sym (taken part buf e) ∙ h in
      let same : joined c buf ≡ c' = cc is in
      subst (Same (bound + length message) c) same (
        joined-Same bound (bound + length message) c buf s held.valid more
          (omega (arith, w, s.room)))
  | inr empty ↦
      let is : some (notify_complete c) ≡ some c' = sym (rw empty refl) ∙ h in
      let same : notify_complete c ≡ c' = cc is in
      subst (Same (bound + length message) c) same (
        carry (bound + length message) c (notify_complete c)
          (record { valid = s.valid; left = s.left; unset = s.unset; room = omega (arith, s.room) })
          (ground arith) (ground arith) (ground arith))
]
  where
    int : as_int (length message - 0) ≡ length message
    int = as_int-eq (length message - 0) (omega arith) ∙ omega arith

    taken :
        ltb 0 (length message) ≡ true
        → (buf : Buffer) → append c.output_buf message (length message) ≡ some buf
        → keep_rest c message 0 ≡ some (joined c buf)
    taken part buf e = rw (part, int, e) (ground arith)

send_in_loop_now-Same :
    (bound : ℕ) (c c' : TcpConnection) (message : List ℕ) (w : Write)
    → IsStuck bound c
    → bound + length message < 2 ^ 31
    → send_in_loop_now c message w ≡ some c'
    → Same (bound + length message) c c'
unfolding send_in_loop_now
send_in_loop_now-Same bound c c' message w s fit h =
    let held : (not (is_writeing c.channel) && (read_buff_size c.output_buf == 0)) ≡ false =
      ground (arith, s.left) in
    keep_rest-Same bound c c' message s fit (rw held at h)

-- With no write callback set, an event is a read or nothing.
pub event_reads :
    (c : TcpConnection) (revents : ℕ) (input : Readv) (w : Write)
    → c.channel.write_callback ≡ false
    → (event c revents input w ≡ some c) ⊎ (event c revents input w ≡ handle_read c input)
unfolding event handle_event run_callbacks
event_reads c revents input w unset = ground arith

read_result-Same :
    (bound : ℕ) (c : TcpConnection) (r : ReadResult)
    → IsStuck bound c
    → Same bound c (read_result c r)
unfolding read_result handle_close
read_result-Same bound c (bytes_read n) s =
    carry bound c (read_result c (bytes_read n)) s (ground arith) (ground arith) (ground arith)
read_result-Same bound c (read_error n) s =
    carry bound c (read_result c (read_error n)) s refl refl refl

handle_read-Same :
    (bound : ℕ) (c c' : TcpConnection) (input : Readv)
    → IsStuck bound c
    → handle_read c input ≡ some c'
    → Same bound c c'
unfolding handle_read
handle_read-Same bound c c' input s h = elim (Option-cases (read_fd c.input_buf input)) [
  | inl e ↦ absurd (died e h)
  | inr (r, e) ↦
      let c₁ : TcpConnection = record c { input_buf = r.1 } in
      let same : read_result c₁ r.0 ≡ c' = cc (sym (done r e) ∙ h) in
      let step =
        read_result-Same bound c₁ r.0
          (record { valid = s.valid; left = s.left; unset = s.unset; room = s.room }) in
      subst (Same bound c) same (record { stuck = step.stuck; wire = step.wire })
]
  where
    done :
        (r : ReadResult × Buffer)
        → read_fd c.input_buf input ≡ some r
        → handle_read c input ≡ some (read_result (record c { input_buf = r.1 }) r.0)
    done r e = rw (e, handle_read) refl

    died : read_fd c.input_buf input ≡ none → handle_read c input ≡ some c' → ⊥
    died e h = ground arith

wider : {bound bound' : ℕ} {c : TcpConnection} → bound ≤ bound' → IsStuck bound c → IsStuck bound' c
wider h s = record { valid = s.valid; left = s.left; unset = s.unset; room = omega (arith, s.room) }

-- What an operation that cannot fail leaves, given as an equation.
result : (bound : ℕ) (c d c' : TcpConnection) → Same bound c d → some d ≡ some c' → Same bound c c'
result bound c d c' s h = subst (Same bound c) (cc h) s

establish-Same :
    (bound : ℕ) (c c' : TcpConnection)
    → IsStuck bound c
    → connect_established c ≡ some c'
    → Same bound c c'
unfolding connect_established
establish-Same bound c c' s h = elim (Bool-cases (is_connecting c.state)) [
  | inl fits ↦
      let c₁ =
        note (with_interest (record c { state = connected }) enable_reading) connection_callback in
      result bound c c₁ c' (carry bound c c₁ s refl refl refl) (rw fits at h)
  | inr off ↦ absurd (ground arith)
]

apply-Same :
    (bound : ℕ) (c c' : TcpConnection) (o : Op)
    → IsStuck bound c
    → bound + size_of o < 2 ^ 31
    → apply c o ≡ some c'
    → Same (bound + size_of o) c c'
unfolding apply send shutdown shutdown_now force_close force_close_now connect_destroyed
    handle_close
apply-Same bound c c' (events revents input w) s fit h =
    let t : IsStuck (bound + 0) c = wider (omega arith) s in
    elim (event_reads c revents input w s.unset) [
      | inl e ↦ result (bound + 0) c c c' (record { stuck = t; wire = refl }) (sym e ∙ h)
      | inr e ↦ handle_read-Same (bound + 0) c c' input t (sym e ∙ h)
    ]
apply-Same bound c c' (sends in_loop message w) s fit h = elim (Bool-cases (is_connected c.state)) [
  | inl on ↦ elim (Bool-cases in_loop) [
    | inl here ↦ send_in_loop_now-Same bound c c' message w s fit (rw (on, here) at h)
    | inr there ↦
        let c₁ = enqueue c (send_in_loop message) in
        result (bound + length message) c c₁ c'
          (carry (bound + length message) c c₁ (wider (omega arith) s) refl refl refl)
          (rw (on, there) at h)
  ]
  | inr off ↦
      result (bound + length message) c c c' (record { stuck = wider (omega arith) s; wire = refl })
        (rw off at h)
]
apply-Same bound c c' (queued_send message w) s fit h =
    send_in_loop_now-Same bound c c' message w s fit h
apply-Same bound c c' (shutdowns in_loop) s fit h =
    result (bound + 0) c (shutdown in_loop c) c'
      (carry (bound + 0) c (shutdown in_loop c) (wider (omega arith) s) (ground arith)
        (ground arith) (ground arith))
      h
apply-Same bound c c' establishes s fit h =
    establish-Same (bound + 0) c c' (wider (omega arith) s) h
apply-Same bound c c' queued_shutdown s fit h =
    result (bound + 0) c (shutdown_now c) c'
      (carry (bound + 0) c (shutdown_now c) (wider (omega arith) s) (ground arith) (ground arith)
        (ground arith))
      h
apply-Same bound c c' force_closes s fit h =
    result (bound + 0) c (force_close c) c'
      (carry (bound + 0) c (force_close c) (wider (omega arith) s) (ground arith) (ground arith)
        (ground arith))
      h
apply-Same bound c c' queued_force_close s fit h =
    result (bound + 0) c (force_close_now c) c'
      (carry (bound + 0) c (force_close_now c) (wider (omega arith) s) (ground arith) (ground arith)
        (ground arith))
      h
apply-Same bound c c' destroys s fit h =
    result (bound + 0) c (connect_destroyed c) c'
      (carry (bound + 0) c (connect_destroyed c) (wider (omega arith) s) (ground arith)
        (ground arith) (ground arith))
      h

-- Once bytes are left over on a connection whose channel has no write callback, nothing that its
-- user, its loop or the kernel does puts another byte on the wire. The constructor sets no write
-- callback, and no other function does. The messages come to less than 2 ^ 31 bytes.
pub run_stuck :
    (bound : ℕ) (c c' : TcpConnection) (os : List Op)
    → IsStuck bound c
    → bound + total os < 2 ^ 31
    → run c os ≡ some c'
    → c'.wire ≡ c.wire
unfolding run
run_stuck bound c c' [] s fit h = cc
run_stuck bound c c' (o ∷ os) s fit h = elim (Option-cases (apply c o)) [
  | inl e ↦ absurd (died e h)
  | inr (d, e) ↦
      let t = apply-Same bound c d o s (omega arith) e in
      run_stuck (bound + size_of o) d c' os t.stuck (omega arith) (rw e at h) ∙ t.wire
]
  where
    died : apply c o ≡ none → (apply c o >>= λ d. run d os) ≡ some c' → ⊥
    died e h = ground arith
