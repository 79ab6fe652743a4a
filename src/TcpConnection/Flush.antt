-- ===== src/TcpConnection/Flush.antt =====
-- The bytes that are left over on a connection since its construction.
use thread_and_net.Prelude.{
  ℕ, ◌+◌, ◌^◌, ◌≡◌, ◌<◌, inl, inr, refl, List, [], ◌∷◌, ◌++◌, arith, false, some, Option-cases,
  take,
}
use thread_and_net.Buffer.{read_buff_size, ReadResult, bytes_read, read_error, read_fd}
use thread_and_net.Buffer.Inv.{IsValid}
use thread_and_net.TcpConnection.{
  TcpConnection, Write, wrote, write_failed, create_conn, keep_rest, send_in_loop_now, send,
  shutdown, shutdown_now, handle_read, handle_close, read_result, force_close, force_close_now,
  connect_established, connect_destroyed,
}
use thread_and_net.TcpConnection.Calls.{
  Op, establishes, events, sends, queued_send, shutdowns, queued_shutdown, force_closes,
  queued_force_close, destroys, apply, run, total,
}
use thread_and_net.TcpConnection.Stuck.{event_reads, run_stuck}

abbrev Unset : TcpConnection → Type 0
Unset c = c.channel.write_callback ≡ false

keep_rest-Unset :
    (c c' : TcpConnection) (message : List ℕ) (n : ℕ)
    → Unset c
    → keep_rest c message n ≡ some c'
    → Unset c'
unfolding keep_rest
keep_rest-Unset c c' message n u h = ground arith

send_in_loop_now-Unset :
    (c c' : TcpConnection) (message : List ℕ) (w : Write)
    → Unset c
    → send_in_loop_now c message w ≡ some c'
    → Unset c'
unfolding send_in_loop_now
send_in_loop_now-Unset c c' message (wrote n) u h = ground (
  arith,
  keep_rest-Unset (record c { wire = c.wire ++ take n message }) c' message n u,
  keep_rest-Unset c c' message 0 u,
)
send_in_loop_now-Unset c c' message write_failed u h =
    ground (arith, keep_rest-Unset c c' message 0 u)

read_result-Unset : (c : TcpConnection) (r : ReadResult) → Unset c → Unset (read_result c r)
unfolding read_result handle_close
read_result-Unset c (bytes_read n) u = ground arith
read_result-Unset c (read_error e) u = u

apply-Unset : (c c' : TcpConnection) (o : Op) → Unset c → apply c o ≡ some c' → Unset c'
unfolding apply send shutdown shutdown_now force_close force_close_now connect_established
    connect_destroyed handle_close handle_read
apply-Unset c c' (events revents input w) u h = elim (event_reads c revents input w u) [
  | inl e ↦ ground arith
  | inr e ↦ elim (Option-cases (read_fd c.input_buf input)) [
    | inl x ↦ ground arith
    | inr (r, x) ↦ ground (arith, read_result-Unset (record c { input_buf = r.1 }) r.0 u)
  ]
]
apply-Unset c c' (sends in_loop message w) u h =
    ground (arith, send_in_loop_now-Unset c c' message w u)
apply-Unset c c' (queued_send message w) u h = send_in_loop_now-Unset c c' message w u h
apply-Unset c c' (shutdowns in_loop) u h = ground arith
apply-Unset c c' establishes u h = ground arith
apply-Unset c c' queued_shutdown u h = ground arith
apply-Unset c c' force_closes u h = ground arith
apply-Unset c c' queued_force_close u h = ground arith
apply-Unset c c' destroys u h = ground arith

run-Unset : (c c' : TcpConnection) (os : List Op) → Unset c → run c os ≡ some c' → Unset c'
unfolding run
run-Unset c c' [] u h = ground arith
run-Unset c c' (o ∷ os) u h = elim (Option-cases (apply c o)) [
  | inl e ↦ ground arith
  | inr (d, e) ↦ run-Unset d c' os (apply-Unset c d o u e) (rw e at h)
]

-- A connection never puts bytes on the wire that `sendInLoop` had to keep: whatever a new connection
-- has been through, once its output buffer holds bytes, nothing that its user, its loop or the
-- kernel does afterwards puts another byte on the wire. The later messages come to less than 2 ^ 31
-- bytes, and the buffer is well formed.
pub never_flushed :
    (loop sockfd : ℕ) (past later : List Op) (c c' : TcpConnection)
    → run (create_conn loop sockfd) past ≡ some c
    → IsValid c.output_buf
    → 0 < read_buff_size c.output_buf
    → c.output_buf.write_index + total later < 2 ^ 31
    → run c later ≡ some c'
    → c'.wire ≡ c.wire
unfolding create_conn
never_flushed loop sockfd past later c c' h v left fit h' =
    run_stuck c.output_buf.write_index c c' later
      (record {
        valid = v;
        left = left;
        unset = run-Unset (create_conn loop sockfd) c past refl h;
        room = omega arith;
      })
      fit h'
