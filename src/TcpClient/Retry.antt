-- ===== src/TcpClient/Retry.antt =====
-- What a client does after its connection has closed.
use thread_and_net.Prelude.{
  ℕ, ◌≡◌, refl, ap, sym, ◌∙◌, true, false, none, some, [], ◌∷◌, ◌++◌, eq_opt_refl, arith,
}
use thread_and_net.Connector.{Connector, Errno, connecting, einprogress, init_retry_delay_ms}
use thread_and_net.Connector.Effects.{restart-connecting, start-connected-none}
use thread_and_net.TcpClient.{TcpClient, connect_destroyed, init, connect, remove_connection}
use thread_and_net.TcpClient.Single.{Reach, Reach-Inv, init-Inv}

-- When the connection of a client closes that wants to retry, and its connector's channel has been
-- reset, then `removeConnection` begins a new attempt, with the first delay of the row, and leaves no
-- connection.
pub remove_connection-retries :
    (c : TcpClient) (p fd : ℕ)
    → c.connection ≡ some p
    → c.retry ≡ true
    → c.connected ≡ true
    → c.connector.channel ≡ none
    → (d : TcpClient) × (remove_connection c p fd einprogress ≡ some d)
      × (d.connection ≡ none)
      × (d.connector.state ≡ connecting)
      × (d.connector.channel ≡ some fd)
      × (d.connector.retry_delay_ms ≡ init_retry_delay_ms)
unfolding remove_connection
remove_connection-retries c p fd e again wanted free =
    let (k, begun, s, ch, delay) = restart-connecting c.connector fd free in
    (
      record c {
        connection = none;
        queued = c.queued ++ connect_destroyed p ∷ [];
        removed = c.removed ++ p ∷ [];
        connector = k;
      },
      ground (arith, eq_opt_refl c.connection),
      refl,
      s,
      ch,
      delay,
    )

-- A client that does not retry cannot connect a second time: once its connection has closed, `connect`
-- ends the process, whatever socket it gets, since its connector still counts as connected.
pub connect_again-none :
    (loop p fd fd' : ℕ) (errno errno' : Errno) {c d : TcpClient}
    → Reach (init loop) c
    → c.connection ≡ some p
    → c.retry ≡ false
    → remove_connection c p fd errno ≡ some d
    → connect d fd' errno' ≡ none
unfolding remove_connection connect
connect_again-none loop p fd fd' errno errno' {c} {d} r e quiet h =
    let s = (Reach-Inv (init-Inv loop) r).state p e in
    let same : c.connector ≡ d.connector = ground (arith, eq_opt_refl c.connection) in
    ground (
      arith,
      start-connected-none d.connector fd' errno' (ap (λ (k : Connector). k.state) (sym same) ∙ s),
    )
