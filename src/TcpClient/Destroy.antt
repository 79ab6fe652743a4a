-- ===== src/TcpClient/Destroy.antt =====
-- What becomes of the connection of a client that is destroyed.
use thread_and_net.Prelude.{ℕ, ◌≡◌, refl, true, some, [], ◌∷◌, ◌++◌, arith, update}
use thread_and_net.Connector.{Errno}
use thread_and_net.TcpConnection.{
  TcpConnection, connected, disconnected, force_close, force_close_now, force_close_in_loop,
  handle_close, close_callback,
}
use thread_and_net.TcpClient.{
  TcpClient, connect_destroyed, detached_remove, destroy_client, on_close, remove_detached,
}

-- When a client is destroyed that alone has its connection, and the connection is connected, then
-- `forceClose` queues the close, and the close, when it comes, disconnects the connection and calls the
-- close callback, which queues `connectDestroyed`, and leaves the connector as it was: there is no new
-- attempt, even where the client retries.
pub destroy_client_lem :
    (c : TcpClient) (p fd : ℕ) (errno : Errno) (t : TcpConnection)
    → c.connection ≡ some p
    → c.heap p ≡ some t
    → t.state ≡ connected
    → (d : TcpClient) × (destroy_client c true ≡ some d)
      × (d.heap p ≡ some (force_close t))
      × ((force_close t).queued ≡ t.queued ++ force_close_in_loop ∷ [])
      × ((force_close_now (force_close t)).state ≡ disconnected)
      × ((force_close_now (force_close t)).log ≡ t.log ++ close_callback ∷ [])
      × (on_close d p fd errno ≡ some (record d { queued = d.queued ++ connect_destroyed p ∷ [] }))
      × (d.connector ≡ c.connector)
unfolding destroy_client on_close remove_detached force_close force_close_now handle_close
destroy_client_lem c p fd errno t e at on = (
  record c {
    close_callbacks = update c.close_callbacks p detached_remove;
    heap = update c.heap p (some (force_close t));
  },
  ground arith,
  ground arith,
  ground arith,
  ground arith,
  ground arith,
  ground arith,
  refl,
)
