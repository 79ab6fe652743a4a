-- ===== src/TcpConnection/Calls.antt =====
-- The calls on a connection, as a sequence.
use thread_and_net.Prelude.{ℕ, ◌+◌, List, [], ◌∷◌, Bool, Option, some, ◌>>=◌, length}
use thread_and_net.Buffer.{Readv}
use thread_and_net.TcpConnection.{
  TcpConnection, Write, send_in_loop_now, send, shutdown, shutdown_now, force_close,
  force_close_now, connect_established, connect_destroyed, event,
}

-- The calls on a connection, by its user, by the loop on what was queued, and by the poller.
pub data Op : Type 0 where
  events : ℕ → Readv → Write → Op
  sends : Bool → List ℕ → Write → Op
  queued_send : List ℕ → Write → Op
  shutdowns : Bool → Op
  establishes queued_shutdown force_closes queued_force_close destroys : Op

unfoldable pub apply : TcpConnection → Op → Option TcpConnection
apply c (events revents input w) = event c revents input w
apply c (sends in_loop message w) = send in_loop c message w
apply c (queued_send message w) = send_in_loop_now c message w
apply c (shutdowns in_loop) = some (shutdown in_loop c)
apply c establishes = connect_established c
apply c queued_shutdown = some (shutdown_now c)
apply c force_closes = some (force_close c)
apply c queued_force_close = some (force_close_now c)
apply c destroys = some (connect_destroyed c)

unfoldable pub run : TcpConnection → List Op → Option TcpConnection
run c [] = some c
run c (o ∷ os) = do c' ← apply c o; run c' os

abbrev pub size_of : Op → ℕ
size_of (sends in_loop message w) = length message
size_of (queued_send message w) = length message
size_of _ = 0

abbrev pub total : List Op → ℕ
total [] = 0
total (o ∷ os) = size_of o + total os
