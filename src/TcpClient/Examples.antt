-- ===== src/TcpClient/Examples.antt =====
-- The client's theorems on a client that has connected.
use thread_and_net.Prelude.{◌≡◌, ◌++◌, refl, Option, some, none, true, false}
use thread_and_net.Buffer
use thread_and_net.Channel.{create, interest}
use thread_and_net.Connector
use thread_and_net.Connector.{connecting, einprogress, init_retry_delay_ms}
use thread_and_net.TcpConnection.{create_conn, connect_established}
use thread_and_net.TcpClient.{
  TcpClient, init, connect, new_connection, connector_write, connector_queued, remove_connection,
}
use thread_and_net.TcpClient.Single.{
  Reach, here, next, connects, writes, runs_queued, current, Reach-one,
}
use thread_and_net.TcpClient.Retry.{connect_again-none}

abbrev or_new : Option TcpClient → TcpClient
or_new none = init 0
or_new (some c) = c

unfoldable begun : TcpClient
begun = or_new (connect (init 0) 5 einprogress)

unfoldable made : TcpClient
made = or_new (connector_write begun false false 100)

unfoldable settled : TcpClient
settled = or_new (connector_queued made)

settled-Reach : Reach (init 0) settled
unfolding begun made settled init connect connector_write connector_queued new_connection
    connect_established create_conn create interest Buffer.init Connector.init Connector.start
    Connector.start_in_loop Connector.connect Connector.start_connecting Connector.retry
    Connector.handle_write Connector.remove_and_reset_channel Connector.run_queued
    Connector.run_functor Connector.reset_channel
settled-Reach =
    next (next (next here (connects 5 einprogress refl)) (writes false false 100 refl))
      (runs_queued refl)

Reach-one_example : settled.accepted ≡ settled.removed ++ current settled.connection
Reach-one_example = Reach-one 0 settled-Reach

unfoldable closed : TcpClient
closed = or_new (remove_connection settled 100 7 einprogress)

-- The facts about these clients that the theorems ask for
settled_facts :
    (settled.connection ≡ some 100)
    × (settled.retry ≡ false)
    × (remove_connection settled 100 7 einprogress ≡ some closed)
    × (settled.connected ≡ true)
    × (settled.connector.channel ≡ none)
unfolding begun made settled closed remove_connection init connect connector_write connector_queued
    new_connection connect_established create_conn create interest Buffer.init Connector.init
    Connector.start Connector.start_in_loop Connector.connect Connector.start_connecting
    Connector.retry Connector.handle_write Connector.remove_and_reset_channel Connector.run_queued
    Connector.run_functor Connector.reset_channel
settled_facts = (refl, refl, refl, refl, refl)

connect_again-none_example : connect closed 9 einprogress ≡ none
connect_again-none_example =
    connect_again-none 0 100 7 9 einprogress einprogress settled-Reach settled_facts.0
      settled_facts.1 settled_facts.2
