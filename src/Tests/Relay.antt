-- ===== src/Tests/Relay.antt =====
-- Runs of the UDP relays and of the two directions of a stream (src/common/udp.rs,
-- src/common/tcp.rs).
use rusnel.Base.{ℕ, ◌≡◌, inl, refl, arith, true, false, none, some, [], ◌∷◌}
use rusnel.Text.{text}
use rusnel.Net.Ipv4
use rusnel.Net.Addr.{v4, SocketAddr}
use rusnel.Wire.Datagram.{same_socket_addr}
use rusnel.Proxy.Socket.Filter.{same_socket_addr_refl}
use rusnel.Relay.{Channel, Relay, get, receive, forget, recv, drop_receiver, conn_channel_capacity}
use rusnel.Relay.Steps.{RelayRun, idle, arrival, taking}
use rusnel.Relay.Order.{IsFed}
use rusnel.Relay.Routing.{RelayRun-IsFed}
use rusnel.Tcp.{
  pending, failing, copying, unpolled, Round, fresh, join_poll, tunnel_tcp_stream,
  poll_client_to_server, poll_server_to_client,
}
use rusnel.Tcp.Abort.{
  IsThrough, HasFailed, failure_ends_both, alone, upward_polls, downward_polls,
  tunnel_tcp_stream-alone, first_poll_failure_is_lost,
}

abbrev source : SocketAddr
source = record { ip = v4 Ipv4.localhost; port = 5353 }

abbrev start : ℕ → Channel SocketAddr
start c = record { key = source; queue = []; taken = []; is_closed = false }

abbrev empty : Relay SocketAddr
empty = record { conns = []; channel_at = start; next_channel = 0 }

abbrev two_in : Relay SocketAddr
two_in =
    receive same_socket_addr conn_channel_capacity source (text "b")
      (receive same_socket_addr conn_channel_capacity source (text "a") empty)

abbrev one_taken : Relay SocketAddr
one_taken = recv 0 two_in

one_taken_run :
    RelayRun same_socket_addr conn_channel_capacity start
      ((source, text "a") ∷ (source, text "b") ∷ [])
      one_taken
one_taken_run = taking 0 (arrival source (text "b") (arrival source (text "a") idle))

one_channel : one_taken.next_channel ≡ 1
unfolding receive recv
one_channel = refl

RelayRun-IsFed_example :
    IsFed same_socket_addr conn_channel_capacity
      ((source, text "a") ∷ (source, text "b") ∷ [])
      (one_taken.channel_at 0)
RelayRun-IsFed_example =
    RelayRun-IsFed same_socket_addr conn_channel_capacity 0 same_socket_addr_refl one_taken_run
      (rw one_channel (omega arith))

in_order :
    ((one_taken.channel_at 0).taken ≡ text "a" ∷ [])
    × ((one_taken.channel_at 0).queue ≡ text "b" ∷ [])
unfolding receive recv
in_order = (refl, refl)

-- A task that ends takes the entry of a newer conn of its source with it.
abbrev reopened : Relay SocketAddr
reopened = receive same_socket_addr conn_channel_capacity source (text "c") (drop_receiver 0 two_in)

newer_conn_forgotten :
    (get same_socket_addr source reopened.conns ≡ some 1)
    × (get same_socket_addr source (forget same_socket_addr 0 reopened).conns ≡ none)
unfolding receive recv drop_receiver forget
newer_conn_forgotten = (refl, refl)

abbrev calm : Round
calm = record { upward_first = true; upward = pending; downward = pending }

abbrev broken : Round
broken = record { upward_first = true; upward = failing; downward = pending }

broken_fails : HasFailed (tunnel_tcp_stream (calm ∷ broken ∷ []) fresh).client_to_server
unfolding tunnel_tcp_stream join_poll poll_client_to_server poll_server_to_client
broken_fails = refl

failure_ends_both_example :
    (let d = tunnel_tcp_stream (calm ∷ broken ∷ []) fresh in
      IsThrough (join_poll calm d).client_to_server × IsThrough (join_poll calm d).server_to_client)
failure_ends_both_example =
    failure_ends_both calm (broken ∷ []) calm (ground arith, ground arith) (inl broken_fails)

tunnel_tcp_stream-alone_example :
    (let d = tunnel_tcp_stream (calm ∷ []) fresh in
      (d.client_to_server ≡ alone unpolled (upward_polls (calm ∷ [])))
      × (d.server_to_client ≡ alone unpolled (downward_polls (calm ∷ []))))
tunnel_tcp_stream-alone_example =
    tunnel_tcp_stream-alone (calm ∷ []) ((ground arith, ground arith), tt)

first_poll_failure_is_lost_example :
    (tunnel_tcp_stream (broken ∷ calm ∷ calm ∷ []) fresh).server_to_client ≡ copying false
first_poll_failure_is_lost_example =
    first_poll_failure_is_lost broken (calm ∷ calm ∷ []) refl refl (refl, (refl, (refl, tt)))
