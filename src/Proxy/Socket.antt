-- ===== src/Proxy/Socket.antt =====
-- `Socks5UdpSocket` of src/common/proxy.rs: what quinn sends and receives through the proxy. The
-- readiness of the socket is tokio's: `poll_recv` runs over what has arrived.
pub mod Filter
use rusnel.Base.{
  zero, suc, ℕ, Bool, true, false, Option, none, some, List, [], ◌∷◌, Bytes, if◌then◌else◌, ◌==◌,
  take,
}
use rusnel.Text.{text}
use rusnel.Net.Addr.{IpAddr, v4, v6, SocketAddr}
use rusnel.Net.Ipv4
use rusnel.Net.Ipv6
use rusnel.Wire.Datagram.{same_socket_addr}
use rusnel.Proxy.{wrap_socks5_udp, unwrap_socks5_udp_in_place}

pub record Socks5UdpSocket : Type 0 where
  pub relay : SocketAddr
  pub target : SocketAddr

-- What is sent and to whom. A packet for anybody else is an error.
unfoldable pub try_send : Socks5UdpSocket → SocketAddr → Bytes → Option (Bytes × SocketAddr)
try_send socket destination contents =
    if same_socket_addr destination socket.target
    then some (wrap_socks5_udp socket.target contents, socket.relay)
    else none

-- The packet that is made of a datagram, or nothing.
abbrev pub inner : Socks5UdpSocket → Option (SocketAddr × Bytes) → Option Bytes
inner socket none = none
inner socket (some (source, payload)) =
    if same_socket_addr source socket.target then some payload else none

unfoldable pub packet_of : Socks5UdpSocket → Bytes × SocketAddr → Option Bytes
packet_of socket (bytes, source) =
    if same_socket_addr source socket.relay
    then inner socket (unwrap_socks5_udp_in_place bytes)
    else none

-- What a read of the local socket gives: a datagram and its source, or an error.
pub data Arrival : Type 0 where
  datagram : Bytes → SocketAddr → Arrival
  failure : Bytes → Arrival

-- What a poll gives, with what has arrived and is not read yet.
pub data RecvPoll : Type 0 where
  pending : RecvPoll
  no_buffers : List Arrival → RecvPoll
  read_failed : Bytes → List Arrival → RecvPoll
  received : Bytes → List Arrival → RecvPoll

-- The loop goes on, unless the datagram gives a packet.
abbrev pub or_later : Option Bytes → List Arrival → RecvPoll → RecvPoll
or_later none rest later = later
or_later (some payload) rest later = received payload rest

-- The loop, over the first buffer, of `capacity` bytes. What does not fit into it is cut off.
unfoldable pub recv_loop : Socks5UdpSocket → ℕ → List Arrival → RecvPoll
recv_loop socket capacity [] = pending
recv_loop socket capacity (failure e ∷ rest) = read_failed e rest
recv_loop socket capacity (datagram bytes source ∷ rest) =
    or_later (packet_of socket (take capacity bytes, source)) rest (recv_loop socket capacity rest)

-- `bufs` has the sizes of the buffers, and `metas` is how many descriptions can be given.
unfoldable pub poll_recv : Socks5UdpSocket → List ℕ → ℕ → List Arrival → RecvPoll
poll_recv socket [] metas arrived = no_buffers arrived
poll_recv socket (capacity ∷ bufs) zero arrived = no_buffers arrived
poll_recv socket (capacity ∷ bufs) (suc metas) arrived = recv_loop socket capacity arrived

abbrev pub unspecified_like : IpAddr → IpAddr
unspecified_like (v4 ip) = v4 (Ipv4.new 0 0 0 0)
unspecified_like (v6 ip) =
    v6 (record { s0 = 0; s1 = 0; s2 = 0; s3 = 0; s4 = 0; s5 = 0; s6 = 0; s7 = 0 })

-- The address family that the local socket is bound in.
abbrev pub bind_address : SocketAddr → SocketAddr
bind_address relay = record { ip = unspecified_like relay.ip; port = 0 }

unfoldable pub socks5_reply_meaning : ℕ → Bytes
socks5_reply_meaning rep =
    if rep == 0
    then text "succeeded"
    else if rep == 1
    then text "general SOCKS server failure"
    else if rep == 2
    then text "connection not allowed by ruleset"
    else if rep == 3
    then text "network unreachable"
    else if rep == 4
    then text "host unreachable"
    else if rep == 5
    then text "connection refused"
    else if rep == 6
    then text "TTL expired"
    else if rep == 7
    then text "command not supported"
    else if rep == 8
    then text "address type not supported"
    else text "unknown"
