-- ===== src/Relay/Listeners.antt =====
-- The two loops: `tunnel_udp_client` of src/common/udp.rs keys its conns by the source, and
-- `run_socks_udp_relay` of src/common/socks.rs by the source and the target of the header.
use rusnel.Base.{
  refl, ℕ, Bool, true, ◌&&◌, ◌≡◌, arith, ◌==◌, ==_refl, Bytes, equal, equal_refl, ok, err,
}
use rusnel.Net.Addr.{SocketAddr}
use rusnel.Remote.{HostPort}
use rusnel.Socks.{wrap_socks_udp_reply, Header, parse_socks_udp_header}
use rusnel.Socks.Udp.{IsSocksHost, parse_socks_udp_header-wrap_socks_udp_reply}
use rusnel.Wire.Datagram.{same_socket_addr}
use rusnel.Proxy.Socket.Filter.{same_socket_addr_refl}
use rusnel.Relay.{Relay, conn_channel_capacity, receive}

-- A datagram that the local socket receives.
unfoldable pub udp_receive : Bytes × SocketAddr → Relay SocketAddr → Relay SocketAddr
udp_receive (payload, source) r = receive same_socket_addr conn_channel_capacity source payload r

abbrev pub SocksKey : Type 0
SocksKey = SocketAddr × HostPort

abbrev pub same_socks_key : SocksKey → SocksKey → Bool
same_socks_key (source, target) (source', target') =
    same_socket_addr source source' && equal target.host target'.host && target.port == target'.port

pub same_socks_key_refl : (k : SocksKey) → same_socks_key k k ≡ true
same_socks_key_refl (source, target) =
    ground (arith, same_socket_addr_refl source, equal_refl target.host, ==_refl target.port)

abbrev pub socks_udp_channel_capacity : ℕ
socks_udp_channel_capacity = 4096

-- A datagram without a good header is passed over.
abbrev pub routed : SocketAddr → Header → Relay SocksKey → Relay SocksKey
routed source (err e) r = r
routed source (ok (target, payload)) r =
    receive same_socks_key socks_udp_channel_capacity (source, target) payload r

unfoldable pub socks_receive : Bytes × SocketAddr → Relay SocksKey → Relay SocksKey
socks_receive (bytes, source) r = routed source (parse_socks_udp_header bytes) r

-- A datagram that the relay has wrapped for a target is routed to the conn of its source and that
-- target.
pub socks_receive-wrap_socks_udp_reply :
    (source : SocketAddr) (target : HostPort) (payload : Bytes) (r : Relay SocksKey)
    → IsSocksHost target.host
    → socks_receive (wrap_socks_udp_reply target payload, source) r
      ≡ receive same_socks_key socks_udp_channel_capacity (source, target) payload r
unfolding socks_receive
socks_receive-wrap_socks_udp_reply source target payload r h =
    rw (parse_socks_udp_header-wrap_socks_udp_reply target payload h) refl
