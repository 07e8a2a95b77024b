-- ===== src/Proxy/Datagrams.antt =====
-- The datagrams that the proxy relays, there and back.
use rusnel.Base.{ℕ, ◌≡◌, arith, some, ◌++◌, Bytes}
use rusnel.Net.Ipv4
use rusnel.Net.Ipv4.{Ipv4}
use rusnel.Net.Ipv6
use rusnel.Net.Ipv6.{Ipv6, IsIpv6}
use rusnel.Net.Addr.{IpAddr, v4, v6, SocketAddr, port_bytes}
use rusnel.Wire.{read_exact-append}
use rusnel.Proxy.{unwrap_v4, unwrap_v6, wrap_socks5_udp, unwrap_socks5_udp_in_place}

unwrap_v4-octets :
    (ip : Ipv4) (p : ℕ) (payload : Bytes)
    → unwrap_v4 (Ipv4.octets ip ++ (port_bytes p ++ payload))
      ≡ some (record { ip = v4 ip; port = p }, payload)
unfolding unwrap_v4
unwrap_v4-octets ip p payload = ground arith

unwrap_v6-octets :
    (ip : Ipv6) (p : ℕ) (payload : Bytes)
    → unwrap_v6 (Ipv6.octets ip ++ (port_bytes p ++ payload))
      ≡ some (record { ip = v6 ip; port = p }, payload)
unfolding unwrap_v6
unwrap_v6-octets ip p payload =
    rw (read_exact-append (Ipv6.octets ip) (port_bytes p ++ payload)) (ground arith)

unwrap-wrap_at :
    (ip : IpAddr) (p : ℕ) (payload : Bytes)
    → unwrap_socks5_udp_in_place (wrap_socks5_udp (record { ip = ip; port = p }) payload)
      ≡ some (record { ip = ip; port = p }, payload)
unfolding unwrap_socks5_udp_in_place wrap_socks5_udp
unwrap-wrap_at (v4 ip) p payload = unwrap_v4-octets ip p payload
unwrap-wrap_at (v6 ip) p payload = unwrap_v6-octets ip p payload

-- A datagram wrapped for an address is unwrapped as coming from that address.
pub unwrap_socks5_udp_in_place-wrap_socks5_udp :
    (target : SocketAddr) (payload : Bytes)
    → unwrap_socks5_udp_in_place (wrap_socks5_udp target payload) ≡ some (target, payload)
unwrap_socks5_udp_in_place-wrap_socks5_udp target payload =
    unwrap-wrap_at target.ip target.port payload
