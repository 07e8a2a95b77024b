-- ===== src/Socks/Udp.antt =====
-- The headers of UDP datagrams, there and back.
use rusnel.Base.{
  ℕ, ◌/◌, ◌%◌, ◌<◌, ◌≤◌, ◌≡◌, refl, arith, none, some, ◌∷◌, ◌++◌, Bytes, length, take_all, min, All,
  ok, ap, ◌∙◌,
}
use rusnel.Net.Ipv4
use rusnel.Net.Ipv4.{Ipv4, IsIpv4}
use rusnel.Net.Ipv4.RoundTrip.{parse-show}
use rusnel.Net.Ipv6
use rusnel.Net.Ipv6.{Ipv6, IsIpv6}
use rusnel.Net.Addr.{port_bytes, port_of}
use rusnel.Net.Utf8.{from_utf8_lossy-ascii}
use rusnel.Remote.{HostPort}
use rusnel.Wire.{read_exact-append}
use rusnel.Socks.{
  parse_v4, parse_v6, parse_domain, parse_socks_udp_header, domain_bytes, address_bytes,
  wrap_socks_udp_reply,
}

-- A host that the header can carry: the text of an IPv4 address, the canonical text of an IPv6
-- address, or an ASCII name of 255 bytes at most.
pub data IsSocksHost : Bytes → Type 0 where
  v4_text : (ip : Ipv4) → IsIpv4 ip → IsSocksHost (Ipv4.show ip)
  v6_text :
      (host : Bytes) (ip : Ipv6)
      → Ipv4.parse host ≡ none
      → Ipv6.parse host ≡ some ip
      → Ipv6.show ip ≡ host
      → IsIpv6 ip
      → IsSocksHost host
  name :
      (host : Bytes)
      → Ipv4.parse host ≡ none
      → Ipv6.parse host ≡ none
      → All (λ b. b < 128) host
      → length host ≤ 255
      → IsSocksHost host

port_of-port_bytes : (p : ℕ) → port_of (p / 256) (p % 256) ≡ p
port_of-port_bytes p = omega arith

pub from_octets-octets : (ip : Ipv6) → IsIpv6 ip → Ipv6.from_octets (Ipv6.octets ip) ≡ some ip
from_octets-octets ip h = ground arith

parse_v6-octets :
    (ip : Ipv6) (p : ℕ) (payload : Bytes)
    → parse_v6 (Ipv6.octets ip ++ (port_bytes p ++ payload))
      ≡ ok (record { host = Ipv6.show ip; port = p }, payload)
unfolding parse_v6
parse_v6-octets ip p payload =
    rw (read_exact-append (Ipv6.octets ip) (port_bytes p ++ payload)) (ground arith)

parse_v4-octets :
    (ip : Ipv4) (p : ℕ) (payload : Bytes)
    → parse_v4 (Ipv4.octets ip ++ (port_bytes p ++ payload))
      ≡ ok (record { host = Ipv4.show ip; port = p }, payload)
unfolding parse_v4
parse_v4-octets ip p payload = ground arith

parse_domain-bytes :
    (host : Bytes) (p : ℕ) (payload : Bytes)
    → All (λ b. b < 128) host
    → length host ≤ 255
    → parse_domain (domain_bytes host ++ (port_bytes p ++ payload))
      ≡ ok (record { host = host; port = p }, payload)
unfolding parse_domain
parse_domain-bytes host p payload ascii short =
    let whole : min (length host) 255 ≡ length host = omega arith in
    rw
      (
        whole,
        take_all (length host) host (omega arith),
        read_exact-append host (port_bytes p ++ payload),
        from_utf8_lossy-ascii host ascii,
      )
      (ground arith)

-- The address of a host is read as its kind, and the kind is what its text says.
pub data IsAddress (host : Bytes) : Bytes → Type 0 where
  of_v4 : (ip : Ipv4) → Ipv4.show ip ≡ host → IsAddress host (1 ∷ Ipv4.octets ip)
  of_v6 : (ip : Ipv6) → Ipv6.show ip ≡ host → IsAddress host (4 ∷ Ipv6.octets ip)
  of_name : All (λ b. b < 128) host → length host ≤ 255 → IsAddress host (3 ∷ domain_bytes host)

pub address_bytes-IsAddress :
    (host : Bytes) → IsSocksHost host → IsAddress host (address_bytes host)
unfolding address_bytes
address_bytes-IsAddress _ (v4_text ip h) = rw (parse-show ip h, address_bytes) (of_v4 ip refl)
address_bytes-IsAddress _ (v6_text host ip no4 is6 shown h) =
    rw (no4, is6, address_bytes) (of_v6 ip shown)
address_bytes-IsAddress _ (name host no4 no6 ascii short) =
    rw (no4, no6, address_bytes) (of_name ascii short)

read_back :
    (host address : Bytes) (p : ℕ) (payload : Bytes)
    → IsAddress host address
    → parse_socks_udp_header (0 ∷ 0 ∷ 0 ∷ (address ++ (port_bytes p ++ payload)))
      ≡ ok (record { host = host; port = p }, payload)
unfolding parse_socks_udp_header
read_back host _ p payload (of_v4 ip shown) =
    parse_v4-octets ip p payload ∙ ap (λ s. ok (record { host = s; port = p }, payload)) shown
read_back host _ p payload (of_v6 ip shown) =
    parse_v6-octets ip p payload ∙ ap (λ s. ok (record { host = s; port = p }, payload)) shown
read_back host _ p payload (of_name ascii short) = parse_domain-bytes host p payload ascii short

-- A reply, wrapped for a target whose host the header can carry, is read back as that target and
-- that payload.
pub parse_socks_udp_header-wrap_socks_udp_reply :
    (target : HostPort) (payload : Bytes)
    → IsSocksHost target.host
    → parse_socks_udp_header (wrap_socks_udp_reply target payload) ≡ ok (target, payload)
unfolding wrap_socks_udp_reply
parse_socks_udp_header-wrap_socks_udp_reply target payload h =
    read_back target.host (address_bytes target.host) target.port payload
      (address_bytes-IsAddress target.host h)
