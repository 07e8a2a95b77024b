-- ===== src/Socks.antt =====
-- SOCKS5 as the client side of a tunnel speaks it: src/common/socks.rs.
pub mod Udp
pub mod Handshake
use rusnel.Base.{
  ℕ, ◌+◌, ◌≡◌, arith, Bool, true, false, Option, none, some, List, [], ◌∷◌, ◌++◌, Bytes, length,
  take, min, ◌==◌, if◌then◌else◌, Result, ok, err,
}
use rusnel.Net.Ipv4
use rusnel.Net.Ipv6
use rusnel.Net.Addr.{v4, v6, SocketAddr, port_bytes, port_of}
use rusnel.Net.Utf8.{from_utf8_lossy}
use rusnel.Remote.{HostPort}
use rusnel.Wire.{read_exact}

pub data HeaderError : Type 0 where
  too_short fragmented truncated_v4 truncated_v6 truncated_domain : HeaderError
  unknown_atyp : ℕ → HeaderError

abbrev pub Header : Type 0
Header = Result HeaderError (HostPort × Bytes)

abbrev target : Bytes → ℕ → ℕ → HostPort
target host hi lo = record { host = host; port = port_of hi lo }

unfoldable pub parse_v4 : Bytes → Header
parse_v4 (a ∷ b ∷ c ∷ d ∷ hi ∷ lo ∷ payload) =
    ok (target (Ipv4.show (Ipv4.new a b c d)) hi lo, payload)
parse_v4 _ = err truncated_v4

abbrev v6_behind : Option (Bytes × Bytes) → Header
v6_behind (some (octets, hi ∷ lo ∷ payload)) = elim (Ipv6.from_octets octets) [
  | some ip ↦ ok (target (Ipv6.show ip) hi lo, payload)
  | none ↦ err truncated_v6
]
v6_behind _ = err truncated_v6

unfoldable pub parse_v6 : Bytes → Header
parse_v6 s = v6_behind (read_exact 16 s)

abbrev domain_behind : Option (Bytes × Bytes) → Header
domain_behind (some (domain, hi ∷ lo ∷ payload)) =
    ok (target (from_utf8_lossy domain) hi lo, payload)
domain_behind _ = err truncated_domain

unfoldable pub parse_domain : Bytes → Header
parse_domain [] = err truncated_domain
parse_domain (len ∷ s) = domain_behind (read_exact len s)

-- The target and the payload of a datagram; fragments are refused.
unfoldable pub parse_socks_udp_header : Bytes → Header
parse_socks_udp_header (_ ∷ _ ∷ frag ∷ atyp ∷ s) =
    if frag == 0
    then if atyp == 1
      then parse_v4 s
      else if atyp == 4
      then parse_v6 s
      else if atyp == 3
      then parse_domain s
      else err (unknown_atyp atyp)
    else err fragmented
parse_socks_udp_header _ = err too_short

-- A name longer than a length byte can say is cut.
abbrev pub domain_bytes : Bytes → Bytes
domain_bytes host = min (length host) 255 ∷ take (min (length host) 255) host

unfoldable pub address_bytes : Bytes → Bytes
address_bytes host = elim (Ipv4.parse host) [
  | some ip ↦ 1 ∷ Ipv4.octets ip
  | none ↦ elim (Ipv6.parse host) [ some ip ↦ 4 ∷ Ipv6.octets ip | none ↦ 3 ∷ domain_bytes host ]
]

unfoldable pub wrap_socks_udp_reply : HostPort → Bytes → Bytes
wrap_socks_udp_reply t payload =
    0 ∷ 0 ∷ 0 ∷ (address_bytes t.host ++ (port_bytes t.port ++ payload))
