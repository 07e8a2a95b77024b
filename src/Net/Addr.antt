-- ===== src/Net/Addr.antt =====
-- `IpAddr` and `SocketAddr`. The flow label and scope of an IPv6 socket address play no part.
use rusnel.Base.{ℕ, ◌+◌, ◌*◌, ◌/◌, ◌%◌, ◌<◌, Option, none, some, [], ◌∷◌, ◌++◌, Bytes}
use rusnel.Net.Number.{show_uint}
use rusnel.Net.Ipv4
use rusnel.Net.Ipv4.{Ipv4, IsIpv4}
use rusnel.Net.Ipv6
use rusnel.Net.Ipv6.{Ipv6, IsIpv6}

pub data IpAddr : Type 0 where
  v4 : Ipv4 → IpAddr
  v6 : Ipv6 → IpAddr

pub record SocketAddr : Type 0 where
  pub ip : IpAddr
  pub port : ℕ

abbrev pub IsIpAddr : IpAddr → Type 0
IsIpAddr (v4 ip) = IsIpv4 ip
IsIpAddr (v6 ip) = IsIpv6 ip

pub record IsSocketAddr (a : SocketAddr) : Type 0 where
  pub ip_ok : IsIpAddr a.ip
  pub port_lt : a.port < 65536

-- `IpAddr::from_str`: an IPv4 address is tried first.
unfoldable pub parse_ip_addr : Bytes → Option IpAddr
parse_ip_addr s = elim (Ipv4.parse s) [
  | some ip ↦ some (v4 ip)
  | none ↦ elim (Ipv6.parse s) [ some ip ↦ some (v6 ip) | none ↦ none ]
]

-- `u16::to_be_bytes` and `u16::from_be_bytes`
abbrev pub port_bytes : ℕ → Bytes
port_bytes p = (p / 256) ∷ (p % 256) ∷ []

abbrev pub port_of : ℕ → ℕ → ℕ
port_of hi lo = hi * 256 + lo

-- `Display`: `ip:port`, the address in brackets if it is an IPv6 address.
unfoldable pub show_socket_addr : SocketAddr → Bytes
show_socket_addr a = elim a.ip [
  | v4 ip ↦ Ipv4.show ip ++ (b':' ∷ show_uint a.port)
  | v6 ip ↦ b'[' ∷ (Ipv6.show ip ++ (b']' ∷ b':' ∷ show_uint a.port))
]
