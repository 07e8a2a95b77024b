-- ===== src/Proxy.antt =====
-- The outbound SOCKS5 proxy of the client: src/common/proxy.rs.
pub mod Datagrams
pub mod Url
pub mod Handshake
pub mod Socket
use rusnel.Base.{
  ℕ, ◌+◌, ◌≡◌, arith, Bool, true, false, ◌&&◌, Option, none, some, List, [], ◌∷◌, ◌++◌, Bytes,
  length, ◌==◌, equal, if◌then◌else◌, Result, ok, err, ◌>>=◌, ok_or,
}
use rusnel.Text.{text, strip_prefix, contains, split_once, rsplit_once}
use rusnel.Net.Ipv4
use rusnel.Net.Ipv6
use rusnel.Net.Addr.{IpAddr, v4, v6, SocketAddr, port_bytes, port_of}
use rusnel.Wire.{read_exact}

-- `addr` and the user name with the password.
pub record ProxyConfig : Type 0 where
  pub addr : Bytes
  pub auth : Option (Bytes × Bytes)

-- `Display`: the credentials are not shown.
unfoldable pub show_proxy : ProxyConfig → Bytes
show_proxy p = elim p.auth [
  | some _ ↦ text "socks5://<auth>@" ++ p.addr
  | none ↦ text "socks5://" ++ p.addr
]

pub data ProxyError : Type 0 where
  unsupported_scheme malformed_auth empty_address missing_port : ProxyError

-- `s.contains("://")`
abbrev contains_scheme : Bytes → Bool
contains_scheme [] = false
contains_scheme (b ∷ s) =
    let later = contains_scheme s in
    elim (strip_prefix (text "://") (b ∷ s)) [ some _ ↦ true | none ↦ later ]

unfoldable pub after_scheme : Bytes → Result ProxyError Bytes
after_scheme s = elim (strip_prefix (text "socks5://") s) [
  | some rest ↦ ok rest
  | none ↦ elim (strip_prefix (text "socks://") s) [
    | some rest ↦ ok rest
    | none ↦ if contains_scheme s then err unsupported_scheme else ok s
  ]
]

unfoldable pub split_auth : Bytes → Result ProxyError (Option (Bytes × Bytes) × Bytes)
split_auth s = elim (rsplit_once b'@' s) [
  | none ↦ ok (none, s)
  | some (creds, addr) ↦ elim (split_once b':' creds) [
    | none ↦ err malformed_auth
    | some (user, pass) ↦ ok (some (user, pass), addr)
  ]
]

unfoldable pub parse_proxy : Bytes → Result ProxyError ProxyConfig
parse_proxy s = do
  rest ← after_scheme s
  (auth, addr) ← split_auth rest
  (if equal addr []
      then err empty_address
      else if contains b':' addr
      then ok (record { addr = addr; auth = auth })
      else err missing_port)

abbrev pub ip_bytes : IpAddr → Bytes
ip_bytes (v4 ip) = 1 ∷ Ipv4.octets ip
ip_bytes (v6 ip) = 4 ∷ Ipv6.octets ip

unfoldable pub wrap_socks5_udp : SocketAddr → Bytes → Bytes
wrap_socks5_udp target payload =
    0 ∷ 0 ∷ 0 ∷ (ip_bytes target.ip ++ (port_bytes target.port ++ payload))

abbrev pub Unwrapped : Type 0
Unwrapped = Option (SocketAddr × Bytes)

unfoldable pub unwrap_v4 : Bytes → Unwrapped
unwrap_v4 (a ∷ b ∷ c ∷ d ∷ hi ∷ lo ∷ payload) =
    some (record { ip = v4 (Ipv4.new a b c d); port = port_of hi lo }, payload)
unwrap_v4 _ = none

abbrev unwrap_v6_behind : Option (Bytes × Bytes) → Unwrapped
unwrap_v6_behind (some (octets, hi ∷ lo ∷ payload)) = elim (Ipv6.from_octets octets) [
  | some ip ↦ some (record { ip = v6 ip; port = port_of hi lo }, payload)
  | none ↦ none
]
unwrap_v6_behind _ = none

unfoldable pub unwrap_v6 : Bytes → Unwrapped
unwrap_v6 s = unwrap_v6_behind (read_exact 16 s)

-- The source and the payload, which the code moves to the front of its buffer.
unfoldable pub unwrap_socks5_udp_in_place : Bytes → Unwrapped
unwrap_socks5_udp_in_place (r0 ∷ r1 ∷ frag ∷ atyp ∷ s) =
    if r0 == 0 && r1 == 0 && frag == 0
    then if atyp == 1 then unwrap_v4 s else if atyp == 4 then unwrap_v6 s else none
    else none
unwrap_socks5_udp_in_place _ = none
