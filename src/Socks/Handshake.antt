-- ===== src/Socks/Handshake.antt =====
-- The handshake on the control connection: `socks_handshake` and `read_socks_addr` of
-- src/common/socks.rs.
pub mod Connect
use rusnel.Base.{
  ℕ, zero, suc, ◌+◌, ◌≡◌, arith, Bool, true, false, Option, none, some, List, [], ◌∷◌, ◌++◌, Bytes,
  length, ◌==◌, if◌then◌else◌, Result, ok, err,
}
use rusnel.Net.Ipv4
use rusnel.Net.Ipv6
use rusnel.Net.Addr.{IpAddr, v4, v6, SocketAddr, port_bytes, port_of}
use rusnel.Net.Utf8.{from_utf8_lossy}
use rusnel.Remote.{HostPort}
use rusnel.Wire.Dialogue.{Talk, Dialogue, ◌>>=◌, ◌>>◌, give, fail, say, read_or, byte_at}

pub data HandshakeError : Type 0 where
  closed : HandshakeError
  bad_version bad_command bad_atyp : ℕ → HandshakeError

pub data SocksRequest : Type 0 where
  connect : HostPort → SocksRequest
  udp_associate : SocksRequest

-- `read_exact` on the connection.
unfoldable pub read : ℕ → Dialogue HandshakeError Bytes
read = read_or closed

abbrev pub port_in : Bytes → ℕ
port_in buf = port_of (byte_at 0 buf) (byte_at 1 buf)

-- Sixteen bytes are always an address.
abbrev pub v6_host : Bytes → Bytes
v6_host addr = elim (Ipv6.from_octets addr) [ some ip ↦ Ipv6.show ip | none ↦ [] ]

unfoldable pub read_v4 : Dialogue HandshakeError HostPort
read_v4 = do
  addr ← read 4
  port ← read 2
  give (record {
    host = Ipv4.show (Ipv4.new (byte_at 0 addr) (byte_at 1 addr) (byte_at 2 addr) (byte_at 3 addr));
    port = port_in port;
  })

unfoldable pub read_domain : Dialogue HandshakeError HostPort
read_domain = do
  len ← read 1
  domain ← read (byte_at 0 len)
  port ← read 2
  give (record { host = from_utf8_lossy domain; port = port_in port })

unfoldable pub read_v6 : Dialogue HandshakeError HostPort
read_v6 = do
  addr ← read 16
  port ← read 2
  give (record { host = v6_host addr; port = port_in port })

unfoldable pub read_socks_addr : ℕ → Dialogue HandshakeError HostPort
read_socks_addr atyp =
    if atyp == 1
    then read_v4
    else if atyp == 3
    then read_domain
    else if atyp == 4
    then read_v6
    else say (5 ∷ 8 ∷ []) >> fail (bad_atyp atyp)

unfoldable pub command : ℕ → HostPort → Dialogue HandshakeError SocksRequest
command cmd target =
    if cmd == 1
    then give (connect target)
    else if cmd == 3
    then give udp_associate
    else say (5 ∷ 7 ∷ []) >> fail (bad_command cmd)

-- The methods are read and not looked at: no authentication is what the answer says.
unfoldable pub after_greeting : ℕ → Dialogue HandshakeError SocksRequest
after_greeting methods_len = do
  methods ← read methods_len
  say (5 ∷ 0 ∷ [])
  request ← read 4
  target ← read_socks_addr (byte_at 3 request)
  command (byte_at 1 request) target

unfoldable pub socks_handshake : Dialogue HandshakeError SocksRequest
socks_handshake = do
  greeting ← read 2
  if byte_at 0 greeting == 5
      then after_greeting (byte_at 1 greeting)
      else fail (bad_version (byte_at 0 greeting))

abbrev bound_bytes : IpAddr → Bytes
bound_bytes (v4 ip) = 1 ∷ Ipv4.octets ip
bound_bytes (v6 ip) = 4 ∷ Ipv6.octets ip

unfoldable pub write_socks_udp_associate_reply : SocketAddr → Bytes
write_socks_udp_associate_reply a = 5 ∷ 0 ∷ 0 ∷ (bound_bytes a.ip ++ port_bytes a.port)
