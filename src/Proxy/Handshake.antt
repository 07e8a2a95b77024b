-- ===== src/Proxy/Handshake.antt =====
-- The handshake with the outbound proxy: `establish_socks5_udp_associate` and
-- `socks5_userpass_auth` of src/common/proxy.rs. The control connection is up; `peer` is the address
-- of its far end.
pub mod Relay
pub mod Secret
use rusnel.Base.{
  ℕ, Bool, true, false, ◌||◌, Option, none, some, List, [], ◌∷◌, ◌++◌, Bytes, length, ltb, ◌==◌,
  equal, if◌then◌else◌,
}
use rusnel.Net.Ipv4
use rusnel.Net.Ipv6
use rusnel.Net.Addr.{IpAddr, v4, v6, SocketAddr, port_of}
use rusnel.Wire.Dialogue.{Dialogue, ◌>>=◌, ◌>>◌, give, fail, say, read_or, byte_at}

pub data HandshakeError : Type 0 where
  closed no_credentials no_method too_long no_peer : HandshakeError
  bad_version unsupported_method bad_auth_version rejected bad_reply_version refused bad_atyp :
      ℕ → HandshakeError

unfoldable pub read : ℕ → Dialogue HandshakeError Bytes
read = read_or closed

abbrev pub greeting : Option (Bytes × Bytes) → Bytes
greeting (some _) = 5 ∷ 2 ∷ 0 ∷ 2 ∷ []
greeting none = 5 ∷ 1 ∷ 0 ∷ []

abbrev pub userpass_request : Bytes → Bytes → Bytes
userpass_request user pass = 1 ∷ length user ∷ (user ++ (length pass ∷ pass))

unfoldable pub userpass_reply : Dialogue HandshakeError (Unit {0})
userpass_reply = do
  reply ← read 2
  (if byte_at 0 reply == 1
      then (if byte_at 1 reply == 0 then give tt else fail (rejected (byte_at 1 reply)))
      else fail (bad_auth_version (byte_at 0 reply)))

unfoldable pub socks5_userpass_auth : Bytes → Bytes → Dialogue HandshakeError (Unit {0})
socks5_userpass_auth user pass =
    if ltb 255 (length user) || ltb 255 (length pass)
    then fail too_long
    else say (userpass_request user pass) >> userpass_reply

abbrev pub with_credentials : Option (Bytes × Bytes) → Dialogue HandshakeError (Unit {0})
with_credentials none = fail no_credentials
with_credentials (some (user, pass)) = socks5_userpass_auth user pass

-- The method that the proxy selects.
unfoldable pub authenticate : Option (Bytes × Bytes) → ℕ → Dialogue HandshakeError (Unit {0})
authenticate auth method =
    if method == 0
    then give tt
    else if method == 2
    then with_credentials auth
    else if method == 255
    then fail no_method
    else fail (unsupported_method method)

abbrev pub associate_request : Bytes
associate_request = 5 ∷ 3 ∷ 0 ∷ 1 ∷ 0 ∷ 0 ∷ 0 ∷ 0 ∷ 0 ∷ 0 ∷ []

abbrev pub peer_ip : Option IpAddr → Dialogue HandshakeError IpAddr
peer_ip none = fail no_peer
peer_ip (some ip) = give ip

-- Sixteen bytes are always an address.
abbrev pub v6_of : Bytes → Dialogue HandshakeError IpAddr
v6_of octets = elim (Ipv6.from_octets octets) [ some ip ↦ give (v6 ip) | none ↦ fail closed ]

-- BND.ADDR: the far end of the connection stands in for a domain.
unfoldable pub read_bound : Option IpAddr → ℕ → Dialogue HandshakeError IpAddr
read_bound peer atyp =
    if atyp == 1
    then (read 4 >>= λ o.
        give (v4 (Ipv4.new (byte_at 0 o) (byte_at 1 o) (byte_at 2 o) (byte_at 3 o))))
    else if atyp == 4
    then (read 16 >>= v6_of)
    else if atyp == 3
    then (read 1 >>= λ len. read (byte_at 0 len) >>= λ name. peer_ip peer)
    else fail (bad_atyp atyp)

-- `IpAddr::is_unspecified`
abbrev pub is_unspecified : IpAddr → Bool
is_unspecified (v4 ip) = equal (Ipv4.octets ip) (0 ∷ 0 ∷ 0 ∷ 0 ∷ [])
is_unspecified (v6 ip) = equal (Ipv6.segments ip) (0 ∷ 0 ∷ 0 ∷ 0 ∷ 0 ∷ 0 ∷ 0 ∷ 0 ∷ [])

abbrev pub or_peer : Option IpAddr → IpAddr → Dialogue HandshakeError IpAddr
or_peer peer bound = if is_unspecified bound then peer_ip peer else give bound

-- The reply to UDP ASSOCIATE: the relay's address.
unfoldable pub associate_reply : Option IpAddr → Dialogue HandshakeError SocketAddr
associate_reply peer = do
  head ← read 4
  (if byte_at 0 head == 5
      then (if byte_at 1 head == 0
          then (read_bound peer (byte_at 3 head) >>= λ bound. read 2 >>= λ port.
              or_peer peer bound >>= λ ip.
              give (record { ip = ip; port = port_of (byte_at 0 port) (byte_at 1 port) }))
          else fail (refused (byte_at 1 head)))
      else fail (bad_reply_version (byte_at 0 head)))

unfoldable pub establish_socks5_udp_associate :
    Option IpAddr → Option (Bytes × Bytes) → Dialogue HandshakeError SocketAddr
establish_socks5_udp_associate peer auth = do
  say (greeting auth)
  method_reply ← read 2
  (if byte_at 0 method_reply == 5
      then (authenticate auth (byte_at 1 method_reply)
          >> (say associate_request >> associate_reply peer))
      else fail (bad_version (byte_at 0 method_reply)))
