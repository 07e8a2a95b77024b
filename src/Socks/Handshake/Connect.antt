-- ===== src/Socks/Handshake/Connect.antt =====
-- What a SOCKS client that keeps to the protocol is told, and what is made of its request.
use rusnel.Base.{
  ℕ, ◌<◌, ◌≤◌, ◌≡◌, refl, arith, [], ◌∷◌, ◌++◌, Bytes, length, All, ◌==◌, if◌then◌else◌, ok, err,
  ap, ◌∙◌, min, take_all,
}
use rusnel.Net.Ipv4
use rusnel.Net.Ipv4.{Ipv4, IsIpv4}
use rusnel.Net.Ipv6
use rusnel.Net.Ipv6.{Ipv6, IsIpv6}
use rusnel.Net.Addr.{port_bytes}
use rusnel.Net.Utf8.{from_utf8_lossy-ascii}
use rusnel.Remote.{HostPort}
use rusnel.Wire.Dialogue.{Talk, continue_with, heard, read_or-append}
use rusnel.Socks.{domain_bytes, address_bytes}
use rusnel.Socks.Udp.{IsSocksHost, IsAddress, of_v4, of_v6, of_name, address_bytes-IsAddress}
use rusnel.Socks.Handshake.{
  HandshakeError, closed, bad_command, SocksRequest, connect, udp_associate, read, read_v4, read_v6,
  read_domain, read_socks_addr, command, after_greeting, socks_handshake,
}

read-append : (a s : Bytes) → read (length a) (a ++ s) ≡ heard a s
unfolding read
read-append a s = read_or-append closed a s

read_v4-octets :
    (ip : Ipv4) (p : ℕ) (s : Bytes)
    → read_v4 (Ipv4.octets ip ++ (port_bytes p ++ s))
      ≡ heard (record { host = Ipv4.show ip; port = p }) s
unfolding read_v4
read_v4-octets ip p s =
    rw (read-append (Ipv4.octets ip) (port_bytes p ++ s), read-append (port_bytes p) s)
      (ground arith)

read_v6-octets :
    (ip : Ipv6) (p : ℕ) (s : Bytes)
    → read_v6 (Ipv6.octets ip ++ (port_bytes p ++ s))
      ≡ heard (record { host = Ipv6.show ip; port = p }) s
unfolding read_v6
read_v6-octets ip p s =
    rw (read-append (Ipv6.octets ip) (port_bytes p ++ s), read-append (port_bytes p) s)
      (ground arith)

read_domain-bytes :
    (host : Bytes) (p : ℕ) (s : Bytes)
    → All (λ b. b < 128) host
    → length host ≤ 255
    → read_domain (domain_bytes host ++ (port_bytes p ++ s))
      ≡ heard (record { host = host; port = p }) s
unfolding read_domain
read_domain-bytes host p s ascii short =
    let whole : min (length host) 255 ≡ length host = omega arith in
    rw (whole, take_all (length host) host (omega arith))
      (rw
        (
          read-append (length host ∷ []) (host ++ (port_bytes p ++ s)),
          read-append host (port_bytes p ++ s),
          read-append (port_bytes p) s,
          from_utf8_lossy-ascii host ascii,
        )
        (ground arith))

-- The kind of the address is in the last byte of the request's head.
read_socks_addr-address :
    (host address : Bytes) (p : ℕ) (s : Bytes)
    → IsAddress host address
    → (atyp : ℕ) × (tail : Bytes) × (address ≡ atyp ∷ tail)
      × (read_socks_addr atyp (tail ++ (port_bytes p ++ s))
          ≡ heard (record { host = host; port = p }) s)
unfolding read_socks_addr
read_socks_addr-address host _ p s (of_v4 ip shown) = (
  1,
  Ipv4.octets ip,
  refl,
  read_v4-octets ip p s ∙ ap (λ h. heard (record { host = h; port = p }) s) shown,
)
read_socks_addr-address host _ p s (of_v6 ip shown) = (
  4,
  Ipv6.octets ip,
  refl,
  read_v6-octets ip p s ∙ ap (λ h. heard (record { host = h; port = p }) s) shown,
)
read_socks_addr-address host _ p s (of_name ascii short) =
    (3, domain_bytes host, refl, read_domain-bytes host p s ascii short)

-- The greeting and the request of a client, and what it sends behind them.
abbrev pub request_bytes : Bytes → ℕ → HostPort → Bytes → Bytes
request_bytes methods cmd target s =
    5
    ∷ length methods
    ∷ (methods ++ (5 ∷ cmd ∷ 0 ∷ (address_bytes target.host ++ (port_bytes target.port ++ s))))

-- What is written and returned for command `cmd`.
abbrev pub outcome : ℕ → HostPort → Bytes → Talk HandshakeError SocksRequest
outcome cmd target s =
    if cmd == 1
    then record { written = 5 ∷ 0 ∷ []; result = ok (connect target, s) }
    else if cmd == 3
    then record { written = 5 ∷ 0 ∷ []; result = ok (udp_associate, s) }
    else record { written = 5 ∷ 0 ∷ 5 ∷ 7 ∷ []; result = err (bad_command cmd) }

command-outcome :
    (cmd : ℕ) (target : HostPort) (s : Bytes)
    → continue_with (5 ∷ 0 ∷ []) (ok (target, s)) (command cmd) ≡ outcome cmd target s
unfolding command
command-outcome cmd target s = ground arith

-- A client that greets and sends a request for a target whose host the protocol can carry is
-- answered by `no authentication`, whatever methods it offers; CONNECT gives the target that it
-- names, UDP ASSOCIATE is accepted, and any other command is refused by the two bytes 5 and 7, which
-- are not the whole reply that RFC 1928 has for `command not supported`.
-- What follows the request is left on the stream.
pub socks_handshake-request_bytes :
    (methods : Bytes) (cmd : ℕ) (target : HostPort) (s : Bytes)
    → IsSocksHost target.host
    → socks_handshake (request_bytes methods cmd target s) ≡ outcome cmd target s
unfolding socks_handshake after_greeting
socks_handshake-request_bytes methods cmd target s h =
    let (atyp, tail, e, q) =
      read_socks_addr-address target.host (address_bytes target.host) target.port s
        (address_bytes-IsAddress target.host h) in
    let behind = tail ++ (port_bytes target.port ++ s) in
    rw
      (
        e,
        read-append (5 ∷ length methods ∷ []) (methods ++ (5 ∷ cmd ∷ 0 ∷ atyp ∷ behind)),
        read-append methods (5 ∷ cmd ∷ 0 ∷ atyp ∷ behind),
        read-append (5 ∷ cmd ∷ 0 ∷ atyp ∷ []) behind,
        q,
      )
      (command-outcome cmd target s)
