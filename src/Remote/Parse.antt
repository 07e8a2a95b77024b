-- ===== src/Remote/Parse.antt =====
-- src/common/remote.rs: `RemoteRequest::from_str` and the functions that read its address part.
pub mod Shape
pub mod RoundTrip
pub mod Short
use rusnel.Base.{
  ℕ, Bool, true, false, ◌&&◌, ◌||◌, Option, none, some, List, [], ◌∷◌, Bytes, equal, if◌then◌else◌,
  Result, ok, err, ok_or, ◌>>=◌,
}
use rusnel.Text.{text}
use rusnel.Net.Number.{parse_u16}
use rusnel.Net.Ipv4
use rusnel.Net.Addr.{IpAddr, v4, SocketAddr, parse_ip_addr}
use rusnel.Remote.{Protocol, Direction, forward, reverse, HostPort, RemoteKind, RemoteRequest}
use rusnel.Remote.Tokens.{
  Part, local_host, local_port, remote_port, RemoteError, invalid, missing_parts, unexpected_parts,
  stdio_reversed, stdio_with_socks, stdio_without_target, stdio_parts, parse_direction,
  parse_protocol, split_addr_tokens, unbracket,
}

abbrev pub socks_keyword : Bytes
socks_keyword = text "socks"

abbrev pub stdio_keyword : Bytes
stdio_keyword = text "stdio"

abbrev pub any_v4_text : Bytes
any_v4_text = text "0.0.0.0"

abbrev pub stdio_default_remote_host : Bytes
stdio_default_remote_host = text "127.0.0.1"

abbrev pub socks_default_port : ℕ
socks_default_port = 1080

-- The constants that `any_v4` and `socks_default_local` parse to.
abbrev pub any_v4 : IpAddr
any_v4 = v4 Ipv4.unspecified

abbrev pub socks_default_local : IpAddr
socks_default_local = v4 Ipv4.localhost

abbrev pub socket_addr : IpAddr → ℕ → SocketAddr
socket_addr ip port = record { ip = ip; port = port }

abbrev pub host_port : Bytes → ℕ → HostPort
host_port host port = record { host = host; port = port }

unfoldable pub parse_ip : Bytes → Part → Result RemoteError IpAddr
parse_ip s what = ok_or (parse_ip_addr (unbracket s)) (invalid what)

unfoldable pub parse_port : Bytes → Part → Result RemoteError ℕ
parse_port s what = ok_or (parse_u16 s) (invalid what)

-- The protocol is TCP unless a suffix says otherwise.
unfoldable pub make_host_port_kind : SocketAddr → HostPort → Option Protocol → RemoteKind
make_host_port_kind addr remote none = RemoteKind.tcp addr remote
make_host_port_kind addr remote (some Protocol.tcp) = RemoteKind.tcp addr remote
make_host_port_kind addr remote (some Protocol.udp) = RemoteKind.udp addr remote

abbrev pub Kind : Type 0
Kind = Result RemoteError RemoteKind

unfoldable pub parse_one_token : Bytes → Option Protocol → Kind
parse_one_token token protocol =
    if equal token socks_keyword
    then ok (RemoteKind.socks5 (socket_addr socks_default_local socks_default_port))
    else do
      port ← parse_port token remote_port
      ok (make_host_port_kind (socket_addr any_v4 port) (host_port any_v4_text port) protocol)

unfoldable pub parse_two_tokens : Bytes → Bytes → Option Protocol → Kind
parse_two_tokens t0 t1 protocol =
    if equal t1 socks_keyword
    then (do
      port ← parse_port t0 remote_port
      ok (RemoteKind.socks5 (socket_addr socks_default_local port)))
    else do
      port ← parse_port t1 remote_port
      ok (make_host_port_kind (socket_addr any_v4 port) (host_port (unbracket t0) port) protocol)

unfoldable pub parse_three_tokens : Bytes → Bytes → Bytes → Option Protocol → Kind
parse_three_tokens t0 t1 t2 protocol =
    if equal t2 socks_keyword
    then (do
      ip ← parse_ip t0 local_host
      port ← parse_port t1 local_port
      ok (RemoteKind.socks5 (socket_addr ip port)))
    else do
      bound ← parse_port t0 local_port
      port ← parse_port t2 remote_port
      ok (make_host_port_kind (socket_addr any_v4 bound) (host_port (unbracket t1) port) protocol)

unfoldable pub parse_four_tokens : Bytes → Bytes → Bytes → Bytes → Option Protocol → Kind
parse_four_tokens t0 t1 t2 t3 protocol = do
  ip ← parse_ip t0 local_host
  bound ← parse_port t1 local_port
  port ← parse_port t3 remote_port
  ok (make_host_port_kind (socket_addr ip bound) (host_port (unbracket t2) port) protocol)

unfoldable pub tokens_to_kind : List Bytes → Option Protocol → Kind
tokens_to_kind [] protocol = err missing_parts
tokens_to_kind (t0 ∷ []) protocol = parse_one_token t0 protocol
tokens_to_kind (t0 ∷ t1 ∷ []) protocol = parse_two_tokens t0 t1 protocol
tokens_to_kind (t0 ∷ t1 ∷ t2 ∷ []) protocol = parse_three_tokens t0 t1 t2 protocol
tokens_to_kind (t0 ∷ t1 ∷ t2 ∷ t3 ∷ []) protocol = parse_four_tokens t0 t1 t2 t3 protocol
tokens_to_kind (t0 ∷ t1 ∷ t2 ∷ t3 ∷ t4 ∷ ts) protocol = err unexpected_parts

-- `tokens.contains(&SOCKS_KEYWORD)`
abbrev pub mentions_socks : List Bytes → Bool
mentions_socks [] = false
mentions_socks (t ∷ ts) = equal t socks_keyword || mentions_socks ts

abbrev pub stdio_local : SocketAddr
stdio_local = socket_addr any_v4 0

unfoldable pub stdio_shape : List Bytes → Option Protocol → Kind
stdio_shape [] protocol = err stdio_without_target
stdio_shape (t0 ∷ []) protocol = do
  port ← parse_port t0 remote_port
  ok (make_host_port_kind stdio_local (host_port stdio_default_remote_host port) protocol)
stdio_shape (t0 ∷ t1 ∷ []) protocol = do
  port ← parse_port t1 remote_port
  ok (make_host_port_kind stdio_local (host_port (unbracket t0) port) protocol)
stdio_shape (t0 ∷ t1 ∷ t2 ∷ ts) protocol = err stdio_parts

unfoldable pub tokens_to_stdio_kind : List Bytes → Option Protocol → Kind
tokens_to_stdio_kind tokens protocol =
    if mentions_socks tokens then err stdio_with_socks else stdio_shape tokens protocol

-- Whether the first token is `stdio`, and the tokens behind it.
unfoldable pub strip_stdio : Direction → List Bytes → Result RemoteError (Bool × List Bytes)
strip_stdio direction [] = ok (false, [])
strip_stdio reverse (t ∷ ts) =
    if equal t stdio_keyword then err stdio_reversed else ok (false, t ∷ ts)
strip_stdio forward (t ∷ ts) = if equal t stdio_keyword then ok (true, ts) else ok (false, t ∷ ts)

unfoldable pub from_str : Bytes → Result RemoteError RemoteRequest
from_str input = do
  (direction, after_dir) ← parse_direction input
  (protocol_hint, body) ← parse_protocol after_dir
  tokens ← split_addr_tokens body
  (stdio, addr_tokens) ← strip_stdio direction tokens
  kind ←
      if stdio
      then tokens_to_stdio_kind addr_tokens protocol_hint
      else tokens_to_kind addr_tokens protocol_hint
  ok (record { direction = direction; kind = kind; stdio = stdio })
