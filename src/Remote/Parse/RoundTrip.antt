-- ===== src/Remote/Parse/RoundTrip.antt =====
-- The full form of a declaration.
use rusnel.Base.{
  ℕ, ◌+◌, ◌<◌, ◌≡◌, ◌≢◌, refl, arith, false, inl, inr, some, List, [], ◌∷◌, ◌++◌, Bytes,
  if◌then◌else◌, Bool-cases, ok,
}
use rusnel.Text.{contains}
use rusnel.Net.Number.{show_uint}
use rusnel.Net.Number.Decimal.{parse_uint-show_uint, contains-show_uint, show_uint_cons}
use rusnel.Net.Ipv4
use rusnel.Net.Ipv4.{Ipv4, IsIpv4}
use rusnel.Net.Ipv4.RoundTrip.{parse-show, contains-show}
use rusnel.Net.Addr.{v4, SocketAddr, parse_ip_addr}
use rusnel.Remote.{Protocol, Direction, forward, reverse, HostPort, RemoteKind, RemoteRequest}
use rusnel.Remote.Tokens.{Part, parse_direction, unbracket, local_host, local_port, remote_port}
use rusnel.Remote.Tokens.Grammar.{
  join, bracketed, starts_with_bracket, IsToken, plain, in_brackets, IsTokens, last, more,
}
use rusnel.Remote.Tokens.Split.{split_addr_tokens-join}
use rusnel.Remote.Tokens.Suffix.{
  direction_prefix, protocol_suffix, parse_direction-prefix, parse_protocol-suffix, unbracket-plain,
  unbracket-bracketed,
}
use rusnel.Remote.Parse.{
  parse_ip, parse_port, make_host_port_kind, tokens_to_kind, parse_four_tokens, strip_stdio,
  from_str, socket_addr,
}

-- A host as a token: a text with a `:` in it stands in brackets.
abbrev pub host_token : Bytes → Bytes
host_token host = if contains b':' host then bracketed host else host

-- A host that can stand in a spec: no `]`, and no bracket in front.
pub record IsHost (host : Bytes) : Type 0 where
  pub no_bracket : starts_with_bracket host ≡ false
  pub no_close : contains b']' host ≡ false

front_free : (t : Bytes) → contains b'[' t ≡ false → starts_with_bracket t ≡ false
front_free [] h = refl
front_free (c ∷ cs) h = ground arith

pub host_token-IsToken : (host : Bytes) → IsHost host → IsToken (host_token host)
host_token-IsToken host h = elim (Bool-cases (contains b':' host)) [
  | inl colon ↦ rw colon (in_brackets host h.no_close)
  | inr free ↦ rw free (plain host free h.no_bracket)
]

pub unbracket-host_token : (host : Bytes) → IsHost host → unbracket (host_token host) ≡ host
unbracket-host_token host h = elim (Bool-cases (contains b':' host)) [
  | inl colon ↦ rw colon (unbracket-bracketed host)
  | inr free ↦ rw free (unbracket-plain host h.no_bracket)
]

-- A declaration as the tokens of its full form.
abbrev pub full_tokens : Ipv4 → ℕ → HostPort → List Bytes
full_tokens ip bound remote =
    Ipv4.show ip ∷ show_uint bound ∷ host_token remote.host ∷ show_uint remote.port ∷ []

abbrev pub spec : Direction → Protocol → List Bytes → Bytes
spec d p ts = direction_prefix d (join ts ++ b'/' ∷ protocol_suffix p)

pub show_uint-IsToken : (n : ℕ) → IsToken (show_uint n)
show_uint-IsToken n =
    plain (show_uint n) (contains-show_uint b':' n (omega arith))
      (front_free (show_uint n) (contains-show_uint b'[' n (omega arith)))

pub show-IsToken : (ip : Ipv4) → IsIpv4 ip → IsToken (Ipv4.show ip)
show-IsToken ip h =
    plain (Ipv4.show ip) (contains-show b':' ip (omega arith))
      (front_free (Ipv4.show ip) (contains-show b'[' ip (omega arith)))

-- A text whose first byte is a digit.
abbrev pub DigitFirst : Bytes → Type 0
DigitFirst s = (d : ℕ) × (tail : Bytes) × (s ≡ (b'0' + d) ∷ tail) × (d < 10)

DigitFirst-append : (s t : Bytes) → DigitFirst s → DigitFirst (s ++ t)
DigitFirst-append s t (d, tail, e, lt) = (d, tail ++ t, rw e, lt)

DigitFirst-join : (t : Bytes) (ts : List Bytes) → DigitFirst t → DigitFirst (join (t ∷ ts))
DigitFirst-join t [] h = h
DigitFirst-join t (u ∷ us) h = DigitFirst-append t (b':' ∷ join (u ∷ us)) h

pub DigitFirst-show : (ip : Ipv4) → DigitFirst (Ipv4.show ip)
unfolding Ipv4.show
DigitFirst-show ip = DigitFirst-append (show_uint ip.a) _ (show_uint_cons ip.a)

pub DigitFirst-ne_nil : {s : Bytes} → DigitFirst s → s ≢ []
DigitFirst-ne_nil (d, tail, e, lt) z = cc

strip_stdio-DigitFirst :
    (d : Direction) (t : Bytes) (ts : List Bytes)
    → DigitFirst t
    → strip_stdio d (t ∷ ts) ≡ ok (false, t ∷ ts)
unfolding strip_stdio
strip_stdio-DigitFirst forward t ts (d, tail, e, lt) = rw e (ground arith)
strip_stdio-DigitFirst reverse t ts (d, tail, e, lt) = rw e (ground arith)

parse_direction-DigitFirst :
    (d : Direction) (s : Bytes) → DigitFirst s → parse_direction (direction_prefix d s) ≡ ok (d, s)
parse_direction-DigitFirst d s (x, tail, e, lt) =
    rw e (parse_direction-prefix d (b'0' + x) tail (omega arith))

abbrev pub listener : Direction → RemoteKind → RemoteRequest
listener d k = record { direction = d; kind = k; stdio = false }

-- On a text that starts with a digit and names a protocol, only the tokens are left to read.
pub from_str-spec :
    (d : Direction) (p : Protocol) (t : Bytes) (ts : List Bytes) (k : RemoteKind)
    → DigitFirst t
    → IsTokens (t ∷ ts)
    → tokens_to_kind (t ∷ ts) (some p) ≡ ok k
    → from_str (spec d p (t ∷ ts)) ≡ ok (listener d k)
unfolding from_str
from_str-spec d p t ts k first tokens read =
    let body = join (t ∷ ts) in
    let first' = DigitFirst-append body (b'/' ∷ protocol_suffix p) (DigitFirst-join t ts first) in
    rw (
      parse_direction-DigitFirst d (body ++ b'/' ∷ protocol_suffix p) first',
      parse_protocol-suffix p body,
      split_addr_tokens-join tokens,
      strip_stdio-DigitFirst d t ts first,
      read,
    )

abbrev pub kind_of : Protocol → SocketAddr → HostPort → RemoteKind
kind_of Protocol.tcp = RemoteKind.tcp
kind_of Protocol.udp = RemoteKind.udp

pub make_host_port_kind_lem :
    (p : Protocol) (addr : SocketAddr) (remote : HostPort)
    → make_host_port_kind addr remote (some p) ≡ kind_of p addr remote
unfolding make_host_port_kind
make_host_port_kind_lem Protocol.tcp addr remote = refl
make_host_port_kind_lem Protocol.udp addr remote = refl

pub parse_port-show_uint : (n : ℕ) (what : Part) → n < 65536 → parse_port (show_uint n) what ≡ ok n
unfolding parse_port
parse_port-show_uint n what h = rw (parse_uint-show_uint 65535 n (omega arith) (omega arith))

parse_ip_addr-show : (ip : Ipv4) → IsIpv4 ip → parse_ip_addr (Ipv4.show ip) ≡ some (v4 ip)
unfolding parse_ip_addr
parse_ip_addr-show ip h = ground (arith, parse-show ip h)

pub parse_ip-show :
    (ip : Ipv4) (what : Part) → IsIpv4 ip → parse_ip (Ipv4.show ip) what ≡ ok (v4 ip)
unfolding parse_ip
parse_ip-show ip what h = rw (
  unbracket-plain (Ipv4.show ip) (front_free (Ipv4.show ip) (contains-show b'[' ip (omega arith))),
  parse_ip_addr-show ip h,
)

-- The full form `[R:]ip:port:host:port/proto` gives back each of its parts, for an IPv4 address,
-- ports below 65536 and a host with no `]` in it and no `[` in front.
pub from_str-full :
    (d : Direction) (p : Protocol) (ip : Ipv4) (bound : ℕ) (remote : HostPort)
    → IsIpv4 ip
    → bound < 65536
    → remote.port < 65536
    → IsHost remote.host
    → from_str (spec d p (full_tokens ip bound remote))
      ≡ ok (listener d (kind_of p (socket_addr (v4 ip) bound) remote))
unfolding tokens_to_kind parse_four_tokens
from_str-full d p ip bound remote v h k host =
    from_str-spec d p (Ipv4.show ip) _ _ (DigitFirst-show ip)
      (more (show-IsToken ip v) (
        more (show_uint-IsToken bound) (
          more (host_token-IsToken remote.host host) (
            last (show_uint-IsToken remote.port)
              (DigitFirst-ne_nil (show_uint_cons remote.port))))))
      (rw (
        parse_ip-show ip local_host v,
        parse_port-show_uint bound local_port h,
        parse_port-show_uint remote.port remote_port k,
        unbracket-host_token remote.host host,
        make_host_port_kind_lem p (socket_addr (v4 ip) bound) remote,
      ))
