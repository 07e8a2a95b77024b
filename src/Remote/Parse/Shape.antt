-- ===== src/Remote/Parse/Shape.antt =====
-- What every accepted spec has in common, whatever it looks like.
use rusnel.Base.{
  ℕ, ◌+◌, ◌*◌, ◌≤◌, ◌<◌, ◌≡◌, refl, arith, Bool, true, false, inl, inr, Option, none, some, List,
  [], ◌∷◌, Bytes, equal, if◌then◌else◌, Option-cases, ok, ◌>>=◌, OnOk, OnOk-bind, OnOk-if,
  OnOk-elim,
}
use rusnel.Net.Number.{to_digit, digits_from, parse_uint, parse_u16, u16_max}
use rusnel.Net.Addr.{SocketAddr}
use rusnel.Remote.{
  Protocol, Direction, forward, reverse, HostPort, RemoteKind, RemoteRequest, kind_local,
  kind_is_socks,
}
use rusnel.Remote.Tokens.{
  Part, local_host, local_port, remote_port, parse_direction, parse_protocol, split_addr_tokens,
}
use rusnel.Remote.Parse.{
  parse_ip, parse_port, make_host_port_kind, parse_one_token, parse_two_tokens, parse_three_tokens,
  parse_four_tokens, tokens_to_kind, tokens_to_stdio_kind, stdio_shape, strip_stdio, from_str, Kind,
  stdio_local, mentions_socks, socks_keyword,
}

digits_from-le :
    (max acc : ℕ) (s : Bytes) {n : ℕ} → acc ≤ max → digits_from max acc s ≡ some n → n ≤ max
unfolding digits_from
digits_from-le max acc [] h e = ground arith
digits_from-le max acc (c ∷ cs) {n} h e = elim (Option-cases (to_digit 10 c)) [
  | inl x ↦ ground arith
  | inr (d, x) ↦ ground (arith, digits_from-le max (acc * 10 + d) cs {n = n})
]

parse_uint-le : (max : ℕ) (s : Bytes) {n : ℕ} → parse_uint max s ≡ some n → n ≤ max
unfolding parse_uint
parse_uint-le max [] e = cc
parse_uint-le max (c ∷ []) e = digits_from-le max 0 (c ∷ []) (omega arith) e
parse_uint-le max (c ∷ d ∷ cs) {n} e = ground (
  arith,
  digits_from-le max 0 (c ∷ d ∷ cs) {n = n} (omega arith),
  digits_from-le max 0 (d ∷ cs) {n = n} (omega arith),
)

parse_port-lt : (s : Bytes) (what : Part) {p : ℕ} → parse_port s what ≡ ok p → p < 65536
unfolding parse_port
parse_port-lt s what e = elim (Option-cases (parse_u16 s)) [
  | inl x ↦ ground arith
  | inr (n, x) ↦ ground (arith, parse_uint-le u16_max s x)
]

-- The ports of a declaration are `u16`s.
abbrev pub PortsFit : RemoteKind → Type 0
PortsFit (RemoteKind.tcp addr remote) = (addr.port < 65536) × (remote.port < 65536)
PortsFit (RemoteKind.udp addr remote) = (addr.port < 65536) × (remote.port < 65536)
PortsFit (RemoteKind.socks5 addr) = addr.port < 65536

make_host_port_kind-PortsFit :
    (addr : SocketAddr) (remote : HostPort) (p : Option Protocol)
    → addr.port < 65536
    → remote.port < 65536
    → PortsFit (make_host_port_kind addr remote p)
unfolding make_host_port_kind
make_host_port_kind-PortsFit addr remote none h k = (h, k)
make_host_port_kind-PortsFit addr remote (some Protocol.tcp) h k = (h, k)
make_host_port_kind-PortsFit addr remote (some Protocol.udp) h k = (h, k)

-- A port is read, and the rest uses that it is a `u16`.
with_port :
    (P : RemoteKind → Type 0) (s : Bytes) (what : Part) (f : ℕ → Kind)
    → ((p : ℕ) → p < 65536 → OnOk P (f p))
    → OnOk P (parse_port s what >>= f)
with_port P s what f h = OnOk-bind P (parse_port s what) f (λ p e. h p (parse_port-lt s what e))

tokens_to_kind-PortsFit :
    (ts : List Bytes) (p : Option Protocol) → OnOk PortsFit (tokens_to_kind ts p)
unfolding tokens_to_kind parse_one_token parse_two_tokens parse_three_tokens parse_four_tokens
tokens_to_kind-PortsFit [] p = tt
tokens_to_kind-PortsFit (t0 ∷ []) p =
    OnOk-if PortsFit (equal t0 socks_keyword) _ _ (omega arith)
      (with_port PortsFit t0 remote_port _ λ n h. make_host_port_kind-PortsFit _ _ p h h)
tokens_to_kind-PortsFit (t0 ∷ t1 ∷ []) p =
    OnOk-if PortsFit (equal t1 socks_keyword) _ _ (with_port PortsFit t0 remote_port _ λ n h. h)
      (with_port PortsFit t1 remote_port _ λ n h. make_host_port_kind-PortsFit _ _ p h h)
tokens_to_kind-PortsFit (t0 ∷ t1 ∷ t2 ∷ []) p =
    OnOk-if PortsFit (equal t2 socks_keyword) _ _
      (OnOk-bind PortsFit (parse_ip t0 local_host) _
        λ ip _. with_port PortsFit t1 local_port _ λ n h. h)
      (with_port PortsFit t0 local_port _
        λ n h. with_port PortsFit t2 remote_port _ λ m k. make_host_port_kind-PortsFit _ _ p h k)
tokens_to_kind-PortsFit (t0 ∷ t1 ∷ t2 ∷ t3 ∷ []) p =
    OnOk-bind PortsFit (parse_ip t0 local_host) _ λ ip _.
      with_port PortsFit t1 local_port _
        λ n h. with_port PortsFit t3 remote_port _ λ m k. make_host_port_kind-PortsFit _ _ p h k
tokens_to_kind-PortsFit (t0 ∷ t1 ∷ t2 ∷ t3 ∷ t4 ∷ ts) p = tt

-- A declaration over standard input: no SOCKS, and the address that is never bound.
abbrev pub IsStdioKind : RemoteKind → Type 0
IsStdioKind k = (kind_is_socks k ≡ false) × (kind_local k ≡ stdio_local) × PortsFit k

make_host_port_kind-IsStdioKind :
    (remote : HostPort) (p : Option Protocol)
    → remote.port < 65536
    → IsStdioKind (make_host_port_kind stdio_local remote p)
unfolding make_host_port_kind kind_local
make_host_port_kind-IsStdioKind remote none h = (refl, refl, (omega arith, h))
make_host_port_kind-IsStdioKind remote (some Protocol.tcp) h = (refl, refl, (omega arith, h))
make_host_port_kind-IsStdioKind remote (some Protocol.udp) h = (refl, refl, (omega arith, h))

stdio_shape-IsStdioKind :
    (ts : List Bytes) (p : Option Protocol) → OnOk IsStdioKind (stdio_shape ts p)
unfolding stdio_shape
stdio_shape-IsStdioKind [] p = tt
stdio_shape-IsStdioKind (t0 ∷ []) p =
    with_port IsStdioKind t0 remote_port _ λ n h. make_host_port_kind-IsStdioKind _ p h
stdio_shape-IsStdioKind (t0 ∷ t1 ∷ []) p =
    with_port IsStdioKind t1 remote_port _ λ n h. make_host_port_kind-IsStdioKind _ p h
stdio_shape-IsStdioKind (t0 ∷ t1 ∷ t2 ∷ ts) p = tt

tokens_to_stdio_kind-IsStdioKind :
    (ts : List Bytes) (p : Option Protocol) → OnOk IsStdioKind (tokens_to_stdio_kind ts p)
unfolding tokens_to_stdio_kind
tokens_to_stdio_kind-IsStdioKind ts p =
    OnOk-if IsStdioKind (mentions_socks ts) _ _ tt (stdio_shape-IsStdioKind ts p)

-- What `from_str` promises of a declaration that it accepts.
pub record IsParsed (r : RemoteRequest) : Type 0 where
  pub ports : PortsFit r.kind
  pub stdio_forward : r.stdio ≡ true → r.direction ≡ forward
  pub stdio_kind : r.stdio ≡ true → IsStdioKind r.kind

strip_stdio-forward :
    (d : Direction) (ts us : List Bytes) → strip_stdio d ts ≡ ok (true, us) → d ≡ forward
unfolding strip_stdio
strip_stdio-forward d [] us e = cc
strip_stdio-forward forward (t ∷ ts) us e = refl
strip_stdio-forward reverse (t ∷ ts) us e = ground arith

stdio-IsParsed :
    (ts : List Bytes) (p : Option Protocol)
    → OnOk IsParsed (
        tokens_to_stdio_kind ts p >>= λ k.
        ok (record { direction = forward; kind = k; stdio = true }))
stdio-IsParsed ts p = OnOk-bind IsParsed (tokens_to_stdio_kind ts p) _ λ k e.
    let q = OnOk-elim IsStdioKind _ (tokens_to_stdio_kind-IsStdioKind ts p) e in
    record { ports = q.2; stdio_forward = λ _. refl; stdio_kind = λ _. q }

listener-IsParsed :
    (d : Direction) (ts : List Bytes) (p : Option Protocol)
    → OnOk IsParsed
        (tokens_to_kind ts p >>= λ k. ok (record { direction = d; kind = k; stdio = false }))
listener-IsParsed d ts p = OnOk-bind IsParsed (tokens_to_kind ts p) _ λ k e. record {
  ports = OnOk-elim PortsFit _ (tokens_to_kind-PortsFit ts p) e;
  stdio_forward = λ x. cc;
  stdio_kind = λ x. cc;
}

address-IsParsed :
    (d : Direction) (p : Option Protocol) (stdio : Bool) (ts : List Bytes)
    → (stdio ≡ true → d ≡ forward)
    → OnOk IsParsed (
        (if stdio then tokens_to_stdio_kind ts p else tokens_to_kind ts p) >>= λ k.
        ok (record { direction = d; kind = k; stdio = stdio }))
address-IsParsed d p true ts f = rw (f refl) (stdio-IsParsed ts p)
address-IsParsed d p false ts f = listener-IsParsed d ts p

from_str-OnOk : (s : Bytes) → OnOk IsParsed (from_str s)
unfolding from_str
from_str-OnOk s = OnOk-bind IsParsed (parse_direction s) _ λ (d, after) _.
    OnOk-bind IsParsed (parse_protocol after) _ λ (p, body) _.
      OnOk-bind IsParsed (split_addr_tokens body) _ λ ts _.
        OnOk-bind IsParsed (strip_stdio d ts) _ λ (stdio, us) e.
          address-IsParsed d p stdio us λ x. strip_stdio-forward d ts us (rw x at e)

-- Whatever the text, an accepted declaration has `u16` ports; one over standard input is never
-- reversed, is no SOCKS tunnel, and its local address is the `0.0.0.0:0` that nobody binds.
pub from_str-IsParsed : (s : Bytes) {r : RemoteRequest} → from_str s ≡ ok r → IsParsed r
from_str-IsParsed s h = OnOk-elim IsParsed (from_str s) (from_str-OnOk s) h
