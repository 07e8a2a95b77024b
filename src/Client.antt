-- ===== src/Client.antt =====
-- The client: the addresses it tries (src/main.rs), its back-off and the streams that the server
-- opens to it (src/client/mod.rs).
pub mod Addresses
pub mod Backoff
pub mod Reverse
pub mod Reconnect
pub mod Session
pub mod Race
use rusnel.Base.{
  ℕ, ◌+◌, ◌*◌, ◌^◌, ◌≡◌, arith, Bool, true, false, Option, none, some, List, [], ◌∷◌, ◌++◌, Bytes,
  length, min, ◌-◌, if◌then◌else◌, Result, ok, err, ltb,
}
use rusnel.Net.Addr.{IpAddr, v4, v6, SocketAddr}
use rusnel.Remote.{
  Direction, forward, reverse, HostPort, RemoteKind, RemoteRequest, new_request, DynamicTarget,
}

abbrev pub is_v6 : IpAddr → Bool
is_v6 (v4 _) = false
is_v6 (v6 _) = true

abbrev pub is_ipv6 : SocketAddr → Bool
is_ipv6 a = is_v6 a.ip

-- The two buckets, each in the order of the resolver: IPv6 first.
unfoldable pub by_family : List SocketAddr → List SocketAddr × List SocketAddr
by_family [] = ([], [])
by_family (a ∷ as') =
    let rest = by_family as' in if is_ipv6 a then (a ∷ rest.0, rest.1) else (rest.0, a ∷ rest.1)

-- `loop { match (primary.next(), alternate.next()) { … } }`
unfoldable pub alternate : List SocketAddr → List SocketAddr → List SocketAddr
alternate [] [] = []
alternate [] (b ∷ bs) = b ∷ alternate [] bs
alternate (a ∷ as') [] = a ∷ alternate as' []
alternate (a ∷ as') (b ∷ bs) = a ∷ b ∷ alternate as' bs

abbrev is_nil : List SocketAddr → Bool
is_nil [] = true
is_nil (_ ∷ _) = false

unfoldable pub interleave_address_families : List SocketAddr → List SocketAddr
interleave_address_families resolved =
    let (six, four) = by_family resolved in
    if is_nil six
    then alternate four six
    else if is_nil four
    then alternate four six
    else alternate six four

-- Seconds and nanoseconds make one number; `saturating_mul` stops at `Duration::MAX`.
abbrev pub duration_max : ℕ
duration_max = (2 ^ 64) * 1000000000 - 1

unfoldable pub next_backoff : ℕ → ℕ → ℕ
next_backoff current max_backoff = min (min (current * 2) duration_max) max_backoff

pub data ReverseDispatch : Type 0 where
  tcp udp : RemoteRequest → ReverseDispatch

pub data ReverseError : Type 0 where
  forward_tunnel : RemoteRequest → ReverseError
  dynamic_missing dynamic_unexpected : ReverseError

abbrev pub Dispatched : Type 0
Dispatched = Result ReverseError ReverseDispatch

unfoldable pub reverse_kind : RemoteKind → Option DynamicTarget → Dispatched
reverse_kind (RemoteKind.tcp addr remote) none =
    ok (ReverseDispatch.tcp (new_request reverse (RemoteKind.tcp addr remote)))
reverse_kind (RemoteKind.udp addr remote) none =
    ok (ReverseDispatch.udp (new_request reverse (RemoteKind.udp addr remote)))
reverse_kind (RemoteKind.socks5 addr) (some (DynamicTarget.tcp target)) =
    ok (ReverseDispatch.tcp (new_request reverse (RemoteKind.tcp addr target)))
reverse_kind (RemoteKind.socks5 addr) (some (DynamicTarget.udp target)) =
    ok (ReverseDispatch.udp (new_request reverse (RemoteKind.udp addr target)))
reverse_kind (RemoteKind.socks5 addr) none = err dynamic_missing
reverse_kind (RemoteKind.tcp addr remote) (some target) = err dynamic_unexpected
reverse_kind (RemoteKind.udp addr remote) (some target) = err dynamic_unexpected

abbrev pub reverse_in : Direction → RemoteRequest → Option DynamicTarget → Dispatched
reverse_in forward parent dynamic = err (forward_tunnel parent)
reverse_in reverse parent dynamic = reverse_kind parent.kind dynamic

unfoldable pub resolve_reverse_dispatch : RemoteRequest → Option DynamicTarget → Dispatched
resolve_reverse_dispatch parent dynamic = reverse_in parent.direction parent dynamic
