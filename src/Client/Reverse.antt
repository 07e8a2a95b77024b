-- ===== src/Client/Reverse.antt =====
-- The client and the server agree on who dispatches a stream, and where to.
use rusnel.Base.{ℕ, ◌≡◌, arith, Option, none, some, Result, ok, err}
use rusnel.Remote.{forward, reverse, RemoteKind, RemoteRequest, new_request, DynamicTarget}
use rusnel.Server.Entries.{TunnelEntry}
use rusnel.Server.OpenStream.{
  ForwardDispatch, DispatchError, dispatch_kind, dispatch_in, resolve_dispatch,
}
use rusnel.Client.{
  ReverseDispatch, ReverseError, forward_tunnel, Dispatched, reverse_kind, resolve_reverse_dispatch,
}

-- Both ends connect to the same target in the same protocol, or neither connects.
pub data IsMirror : Result DispatchError ForwardDispatch → Dispatched → Type 0 where
  both_tcp :
      (k : RemoteKind)
      → IsMirror
          (ok (ForwardDispatch.tcp (new_request forward k)))
          (ok (ReverseDispatch.tcp (new_request reverse k)))
  both_udp :
      (k : RemoteKind)
      → IsMirror
          (ok (ForwardDispatch.udp (new_request forward k)))
          (ok (ReverseDispatch.udp (new_request reverse k)))
  neither : (e : DispatchError) (e' : ReverseError) → IsMirror (err e) (err e')

kind-IsMirror :
    (id : ℕ) (k : RemoteKind) (dynamic : Option DynamicTarget)
    → IsMirror (dispatch_kind id k dynamic) (reverse_kind k dynamic)
unfolding dispatch_kind reverse_kind
kind-IsMirror id (RemoteKind.tcp addr remote) none = both_tcp _
kind-IsMirror id (RemoteKind.udp addr remote) none = both_udp _
kind-IsMirror id (RemoteKind.socks5 addr) (some (DynamicTarget.tcp target)) = both_tcp _
kind-IsMirror id (RemoteKind.socks5 addr) (some (DynamicTarget.udp target)) = both_udp _
kind-IsMirror id (RemoteKind.socks5 addr) none = neither _ _
kind-IsMirror id (RemoteKind.tcp addr remote) (some target) = neither _ _
kind-IsMirror id (RemoteKind.udp addr remote) (some target) = neither _ _

-- The client treats a stream of a reverse tunnel as the server treats one of a forward tunnel of
-- the same kind: both accept it with the same target, or both refuse it.
pub resolve_reverse_dispatch-IsMirror :
    (t : TunnelEntry) (parent : RemoteRequest) (dynamic : Option DynamicTarget)
    → t.direction ≡ forward
    → parent.direction ≡ reverse
    → parent.kind ≡ t.kind
    → IsMirror (resolve_dispatch t dynamic) (resolve_reverse_dispatch parent dynamic)
unfolding resolve_dispatch dispatch_in resolve_reverse_dispatch
resolve_reverse_dispatch-IsMirror t parent dynamic e f g =
    rw (e, f, g) (kind-IsMirror t.id t.kind dynamic)

-- A stream that one end dispatches is refused by the other end of the same tunnel.
pub resolve_reverse_dispatch_excluded :
    (t : TunnelEntry) (parent : RemoteRequest) (dynamic : Option DynamicTarget)
    {d : ForwardDispatch}
    → parent.direction ≡ t.direction
    → resolve_dispatch t dynamic ≡ ok d
    → resolve_reverse_dispatch parent dynamic ≡ err (forward_tunnel parent)
unfolding resolve_dispatch dispatch_in resolve_reverse_dispatch
resolve_reverse_dispatch_excluded t parent dynamic e h = ground (arith, e, h)
