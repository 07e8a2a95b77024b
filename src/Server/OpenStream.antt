-- ===== src/Server/OpenStream.antt =====
-- src/server/mod.rs: `resolve_dispatch` and `handle_open_conn`, for a stream that a client opens.
-- The data plane behind the dispatch is not modelled here.
pub mod Dispatch
use rusnel.Base.{
  ℕ, Bool, true, false, Option, none, some, List, [], ◌∷◌, ◌++◌, Bytes, if◌then◌else◌, Result, ok,
  err,
}
use rusnel.Text.{text}
use rusnel.Net.Number.{show_uint}
use rusnel.Remote.{
  Direction, forward, reverse, RemoteKind, RemoteRequest, new_request, DynamicTarget, OpenConn,
  OpenConnResponse,
}
use rusnel.Remote.Display.{remote_addr_string}
use rusnel.Server.Entries.{TunnelEntry, ServerState}
use rusnel.Server.State.{tunnel, register_conn}

-- What the handler of the data plane is given.
pub data ForwardDispatch : Type 0 where
  tcp udp : RemoteRequest → ForwardDispatch

unfoldable pub peer_label : ForwardDispatch → Option Bytes
peer_label (ForwardDispatch.tcp r) = remote_addr_string r
peer_label (ForwardDispatch.udp r) = remote_addr_string r

-- The three messages of `resolve_dispatch`, each with the tunnel's id.
pub data DispatchError : Type 0 where
  reverse_tunnel dynamic_missing dynamic_unexpected : ℕ → DispatchError

unfoldable pub dispatch_kind :
    ℕ → RemoteKind → Option DynamicTarget → Result DispatchError ForwardDispatch
dispatch_kind id (RemoteKind.tcp addr remote) none =
    ok (ForwardDispatch.tcp (new_request forward (RemoteKind.tcp addr remote)))
dispatch_kind id (RemoteKind.udp addr remote) none =
    ok (ForwardDispatch.udp (new_request forward (RemoteKind.udp addr remote)))
dispatch_kind id (RemoteKind.socks5 addr) (some (DynamicTarget.tcp target)) =
    ok (ForwardDispatch.tcp (new_request forward (RemoteKind.tcp addr target)))
dispatch_kind id (RemoteKind.socks5 addr) (some (DynamicTarget.udp target)) =
    ok (ForwardDispatch.udp (new_request forward (RemoteKind.udp addr target)))
dispatch_kind id (RemoteKind.socks5 addr) none = err (dynamic_missing id)
dispatch_kind id (RemoteKind.tcp addr remote) (some target) = err (dynamic_unexpected id)
dispatch_kind id (RemoteKind.udp addr remote) (some target) = err (dynamic_unexpected id)

unfoldable pub dispatch_in :
    ℕ → Direction → RemoteKind → Option DynamicTarget → Result DispatchError ForwardDispatch
dispatch_in id reverse kind dynamic = err (reverse_tunnel id)
dispatch_in id forward kind dynamic = dispatch_kind id kind dynamic

unfoldable pub resolve_dispatch :
    TunnelEntry → Option DynamicTarget → Result DispatchError ForwardDispatch
resolve_dispatch t dynamic = dispatch_in t.id t.direction t.kind dynamic

pub data OpenError : Type 0 where
  unknown_tunnel : ℕ → OpenError
  no_dispatch : DispatchError → OpenError
  reply_lost : OpenError

abbrev pub unknown_text : ℕ → Bytes
unknown_text id = text "unknown tunnel id " ++ show_uint id

unfoldable pub dispatch_text : DispatchError → Bytes
dispatch_text (reverse_tunnel id) =
    text "OpenConn on reverse tunnel "
    ++ (show_uint id ++ text " (server pushes reverse conns, not the client)")
dispatch_text (dynamic_missing id) =
    text "OpenConn on SOCKS5 tunnel " ++ (show_uint id ++ text " requires a `dynamic` target")
dispatch_text (dynamic_unexpected id) =
    text "OpenConn on tunnel " ++ (show_uint id ++ text " carried unexpected dynamic target")

-- The reply that is sent, and the conn that is registered with its dispatch.
pub record Opening : Type 0 where
  pub response : OpenConnResponse
  pub result : Result OpenError (ℕ × ForwardDispatch)
  pub state : ServerState

abbrev refuse : OpenError → Bytes → ServerState → Opening
refuse e message s = record {
  response = OpenConnResponse.failed message;
  result = err e;
  state = s;
}

-- `replied` says whether the reply `Ok` could be written. While the reply is on its way the
-- registry goes on: `meanwhile` is what the others do to it, and the tunnel, which is an `Arc`, may
-- have left the map behind it. The guard of the conn is dropped when the data plane ends:
-- `close_conn` of the registry.
unfoldable pub handle_open_conn :
    ℕ → OpenConn → Bool → (ServerState → ServerState) → ServerState → Opening
handle_open_conn now open_conn replied meanwhile s = elim (tunnel open_conn.tunnel_id s) [
  | none ↦
      refuse (unknown_tunnel open_conn.tunnel_id) (unknown_text open_conn.tunnel_id) (meanwhile s)
  | some t ↦ elim (resolve_dispatch t open_conn.dynamic) [
    | err e ↦ refuse (no_dispatch e) (dispatch_text e) (meanwhile s)
    | ok dispatch ↦
        if replied
        then (let (id, s') =
              register_conn now open_conn.tunnel_id (peer_label dispatch) (meanwhile s) in
            record { response = OpenConnResponse.ok; result = ok (id, dispatch); state = s' })
        else record { response = OpenConnResponse.ok; result = err reply_lost; state = meanwhile s }
  ]
]
