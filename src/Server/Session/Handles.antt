-- ===== src/Server/Session/Handles.antt =====
-- A tunnel that a task holds stays what it was, whatever the others do: the entry of
-- src/server/state.rs behind an `Arc`.
use rusnel.Base.{
  Bool-cases, ℕ, ◌+◌, ◌<◌, ◌^◌, ◌≡◌, refl, arith, Bool, true, List, [], ◌∷◌, Bytes, length, mem,
  inl, inr, Result-cases,
}
use rusnel.Net.Addr.{SocketAddr}
use rusnel.Remote.{RemoteRequest, OpenConn}
use rusnel.Server.Entries.{ServerState}
use rusnel.Server.State.{
  register_client, register_tunnel, register_tunnels, register_conn, add_in, add_out, close_conn,
  deregister_client, tunnel,
}
use rusnel.Server.State.Coherence.{IsHandle}
use rusnel.Server.State.Departure.{deregister_client_stores}
use rusnel.Server.Session.Starts.{start_session-keeps}
use rusnel.Server.Session.Steps.{
  IsSound, Step, start, register, receive, send, close, leave, Reach, here, next,
}
use rusnel.Server.OpenStream.{resolve_dispatch, peer_label, handle_open_conn}

register_tunnel-IsHandle :
    (now client t : ℕ) (req : RemoteRequest) (s : ServerState)
    → s.next_tunnel_id + 1 < 2 ^ 64
    → IsHandle t s
    → IsHandle t (register_tunnel now client req s).1
      × ((register_tunnel now client req s).1.next_tunnel_id ≡ s.next_tunnel_id + 1)
unfolding register_tunnel
register_tunnel-IsHandle now client t req s room h = ground arith

register_tunnels-IsHandle :
    (now client t : ℕ) (reqs : List RemoteRequest) (s : ServerState)
    → s.next_tunnel_id + length reqs < 2 ^ 64
    → IsHandle t s
    → IsHandle t (register_tunnels now client reqs s).1
unfolding register_tunnels
register_tunnels-IsHandle now client t [] s room h = h
register_tunnels-IsHandle now client t (req ∷ reqs) s room h =
    let (h1, e) = register_tunnel-IsHandle now client t req s (omega arith) h in
    register_tunnels-IsHandle now client t reqs (register_tunnel now client req s).1 (omega arith)
      h1

deregister_client-IsHandle :
    (now id t : ℕ) (reason : Bytes) (s : ServerState)
    → IsHandle t s
    → IsHandle t (deregister_client now id reason s)
deregister_client-IsHandle now id t reason s h =
    let e = deregister_client_stores now id reason s in rw (e.0, e.1) h

register_client_same :
    (now id : ℕ) (remote : SocketAddr) (s : ServerState)
    → ((register_client now id remote s).tunnel_at ≡ s.tunnel_at)
      × ((register_client now id remote s).next_tunnel_id ≡ s.next_tunnel_id)
unfolding register_client
register_client_same now id remote s = (refl, refl)

Step-IsHandle : {s u : ServerState} (t : ℕ) → Step s u → IsHandle t s → IsHandle t u
unfolding register_conn add_in add_out close_conn
Step-IsHandle t (start now id remote hello ar as' we s fresh room) h =
    let e = register_client_same now id remote s in
    let h1 : IsHandle t (register_client now id remote s) = rw (e.0, e.1) h in
    start_session-keeps (IsHandle t) now id remote hello ar as' we s h1
      (register_tunnels-IsHandle now id t hello.remotes (register_client now id remote s)
        (rw e.1 room) h1)
      (λ reason u. deregister_client-IsHandle now id t reason u)
Step-IsHandle t (register now u peer s handle room) h = ground arith
Step-IsHandle t (receive c n s) h = ground arith
Step-IsHandle t (send c n s) h = ground arith
Step-IsHandle t (close u c s own) h = ground arith
Step-IsHandle t (leave now id reason s) h = deregister_client-IsHandle now id t reason s h

-- A tunnel that was in the map can be registered under for ever.
pub Reach-IsHandle :
    {s u : ServerState} (t : ℕ) → IsSound s → mem t s.tunnels ≡ true → Reach s u → IsHandle t u
Reach-IsHandle t v live here = (v.coherent.tunnel_bound t live, v.coherent.tunnel_id t live)
Reach-IsHandle t v live (next r st) = Step-IsHandle t st (Reach-IsHandle t v live r)

-- What `handle_open_conn` does to the registry are such steps, whatever others do while its reply
-- is on its way.
pub handle_open_conn-Reach :
    (now : ℕ) (open_conn : OpenConn) (replied : Bool) (meanwhile : ServerState → ServerState)
    (s : ServerState)
    → IsSound s
    → Reach s (meanwhile s)
    → (meanwhile s).next_conn_id + 1 < 2 ^ 64
    → Reach s (handle_open_conn now open_conn replied meanwhile s).state
unfolding handle_open_conn tunnel
handle_open_conn-Reach now open_conn replied meanwhile s v r room =
    let state = (handle_open_conn now open_conn replied meanwhile s).state in
    let id = open_conn.tunnel_id in
    elim (Bool-cases (mem id s.tunnels)) [
      | inr unknown ↦ let e : state ≡ meanwhile s = ground arith in rw e r
      | inl known ↦ elim (Result-cases (resolve_dispatch (s.tunnel_at id) open_conn.dynamic)) [
        | inr (bad, refused) ↦ let e : state ≡ meanwhile s = ground (arith, refused) in rw e r
        | inl (d, good) ↦ elim (Bool-cases replied) [
          | inr lost ↦ let e : state ≡ meanwhile s = ground (arith, good) in rw e r
          | inl sent ↦
              let e : state ≡ (register_conn now id (peer_label d) (meanwhile s)).1 =
                ground (arith, good) in
              rw e (
                next r
                  (register now id (peer_label d) (meanwhile s) (Reach-IsHandle id v known r) room))
        ]
      ]
    ]
