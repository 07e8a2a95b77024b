-- ===== src/Tests/Server.antt =====
-- Runs of the server's registry and sessions (src/server/state.rs, src/server/mod.rs).
use rusnel.Base.{
  IsDistinct, ℕ, ◌+◌, ◌≡◌, ◌⊎◌, refl, arith, true, false, none, List, [], ◌∷◌, ◌++◌, ok, err, mem,
  All,
}
use rusnel.Text.{text}
use rusnel.Net.Ipv4
use rusnel.Net.Addr.{v4, SocketAddr}
use rusnel.Remote.{
  forward, reverse, is_reversed, is_socks, RemoteKind, RemoteRequest, SessionHello,
  SessionHelloResponse, OpenConn,
}
use rusnel.Server.Entries.{HistoryEntry, ClientEntry, TunnelEntry, ConnEntry, ServerState}
use rusnel.Server.State.{
  add64, new, register_client, register_tunnel, register_tunnels, register_conn, add_in, add_out,
  close_conn, deregister_client, history_snapshot, tunnel, drop_tunnel, drop_tunnels,
}
use rusnel.Server.State.Invariant.{IsConsistent, HasParents}
use rusnel.Server.State.Coherence.{IsHandle}
use rusnel.Server.Session.Timely.{Reach-HasParents}
use rusnel.Server.Session.Handles.{handle_open_conn-Reach}
use rusnel.Server.State.Departure.{HasLeft, deregister_client-HasLeft}
use rusnel.Server.State.Accounting.{
  listed_conn_accounting, bytes_in_of, bytes_out_of, opened_of, active_of,
}
use rusnel.Server.State.History.{IsRecordOf, deregister_client-newest}
use rusnel.Server.Session.{
  rejected, validate_remotes, reverse_refusal, socks_refusal, start_session, perform_session_hello,
}
use rusnel.Server.Session.Policy.{IsAllowed, validate_remotes_refusal, start_session_refused}
use rusnel.Server.Session.Steps.{
  IsSound, Reach, here, next, start, register, leave, Reach-IsSound, new-IsSound, Reach-trans,
}
use rusnel.Server.OpenStream.{
  ForwardDispatch, OpenError, handle_open_conn, resolve_dispatch, dispatch_in, dispatch_kind,
}
use rusnel.Server.OpenStream.Dispatch.{IsRefusedBy, IsOpened, handle_open_conn_lem}

abbrev pub here_addr : SocketAddr
here_addr = record { ip = v4 Ipv4.localhost; port = 8080 }

abbrev pub web : RemoteRequest
web = record {
  direction = forward;
  kind = RemoteKind.tcp here_addr (record { host = text "web"; port = 80 });
  stdio = false;
}

abbrev pub proxy : RemoteRequest
proxy = record { direction = reverse; kind = RemoteKind.socks5 here_addr; stdio = false }

abbrev pub hello : SessionHello
hello = record { remotes = web ∷ proxy ∷ [] }

abbrev pub no_client : ℕ → ClientEntry
no_client k = record { id = 0; remote = here_addr; connected_at = 0; tunnels = [] }

abbrev pub no_tunnel : ℕ → TunnelEntry
no_tunnel k = record {
  id = 0;
  client_id = 0;
  direction = forward;
  kind = RemoteKind.socks5 here_addr;
  spec = [];
  opened_at = 0;
  conns = [];
  cumulative_in = 0;
  cumulative_out = 0;
  total_conns = 0;
}

abbrev pub no_conn : ℕ → ConnEntry
no_conn k = record {
  id = 0;
  tunnel_id = 0;
  client_id = 0;
  opened_at = 0;
  peer = none;
  bytes_in = 0;
  bytes_out = 0;
}

abbrev pub idle : ServerState
idle = new 5 here_addr no_client no_tunnel no_conn

pub idle-IsSound : IsSound idle
idle-IsSound = new-IsSound 5 here_addr no_client no_tunnel no_conn

-- Client 7 has connected, declared two tunnels, and opened a stream on the first.
abbrev pub joined : ServerState
joined = (start_session 6 7 here_addr hello true true none idle).state

abbrev pub request : OpenConn
request = record { tunnel_id = 1; dynamic = none }

abbrev pub busy : ServerState
busy = (handle_open_conn 8 request true (λ s. s) joined).state

-- The same, but the client leaves while the reply to its stream is on the way.
abbrev late : ServerState
late = (handle_open_conn 8 request true (deregister_client 7 7 (text "gone")) joined).state

pub joined_counters :
    (joined.next_tunnel_id ≡ 2) × (joined.next_conn_id ≡ 0) × (mem 7 joined.clients ≡ true)
unfolding new start_session perform_session_hello register_client register_tunnels register_tunnel
    validate_remotes is_reversed is_socks
joined_counters = (refl, refl, refl)

joined_reached : Reach idle joined
unfolding new
joined_reached = next here (start 6 7 here_addr hello true true none idle refl (omega arith))

joined-IsSound : IsSound joined
joined-IsSound = Reach-IsSound idle-IsSound joined_reached

busy_reached : Reach joined busy
busy_reached =
    handle_open_conn-Reach 8 request true (λ s. s) joined joined-IsSound here
      (rw joined_counters.1 (omega arith))

busy-IsSound : IsSound busy
busy-IsSound = Reach-IsSound joined-IsSound busy_reached

left_count : (deregister_client 7 7 (text "gone") joined).next_conn_id ≡ 0
unfolding new start_session perform_session_hello register_client register_tunnels register_tunnel
    validate_remotes is_reversed is_socks deregister_client drop_tunnels drop_tunnel
left_count = refl

late_reached : Reach idle late
late_reached = Reach-trans joined_reached (
    handle_open_conn-Reach 8 request true (deregister_client 7 7 (text "gone")) joined
      joined-IsSound (next here (leave 7 7 (text "gone") joined)) (rw left_count (omega arith)))

Reach-IsSound_example : IsSound late
Reach-IsSound_example = Reach-IsSound idle-IsSound late_reached

-- The late conn stands in the map, and its tunnel does not.
late_orphan : (mem 1 late.conns ≡ true) × (mem (late.conn_at 1).tunnel_id late.tunnels ≡ false)
unfolding new start_session perform_session_hello register_client register_tunnels register_tunnel
    validate_remotes is_reversed is_socks handle_open_conn resolve_dispatch register_conn tunnel
    dispatch_in dispatch_kind deregister_client drop_tunnels drop_tunnel
late_orphan = (refl, refl)

busy-HasParents : HasParents busy
unfolding new start_session perform_session_hello register_client register_tunnels register_tunnel
    validate_remotes is_reversed is_socks handle_open_conn resolve_dispatch register_conn tunnel
    dispatch_in dispatch_kind
busy-HasParents c h = ground arith

pub busy-IsConsistent : IsConsistent busy
busy-IsConsistent = record { coherent = busy-IsSound.coherent; parent_live = busy-HasParents }

pub busy_facts :
    (mem 7 busy.clients ≡ true)
    × (mem 1 (busy.tunnel_at 1).conns ≡ true)
    × ((busy.tunnel_at 1).conns ≡ 1 ∷ [])
    × (busy.next_conn_id ≡ 1)
    × ((busy.tunnel_at 1).total_conns ≡ 1)
unfolding new start_session perform_session_hello register_client register_tunnels register_tunnel
    validate_remotes is_reversed is_socks handle_open_conn resolve_dispatch register_conn tunnel
    dispatch_in dispatch_kind
busy_facts = (refl, refl, refl, refl, refl)

idle-HasParents : HasParents idle
unfolding new
idle-HasParents c h = cc

joined_tunnel : IsHandle 1 joined × (mem 1 joined.tunnels ≡ true)
unfolding new start_session perform_session_hello register_client register_tunnels register_tunnel
    validate_remotes is_reversed is_socks
joined_tunnel = ((omega arith, refl), refl)

Reach-HasParents_example : HasParents (register_conn 8 1 none joined).1
unfolding new
Reach-HasParents_example =
    Reach-HasParents
      (next (next here (start 6 7 here_addr hello true true none idle refl (omega arith)))
        (register 8 1 none joined joined_tunnel.0 (rw joined_counters.1 (omega arith))))
      ((tt, tt), joined_tunnel.1) idle-IsSound idle-HasParents

deregister_client-HasLeft_example : HasLeft 7 busy (deregister_client 9 7 (text "bye") busy)
deregister_client-HasLeft_example =
    deregister_client-HasLeft 9 7 (text "bye") busy busy-IsConsistent busy_facts.0

deregister_client-newest_example :
    (h : HistoryEntry) × (history_snapshot 3 (deregister_client 9 7 (text "bye") busy)
      ≡ h ∷ history_snapshot 2 busy)
    × IsRecordOf 9 7 (text "bye") busy h
deregister_client-newest_example =
    deregister_client-newest 9 7 2 (text "bye") busy
      (busy-IsSound.coherent.client_id 7 busy_facts.0) busy_facts.0 (omega arith)

handle_open_conn_lem_example :
    (let o = handle_open_conn 8 request true (deregister_client 7 7 (text "gone")) joined in
      ((e : OpenError) × (o.result ≡ err e)
        × (o.state ≡ deregister_client 7 7 (text "gone") joined)
        × IsRefusedBy e request true joined)
      ⊎ ((id : ℕ) × (d : ForwardDispatch) × (o.result ≡ ok (id, d))
          × (true ≡ true)
          × IsOpened joined (deregister_client 7 7 (text "gone") joined) request o id d))
handle_open_conn_lem_example =
    handle_open_conn_lem 8 request true (deregister_client 7 7 (text "gone")) joined

refused : validate_remotes hello.remotes false true ≡ err (reverse_refusal proxy)
unfolding validate_remotes is_reversed is_socks
refused = refl

validate_remotes_refusal_example :
    (before : List RemoteRequest) × (r : RemoteRequest) × (after : List RemoteRequest)
    × (hello.remotes ≡ before ++ r ∷ after)
    × All (IsAllowed false true) before
    × ¬ IsAllowed false true r
    × ((reverse_refusal proxy ≡ reverse_refusal r) ⊎ (reverse_refusal proxy ≡ socks_refusal r))
validate_remotes_refusal_example = validate_remotes_refusal hello.remotes false true refused

start_session_refused_example :
    (let v = start_session 6 7 here_addr hello false true none idle in
      (v.response ≡ SessionHelloResponse.failed (reverse_refusal proxy))
      × (v.result ≡ err (rejected (reverse_refusal proxy)))
      × (v.state.clients ≡ idle.clients)
      × (v.state.tunnels ≡ idle.tunnels)
      × (v.state.conns ≡ idle.conns))
unfolding new
start_session_refused_example =
    start_session_refused 6 7 here_addr hello false true none idle refused refl

busy-IsDistinct : IsDistinct (busy.tunnel_at 1).conns
busy-IsDistinct = rw busy_facts.2 (refl, tt)

listed_conn_accounting_example :
    ((bytes_in_of 1 (add_in 1 9 busy) ≡ add64 (bytes_in_of 1 busy) 9)
      × (bytes_out_of 1 (add_in 1 9 busy) ≡ bytes_out_of 1 busy))
    × ((bytes_out_of 1 (add_out 1 9 busy) ≡ add64 (bytes_out_of 1 busy) 9)
        × (bytes_in_of 1 (add_out 1 9 busy) ≡ bytes_in_of 1 busy))
    × ((bytes_in_of 1 (close_conn 1 1 busy) ≡ bytes_in_of 1 busy)
        × (bytes_out_of 1 (close_conn 1 1 busy) ≡ bytes_out_of 1 busy)
        × (opened_of 1 (close_conn 1 1 busy) ≡ opened_of 1 busy)
        × (active_of 1 (close_conn 1 1 busy) + 1 ≡ active_of 1 busy))
listed_conn_accounting_example = listed_conn_accounting 1 1 9 busy busy-IsDistinct busy_facts.1
