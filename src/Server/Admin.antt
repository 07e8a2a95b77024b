-- ===== src/Server/Admin.antt =====
-- The read-only admin API: the handlers of src/server/admin.rs and the views that
-- src/server/state.rs makes of the registry. axum, HTTP and JSON are third-party: a handler takes
-- what the route captured and gives the value that is encoded, or "not found".
pub mod Views
use rusnel.Base.{
  ℕ, ◌+◌, ◌-◌, Bool, Option, none, some, List, [], ◌∷◌, ◌++◌, Bytes, length, map, Result, ok, err,
  ok_or, map_ok, sort_by_key,
}
use rusnel.Text.{text}
use rusnel.Net.Addr.{show_socket_addr}
use rusnel.Remote.{Direction, forward, reverse, RemoteKind}
use rusnel.Server.Entries.{ServerState, ClientEntry, TunnelEntry, ConnEntry, HistoryEntry}
use rusnel.Server.State.{
  add64, tunnel_totals, client_totals, tunnel, conn, client, history_snapshot,
}

pub record ServerInfoDto : Type 0 where
  pub version : Bytes
  pub listen_addr : Bytes
  pub started_at_ms : ℕ
  pub uptime_ms : ℕ
  pub client_count : ℕ
  pub tunnel_count : ℕ
  pub active_conn_count : ℕ

pub record ClientSummaryDto : Type 0 where
  pub id : ℕ
  pub remote : Bytes
  pub connected_at_ms : ℕ
  pub tunnel_count : ℕ
  pub active_conn_count : ℕ
  pub total_conns : ℕ
  pub bytes_in : ℕ
  pub bytes_out : ℕ

pub record TunnelDto : Type 0 where
  pub id : ℕ
  pub client_id : ℕ
  pub direction : Bytes
  pub kind : Bytes
  pub spec : Bytes
  pub opened_at_ms : ℕ
  pub active_conn_count : ℕ
  pub total_conns : ℕ
  pub active_bytes_in : ℕ
  pub active_bytes_out : ℕ
  pub bytes_in : ℕ
  pub bytes_out : ℕ

pub record ConnDto : Type 0 where
  pub id : ℕ
  pub tunnel_id : ℕ
  pub client_id : ℕ
  pub opened_at_ms : ℕ
  pub peer : Option Bytes
  pub bytes_in : ℕ
  pub bytes_out : ℕ

pub record ClientDetailDto : Type 0 where
  pub summary : ClientSummaryDto
  pub tunnels : List TunnelDto

pub record TunnelDetailDto : Type 0 where
  pub summary : TunnelDto
  pub conns : List ConnDto

pub data ApiError : Type 0 where
  not_found : ApiError

-- `ClientSummaryDto::from_entry`
unfoldable pub client_summary : ServerState → ClientEntry → ClientSummaryDto
client_summary s e =
    let t = client_totals s e in
    record {
      id = e.id;
      remote = show_socket_addr e.remote;
      connected_at_ms = e.connected_at;
      tunnel_count = length e.tunnels;
      active_conn_count = t.active_conns;
      total_conns = t.total_conns;
      bytes_in = add64 t.active_in t.cumulative_in;
      bytes_out = add64 t.active_out t.cumulative_out;
    }

abbrev direction_text : Direction → Bytes
direction_text forward = text "forward"
direction_text reverse = text "reverse"

abbrev kind_text : RemoteKind → Bytes
kind_text (RemoteKind.tcp local remote) = text "tcp"
kind_text (RemoteKind.udp local remote) = text "udp"
kind_text (RemoteKind.socks5 local) = text "socks5"

-- `TunnelDto::from_entry`
unfoldable pub tunnel_dto : ServerState → TunnelEntry → TunnelDto
tunnel_dto s e =
    let t = tunnel_totals s e in
    record {
      id = e.id;
      client_id = e.client_id;
      direction = direction_text e.direction;
      kind = kind_text e.kind;
      spec = e.spec;
      opened_at_ms = e.opened_at;
      active_conn_count = t.active_conns;
      total_conns = t.total_conns;
      active_bytes_in = t.active_in;
      active_bytes_out = t.active_out;
      bytes_in = add64 t.active_in t.cumulative_in;
      bytes_out = add64 t.active_out t.cumulative_out;
    }

-- `ConnDto::from_entry`
unfoldable pub conn_dto : ConnEntry → ConnDto
conn_dto e = record {
  id = e.id;
  tunnel_id = e.tunnel_id;
  client_id = e.client_id;
  opened_at_ms = e.opened_at;
  peer = e.peer;
  bytes_in = e.bytes_in;
  bytes_out = e.bytes_out;
}

-- A clock that went backwards gives no uptime.
unfoldable pub server_info : Bytes → ℕ → ServerState → ServerInfoDto
server_info version now s = record {
  version = version;
  listen_addr = show_socket_addr s.listen_addr;
  started_at_ms = s.started_at;
  uptime_ms = now - s.started_at;
  client_count = length s.clients;
  tunnel_count = length s.tunnels;
  active_conn_count = length s.conns;
}

unfoldable pub list_clients : ServerState → List ClientSummaryDto
list_clients s =
    sort_by_key (λ (c : ClientSummaryDto). c.id ∷ [])
      (map (λ k. client_summary s (s.client_at k)) s.clients)

abbrev pub tunnels_by_id : ServerState → List ℕ → List TunnelDto
tunnels_by_id s ts =
    sort_by_key (λ (t : TunnelDto). t.id ∷ []) (map (λ t. tunnel_dto s (s.tunnel_at t)) ts)

abbrev pub conns_by_id : ServerState → List ℕ → List ConnDto
conns_by_id s cs = sort_by_key (λ (c : ConnDto). c.id ∷ []) (map (λ c. conn_dto (s.conn_at c)) cs)

unfoldable pub get_client : ℕ → ServerState → Result ApiError ClientDetailDto
get_client id s =
    map_ok
      (λ (e : ClientEntry). record {
        summary = client_summary s e;
        tunnels = tunnels_by_id s e.tunnels;
      })
      (ok_or (client id s) not_found)

unfoldable pub list_client_tunnels : ℕ → ServerState → Result ApiError (List TunnelDto)
list_client_tunnels id s =
    map_ok (λ (e : ClientEntry). tunnels_by_id s e.tunnels) (ok_or (client id s) not_found)

unfoldable pub list_tunnels : ServerState → List TunnelDto
list_tunnels s =
    sort_by_key (λ (t : TunnelDto). t.client_id ∷ t.id ∷ [])
      (map (λ t. tunnel_dto s (s.tunnel_at t)) s.tunnels)

unfoldable pub get_tunnel : ℕ → ServerState → Result ApiError TunnelDetailDto
get_tunnel id s =
    map_ok (λ (e : TunnelEntry). record { summary = tunnel_dto s e; conns = conns_by_id s e.conns })
      (ok_or (tunnel id s) not_found)

unfoldable pub list_tunnel_conns : ℕ → ServerState → Result ApiError (List ConnDto)
list_tunnel_conns id s =
    map_ok (λ (e : TunnelEntry). conns_by_id s e.conns) (ok_or (tunnel id s) not_found)

unfoldable pub list_conns : ServerState → List ConnDto
list_conns s =
    sort_by_key (λ (c : ConnDto). c.client_id ∷ c.tunnel_id ∷ c.id ∷ [])
      (map (λ c. conn_dto (s.conn_at c)) s.conns)

unfoldable pub get_conn : ℕ → ServerState → Result ApiError ConnDto
get_conn id s = map_ok conn_dto (ok_or (conn id s) not_found)

-- The conns of the tunnels that a client lists, one tunnel after the other.
abbrev pub conns_of : ServerState → List ℕ → List ConnDto
conns_of s [] = []
conns_of s (t ∷ ts) = map (λ c. conn_dto (s.conn_at c)) (s.tunnel_at t).conns ++ conns_of s ts

unfoldable pub list_client_conns : ℕ → ServerState → Result ApiError (List ConnDto)
list_client_conns id s =
    map_ok
      (λ (e : ClientEntry).
        sort_by_key (λ (c : ConnDto). c.tunnel_id ∷ c.id ∷ []) (conns_of s e.tunnels))
      (ok_or (client id s) not_found)

abbrev pub default_history_limit : ℕ
default_history_limit = 50

unfoldable pub list_history : Option ℕ → ServerState → List HistoryEntry
list_history none s = history_snapshot default_history_limit s
list_history (some limit) s = history_snapshot limit s
