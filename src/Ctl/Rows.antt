-- ===== src/Ctl/Rows.antt =====
-- The payloads that src/ctl/mod.rs reads, their tables, and the requests of `run_ctl`.
pub mod Tables
use rusnel.Base.{ℕ, Bool, true, false, Option, none, some, List, [], ◌∷◌, ◌++◌, Bytes, map}
use rusnel.Text.{text}
use rusnel.Net.Number.{show_uint}
use rusnel.Config.{unwrap_or}
use rusnel.Ctl.{Table, render, in_front}

pub record ServerInfo : Type 0 where
  pub version : Bytes
  pub listen_addr : Bytes
  pub started_at_ms : ℕ
  pub uptime_ms : ℕ
  pub client_count : ℕ
  pub tunnel_count : ℕ
  pub active_conn_count : ℕ

pub record ClientSummary : Type 0 where
  pub id : ℕ
  pub remote : Bytes
  pub connected_at_ms : ℕ
  pub tunnel_count : ℕ
  pub active_conn_count : ℕ
  pub total_conns : ℕ
  pub bytes_in : ℕ
  pub bytes_out : ℕ

pub record TunnelRow : Type 0 where
  pub id : ℕ
  pub client_id : ℕ
  pub direction : Bytes
  pub kind : Bytes
  pub spec : Bytes
  pub opened_at_ms : ℕ
  pub active_conn_count : ℕ
  pub total_conns : ℕ
  pub bytes_in : ℕ
  pub bytes_out : ℕ

pub record ConnRow : Type 0 where
  pub id : ℕ
  pub tunnel_id : ℕ
  pub client_id : ℕ
  pub opened_at_ms : ℕ
  pub peer : Option Bytes
  pub bytes_in : ℕ
  pub bytes_out : ℕ

pub record HistoryRow : Type 0 where
  pub client_id : ℕ
  pub remote : Bytes
  pub connected_at_ms : ℕ
  pub disconnected_at_ms : ℕ
  pub reason : Bytes
  pub bytes_in : ℕ
  pub bytes_out : ℕ
  pub total_conns : ℕ

pub record ClientDetail : Type 0 where
  pub summary : ClientSummary
  pub tunnels : List TunnelRow

pub record TunnelDetail : Type 0 where
  pub summary : TunnelRow
  pub conns : List ConnRow

abbrev pub client_headers : List Bytes
client_headers =
    text "ID"
    ∷ text "REMOTE"
    ∷ text "CONNECTED-MS"
    ∷ text "TUNNELS"
    ∷ text "ACTIVE"
    ∷ text "TOTAL"
    ∷ text "IN"
    ∷ text "OUT"
    ∷ []

abbrev pub client_cells : ClientSummary → List Bytes
client_cells r =
    show_uint r.id
    ∷ r.remote
    ∷ show_uint r.connected_at_ms
    ∷ show_uint r.tunnel_count
    ∷ show_uint r.active_conn_count
    ∷ show_uint r.total_conns
    ∷ show_uint r.bytes_in
    ∷ show_uint r.bytes_out
    ∷ []

unfoldable pub render_clients : List ClientSummary → Option Bytes
render_clients rows = render (record { headers = client_headers; rows = map client_cells rows })

abbrev pub conn_headers : List Bytes
conn_headers =
    text "ID"
    ∷ text "TUNNEL"
    ∷ text "CLIENT"
    ∷ text "OPENED-MS"
    ∷ text "PEER"
    ∷ text "IN"
    ∷ text "OUT"
    ∷ []

abbrev pub conn_cells : ConnRow → List Bytes
conn_cells r =
    show_uint r.id
    ∷ show_uint r.tunnel_id
    ∷ show_uint r.client_id
    ∷ show_uint r.opened_at_ms
    ∷ unwrap_or r.peer (text "-")
    ∷ show_uint r.bytes_in
    ∷ show_uint r.bytes_out
    ∷ []

unfoldable pub render_conn_rows : List ConnRow → Option Bytes
render_conn_rows rows = render (record { headers = conn_headers; rows = map conn_cells rows })

abbrev pub tunnel_headers : List Bytes
tunnel_headers =
    text "ID"
    ∷ text "CLIENT"
    ∷ text "DIR"
    ∷ text "KIND"
    ∷ text "SPEC"
    ∷ text "OPENED-MS"
    ∷ text "ACTIVE"
    ∷ text "TOTAL"
    ∷ text "IN"
    ∷ text "OUT"
    ∷ []

abbrev pub tunnel_cells : TunnelRow → List Bytes
tunnel_cells r =
    show_uint r.id
    ∷ show_uint r.client_id
    ∷ r.direction
    ∷ r.kind
    ∷ r.spec
    ∷ show_uint r.opened_at_ms
    ∷ show_uint r.active_conn_count
    ∷ show_uint r.total_conns
    ∷ show_uint r.bytes_in
    ∷ show_uint r.bytes_out
    ∷ []

unfoldable pub render_tunnel_rows : List TunnelRow → Option Bytes
render_tunnel_rows rows = render (record { headers = tunnel_headers; rows = map tunnel_cells rows })

abbrev pub history_headers : List Bytes
history_headers =
    text "CLIENT"
    ∷ text "REMOTE"
    ∷ text "CONNECTED-MS"
    ∷ text "DISCONNECTED-MS"
    ∷ text "SESSIONS"
    ∷ text "IN"
    ∷ text "OUT"
    ∷ text "REASON"
    ∷ []

abbrev pub history_cells : HistoryRow → List Bytes
history_cells r =
    show_uint r.client_id
    ∷ r.remote
    ∷ show_uint r.connected_at_ms
    ∷ show_uint r.disconnected_at_ms
    ∷ show_uint r.total_conns
    ∷ show_uint r.bytes_in
    ∷ show_uint r.bytes_out
    ∷ r.reason
    ∷ []

unfoldable pub render_history : List HistoryRow → Option Bytes
render_history rows = render (record { headers = history_headers; rows = map history_cells rows })

-- A label, its value, and what ends the line.
abbrev field : Bytes → Bytes → Bytes → Bytes
field label value rest = label ++ (value ++ rest)

unfoldable pub render_server : ServerInfo → Bytes
render_server s = field (text "version           ") s.version (
    field (text "\nlisten            ") s.listen_addr (
      field (text "\nstarted-at-ms     ") (show_uint s.started_at_ms) (
        field (text "\nuptime-ms         ") (show_uint s.uptime_ms) (
          field (text "\nclients           ") (show_uint s.client_count) (
            field (text "\ntunnels           ") (show_uint s.tunnel_count)
              (field (text "\nactive-conns      ") (show_uint s.active_conn_count) []))))))

abbrev client_lines : ClientSummary → Bytes
client_lines s = field (text "id                ") (show_uint s.id) (
    field (text "\nremote            ") s.remote (
      field (text "\nconnected-ms      ") (show_uint s.connected_at_ms) (
        field (text "\ntunnels           ") (show_uint s.tunnel_count) (
          field (text "\nactive-conns      ") (show_uint s.active_conn_count) (
            field (text "\ntotal-conns       ") (show_uint s.total_conns) (
              field (text "\nbytes-in          ") (show_uint s.bytes_in)
                (field (text "\nbytes-out         ") (show_uint s.bytes_out) (text "\n"))))))))

abbrev pub client_tail : List TunnelRow → Option Bytes
client_tail [] = some []
client_tail (r ∷ rows) = in_front (text "\n") (render_tunnel_rows (r ∷ rows))

unfoldable pub render_client_detail : ClientDetail → Option Bytes
render_client_detail d = in_front (client_lines d.summary) (client_tail d.tunnels)

abbrev tunnel_lines : TunnelRow → Bytes
tunnel_lines s = field (text "id                ") (show_uint s.id) (
    field (text "\nclient            ") (show_uint s.client_id) (
      field (text "\ndirection         ") s.direction (
        field (text "\nkind              ") s.kind (
          field (text "\nspec              ") s.spec (
            field (text "\nopened-ms         ") (show_uint s.opened_at_ms) (
              field (text "\nactive-conns      ") (show_uint s.active_conn_count) (
                field (text "\ntotal-conns       ") (show_uint s.total_conns) (
                  field (text "\nbytes-in          ") (show_uint s.bytes_in) (
                    field (text "\nbytes-out         ") (show_uint s.bytes_out) (text "\n"))))))))))

abbrev pub tunnel_tail : List ConnRow → Option Bytes
tunnel_tail [] = some []
tunnel_tail (r ∷ rows) = in_front (text "\n") (render_conn_rows (r ∷ rows))

unfoldable pub render_tunnel_detail : TunnelDetail → Option Bytes
render_tunnel_detail d = in_front (tunnel_lines d.summary) (tunnel_tail d.conns)
