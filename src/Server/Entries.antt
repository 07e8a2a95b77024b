-- ===== src/Server/Entries.antt =====
-- The objects of the registry, src/server/state.rs. An `Arc` is an address in one of three stores;
-- a `DashMap` is the list of its keys. The handle of the QUIC connection is left out: no operation
-- reads it.
use rusnel.Base.{ℕ, Option, List, Bytes}
use rusnel.Net.Addr.{SocketAddr}
use rusnel.Remote.{Direction, RemoteKind}

pub record ConnEntry : Type 0 where
  pub id : ℕ
  pub tunnel_id : ℕ
  pub client_id : ℕ
  pub opened_at : ℕ
  pub peer : Option Bytes
  pub bytes_in : ℕ
  pub bytes_out : ℕ

pub record TunnelEntry : Type 0 where
  pub id : ℕ
  pub client_id : ℕ
  pub direction : Direction
  pub kind : RemoteKind
  pub spec : Bytes
  pub opened_at : ℕ
  pub conns : List ℕ
  pub cumulative_in : ℕ
  pub cumulative_out : ℕ
  pub total_conns : ℕ

pub record ClientEntry : Type 0 where
  pub id : ℕ
  pub remote : SocketAddr
  pub connected_at : ℕ
  pub tunnels : List ℕ

pub record HistoryEntry : Type 0 where
  pub client_id : ℕ
  pub remote : Bytes
  pub connected_at_ms : ℕ
  pub disconnected_at_ms : ℕ
  pub reason : Bytes
  pub bytes_in : ℕ
  pub bytes_out : ℕ
  pub total_conns : ℕ

pub record Totals : Type 0 where
  pub active_in : ℕ
  pub active_out : ℕ
  pub cumulative_in : ℕ
  pub cumulative_out : ℕ
  pub active_conns : ℕ
  pub total_conns : ℕ

-- The maps `clients`, `tunnels` and `conns`, and the stores that their values point into.
pub record ServerState : Type 0 where
  pub started_at : ℕ
  pub listen_addr : SocketAddr
  pub next_tunnel_id : ℕ
  pub next_conn_id : ℕ
  pub clients : List ℕ
  pub tunnels : List ℕ
  pub conns : List ℕ
  pub history : List HistoryEntry
  pub client_at : ℕ → ClientEntry
  pub tunnel_at : ℕ → TunnelEntry
  pub conn_at : ℕ → ConnEntry
