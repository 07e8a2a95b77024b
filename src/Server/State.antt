-- ===== src/Server/State.antt =====
-- src/server/state.rs: the registry. An `Arc` is an address in one of three stores, so that an
-- entry lives on after it has left the maps; a `DashMap` is the list of its keys, since each value
-- stands at the address that is its key. The clock is an argument, in milliseconds. The lock of the
-- history is never poisoned, since no code panics under it.
pub mod Coherence
pub mod Invariant
pub mod Drops
pub mod Departure
pub mod Accounting
pub mod History
use rusnel.Base.{
  ℕ, ◌+◌, ◌%◌, ◌^◌, Bool, true, false, Option, none, some, List, [], ◌∷◌, ◌++◌, Bytes, length, take,
  min, ◌==◌, if◌then◌else◌, mem, insert_key, remove_key, remove_keys, put,
}
use rusnel.Net.Addr.{SocketAddr, show_socket_addr}
use rusnel.Remote.{Direction, RemoteKind, RemoteRequest}
use rusnel.Server.Entries.{ConnEntry, TunnelEntry, ClientEntry, HistoryEntry, Totals, ServerState}
use rusnel.Remote.Display.{show_request}

-- `AtomicU64::fetch_add` and the sums of counters wrap around.
abbrev pub add64 : ℕ → ℕ → ℕ
add64 a b = (a + b) % 2 ^ 64

abbrev pub history_capacity : ℕ
history_capacity = 256

-- What stands at addresses that hold no object yet is a parameter: no operation reads it.
unfoldable pub new :
    ℕ → SocketAddr → (ℕ → ClientEntry) → (ℕ → TunnelEntry) → (ℕ → ConnEntry) → ServerState
new now addr clients tunnels conns = record {
  started_at = now;
  listen_addr = addr;
  next_tunnel_id = 0;
  next_conn_id = 0;
  clients = [];
  tunnels = [];
  conns = [];
  history = [];
  client_at = clients;
  tunnel_at = tunnels;
  conn_at = conns;
}

abbrev sum64 : (ℕ → ℕ) → List ℕ → ℕ
sum64 f [] = 0
sum64 f (k ∷ ks) = add64 (f k) (sum64 f ks)

-- `TunnelEntry::totals`
unfoldable pub tunnel_totals : ServerState → TunnelEntry → Totals
tunnel_totals s t = record {
  active_in = sum64 (λ c. (s.conn_at c).bytes_in) t.conns;
  active_out = sum64 (λ c. (s.conn_at c).bytes_out) t.conns;
  cumulative_in = t.cumulative_in;
  cumulative_out = t.cumulative_out;
  active_conns = length t.conns;
  total_conns = t.total_conns;
}

abbrev zero_totals : Totals
zero_totals = record {
  active_in = 0;
  active_out = 0;
  cumulative_in = 0;
  cumulative_out = 0;
  active_conns = 0;
  total_conns = 0;
}

abbrev add_totals : Totals → Totals → Totals
add_totals a b = record {
  active_in = add64 a.active_in b.active_in;
  active_out = add64 a.active_out b.active_out;
  cumulative_in = add64 a.cumulative_in b.cumulative_in;
  cumulative_out = add64 a.cumulative_out b.cumulative_out;
  active_conns = add64 a.active_conns b.active_conns;
  total_conns = add64 a.total_conns b.total_conns;
}

sum_totals : ServerState → Totals → List ℕ → Totals
unfolding tunnel_totals
sum_totals s acc [] = acc
sum_totals s acc (t ∷ ts) = sum_totals s (add_totals acc (tunnel_totals s (s.tunnel_at t))) ts

-- `ClientEntry::totals`
unfoldable pub client_totals : ServerState → ClientEntry → Totals
unfolding sum_totals
client_totals s c = sum_totals s zero_totals c.tunnels

unfoldable pub register_client : ℕ → ℕ → SocketAddr → ServerState → ServerState
register_client now id remote s = record s {
  clients = insert_key id s.clients;
  client_at =
      put s.client_at id (record { id = id; remote = remote; connected_at = now; tunnels = [] });
}

-- One round of `register_tunnels`: the new id and the new state.
unfoldable pub register_tunnel : ℕ → ℕ → RemoteRequest → ServerState → ℕ × ServerState
register_tunnel now client req s =
    let id = add64 s.next_tunnel_id 1 in
    let owner = s.client_at client in
    let entry : TunnelEntry = record {
      id = id;
      client_id = owner.id;
      direction = req.direction;
      kind = req.kind;
      spec = show_request req;
      opened_at = now;
      conns = [];
      cumulative_in = 0;
      cumulative_out = 0;
      total_conns = 0;
    } in
    (
      id,
      record s {
        next_tunnel_id = add64 s.next_tunnel_id 1;
        tunnels = insert_key id s.tunnels;
        client_at = put s.client_at client (record owner { tunnels = insert_key id owner.tunnels });
        tunnel_at = put s.tunnel_at id entry;
      },
    )

unfoldable pub register_tunnels : ℕ → ℕ → List RemoteRequest → ServerState → List ℕ × ServerState
register_tunnels now client [] s = ([], s)
register_tunnels now client (req ∷ reqs) s =
    let (id, s1) = register_tunnel now client req s in
    let (ids, s2) = register_tunnels now client reqs s1 in (id ∷ ids, s2)

-- `tunnel(id)`: the entry behind the key, if the map has it.
unfoldable pub tunnel : ℕ → ServerState → Option TunnelEntry
tunnel id s = if mem id s.tunnels then some (s.tunnel_at id) else none

unfoldable pub conn : ℕ → ServerState → Option ConnEntry
conn id s = if mem id s.conns then some (s.conn_at id) else none

unfoldable pub client : ℕ → ServerState → Option ClientEntry
client id s = if mem id s.clients then some (s.client_at id) else none

-- The tunnel is an `Arc`, so it may have left the map.
unfoldable pub register_conn : ℕ → ℕ → Option Bytes → ServerState → ℕ × ServerState
register_conn now t peer s =
    let id = add64 s.next_conn_id 1 in
    let parent = s.tunnel_at t in
    let entry : ConnEntry = record {
      id = id;
      tunnel_id = parent.id;
      client_id = parent.client_id;
      opened_at = now;
      peer = peer;
      bytes_in = 0;
      bytes_out = 0;
    } in
    (
      id,
      record s {
        next_conn_id = add64 s.next_conn_id 1;
        conns = insert_key id s.conns;
        conn_at = put s.conn_at id entry;
        tunnel_at = put s.tunnel_at t (record parent {
          conns = insert_key id parent.conns;
          total_conns = add64 parent.total_conns 1;
        });
      },
    )

-- `TunnelCounters::add_in` and `add_out` on the counters of a conn (src/common/counted.rs).
unfoldable pub add_in : ℕ → ℕ → ServerState → ServerState
add_in c n s =
    let e = s.conn_at c in
    if n == 0
    then s
    else record s { conn_at = put s.conn_at c (record e { bytes_in = add64 e.bytes_in n }) }

unfoldable pub add_out : ℕ → ℕ → ServerState → ServerState
add_out c n s =
    let e = s.conn_at c in
    if n == 0
    then s
    else record s { conn_at = put s.conn_at c (record e { bytes_out = add64 e.bytes_out n }) }

-- The drop of a `ConnGuard`.
unfoldable pub close_conn : ℕ → ℕ → ServerState → ServerState
close_conn t c s =
    let e = s.conn_at c in
    let parent = s.tunnel_at t in
    record s {
      conns = remove_key c s.conns;
      tunnel_at = put s.tunnel_at t (record parent {
        conns = remove_key c parent.conns;
        cumulative_in = add64 parent.cumulative_in e.bytes_in;
        cumulative_out = add64 parent.cumulative_out e.bytes_out;
      });
    }

-- One tunnel of a client that leaves, with the conns that it lists.
unfoldable pub drop_tunnel : ℕ → ServerState → ServerState
drop_tunnel t s =
    if mem t s.tunnels
    then record s {
      tunnels = remove_key t s.tunnels;
      conns = remove_keys (s.tunnel_at t).conns s.conns;
    }
    else s

-- The loop of `deregister_client` over the tunnels of the client.
unfoldable pub drop_tunnels : List ℕ → ServerState → ServerState
drop_tunnels [] s = s
drop_tunnels (t ∷ ts) s = drop_tunnels ts (drop_tunnel t s)

abbrev pop_front {ℓ} : {A : Type ℓ} → List A → List A
pop_front [] = []
pop_front (x ∷ xs) = xs

-- The oldest entry makes room when the buffer is full.
unfoldable pub push_history : HistoryEntry → List HistoryEntry → List HistoryEntry
push_history h hist = (if length hist == history_capacity then pop_front hist else hist) ++ (h ∷ [])

abbrev pub history_entry : ℕ → Bytes → ServerState → ClientEntry → HistoryEntry
history_entry now reason s e =
    let t = client_totals s e in
    record {
      client_id = e.id;
      remote = show_socket_addr e.remote;
      connected_at_ms = e.connected_at;
      disconnected_at_ms = now;
      reason = reason;
      bytes_in = add64 t.active_in t.cumulative_in;
      bytes_out = add64 t.active_out t.cumulative_out;
      total_conns = t.total_conns;
    }

unfoldable pub deregister_client : ℕ → ℕ → Bytes → ServerState → ServerState
deregister_client now id reason s =
    if mem id s.clients
    then (let e = s.client_at id in
        let s1 = record s { clients = remove_key id s.clients } in
        let s2 = drop_tunnels e.tunnels s1 in
        record s2 { history = push_history (history_entry now reason s e) s2.history })
    else s

abbrev reverse_onto {ℓ} : {A : Type ℓ} → List A → List A → List A
reverse_onto [] acc = acc
reverse_onto (x ∷ xs) acc = reverse_onto xs (x ∷ acc)

-- The most recent entries first, `limit` at most.
unfoldable pub history_snapshot : ℕ → ServerState → List HistoryEntry
history_snapshot limit s = take (min limit (length s.history)) (reverse_onto s.history [])
