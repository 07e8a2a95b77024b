-- ===== src/Server/State/Coherence.antt =====
-- The maps of the registry and the cross references of its entries agree, after every operation. A
-- conn may be registered late, when its tunnel has left the map.
use rusnel.Base.{
  ℕ, ◌+◌, ◌≤◌, ◌<◌, ◌^◌, ◌≡◌, refl, arith, true, false, Option, Bytes, ◌==◌, Bool-cases, inl, inr,
  mem, put, mem-insert_key, mem-remove_key,
}
use rusnel.Net.Addr.{SocketAddr}
use rusnel.Remote.{RemoteRequest}
use rusnel.Server.Entries.{ConnEntry, TunnelEntry, ClientEntry, ServerState}
use rusnel.Server.State.{
  add64, new, register_client, register_tunnel, register_conn, add_in, add_out, close_conn,
}

-- Every id that is handed out next is new: the counters have not wrapped around.
pub record IsCoherent (s : ServerState) : Type 0 where
  -- An entry stands under its own id.
  pub client_id : (k : ℕ) → mem k s.clients ≡ true → (s.client_at k).id ≡ k
  pub tunnel_id : (t : ℕ) → mem t s.tunnels ≡ true → (s.tunnel_at t).id ≡ t
  pub conn_id : (c : ℕ) → mem c s.conns ≡ true → (s.conn_at c).id ≡ c
  -- A tunnel in the map belongs to a connected client, which lists it.
  pub owner_live : (t : ℕ) → mem t s.tunnels ≡ true → mem (s.tunnel_at t).client_id s.clients ≡ true
  pub owner_lists :
      (t : ℕ)
      → mem t s.tunnels ≡ true
      → mem t (s.client_at (s.tunnel_at t).client_id).tunnels ≡ true
  -- A conn in the map runs through a tunnel that was registered, perhaps of a client that has left,
  -- and that lists it.
  pub parent_bound : (c : ℕ) → mem c s.conns ≡ true → (s.conn_at c).tunnel_id ≤ s.next_tunnel_id
  pub parent_lists :
      (c : ℕ) → mem c s.conns ≡ true → mem c (s.tunnel_at (s.conn_at c).tunnel_id).conns ≡ true
  -- A conn in the map belongs to the client of its tunnel.
  pub conn_client :
      (c : ℕ)
      → mem c s.conns ≡ true
      → (s.conn_at c).client_id ≡ (s.tunnel_at (s.conn_at c).tunnel_id).client_id
  -- What a connected client lists is its own, and in the map.
  pub listed_tunnel :
      (k t : ℕ)
      → mem k s.clients ≡ true
      → mem t (s.client_at k).tunnels ≡ true
      → (mem t s.tunnels ≡ true) × ((s.tunnel_at t).client_id ≡ k)
  -- What a tunnel in the map lists runs through it, and is in the map.
  pub listed_conn :
      (t c : ℕ)
      → mem t s.tunnels ≡ true
      → mem c (s.tunnel_at t).conns ≡ true
      → (mem c s.conns ≡ true) × ((s.conn_at c).tunnel_id ≡ t)
  -- Ids are handed out in order.
  pub tunnel_bound : (t : ℕ) → mem t s.tunnels ≡ true → t ≤ s.next_tunnel_id
  pub conn_bound : (c : ℕ) → mem c s.conns ≡ true → c ≤ s.next_conn_id

-- A server that has just started is coherent.
pub new-IsCoherent :
    (now : ℕ) (addr : SocketAddr) (cs : ℕ → ClientEntry) (ts : ℕ → TunnelEntry) (es : ℕ → ConnEntry)
    → IsCoherent (new now addr cs ts es)
unfolding new
new-IsCoherent now addr cs ts es = record {
  client_id = λ k h. cc;
  tunnel_id = λ k h. cc;
  conn_id = λ k h. cc;
  owner_live = λ k h. cc;
  owner_lists = λ k h. cc;
  parent_bound = λ k h. cc;
  parent_lists = λ k h. cc;
  conn_client = λ k h. cc;
  listed_tunnel = λ k t h g. cc;
  listed_conn = λ t c h g. cc;
  tunnel_bound = λ k h. cc;
  conn_bound = λ k h. cc;
}

pub register_client-IsCoherent :
    (now id : ℕ) (remote : SocketAddr) (s : ServerState)
    → IsCoherent s
    → mem id s.clients ≡ false
    → IsCoherent (register_client now id remote s)
unfolding register_client
register_client-IsCoherent now id remote s v fresh = record {
  client_id = λ k h. ground (arith, mem-insert_key k id s.clients, v.client_id k);
  tunnel_id = v.tunnel_id;
  conn_id = v.conn_id;
  owner_live =
      λ t h. ground (arith, mem-insert_key (s.tunnel_at t).client_id id s.clients, v.owner_live t);
  owner_lists = λ t h. ground (arith, v.owner_live t, v.owner_lists t);
  parent_bound = v.parent_bound;
  parent_lists = v.parent_lists;
  conn_client = v.conn_client;
  listed_tunnel = λ k t h g. ground (arith, mem-insert_key k id s.clients, v.listed_tunnel k t);
  listed_conn = v.listed_conn;
  tunnel_bound = v.tunnel_bound;
  conn_bound = v.conn_bound;
}

pub register_tunnel-IsCoherent :
    (now client : ℕ) (req : RemoteRequest) (s : ServerState)
    → IsCoherent s
    → mem client s.clients ≡ true
    → s.next_tunnel_id + 1 < 2 ^ 64
    → IsCoherent (register_tunnel now client req s).1
unfolding register_tunnel
register_tunnel-IsCoherent now client req s v live room =
    let id = add64 s.next_tunnel_id 1 in
    let in_map = λ (t : ℕ). mem-insert_key t id s.tunnels in
    let listed = λ (t : ℕ). mem-insert_key t id (s.client_at client).tunnels in
    record {
      client_id = λ k h. ground (arith, v.client_id k, v.client_id client);
      tunnel_id = λ t h. ground (arith, in_map t, v.tunnel_id t);
      conn_id = v.conn_id;
      owner_live = λ t h. ground (arith, in_map t, v.owner_live t, v.client_id client);
      owner_lists = λ t h. ground (arith, in_map t, listed t, v.owner_lists t, v.client_id client);
      parent_bound = λ c h. ground (arith, v.parent_bound c);
      parent_lists = λ c h. ground (arith, v.parent_bound c, v.parent_lists c);
      conn_client = λ c h. ground (arith, v.parent_bound c, v.conn_client c);
      listed_tunnel = λ k t h g. ground (
        arith,
        in_map t,
        listed t,
        v.client_id client,
        v.listed_tunnel k t,
        v.listed_tunnel client t,
        v.tunnel_bound t,
      );
      listed_conn = λ t c h g. ground (arith, in_map t, v.listed_conn t c);
      tunnel_bound = λ t h. ground (arith, in_map t, v.tunnel_bound t);
      conn_bound = v.conn_bound;
    }

-- An `Arc` of a tunnel that was registered, in the map or not.
abbrev pub IsHandle : ℕ → ServerState → Type 0
IsHandle t s = (t ≤ s.next_tunnel_id) × ((s.tunnel_at t).id ≡ t)

pub register_conn-IsCoherent :
    (now t : ℕ) (peer : Option Bytes) (s : ServerState)
    → IsCoherent s
    → IsHandle t s
    → s.next_conn_id + 1 < 2 ^ 64
    → IsCoherent (register_conn now t peer s).1
unfolding register_conn
register_conn-IsCoherent now t peer s v own room =
    let id = add64 s.next_conn_id 1 in
    let in_map = λ (c : ℕ). mem-insert_key c id s.conns in
    let listed = λ (c : ℕ). mem-insert_key c id (s.tunnel_at t).conns in
    record {
      client_id = v.client_id;
      tunnel_id = λ u h. ground (arith, v.tunnel_id u, own);
      conn_id = λ c h. ground (arith, in_map c, v.conn_id c);
      owner_live = λ u h. ground (arith, v.owner_live u, v.owner_live t);
      owner_lists = λ u h. ground (arith, v.owner_lists u, v.owner_lists t);
      parent_bound = λ c h. ground (arith, in_map c, v.parent_bound c, own);
      parent_lists = λ c h. ground (arith, in_map c, listed c, v.parent_lists c, own);
      conn_client = λ c h. ground (arith, in_map c, v.conn_client c, own);
      listed_tunnel = λ k u h g. ground (arith, v.listed_tunnel k u, v.listed_tunnel k t);
      listed_conn = λ u c h g.
          ground
            (arith, in_map c, listed c, v.listed_conn u c, v.listed_conn t c, own, v.conn_bound c);
      tunnel_bound = v.tunnel_bound;
      conn_bound = λ c h. ground (arith, in_map c, v.conn_bound c);
    }

pub close_conn-IsCoherent :
    (t c : ℕ) (s : ServerState)
    → IsCoherent s
    → (mem c s.conns ≡ true → (s.conn_at c).tunnel_id ≡ t)
    → IsCoherent (close_conn t c s)
unfolding close_conn
close_conn-IsCoherent t c s v own =
    let in_map = λ (d : ℕ). mem-remove_key d c s.conns in
    let listed = λ (d : ℕ). mem-remove_key d c (s.tunnel_at t).conns in
    record {
      client_id = v.client_id;
      tunnel_id = λ u h. ground (arith, v.tunnel_id u, v.tunnel_id t);
      conn_id = λ d h. ground (arith, in_map d, v.conn_id d);
      owner_live = λ u h. ground (arith, v.owner_live u, v.owner_live t);
      owner_lists = λ u h. ground (arith, v.owner_lists u, v.owner_lists t);
      parent_bound = λ d h. ground (arith, in_map d, v.parent_bound d);
      parent_lists = λ d h. ground (arith, in_map d, listed d, v.parent_lists d);
      conn_client = λ d h. ground (arith, in_map d, v.conn_client d);
      listed_tunnel = λ k u h g. ground (arith, v.listed_tunnel k u, v.listed_tunnel k t);
      listed_conn = λ u d h g.
          ground (
            arith,
            in_map d,
            listed d,
            v.listed_conn u d,
            v.listed_conn t d,
            v.listed_conn u c,
            own,
          );
      tunnel_bound = v.tunnel_bound;
      conn_bound = λ d h. ground (arith, in_map d, v.conn_bound d);
    }

-- Counters are no part of the cross references.
counters-IsCoherent :
    (c : ℕ) (e : ConnEntry) (s : ServerState)
    → IsCoherent s
    → e.id ≡ (s.conn_at c).id
    → e.tunnel_id ≡ (s.conn_at c).tunnel_id
    → e.client_id ≡ (s.conn_at c).client_id
    → IsCoherent (record s { conn_at = put s.conn_at c e })
counters-IsCoherent c e s v same_id same_tunnel same_client = record {
  client_id = v.client_id;
  tunnel_id = v.tunnel_id;
  conn_id = λ d h. ground (arith, v.conn_id d);
  owner_live = v.owner_live;
  owner_lists = v.owner_lists;
  parent_bound = λ d h. ground (arith, v.parent_bound d);
  parent_lists = λ d h. ground (arith, v.parent_lists d);
  conn_client = λ d h. ground (arith, v.conn_client d);
  listed_tunnel = v.listed_tunnel;
  listed_conn = λ t d h g. ground (arith, v.listed_conn t d);
  tunnel_bound = v.tunnel_bound;
  conn_bound = v.conn_bound;
}

pub add_in-IsCoherent : (c n : ℕ) (s : ServerState) → IsCoherent s → IsCoherent (add_in c n s)
unfolding add_in
add_in-IsCoherent c n s v = elim (Bool-cases (n == 0)) [
  | inl none_read ↦ rw none_read v
  | inr some_read ↦ rw some_read (counters-IsCoherent c _ s v refl refl refl)
]

pub add_out-IsCoherent : (c n : ℕ) (s : ServerState) → IsCoherent s → IsCoherent (add_out c n s)
unfolding add_out
add_out-IsCoherent c n s v = elim (Bool-cases (n == 0)) [
  | inl none_sent ↦ rw none_sent v
  | inr some_sent ↦ rw some_sent (counters-IsCoherent c _ s v refl refl refl)
]
