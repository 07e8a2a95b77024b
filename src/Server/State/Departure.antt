-- ===== src/Server/State/Departure.antt =====
-- What `deregister_client` removes, and that it removes nothing else.
use rusnel.Base.{
  sym, Bool-cases, remove_key_absent, inl, inr, ℕ, ◌≡◌, arith, true, false, not, ◌&&◌, Bytes, ◌==◌,
  Bool-cases, inl, inr, mem, remove_key, mem-remove_key,
}
use rusnel.Server.Entries.{ServerState}
use rusnel.Server.State.{deregister_client}
use rusnel.Server.State.Coherence.{IsCoherent}
use rusnel.Server.State.Invariant.{IsConsistent, HasParents}
use rusnel.Server.State.Drops.{
  IsLinked, drop_tunnels-SameStores, mem-drop_tunnels, conns-drop_tunnels,
}

-- After client `id` has left `s`, the maps of `s'` hold what does not belong to it, and the conns
-- whose tunnels had left the map before.
record Departs (id : ℕ) (s s' : ServerState) : Type 0 where
  clients : (k : ℕ) → mem k s'.clients ≡ (not (id == k) && mem k s.clients)
  tunnels : (t : ℕ) → mem t s'.tunnels ≡ (not ((s.tunnel_at t).client_id == id) && mem t s.tunnels)
  conns :
      (c : ℕ)
      → mem c s'.conns ≡ (
          mem c s.conns
          && not (
              (s.tunnel_at (s.conn_at c).tunnel_id).client_id == id
              && mem (s.conn_at c).tunnel_id s.tunnels))
  client_at : s'.client_at ≡ s.client_at
  tunnel_at : s'.tunnel_at ≡ s.tunnel_at
  conn_at : s'.conn_at ≡ s.conn_at
  next_tunnel_id : s'.next_tunnel_id ≡ s.next_tunnel_id
  next_conn_id : s'.next_conn_id ≡ s.next_conn_id

-- After client `id` has left `s`, the maps of `s'` hold what does not belong to it, and no more.
pub record HasLeft (id : ℕ) (s s' : ServerState) : Type 0 where
  pub clients : (k : ℕ) → mem k s'.clients ≡ (not (id == k) && mem k s.clients)
  pub tunnels :
      (t : ℕ) → mem t s'.tunnels ≡ (not ((s.tunnel_at t).client_id == id) && mem t s.tunnels)
  pub conns :
      (c : ℕ)
      → mem c s'.conns
        ≡ (mem c s.conns && not ((s.tunnel_at (s.conn_at c).tunnel_id).client_id == id))
  pub client_at : s'.client_at ≡ s.client_at
  pub tunnel_at : s'.tunnel_at ≡ s.tunnel_at
  pub conn_at : s'.conn_at ≡ s.conn_at
  pub next_tunnel_id : s'.next_tunnel_id ≡ s.next_tunnel_id
  pub next_conn_id : s'.next_conn_id ≡ s.next_conn_id

IsLinked-without :
    (id : ℕ) (s : ServerState)
    → IsCoherent s
    → IsLinked (record s { clients = remove_key id s.clients })
IsLinked-without id s v = record {
  linked = λ t c h g. (v.listed_conn t c h g).1;
  lists = v.parent_lists;
}

-- The tunnels of a connected client are those that it lists.
pub listed_iff :
    (id t : ℕ) (s : ServerState)
    → IsCoherent s
    → mem id s.clients ≡ true
    → mem t s.tunnels ≡ true
    → mem t (s.client_at id).tunnels ≡ ((s.tunnel_at t).client_id == id)
listed_iff id t s v live h = ground (arith, v.listed_tunnel id t live, v.owner_lists t h)

deregister_client-Departs :
    (now id : ℕ) (reason : Bytes) (s : ServerState)
    → IsCoherent s
    → mem id s.clients ≡ true
    → Departs id s (deregister_client now id reason s)
unfolding deregister_client
deregister_client-Departs now id reason s v live =
    let s1 = record s { clients = remove_key id s.clients } in
    let ts = (s.client_at id).tunnels in
    let q = drop_tunnels-SameStores ts s1 in
    rw live (record {
      clients = λ k. rw q.clients (mem-remove_key k id s.clients);
      tunnels = λ t. ground (arith, mem-drop_tunnels t ts s1, listed_iff id t s v live);
      conns = λ c. ground (
        arith,
        conns-drop_tunnels c ts s1 (IsLinked-without id s v),
        listed_iff id (s.conn_at c).tunnel_id s v live,
      );
      client_at = q.client_at;
      tunnel_at = q.tunnel_at;
      conn_at = q.conn_at;
      next_tunnel_id = q.next_tunnel_id;
      next_conn_id = q.next_conn_id;
    })

-- In a consistent registry, where the tunnel of each conn is in the map, the departure of a
-- connected client takes it, exactly the tunnels that are its own and exactly the conns of those
-- out of the maps; the entries behind the maps and the id counters stay as they were.
pub deregister_client-HasLeft :
    (now id : ℕ) (reason : Bytes) (s : ServerState)
    → IsConsistent s
    → mem id s.clients ≡ true
    → HasLeft id s (deregister_client now id reason s)
deregister_client-HasLeft now id reason s v live =
    let d = deregister_client-Departs now id reason s v.coherent live in
    record {
      clients = d.clients;
      tunnels = d.tunnels;
      conns = λ c. ground (arith, d.conns c, v.parent_live c);
      client_at = d.client_at;
      tunnel_at = d.tunnel_at;
      conn_at = d.conn_at;
      next_tunnel_id = d.next_tunnel_id;
      next_conn_id = d.next_conn_id;
    }

-- A client that is not there is not taken away: the call changes nothing, the history neither.
pub deregister_client_absent :
    (now id : ℕ) (reason : Bytes) (s : ServerState)
    → mem id s.clients ≡ false
    → deregister_client now id reason s ≡ s
unfolding deregister_client
deregister_client_absent now id reason s absent = rw absent

-- The client is taken out of the map of clients, and no other.
pub deregister_client_clients :
    (now id : ℕ) (reason : Bytes) (s : ServerState)
    → (deregister_client now id reason s).clients ≡ remove_key id s.clients
unfolding deregister_client
deregister_client_clients now id reason s = elim (Bool-cases (mem id s.clients)) [
  | inl t ↦
      rw t
        (drop_tunnels-SameStores (s.client_at id).tunnels
          (record s { clients = remove_key id s.clients })).clients
  | inr f ↦ rw f (sym (remove_key_absent id s.clients f))
]

Departs-IsCoherent : (id : ℕ) (s s' : ServerState) → IsCoherent s → Departs id s s' → IsCoherent s'
Departs-IsCoherent id s s' v left = record {
  client_id = λ k h. rw left.client_at (v.client_id k (ground (arith, left.clients k)));
  tunnel_id = λ t h. rw left.tunnel_at (v.tunnel_id t (ground (arith, left.tunnels t)));
  conn_id = λ c h. rw left.conn_at (v.conn_id c (ground (arith, left.conns c)));
  owner_live = λ t h.
      rw left.tunnel_at
        (ground (arith, left.tunnels t, left.clients (s.tunnel_at t).client_id, v.owner_live t));
  owner_lists =
      λ t h. rw (left.client_at, left.tunnel_at) (v.owner_lists t (ground (arith, left.tunnels t)));
  parent_bound = λ c h.
      rw (left.conn_at, left.next_tunnel_id) (v.parent_bound c (ground (arith, left.conns c)));
  parent_lists =
      λ c h. rw (left.conn_at, left.tunnel_at) (v.parent_lists c (ground (arith, left.conns c)));
  conn_client =
      λ c h. rw (left.conn_at, left.tunnel_at) (v.conn_client c (ground (arith, left.conns c)));
  listed_tunnel = λ k t h g.
      let g' = rw left.client_at at g in
      rw left.tunnel_at (ground (arith, left.clients k, left.tunnels t, v.listed_tunnel k t));
  listed_conn = λ t c h g.
      let g' = rw left.tunnel_at at g in
      rw left.conn_at (ground (arith, left.tunnels t, left.conns c, v.listed_conn t c));
  tunnel_bound = λ t h. rw left.next_tunnel_id (v.tunnel_bound t (ground (arith, left.tunnels t)));
  conn_bound = λ c h. rw left.next_conn_id (v.conn_bound c (ground (arith, left.conns c)));
}

pub deregister_client-IsCoherent :
    (now id : ℕ) (reason : Bytes) (s : ServerState)
    → IsCoherent s
    → IsCoherent (deregister_client now id reason s)
deregister_client-IsCoherent now id reason s v = elim (Bool-cases (mem id s.clients)) [
  | inl live ↦ Departs-IsCoherent id s _ v (deregister_client-Departs now id reason s v live)
  | inr absent ↦ rw (deregister_client_absent now id reason s absent) v
]

-- The conns that stay have their tunnels still.
deregister_client-HasParents :
    (now id : ℕ) (reason : Bytes) (s : ServerState)
    → IsConsistent s
    → HasParents (deregister_client now id reason s)
deregister_client-HasParents now id reason s v = elim (Bool-cases (mem id s.clients)) [
  | inl live ↦
      let left = deregister_client-HasLeft now id reason s v live in
      λ c h.
        rw left.conn_at
          (ground (arith, left.conns c, left.tunnels (s.conn_at c).tunnel_id, v.parent_live c))
  | inr absent ↦ rw (deregister_client_absent now id reason s absent) v.parent_live
]

pub deregister_client-IsConsistent :
    (now id : ℕ) (reason : Bytes) (s : ServerState)
    → IsConsistent s
    → IsConsistent (deregister_client now id reason s)
deregister_client-IsConsistent now id reason s v = record {
  coherent = deregister_client-IsCoherent now id reason s v.coherent;
  parent_live = deregister_client-HasParents now id reason s v;
}

-- The stores and the counters stay as they were, whether the client was there or not.
pub deregister_client_stores :
    (now id : ℕ) (reason : Bytes) (s : ServerState)
    → ((deregister_client now id reason s).tunnel_at ≡ s.tunnel_at)
      × ((deregister_client now id reason s).next_tunnel_id ≡ s.next_tunnel_id)
unfolding deregister_client
deregister_client_stores now id reason s =
    let q =
      drop_tunnels-SameStores (s.client_at id).tunnels
        (record s { clients = remove_key id s.clients }) in
    ground (arith, q.tunnel_at, q.next_tunnel_id)
