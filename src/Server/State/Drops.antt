-- ===== src/Server/State/Drops.antt =====
-- The loop of `deregister_client` (src/server/state.rs) over the tunnels of a client, with their
-- conns.
use rusnel.Base.{
  ℕ, ◌≡◌, refl, arith, true, not, ◌&&◌, List, [], ◌∷◌, ◌==◌, mem, mem-remove_key, mem-remove_keys,
}
use rusnel.Server.Entries.{ServerState}
use rusnel.Server.State.{drop_tunnel, drop_tunnels}

-- The part of the invariant that holds while the tunnels of a client go one by one.
pub record IsLinked (s : ServerState) : Type 0 where
  pub linked :
      (t c : ℕ)
      → mem t s.tunnels ≡ true
      → mem c (s.tunnel_at t).conns ≡ true
      → (s.conn_at c).tunnel_id ≡ t
  pub lists :
      (c : ℕ) → mem c s.conns ≡ true → mem c (s.tunnel_at (s.conn_at c).tunnel_id).conns ≡ true

-- What the loop leaves alone.
pub record SameStores (s s' : ServerState) : Type 0 where
  pub clients : s'.clients ≡ s.clients
  pub client_at : s'.client_at ≡ s.client_at
  pub tunnel_at : s'.tunnel_at ≡ s.tunnel_at
  pub conn_at : s'.conn_at ≡ s.conn_at
  pub next_tunnel_id : s'.next_tunnel_id ≡ s.next_tunnel_id
  pub next_conn_id : s'.next_conn_id ≡ s.next_conn_id
  pub history : s'.history ≡ s.history

drop_tunnel-SameStores : (t : ℕ) (s : ServerState) → SameStores s (drop_tunnel t s)
unfolding drop_tunnel
drop_tunnel-SameStores t s = ground arith

pub drop_tunnels-SameStores : (ts : List ℕ) (s : ServerState) → SameStores s (drop_tunnels ts s)
unfolding drop_tunnels
drop_tunnels-SameStores [] s = ground arith
drop_tunnels-SameStores (t ∷ ts) s =
    ground (arith, drop_tunnel-SameStores t s, drop_tunnels-SameStores ts (drop_tunnel t s))

mem-drop_tunnel :
    (j t : ℕ) (s : ServerState)
    → mem j (drop_tunnel t s).tunnels ≡ (not (t == j) && mem j s.tunnels)
unfolding drop_tunnel
mem-drop_tunnel j t s = ground (arith, mem-remove_key j t s.tunnels)

pub mem-drop_tunnels :
    (j : ℕ) (ts : List ℕ) (s : ServerState)
    → mem j (drop_tunnels ts s).tunnels ≡ (not (mem j ts) && mem j s.tunnels)
unfolding drop_tunnels
mem-drop_tunnels j [] s = refl
mem-drop_tunnels j (t ∷ ts) s =
    ground (arith, mem-drop_tunnels j ts (drop_tunnel t s), mem-drop_tunnel j t s)

conns-drop_tunnel :
    (c t : ℕ) (s : ServerState)
    → IsLinked s
    → mem c (drop_tunnel t s).conns
      ≡ (mem c s.conns && not (t == (s.conn_at c).tunnel_id && mem t s.tunnels))
unfolding drop_tunnel
conns-drop_tunnel c t s v =
    ground (arith, mem-remove_keys c (s.tunnel_at t).conns s.conns, v.linked t c, v.lists c)

drop_tunnel-IsLinked : (t : ℕ) (s : ServerState) → IsLinked s → IsLinked (drop_tunnel t s)
drop_tunnel-IsLinked t s v =
    let q = drop_tunnel-SameStores t s in
    record {
      linked = λ u c h g.
          rw q.conn_at (v.linked u c (ground (arith, mem-drop_tunnel u t s)) (rw q.tunnel_at at g));
      lists = λ c h.
          rw (q.conn_at, q.tunnel_at) (v.lists c (ground (arith, conns-drop_tunnel c t s v)));
    }

pub conns-drop_tunnels :
    (c : ℕ) (ts : List ℕ) (s : ServerState)
    → IsLinked s
    → mem c (drop_tunnels ts s).conns ≡ (
        mem c s.conns
        && not (mem (s.conn_at c).tunnel_id ts && mem (s.conn_at c).tunnel_id s.tunnels))
unfolding drop_tunnels
conns-drop_tunnels c [] s v = ground arith
conns-drop_tunnels c (t ∷ ts) s v =
    let q = drop_tunnel-SameStores t s in
    let later = conns-drop_tunnels c ts (drop_tunnel t s) (drop_tunnel-IsLinked t s v) in
    ground (
      arith,
      rw q.conn_at at later,
      conns-drop_tunnel c t s v,
      mem-drop_tunnel (s.conn_at c).tunnel_id t s,
    )

-- The loop over the tunnels writes no history.
pub drop_tunnels_history : (ts : List ℕ) (s : ServerState) → (drop_tunnels ts s).history ≡ s.history
drop_tunnels_history ts s = (drop_tunnels-SameStores ts s).history
