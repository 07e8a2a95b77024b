-- ===== src/Server/State/Invariant.antt =====
-- A registry in which no conn was registered late: the tunnel of each conn is in the map.
use rusnel.Base.{
  List, [], ◌∷◌, ℕ, ◌≡◌, arith, true, Option, Bytes, mem, mem-insert_key, mem-remove_key,
}
use rusnel.Net.Addr.{SocketAddr}
use rusnel.Remote.{RemoteRequest}
use rusnel.Server.Entries.{ServerState, ConnEntry, TunnelEntry, ClientEntry}
use rusnel.Server.State.{
  add64, new, register_client, register_tunnel, register_tunnels, register_conn, add_in, add_out,
  close_conn,
}
use rusnel.Server.State.Coherence.{IsCoherent, new-IsCoherent}

abbrev pub HasParents : ServerState → Type 0
HasParents s = (c : ℕ) → mem c s.conns ≡ true → mem (s.conn_at c).tunnel_id s.tunnels ≡ true

pub record IsConsistent (s : ServerState) : Type 0 where
  pub coherent : IsCoherent s
  pub parent_live : HasParents s

-- A server that has just started is consistent.
pub new-IsConsistent :
    (now : ℕ) (addr : SocketAddr) (cs : ℕ → ClientEntry) (ts : ℕ → TunnelEntry) (es : ℕ → ConnEntry)
    → IsConsistent (new now addr cs ts es)
unfolding new
new-IsConsistent now addr cs ts es = record {
  coherent = new-IsCoherent now addr cs ts es;
  parent_live = λ c h. cc;
}

pub register_client-HasParents :
    (now id : ℕ) (remote : SocketAddr) (s : ServerState)
    → HasParents s
    → HasParents (register_client now id remote s)
unfolding register_client
register_client-HasParents now id remote s v = v

register_tunnel-HasParents :
    (now client : ℕ) (req : RemoteRequest) (s : ServerState)
    → HasParents s
    → HasParents (register_tunnel now client req s).1
unfolding register_tunnel
register_tunnel-HasParents now client req s v c h =
    ground (arith, mem-insert_key (s.conn_at c).tunnel_id (add64 s.next_tunnel_id 1) s.tunnels, v c)

pub register_tunnels-HasParents :
    (now client : ℕ) (reqs : List RemoteRequest) (s : ServerState)
    → HasParents s
    → HasParents (register_tunnels now client reqs s).1
unfolding register_tunnels
register_tunnels-HasParents now client [] s v = v
register_tunnels-HasParents now client (req ∷ reqs) s v =
    register_tunnels-HasParents now client reqs (register_tunnel now client req s).1
      (register_tunnel-HasParents now client req s v)

-- A conn that is registered in time has its tunnel in the map.
pub register_conn-HasParents :
    (now t : ℕ) (peer : Option Bytes) (s : ServerState)
    → (s.tunnel_at t).id ≡ t
    → mem t s.tunnels ≡ true
    → HasParents s
    → HasParents (register_conn now t peer s).1
unfolding register_conn
register_conn-HasParents now t peer s own live v c h =
    ground (arith, mem-insert_key c (add64 s.next_conn_id 1) s.conns, v c)

pub close_conn-HasParents :
    (t c : ℕ) (s : ServerState) → HasParents s → HasParents (close_conn t c s)
unfolding close_conn
close_conn-HasParents t c s v d h = ground (arith, mem-remove_key d c s.conns, v d)

pub add_in-HasParents : (c n : ℕ) (s : ServerState) → HasParents s → HasParents (add_in c n s)
unfolding add_in
add_in-HasParents c n s v d h = ground (arith, v d)

pub add_out-HasParents : (c n : ℕ) (s : ServerState) → HasParents s → HasParents (add_out c n s)
unfolding add_out
add_out-HasParents c n s v d h = ground (arith, v d)
