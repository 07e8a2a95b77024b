-- ===== src/Server/Session/Steps.antt =====
-- The registry over a whole run: what the connections, in any order, do to it.
use rusnel.Base.{
  ℕ, ◌+◌, ◌≤◌, ◌<◌, ◌^◌, ◌≡◌, refl, arith, Bool, true, false, Option, none, List, Bytes, length,
  mem, mem-insert_key, [], ◌∷◌, ◌∙◌,
}
use rusnel.Net.Addr.{SocketAddr}
use rusnel.Remote.{SessionHello, RemoteRequest}
use rusnel.Server.Entries.{ServerState, ClientEntry, TunnelEntry, ConnEntry}
use rusnel.Server.State.{
  history_capacity, new, register_client, register_tunnels, register_tunnel, register_conn, add_in,
  add_out, close_conn, deregister_client,
}
use rusnel.Server.State.Coherence.{
  IsHandle, IsCoherent, new-IsCoherent, register_client-IsCoherent, register_conn-IsCoherent,
  close_conn-IsCoherent, add_in-IsCoherent, add_out-IsCoherent,
}
use rusnel.Server.State.Departure.{deregister_client-IsCoherent}
use rusnel.Server.State.History.{deregister_client-history_bound}
use rusnel.Server.Session.{start_session}
use rusnel.Server.Session.Starts.{start_session-keeps}
use rusnel.Server.Session.Ids.{register_tunnels-AreTunnelsOf}

-- The maps and the cross references agree, and the history keeps to its capacity.
pub record IsSound (s : ServerState) : Type 0 where
  pub coherent : IsCoherent s
  pub bounded : length s.history ≤ history_capacity

register_tunnel_history :
    (now client : ℕ) (req : RemoteRequest) (s : ServerState)
    → (register_tunnel now client req s).1.history ≡ s.history
unfolding register_tunnel
register_tunnel_history now client req s = refl

register_tunnels_history :
    (now client : ℕ) (reqs : List RemoteRequest) (s : ServerState)
    → (register_tunnels now client reqs s).1.history ≡ s.history
unfolding register_tunnels
register_tunnels_history now client [] s = refl
register_tunnels_history now client (req ∷ reqs) s =
    register_tunnels_history now client reqs (register_tunnel now client req s).1
    ∙ register_tunnel_history now client req s

pub register_client_facts :
    (now id : ℕ) (remote : SocketAddr) (s : ServerState)
    → (let s' = register_client now id remote s in
        (s'.history ≡ s.history)
        × (s'.next_tunnel_id ≡ s.next_tunnel_id)
        × (mem id s'.clients ≡ true))
unfolding register_client
register_client_facts now id remote s = (refl, refl, ground (arith, mem-insert_key id id s.clients))

start_session-IsSound :
    (now id : ℕ) (remote : SocketAddr) (hello : SessionHello) (allow_reverse allow_socks : Bool)
    (write_error : Option Bytes) (s : ServerState)
    → IsSound s
    → mem id s.clients ≡ false
    → s.next_tunnel_id + length hello.remotes < 2 ^ 64
    → IsSound (start_session now id remote hello allow_reverse allow_socks write_error s).state
unfolding start_session
start_session-IsSound now id remote hello allow_reverse allow_socks write_error s v fresh room =
    let (history, next, live) = register_client_facts now id remote s in
    let s1 = register_client now id remote s in
    let v1 = register_client-IsCoherent now id remote s v.coherent fresh in
    start_session-keeps IsSound now id remote hello allow_reverse allow_socks write_error s
      (record { coherent = v1; bounded = rw history v.bounded })
      (record {
        coherent = (register_tunnels-AreTunnelsOf now id hello.remotes s1 v1 live (omega arith)).3;
        bounded = rw (register_tunnels_history now id hello.remotes s1, history) v.bounded;
      })
      (λ reason u h. record {
        coherent = deregister_client-IsCoherent now id reason u h.coherent;
        bounded = deregister_client-history_bound now id reason u h.bounded;
      })

-- What can happen next. Connections run concurrently, so the steps of several come in any order.
-- An id counter that would wrap around is out of scope; so is a client id that is given twice.
pub data Step : ServerState → ServerState → Type 0 where
  start :
      (now id : ℕ) (remote : SocketAddr) (hello : SessionHello) (allow_reverse allow_socks : Bool)
      (write_error : Option Bytes) (s : ServerState)
      → mem id s.clients ≡ false
      → s.next_tunnel_id + length hello.remotes < 2 ^ 64
      → Step s (start_session now id remote hello allow_reverse allow_socks write_error s).state
  -- A stream that a client has opened is answered, or the task of a conn that the listener of a
  -- reverse tunnel has accepted gets its reply. Either holds the tunnel since it looked it up: the
  -- client may have left, and the tunnel with it.
  register :
      (now t : ℕ) (peer : Option Bytes) (s : ServerState)
      → IsHandle t s
      → s.next_conn_id + 1 < 2 ^ 64
      → Step s (register_conn now t peer s).1
  receive : (c n : ℕ) (s : ServerState) → Step s (add_in c n s)
  send : (c n : ℕ) (s : ServerState) → Step s (add_out c n s)
  -- A guard is dropped, perhaps after its client has left.
  close :
      (t c : ℕ) (s : ServerState)
      → (mem c s.conns ≡ true → (s.conn_at c).tunnel_id ≡ t)
      → Step s (close_conn t c s)
  leave :
      (now id : ℕ) (reason : Bytes) (s : ServerState) → Step s (deregister_client now id reason s)

pub data Reach (s : ServerState) : ServerState → Type 0 where
  here : Reach s s
  next : {t u : ServerState} → Reach s t → Step t u → Reach s u

pub Reach-trans : {s t u : ServerState} → Reach s t → Reach t u → Reach s u
Reach-trans r here = r
Reach-trans r (next q st) = next (Reach-trans r q) st

quiet_history :
    (t c n now : ℕ) (peer : Option Bytes) (s : ServerState)
    → ((register_conn now t peer s).1.history ≡ s.history)
      × ((add_in c n s).history ≡ s.history)
      × ((add_out c n s).history ≡ s.history)
      × ((close_conn t c s).history ≡ s.history)
unfolding register_conn add_in add_out close_conn
quiet_history t c n now peer s = (refl, ground arith, ground arith, refl)

pub Step-IsSound : {s u : ServerState} → Step s u → IsSound s → IsSound u
Step-IsSound (start now id remote hello ar as' we s fresh room) v =
    start_session-IsSound now id remote hello ar as' we s v fresh room
Step-IsSound (register now t peer s handle room) v = record {
  coherent = register_conn-IsCoherent now t peer s v.coherent handle room;
  bounded = rw (quiet_history t 0 0 now peer s).0 v.bounded;
}
Step-IsSound (receive c n s) v = record {
  coherent = add_in-IsCoherent c n s v.coherent;
  bounded = rw (quiet_history 0 c n 0 none s).1 v.bounded;
}
Step-IsSound (send c n s) v = record {
  coherent = add_out-IsCoherent c n s v.coherent;
  bounded = rw (quiet_history 0 c n 0 none s).2 v.bounded;
}
Step-IsSound (close t c s own) v = record {
  coherent = close_conn-IsCoherent t c s v.coherent own;
  bounded = rw (quiet_history t c 0 0 none s).3 v.bounded;
}
Step-IsSound (leave now id reason s) v = record {
  coherent = deregister_client-IsCoherent now id reason s v.coherent;
  bounded = deregister_client-history_bound now id reason s v.bounded;
}

-- From a state whose maps and cross references agree and whose history keeps to its capacity, every
-- state that is reached, in whatever order the connections act and however late a conn is
-- registered, is such a state too, as long as no id counter wraps around and no connected client's
-- id is given again. A conn in the map is listed by its tunnel, which may have left the map.
pub Reach-IsSound : {s u : ServerState} → IsSound s → Reach s u → IsSound u
Reach-IsSound v here = v
Reach-IsSound v (next r st) = Step-IsSound st (Reach-IsSound v r)

-- A server starts in such a state.
pub new-IsSound :
    (now : ℕ) (addr : SocketAddr) (cs : ℕ → ClientEntry) (ts : ℕ → TunnelEntry) (es : ℕ → ConnEntry)
    → IsSound (new now addr cs ts es)
unfolding new
new-IsSound now addr cs ts es = record {
  coherent = new-IsCoherent now addr cs ts es;
  bounded = omega arith;
}
