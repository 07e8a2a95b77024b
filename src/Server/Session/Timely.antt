-- ===== src/Server/Session/Timely.antt =====
-- A run in which every conn is registered in time: while its tunnel is in the map.
use rusnel.Base.{◌≡◌, true, mem}
use rusnel.Server.Entries.{ServerState}
use rusnel.Server.State.{register_client}
use rusnel.Server.State.Invariant.{
  IsConsistent, HasParents, register_client-HasParents, register_tunnels-HasParents,
  register_conn-HasParents, close_conn-HasParents, add_in-HasParents, add_out-HasParents,
}
use rusnel.Server.State.Coherence.{IsCoherent, register_client-IsCoherent}
use rusnel.Server.State.Departure.{deregister_client-IsConsistent}
use rusnel.Server.Session.Ids.{register_tunnels-AreTunnelsOf}
use rusnel.Server.Session.Starts.{start_session-keeps}
use rusnel.Server.Session.Steps.{
  IsSound, register_client_facts, Step, start, register, receive, send, close, leave, Reach, here,
  next, Reach-IsSound,
}

abbrev pub IsTimely : {s u : ServerState} → Step s u → Type 0
IsTimely (start now id remote hello ar as' we s fresh room) = Unit
IsTimely (register now t peer s handle room) = mem t s.tunnels ≡ true
IsTimely (receive c n s) = Unit
IsTimely (send c n s) = Unit
IsTimely (close t c s own) = Unit
IsTimely (leave now id reason s) = Unit

abbrev pub AllTimely : {s u : ServerState} → Reach s u → Type 0
AllTimely here = Unit
AllTimely (next r st) = AllTimely r × IsTimely st

consistent : {s : ServerState} → IsCoherent s → HasParents s → IsConsistent s
consistent v p = record { coherent = v; parent_live = p }

Step-HasParents :
    {s u : ServerState} (st : Step s u) → IsTimely st → IsCoherent s → HasParents s → HasParents u
Step-HasParents (start now id remote hello ar as' we s fresh room) timely v p =
    let (history, count, live) = register_client_facts now id remote s in
    let s1 = register_client now id remote s in
    let v1 = register_client-IsCoherent now id remote s v fresh in
    let p1 = register_client-HasParents now id remote s p in
    (start_session-keeps IsConsistent now id remote hello ar as' we s (consistent v1 p1)
      (consistent (register_tunnels-AreTunnelsOf now id hello.remotes s1 v1 live (rw count room)).3
        (register_tunnels-HasParents now id hello.remotes s1 p1))
      (λ reason u h. deregister_client-IsConsistent now id reason u h)).parent_live
Step-HasParents (register now t peer s handle room) timely v p =
    register_conn-HasParents now t peer s handle.1 timely p
Step-HasParents (receive c n s) timely v p = add_in-HasParents c n s p
Step-HasParents (send c n s) timely v p = add_out-HasParents c n s p
Step-HasParents (close t c s own) timely v p = close_conn-HasParents t c s p
Step-HasParents (leave now id reason s) timely v p =
    (deregister_client-IsConsistent now id reason s (consistent v p)).parent_live

-- If every conn was registered while its tunnel was in the map, the tunnel of each conn in the map is
-- in the map.
pub Reach-HasParents :
    {s u : ServerState} (r : Reach s u) → AllTimely r → IsSound s → HasParents s → HasParents u
Reach-HasParents here timely v p = p
Reach-HasParents (next r st) timely v p =
    Step-HasParents st timely.1 (Reach-IsSound v r).coherent (Reach-HasParents r timely.0 v p)
