-- ===== src/Server/Host/Invariant.antt =====
-- The invariant of a host, over every step.
use rusnel.Base.{
  ==_iff, Result, ℕ, ◌≡◌, refl, arith, true, false, Option, List, [], ◌++◌, Bytes, mem, insert_key,
  mem-insert_key, insert_key-IsDistinct, ok, err,
}
use rusnel.Text.{text}
use rusnel.Net.Addr.{SocketAddr}
use rusnel.Server.Entries.{ServerState}
use rusnel.Server.State.{
  register_client, register_conn, add_in, add_out, close_conn, deregister_client,
}
use rusnel.Server.Session.{SessionError, start_session}
use rusnel.Server.State.Departure.{deregister_client_clients}
use rusnel.Server.Session.Clients.{ClientsAfter, start_session-ClientsAfter}
use rusnel.Server.State.Coherence.{register_client-IsCoherent}
use rusnel.Server.Session.Steps.{
  register_client_facts, IsSound, Step, start, register, receive, send, close, leave, Step-IsSound,
}
use rusnel.Server.Host.{
  unless_refused, Host, boot, try_acquire, incoming, serve_session, lose_hello, disconnect,
}
use rusnel.Server.Host.Steps.{
  HostStep, connect, give_up, session, no_hello, quit, traffic, HostReach, here, next, IsTraffic,
}
use rusnel.Server.Host.Tasks.{
  IsHosted, boot-Balanced, admit-IsHosted, finish-IsHosted, with_registry, without_client,
}

disconnect-IsHosted :
    (limit : Option ℕ) (now id : ℕ) (reason : Bytes) (h : Host)
    → IsHosted limit h
    → IsHosted limit (disconnect now id reason h)
unfolding disconnect
disconnect-IsHosted limit now id reason h v =
    without_client id h.registry.clients (deregister_client now id reason h.registry) v
      (Step-IsSound (leave now id reason h.registry) v.sound)
      (deregister_client_clients now id reason h.registry) v.clients (λ k n m. m)

unless_refused-IsHosted :
    (limit : Option ℕ) (id : ℕ) (r : Result SessionError (List ℕ)) (s : ServerState) (h : Host)
    → IsHosted limit h
    → mem id h.tasks ≡ true
    → IsSound s
    → ClientsAfter r id h.registry.clients s.clients
    → IsHosted limit (unless_refused id r (record h { registry = s }))
unless_refused-IsHosted limit id (ok ids) s h v spawned sound e =
    with_registry s v (rw e (insert_key-IsDistinct id h.registry.clients v.clients))
      (λ k m.
        ground
          (arith, e, mem-insert_key k id h.registry.clients, v.running k, spawned, ==_iff id k))
      sound
unless_refused-IsHosted limit id (err bad) s h v spawned sound e =
    without_client id (insert_key id h.registry.clients) s v sound e
      (insert_key-IsDistinct id h.registry.clients v.clients)
      (λ k n m. ground (arith, mem-insert_key k id h.registry.clients))

register_client-IsSound :
    (now id : ℕ) (remote : SocketAddr) (s : ServerState)
    → IsSound s
    → mem id s.clients ≡ false
    → IsSound (register_client now id remote s)
register_client-IsSound now id remote s v fresh = record {
  coherent = register_client-IsCoherent now id remote s v.coherent fresh;
  bounded = rw (register_client_facts now id remote s).0 v.bounded;
}

lose_hello-IsHosted :
    (limit : Option ℕ) (now id : ℕ) (remote : SocketAddr) (e : Bytes) (h : Host)
    → IsHosted limit h
    → mem id h.registry.clients ≡ false
    → IsHosted limit (lose_hello now id remote e h)
unfolding lose_hello register_client
lose_hello-IsHosted limit now id remote e h v absent =
    let s = register_client now id remote h.registry in
    let reason = text "hello rejected: " ++ e in
    without_client id (insert_key id h.registry.clients) (deregister_client now id reason s) v
      (Step-IsSound (leave now id reason s)
        (register_client-IsSound now id remote h.registry v.sound absent))
      (deregister_client_clients now id reason s)
      (insert_key-IsDistinct id h.registry.clients v.clients)
      (λ k n m. ground (arith, mem-insert_key k id h.registry.clients))

traffic_clients : {s u : ServerState} (st : Step s u) → IsTraffic st → u.clients ≡ s.clients
unfolding register_conn add_in add_out close_conn
traffic_clients (start now id remote hello ar as' we s fresh room) t = absurd t
traffic_clients (leave now id reason s) t = absurd t
traffic_clients (register now tid peer s handle room) t = refl
traffic_clients (receive c n s) t = ground arith
traffic_clients (send c n s) t = ground arith
traffic_clients (close tid c s own) t = refl

HostStep-IsHosted :
    {limit : Option ℕ} {h k : Host} → HostStep h k → IsHosted limit h → IsHosted limit k
unfolding incoming serve_session
HostStep-IsHosted {limit} (connect h room) v =
    admit-IsHosted limit h (try_acquire h.limiter) room v refl
HostStep-IsHosted {limit} (give_up id h gone) v = finish-IsHosted limit id h gone v
HostStep-IsHosted {limit} (session now id remote hello ar as' we h spawned fresh room) v =
    let verdict = start_session now id remote hello ar as' we h.registry in
    unless_refused-IsHosted limit id verdict.result verdict.state h v spawned
      (Step-IsSound (start now id remote hello ar as' we h.registry fresh room) v.sound)
      (start_session-ClientsAfter now id remote hello ar as' we h.registry)
HostStep-IsHosted {limit} (no_hello now id remote e h spawned fresh) v =
    lose_hello-IsHosted limit now id remote e h v fresh
HostStep-IsHosted {limit} (quit now id reason h live) v =
    disconnect-IsHosted limit now id reason h v
HostStep-IsHosted (traffic {u} h st only) v =
    let e = traffic_clients st only in
    with_registry u v (rw e v.clients) (λ k m. v.running k (ground (arith, e)))
      (Step-IsSound st v.sound)

pub HostReach-IsHosted :
    {limit : Option ℕ} {h k : Host} → IsHosted limit h → HostReach h k → IsHosted limit k
HostReach-IsHosted v here = v
HostReach-IsHosted v (next r st) = HostStep-IsHosted st (HostReach-IsHosted v r)

pub boot-IsHosted :
    (limit : Option ℕ) (s : ServerState)
    → IsSound s
    → s.clients ≡ []
    → IsHosted limit (boot limit s)
boot-IsHosted limit s sound e = record {
  permits = boot-Balanced limit;
  tasks = tt;
  below = λ id m. cc;
  clients = rw e tt;
  running = λ id m. ground (arith, e);
  sound = sound;
}
