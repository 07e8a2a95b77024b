-- ===== src/Server/Session/Clients.antt =====
-- Which clients are in the registry when a session has started or has been refused.
use rusnel.Base.{
  subst, sym, ℕ, ◌≡◌, refl, ap, arith, Bool, Option, List, [], ◌∷◌, Bytes, inl, inr, Result, ok,
  err, Result-cases, insert_key, remove_key, ◌∙◌,
}
use rusnel.Net.Addr.{SocketAddr}
use rusnel.Remote.{SessionHello, RemoteRequest}
use rusnel.Server.Entries.{ServerState}
use rusnel.Server.State.{register_client, register_tunnels, register_tunnel, deregister_client}
use rusnel.Server.State.Departure.{deregister_client_clients}
use rusnel.Server.Session.{
  SessionError, Verdict, perform_session_hello, conclude, refusal_reason, start_session,
}

register_tunnels_clients :
    (now client : ℕ) (reqs : List RemoteRequest) (s : ServerState)
    → (register_tunnels now client reqs s).1.clients ≡ s.clients
unfolding register_tunnels register_tunnel
register_tunnels_clients now client [] s = refl
register_tunnels_clients now client (req ∷ reqs) s =
    register_tunnels_clients now client reqs (register_tunnel now client req s).1

-- A session that starts adds its client; one that is refused leaves the clients as they were.
abbrev pub ClientsAfter : Result SessionError (List ℕ) → ℕ → List ℕ → List ℕ → Type 0
ClientsAfter (ok ids) id before after = after ≡ insert_key id before
ClientsAfter (err e) id before after = after ≡ remove_key id (insert_key id before)

hello_clients :
    (now id : ℕ) (hello : SessionHello) (allow_reverse allow_socks : Bool)
    (write_error : Option Bytes) (s : ServerState)
    → (perform_session_hello now id hello allow_reverse allow_socks write_error s).state.clients
      ≡ s.clients
unfolding perform_session_hello
hello_clients now id hello allow_reverse allow_socks write_error s =
    ground (arith, register_tunnels_clients now id hello.remotes s)

conclude-ClientsAfter :
    (now id : ℕ) (before : List ℕ) (v : Verdict)
    → v.state.clients ≡ insert_key id before
    → ClientsAfter (conclude now id v).result id before (conclude now id v).state.clients
conclude-ClientsAfter now id before v h = elim (Result-cases v.result) [
  | inl (ids, e) ↦
      rw (conclude, e)
        (subst (λ (r : Result SessionError (List ℕ)). ClientsAfter r id before v.state.clients)
          (sym e) h)
  | inr (bad, e) ↦
      let after = deregister_client now id (refusal_reason bad) v.state in
      rw (conclude, e)
        (subst (λ (r : Result SessionError (List ℕ)). ClientsAfter r id before after.clients)
          (sym e)
          (deregister_client_clients now id (refusal_reason bad) v.state ∙ ap (remove_key id) h))
]

pub start_session-ClientsAfter :
    (now id : ℕ) (remote : SocketAddr) (hello : SessionHello) (allow_reverse allow_socks : Bool)
    (write_error : Option Bytes) (s : ServerState)
    → (let v = start_session now id remote hello allow_reverse allow_socks write_error s in
        ClientsAfter v.result id s.clients v.state.clients)
unfolding start_session register_client
start_session-ClientsAfter now id remote hello allow_reverse allow_socks write_error s =
    let s1 = register_client now id remote s in
    conclude-ClientsAfter now id s.clients
      (perform_session_hello now id hello allow_reverse allow_socks write_error s1)
      (hello_clients now id hello allow_reverse allow_socks write_error s1)
