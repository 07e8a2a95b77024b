-- ===== src/Server/Session/Starts.antt =====
-- What a session start keeps: a property that survives the registrations and a departure.
use rusnel.Base.{ℕ, ◌≡◌, arith, Bool, Option, Bytes, inl, inr, Result-cases}
use rusnel.Net.Addr.{SocketAddr}
use rusnel.Remote.{SessionHello}
use rusnel.Server.Entries.{ServerState}
use rusnel.Server.State.{register_client, register_tunnels, deregister_client}
use rusnel.Server.Session.{
  Verdict, validate_remotes, perform_session_hello, conclude, refusal_reason, start_session,
}

module _ (P : ServerState → Type 0) (now id : ℕ) where
  perform_session_hello-keeps :
      (hello : SessionHello) (allow_reverse allow_socks : Bool) (write_error : Option Bytes)
      (s : ServerState)
      → P s
      → P (register_tunnels now id hello.remotes s).1
      → P (perform_session_hello now id hello allow_reverse allow_socks write_error s).state
  unfolding perform_session_hello
  perform_session_hello-keeps hello allow_reverse allow_socks write_error s v w =
      elim (Result-cases (validate_remotes hello.remotes allow_reverse allow_socks)) [
        | inr (reason, refused) ↦
            let e : (perform_session_hello now id hello allow_reverse allow_socks write_error
                  s).state
                ≡ s =
              ground (arith, refused) in
            rw e v
        | inl (u, accepted) ↦
            let e : (perform_session_hello now id hello allow_reverse allow_socks write_error
                  s).state
                ≡ (register_tunnels now id hello.remotes s).1 =
              ground (arith, accepted) in
            rw e w
      ]

  conclude-keeps :
      (v : Verdict)
      → P v.state
      → ((reason : Bytes) (u : ServerState) → P u → P (deregister_client now id reason u))
      → P (conclude now id v).state
  conclude-keeps v h leaves = elim (Result-cases v.result) [
    | inl (ids, e) ↦ rw e h
    | inr (bad, e) ↦ rw e (leaves (refusal_reason bad) v.state h)
  ]

  pub start_session-keeps :
      (remote : SocketAddr) (hello : SessionHello) (allow_reverse allow_socks : Bool)
      (write_error : Option Bytes) (s : ServerState)
      → P (register_client now id remote s)
      → P (register_tunnels now id hello.remotes (register_client now id remote s)).1
      → ((reason : Bytes) (u : ServerState) → P u → P (deregister_client now id reason u))
      → P (start_session now id remote hello allow_reverse allow_socks write_error s).state
  unfolding start_session
  start_session-keeps remote hello allow_reverse allow_socks write_error s v w leaves =
      conclude-keeps _
        (perform_session_hello-keeps hello allow_reverse allow_socks write_error
          (register_client now id remote s) v w)
        leaves
