-- ===== src/Server/Session/Policy.antt =====
-- The policy on reverse and SOCKS tunnels.
use rusnel.Base.{
  ℕ, ◌≡◌, ◌↔◌, ◌⊎◌, inl, inr, refl, arith, Bool, true, false, not, ◌&&◌, List, [], ◌∷◌, ◌++◌, Bytes,
  Bool-cases, ok, err, All, ap, mem, Option, remove_key_absent,
}
use rusnel.Net.Addr.{SocketAddr}
use rusnel.Remote.{RemoteRequest, is_reversed, is_socks, SessionHello, SessionHelloResponse}
use rusnel.Server.Entries.{ServerState}
use rusnel.Server.State.{register_client, deregister_client, drop_tunnels}
use rusnel.Server.Session.{
  validate_remotes, reverse_refusal, socks_refusal, rejected, perform_session_hello, start_session,
}

-- A remote that the policy allows.
abbrev pub IsAllowed : Bool → Bool → RemoteRequest → Type 0
IsAllowed allow_reverse allow_socks r =
    (is_reversed r ≡ true → allow_reverse ≡ true) × (is_socks r ≡ true → allow_socks ≡ true)

-- A batch is accepted exactly when every remote in it is allowed.
pub validate_remotes_iff :
    (rs : List RemoteRequest) (allow_reverse allow_socks : Bool)
    → (validate_remotes rs allow_reverse allow_socks ≡ ok tt)
      ↔ All (IsAllowed allow_reverse allow_socks) rs
unfolding validate_remotes
validate_remotes_iff [] allow_reverse allow_socks = (λ h. tt, λ h. refl)
validate_remotes_iff (r ∷ rs) allow_reverse allow_socks =
    let (to, from) = validate_remotes_iff rs allow_reverse allow_socks in
    (
      λ h. ((λ x. ground arith, λ x. ground arith), to (ground arith)),
      λ (h, t). ground (arith, from t, h.0, h.1),
    )

-- A refusal names the first remote that is not allowed: all in front of it are.
pub validate_remotes_refusal :
    (rs : List RemoteRequest) (allow_reverse allow_socks : Bool) {reason : Bytes}
    → validate_remotes rs allow_reverse allow_socks ≡ err reason
    → (before : List RemoteRequest) × (r : RemoteRequest) × (after : List RemoteRequest) × (rs
        ≡ before ++ r ∷ after)
      × All (IsAllowed allow_reverse allow_socks) before
      × ¬ IsAllowed allow_reverse allow_socks r
      × ((reason ≡ reverse_refusal r) ⊎ (reason ≡ socks_refusal r))
unfolding validate_remotes
validate_remotes_refusal [] allow_reverse allow_socks h = cc
validate_remotes_refusal (r ∷ rs) allow_reverse allow_socks {reason} h =
    elim (Bool-cases (is_reversed r && not allow_reverse)) [
      | inl reversed ↦ ([], r, rs, refl, tt, λ k. ground (arith, k.0), inl (ground arith))
      | inr forward ↦ elim (Bool-cases (is_socks r && not allow_socks)) [
        | inl socks ↦ ([], r, rs, refl, tt, λ k. ground (arith, k.1), inr (ground arith))
        | inr plain ↦
            let later : validate_remotes rs allow_reverse allow_socks ≡ err reason = ground arith in
            let (before, bad, after, e, good, no_good, why) =
              validate_remotes_refusal rs allow_reverse allow_socks {reason = reason} later in
            (
              r ∷ before,
              bad,
              after,
              ap (◌∷◌ r) e,
              ((λ x. ground arith, λ x. ground arith), good),
              no_good,
              why,
            )
      ]
    ]

-- A client under a new id whose hello the policy refuses gets the reason and no tunnel, and the
-- maps are as before it connected.
pub start_session_refused :
    (now id : ℕ) (remote : SocketAddr) (hello : SessionHello) (allow_reverse allow_socks : Bool)
    (write_error : Option Bytes) (s : ServerState) {reason : Bytes}
    → validate_remotes hello.remotes allow_reverse allow_socks ≡ err reason
    → mem id s.clients ≡ false
    → (let v = start_session now id remote hello allow_reverse allow_socks write_error s in
        (v.response ≡ SessionHelloResponse.failed reason)
        × (v.result ≡ err (rejected reason))
        × (v.state.clients ≡ s.clients)
        × (v.state.tunnels ≡ s.tunnels)
        × (v.state.conns ≡ s.conns))
unfolding start_session perform_session_hello register_client deregister_client drop_tunnels
start_session_refused now id remote hello allow_reverse allow_socks write_error s refused fresh =
    ground (arith, refused, fresh, remove_key_absent id s.clients)
