-- ===== src/Client/Session/Known.antt =====
-- The client knows the tunnels by the ids under which the server has registered them.
use rusnel.Base.{
  ℕ, suc, zero, ◌+◌, ◌<◌, ◌≡◌, ◌⊎◌, inl, inr, refl, arith, Bool, true, false, none, some, List, [],
  ◌∷◌, ◌==◌, ==_iff, mem, IsDistinct, Bool-cases,
}
use rusnel.Remote.{RemoteRequest, OpenConn, OpenConnResponse}
use rusnel.Server.Entries.{ServerState}
use rusnel.Server.Session.Ids.{ids_from, IsTunnelOf, AreTunnelsOf}
use rusnel.Client.{resolve_reverse_dispatch}
use rusnel.Client.Session.{remotes_by_id, unknown_reply, answered, client_accept_reverse_conn}

remotes_by_id-absent :
    (ids : List ℕ) (reqs : List RemoteRequest) (id : ℕ)
    → mem id ids ≡ false
    → remotes_by_id ids reqs id ≡ none
unfolding remotes_by_id
remotes_by_id-absent [] reqs id h = refl
remotes_by_id-absent (i ∷ ids) [] id h = refl
remotes_by_id-absent (i ∷ ids) (req ∷ reqs) id h = ground (arith, remotes_by_id-absent ids reqs id)

remotes_by_id-present :
    (s : ServerState) (client : ℕ) (ids : List ℕ) (reqs : List RemoteRequest) (id : ℕ)
    → AreTunnelsOf s client ids reqs
    → IsDistinct ids
    → mem id ids ≡ true
    → (req : RemoteRequest) × (remotes_by_id ids reqs id ≡ some req) × IsTunnelOf s client id req
unfolding remotes_by_id
remotes_by_id-present s client [] reqs id a d m = cc
remotes_by_id-present s client (i ∷ ids) [] id a d m = absurd a
remotes_by_id-present s client (i ∷ ids) (req ∷ reqs) id a d m = elim (Bool-cases (i == id)) [
  | inl same ↦
      let e : i ≡ id = (==_iff i id).0 same in
      let gone : mem id ids ≡ false = rw (← e) d.0 in
      (req, rw (remotes_by_id-absent ids reqs id gone, same) refl, rw (← e) a.0)
  | inr other ↦
      let (r, e, h) =
        remotes_by_id-present s client ids reqs id a.1 d.1 (ground (arith, m, other)) in
      (r, rw e refl, h)
]

below-mem : (id first n : ℕ) → id < first → mem id (ids_from first n) ≡ false
below-mem id first zero h = refl
below-mem id first (suc n) h = ground (arith, below-mem id (first + 1) n)

pub ids_from-IsDistinct : (first n : ℕ) → IsDistinct (ids_from first n)
ids_from-IsDistinct first zero = tt
ids_from-IsDistinct first (suc n) =
    (below-mem first (first + 1) n (omega arith), ids_from-IsDistinct (first + 1) n)

-- A client that holds the ids under which the server registered its declarations, all different,
-- answers a stream that the server opens: under one of the ids by the rule for the declaration that
-- the server has registered there, and under any other id by a refusal that names it.
pub client_accept_reverse_conn_lem :
    (acked : Bool) (s : ServerState) (client : ℕ) (ids : List ℕ) (reqs : List RemoteRequest)
    (open_conn : OpenConn)
    → AreTunnelsOf s client ids reqs
    → IsDistinct ids
    → (let out = client_accept_reverse_conn acked (remotes_by_id ids reqs) open_conn in
        ((mem open_conn.tunnel_id ids ≡ false)
          × (out.reply ≡ OpenConnResponse.failed (unknown_reply open_conn.tunnel_id))
          × (out.served ≡ none))
        ⊎ ((mem open_conn.tunnel_id ids ≡ true)
            × ((req : RemoteRequest) × IsTunnelOf s client open_conn.tunnel_id req
                × (out ≡ answered acked (resolve_reverse_dispatch req open_conn.dynamic)))))
unfolding client_accept_reverse_conn
client_accept_reverse_conn_lem acked s client ids reqs open_conn a d =
    let id = open_conn.tunnel_id in
    elim (Bool-cases (mem id ids)) [
      | inr absent ↦
          let e = remotes_by_id-absent ids reqs id absent in inl (absent, rw e refl, rw e refl)
      | inl present ↦
          let (req, e, h) = remotes_by_id-present s client ids reqs id a d present in
          inr (present, (req, h, rw e refl))
    ]
