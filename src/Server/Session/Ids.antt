-- ===== src/Server/Session/Ids.antt =====
-- The tunnel ids that an accepted hello is answered with.
use rusnel.Base.{
  ℕ, zero, suc, ◌+◌, ◌≤◌, ◌<◌, ◌^◌, ◌≡◌, refl, ◌∙◌, arith, true, List, [], ◌∷◌, length, mem,
  mem-insert_key,
}
use rusnel.Remote.{RemoteRequest}
use rusnel.Remote.Display.{show_request}
use rusnel.Server.Entries.{ServerState}
use rusnel.Server.State.{add64, register_tunnel, register_tunnels}
use rusnel.Server.State.Coherence.{IsCoherent, register_tunnel-IsCoherent}

-- `n` ids in a row, from `first` on.
abbrev pub ids_from : ℕ → ℕ → List ℕ
ids_from first zero = []
ids_from first (suc n) = first ∷ ids_from (first + 1) n

-- The entry of tunnel `id` says what client `client` declared.
pub record IsTunnelOf (s : ServerState) (client id : ℕ) (req : RemoteRequest) : Type 0 where
  pub in_map : mem id s.tunnels ≡ true
  pub owner : (s.tunnel_at id).client_id ≡ client
  pub direction : (s.tunnel_at id).direction ≡ req.direction
  pub kind : (s.tunnel_at id).kind ≡ req.kind
  pub spec : (s.tunnel_at id).spec ≡ show_request req

-- The ids and the declarations agree, in order.
abbrev pub AreTunnelsOf : ServerState → ℕ → List ℕ → List RemoteRequest → Type 0
AreTunnelsOf s client [] [] = Unit
AreTunnelsOf s client (id ∷ ids) (req ∷ reqs) =
    IsTunnelOf s client id req × AreTunnelsOf s client ids reqs
AreTunnelsOf s client _ _ = ⊥

register_tunnel_lem :
    (now client : ℕ) (req : RemoteRequest) (s : ServerState)
    → s.next_tunnel_id + 1 < 2 ^ 64
    → (s.client_at client).id ≡ client
    → (let (id, s') = register_tunnel now client req s in
        (id ≡ s.next_tunnel_id + 1)
        × (s'.next_tunnel_id ≡ s.next_tunnel_id + 1)
        × (s'.clients ≡ s.clients)
        × ((s'.client_at client).id ≡ client)
        × IsTunnelOf s' client id req)
unfolding register_tunnel
register_tunnel_lem now client req s room own =
    ground (arith, mem-insert_key (add64 s.next_tunnel_id 1) (add64 s.next_tunnel_id 1) s.tunnels)

-- A later registration keeps the tunnels that are there.
register_tunnel-keeps :
    (now client other id : ℕ) (req old : RemoteRequest) (s : ServerState)
    → s.next_tunnel_id + 1 < 2 ^ 64
    → id ≤ s.next_tunnel_id
    → IsTunnelOf s other id old
    → IsTunnelOf (register_tunnel now client req s).1 other id old
unfolding register_tunnel
register_tunnel-keeps now client other id req old s room le v =
    ground (arith, mem-insert_key id (add64 s.next_tunnel_id 1) s.tunnels)

register_tunnels-keeps :
    (now client other id : ℕ) (reqs : List RemoteRequest) (old : RemoteRequest) (s : ServerState)
    → s.next_tunnel_id + length reqs < 2 ^ 64
    → (s.client_at client).id ≡ client
    → id ≤ s.next_tunnel_id
    → IsTunnelOf s other id old
    → IsTunnelOf (register_tunnels now client reqs s).1 other id old
unfolding register_tunnels
register_tunnels-keeps now client other id [] old s room own le v = v
register_tunnels-keeps now client other id (req ∷ reqs) old s room own le v =
    let r = register_tunnel_lem now client req s (omega arith) own in
    let s1 = (register_tunnel now client req s).1 in
    register_tunnels-keeps now client other id reqs old s1 (omega arith) r.3 (omega arith)
      (register_tunnel-keeps now client other id req old s (omega arith) le v)

-- In a coherent registry, for a connected client and as long as the ids do not run out, the
-- declarations get one id each, in order and without gaps; each is in the map, belongs to the
-- client and says what was declared.
pub register_tunnels-AreTunnelsOf :
    (now client : ℕ) (reqs : List RemoteRequest) (s : ServerState)
    → IsCoherent s
    → mem client s.clients ≡ true
    → s.next_tunnel_id + length reqs < 2 ^ 64
    → (let (ids, s') = register_tunnels now client reqs s in
        (ids ≡ ids_from (s.next_tunnel_id + 1) (length reqs))
        × (s'.next_tunnel_id ≡ s.next_tunnel_id + length reqs)
        × (s'.clients ≡ s.clients)
        × IsCoherent s'
        × AreTunnelsOf s' client ids reqs)
unfolding register_tunnels
register_tunnels-AreTunnelsOf now client [] s v live room = (refl, omega arith, refl, v, tt)
register_tunnels-AreTunnelsOf now client (req ∷ reqs) s v live room =
    let r = register_tunnel_lem now client req s (omega arith) (v.client_id client live) in
    let (id, s1) = register_tunnel now client req s in
    let v1 = register_tunnel-IsCoherent now client req s v live (omega arith) in
    let live1 : mem client s1.clients ≡ true = rw r.2 live in
    let (ids, next, same, v2, rest) =
      register_tunnels-AreTunnelsOf now client reqs s1 v1 live1 (omega arith) in
    (
      rw (r.0, ids, r.1),
      omega arith,
      same ∙ r.2,
      v2,
      (
        register_tunnels-keeps now client client id reqs req s1 (omega arith) r.3 (omega arith) r.4,
        rest,
      ),
    )
