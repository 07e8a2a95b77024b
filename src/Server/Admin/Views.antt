-- ===== src/Server/Admin/Views.antt =====
-- What the lists of the admin API show of a consistent registry.
use rusnel.Base.{
  sym, Bool-cases, inl, inr, ◌⊎◌, ℕ, ◌≡◌, refl, ap, arith, Bool, true, false, not, ◌&&◌, ◌||◌, ◌==◌,
  ==_iff, List, [], ◌∷◌, ◌++◌, map, mem, All, All-append, ok, err, sort_by_key, IsSortedBy,
  sort_by_key-IsSortedBy, mem-sort_by_key, sort_by_key-All, Bytes,
}
use rusnel.Server.Entries.{ServerState}
use rusnel.Server.State.{client, deregister_client}
use rusnel.Server.State.Invariant.{IsConsistent}
use rusnel.Server.State.Departure.{
  listed_iff, deregister_client-HasLeft, deregister_client-IsConsistent,
}
use rusnel.Server.Admin.{
  ConnDto, not_found, conn_dto, conns_of, list_client_conns, list_conns, get_client,
}

abbrev pub conn_id : ConnDto → ℕ
conn_id d = d.id

abbrev conn_views : ServerState → List ℕ → List ConnDto
conn_views s cs = map (λ c. conn_dto (s.conn_at c)) cs

abbrev pub ShowsConn : ServerState → ConnDto → Type 0
ShowsConn s d = d ≡ conn_dto (s.conn_at d.id)

-- The list is sorted, shows each of its conns as it is, and shows exactly the conns of the map that `keep` picks.
pub record IsConnList (s : ServerState) (keep : ℕ → Bool) (key : ConnDto → List ℕ)
    (out : List ConnDto) : Type 0 where
  pub sorted : IsSortedBy key out
  pub ids : (c : ℕ) → mem c (map conn_id out) ≡ (mem c s.conns && keep c)
  pub views : All (ShowsConn s) out

mem-append-map :
    {A : Type 0} (f : A → ℕ) (c : ℕ) (xs ys : List A)
    → mem c (map f (xs ++ ys)) ≡ (mem c (map f xs) || mem c (map f ys))
mem-append-map f c [] ys = refl
mem-append-map f c (x ∷ xs) ys = ground (arith, mem-append-map f c xs ys)

mem-conn_views :
    (s : ServerState) (cs : List ℕ) (c : ℕ)
    → ((k : ℕ) → mem k cs ≡ true → (s.conn_at k).id ≡ k)
    → mem c (map conn_id (conn_views s cs)) ≡ mem c cs
unfolding conn_dto
mem-conn_views s [] c own = refl
mem-conn_views s (k ∷ cs) c own =
    let here : (s.conn_at k).id ≡ k = own k (ground arith) in
    ground (arith, here, mem-conn_views s cs c (λ j m. own j (ground (arith, m))))

conn_views-ShowsConn :
    (s : ServerState) (cs : List ℕ)
    → ((k : ℕ) → mem k cs ≡ true → (s.conn_at k).id ≡ k)
    → All (ShowsConn s) (conn_views s cs)
unfolding conn_dto
conn_views-ShowsConn s [] own = tt
conn_views-ShowsConn s (k ∷ cs) own =
    let here : (s.conn_at k).id ≡ k = own k (ground arith) in
    (
      ap (λ j. conn_dto (s.conn_at j)) (sym here),
      conn_views-ShowsConn s cs (λ j m. own j (ground (arith, m))),
    )

-- The tunnels are in the map.
abbrev AreLive : ServerState → List ℕ → Type 0
AreLive s ts = (t : ℕ) → mem t ts ≡ true → mem t s.tunnels ≡ true

mem-conns_of :
    (s : ServerState) (ts : List ℕ) (c : ℕ)
    → IsConsistent s
    → AreLive s ts
    → mem c (map conn_id (conns_of s ts)) ≡ (mem c s.conns && mem (s.conn_at c).tunnel_id ts)
mem-conns_of s [] c v live = ground arith
mem-conns_of s (t ∷ ts) c v live =
    let here : mem t s.tunnels ≡ true = live t (ground arith) in
    ground (
      arith,
      mem-append-map conn_id c (conn_views s (s.tunnel_at t).conns) (conns_of s ts),
      mem-conn_views s (s.tunnel_at t).conns c
          (λ k m. v.coherent.conn_id k (v.coherent.listed_conn t k here m).0),
      mem-conns_of s ts c v (λ u m. live u (ground (arith, m))),
      v.coherent.listed_conn t c here,
      v.coherent.parent_lists c,
      ==_iff t (s.conn_at c).tunnel_id,
    )

conns_of-ShowsConn :
    (s : ServerState) (ts : List ℕ)
    → IsConsistent s
    → AreLive s ts
    → All (ShowsConn s) (conns_of s ts)
conns_of-ShowsConn s [] v live = tt
conns_of-ShowsConn s (t ∷ ts) v live =
    let here : mem t s.tunnels ≡ true = live t (ground arith) in
    All-append (ShowsConn s) (conn_views s (s.tunnel_at t).conns) (conns_of s ts)
      (conn_views-ShowsConn s (s.tunnel_at t).conns
        (λ k m. v.coherent.conn_id k (v.coherent.listed_conn t k here m).0))
      (conns_of-ShowsConn s ts v (λ u m. live u (ground (arith, m))))

sort-IsConnList :
    (s : ServerState) (keep : ℕ → Bool) (key : ConnDto → List ℕ) (l : List ConnDto)
    → ((c : ℕ) → mem c (map conn_id l) ≡ (mem c s.conns && keep c))
    → All (ShowsConn s) l
    → IsConnList s keep key (sort_by_key key l)
sort-IsConnList s keep key l ids views = record {
  sorted = sort_by_key-IsSortedBy key l;
  ids = λ c. rw (mem-sort_by_key key conn_id c l) (ids c);
  views = sort_by_key-All key (ShowsConn s) l views;
}

abbrev pub by_tunnel : ConnDto → List ℕ
by_tunnel c = c.tunnel_id ∷ c.id ∷ []

abbrev pub by_client : ConnDto → List ℕ
by_client c = c.client_id ∷ c.tunnel_id ∷ c.id ∷ []

abbrev pub of_client : ServerState → ℕ → ℕ → Bool
of_client s id c = (s.conn_at c).client_id == id

-- In a consistent registry, where the tunnel of each conn is in the map, the conns of a client are
-- not found exactly if the client is not connected; if it is, they are sorted by tunnel and conn,
-- each is shown as it is, and they are exactly the conns of the map that belong to that client.
pub list_client_conns_lem :
    (id : ℕ) (s : ServerState)
    → IsConsistent s
    → ((list_client_conns id s ≡ err not_found) × (mem id s.clients ≡ false))
      ⊎ ((out : List ConnDto) × (list_client_conns id s ≡ ok out)
          × (mem id s.clients ≡ true)
          × IsConnList s (of_client s id) by_tunnel out)
unfolding list_client_conns client
list_client_conns_lem id s v = elim (Bool-cases (mem id s.clients)) [
  | inr absent ↦ inl (rw absent refl, absent)
  | inl live ↦
      let ts = (s.client_at id).tunnels in
      let owned : AreLive s ts = λ t m. (v.coherent.listed_tunnel id t live m).0 in
      inr (
        sort_by_key by_tunnel (conns_of s ts),
        rw live refl,
        live,
        sort-IsConnList s (of_client s id) by_tunnel (conns_of s ts)
            (λ c. ground (
              arith,
              mem-conns_of s ts c v owned,
              v.parent_live c,
              v.coherent.conn_client c,
              listed_iff id (s.conn_at c).tunnel_id s v.coherent live,
            ))
            (conns_of-ShowsConn s ts v owned),
      )
]

abbrev pub any_conn : ℕ → Bool
any_conn c = true

-- In a consistent registry, the list of all conns is sorted by client, tunnel and conn, shows each
-- as it is, and shows exactly the conns of the map.
pub list_conns-IsConnList :
    (s : ServerState) → IsConsistent s → IsConnList s any_conn by_client (list_conns s)
unfolding list_conns
list_conns-IsConnList s v =
    sort-IsConnList s any_conn by_client (conn_views s s.conns)
      (λ c. ground (arith, mem-conn_views s s.conns c v.coherent.conn_id))
      (conn_views-ShowsConn s s.conns v.coherent.conn_id)

-- After a client has left a consistent registry, where the tunnel of each conn is in the map, it
-- and its conns are not found, and the list of all conns shows those that were not the client's,
-- and no others.
pub list_conns-deregister_client :
    (now id : ℕ) (reason : Bytes) (s : ServerState)
    → IsConsistent s
    → mem id s.clients ≡ true
    → (let s' = deregister_client now id reason s in
        (get_client id s' ≡ err not_found)
        × (list_client_conns id s' ≡ err not_found)
        × ((c : ℕ)
            → mem c (map conn_id (list_conns s'))
              ≡ (mem c (map conn_id (list_conns s)) && not (of_client s id c))))
unfolding get_client list_client_conns client
list_conns-deregister_client now id reason s v live =
    let s' = deregister_client now id reason s in
    let left = deregister_client-HasLeft now id reason s v live in
    let v' = deregister_client-IsConsistent now id reason s v in
    let gone : mem id s'.clients ≡ false = ground (arith, left.clients id) in
    (
      rw gone refl,
      rw gone refl,
      λ c. ground (
        arith,
        (list_conns-IsConnList s v).ids c,
        (list_conns-IsConnList s' v').ids c,
        left.conns c,
        v.coherent.conn_client c,
      ),
    )
