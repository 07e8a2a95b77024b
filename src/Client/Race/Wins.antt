-- ===== src/Client/Race/Wins.antt =====
-- One good address is enough to connect.
use mathlib.Core.List.{Memᴰ}
use mathlib.Core.List.Memᴰ
use rusnel.Base.{
  ◌≡◌, refl, subst, inl, inr, Option, none, some, List, [], ◌∷◌, Result, ok, err, Result-cases,
  if◌then◌else◌,
}
use rusnel.Net.Addr.{SocketAddr}
use rusnel.Client.{is_ipv6}
use rusnel.Client.Race.{
  CandidateError, failed, no_endpoint, from_slot, EndpointPool, get_for, launch, first_success,
  happy_eyeballs_connect,
}

-- A success among the attempts decides: the first one does.
first_success-Mem :
    {C X : Type 0} (l : List (SocketAddr × Result X C)) (last : Option (CandidateError X))
    {a : SocketAddr} {c : C}
    → Memᴰ (a, ok c) l
    → (won : C) × (first_success l last ≡ ok won) × ((b : SocketAddr) × Memᴰ (b, ok won) l)
unfolding first_success
first_success-Mem [] last m = absurd (Memᴰ.not-nil m)
first_success-Mem ((b, ok won) ∷ rest) last m = (won, refl, (b, Memᴰ.head refl))
first_success-Mem ((b, err x) ∷ rest) last m = elim (Memᴰ.cases_cons m) [
  | inl e ↦ cc
  | inr later ↦
      let (won, e, (d, h)) = first_success-Mem rest (some (failed b x)) later in
      (won, e, (d, Memᴰ.tail h))
]

module _ {E X : Type 0} (create : SocketAddr → Result X E) (a : SocketAddr)
    (pool : EndpointPool E) where
  from_slot-created :
      (slot : Option E) {e : E}
      → create a ≡ ok e
      → (got : E) × ((from_slot create a pool slot).0 ≡ ok got)
  from_slot-created (some e) h = (e, refl)
  from_slot-created none {e} h = (e, rw h refl)

  -- An endpoint of the pool is used again; if there is none, one is made.
  get_for-created : {e : E} → create a ≡ ok e → (got : E) × ((get_for create a pool).0 ≡ ok got)
  unfolding get_for
  get_for-created h = from_slot-created (if is_ipv6 a then pool.v6 else pool.v4) h

module _ {E C X : Type 0} (create : SocketAddr → Result X E)
    (connect : E → SocketAddr → Result X (Result X C)) where
  launch-race :
      (b : SocketAddr) (rest : List SocketAddr) (pool : EndpointPool E)
      (last : Option (CandidateError X)) {e : E} {race : Result X C}
      → (get_for create b pool).0 ≡ ok e
      → connect e b ≡ ok race
      → (launch create connect (b ∷ rest) pool last).races
        ≡ (b, race) ∷ (launch create connect rest (get_for create b pool).1 last).races
  unfolding launch
  launch-race b rest pool last g h = rw (g, launch, h) refl

  launch-no_endpoint :
      (b : SocketAddr) (rest : List SocketAddr) (pool : EndpointPool E)
      (last : Option (CandidateError X)) {x : X}
      → (get_for create b pool).0 ≡ err x
      → (launch create connect (b ∷ rest) pool last).races
        ≡ (launch create connect rest (get_for create b pool).1 (some (no_endpoint b x))).races
  unfolding launch
  launch-no_endpoint b rest pool last g = rw (g, launch) refl

  launch-refused :
      (b : SocketAddr) (rest : List SocketAddr) (pool : EndpointPool E)
      (last : Option (CandidateError X)) {e : E} {x : X}
      → (get_for create b pool).0 ≡ ok e
      → connect e b ≡ err x
      → (launch create connect (b ∷ rest) pool last).races
        ≡ (launch create connect rest (get_for create b pool).1 (some (failed b x))).races
  unfolding launch
  launch-refused b rest pool last g h = rw (g, launch, h) refl

  -- An address that connects is among the attempts, whatever the others do.
  launch-Mem :
      (addrs : List SocketAddr) (pool : EndpointPool E) (last : Option (CandidateError X))
      {a : SocketAddr} {e : E}
      → Memᴰ a addrs
      → create a ≡ ok e
      → ((e : E) → (c : C) × (connect e a ≡ ok (ok c)))
      → (c : C) × Memᴰ (a, ok c) (launch create connect addrs pool last).races
  launch-Mem [] pool last m made good = absurd (Memᴰ.not-nil m)
  launch-Mem (b ∷ rest) pool last {a} {e} m made good = elim (Memᴰ.cases_cons m) [
    | inl here ↦
        let (got, g) = get_for-created create b pool {e = e} (rw (← here) made) in
        let (c, h) = good got in
        let h' : connect got b ≡ ok (ok c) = subst (λ d. connect got d ≡ ok (ok c)) here h in
        (c, rw (launch-race b rest pool last g h') (Memᴰ.head (rw here refl)))
    | inr later ↦ elim (Result-cases (get_for create b pool).0) [
      | inr (x, g) ↦
          rw (launch-no_endpoint b rest pool last g) (launch-Mem rest _ _ later made good)
      | inl (got, g) ↦ elim (Result-cases (connect got b)) [
        | inr (x, h) ↦
            rw (launch-refused b rest pool last g h) (launch-Mem rest _ _ later made good)
        | inl (race, h) ↦
            let (c, n) = launch-Mem rest (get_for create b pool).1 last later made good in
            (c, rw (launch-race b rest pool last g h) (Memᴰ.tail n))
      ]
    ]
  ]

  -- What wins is what connecting to one of the addresses came to.
  launch_sound :
      (addrs : List SocketAddr) (pool : EndpointPool E) (last : Option (CandidateError X))
      {a : SocketAddr} {r : Result X C}
      → Memᴰ (a, r) (launch create connect addrs pool last).races
      → Memᴰ a addrs × ((e : E) × (connect e a ≡ ok r))
  unfolding launch
  launch_sound [] pool last m = absurd (Memᴰ.not-nil m)
  launch_sound (b ∷ rest) pool last {a} {r} m = elim (Result-cases (get_for create b pool).0) [
    | inr (x, g) ↦
        let (n, h) = launch_sound rest _ _ (rw (launch-no_endpoint b rest pool last g) at m) in
        (Memᴰ.tail n, h)
    | inl (got, g) ↦ elim (Result-cases (connect got b)) [
      | inr (x, h) ↦
          let (n, k) = launch_sound rest _ _ (rw (launch-refused b rest pool last g h) at m) in
          (Memᴰ.tail n, k)
      | inl (race, h) ↦ elim (Memᴰ.cases_cons (rw (launch-race b rest pool last g h) at m)) [
        | inl here ↦ (Memᴰ.head cc, (got, cc))
        | inr later ↦ let (n, k) = launch_sound rest _ _ later in (Memᴰ.tail n, k)
      ]
    ]
  ]

  -- If the pool can have an endpoint for one of the addresses, connecting to that address succeeds
  -- over every endpoint, and every attempt comes to an end, then the client is connected, whatever
  -- becomes of the other addresses and in whatever order the attempts end; its connection is what
  -- an attempt at one of the addresses came to.
  pub happy_eyeballs_connect-wins :
      (completed : List (SocketAddr × Result X C) → List (SocketAddr × Result X C))
      → ((l : List (SocketAddr × Result X C)) (r : SocketAddr × Result X C)
          → Memᴰ r l
          → Memᴰ r (completed l))
      → ((l : List (SocketAddr × Result X C)) (r : SocketAddr × Result X C)
          → Memᴰ r (completed l)
          → Memᴰ r l)
      → (addrs : List SocketAddr) (pool : EndpointPool E) {a : SocketAddr} {e : E} → Memᴰ a addrs
      → create a ≡ ok e
      → ((e : E) → (c : C) × (connect e a ≡ ok (ok c)))
      → (won : C) × ((happy_eyeballs_connect create connect completed addrs pool).0 ≡ ok won)
        × ((b : SocketAddr) × Memᴰ b addrs × ((e : E) × (connect e b ≡ ok (ok won))))
  unfolding happy_eyeballs_connect
  happy_eyeballs_connect-wins completed all only [] pool m made good = absurd (Memᴰ.not-nil m)
  happy_eyeballs_connect-wins completed all only (b ∷ rest) pool m made good =
      let l = launch create connect (b ∷ rest) pool none in
      let (c, n) = launch-Mem (b ∷ rest) pool none m made good in
      let (won, e, (d, h)) = first_success-Mem (completed l.races) l.last_error (all l.races _ n) in
      let (n, k) = launch_sound (b ∷ rest) pool none (only l.races _ h) in (won, e, (d, n, k))
