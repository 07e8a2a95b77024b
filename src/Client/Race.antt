-- ===== src/Client/Race.antt =====
-- `happy_eyeballs_connect` and the pool of endpoints of src/client/mod.rs: an attempt for each
-- address of the server, and the first connection wins. Making an endpoint and connecting are
-- quinn's; when an attempt starts and comes to its end is up to the timers and the network.
pub mod Wins
use rusnel.Base.{
  Bool, true, false, Option, none, some, List, [], ◌∷◌, if◌then◌else◌, Result, ok, err,
}
use rusnel.Net.Addr.{SocketAddr}
use rusnel.Client.{is_ipv6}

-- What became of one candidate.
pub data CandidateError (Error : Type 0) : Type 0 where
  no_endpoint : SocketAddr → Error → CandidateError Error
  failed : SocketAddr → Error → CandidateError Error

pub data ConnectError (Error : Type 0) : Type 0 where
  no_candidates : ConnectError Error
  all_failed : Option (CandidateError Error) → ConnectError Error

-- One endpoint for each address family.
pub record EndpointPool (Endpoint : Type 0) : Type 0 where
  pub v4 : Option Endpoint
  pub v6 : Option Endpoint

-- `create` is `create_client_endpoint` under the TLS configuration of the client.
module _ {Endpoint Error : Type 0} (create : SocketAddr → Result Error Endpoint) where
  abbrev keep : SocketAddr → Endpoint → EndpointPool Endpoint → EndpointPool Endpoint
  keep addr e pool =
      if is_ipv6 addr
      then record { v4 = pool.v4; v6 = some e }
      else record { v4 = some e; v6 = pool.v6 }

  abbrev created :
      SocketAddr
      → EndpointPool Endpoint
      → Result Error Endpoint
      → Result Error Endpoint × EndpointPool Endpoint
  created addr pool (ok e) = (ok e, keep addr e pool)
  created addr pool (err x) = (err x, pool)

  abbrev from_slot :
      SocketAddr
      → EndpointPool Endpoint
      → Option Endpoint
      → Result Error Endpoint × EndpointPool Endpoint
  from_slot addr pool (some e) = (ok e, pool)
  from_slot addr pool none = created addr pool (create addr)

  unfoldable pub get_for :
      SocketAddr → EndpointPool Endpoint → Result Error Endpoint × EndpointPool Endpoint
  get_for addr pool = from_slot addr pool (if is_ipv6 addr then pool.v6 else pool.v4)

-- The attempts under way, each with what it comes to.
pub record Launched (Endpoint Connection Error : Type 0) : Type 0 where
  pub races : List (SocketAddr × Result Error Connection)
  pub last_error : Option (CandidateError Error)
  pub pool : EndpointPool Endpoint

-- `connect` is `Endpoint::connect`: it refuses at once, or there is an attempt.
module _ {Endpoint Connection Error : Type 0} (create : SocketAddr → Result Error Endpoint)
    (connect : Endpoint → SocketAddr → Result Error (Result Error Connection)) where
  abbrev add_race :
      SocketAddr × Result Error Connection
      → Launched Endpoint Connection Error
      → Launched Endpoint Connection Error
  add_race race l = record l { races = race ∷ l.races }

  -- The first loop, from the pool and the last error that it finds.
  unfoldable pub launch :
      List SocketAddr
      → EndpointPool Endpoint
      → Option (CandidateError Error)
      → Launched Endpoint Connection Error
  launch [] pool last = record { races = []; last_error = last; pool = pool }
  launch (addr ∷ rest) pool last =
      let answer = get_for create addr pool in
      elim answer.0 [
        | err x ↦ launch rest answer.1 (some (no_endpoint addr x))
        | ok e ↦ elim (connect e addr) [
          | err x ↦ launch rest answer.1 (some (failed addr x))
          | ok race ↦ add_race (addr, race) (launch rest answer.1 last)
        ]
      ]

-- The second loop, over the attempts in the order in which they come to an end.
unfoldable pub first_success :
    {Connection Error : Type 0}
    → List (SocketAddr × Result Error Connection)
    → Option (CandidateError Error)
    → Result (ConnectError Error) Connection
first_success [] last = err (all_failed last)
first_success ((addr, ok c) ∷ rest) last = ok c
first_success ((addr, err x) ∷ rest) last = first_success rest (some (failed addr x))

-- `completed` puts the attempts in the order in which they come to an end.
module _ {Endpoint Connection Error : Type 0} (create : SocketAddr → Result Error Endpoint)
    (connect : Endpoint → SocketAddr → Result Error (Result Error Connection))
    (completed : List (SocketAddr × Result Error Connection)
      → List (SocketAddr × Result Error Connection)) where
  unfoldable pub happy_eyeballs_connect :
      List SocketAddr
      → EndpointPool Endpoint
      → Result (ConnectError Error) Connection × EndpointPool Endpoint
  happy_eyeballs_connect [] pool = (err no_candidates, pool)
  happy_eyeballs_connect (a ∷ addrs) pool =
      let l = launch create connect (a ∷ addrs) pool none in
      (first_success (completed l.races) l.last_error, l.pool)
