-- ===== src/Relay/Steps.antt =====
-- A run of the loop: datagrams that arrive, and tasks that take them, end and leave the map, in any
-- order.
use rusnel.Base.{ℕ, Bool, List, [], ◌∷◌, ◌++◌, Bytes, if◌then◌else◌}
use rusnel.Relay.{Channel, Relay, receive, forget, recv, drop_receiver}

module _ {K : Type 0} (same : K → K → Bool) (capacity : ℕ) where
  -- A state and the datagrams that have arrived up to it.
  pub data RelayRun (start : ℕ → Channel K) : List (K × Bytes) → Relay K → Type 0 where
    idle : RelayRun start [] (record { conns = []; channel_at = start; next_channel = 0 })
    arrival :
        {log : List (K × Bytes)} {r : Relay K} (k : K) (payload : Bytes)
        → RelayRun start log r
        → RelayRun start (log ++ ((k, payload) ∷ [])) (receive same capacity k payload r)
    taking :
        {log : List (K × Bytes)} {r : Relay K} (c : ℕ)
        → RelayRun start log r
        → RelayRun start log (recv c r)
    ending :
        {log : List (K × Bytes)} {r : Relay K} (c : ℕ)
        → RelayRun start log r
        → RelayRun start log (drop_receiver c r)
    leaving :
        {log : List (K × Bytes)} {r : Relay K} (c : ℕ)
        → RelayRun start log r
        → RelayRun start log (forget same c r)

module _ {K : Type 0} (same : K → K → Bool) where
  -- What arrived under a key.
  abbrev pub payloads_for : K → List (K × Bytes) → List Bytes
  payloads_for key [] = []
  payloads_for key ((k, payload) ∷ log) =
      let later = payloads_for key log in if same key k then payload ∷ later else later
