-- ===== src/Client/Reconnect.antt =====
-- The reconnect loop: `run_with_reconnect` of src/client/mod.rs. What the network and the user do
-- is a list, one event for each round.
pub mod Limits
use rusnel.Base.{
  ℕ, zero, suc, ◌+◌, ◌-◌, ◌^◌, ◌<◌, ◌≡◌, arith, Bool, true, false, Option, none, some, List, [],
  ◌∷◌, min, ltb, if◌then◌else◌,
}
use rusnel.Client.{next_backoff}

pub record ReconnectConfig : Type 0 where
  pub max_retries : Option ℕ
  pub initial_backoff : ℕ
  pub max_backoff : ℕ

-- `cancelled`: the shutdown comes while it connects. `failed`: no connection. `finished`: the
-- session ends by the shutdown. `lost`: the session ends otherwise. The flag says whether the
-- shutdown comes in the pause behind it.
pub data Round : Type 0 where
  cancelled finished : Round
  failed lost : Bool → Round

pub data Stop : Type 0 where
  running shut_down : Stop
  gave_up : ℕ → Stop

-- The pauses that were made, and how it ends.
pub record Run : Type 0 where
  pub pauses : List ℕ
  pub stop : Stop

-- `attempt.saturating_add(1)` on `u32`
abbrev pub next_attempt : ℕ → ℕ
next_attempt attempt = min (attempt + 1) (2 ^ 32 - 1)

abbrev pub exceeds : Option ℕ → ℕ → Bool
exceeds none attempt = false
exceeds (some max) attempt = ltb max attempt

-- Behind a round that has no session any more: the retry limit, and then the pause.
unfoldable pub settle : ReconnectConfig → ℕ → ℕ → Bool → Run → Run
settle config attempt backoff shutdown later =
    if exceeds config.max_retries attempt
    then record { pauses = []; stop = gave_up (attempt - 1) }
    else if shutdown
    then record { pauses = backoff ∷ []; stop = shut_down }
    else record { pauses = backoff ∷ later.pauses; stop = later.stop }

unfoldable pub reconnect_loop : ReconnectConfig → ℕ → ℕ → List Round → Run
reconnect_loop config attempt backoff [] = record { pauses = []; stop = running }
reconnect_loop config attempt backoff (cancelled ∷ rs) = record { pauses = []; stop = shut_down }
reconnect_loop config attempt backoff (finished ∷ rs) = record { pauses = []; stop = shut_down }
reconnect_loop config attempt backoff (failed shutdown ∷ rs) =
    settle config (next_attempt attempt) backoff shutdown
      (reconnect_loop config (next_attempt attempt) (next_backoff backoff config.max_backoff) rs)
reconnect_loop config attempt backoff (lost shutdown ∷ rs) =
    settle config (next_attempt 0) config.initial_backoff shutdown (
      reconnect_loop config (next_attempt 0)
        (next_backoff config.initial_backoff config.max_backoff) rs)

unfoldable pub run_with_reconnect : ReconnectConfig → List Round → Run
run_with_reconnect config rs = reconnect_loop config 0 config.initial_backoff rs
