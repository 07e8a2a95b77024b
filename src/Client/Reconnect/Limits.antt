-- ===== src/Client/Reconnect/Limits.antt =====
-- How often the client tries, and how long it pauses.
use rusnel.Base.{
  ◌≤◌, ℕ, zero, suc, ◌+◌, ◌-◌, ◌^◌, ◌<◌, ◌≡◌, ◌≢◌, arith, Bool, false, none, some, List, [], ◌∷◌,
  ◌++◌,
}
use rusnel.Client.{next_backoff}
use rusnel.Client.Reconnect.{
  shut_down, ReconnectConfig, Round, failed, lost, cancelled, finished, gave_up, Run, next_attempt,
  settle, reconnect_loop, run_with_reconnect,
}

-- `n` attempts in a row that fail.
abbrev pub failures : ℕ → List Round
failures zero = []
failures (suc n) = failed false ∷ failures n

-- The first `n` pauses from `backoff` on.
abbrev pub pauses_from : ℕ → ℕ → ℕ → List ℕ
pauses_from zero backoff cap = []
pauses_from (suc n) backoff cap = backoff ∷ pauses_from n (next_backoff backoff cap) cap

reconnect_loop-failures :
    (config : ReconnectConfig) (m n attempt backoff : ℕ) (rs : List Round)
    → config.max_retries ≡ some m
    → attempt + n ≡ m
    → m < 2 ^ 32 - 1
    → reconnect_loop config attempt backoff (failures (suc n) ++ rs)
      ≡ record { pauses = pauses_from n backoff config.max_backoff; stop = gave_up m }
unfolding reconnect_loop settle
reconnect_loop-failures config m zero attempt backoff rs e s lt = ground (arith, e, s)
reconnect_loop-failures config m (suc n) attempt backoff rs e s lt = ground (
  arith,
  e,
  s,
  reconnect_loop-failures config m n (attempt + 1) (next_backoff backoff config.max_backoff) rs e
      (omega (arith, s)) lt,
)

-- With a limit of `m` retries, below the greatest `u32`, `m + 1` attempts that fail in a row end
-- the loop after `m` pauses that start from the initial one; what might come later is not waited
-- for.
pub run_with_reconnect-failures :
    (config : ReconnectConfig) (m : ℕ) (rs : List Round)
    → config.max_retries ≡ some m
    → m < 2 ^ 32 - 1
    → run_with_reconnect config (failures (suc m) ++ rs) ≡ record {
      pauses = pauses_from m config.initial_backoff config.max_backoff;
      stop = gave_up m;
    }
unfolding run_with_reconnect
run_with_reconnect-failures config m rs e lt =
    reconnect_loop-failures config m m 0 config.initial_backoff rs e (omega arith) lt

settle_unlimited :
    (config : ReconnectConfig) (attempt backoff : ℕ) (shutdown : Bool) (later : Run) (n : ℕ)
    → config.max_retries ≡ none
    → later.stop ≢ gave_up n
    → (settle config attempt backoff shutdown later).stop ≢ gave_up n
unfolding settle
settle_unlimited config attempt backoff shutdown later n e h = ground (arith, e, h)

reconnect_loop_unlimited :
    (config : ReconnectConfig) (attempt backoff : ℕ) (rs : List Round) (n : ℕ)
    → config.max_retries ≡ none
    → (reconnect_loop config attempt backoff rs).stop ≢ gave_up n
unfolding reconnect_loop
reconnect_loop_unlimited config attempt backoff [] n e = λ h. cc
reconnect_loop_unlimited config attempt backoff (cancelled ∷ rs) n e = λ h. cc
reconnect_loop_unlimited config attempt backoff (finished ∷ rs) n e = λ h. cc
reconnect_loop_unlimited config attempt backoff (failed shutdown ∷ rs) n e =
    settle_unlimited config (next_attempt attempt) backoff shutdown _ n e
      (reconnect_loop_unlimited config (next_attempt attempt) _ rs n e)
reconnect_loop_unlimited config attempt backoff (lost shutdown ∷ rs) n e =
    settle_unlimited config (next_attempt 0) config.initial_backoff shutdown _ n e
      (reconnect_loop_unlimited config (next_attempt 0) _ rs n e)

-- Without a limit the client never gives up, whatever happens.
pub run_with_reconnect_unlimited :
    (config : ReconnectConfig) (rs : List Round) (n : ℕ)
    → config.max_retries ≡ none
    → (run_with_reconnect config rs).stop ≢ gave_up n
unfolding run_with_reconnect
run_with_reconnect_unlimited config rs n e =
    reconnect_loop_unlimited config 0 config.initial_backoff rs n e

reconnect_loop-recovers :
    (config : ReconnectConfig) (m n attempt backoff : ℕ) (rs : List Round)
    → config.max_retries ≡ some m
    → attempt + n ≤ m
    → m < 2 ^ 32 - 1
    → reconnect_loop config attempt backoff (failures n ++ finished ∷ rs)
      ≡ record { pauses = pauses_from n backoff config.max_backoff; stop = shut_down }
unfolding reconnect_loop settle
reconnect_loop-recovers config m zero attempt backoff rs e s lt = ground arith
reconnect_loop-recovers config m (suc n) attempt backoff rs e s lt = ground (
  arith,
  e,
  s,
  reconnect_loop-recovers config m n (attempt + 1) (next_backoff backoff config.max_backoff) rs e
      (omega (arith, s)) lt,
)

reconnect_loop-lost :
    (config : ReconnectConfig) (m n j attempt backoff : ℕ) (rs : List Round)
    → config.max_retries ≡ some m
    → attempt + n ≤ m
    → j < m
    → m < 2 ^ 32 - 1
    → reconnect_loop config attempt backoff (failures n ++ lost false ∷ failures j ++ finished ∷ rs)
      ≡ record {
        pauses =
            pauses_from n backoff config.max_backoff
            ++ pauses_from (suc j) config.initial_backoff config.max_backoff;
        stop = shut_down;
      }
unfolding reconnect_loop settle
reconnect_loop-lost config m zero j attempt backoff rs e s k lt = ground (
  arith,
  e,
  k,
  reconnect_loop-recovers config m j 1 (next_backoff config.initial_backoff config.max_backoff) rs e
      (omega (arith, k)) lt,
)
reconnect_loop-lost config m (suc n) j attempt backoff rs e s k lt = ground (
  arith,
  e,
  s,
  reconnect_loop-lost config m n j (attempt + 1) (next_backoff backoff config.max_backoff) rs e
      (omega (arith, s)) k lt,
)

-- With a limit of `m` retries, below the greatest `u32`, a client whose first `n` attempts fail, at
-- most `m`, gets its session; if that is lost and fewer than `m` attempts fail behind it, it gets a new
-- one, and its pauses start anew from the initial one.
pub run_with_reconnect-recovers :
    (config : ReconnectConfig) (m n j : ℕ) (rs : List Round)
    → config.max_retries ≡ some m
    → n ≤ m
    → j < m
    → m < 2 ^ 32 - 1
    → run_with_reconnect config (failures n ++ lost false ∷ failures j ++ finished ∷ rs) ≡ record {
      pauses =
          pauses_from n config.initial_backoff config.max_backoff
          ++ pauses_from (suc j) config.initial_backoff config.max_backoff;
      stop = shut_down;
    }
unfolding run_with_reconnect
run_with_reconnect-recovers config m n j rs e s k lt =
    reconnect_loop-lost config m n j 0 config.initial_backoff rs e (omega (arith, s)) k lt
