-- ===== src/Client/Backoff.antt =====
-- How the client's pauses grow.
use rusnel.Base.{ℕ, zero, suc, ◌*◌, ◌^◌, ◌≡◌, ◌≤◌, arith, min}
use rusnel.Client.{next_backoff, duration_max}

-- The pause before attempt `n`.
abbrev pub pause : ℕ → ℕ → ℕ → ℕ
pause zero first cap = first
pause (suc n) first cap = next_backoff (pause n first cap) cap

double : (first n : ℕ) → first * 2 ^ suc n ≡ first * 2 ^ n * 2
double first n = grind arith

-- From a first pause within the cap, and a cap that a `Duration` can hold, the pauses double until
-- they reach the cap, and stay there.
pub next_backoff-pause :
    (n first cap : ℕ)
    → first ≤ cap
    → cap ≤ duration_max
    → pause n first cap ≡ min (first * 2 ^ n) cap
unfolding next_backoff
next_backoff-pause zero first cap h k = omega arith
next_backoff-pause (suc n) first cap h k =
    ground (arith, next_backoff-pause n first cap h k, double first n)
