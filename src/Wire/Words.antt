-- ===== src/Wire/Words.antt =====
-- Little-endian machine words: `to_le_bytes` and `from_le_bytes` of `u16` and `u32`.
use rusnel.Base.{ℕ, ◌+◌, ◌*◌, ◌/◌, ◌%◌, ◌≡◌, arith, [], ◌∷◌, Bytes}

abbrev pub u16_bytes : ℕ → Bytes
u16_bytes n = (n % 256) ∷ (n / 256) ∷ []

abbrev pub u32_bytes : ℕ → Bytes
u32_bytes n = (n % 256) ∷ (n / 256 % 256) ∷ (n / 65536 % 256) ∷ (n / 16777216) ∷ []

abbrev pub from_le_bytes : Bytes → ℕ
from_le_bytes [] = 0
from_le_bytes (b ∷ bs) = b + 256 * from_le_bytes bs

pub from_le_bytes-u16_bytes : (n : ℕ) → from_le_bytes (u16_bytes n) ≡ n
from_le_bytes-u16_bytes n = omega arith

pub from_le_bytes-u32_bytes : (n : ℕ) → from_le_bytes (u32_bytes n) ≡ n
from_le_bytes-u32_bytes n = omega arith
