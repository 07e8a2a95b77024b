-- ===== src/Wire.antt =====
-- Byte streams, and what the program frames on them: control messages (src/common/tunnel.rs) and
-- UDP datagrams (src/common/udp.rs).
pub mod Words
pub mod Control
pub mod Datagram
pub mod Dialogue
use rusnel.Base.{
  ℕ, zero, suc, Bool, true, false, Option, none, some, List, [], ◌∷◌, ◌++◌, ◌≡◌, refl, arith, Bytes,
  length, ap,
}

-- `read_exact` on the bytes that still arrive: the bytes read and the rest, or the early end.
unfoldable pub read_exact : ℕ → Bytes → Option (Bytes × Bytes)
read_exact zero s = some ([], s)
read_exact (suc n) [] = none
read_exact (suc n) (b ∷ s) = elim (read_exact n s) [
  | none ↦ none
  | some (taken, rest) ↦ some (b ∷ taken, rest)
]

pub read_exact-append : (a s : Bytes) → read_exact (length a) (a ++ s) ≡ some (a, s)
unfolding read_exact
read_exact-append [] s = refl
read_exact-append (b ∷ a) s = rw (read_exact-append a s)
