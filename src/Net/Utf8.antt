-- ===== src/Net/Utf8.antt =====
-- `String::from_utf8_lossy`.
use rusnel.Base.{
  ℕ, ◌-◌, ◌<◌, ◌&&◌, [], ◌∷◌, ◌++◌, ◌≡◌, refl, ap, arith, Bytes, All, ltb, leb, ◌==◌, if◌then◌else◌,
}

-- A sequence that has begun: its bytes so far, how many are to come, and the range of the next.
pub data Pending : Type 0 where
  idle : Pending
  within : Bytes → ℕ → ℕ → ℕ → Pending

-- U+FFFD
abbrev pub replacement : Bytes
replacement = 0xEF ∷ 0xBF ∷ 0xBD ∷ []

-- What a byte at the start of a character emits, and what it leaves pending.
begin : ℕ → Bytes × Pending
begin b =
    if ltb b 0x80
    then (b ∷ [], idle)
    else if leb 0xC2 b && leb b 0xDF
    then ([], within (b ∷ []) 1 0x80 0xBF)
    else if b == 0xE0
    then ([], within (b ∷ []) 2 0xA0 0xBF)
    else if b == 0xED
    then ([], within (b ∷ []) 2 0x80 0x9F)
    else if leb 0xE1 b && leb b 0xEF
    then ([], within (b ∷ []) 2 0x80 0xBF)
    else if b == 0xF0
    then ([], within (b ∷ []) 3 0x90 0xBF)
    else if leb 0xF1 b && leb b 0xF3
    then ([], within (b ∷ []) 3 0x80 0xBF)
    else if b == 0xF4
    then ([], within (b ∷ []) 3 0x80 0x8F)
    else (replacement, idle)

-- A byte that does not continue the pending sequence is read again as a first byte.
accept : Pending → ℕ → Bytes × Pending
unfolding begin
accept idle b = begin b
accept (within seen more lo hi) b =
    if leb lo b && leb b hi
    then if leb more 1
      then (seen ++ b ∷ [], idle)
      else ([], within (seen ++ b ∷ []) (more - 1) 0x80 0xBF)
    else let (out, next) = begin b in (replacement ++ out, next)

lossy_from : Pending → Bytes → Bytes
unfolding accept
lossy_from idle [] = []
lossy_from (within _ _ _ _) [] = replacement
lossy_from p (b ∷ bs) = let (out, next) = accept p b in out ++ lossy_from next bs

unfoldable pub from_utf8_lossy : Bytes → Bytes
unfolding lossy_from
from_utf8_lossy = lossy_from idle

begin-ascii : (b : ℕ) → b < 128 → begin b ≡ (b ∷ [], idle)
unfolding begin
begin-ascii b h = ground arith

-- ASCII text is kept as it is.
pub from_utf8_lossy-ascii : (s : Bytes) → All (λ b. b < 128) s → from_utf8_lossy s ≡ s
unfolding from_utf8_lossy
from_utf8_lossy-ascii [] h = refl
from_utf8_lossy-ascii (b ∷ bs) (h, t) =
    rw (begin-ascii b h) (ap (◌∷◌ b) (from_utf8_lossy-ascii bs t))
