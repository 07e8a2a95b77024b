-- ===== src/Text.antt =====
-- The operations of `str` that the parsers use, over the bytes of a text: `strip_prefix`,
-- `split_once`, `rsplit_once`, `contains` of a byte, and literals.
pub mod Split
use Prim.Native.Char.{code}
use Prim.Native.String.{String}
use rusnel.Base.{
  Bytes, ◌∷◌, [], List, Bool, ℕ, if◌then◌else◌, suc, ◌&&◌, ltb, leb, ℕ, Bool, true, false, ◌||◌,
  Option, none, some, List, [], ◌∷◌, Bytes, ◌==◌, if◌then◌else◌, length,
}

-- The bytes of an ASCII literal.
abbrev pub text : String → Bytes
text String.[] = []
text (String.◌∷◌ c s) = code c ∷ text s

abbrev pub strip_prefix : Bytes → Bytes → Option Bytes
strip_prefix [] s = some s
strip_prefix (p ∷ ps) [] = none
strip_prefix (p ∷ ps) (c ∷ cs) = if c == p then strip_prefix ps cs else none

abbrev pub contains : ℕ → Bytes → Bool
contains b [] = false
contains b (c ∷ cs) = c == b || contains b cs

-- What stands before and behind the first `b`.
unfoldable pub split_once : ℕ → Bytes → Option (Bytes × Bytes)
split_once b [] = none
split_once b (c ∷ cs) = elim (c == b) [
  | true ↦ some ([], cs)
  | false ↦ elim (split_once b cs) [ none ↦ none | some (x, y) ↦ some (c ∷ x, y) ]
]

-- What stands before and behind the last `b`.
unfoldable pub rsplit_once : ℕ → Bytes → Option (Bytes × Bytes)
rsplit_once b [] = none
rsplit_once b (c ∷ cs) = elim (rsplit_once b cs) [
  | some (x, y) ↦ some (c ∷ x, y)
  | none ↦ if c == b then some ([], cs) else none
]

-- A byte inside a character of a UTF-8 text.
abbrev pub is_continuation : ℕ → Bool
is_continuation b = leb 128 b && ltb b 192

-- How many characters a UTF-8 text has.
abbrev pub char_count : Bytes → ℕ
char_count [] = 0
char_count (b ∷ bs) = let rest = char_count bs in if is_continuation b then rest else suc rest
