-- ===== src/Remote/Tokens/Grammar.antt =====
-- The texts that `split_addr_tokens` is to accept: lists of tokens, joined by `:`.
use rusnel.Base.{◌≡◌, ◌≢◌, Bool, false, List, [], ◌∷◌, ◌++◌, Bytes, ◌==◌}
use rusnel.Text.{contains}

abbrev pub join : List Bytes → Bytes
join [] = []
join (t ∷ []) = t
join (t ∷ u ∷ us) = t ++ b':' ∷ join (u ∷ us)

abbrev pub bracketed : Bytes → Bytes
bracketed inner = b'[' ∷ (inner ++ b']' ∷ [])

abbrev pub starts_with_bracket : Bytes → Bool
starts_with_bracket [] = false
starts_with_bracket (c ∷ _) = c == b'['

-- A token: free of `:` and of a bracket in front, or a text in brackets with no `]` inside.
pub data IsToken : Bytes → Type 0 where
  plain : (t : Bytes) → contains b':' t ≡ false → starts_with_bracket t ≡ false → IsToken t
  in_brackets : (inner : Bytes) → contains b']' inner ≡ false → IsToken (bracketed inner)

-- A list of tokens, one at least, of which the last is not empty.
pub data IsTokens : List Bytes → Type 0 where
  last : {t : Bytes} → IsToken t → t ≢ [] → IsTokens (t ∷ [])
  more : {t : Bytes} {ts : List Bytes} → IsToken t → IsTokens ts → IsTokens (t ∷ ts)
