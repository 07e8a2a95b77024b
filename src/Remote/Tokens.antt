-- ===== src/Remote/Tokens.antt =====
-- src/common/remote.rs: `parse_direction`, `parse_protocol`, `split_addr_tokens` and `unbracket`,
-- with the errors of the parser. A text is its bytes; the parser cuts at ASCII bytes only.
pub mod Grammar
pub mod Split
pub mod Sound
pub mod Fuel
pub mod Suffix
use rusnel.Base.{
  ℕ, zero, suc, Bool, true, false, ◌&&◌, Option, none, some, List, [], ◌∷◌, ◌++◌, Bytes, ◌==◌, ltb,
  equal, length, if◌then◌else◌, Result, ok, err, map_ok,
}
use rusnel.Text.{text, strip_prefix, split_once, rsplit_once}
use rusnel.Remote.{Protocol, Direction, forward, reverse}

-- Which number or address could not be read: the argument `what`.
pub data Part : Type 0 where
  local_host local_port remote_port : Part

-- One constructor for each message of the parser. `out_of_fuel` is the model's own.
pub data RemoteError : Type 0 where
  missing_details : RemoteError
  invalid_protocol : RemoteError
  unterminated_bracket expected_colon trailing_colon_after_bracket trailing_colon : RemoteError
  invalid : Part → RemoteError
  missing_parts unexpected_parts : RemoteError
  stdio_reversed stdio_with_socks stdio_without_target stdio_parts : RemoteError
  out_of_fuel : RemoteError

unfoldable pub parse_direction : Bytes → Result RemoteError (Direction × Bytes)
parse_direction s = elim (strip_prefix (text "R:") s) [
  | some [] ↦ err missing_details
  | some (c ∷ cs) ↦ ok (reverse, c ∷ cs)
  | none ↦ if equal s (text "R") then err missing_details else ok (forward, s)
]

unfoldable pub parse_protocol : Bytes → Result RemoteError (Option Protocol × Bytes)
parse_protocol s = elim (rsplit_once b'/' s) [
  | none ↦ ok (none, s)
  | some (head, suffix) ↦
      if equal suffix (text "tcp")
      then ok (some Protocol.tcp, head)
      else if equal suffix (text "udp")
      then ok (some Protocol.udp, head)
      else err invalid_protocol
]

abbrev pub Tokens : Type 0
Tokens = Result RemoteError (List Bytes)

-- Behind the `:` that ends a token: the input may not end there. `next` is the rest of the loop.
abbrev pub behind_colon : (Bytes → Tokens) → Bytes → RemoteError → Bytes → Tokens
behind_colon next token e [] = err e
behind_colon next token e (c ∷ cs) = map_ok (◌∷◌ token) (next (c ∷ cs))

-- Behind the `]` of a bracketed token.
abbrev pub behind_bracket : (Bytes → Tokens) → Bytes → Bytes → Tokens
behind_bracket next token [] = ok (token ∷ [])
behind_bracket next token (d ∷ rest) =
    if d == b':'
    then behind_colon next token trailing_colon_after_bracket rest
    else err expected_colon

-- One round of the loop at a token that starts with `c`.
unfoldable pub token_step : (Bytes → Tokens) → ℕ → Bytes → Tokens
token_step next c cs =
    if c == b'['
    then elim (split_once b']' cs) [
      | none ↦ err unterminated_bracket
      | some (inner, rest) ↦ behind_bracket next (b'[' ∷ (inner ++ b']' ∷ [])) rest
    ]
    else elim (split_once b':' (c ∷ cs)) [
      | none ↦ ok ((c ∷ cs) ∷ [])
      | some (token, rest) ↦ behind_colon next token trailing_colon rest
    ]

-- `while i < bytes.len()`, on the bytes from `i` on.
unfoldable pub split_loop : ℕ → Bytes → Tokens
split_loop fuel [] = ok []
split_loop zero (c ∷ cs) = err out_of_fuel
split_loop (suc fuel) (c ∷ cs) = token_step (split_loop fuel) c cs

-- Each round reads a byte at least.
unfoldable pub split_addr_tokens : Bytes → Tokens
split_addr_tokens s = split_loop (length s) s

abbrev drop_last : Bytes → Bytes
drop_last [] = []
drop_last (c ∷ []) = []
drop_last (c ∷ d ∷ cs) = c ∷ drop_last (d ∷ cs)

abbrev ends_with : ℕ → Bytes → Bool
ends_with b [] = false
ends_with b (c ∷ []) = c == b
ends_with b (c ∷ d ∷ cs) = ends_with b (d ∷ cs)

-- A text of two bytes or more that starts with `[` and ends with `]` loses both.
unfoldable pub unbracket : Bytes → Bytes
unbracket [] = []
unbracket (c ∷ cs) = if c == b'[' && ends_with b']' cs then drop_last cs else c ∷ cs
