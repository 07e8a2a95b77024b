-- ===== src/Remote/Tokens/Suffix.antt =====
-- The prefix `R:` and the suffixes `/tcp` and `/udp`, and brackets around a host.
use rusnel.Base.{ℕ, ◌≡◌, ◌≢◌, refl, ap, arith, true, false, some, [], ◌∷◌, ◌++◌, Bytes, ok}
use rusnel.Text.{text}
use rusnel.Text.Split.{rsplit_once-append}
use rusnel.Remote.{Protocol, Direction, forward, reverse}
use rusnel.Remote.Tokens.{parse_direction, parse_protocol, unbracket, drop_last, ends_with}
use rusnel.Remote.Tokens.Grammar.{bracketed, starts_with_bracket}

-- The prefix of a direction, and the suffix of a protocol.
abbrev pub direction_prefix : Direction → Bytes → Bytes
direction_prefix forward s = s
direction_prefix reverse s = text "R:" ++ s

abbrev pub protocol_suffix : Protocol → Bytes
protocol_suffix Protocol.tcp = text "tcp"
protocol_suffix Protocol.udp = text "udp"

pub parse_direction-prefix :
    (d : Direction) (c : ℕ) (cs : Bytes)
    → c ≢ b'R'
    → parse_direction (direction_prefix d (c ∷ cs)) ≡ ok (d, c ∷ cs)
unfolding parse_direction
parse_direction-prefix forward c cs h = ground arith
parse_direction-prefix reverse c cs h = refl

pub parse_protocol-suffix :
    (p : Protocol) (s : Bytes) → parse_protocol (s ++ b'/' ∷ protocol_suffix p) ≡ ok (some p, s)
unfolding parse_protocol
parse_protocol-suffix Protocol.tcp s = ground (arith, rsplit_once-append b'/' s (text "tcp"))
parse_protocol-suffix Protocol.udp s = ground (arith, rsplit_once-append b'/' s (text "udp"))

pub unbracket-plain : (s : Bytes) → starts_with_bracket s ≡ false → unbracket s ≡ s
unfolding unbracket
unbracket-plain [] h = refl
unbracket-plain (c ∷ cs) h = ground arith

ends_with_lem : (b : ℕ) (s : Bytes) → ends_with b (s ++ b ∷ []) ≡ true
ends_with_lem b [] = ground arith
ends_with_lem b (c ∷ []) = ground arith
ends_with_lem b (c ∷ d ∷ cs) = ends_with_lem b (d ∷ cs)

drop_last_lem : (b : ℕ) (s : Bytes) → drop_last (s ++ b ∷ []) ≡ s
drop_last_lem b [] = refl
drop_last_lem b (c ∷ []) = refl
drop_last_lem b (c ∷ d ∷ cs) = ap (◌∷◌ c) (drop_last_lem b (d ∷ cs))

pub unbracket-bracketed : (inner : Bytes) → unbracket (bracketed inner) ≡ inner
unfolding unbracket
unbracket-bracketed inner = ground (arith, ends_with_lem b']' inner, drop_last_lem b']' inner)
