-- ===== src/Net/Number.antt =====
-- Numbers as the standard library reads and prints them: `u16::from_str`, `Display`, and the
-- address parser's `read_number`.
pub mod Decimal
use rusnel.Base.{
  ℕ, zero, suc, ◌+◌, ◌-◌, ◌*◌, ◌/◌, ◌%◌, Bool, true, false, not, ◌&&◌, ◌||◌, Option, none, some,
  List, [], ◌∷◌, Bytes, ltb, leb, ◌==◌, if◌then◌else◌,
}

-- `char::to_digit` for the radices 10 and 16.
unfoldable pub to_digit : ℕ → ℕ → Option ℕ
to_digit radix c =
    if leb b'0' c && leb c b'9'
    then some (c - b'0')
    else if radix == 16 && leb b'a' c && leb c b'f'
    then some (c - b'a' + 10)
    else if radix == 16 && leb b'A' c && leb c b'F'
    then some (c - b'A' + 10)
    else none

-- The digits of a decimal number, checked against the largest value of the type.
unfoldable pub digits_from : ℕ → ℕ → Bytes → Option ℕ
unfolding to_digit
digits_from max acc [] = some acc
digits_from max acc (c ∷ cs) = elim (to_digit 10 c) [
  | none ↦ none
  | some d ↦ elim (ltb max (acc * 10 + d)) [
    | true ↦ none
    | false ↦ digits_from max (acc * 10 + d) cs
  ]
]

-- `uN::from_str`: one `+` may stand in front, and at least one digit is wanted.
unfoldable pub parse_uint : ℕ → Bytes → Option ℕ
unfolding digits_from
parse_uint max [] = none
parse_uint max (c ∷ []) = digits_from max 0 (c ∷ [])
parse_uint max (c ∷ d ∷ cs) =
    if c == b'+' then digits_from max 0 (d ∷ cs) else digits_from max 0 (c ∷ d ∷ cs)

abbrev pub u16_max : ℕ
u16_max = 65535

abbrev pub parse_u16 : Bytes → Option ℕ
parse_u16 = parse_uint u16_max

-- `Display` of an unsigned number with at most `fuel` digits, in front of `rest`.
unfoldable pub digits_onto : ℕ → ℕ → Bytes → Bytes
digits_onto zero n rest = rest
digits_onto (suc fuel) n rest = elim (ltb n 10) [
  | true ↦ (b'0' + n % 10) ∷ rest
  | false ↦ digits_onto fuel (n / 10) ((b'0' + n % 10) ∷ rest)
]

-- 20 digits hold every `u64`.
unfoldable pub show_uint : ℕ → Bytes
show_uint n = digits_onto 20 n []

-- The loop of `Parser::read_number`: the value, how many digits were read, and the rest.
unfoldable pub read_digits : ℕ → ℕ → ℕ → ℕ → ℕ → Bytes → Option (ℕ × ℕ × Bytes)
unfolding to_digit
read_digits radix limit max acc count [] = some (acc, count, [])
read_digits radix limit max acc count (c ∷ cs) = elim (to_digit radix c) [
  | none ↦ some (acc, count, c ∷ cs)
  | some d ↦ elim (ltb max (acc * radix + d) || leb limit count) [
    | true ↦ none
    | false ↦ read_digits radix limit max (acc * radix + d) (count + 1) cs
  ]
]

abbrev starts_with_zero : Bytes → Bool
starts_with_zero [] = false
starts_with_zero (c ∷ _) = c == b'0'

-- `Parser::read_number(radix, Some(limit), allow_zero_prefix)` for a type with largest value `max`.
unfoldable pub read_number : ℕ → ℕ → Bool → ℕ → Bytes → Option (ℕ × Bytes)
read_number radix limit allow_zero_prefix max s = elim (read_digits radix limit max 0 0 s) [
  | none ↦ none
  | some (n, count, rest) ↦
      if count == 0
      then none
      else if not allow_zero_prefix && starts_with_zero s && ltb 1 count
      then none
      else some (n, rest)
]
