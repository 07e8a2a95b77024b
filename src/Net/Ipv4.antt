-- ===== src/Net/Ipv4.antt =====
-- `Ipv4Addr`: its octets, `from_str` and `Display`.
pub mod RoundTrip
use rusnel.Base.{
  ℕ, Bool, true, false, Option, none, some, List, [], ◌∷◌, ◌++◌, ◌≤◌, ◌<◌, Bytes, length, ltb, ◌==◌,
  if◌then◌else◌,
}
use rusnel.Net.Number.{show_uint, read_number}

pub record Ipv4 : Type 0 where
  pub a : ℕ
  pub b : ℕ
  pub c : ℕ
  pub d : ℕ

-- Each octet is a `u8`.
pub record IsIpv4 (ip : Ipv4) : Type 0 where
  pub a_lt : ip.a < 256
  pub b_lt : ip.b < 256
  pub c_lt : ip.c < 256
  pub d_lt : ip.d < 256

abbrev pub octets : Ipv4 → Bytes
octets ip = ip.a ∷ ip.b ∷ ip.c ∷ ip.d ∷ []

-- `Ipv4Addr::new`
abbrev pub new : ℕ → ℕ → ℕ → ℕ → Ipv4
new a b c d = record { a = a; b = b; c = c; d = d }

unfoldable pub read_octet : Bytes → Option (ℕ × Bytes)
read_octet = read_number 10 3 false 255

-- `read_given_char`, then the parser `p`.
abbrev pub after_byte {ℓ} : {A : Type ℓ} → ℕ → (Bytes → Option A) → Bytes → Option A
after_byte b p [] = none
after_byte b p (c ∷ cs) = if c == b then p cs else none

unfoldable pub read_ipv4 : Bytes → Option (Ipv4 × Bytes)
read_ipv4 s = elim (read_octet s) [
  | none ↦ none
  | some (a, s1) ↦ elim (after_byte b'.' read_octet s1) [
    | none ↦ none
    | some (b, s2) ↦ elim (after_byte b'.' read_octet s2) [
      | none ↦ none
      | some (c, s3) ↦ elim (after_byte b'.' read_octet s3) [
        | none ↦ none
        | some (d, s4) ↦ some (new a b c d, s4)
      ]
    ]
  ]
]

-- `Parser::parse_with`: the whole input is read.
abbrev pub whole {ℓ} : {A : Type ℓ} → Option (A × Bytes) → Option A
whole none = none
whole (some (a, [])) = some a
whole (some (a, _ ∷ _)) = none

unfoldable pub parse : Bytes → Option Ipv4
parse s = if ltb 15 (length s) then none else whole (read_ipv4 s)

unfoldable pub show : Ipv4 → Bytes
show ip =
    show_uint ip.a
    ++ (b'.' ∷ (show_uint ip.b ++ (b'.' ∷ (show_uint ip.c ++ (b'.' ∷ show_uint ip.d)))))

abbrev pub unspecified : Ipv4
unspecified = new 0 0 0 0

abbrev pub localhost : Ipv4
localhost = new 127 0 0 1
