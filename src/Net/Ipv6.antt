-- ===== src/Net/Ipv6.antt =====
-- `Ipv6Addr`: its segments and octets, `from_str` and `Display`.
use rusnel.Base.{
  ℕ, zero, suc, ◌+◌, ◌-◌, ◌*◌, ◌/◌, ◌%◌, ◌<◌, Bool, true, false, ◌&&◌, Option, none, some, List, [],
  ◌∷◌, ◌++◌, Bytes, length, take, drop, ltb, ◌==◌, if◌then◌else◌,
}
use rusnel.Net.Number.{read_number}
use rusnel.Net.Ipv4
use rusnel.Net.Ipv4.{Ipv4, read_ipv4, after_byte, whole}

-- The eight 16-bit segments.
pub record Ipv6 : Type 0 where
  pub s0 : ℕ
  pub s1 : ℕ
  pub s2 : ℕ
  pub s3 : ℕ
  pub s4 : ℕ
  pub s5 : ℕ
  pub s6 : ℕ
  pub s7 : ℕ

-- Each segment is a `u16`.
pub record IsIpv6 (ip : Ipv6) : Type 0 where
  pub s0_lt : ip.s0 < 65536
  pub s1_lt : ip.s1 < 65536
  pub s2_lt : ip.s2 < 65536
  pub s3_lt : ip.s3 < 65536
  pub s4_lt : ip.s4 < 65536
  pub s5_lt : ip.s5 < 65536
  pub s6_lt : ip.s6 < 65536
  pub s7_lt : ip.s7 < 65536

abbrev pub segments : Ipv6 → List ℕ
segments ip = ip.s0 ∷ ip.s1 ∷ ip.s2 ∷ ip.s3 ∷ ip.s4 ∷ ip.s5 ∷ ip.s6 ∷ ip.s7 ∷ []

abbrev pub from_segments : List ℕ → Option Ipv6
from_segments (a ∷ b ∷ c ∷ d ∷ e ∷ f ∷ g ∷ h ∷ []) =
    some (record { s0 = a; s1 = b; s2 = c; s3 = d; s4 = e; s5 = f; s6 = g; s7 = h })
from_segments _ = none

abbrev pub be_bytes : List ℕ → Bytes
be_bytes [] = []
be_bytes (x ∷ xs) = (x / 256) ∷ (x % 256) ∷ be_bytes xs

-- The sixteen octets, the most significant first.
abbrev pub octets : Ipv6 → Bytes
octets ip = be_bytes (segments ip)

abbrev pub be_words : Bytes → List ℕ
be_words (x ∷ y ∷ rest) = (x * 256 + y) ∷ be_words rest
be_words _ = []

-- `Ipv6Addr::from([u8; 16])`
abbrev pub from_octets : Bytes → Option Ipv6
from_octets bs = from_segments (be_words bs)

-- `read_separator(':', i, inner)`; the flag is `i == 0`.
abbrev separated {ℓ} : {A : Type ℓ} → Bool → (Bytes → Option A) → Bytes → Option A
separated first p s = if first then p s else after_byte b':' p s

read_segment : Bytes → Option (ℕ × Bytes)
read_segment = read_number 16 4 true 65535

-- `read_groups` with `left` groups to go: the groups, whether they end in an IPv4 address, the rest.
read_groups : ℕ → Bool → Bytes → List ℕ × Bool × Bytes
unfolding read_segment
read_groups zero first s = ([], false, s)
read_groups (suc left) first s = elim (if ltb 0 left then separated first read_ipv4 s else none) [
  | some (ip, rest) ↦ ((ip.a * 256 + ip.b) ∷ (ip.c * 256 + ip.d) ∷ [], true, rest)
  | none ↦ elim (separated first read_segment s) [
    | none ↦ ([], false, s)
    | some (g, rest) ↦ let (gs, v4, rest') = read_groups left false rest in (g ∷ gs, v4, rest')
  ]
]

zeros : ℕ → List ℕ
zeros zero = []
zeros (suc n) = 0 ∷ zeros n

-- Behind `::` come at most seven groups, and zeros fill the gap.
with_tail : List ℕ → Bytes → Option (Ipv6 × Bytes)
unfolding read_groups zeros
with_tail head s =
    let (tail, _, rest) = read_groups (8 - (length head + 1)) true s in
    elim (from_segments (head ++ (zeros (8 - length head - length tail) ++ tail))) [
      | none ↦ none
      | some ip ↦ some (ip, rest)
    ]

read_ipv6 : Bytes → Option (Ipv6 × Bytes)
unfolding read_groups with_tail
read_ipv6 s =
    let (head, v4, rest) = read_groups 8 true s in
    elim (length head == 8) [
      | true ↦ elim (from_segments head) [ none ↦ none | some ip ↦ some (ip, rest) ]
      | false ↦ if v4 then none else after_byte b':' (after_byte b':' (with_tail head)) rest
    ]

unfoldable pub parse : Bytes → Option Ipv6
unfolding read_ipv6
parse s = whole (read_ipv6 s)

hex_digit : ℕ → ℕ
hex_digit d = if ltb d 10 then b'0' + d else b'a' + (d - 10)

hex_onto : ℕ → ℕ → Bytes → Bytes
unfolding hex_digit
hex_onto zero n rest = rest
hex_onto (suc fuel) n rest = elim (ltb n 16) [
  | true ↦ hex_digit n ∷ rest
  | false ↦ hex_onto fuel (n / 16) (hex_digit (n % 16) ∷ rest)
]

-- `fmt_subslice`: the segments in lower-case hexadecimal, joined by `:`.
show_segments : List ℕ → Bytes
unfolding hex_onto
show_segments [] = []
show_segments (x ∷ []) = hex_onto 4 x []
show_segments (x ∷ y ∷ xs) = hex_onto 4 x (b':' ∷ show_segments (y ∷ xs))

-- A run of zero segments: where it starts and how long it is.
pub record Span : Type 0 where
  pub start : ℕ
  pub len : ℕ

-- The first longest run of zeros: the loop over the segments, at index `i`.
longest_zeros : ℕ → Span → Span → List ℕ → Span
longest_zeros i longest current [] = longest
longest_zeros i longest current (x ∷ xs) = elim (x == 0) [
  | true ↦
      let started = if current.len == 0 then i else current.start in
      let grown : Span = record { start = started; len = current.len + 1 } in
      longest_zeros (i + 1) (if ltb longest.len grown.len then grown else longest) grown xs
  | false ↦ longest_zeros (i + 1) longest (record { start = 0; len = 0 }) xs
]

show_compressed : List ℕ → Bytes
unfolding longest_zeros show_segments
show_compressed segs =
    let empty : Span = record { start = 0; len = 0 } in
    let z = longest_zeros 0 empty empty segs in
    if ltb 1 z.len
    then show_segments (take z.start segs)
      ++ (b':' ∷ b':' ∷ show_segments (drop (z.start + z.len) segs))
    else show_segments segs

-- An IPv4-mapped address prints its last two segments as an IPv4 address.
abbrev is_mapped : Ipv6 → Bool
is_mapped ip = ip.s0 == 0 && ip.s1 == 0 && ip.s2 == 0 && ip.s3 == 0 && ip.s4 == 0 && ip.s5 == 65535

unfoldable pub show : Ipv6 → Bytes
unfolding show_compressed
show ip =
    if is_mapped ip
    then b':'
      ∷ b':'
      ∷ b'f'
      ∷ b'f'
      ∷ b'f'
      ∷ b'f'
      ∷ b':'
      ∷ Ipv4.show (Ipv4.new (ip.s6 / 256) (ip.s6 % 256) (ip.s7 / 256) (ip.s7 % 256))
    else show_compressed (segments ip)
