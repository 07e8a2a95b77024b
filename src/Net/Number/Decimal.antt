-- ===== src/Net/Number/Decimal.antt =====
-- Decimal numbers are read back as they were printed.
use native.Mathlib.Nat.{pow-suc}
use rusnel.Base.{
  ℕ, zero, suc, ◌+◌, ◌*◌, ◌/◌, ◌%◌, ◌^◌, ◌≤◌, ◌<◌, ◌≡◌, refl, ap, ◌⊎◌, arith, false, none, some, [],
  ◌∷◌, ◌++◌, Bytes, length, ltb, ◌==◌, inl, inr, Bool-cases, if◌then◌else◌,
}
use rusnel.Text.{contains}
use rusnel.Net.Number.{
  to_digit, digits_from, parse_uint, digits_onto, show_uint, read_digits, read_number,
}

to_digit-digit : (d : ℕ) → d < 10 → to_digit 10 (b'0' + d) ≡ some d
unfolding to_digit
to_digit-digit d h = ground arith

digits_from-digit :
    (max acc d : ℕ) (rest : Bytes)
    → d < 10
    → acc * 10 + d ≤ max
    → digits_from max acc ((b'0' + d) ∷ rest) ≡ digits_from max (acc * 10 + d) rest
unfolding digits_from
digits_from-digit max acc d rest h k = ground (arith, to_digit-digit d h)

digits_from-digits_onto :
    (fuel n max : ℕ) (rest : Bytes)
    → n < 10 ^ fuel
    → n ≤ max
    → digits_from max 0 (digits_onto fuel n rest) ≡ digits_from max n rest
unfolding digits_onto
digits_from-digits_onto zero n max rest h k = ap (λ (m : ℕ). digits_from max m rest) (omega arith)
digits_from-digits_onto (suc fuel) n max rest h k = elim (Bool-cases (ltb n 10)) [
  | inl small ↦ ground (arith, digits_from-digit max 0 n rest (ground arith))
  | inr large ↦ ground (
    arith,
    digits_from-digits_onto fuel (n / 10) max ((b'0' + n % 10) ∷ rest)
        (omega (arith, pow-suc 10 fuel)),
    digits_from-digit max (n / 10) (n % 10) rest,
  )
]

-- A printed number is not empty and starts with a digit.
digits_onto_cons :
    (fuel n : ℕ) (rest : Bytes)
    → 0 < fuel
    → (d : ℕ) × (tail : Bytes) × (digits_onto fuel n rest ≡ (b'0' + d) ∷ tail) × (d < 10)
unfolding digits_onto
digits_onto_cons zero n rest h = absurd (omega arith)
digits_onto_cons (suc zero) n rest h = elim (Bool-cases (ltb n 10)) [
  | inl small ↦ (n % 10, rest, ground arith, omega arith)
  | inr large ↦ (n % 10, rest, ground arith, omega arith)
]
digits_onto_cons (suc (suc fuel)) n rest h = elim (Bool-cases (ltb n 10)) [
  | inl small ↦ (n % 10, rest, ground arith, omega arith)
  | inr large ↦
      let (d, tail, e, lt) =
        digits_onto_cons (suc fuel) (n / 10) ((b'0' + n % 10) ∷ rest) (omega arith) in
      (d, tail, ground arith, lt)
]

parse_uint_lem :
    (max c : ℕ) (cs : Bytes)
    → (c == b'+') ≡ false
    → parse_uint max (c ∷ cs) ≡ digits_from max 0 (c ∷ cs)
unfolding parse_uint
parse_uint_lem max c [] h = refl
parse_uint_lem max c (d ∷ cs) h = ground arith

digits_from-nil : (max n : ℕ) → digits_from max n [] ≡ some n
unfolding digits_from
digits_from-nil max n = refl

parse_uint-digits_onto :
    (fuel max n : ℕ)
    → 0 < fuel
    → n ≤ max
    → n < 10 ^ fuel
    → parse_uint max (digits_onto fuel n []) ≡ some n
parse_uint-digits_onto fuel max n f h k =
    let (d, tail, e, lt) = digits_onto_cons fuel n [] f in
    cc (
      e,
      parse_uint_lem max (b'0' + d) tail (ground arith),
      digits_from-digits_onto fuel n max [] k h,
      digits_from-nil max n,
    )

-- `Display`, then `from_str`, for every number that fits the type.
pub parse_uint-show_uint :
    (max n : ℕ) → n ≤ max → n < 10 ^ 20 → parse_uint max (show_uint n) ≡ some n
unfolding show_uint
parse_uint-show_uint max n h k = parse_uint-digits_onto 20 max n (omega arith) h k

-- Only digits are printed, so a byte that is none does not occur.
contains-digits_onto :
    (b fuel n : ℕ) (rest : Bytes)
    → (b < b'0') ⊎ (b'9' < b)
    → contains b rest ≡ false
    → contains b (digits_onto fuel n rest) ≡ false
unfolding digits_onto
contains-digits_onto b zero n rest h k = k
contains-digits_onto b (suc fuel) n rest h k =
    ground (arith, contains-digits_onto b fuel (n / 10) ((b'0' + n % 10) ∷ rest) h)

pub contains-show_uint : (b n : ℕ) → (b < b'0') ⊎ (b'9' < b) → contains b (show_uint n) ≡ false
unfolding show_uint
contains-show_uint b n h = contains-digits_onto b 20 n [] h refl

pub show_uint_cons :
    (n : ℕ) → (d : ℕ) × (tail : Bytes) × (show_uint n ≡ (b'0' + d) ∷ tail) × (d < 10)
unfolding show_uint
show_uint_cons n = digits_onto_cons 20 n [] (omega arith)

-- An octet, by the number of its digits.
abbrev pub octet_digits : ℕ → Bytes
octet_digits n =
    if ltb n 10
    then (b'0' + n) ∷ []
    else if ltb n 100
    then (b'0' + n / 10) ∷ (b'0' + n % 10) ∷ []
    else (b'0' + n / 100) ∷ (b'0' + n / 10 % 10) ∷ (b'0' + n % 10) ∷ []

digits_onto_octet :
    (fuel n : ℕ) → n < 256 → digits_onto (suc (suc (suc fuel))) n [] ≡ octet_digits n
unfolding digits_onto
digits_onto_octet fuel n h = ground arith

pub show_uint_octet : (n : ℕ) → n < 256 → show_uint n ≡ octet_digits n
unfolding show_uint
show_uint_octet n h = digits_onto_octet 17 n h

-- What follows a number is no digit.
abbrev pub Stops : Bytes → Type 0
Stops [] = Unit
Stops (c ∷ _) = to_digit 10 c ≡ none

read_digits-digit :
    (limit max acc count d : ℕ) (rest : Bytes)
    → d < 10
    → acc * 10 + d ≤ max
    → count < limit
    → read_digits 10 limit max acc count ((b'0' + d) ∷ rest)
      ≡ read_digits 10 limit max (acc * 10 + d) (count + 1) rest
unfolding read_digits
read_digits-digit limit max acc count d rest h k l = ground (arith, to_digit-digit d h)

read_digits-Stops :
    (limit max acc count : ℕ) (rest : Bytes)
    → Stops rest
    → read_digits 10 limit max acc count rest ≡ some (acc, count, rest)
unfolding read_digits
read_digits-Stops limit max acc count [] h = refl
read_digits-Stops limit max acc count (c ∷ cs) h = ground arith

read_digits_octet :
    (n : ℕ) (rest : Bytes)
    → n < 256
    → Stops rest
    → read_digits 10 3 255 0 0 (octet_digits n ++ rest) ≡ some (n, length (octet_digits n), rest)
read_digits_octet n rest h k = elim (Bool-cases (ltb n 10)) [
  | inl one ↦ ground (arith, read_digits-digit 3 255 0 0 n rest, read_digits-Stops 3 255 n 1 rest k)
  | inr more ↦ elim (Bool-cases (ltb n 100)) [
    | inl two ↦ ground (
      arith,
      read_digits-digit 3 255 0 0 (n / 10) ((b'0' + n % 10) ∷ rest),
      read_digits-digit 3 255 (n / 10) 1 (n % 10) rest,
      read_digits-Stops 3 255 n 2 rest k,
    )
    | inr three ↦ ground (
      arith,
      read_digits-digit 3 255 0 0 (n / 100) ((b'0' + n / 10 % 10) ∷ (b'0' + n % 10) ∷ rest),
      read_digits-digit 3 255 (n / 100) 1 (n / 10 % 10) ((b'0' + n % 10) ∷ rest),
      read_digits-digit 3 255 (n / 10) 2 (n % 10) rest,
      read_digits-Stops 3 255 n 3 rest k,
    )
  ]
]

-- An octet is read back from its decimal form.
pub read_octet-show_uint :
    (n : ℕ) (rest : Bytes)
    → n < 256
    → Stops rest
    → read_number 10 3 false 255 (show_uint n ++ rest) ≡ some (n, rest)
unfolding read_number
read_octet-show_uint n rest h k =
    rw (show_uint_octet n h) (ground (arith, read_digits_octet n rest h k))
