-- ===== src/Tls/Fingerprint.antt =====
-- Fingerprints of certificates as text: `format_fingerprint` and `parse_fingerprint` of
-- src/common/tls.rs.
pub mod Trim
pub mod RoundTrip
use rusnel.Base.{
  ◌-◌, ℕ, zero, suc, ◌+◌, ◌*◌, ◌/◌, ◌%◌, ◌≡◌, arith, Bool, true, false, not, ◌&&◌, ◌||◌, Option,
  none, some, List, [], ◌∷◌, ◌++◌, Bytes, length, ltb, leb, ◌==◌, if◌then◌else◌, Result, ok, err,
  ◌>>=◌, map_ok, equal,
}
use rusnel.Text.{text, strip_prefix, is_continuation}
use rusnel.Net.Number.{to_digit}
use Trim.{trim}

-- A digit of `{:02x}`.
abbrev pub hex_char : ℕ → ℕ
hex_char d = if ltb d 10 then b'0' + d else b'a' + d - 10

abbrev pub hex_pairs : Bytes → Bytes
hex_pairs [] = []
hex_pairs (b ∷ bs) = hex_char (b / 16) ∷ hex_char (b % 16) ∷ hex_pairs bs

unfoldable pub format_fingerprint : Bytes → Bytes
format_fingerprint digest = text "sha256:" ++ hex_pairs digest

-- `panicked` is no error of the code: a slice inside a character.
pub data FingerprintError : Type 0 where
  wrong_length : ℕ → FingerprintError
  invalid_hex : ℕ → FingerprintError
  panicked : FingerprintError

abbrev pub without_colons : Bytes → Bytes
without_colons [] = []
without_colons (c ∷ cs) = let rest = without_colons cs in if c == b':' then rest else c ∷ rest

-- An index is no boundary where a continuation byte stands.
abbrev pub starts_inside : Bytes → Bool
starts_inside [] = false
starts_inside (b ∷ bs) = is_continuation b

abbrev two_digits : Option ℕ → Option ℕ → Option ℕ
two_digits (some x) (some y) = some (x * 16 + y)
two_digits _ _ = none

-- `u8::from_str_radix(chunk, 16)` on a chunk of two bytes: one `+` may stand in front.
unfoldable pub from_hex : ℕ → ℕ → Option ℕ
from_hex a b = if a == b'+' then to_digit 16 b else two_digits (to_digit 16 a) (to_digit 16 b)

-- The loop over the bytes of the digest, from byte `i` on. The text has two bytes for each.
unfoldable pub read_pairs : ℕ → Bytes → Result FingerprintError Bytes
read_pairs i [] = ok []
read_pairs i (a ∷ []) = err panicked
read_pairs i (a ∷ b ∷ rest) =
    let later = read_pairs (i + 1) rest in
    if is_continuation a || starts_inside rest
    then err panicked
    else elim (from_hex a b) [ none ↦ err (invalid_hex i) | some x ↦ map_ok (◌∷◌ x) later ]

abbrev pub fingerprint_body : Bytes → Bytes
fingerprint_body s = elim (strip_prefix (text "sha256:") s) [
  | some rest ↦ rest
  | none ↦ elim (strip_prefix (text "SHA256:") s) [ some rest ↦ rest | none ↦ s ]
]

unfoldable pub parse_fingerprint : Bytes → Result FingerprintError Bytes
parse_fingerprint s =
    let cleaned = without_colons (fingerprint_body (trim s)) in
    if length cleaned == 64 then read_pairs 0 cleaned else err (wrong_length (length cleaned))

-- `FingerprintVerifier::verify_server_cert`, with SHA-256 as an argument.
unfoldable pub verify_server_cert : (Bytes → Bytes) → Bytes → Bytes → Bool
verify_server_cert sha256 expected cert = equal (sha256 cert) expected
