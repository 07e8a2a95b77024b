-- ===== src/Tests/Tls.antt =====
-- Runs of the fingerprints and of the choice of a TLS mode (src/common/tls.rs, src/main.rs).
use rusnel.Base.{
  ℕ, zero, suc, ◌<◌, ◌≡◌, ◌↔◌, refl, arith, true, none, some, [], ◌∷◌, ◌++◌, Bytes, All, ok, err,
}
use rusnel.Text.{text}
use rusnel.Net.Number.{to_digit}
use rusnel.Tls.{Embedded}
use rusnel.Tls.Fingerprint.{
  hex_pairs, parse_fingerprint, read_pairs, from_hex, panicked, verify_server_cert,
}
use rusnel.Tls.Fingerprint.Trim.{trim, trim_back, trim_start}
use rusnel.Tls.Fingerprint.RoundTrip.{
  upper, hex_pairs-IsHexOf, parse_fingerprint-hex, parse_fingerprint-format_fingerprint,
  verify_server_cert_iff,
}

abbrev repeat : ℕ → ℕ → Bytes
repeat zero b = []
repeat (suc n) b = b ∷ repeat n b

abbrev digest : Bytes
digest = 171 ∷ repeat 31 9

digest-All : All (λ b. b < 256) digest
digest-All = omega arith

parse_fingerprint-hex_example : parse_fingerprint (text "SHA256:" ++ hex_pairs digest) ≡ ok digest
parse_fingerprint-hex_example =
    parse_fingerprint-hex upper (hex_pairs-IsHexOf digest digest-All) refl

-- The first pair takes one byte of a character of two.
half_a_character : parse_fingerprint (b'a' ∷ 195 ∷ 169 ∷ repeat 61 b'a') ≡ err panicked
unfolding parse_fingerprint read_pairs from_hex to_digit trim trim_back trim_start
half_a_character = refl

abbrev sha256 : Bytes → Bytes
sha256 cert = digest

verify_server_cert_iff_example :
    (verify_server_cert sha256 digest (text "b") ≡ true) ↔ (sha256 (text "b") ≡ sha256 (text "a"))
verify_server_cert_iff_example =
    verify_server_cert_iff sha256 (text "a") (text "b") digest (λ c. (refl, digest-All))
      (parse_fingerprint-format_fingerprint digest digest-All refl)

abbrev built_in : Embedded
built_in = record {
  ca = none;
  server_cert = some (text "/s.pem");
  server_key = some (text "/s.key");
  client_cert = none;
  client_key = none;
  fingerprint = none;
  server_name = none;
}
