-- ===== src/Tls/Fingerprint/RoundTrip.antt =====
-- Which texts stand for a digest.
use rusnel.Base.{
  subst, sym, ok-injective, ℕ, ◌+◌, ◌*◌, ◌/◌, ◌%◌, ◌<◌, ◌≡◌, ◌≢◌, refl, ap, ◌∙◌, arith, true, false,
  some, [], ◌∷◌, ◌++◌, Bytes, length, ok, All, ◌↔◌, equal_iff,
}
use rusnel.Text.{text}
use rusnel.Net.Number.{to_digit}
use rusnel.Tls.Fingerprint.Trim.{trim, IsInk, trim-ink, is_ascii_white}
use rusnel.Tls.Fingerprint.{
  hex_char, hex_pairs, format_fingerprint, without_colons, starts_inside, from_hex, read_pairs,
  fingerprint_body, parse_fingerprint, verify_server_cert,
}

-- Two hexadecimal digits for each byte, in either case, with colons between digits wherever they
-- may stand.
pub data IsHexOf : Bytes → Bytes → Type 0 where
  done : IsHexOf [] []
  colon : {t d : Bytes} → IsHexOf t d → IsHexOf (b':' ∷ t) d
  byte :
      {t d : Bytes} (a b x y : ℕ)
      → to_digit 16 a ≡ some x
      → to_digit 16 b ≡ some y
      → IsHexOf t d
      → IsHexOf (a ∷ b ∷ t) ((x * 16 + y) ∷ d)

digit_ink :
    (a x : ℕ)
    → to_digit 16 a ≡ some x
    → (a < 128) × (is_ascii_white a ≡ false) × (a ≢ b':') × (a ≢ b'+') × (a ≢ b's') × (a ≢ b'S')
unfolding to_digit
digit_ink a x h = ground arith

IsHexOf-IsInk : {t d : Bytes} → IsHexOf t d → All IsInk t
IsHexOf-IsInk done = tt
IsHexOf-IsInk (colon h) = ((omega arith, refl), IsHexOf-IsInk h)
IsHexOf-IsInk (byte a b x y p q h) =
    let u = digit_ink a x p in
    let v = digit_ink b y q in ((u.0, u.1), ((v.0, v.1), IsHexOf-IsInk h))

-- The digits alone.
starts_ascii : {t d : Bytes} → IsHexOf t d → starts_inside (without_colons t) ≡ false
starts_ascii done = refl
starts_ascii (colon h) = starts_ascii h
starts_ascii (byte a b x y p q h) = ground (arith, digit_ink a x p)

without_colons-digits :
    (a b : ℕ) (t : Bytes)
    → a ≢ b':'
    → b ≢ b':'
    → without_colons (a ∷ b ∷ t) ≡ a ∷ b ∷ without_colons t
without_colons-digits a b t h k = ground (arith, h, k)

read_pairs-hex : (i : ℕ) {t d : Bytes} → IsHexOf t d → read_pairs i (without_colons t) ≡ ok d
unfolding read_pairs from_hex
read_pairs-hex i done = refl
read_pairs-hex i (colon h) = read_pairs-hex i h
read_pairs-hex i (byte a b x y p q h) =
    let u = digit_ink a x p in
    let v = digit_ink b y q in
    rw (without_colons-digits a b _ u.2 v.2)
      (ground (arith, p, q, u, v, starts_ascii h, read_pairs-hex (i + 1) h))

length-hex : {t d : Bytes} → IsHexOf t d → length (without_colons t) ≡ 2 * length d
length-hex done = omega arith
length-hex (colon h) = length-hex h
length-hex (byte a b x y p q h) = ground (arith, digit_ink a x p, digit_ink b y q, length-hex h)

body_hex : {t d : Bytes} → IsHexOf t d → fingerprint_body t ≡ t
body_hex done = refl
body_hex (colon h) = refl
body_hex (byte a b x y p q h) = ground (arith, digit_ink a x p)

-- The ways in which a fingerprint may start.
pub data IsPrefix : Bytes → Type 0 where
  bare : IsPrefix []
  lower : IsPrefix (text "sha256:")
  upper : IsPrefix (text "SHA256:")

prefix-IsInk : {s : Bytes} → IsPrefix s → (t : Bytes) → All IsInk t → All IsInk (s ++ t)
prefix-IsInk bare t h = h
prefix-IsInk lower t h = ground (arith, h)
prefix-IsInk upper t h = ground (arith, h)

prefix_body : {s t d : Bytes} → IsPrefix s → IsHexOf t d → fingerprint_body (s ++ t) ≡ t
prefix_body bare h = body_hex h
prefix_body lower h = refl
prefix_body upper h = refl

-- A digest of 32 bytes in hexadecimal, of either case, with colons or without, bare or behind
-- `sha256:` or `SHA256:`, is read as that digest.
pub parse_fingerprint-hex :
    {s t d : Bytes} → IsPrefix s → IsHexOf t d → length d ≡ 32 → parse_fingerprint (s ++ t) ≡ ok d
unfolding parse_fingerprint
parse_fingerprint-hex {s} {t} {d} pre h n =
    let trimmed = trim-ink (s ++ t) (prefix-IsInk pre t (IsHexOf-IsInk h)) in
    let body : fingerprint_body (trim (s ++ t)) ≡ t =
      ap fingerprint_body trimmed ∙ prefix_body pre h in
    rw body (ground (arith, length-hex h, n, read_pairs-hex 0 h))

hex_char-digit : (d : ℕ) → d < 16 → to_digit 16 (hex_char d) ≡ some d
unfolding to_digit
hex_char-digit d h = ground arith

pub hex_pairs-IsHexOf : (d : Bytes) → All (λ b. b < 256) d → IsHexOf (hex_pairs d) d
hex_pairs-IsHexOf [] h = done
hex_pairs-IsHexOf (b ∷ d) h =
    let e : b / 16 * 16 + b % 16 ≡ b = omega arith in
    subst (λ x. IsHexOf (hex_pairs (b ∷ d)) (x ∷ d)) e
      (byte _ _ (b / 16) (b % 16) (hex_char-digit (b / 16) (omega (arith, h.0)))
        (hex_char-digit (b % 16) (omega arith)) (hex_pairs-IsHexOf d h.1))

-- What is printed is read back.
pub parse_fingerprint-format_fingerprint :
    (d : Bytes)
    → All (λ b. b < 256) d
    → length d ≡ 32
    → parse_fingerprint (format_fingerprint d) ≡ ok d
unfolding format_fingerprint
parse_fingerprint-format_fingerprint d h n = parse_fingerprint-hex lower (hex_pairs-IsHexOf d h) n

-- A client that pins the fingerprint that the server prints accepts exactly the certificates with
-- the server's digest.
pub verify_server_cert_iff :
    (sha256 : Bytes → Bytes) (cert cert' pin : Bytes)
    → ((c : Bytes) → (length (sha256 c) ≡ 32) × All (λ b. b < 256) (sha256 c))
    → parse_fingerprint (format_fingerprint (sha256 cert)) ≡ ok pin
    → (verify_server_cert sha256 pin cert' ≡ true) ↔ (sha256 cert' ≡ sha256 cert)
unfolding verify_server_cert
verify_server_cert_iff sha256 cert cert' pin digest h =
    let d = digest cert in
    let e : pin ≡ sha256 cert =
      ok-injective (sym h ∙ parse_fingerprint-format_fingerprint (sha256 cert) d.1 d.0) in
    rw e (equal_iff (sha256 cert') (sha256 cert))
