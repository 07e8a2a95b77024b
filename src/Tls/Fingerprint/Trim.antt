-- ===== src/Tls/Fingerprint/Trim.antt =====
-- `str::trim` on the bytes of a UTF-8 text: white space of Unicode at both ends goes.
use rusnel.Base.{
  ap, ◌∙◌, ◌<◌, All, ℕ, ◌≡◌, refl, arith, Bool, false, ◌&&◌, ◌||◌, [], ◌∷◌, Bytes, leb, ◌==◌,
  if◌then◌else◌,
}

abbrev pub is_ascii_white : ℕ → Bool
is_ascii_white c = c == 32 || leb 9 c && leb c 13

-- U+0085 and U+00A0
abbrev is_white_2 : ℕ → ℕ → Bool
is_white_2 a b = a == 0xC2 && (b == 0x85 || b == 0xA0)

-- U+1680, U+2000 to U+200A, U+2028, U+2029, U+202F, U+205F and U+3000
abbrev is_white_3 : ℕ → ℕ → ℕ → Bool
is_white_3 a b c =
    a == 0xE1 && b == 0x9A && c == 0x80
    || a == 0xE2 && b == 0x80 && (leb 0x80 c && leb c 0x8A || c == 0xA8 || c == 0xA9 || c == 0xAF)
    || a == 0xE2 && b == 0x81 && c == 0x9F
    || a == 0xE3 && b == 0x80 && c == 0x80

-- The white space in front goes.
unfoldable pub trim_start : Bytes → Bytes
trim_start [] = []
trim_start (a ∷ []) = if is_ascii_white a then [] else a ∷ []
trim_start (a ∷ b ∷ []) =
    let one = trim_start (b ∷ []) in
    if is_ascii_white a then one else if is_white_2 a b then [] else a ∷ b ∷ []
trim_start (a ∷ b ∷ c ∷ s) =
    let one = trim_start (b ∷ c ∷ s) in
    let two = trim_start (c ∷ s) in
    let three = trim_start s in
    if is_ascii_white a
    then one
    else if is_white_2 a b
    then two
    else if is_white_3 a b c
    then three
    else a ∷ b ∷ c ∷ s

-- The same from the back, on the reversed text.
unfoldable pub trim_back : Bytes → Bytes
trim_back [] = []
trim_back (a ∷ []) = if is_ascii_white a then [] else a ∷ []
trim_back (b ∷ a ∷ []) =
    let one = trim_back (a ∷ []) in
    if is_ascii_white b then one else if is_white_2 a b then [] else b ∷ a ∷ []
trim_back (c ∷ b ∷ a ∷ s) =
    let one = trim_back (b ∷ a ∷ s) in
    let two = trim_back (a ∷ s) in
    let three = trim_back s in
    if is_ascii_white c
    then one
    else if is_white_2 b c
    then two
    else if is_white_3 a b c
    then three
    else c ∷ b ∷ a ∷ s

abbrev pub turn : Bytes → Bytes → Bytes
turn [] acc = acc
turn (b ∷ bs) acc = turn bs (b ∷ acc)

unfoldable pub trim : Bytes → Bytes
trim s = turn (trim_back (turn (trim_start s) [])) []

-- A byte of ASCII that is no white space.
abbrev pub IsInk : ℕ → Type 0
IsInk b = (b < 128) × (is_ascii_white b ≡ false)

trim_start-ink : (b : ℕ) (s : Bytes) → IsInk b → trim_start (b ∷ s) ≡ b ∷ s
unfolding trim_start
trim_start-ink b [] h = ground (arith, h)
trim_start-ink b (c ∷ []) h = ground (arith, h)
trim_start-ink b (c ∷ d ∷ s) h = ground (arith, h)

trim_back-ink : (b : ℕ) (s : Bytes) → IsInk b → trim_back (b ∷ s) ≡ b ∷ s
unfolding trim_back
trim_back-ink b [] h = ground (arith, h)
trim_back-ink b (c ∷ []) h = ground (arith, h)
trim_back-ink b (c ∷ d ∷ s) h = ground (arith, h)

turn-turn : (s acc : Bytes) → turn (turn s acc) [] ≡ turn acc s
turn-turn [] acc = refl
turn-turn (b ∷ s) acc = turn-turn s (b ∷ acc)

All-turn : (s acc : Bytes) → All IsInk s → All IsInk acc → All IsInk (turn s acc)
All-turn [] acc h k = k
All-turn (b ∷ s) acc h k = All-turn s (b ∷ acc) h.1 (h.0, k)

trim_start-id : (s : Bytes) → All IsInk s → trim_start s ≡ s
unfolding trim_start
trim_start-id [] h = refl
trim_start-id (b ∷ s) h = trim_start-ink b s h.0

trim_back-id : (s : Bytes) → All IsInk s → trim_back s ≡ s
unfolding trim_back
trim_back-id [] h = refl
trim_back-id (b ∷ s) h = trim_back-ink b s h.0

pub trim-ink : (s : Bytes) → All IsInk s → trim s ≡ s
unfolding trim
trim-ink s h =
    ap (λ t. turn (trim_back (turn t [])) []) (trim_start-id s h)
    ∙ ap (λ t. turn t []) (trim_back-id (turn s []) (All-turn s [] h tt))
    ∙ turn-turn s []
