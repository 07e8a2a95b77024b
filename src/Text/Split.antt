-- ===== src/Text/Split.antt =====
-- Splitting a text at a byte: the parts and the separator make the text again, and a text that is
-- put together at a separator is split there.
use rusnel.Base.{
  ℕ, false, ◌||◌, none, some, [], ◌∷◌, ◌++◌, Bytes, ◌≡◌, refl, ap, arith, inl, inr, Option-cases,
  length, length-append, ◌<◌,
}
use rusnel.Text.{contains, split_once, rsplit_once}

-- No text around it hides the first `b`.
pub split_once-append :
    (b : ℕ) (x y : Bytes) → contains b x ≡ false → split_once b (x ++ b ∷ y) ≡ some (x, y)
unfolding split_once
split_once-append b [] y h = ground arith
split_once-append b (c ∷ cs) y h = ground (arith, split_once-append b cs y)

pub split_once-contains : (b : ℕ) (s : Bytes) → contains b s ≡ false → split_once b s ≡ none
unfolding split_once
split_once-contains b [] h = refl
split_once-contains b (c ∷ cs) h = ground (arith, split_once-contains b cs)

pub split_once-eq-none : (b : ℕ) (s : Bytes) → split_once b s ≡ none → contains b s ≡ false
unfolding split_once
split_once-eq-none b [] h = refl
split_once-eq-none b (c ∷ cs) h = elim (Option-cases (split_once b cs)) [
  | inl e ↦ ground (arith, split_once-eq-none b cs e)
  | inr ((u, v), e) ↦ ground arith
]

pub split_once_lem :
    (b : ℕ) (s : Bytes) {x y : Bytes}
    → split_once b s ≡ some (x, y)
    → (s ≡ x ++ b ∷ y) × (contains b x ≡ false)
unfolding split_once
split_once_lem b [] h = cc
split_once_lem b (c ∷ cs) {x} {y} h = elim (Option-cases (split_once b cs)) [
  | inl e ↦ ground arith
  | inr ((u, v), e) ↦ ground (arith, split_once_lem b cs e)
]

pub length-split_once :
    (b : ℕ) (s : Bytes) {x y : Bytes} → split_once b s ≡ some (x, y) → length y < length s
length-split_once b s {x} {y} h =
    omega (arith, ap (length {A = ℕ}) (split_once_lem b s h).0, length-append x (b ∷ y))

pub rsplit_once-contains : (b : ℕ) (s : Bytes) → contains b s ≡ false → rsplit_once b s ≡ none
unfolding rsplit_once
rsplit_once-contains b [] h = refl
rsplit_once-contains b (c ∷ cs) h = ground (arith, rsplit_once-contains b cs)

pub rsplit_once-append :
    (b : ℕ) (x y : Bytes) → contains b y ≡ false → rsplit_once b (x ++ b ∷ y) ≡ some (x, y)
unfolding rsplit_once
rsplit_once-append b [] y h = ground (arith, rsplit_once-contains b y h)
rsplit_once-append b (c ∷ cs) y h = ground (arith, rsplit_once-append b cs y h)

pub contains-append : (b : ℕ) (x y : Bytes) → contains b (x ++ y) ≡ (contains b x || contains b y)
contains-append b [] y = refl
contains-append b (c ∷ cs) y = ground (arith, contains-append b cs y)
