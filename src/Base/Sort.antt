-- ===== src/Base/Sort.antt =====
-- `sort_by_key` of the standard library: a stable sort, here by keys that are tuples of numbers in
-- lexicographic order.
use Prim.Native.Nat.{ℕ}
use mathlib.Core.Path.{◌≡◌, refl}
use mathlib.Core.Bool.{Bool, true, false, ◌||◌}
use mathlib.Core.Logic.{inl, inr}
use mathlib.Core.List.{List, [], ◌∷◌, map}
use native.Mathlib.Omega.{arith}
use rusnel.Base.Tests.{ltb, ◌==◌, if◌then◌else◌, Bool-cases}
use rusnel.Base.Lists.{All}
use rusnel.Base.Keys.{mem}

abbrev pub lex_leb : List ℕ → List ℕ → Bool
lex_leb [] ys = true
lex_leb (x ∷ xs) [] = false
lex_leb (x ∷ xs) (y ∷ ys) = let rest = lex_leb xs ys in if x == y then rest else ltb x y

lex_leb_total : (xs ys : List ℕ) → lex_leb xs ys ≡ false → lex_leb ys xs ≡ true
lex_leb_total [] ys h = cc
lex_leb_total (x ∷ xs) [] h = refl
lex_leb_total (x ∷ xs) (y ∷ ys) h = ground (arith, lex_leb_total xs ys)

module _ {ℓ} {A : Type ℓ} (key : A → List ℕ) where
  abbrev insert_by : A → List A → List A
  insert_by x [] = x ∷ []
  insert_by x (y ∷ ys) =
      let rest = insert_by x ys in if lex_leb (key x) (key y) then x ∷ y ∷ ys else y ∷ rest

  unfoldable pub sort_by_key : List A → List A
  sort_by_key [] = []
  sort_by_key (x ∷ xs) = insert_by x (sort_by_key xs)

  -- Each key is at most the next one.
  abbrev pub IsSortedBy : List A → Type 0
  IsSortedBy [] = Unit
  IsSortedBy (x ∷ []) = Unit
  IsSortedBy (x ∷ y ∷ r) = (lex_leb (key x) (key y) ≡ true) × IsSortedBy (y ∷ r)

  insert_by-IsSortedBy : (x : A) (l : List A) → IsSortedBy l → IsSortedBy (insert_by x l)
  insert_by-IsSortedBy x [] h = tt
  insert_by-IsSortedBy x (y ∷ []) h = ground (arith, lex_leb_total (key x) (key y))
  insert_by-IsSortedBy x (y ∷ z ∷ r) h = ground (
    arith,
    lex_leb_total (key x) (key y),
    lex_leb_total (key x) (key z),
    insert_by-IsSortedBy x (z ∷ r),
  )

  pub sort_by_key-IsSortedBy : (l : List A) → IsSortedBy (sort_by_key l)
  unfolding sort_by_key
  sort_by_key-IsSortedBy [] = tt
  sort_by_key-IsSortedBy (x ∷ xs) =
      insert_by-IsSortedBy x (sort_by_key xs) (sort_by_key-IsSortedBy xs)

  mem-insert_by :
      (f : A → ℕ) (k : ℕ) (x : A) (l : List A)
      → mem k (map f (insert_by x l)) ≡ (f x == k || mem k (map f l))
  mem-insert_by f k x [] = refl
  mem-insert_by f k x (y ∷ ys) = ground (arith, mem-insert_by f k x ys)

  pub mem-sort_by_key :
      (f : A → ℕ) (k : ℕ) (l : List A) → mem k (map f (sort_by_key l)) ≡ mem k (map f l)
  unfolding sort_by_key
  mem-sort_by_key f k [] = refl
  mem-sort_by_key f k (x ∷ xs) =
      ground (arith, mem-insert_by f k x (sort_by_key xs), mem-sort_by_key f k xs)

  insert_by-All : (P : A → Type 0) (x : A) (l : List A) → P x → All P l → All P (insert_by x l)
  insert_by-All P x [] p h = (p, tt)
  insert_by-All P x (y ∷ ys) p h = elim (Bool-cases (lex_leb (key x) (key y))) [
    | inl t ↦ rw t (p, h)
    | inr f ↦ rw f (h.0, insert_by-All P x ys p h.1)
  ]

  pub sort_by_key-All : (P : A → Type 0) (l : List A) → All P l → All P (sort_by_key l)
  unfolding sort_by_key
  sort_by_key-All P [] h = tt
  sort_by_key-All P (x ∷ xs) h = insert_by-All P x (sort_by_key xs) h.0 (sort_by_key-All P xs h.1)
