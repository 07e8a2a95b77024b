-- ===== src/Base/Keys.antt =====
-- The keys of a concurrent map, with no order that code could see, and stores of shared objects.
use mathlib.Core.Path.{◌≡◌, refl}
use mathlib.Core.Bool.{Bool, true, false, not, ◌&&◌, ◌||◌}
use mathlib.Core.List.{List, [], ◌∷◌}
use Prim.Native.Nat.{ℕ, suc, ◌≤◌}
use native.Mathlib.Omega.{arith}
use mathlib.Core.Logic.{inl, inr}
use rusnel.Base.Lists.{length}
use rusnel.Base.Tests.{◌==◌, if◌then◌else◌, Bool-cases, ==_iff}

abbrev pub mem : ℕ → List ℕ → Bool
mem k [] = false
mem k (j ∷ js) = j == k || mem k js

abbrev pub insert_key : ℕ → List ℕ → List ℕ
insert_key k ks = if mem k ks then ks else k ∷ ks

abbrev pub remove_key : ℕ → List ℕ → List ℕ
remove_key k [] = []
remove_key k (j ∷ js) = let rest = remove_key k js in if j == k then rest else j ∷ rest

abbrev pub remove_keys : List ℕ → List ℕ → List ℕ
remove_keys [] ks = ks
remove_keys (r ∷ rs) ks = remove_keys rs (remove_key r ks)

pub mem-insert_key : (j k : ℕ) (ks : List ℕ) → mem j (insert_key k ks) ≡ (k == j || mem j ks)
mem-insert_key j k ks = elim (Bool-cases (k == j)) [
  | inl same ↦ rw (← (==_iff k j).0 same) (ground arith)
  | inr other ↦ ground arith
]

pub mem-remove_key : (j k : ℕ) (ks : List ℕ) → mem j (remove_key k ks) ≡ (not (k == j) && mem j ks)
mem-remove_key j k [] = ground arith
mem-remove_key j k (i ∷ is) = ground (arith, mem-remove_key j k is)

pub mem-remove_keys :
    (j : ℕ) (rs ks : List ℕ) → mem j (remove_keys rs ks) ≡ (not (mem j rs) && mem j ks)
mem-remove_keys j [] ks = refl
mem-remove_keys j (r ∷ rs) ks =
    ground (arith, mem-remove_keys j rs (remove_key r ks), mem-remove_key j r ks)

pub remove_key_absent : (k : ℕ) (ks : List ℕ) → mem k ks ≡ false → remove_key k ks ≡ ks
remove_key_absent k [] h = refl
remove_key_absent k (j ∷ js) h = ground (arith, remove_key_absent k js)

-- A write to the object at address `k`; an `Arc` is the address of its object.
abbrev pub put {ℓ} : {V : Type ℓ} → (ℕ → V) → ℕ → V → ℕ → V
put h k v j = if j == k then v else h j

-- No key stands twice.
abbrev pub IsDistinct : List ℕ → Type 0
IsDistinct [] = Unit
IsDistinct (k ∷ ks) = (mem k ks ≡ false) × IsDistinct ks

pub insert_key-IsDistinct : (k : ℕ) (ks : List ℕ) → IsDistinct ks → IsDistinct (insert_key k ks)
insert_key-IsDistinct k ks h = elim (Bool-cases (mem k ks)) [ inl t ↦ rw t h | inr f ↦ rw f (f, h) ]

pub remove_key-IsDistinct : (k : ℕ) (ks : List ℕ) → IsDistinct ks → IsDistinct (remove_key k ks)
remove_key-IsDistinct k [] h = tt
remove_key-IsDistinct k (j ∷ js) h =
    ground (arith, remove_key-IsDistinct k js h.1, mem-remove_key j k js, h.0)

pub length-remove_key :
    (k : ℕ) (ks : List ℕ)
    → IsDistinct ks
    → mem k ks ≡ true
    → length ks ≡ suc (length (remove_key k ks))
length-remove_key k [] h m = cc
length-remove_key k (j ∷ js) h m =
    ground (arith, length-remove_key k js h.1, remove_key_absent k js, h.0, ==_iff j k)

-- A set is no larger than one that has all its keys.
pub length_subset :
    (xs ys : List ℕ)
    → IsDistinct xs
    → IsDistinct ys
    → ((k : ℕ) → mem k xs ≡ true → mem k ys ≡ true)
    → length xs ≤ length ys
length_subset [] ys h g sub = omega arith
length_subset (x ∷ xs) ys h g sub =
    let here : mem x ys ≡ true = sub x (ground arith) in
    let less =
      length_subset xs (remove_key x ys) h.1 (remove_key-IsDistinct x ys g)
        (λ k m. ground (arith, mem-remove_key k x ys, sub k, h.0, ==_iff x k)) in
    omega (arith, less, length-remove_key x ys g here)
