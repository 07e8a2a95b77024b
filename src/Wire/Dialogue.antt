-- ===== src/Wire/Dialogue.antt =====
-- Code that reads what a peer sends and writes to it, in turn.
use rusnel.Base.{
  ℕ, zero, suc, ◌≡◌, refl, Option, none, some, [], ◌∷◌, ◌++◌, Bytes, length, Result, ok, err,
}
use rusnel.Wire.{read_exact, read_exact-append}

-- What was written, and the value with the bytes that are left to read.
pub record Talk (E A : Type 0) : Type 0 where
  pub written : Bytes
  pub result : Result E (A × Bytes)

-- Code that reads what the peer sends and writes to it.
abbrev pub Dialogue : Type 0 → Type 0 → Type 0
Dialogue E A = Bytes → Talk E A

abbrev pub continue_with :
    {E A B : Type 0} → Bytes → Result E (A × Bytes) → (A → Dialogue E B) → Talk E B
continue_with before (err e) f = record { written = before; result = err e }
continue_with before (ok (a, s)) f =
    let t = f a s in record { written = before ++ t.written; result = t.result }

infixl 5 ◌>>=◌ ◌>>◌
abbrev pub ◌>>=◌ : {E A B : Type 0} → Dialogue E A → (A → Dialogue E B) → Dialogue E B
m >>= f = λ s. let t = m s in continue_with t.written t.result f

abbrev pub ◌>>◌ : {E B : Type 0} → Dialogue E (Unit {0}) → Dialogue E B → Dialogue E B
m >> k = m >>= λ _. k

abbrev pub give : {E A : Type 0} → A → Dialogue E A
give a s = record { written = []; result = ok (a, s) }

abbrev pub fail : {E A : Type 0} → E → Dialogue E A
fail e s = record { written = []; result = err e }

abbrev pub say : {E : Type 0} → Bytes → Dialogue E (Unit {0})
say bytes s = record { written = bytes; result = ok (tt, s) }

abbrev read_result : {E : Type 0} → E → Option (Bytes × Bytes) → Talk E Bytes
read_result closed none = record { written = []; result = err closed }
read_result closed (some r) = record { written = []; result = ok r }

-- `closed` is the error of a stream that ends early.
unfoldable pub read_or : {E : Type 0} → E → ℕ → Dialogue E Bytes
read_or closed n s = read_result closed (read_exact n s)

abbrev pub byte_at : ℕ → Bytes → ℕ
byte_at i [] = 0
byte_at zero (b ∷ bs) = b
byte_at (suc i) (b ∷ bs) = byte_at i bs

abbrev pub heard : {E A : Type 0} → A → Bytes → Talk E A
heard a s = record { written = []; result = ok (a, s) }

pub read_or-append :
    {E : Type 0} (closed : E) (a s : Bytes) → read_or closed (length a) (a ++ s) ≡ heard a s
unfolding read_or
read_or-append closed a s = rw (read_exact-append a s) refl
