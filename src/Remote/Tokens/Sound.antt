-- ===== src/Remote/Tokens/Sound.antt =====
-- What `split_addr_tokens` returns is a list of tokens, and joins to the text that was read.
use rusnel.Base.{
  ℕ, zero, suc, ◌≡◌, refl, sym, ◌∙◌, arith, false, ◌⊎◌, inl, inr, List, [], ◌∷◌, ◌++◌, append_assoc,
  Bytes, ◌==◌, length, Bool-cases, Option-cases, ok, Result-cases,
}
use rusnel.Text.{contains, split_once}
use rusnel.Text.Split.{split_once_lem, split_once-eq-none}
use rusnel.Remote.Tokens.{
  RemoteError, trailing_colon_after_bracket, trailing_colon, Tokens, behind_colon, behind_bracket,
  token_step, split_loop, split_addr_tokens,
}
use rusnel.Remote.Tokens.Grammar.{
  join, bracketed, starts_with_bracket, IsToken, plain, in_brackets, IsTokens, last, more,
}
use rusnel.Remote.Tokens.Split.{join-more}

-- What one round of the loop has read when it succeeds on `s` with `ts`.
data Round (next : Bytes → Tokens) (s : Bytes) (ts : List Bytes) : Type 0 where
  ends : IsToken s → ts ≡ s ∷ [] → Round next s ts
  goes :
      (t : Bytes) (d : ℕ) (ds : Bytes) (us : List Bytes)
      → IsToken t
      → s ≡ t ++ b':' ∷ d ∷ ds
      → next (d ∷ ds) ≡ ok us
      → ts ≡ t ∷ us
      → Round next s ts

behind_colon-Round :
    (next : Bytes → Tokens) {s : Bytes} (t : Bytes) (e : RemoteError) (rest : Bytes)
    {ts : List Bytes}
    → IsToken t
    → s ≡ t ++ b':' ∷ rest
    → behind_colon next t e rest ≡ ok ts
    → Round next s ts
behind_colon-Round next t e [] h f g = cc
behind_colon-Round next t e (d ∷ ds) h f g = elim (Result-cases (next (d ∷ ds))) [
  | inl (us, read) ↦ goes t d ds us h f read (ground (arith, read))
  | inr (bad, failed) ↦ ground (arith, failed)
]

bracket-Round :
    (next : Bytes → Tokens) {s : Bytes} (inner rest : Bytes) {ts : List Bytes}
    → contains b']' inner ≡ false
    → s ≡ b'[' ∷ (inner ++ b']' ∷ rest)
    → behind_bracket next (bracketed inner) rest ≡ ok ts
    → Round next s ts
bracket-Round next inner [] h f g = ends (rw f (in_brackets inner h)) (ground arith)
bracket-Round next inner (d ∷ rest) h f g = elim (Bool-cases (d == b':')) [
  | inl colon ↦
      behind_colon-Round next (bracketed inner) trailing_colon_after_bracket rest
        (in_brackets inner h) (ground (arith, append_assoc inner (b']' ∷ []) (b':' ∷ rest)))
        (ground arith)
  | inr other ↦ ground arith
]

front :
    (t : Bytes) (c : ℕ) (cs rest : Bytes)
    → c ∷ cs ≡ t ++ b':' ∷ rest
    → (c == b'[') ≡ false
    → starts_with_bracket t ≡ false
front [] c cs rest f h = refl
front (x ∷ xs) c cs rest f h = ground arith

token_step-Round :
    (next : Bytes → Tokens) (c : ℕ) (cs : Bytes) {ts : List Bytes}
    → token_step next c cs ≡ ok ts
    → Round next (c ∷ cs) ts
unfolding token_step
token_step-Round next c cs g = elim (Bool-cases (c == b'[')) [
  | inl bracket ↦ elim (Option-cases (split_once b']' cs)) [
    | inl e ↦ ground arith
    | inr ((inner, rest), e) ↦
        let (f, h) = split_once_lem b']' cs e in
        bracket-Round next inner rest h (ground (arith, f)) (ground arith)
  ]
  | inr other ↦ elim (Option-cases (split_once b':' (c ∷ cs))) [
    | inl e ↦ ends (plain (c ∷ cs) (split_once-eq-none b':' (c ∷ cs) e) other) (ground (arith, e))
    | inr ((t, rest), e) ↦
        let (f, h) = split_once_lem b':' (c ∷ cs) e in
        behind_colon-Round next t trailing_colon rest (plain t h (front t c cs rest f other)) f
          (ground (arith, e))
  ]
]

abbrev Joins : Bytes → List Bytes → Type 0
Joins s ts = (join ts ≡ s) × ((s ≡ []) ⊎ IsTokens ts)

Round-Joins :
    {next : Bytes → Tokens} {c : ℕ} {cs : Bytes} {ts : List Bytes}
    → ((s : Bytes) (us : List Bytes) → next s ≡ ok us → Joins s us)
    → Round next (c ∷ cs) ts
    → Joins (c ∷ cs) ts
Round-Joins ih (ends h e) = rw e (refl, inr (last h (λ z. cc)))
Round-Joins ih (goes t d ds us h f read e) =
    let (j, k) = ih (d ∷ ds) us read in
    elim k [ inl z ↦ cc | inr m ↦ rw e (join-more t m ∙ rw j (sym f), inr (more h m)) ]

-- What the loop returns, joined again, is what it read.
split_loop-Joins : (fuel : ℕ) (s : Bytes) (ts : List Bytes) → split_loop fuel s ≡ ok ts → Joins s ts
unfolding split_loop
split_loop-Joins zero [] ts h = ground arith
split_loop-Joins zero (c ∷ cs) ts h = cc
split_loop-Joins (suc fuel) [] ts h = ground arith
split_loop-Joins (suc fuel) (c ∷ cs) ts h =
    Round-Joins (split_loop-Joins fuel) (token_step-Round (split_loop fuel) c cs h)

-- Nothing is lost or made up: the tokens joined by `:` are the text, and they are well formed
-- unless the text is empty.
pub join-split_addr_tokens :
    (s : Bytes) {ts : List Bytes}
    → split_addr_tokens s ≡ ok ts
    → (join ts ≡ s) × ((s ≡ []) ⊎ IsTokens ts)
unfolding split_addr_tokens
join-split_addr_tokens s {ts} h = split_loop-Joins (length s) s ts h
