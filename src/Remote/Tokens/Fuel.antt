-- ===== src/Remote/Tokens/Fuel.antt =====
-- The loop of `split_addr_tokens` ends: each round reads a byte at least.
use rusnel.Base.{
  ℕ, zero, suc, ◌≤◌, ◌<◌, ◌≢◌, arith, inl, inr, [], ◌∷◌, Bytes, ◌==◌, length, Bool-cases,
  Option-cases, err, Result-cases,
}
use rusnel.Text.{split_once}
use rusnel.Text.Split.{length-split_once}
use rusnel.Remote.Tokens.{
  RemoteError, trailing_colon_after_bracket, trailing_colon, out_of_fuel, Tokens, behind_colon,
  behind_bracket, token_step, split_loop, split_addr_tokens,
}
use rusnel.Remote.Tokens.Grammar.{bracketed}

behind_colon-fuel :
    (next : Bytes → Tokens) (t : Bytes) (e : RemoteError) (rest : Bytes)
    → next rest ≢ err out_of_fuel
    → e ≢ out_of_fuel
    → behind_colon next t e rest ≢ err out_of_fuel
behind_colon-fuel next t e [] h k x = k (ground arith)
behind_colon-fuel next t e (d ∷ ds) h k x = elim (Result-cases (next (d ∷ ds))) [
  | inl (us, f) ↦ ground (arith, f)
  | inr (bad, f) ↦ h (ground (arith, f))
]

behind_bracket-fuel :
    (next : Bytes → Tokens) (t rest : Bytes)
    → ((s : Bytes) → length s < length rest → next s ≢ err out_of_fuel)
    → behind_bracket next t rest ≢ err out_of_fuel
behind_bracket-fuel next t [] h x = cc
behind_bracket-fuel next t (d ∷ rest) h x = ground (
  arith,
  behind_colon-fuel next t trailing_colon_after_bracket rest (h rest (omega arith)) (λ z. cc),
)

token_step-fuel :
    (next : Bytes → Tokens) (c : ℕ) (cs : Bytes)
    → ((s : Bytes) → length s ≤ length cs → next s ≢ err out_of_fuel)
    → token_step next c cs ≢ err out_of_fuel
unfolding token_step
token_step-fuel next c cs h x = elim (Bool-cases (c == b'[')) [
  | inl bracket ↦ elim (Option-cases (split_once b']' cs)) [
    | inl e ↦ ground arith
    | inr ((inner, rest), e) ↦
        behind_bracket-fuel next (bracketed inner) rest
          (λ s lt. h s (omega (arith, length-split_once b']' cs e))) (ground arith)
  ]
  | inr other ↦ elim (Option-cases (split_once b':' (c ∷ cs))) [
    | inl e ↦ ground (arith, e)
    | inr ((t, rest), e) ↦
        behind_colon-fuel next t trailing_colon rest
          (h rest (omega (arith, length-split_once b':' (c ∷ cs) e))) (λ z. cc) (ground (arith, e))
  ]
]

split_loop-fuel : (fuel : ℕ) (s : Bytes) → length s ≤ fuel → split_loop fuel s ≢ err out_of_fuel
unfolding split_loop
split_loop-fuel zero [] h x = cc
split_loop-fuel zero (c ∷ cs) h x = omega arith
split_loop-fuel (suc fuel) [] h x = cc
split_loop-fuel (suc fuel) (c ∷ cs) h x =
    token_step-fuel (split_loop fuel) c cs (λ s le. split_loop-fuel fuel s (omega arith)) x

-- The loop always ends: the fuel of `split_addr_tokens` is enough for every text.
pub split_addr_tokens-terminates : (s : Bytes) → split_addr_tokens s ≢ err out_of_fuel
unfolding split_addr_tokens
split_addr_tokens-terminates s = split_loop-fuel (length s) s (omega arith)
