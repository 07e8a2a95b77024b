-- ===== src/Remote/Tokens/Split.antt =====
-- A list of tokens is read back from the text that joins it.
use rusnel.Base.{
  ℕ, zero, suc, ◌≤◌, ◌≡◌, ◌≢◌, refl, ap, ◌∙◌, arith, List, [], ◌∷◌, ◌++◌, append_assoc, Bytes,
  length, length-append, ok, map_ok,
}
use rusnel.Text.Split.{split_once-append, split_once-contains}
use rusnel.Remote.Tokens.{Tokens, token_step, split_loop, split_addr_tokens}
use rusnel.Remote.Tokens.Grammar.{join, IsToken, plain, in_brackets, IsTokens, last, more}

token_step-last :
    (next : Bytes → Tokens) {t : Bytes} (c : ℕ) (cs : Bytes)
    → IsToken t
    → t ≡ c ∷ cs
    → token_step next c cs ≡ ok (t ∷ [])
unfolding token_step
token_step-last next c cs (plain t h b) e =
    ground (arith, rw e at h, rw e at b, split_once-contains b':' (c ∷ cs) (rw e at h))
token_step-last next c cs (in_brackets inner h) e =
    ground (arith, split_once-append b']' inner [] h)

token_step-more :
    (next : Bytes → Tokens) {t : Bytes} (c : ℕ) (cs : Bytes) (d : ℕ) (ds : Bytes)
    → IsToken t
    → t ++ b':' ∷ d ∷ ds ≡ c ∷ cs
    → token_step next c cs ≡ map_ok (◌∷◌ t) (next (d ∷ ds))
unfolding token_step
token_step-more next c cs d ds (plain [] h b) e =
    ground (arith, split_once-append b':' [] (d ∷ ds) h)
token_step-more next c cs d ds (plain (x ∷ xs) h b) e =
    ground (arith, split_once-append b':' (x ∷ xs) (d ∷ ds) h)
token_step-more next c cs d ds (in_brackets inner h) e = ground (
  arith,
  append_assoc inner (b']' ∷ []) (b':' ∷ d ∷ ds),
  split_once-append b']' inner (b':' ∷ d ∷ ds) h,
)

append_cons : (t : Bytes) (x : ℕ) (rest : Bytes) → (c : ℕ) × (cs : Bytes) × (t ++ x ∷ rest ≡ c ∷ cs)
append_cons [] x rest = (x, rest, refl)
append_cons (c ∷ cs) x rest = (c, cs ++ x ∷ rest, refl)

cons_of_ne : (t : Bytes) → t ≢ [] → (c : ℕ) × (cs : Bytes) × (t ≡ c ∷ cs)
cons_of_ne [] ne = absurd (ne refl)
cons_of_ne (c ∷ cs) ne = (c, cs, refl)

pub join-more : (t : Bytes) {ts : List Bytes} → IsTokens ts → join (t ∷ ts) ≡ t ++ b':' ∷ join ts
join-more t (last h ne) = refl
join-more t (more h k) = refl

join_cons : {ts : List Bytes} → IsTokens ts → (d : ℕ) × (ds : Bytes) × (join ts ≡ d ∷ ds)
join_cons (last {t} h ne) = cons_of_ne t ne
join_cons (more {t} {ts} h k) =
    let (c, cs, e) = append_cons t b':' (join ts) in (c, cs, join-more t k ∙ e)

split_loop_step :
    (fuel : ℕ) (s : Bytes) {c : ℕ} {cs : Bytes}
    → s ≡ c ∷ cs
    → split_loop (suc fuel) s ≡ token_step (split_loop fuel) c cs
unfolding split_loop
split_loop_step fuel s e = rw e

split_loop-join :
    {ts : List Bytes} (fuel : ℕ)
    → IsTokens ts
    → length (join ts) ≤ fuel
    → split_loop fuel (join ts) ≡ ok ts
split_loop-join zero k le =
    let (d, ds, e) = join_cons k in absurd (omega (arith, ap (length {A = ℕ}) e))
split_loop-join (suc fuel) (last {t} h ne) le =
    let (c, cs, e) = cons_of_ne t ne in
    split_loop_step fuel t e ∙ token_step-last (split_loop fuel) c cs h e
split_loop-join (suc fuel) (more {t} {ts} h k) le =
    let (d, ds, f) = join_cons k in
    let (c, cs, e) = append_cons t b':' (d ∷ ds) in
    let shorter = ap (length {A = ℕ}) (join-more t k) ∙ length-append t (b':' ∷ join ts) in
    split_loop_step fuel (join (t ∷ ts)) (join-more t k ∙ rw f e)
    ∙ token_step-more (split_loop fuel) c cs d ds h e
    ∙ ap (map_ok (◌∷◌ t)) (rw f at (split_loop-join fuel k (omega (arith, shorter))))

-- Every list of tokens is read back from the text that joins it.
pub split_addr_tokens-join : {ts : List Bytes} → IsTokens ts → split_addr_tokens (join ts) ≡ ok ts
unfolding split_addr_tokens
split_addr_tokens-join {ts} k = split_loop-join (length (join ts)) k (omega arith)
