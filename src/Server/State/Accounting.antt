-- ===== src/Server/State/Accounting.antt =====
-- The byte counts of a tunnel, as a conn opens, carries bytes and closes.
use rusnel.Base.{
  IsDistinct, length-remove_key, ℕ, ◌+◌, ◌^◌, ◌<◌, ◌≡◌, ◌≢◌, refl, arith, true, false, Option, List,
  [], ◌∷◌, Bytes, ◌==◌, Bool-cases, inl, inr, mem, remove_key, put, remove_key_absent,
}
use rusnel.Server.Entries.{ServerState}
use rusnel.Server.State.{add64, sum64, tunnel_totals, register_conn, add_in, add_out, close_conn}

pub sum64-lt : (f : ℕ → ℕ) (ks : List ℕ) → sum64 f ks < 2 ^ 64
sum64-lt f [] = omega arith
sum64-lt f (k ∷ ks) = omega arith

sum64-remove_key :
    (f : ℕ → ℕ) (k : ℕ) (ks : List ℕ)
    → IsDistinct ks
    → mem k ks ≡ true
    → sum64 f ks ≡ add64 (f k) (sum64 f (remove_key k ks))
sum64-remove_key f k [] d h = cc
sum64-remove_key f k (j ∷ js) d h = elim (Bool-cases (j == k)) [
  | inl same ↦ ground (arith, remove_key_absent k js)
  | inr other ↦ ground (arith, sum64-remove_key f k js)
]

-- A write to a conn that is not summed changes no sum; one to a conn that is, changes its term.
sum64_ext :
    (f g : ℕ → ℕ) (ks : List ℕ) → ((k : ℕ) → mem k ks ≡ true → f k ≡ g k) → sum64 f ks ≡ sum64 g ks
sum64_ext f g [] h = refl
sum64_ext f g (k ∷ ks) h = ground (arith, h k, sum64_ext f g ks (λ j m. h j (ground arith)))

sum64_bump :
    (f g : ℕ → ℕ) (c n : ℕ) (ks : List ℕ)
    → IsDistinct ks
    → mem c ks ≡ true
    → g c ≡ add64 (f c) n
    → ((k : ℕ) → k ≢ c → g k ≡ f k)
    → sum64 g ks ≡ add64 (sum64 f ks) n
sum64_bump f g c n [] d h bump rest = cc
sum64_bump f g c n (k ∷ ks) d h bump rest = elim (Bool-cases (k == c)) [
  | inl same ↦ let e = sum64_ext g f ks (λ j m. rest j (λ z. ground arith)) in ground arith
  | inr other ↦ ground (arith, sum64_bump f g c n ks, rest k)
]

-- What the admin API reports for tunnel `t`: the bytes of live conns and of closed ones.
abbrev pub bytes_in_of : ℕ → ServerState → ℕ
bytes_in_of t s =
    let totals = tunnel_totals s (s.tunnel_at t) in add64 totals.active_in totals.cumulative_in

abbrev pub bytes_out_of : ℕ → ServerState → ℕ
bytes_out_of t s =
    let totals = tunnel_totals s (s.tunnel_at t) in add64 totals.active_out totals.cumulative_out

abbrev pub active_of : ℕ → ServerState → ℕ
active_of t s = (tunnel_totals s (s.tunnel_at t)).active_conns

abbrev pub opened_of : ℕ → ServerState → ℕ
opened_of t s = (tunnel_totals s (s.tunnel_at t)).total_conns

-- Closing a conn that its tunnel lists, once, moves its bytes from the live to the closed counts:
-- the reported bytes and the number of conns ever opened stay, and one conn less is active.
pub close_conn_accounting :
    (t c : ℕ) (s : ServerState)
    → IsDistinct (s.tunnel_at t).conns
    → mem c (s.tunnel_at t).conns ≡ true
    → (bytes_in_of t (close_conn t c s) ≡ bytes_in_of t s)
      × (bytes_out_of t (close_conn t c s) ≡ bytes_out_of t s)
      × (opened_of t (close_conn t c s) ≡ opened_of t s)
      × (active_of t (close_conn t c s) + 1 ≡ active_of t s)
unfolding close_conn tunnel_totals
close_conn_accounting t c s d h =
    let ks = (s.tunnel_at t).conns in
    let ins = sum64-remove_key (λ k. (s.conn_at k).bytes_in) c ks d h in
    let outs = sum64-remove_key (λ k. (s.conn_at k).bytes_out) c ks d h in
    ground (arith, ins, outs, length-remove_key c ks d h)

-- Bytes that a conn receives, which its tunnel lists once, are reported on the tunnel once, modulo
-- 2^64, and on no counter for bytes sent.
pub add_in_accounting :
    (t c n : ℕ) (s : ServerState)
    → IsDistinct (s.tunnel_at t).conns
    → mem c (s.tunnel_at t).conns ≡ true
    → (bytes_in_of t (add_in c n s) ≡ add64 (bytes_in_of t s) n)
      × (bytes_out_of t (add_in c n s) ≡ bytes_out_of t s)
unfolding add_in tunnel_totals
add_in_accounting t c n s d h = elim (Bool-cases (n == 0)) [
  | inl none_read ↦ ground arith
  | inr some_read ↦
      let f = λ (k : ℕ). (s.conn_at k).bytes_in in
      let after = put s.conn_at c (record (s.conn_at c) { bytes_in = add64 (f c) n }) in
      let g = λ (k : ℕ). (after k).bytes_in in
      let ins =
        sum64_bump f g c n (s.tunnel_at t).conns d h (ground arith) (λ k ne. ground arith) in
      let outs =
        sum64_ext (λ k. (after k).bytes_out) (λ k. (s.conn_at k).bytes_out) (s.tunnel_at t).conns
          (λ k m. ground arith) in
      ground (arith, ins, outs)
]

-- Bytes that a live conn sends are reported on its tunnel, once, and on no counter for bytes
-- received.
pub add_out_accounting :
    (t c n : ℕ) (s : ServerState)
    → IsDistinct (s.tunnel_at t).conns
    → mem c (s.tunnel_at t).conns ≡ true
    → (bytes_out_of t (add_out c n s) ≡ add64 (bytes_out_of t s) n)
      × (bytes_in_of t (add_out c n s) ≡ bytes_in_of t s)
unfolding add_out tunnel_totals
add_out_accounting t c n s d h = elim (Bool-cases (n == 0)) [
  | inl none_sent ↦ ground arith
  | inr some_sent ↦
      let f = λ (k : ℕ). (s.conn_at k).bytes_out in
      let after = put s.conn_at c (record (s.conn_at c) { bytes_out = add64 (f c) n }) in
      let g = λ (k : ℕ). (after k).bytes_out in
      let outs =
        sum64_bump f g c n (s.tunnel_at t).conns d h (ground arith) (λ k ne. ground arith) in
      let ins =
        sum64_ext (λ k. (after k).bytes_in) (λ k. (s.conn_at k).bytes_in) (s.tunnel_at t).conns
          (λ k m. ground arith) in
      ground (arith, ins, outs)
]

-- A conn that opens under an id that its tunnel does not list adds one to the active and to the
-- opened conns, if that count does not wrap around, and reports no bytes.
pub register_conn_accounting :
    (now t : ℕ) (peer : Option Bytes) (s : ServerState)
    → mem (add64 s.next_conn_id 1) (s.tunnel_at t).conns ≡ false
    → (s.tunnel_at t).total_conns + 1 < 2 ^ 64
    → (let s' = (register_conn now t peer s).1 in
        (bytes_in_of t s' ≡ bytes_in_of t s)
        × (bytes_out_of t s' ≡ bytes_out_of t s)
        × (opened_of t s' ≡ opened_of t s + 1)
        × (active_of t s' ≡ active_of t s + 1))
unfolding register_conn tunnel_totals
register_conn_accounting now t peer s fresh room =
    let id = add64 s.next_conn_id 1 in
    let after = (register_conn now t peer s).1.conn_at in
    let ks = (s.tunnel_at t).conns in
    let ins =
      sum64_ext (λ k. (after k).bytes_in) (λ k. (s.conn_at k).bytes_in) ks (λ k m. ground arith) in
    let outs =
      sum64_ext (λ k. (after k).bytes_out) (λ k. (s.conn_at k).bytes_out) ks
        (λ k m. ground arith) in
    ground (
      arith,
      ins,
      outs,
      sum64-lt (λ k. (s.conn_at k).bytes_in) ks,
      sum64-lt (λ k. (s.conn_at k).bytes_out) ks,
    )

-- A conn that its tunnel lists, once, is accounted for in its tunnel: bytes that it receives or
-- sends are reported once, modulo 2^64, in their direction and not in the other; its closing keeps
-- the reported bytes and the number of conns ever opened, and takes one off the active ones.
pub listed_conn_accounting :
    (t c n : ℕ) (s : ServerState)
    → IsDistinct (s.tunnel_at t).conns
    → mem c (s.tunnel_at t).conns ≡ true
    → ((bytes_in_of t (add_in c n s) ≡ add64 (bytes_in_of t s) n)
        × (bytes_out_of t (add_in c n s) ≡ bytes_out_of t s))
      × ((bytes_out_of t (add_out c n s) ≡ add64 (bytes_out_of t s) n)
          × (bytes_in_of t (add_out c n s) ≡ bytes_in_of t s))
      × ((bytes_in_of t (close_conn t c s) ≡ bytes_in_of t s)
          × (bytes_out_of t (close_conn t c s) ≡ bytes_out_of t s)
          × (opened_of t (close_conn t c s) ≡ opened_of t s)
          × (active_of t (close_conn t c s) + 1 ≡ active_of t s))
listed_conn_accounting t c n s d h =
    (add_in_accounting t c n s d h, add_out_accounting t c n s d h, close_conn_accounting t c s d h)
