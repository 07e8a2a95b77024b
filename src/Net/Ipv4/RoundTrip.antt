-- ===== src/Net/Ipv4/RoundTrip.antt =====
-- An IPv4 address is read back as it was printed.
use rusnel.Base.{
  ℕ, ◌≤◌, ◌<◌, ◌≡◌, refl, arith, false, ◌⊎◌, none, some, [], ◌∷◌, ◌++◌, Bytes, append_assoc,
  append-nil, length, length-append,
}
use rusnel.Text.{contains}
use rusnel.Text.Split.{contains-append}
use rusnel.Net.Number.{to_digit, show_uint}
use rusnel.Net.Number.Decimal.{Stops, read_octet-show_uint, show_uint_octet, contains-show_uint}
use rusnel.Net.Ipv4.{Ipv4, IsIpv4, read_octet, read_ipv4, parse, show}

read_octet_lem :
    (n : ℕ) (rest : Bytes)
    → n < 256
    → Stops rest
    → read_octet (show_uint n ++ rest) ≡ some (n, rest)
unfolding read_octet
read_octet_lem n rest h k = read_octet-show_uint n rest h k

dot_stops : to_digit 10 b'.' ≡ none
unfolding to_digit
dot_stops = refl

read_ipv4-show :
    (ip : Ipv4) (rest : Bytes)
    → IsIpv4 ip
    → Stops rest
    → read_ipv4 (show ip ++ rest) ≡ some (ip, rest)
unfolding read_ipv4 show
read_ipv4-show ip rest v k =
    let r3 = b'.' ∷ (show_uint ip.d ++ rest) in
    let r2 = b'.' ∷ (show_uint ip.c ++ r3) in
    let r1 = b'.' ∷ (show_uint ip.b ++ r2) in
    simp append_assoc (
      ground (
        arith,
        read_octet_lem ip.a r1 v.a_lt dot_stops,
        read_octet_lem ip.b r2 v.b_lt dot_stops,
        read_octet_lem ip.c r3 v.c_lt dot_stops,
        read_octet_lem ip.d rest v.d_lt k,
      ))

length-show_uint : (n : ℕ) → n < 256 → length (show_uint n) ≤ 3
length-show_uint n h = rw (show_uint_octet n h) (ground arith)

length-show : (ip : Ipv4) → IsIpv4 ip → length (show ip) ≤ 15
unfolding show
length-show ip v = omega (
  arith,
  length-append {0},
  length-show_uint ip.a v.a_lt,
  length-show_uint ip.b v.b_lt,
  length-show_uint ip.c v.c_lt,
  length-show_uint ip.d v.d_lt,
)

-- `Display`, then `from_str`.
pub parse-show : (ip : Ipv4) → IsIpv4 ip → parse (show ip) ≡ some ip
unfolding parse
parse-show ip v = ground (arith, length-show ip v, append-nil (show ip), read_ipv4-show ip [] v tt)

-- A printed address holds digits and dots only.
pub contains-show : (b : ℕ) (ip : Ipv4) → (b < b'.') ⊎ (b'9' < b) → contains b (show ip) ≡ false
unfolding show
contains-show b ip h =
    let digits = λ (n : ℕ). contains-show_uint b n (omega arith) in
    simp (contains-append, digits) (ground arith)
