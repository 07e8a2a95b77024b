-- ===== src/Client/Addresses.antt =====
-- The order in which the client tries the addresses of its server, and how long it waits.
use rusnel.Base.{
  length, ◌+◌, ◌≡◌, refl, arith, Bool, true, false, not, List, [], ◌∷◌, if◌then◌else◌, All,
}
use rusnel.Net.Addr.{SocketAddr}
use rusnel.Client.{is_ipv6, by_family, alternate, interleave_address_families}

abbrev keep : (SocketAddr → Bool) → List SocketAddr → List SocketAddr
keep f [] = []
keep f (a ∷ as') = let rest = keep f as' in if f a then a ∷ rest else rest

abbrev is_ipv4 : SocketAddr → Bool
is_ipv4 a = not (is_ipv6 a)

abbrev OfV6 : SocketAddr → Type 0
OfV6 a = is_ipv6 a ≡ true

abbrev OfV4 : SocketAddr → Type 0
OfV4 a = is_ipv6 a ≡ false

by_family-keep :
    (as' : List SocketAddr)
    → (by_family as').0 ≡ keep is_ipv6 as' × (by_family as').1 ≡ keep is_ipv4 as'
unfolding by_family
by_family-keep [] = (refl, refl)
by_family-keep (a ∷ as') = ground (arith, by_family-keep as')

by_family-All : (as' : List SocketAddr) → All OfV6 (by_family as').0 × All OfV4 (by_family as').1
unfolding by_family
by_family-All [] = (tt, tt)
by_family-All (a ∷ as') = ground (arith, by_family-All as')

keep-alternate :
    (xs ys : List SocketAddr)
    → All OfV6 xs
    → All OfV4 ys
    → (keep is_ipv6 (alternate xs ys) ≡ xs) × (keep is_ipv4 (alternate xs ys) ≡ ys)
unfolding alternate
keep-alternate [] [] h k = (refl, refl)
keep-alternate [] (y ∷ ys) h k = ground (arith, keep-alternate [] ys)
keep-alternate (x ∷ xs) [] h k = ground (arith, keep-alternate xs [])
keep-alternate (x ∷ xs) (y ∷ ys) h k = ground (arith, keep-alternate xs ys)

keep-alternate_swapped :
    (xs ys : List SocketAddr)
    → All OfV4 xs
    → All OfV6 ys
    → (keep is_ipv4 (alternate xs ys) ≡ xs) × (keep is_ipv6 (alternate xs ys) ≡ ys)
unfolding alternate
keep-alternate_swapped [] [] h k = (refl, refl)
keep-alternate_swapped [] (y ∷ ys) h k = ground (arith, keep-alternate_swapped [] ys)
keep-alternate_swapped (x ∷ xs) [] h k = ground (arith, keep-alternate_swapped xs [])
keep-alternate_swapped (x ∷ xs) (y ∷ ys) h k = ground (arith, keep-alternate_swapped xs ys)

-- No address is lost, added or repeated: each family stands in the order of the resolver.
interleave_address_families-keep :
    (resolved : List SocketAddr)
    → (let out = interleave_address_families resolved in
        (keep is_ipv6 out ≡ keep is_ipv6 resolved) × (keep is_ipv4 out ≡ keep is_ipv4 resolved))
unfolding interleave_address_families
interleave_address_families-keep resolved =
    let (six, four) = by_family resolved in
    ground (
      arith,
      by_family-keep resolved,
      by_family-All resolved,
      keep-alternate six four,
      keep-alternate_swapped four six,
    )

length-alternate : (xs ys : List SocketAddr) → length (alternate xs ys) ≡ length xs + length ys
unfolding alternate
length-alternate [] [] = refl
length-alternate [] (y ∷ ys) = omega (arith, length-alternate [] ys)
length-alternate (x ∷ xs) [] = omega (arith, length-alternate xs [])
length-alternate (x ∷ xs) (y ∷ ys) = omega (arith, length-alternate xs ys)

length-by_family :
    (as' : List SocketAddr) → length (by_family as').0 + length (by_family as').1 ≡ length as'
unfolding by_family
length-by_family [] = refl
length-by_family (a ∷ as') = ground (arith, length-by_family as')

pub length-interleave_address_families :
    (resolved : List SocketAddr) → length (interleave_address_families resolved) ≡ length resolved
unfolding interleave_address_families
length-interleave_address_families resolved =
    let (six, four) = by_family resolved in
    ground (arith, length-by_family resolved, length-alternate six four, length-alternate four six)
