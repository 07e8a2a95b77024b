-- ===== src/Proxy/Url.antt =====
-- What a proxy URL is read as.
use rusnel.Base.{
  ℕ, ◌≡◌, refl, arith, true, false, some, [], ◌∷◌, ◌++◌, Bytes, equal, ok, Result-cases, inl, inr,
}
use rusnel.Text.{text, contains}
use rusnel.Text.Split.{split_once-append, rsplit_once-append}
use rusnel.Proxy.{ProxyConfig, after_scheme, split_auth, parse_proxy}

after_scheme-socks5 : (s : Bytes) → after_scheme (text "socks5://" ++ s) ≡ ok s
unfolding after_scheme
after_scheme-socks5 s = refl

contains-ne_nil : (b : ℕ) (s : Bytes) → contains b s ≡ true → equal s [] ≡ false
contains-ne_nil b [] h = cc
contains-ne_nil b (c ∷ s) h = refl

split_auth-creds :
    (user pass addr : Bytes)
    → contains b':' user ≡ false
    → contains b'@' addr ≡ false
    → split_auth ((user ++ b':' ∷ pass) ++ b'@' ∷ addr) ≡ ok (some (user, pass), addr)
unfolding split_auth
split_auth-creds user pass addr no_colon no_at = ground (
  arith,
  rsplit_once-append b'@' (user ++ b':' ∷ pass) addr no_at,
  split_once-append b':' user pass no_colon,
)

-- A user name, a password and an address behind the scheme are read back, if the name has no `:`
-- and the address has a `:` and no `@`: the password may have both.
pub parse_proxy-auth :
    (user pass addr : Bytes)
    → contains b':' user ≡ false
    → contains b'@' addr ≡ false
    → contains b':' addr ≡ true
    → parse_proxy (text "socks5://" ++ ((user ++ b':' ∷ pass) ++ b'@' ∷ addr))
      ≡ ok (record { addr = addr; auth = some (user, pass) })
unfolding parse_proxy
parse_proxy-auth user pass addr no_colon no_at port = ground (
  arith,
  after_scheme-socks5 ((user ++ b':' ∷ pass) ++ b'@' ∷ addr),
  split_auth-creds user pass addr no_colon no_at,
  contains-ne_nil b':' addr port,
  port,
)

-- Whatever is accepted has an address with a port separator in it.
pub parse_proxy-port :
    (s : Bytes) {p : ProxyConfig} → parse_proxy s ≡ ok p → contains b':' p.addr ≡ true
unfolding parse_proxy
parse_proxy-port s {p} h = elim (Result-cases (after_scheme s)) [
  | inr (e, bad) ↦ ground (arith, bad)
  | inl (rest, good) ↦ elim (Result-cases (split_auth rest)) [
    | inr (e, bad) ↦ ground (arith, good, bad)
    | inl ((auth, addr), split) ↦ ground (arith, good, split)
  ]
]
