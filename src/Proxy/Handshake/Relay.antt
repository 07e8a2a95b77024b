-- ===== src/Proxy/Handshake/Relay.antt =====
-- Which relay the client takes from the proxy, and when it gives its credentials away.
use rusnel.Base.{
  ◌||◌, ℕ, ◌≤◌, ◌≡◌, refl, arith, true, false, Option, some, [], ◌∷◌, ◌++◌, append-nil, Bytes,
  length, ltb, ok,
}
use rusnel.Net.Ipv4
use rusnel.Net.Ipv6
use rusnel.Net.Addr.{IpAddr, v4, v6, port_bytes}
use rusnel.Wire.Dialogue.{heard, read_or-append}
use rusnel.Proxy.{ip_bytes}
use rusnel.Proxy.Handshake.{
  closed, read, greeting, userpass_request, userpass_reply, socks5_userpass_auth, authenticate,
  associate_request, read_bound, is_unspecified, or_peer, associate_reply,
  establish_socks5_udp_associate,
}

read-append : (a s : Bytes) → read (length a) (a ++ s) ≡ heard a s
unfolding read
read-append a s = read_or-append closed a s

-- How a proxy gives the address of its relay, and the address that is meant, for a connection to
-- `q`. A proxy may also give a domain: its own host is taken for that, whatever the domain is.
pub data Names (q : IpAddr) : IpAddr → Bytes → Type 0 where
  given : (ip : IpAddr) → is_unspecified ip ≡ false → Names q ip (ip_bytes ip)
  same_host : (ip : IpAddr) → is_unspecified ip ≡ true → Names q q (ip_bytes ip)

read_bound-ip :
    (q ip : IpAddr) (s : Bytes)
    → (atyp : ℕ) × (tail : Bytes) × (ip_bytes ip ≡ atyp ∷ tail)
      × (read_bound (some q) atyp (tail ++ s) ≡ heard ip s)
unfolding read_bound
read_bound-ip q (v4 ip) s = (1, Ipv4.octets ip, refl, rw (read-append (Ipv4.octets ip) s) refl)
read_bound-ip q (v6 ip) s =
    (4, Ipv6.octets ip, refl, rw (read-append (Ipv6.octets ip) s) (ground arith))

-- What is read of a name of the relay, and what is made of it.
record IsRead (q ip : IpAddr) (bound s : Bytes) : Type 0 where
  atyp : ℕ
  tail : Bytes
  split : bound ≡ atyp ∷ tail
  bound_ip : IpAddr
  read_lem : read_bound (some q) atyp (tail ++ s) ≡ heard bound_ip s
  resolved : (s' : Bytes) → or_peer (some q) bound_ip s' ≡ heard ip s'

Names-IsRead :
    (q : IpAddr) {ip : IpAddr} {bound : Bytes} (s : Bytes) → Names q ip bound → IsRead q ip bound s
Names-IsRead q s (given ip f) =
    let (atyp, tail, e, r) = read_bound-ip q ip s in
    record {
      atyp = atyp;
      tail = tail;
      split = e;
      bound_ip = ip;
      read_lem = r;
      resolved = λ s'. rw f refl;
    }
Names-IsRead q s (same_host ip t) =
    let (atyp, tail, e, r) = read_bound-ip q ip s in
    record {
      atyp = atyp;
      tail = tail;
      split = e;
      bound_ip = ip;
      read_lem = r;
      resolved = λ s'. rw t refl;
    }

associate_reply-bytes :
    (q : IpAddr) {ip : IpAddr} {bound : Bytes} (p : ℕ) (s : Bytes)
    → Names q ip bound
    → associate_reply (some q) (5 ∷ 0 ∷ 0 ∷ (bound ++ (port_bytes p ++ s)))
      ≡ heard (record { ip = ip; port = p }) s
unfolding associate_reply
associate_reply-bytes q {ip} {bound} p s h =
    let r = Names-IsRead q (port_bytes p ++ s) h in
    rw
      (
        r.split,
        read-append (5 ∷ 0 ∷ 0 ∷ r.atyp ∷ []) (r.tail ++ (port_bytes p ++ s)),
        r.read_lem,
        read-append (port_bytes p) s,
        r.resolved s,
      )
      (ground arith)

-- A proxy that selects a method, asks for what the method asks for, and is content with it: what it
-- sends for that, and what it is sent.
pub data Accepts : Option (Bytes × Bytes) → ℕ → Bytes → Bytes → Type 0 where
  without : (auth : Option (Bytes × Bytes)) → Accepts auth 0 [] []
  with_password :
      (user pass : Bytes)
      → length user ≤ 255
      → length pass ≤ 255
      → Accepts (some (user, pass)) 2 (1 ∷ 0 ∷ []) (userpass_request user pass)

authenticate-Accepts :
    {auth : Option (Bytes × Bytes)} {method : ℕ} {reply sent : Bytes} (s : Bytes)
    → Accepts auth method reply sent
    → authenticate auth method (reply ++ s) ≡ record { written = sent; result = ok (tt, s) }
unfolding authenticate socks5_userpass_auth userpass_reply
authenticate-Accepts s (without auth) = refl
authenticate-Accepts s (with_password user pass u v) =
    let short : (ltb 255 (length user) || ltb 255 (length pass)) ≡ false = ground arith in
    rw (short, read-append (1 ∷ 0 ∷ []) s) (ground (arith, append-nil (userpass_request user pass)))

-- With a proxy that takes what the client offers and gives the address of its relay, IPv4 or IPv6,
-- the client ends up with that relay: it sends its greeting, the credentials if they are asked for,
-- and the request. An unspecified address is on the proxy's host. What follows is left on the
-- stream.
pub establish_socks5_udp_associate-Names :
    (q : IpAddr) {auth : Option (Bytes × Bytes)} {method : ℕ} {reply sent : Bytes} {ip : IpAddr}
    {bound : Bytes} (p : ℕ) (s : Bytes)
    → Accepts auth method reply sent
    → Names q ip bound
    → establish_socks5_udp_associate
        (some q)
        auth
        (5 ∷ method ∷ (reply ++ (5 ∷ 0 ∷ 0 ∷ (bound ++ (port_bytes p ++ s)))))
      ≡ record {
        written = greeting auth ++ (sent ++ associate_request);
        result = ok (record { ip = ip; port = p }, s);
      }
unfolding establish_socks5_udp_associate
establish_socks5_udp_associate-Names q {auth} {method} {reply} {sent} {ip} {bound} p s a h =
    let behind = 5 ∷ 0 ∷ 0 ∷ (bound ++ (port_bytes p ++ s)) in
    rw
      (
        read-append (5 ∷ method ∷ []) (reply ++ behind),
        authenticate-Accepts behind a,
        associate_reply-bytes q p s h,
      )
      (ground arith)
