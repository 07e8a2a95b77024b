-- ===== src/Proxy/Handshake/Secret.antt =====
-- The credentials stay with the client unless the proxy asks for them.
use rusnel.Base.{
  ℕ, ◌≡◌, ◌≢◌, ◌⊎◌, inl, inr, refl, arith, Option, none, some, [], ◌∷◌, ◌++◌, append-nil, Bytes,
  ◌==◌, ok, err, Result, Bool-cases,
}
use rusnel.Net.Addr.{IpAddr}
use rusnel.Wire.{read_exact}
use rusnel.Wire.Dialogue.{Dialogue, ◌>>=◌, continue_with, read_or, byte_at}
use rusnel.Proxy.Handshake.{
  HandshakeError, read, greeting, authenticate, associate_request, peer_ip, v6_of, read_bound,
  is_unspecified, or_peer, associate_reply, establish_socks5_udp_associate,
}

-- Nothing is written, whatever comes.
abbrev Silent : {A : Type 0} → Dialogue HandshakeError A → Type 0
Silent m = (s : Bytes) → (m s).written ≡ []

continue_with-Silent :
    {A B : Type 0} (before : Bytes) (r : Result HandshakeError (A × Bytes))
    (f : A → Dialogue HandshakeError B)
    → before ≡ []
    → ((a : A) → Silent (f a))
    → (continue_with before r f).written ≡ []
continue_with-Silent before (err e) f h k = h
continue_with-Silent before (ok (a, s)) f h k = rw (h, k a s) refl

Silent-bind :
    {A B : Type 0} (m : Dialogue HandshakeError A) (f : A → Dialogue HandshakeError B)
    → Silent m
    → ((a : A) → Silent (f a))
    → Silent (m >>= f)
Silent-bind m f h k s = continue_with-Silent (m s).written (m s).result f (h s) k

read-Silent : (n : ℕ) → Silent (read n)
unfolding read read_or
read-Silent n s = ground arith

peer_ip-Silent : (peer : Option IpAddr) → Silent (peer_ip peer)
peer_ip-Silent none s = refl
peer_ip-Silent (some ip) s = refl

v6_of-Silent : (o : Bytes) → Silent (v6_of o)
v6_of-Silent o s = ground arith

read_bound-Silent : (peer : Option IpAddr) (atyp : ℕ) → Silent (read_bound peer atyp)
unfolding read_bound
read_bound-Silent peer atyp s = elim (Bool-cases (atyp == 1)) [
  | inl t ↦ rw t (Silent-bind (read 4) _ (read-Silent 4) (λ o u. refl) s)
  | inr f ↦ elim (Bool-cases (atyp == 4)) [
    | inl t ↦ rw (f, t) (Silent-bind (read 16) v6_of (read-Silent 16) v6_of-Silent s)
    | inr g ↦ elim (Bool-cases (atyp == 3)) [
      | inl t ↦
          rw (f, g, t)
            (Silent-bind (read 1) _ (read-Silent 1)
              (λ len.
                Silent-bind (read (byte_at 0 len)) _ (read-Silent (byte_at 0 len))
                  (λ name. peer_ip-Silent peer))
              s)
      | inr h ↦ rw (f, g, h) refl
    ]
  ]
]

or_peer-Silent : (peer : Option IpAddr) (ip : IpAddr) → Silent (or_peer peer ip)
or_peer-Silent peer ip s = elim (Bool-cases (is_unspecified ip)) [
  | inl t ↦ rw t (peer_ip-Silent peer s)
  | inr f ↦ rw f refl
]

associate_reply-Silent : (peer : Option IpAddr) → Silent (associate_reply peer)
unfolding associate_reply
associate_reply-Silent peer = Silent-bind (read 4) _ (read-Silent 4) (λ head s.
    elim (Bool-cases (byte_at 0 head == 5)) [
      | inr f ↦ rw f refl
      | inl t ↦ elim (Bool-cases (byte_at 1 head == 0)) [
        | inr f ↦ rw (t, f) refl
        | inl u ↦
            rw (t, u)
              (Silent-bind (read_bound peer (byte_at 3 head)) _
                (read_bound-Silent peer (byte_at 3 head))
                (λ bound. Silent-bind (read 2) _ (read-Silent 2) (λ port.
                  Silent-bind (or_peer peer bound) _ (or_peer-Silent peer bound) (λ ip r. refl)))
                s)
      ]
    ])

-- Unless the second byte that the proxy sends is 2, for a password, the client sends its greeting
-- and at most the request behind it, whatever the proxy sends and whether or not there are credentials.
pub establish_socks5_udp_associate_secret :
    (peer : Option IpAddr) (auth : Option (Bytes × Bytes)) (s : Bytes)
    → byte_at 1 s ≢ 2
    → (let t = establish_socks5_udp_associate peer auth s in
        (t.written ≡ greeting auth) ⊎ (t.written ≡ greeting auth ++ associate_request))
unfolding establish_socks5_udp_associate authenticate read read_or read_exact
establish_socks5_udp_associate_secret peer auth [] h = inl (append-nil (greeting auth))
establish_socks5_udp_associate_secret peer auth (x ∷ []) h = inl (append-nil (greeting auth))
establish_socks5_udp_associate_secret peer auth (x ∷ m ∷ s) h = elim (Bool-cases (x == 5)) [
  | inr f ↦ inl (rw f (append-nil (greeting auth)))
  | inl t ↦ elim (Bool-cases (m == 0)) [
    | inl z ↦
        inr
          (rw (t, z) (ground (arith, associate_reply-Silent peer s, append-nil associate_request)))
    | inr z ↦ inl (rw (t, z) (ground (arith, h, append-nil (greeting auth))))
  ]
]
