-- ===== src/Wire/Control/Hello.antt =====
-- The hello from end to end: what the client is told is what the server registered.
use rusnel.Base.{
  ℕ, zero, suc, ◌+◌, ◌^◌, ◌<◌, ◌≤◌, ◌≡◌, refl, arith, Bool, false, none, some, List, [], append-nil,
  Bytes, length, ok, err, ◌>>=◌, mem, ap, ◌∙◌,
}
use rusnel.Net.Addr.{SocketAddr}
use rusnel.Remote.{SessionHello, SessionHelloResponse}
use rusnel.Server.Entries.{ServerState}
use rusnel.Server.State.{register_client, register_tunnels}
use rusnel.Server.State.Coherence.{IsCoherent, register_client-IsCoherent}
use rusnel.Server.Session.Steps.{register_client_facts}
use rusnel.Server.Session.{Verdict, validate_remotes, start_session, perform_session_hello}
use rusnel.Server.Session.Ids.{AreTunnelsOf, ids_from, register_tunnels-AreTunnelsOf}
use rusnel.Wire.Control.{
  Codec, IsCodec, max_control_msg, write_framed, read_framed, hello_ids, client_send_session_hello,
  server_receive_session_hello, server_reply_session_hello,
}
use rusnel.Wire.Control.Frames.{read_framed-write_framed}

-- A message that the peer's cap lets through.
abbrev pub Fits : {T : Type 0} → Codec T → T → Type 0
Fits c msg = (body : Bytes) × (c.to_bytes msg ≡ some body) × (length body ≤ max_control_msg)

module _ (hellos : Codec SessionHello) (replies : Codec SessionHelloResponse) where
  -- The bytes that a server answers with, whatever it makes of the hello.
  unfoldable pub answer : (SessionHello → SessionHelloResponse) → Bytes → Bytes
  answer handle s = elim (server_receive_session_hello hellos s) [
    | err e ↦ []
    | ok hello ↦ elim (server_reply_session_hello replies (handle hello)) [
      | err e ↦ []
      | ok frame ↦ frame
    ]
  ]

  answer-frame :
      (handle : SessionHello → SessionHelloResponse) (hello : SessionHello) (frame back : Bytes)
      → read_framed hellos frame ≡ ok (hello, [])
      → write_framed replies (handle hello) ≡ ok back
      → answer handle frame ≡ back
  unfolding answer server_receive_session_hello server_reply_session_hello
  answer-frame handle hello frame back got replied = rw (got, replied, answer) refl

  hears :
      (n : ℕ) (response : SessionHelloResponse) (s : Bytes)
      → read_framed replies s ≡ ok (response, [])
      → (read_framed replies s >>= λ r. hello_ids n (r.0)) ≡ hello_ids n response
  hears n response s h = rw h refl

  sends :
      (hello : SessionHello) (arriving : Bytes → Bytes) (frame : Bytes)
      → write_framed hellos hello ≡ ok frame
      → (client_send_session_hello hellos replies hello arriving).result
        ≡ (read_framed replies (arriving frame) >>= λ r. hello_ids (length hello.remotes) (r.0))
  unfolding client_send_session_hello
  sends hello arriving frame h = rw h refl

  -- The verdict that the client reaches is on the very response that the server made.
  pub client_send_session_hello-answer :
      (handle : SessionHello → SessionHelloResponse) (hello : SessionHello)
      → IsCodec hellos
      → IsCodec replies
      → Fits hellos hello
      → Fits replies (handle hello)
      → (client_send_session_hello hellos replies hello (answer handle)).result
        ≡ hello_ids (length hello.remotes) (handle hello)
  client_send_session_hello-answer handle hello h r (body, e, le) (reply, f, lf) =
      let (frame, sent, got) = read_framed-write_framed hellos hello body [] h e le in
      let (back, replied, heard) =
        read_framed-write_framed replies (handle hello) reply [] r f lf in
      let got' = rw (append-nil frame) at got in
      let heard' = rw (append-nil back) at heard in
      let arrived = answer-frame handle hello frame back got' replied in
      sends hello (answer handle) frame sent
      ∙ hears (length hello.remotes) (handle hello) (answer handle frame) (rw arrived heard')

start_session-accepted :
    (now id : ℕ) (remote : SocketAddr) (hello : SessionHello) (allow_reverse allow_socks : Bool)
    (s : ServerState)
    → validate_remotes hello.remotes allow_reverse allow_socks ≡ ok tt
    → (let v = start_session now id remote hello allow_reverse allow_socks none s in
        let (ids, s') = register_tunnels now id hello.remotes (register_client now id remote s) in
        (v.response ≡ SessionHelloResponse.ok ids) × (v.result ≡ ok ids) × (v.state ≡ s'))
unfolding start_session perform_session_hello
start_session-accepted now id remote hello ar as' s allowed =
    (ground (arith, allowed), ground (arith, allowed), ground (arith, allowed))

hello_ids-counted :
    (n : ℕ) (ids : List ℕ) → length ids ≡ n → hello_ids n (SessionHelloResponse.ok ids) ≡ ok ids
unfolding hello_ids
hello_ids-counted n ids h = ground (arith, h)

length-ids_from : (first n : ℕ) → length (ids_from first n) ≡ n
length-ids_from first zero = refl
length-ids_from first (suc n) = ap suc (length-ids_from (first + 1) n)

-- What the server makes of a hello, with every reply delivered.
abbrev pub serve : ℕ → ℕ → SocketAddr → Bool → Bool → ServerState → SessionHello → Verdict
serve now id remote allow_reverse allow_socks s hello =
    start_session now id remote hello allow_reverse allow_socks none s

-- If the codecs decode what they encode, the hello and its reply fit the cap, the registry is
-- coherent, the client's id is new, the ids do not run out and the policy allows the hello, then
-- the client is told exactly the ids under which the server has registered its tunnels.
pub client_send_session_hello-start_session :
    (hellos : Codec SessionHello) (replies : Codec SessionHelloResponse) (now id : ℕ)
    (remote : SocketAddr) (hello : SessionHello) (allow_reverse allow_socks : Bool)
    (s : ServerState)
    → IsCodec hellos
    → IsCodec replies
    → IsCoherent s
    → mem id s.clients ≡ false
    → s.next_tunnel_id + length hello.remotes < 2 ^ 64
    → validate_remotes hello.remotes allow_reverse allow_socks ≡ ok tt
    → Fits hellos hello
    → Fits replies (serve now id remote allow_reverse allow_socks s hello).response
    → (let v = serve now id remote allow_reverse allow_socks s hello in
        let peer =
          answer hellos replies λ h. (serve now id remote allow_reverse allow_socks s h).response in
        (ids : List ℕ) × ((client_send_session_hello hellos replies hello peer).result ≡ ok ids)
        × (v.result ≡ ok ids)
        × AreTunnelsOf v.state id ids hello.remotes)
client_send_session_hello-start_session hellos replies now id remote hello ar as' s hc rc c fresh
      room allowed fits back =
    let s1 = register_client now id remote s in
    let facts = register_client_facts now id remote s in
    let (response, result, state) = start_session-accepted now id remote hello ar as' s allowed in
    let q =
      register_tunnels-AreTunnelsOf now id hello.remotes s1
        (register_client-IsCoherent now id remote s c fresh) facts.2 (rw facts.1 room) in
    let ids = (register_tunnels now id hello.remotes s1).0 in
    let counted : length ids ≡ length hello.remotes =
      ap length q.0 ∙ length-ids_from (s1.next_tunnel_id + 1) (length hello.remotes) in
    (
      ids,
      client_send_session_hello-answer hellos replies
            (λ h. (serve now id remote ar as' s h).response) hello hc rc fits back
          ∙ ap (hello_ids (length hello.remotes)) response
          ∙ hello_ids-counted (length hello.remotes) ids counted,
      result,
      rw state q.4,
    )
