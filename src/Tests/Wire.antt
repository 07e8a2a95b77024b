-- ===== src/Tests/Wire.antt =====
-- Runs of the framing (src/common/tunnel.rs, src/common/udp.rs), with a codec of numbers.
use rusnel.Base.{
  err, ℕ, zero, suc, ◌+◌, ◌<◌, ◌^◌, ◌≡◌, ◌≢◌, refl, arith, Bool, true, false, Option, none, some,
  List, [], ◌∷◌, ◌++◌, Bytes, length, ok, mem,
}
use rusnel.Text.{text}
use rusnel.Net.Ipv4
use rusnel.Net.Addr.{IpAddr, v4, v6, SocketAddr}
use rusnel.Remote.{
  Direction, forward, reverse, RemoteKind, RemoteRequest, SessionHello, SessionHelloResponse,
  is_reversed, is_socks,
}
use rusnel.Server.Entries.{ServerState}
use rusnel.Server.State.{new, register_client, register_tunnels, register_tunnel}
use rusnel.Server.State.Coherence.{IsCoherent, new-IsCoherent}
use rusnel.Server.Session.{validate_remotes, start_session, perform_session_hello}
use rusnel.Server.Session.Ids.{AreTunnelsOf}
use rusnel.Wire.Control.{
  over_cap, Codec, IsCodec, write_framed, read_framed, hello_ids, client_send_session_hello,
}
use rusnel.Wire.Control.Frames.{read_framed-oversized}
use rusnel.Wire.Control.Hello.{
  Fits, answer, serve, client_send_session_hello-answer, client_send_session_hello-start_session,
}
use rusnel.Wire.Datagram.{
  pump_socket_to_stream, pump_stream_to_socket, socket_failed, stream_ended, out_of_fuel,
}
use rusnel.Wire.Datagram.Pump.{
  payloads_of, pump_stream_to_socket-pump_socket_to_stream, pump_stream_to_socket-terminates,
}

abbrev encode_reply : SessionHelloResponse → Option Bytes
encode_reply (SessionHelloResponse.ok ids) = some (0 ∷ ids)
encode_reply (SessionHelloResponse.failed reason) = some (1 ∷ reason)

abbrev decode_reply : Bytes → Option SessionHelloResponse
decode_reply (zero ∷ ids) = some (SessionHelloResponse.ok ids)
decode_reply (suc zero ∷ reason) = some (SessionHelloResponse.failed reason)
decode_reply _ = none

abbrev replies : Codec SessionHelloResponse
replies = record { to_bytes = encode_reply; from_bytes = decode_reply }

decode_reply-encode_reply :
    (x : SessionHelloResponse) (body : Bytes)
    → encode_reply x ≡ some body
    → decode_reply body ≡ some x
decode_reply-encode_reply (SessionHelloResponse.ok ids) body h = ground (arith, h)
decode_reply-encode_reply (SessionHelloResponse.failed reason) body h = ground (arith, h)

replies-IsCodec : IsCodec replies
replies-IsCodec = record { decodes = decode_reply-encode_reply }

abbrev request : ℕ → ℕ → ℕ → ℕ → ℕ → RemoteRequest
request a b c d p = record {
  direction = forward;
  kind = RemoteKind.socks5 (record { ip = v4 (Ipv4.new a b c d); port = p });
  stdio = false;
}

abbrev encode_at : IpAddr → ℕ → Option Bytes
encode_at (v4 ip) p = some (ip.a ∷ ip.b ∷ ip.c ∷ ip.d ∷ p ∷ [])
encode_at (v6 ip) p = none

abbrev encode_one : Direction → RemoteKind → Bool → Option Bytes
encode_one forward (RemoteKind.socks5 addr) false = encode_at addr.ip addr.port
encode_one _ _ _ = none

abbrev encode_hello : List RemoteRequest → Option Bytes
encode_hello (r ∷ []) = encode_one r.direction r.kind r.stdio
encode_hello _ = none

abbrev decode_hello : Bytes → Option SessionHello
decode_hello (a ∷ b ∷ c ∷ d ∷ p ∷ []) = some (record { remotes = request a b c d p ∷ [] })
decode_hello _ = none

abbrev hellos : Codec SessionHello
hellos = record { to_bytes = λ h. encode_hello h.remotes; from_bytes = decode_hello }

decode_one :
    (d : Direction) (ip : IpAddr) (p : ℕ) (s : Bool) (body : Bytes)
    → encode_one d (RemoteKind.socks5 (record { ip = ip; port = p })) s ≡ some body
    → decode_hello body
      ≡ some (record {
        remotes =
            (record {
              direction = d;
              kind = RemoteKind.socks5 (record { ip = ip; port = p });
              stdio = s;
            })
            ∷ [];
      })
decode_one forward (v4 ip) p false body h = ground (arith, h)
decode_one forward (v6 ip) p false body h = cc
decode_one forward ip p true body h = cc
decode_one reverse ip p s body h = cc

decode_kind :
    (d : Direction) (k : RemoteKind) (s : Bool) (body : Bytes)
    → encode_one d k s ≡ some body
    → decode_hello body
      ≡ some (record { remotes = (record { direction = d; kind = k; stdio = s }) ∷ [] })
decode_kind d (RemoteKind.socks5 addr) s body h = decode_one d addr.ip addr.port s body h
decode_kind forward (RemoteKind.tcp addr remote) s body h = cc
decode_kind forward (RemoteKind.udp addr remote) s body h = cc
decode_kind reverse (RemoteKind.tcp addr remote) s body h = cc
decode_kind reverse (RemoteKind.udp addr remote) s body h = cc

decode_remotes :
    (rs : List RemoteRequest) (body : Bytes)
    → encode_hello rs ≡ some body
    → decode_hello body ≡ some (record { remotes = rs })
decode_remotes [] body h = cc
decode_remotes (r ∷ []) body h = decode_kind r.direction r.kind r.stdio body h
decode_remotes (r ∷ q ∷ rs) body h = cc

hellos-IsCodec : IsCodec hellos
hellos-IsCodec = record { decodes = λ x body h. decode_remotes x.remotes body h }

abbrev accepted : SessionHelloResponse
accepted = SessionHelloResponse.ok (1 ∷ [])

abbrev client_hello : SessionHello
client_hello = record { remotes = request 127 0 0 1 1080 ∷ [] }

client_hello-Fits : Fits hellos client_hello
client_hello-Fits = (127 ∷ 0 ∷ 0 ∷ 1 ∷ 1080 ∷ [], refl, omega arith)

client_send_session_hello-answer_example :
    (client_send_session_hello hellos replies client_hello
      (answer hellos replies (λ h. accepted))).result
    ≡ hello_ids (length client_hello.remotes) accepted
client_send_session_hello-answer_example =
    client_send_session_hello-answer hellos replies (λ h. accepted) client_hello hellos-IsCodec
      replies-IsCodec client_hello-Fits (0 ∷ 1 ∷ [], refl, omega arith)

abbrev peer : SocketAddr
peer = record { ip = v4 Ipv4.localhost; port = 53 }

abbrev idle : ServerState
idle =
    new 5 peer (λ k. record { id = 0; remote = peer; connected_at = 0; tunnels = [] })
      (λ k. record {
        id = 0;
        client_id = 0;
        direction = forward;
        kind = RemoteKind.socks5 peer;
        spec = [];
        opened_at = 0;
        conns = [];
        cumulative_in = 0;
        cumulative_out = 0;
        total_conns = 0;
      })
      (λ k. record {
        id = 0;
        tunnel_id = 0;
        client_id = 0;
        opened_at = 0;
        peer = none;
        bytes_in = 0;
        bytes_out = 0;
      })

idle-IsCoherent : IsCoherent idle
idle-IsCoherent = new-IsCoherent 5 peer _ _ _

response-Fits : Fits replies (serve 6 7 peer true true idle client_hello).response
unfolding new start_session perform_session_hello register_client register_tunnels register_tunnel
    validate_remotes is_reversed is_socks
response-Fits = (0 ∷ 1 ∷ [], refl, omega arith)

hello_allowed : validate_remotes client_hello.remotes true true ≡ ok tt
unfolding validate_remotes is_reversed is_socks
hello_allowed = refl

idle_facts :
    (mem 7 idle.clients ≡ false) × (idle.next_tunnel_id + length client_hello.remotes < 2 ^ 64)
unfolding new
idle_facts = (refl, omega arith)

client_send_session_hello-start_session_example :
    (let v = serve 6 7 peer true true idle client_hello in
      let far = answer hellos replies λ h. (serve 6 7 peer true true idle h).response in
      (ids : List ℕ) × ((client_send_session_hello hellos replies client_hello far).result ≡ ok ids)
      × (v.result ≡ ok ids)
      × AreTunnelsOf v.state 7 ids client_hello.remotes)
client_send_session_hello-start_session_example =
    client_send_session_hello-start_session hellos replies 6 7 peer client_hello true true idle
      hellos-IsCodec replies-IsCodec idle-IsCoherent idle_facts.0 idle_facts.1 hello_allowed
      client_hello-Fits response-Fits

abbrev stranger : SocketAddr
stranger = record { ip = v4 Ipv4.localhost; port = 54 }

abbrev datagrams : List (Bytes × SocketAddr)
datagrams = (text "one", peer) ∷ (text "no", stranger) ∷ ([], peer) ∷ (text "two", peer) ∷ []

pump_stream_to_socket-pump_socket_to_stream_example :
    (let near = pump_socket_to_stream peer datagrams in
      let far = pump_stream_to_socket (λ p. true) near.out in
      (far.out ≡ payloads_of peer datagrams)
      × (far.counted ≡ near.counted)
      × (near.stop ≡ socket_failed)
      × (far.stop ≡ stream_ended))
pump_stream_to_socket-pump_socket_to_stream_example =
    pump_stream_to_socket-pump_socket_to_stream (λ p. true) peer datagrams (λ p. refl)
      (omega arith, (omega arith, (omega arith, (omega arith, tt))))

pump_stream_to_socket-terminates_example :
    (pump_stream_to_socket (λ p. true) (3 ∷ 0 ∷ 65 ∷ [])).stop ≢ out_of_fuel
pump_stream_to_socket-terminates_example =
    pump_stream_to_socket-terminates (λ p. true) (3 ∷ 0 ∷ 65 ∷ [])

padding : ℕ → Bytes
padding zero = []
padding (suc n) = 0 ∷ padding n

length-padding : (n : ℕ) → length (padding n) ≡ n
unfolding padding
length-padding zero = refl
length-padding (suc n) = omega (arith, length-padding n)

abbrev padded : Codec (Unit {0})
padded = record { to_bytes = λ x. some (padding 70000); from_bytes = λ s. some tt }

read_framed-oversized_example :
    (frame : Bytes) × (write_framed padded tt ≡ ok frame)
    × (read_framed padded (frame ++ []) ≡ err (over_cap (length (padding 70000))))
read_framed-oversized_example =
    read_framed-oversized padded tt (padding 70000) [] refl (omega (arith, length-padding 70000))
      (omega (arith, length-padding 70000))
