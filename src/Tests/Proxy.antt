-- ===== src/Tests/Proxy.antt =====
-- Runs of the handshake with the outbound proxy and of its socket (src/common/proxy.rs).
use rusnel.Base.{err, length, ◌≡◌, ◌⊎◌, refl, arith, none, some, [], ◌∷◌, ◌++◌, ok}
use rusnel.Text.{text}
use rusnel.Net.Ipv4
use rusnel.Net.Addr.{IpAddr, v4, port_bytes}
use rusnel.Proxy.{wrap_socks5_udp, ip_bytes, unwrap_socks5_udp_in_place}
use rusnel.Proxy.Handshake.{
  establish_socks5_udp_associate, greeting, associate_request, userpass_request,
}
use rusnel.Proxy.Handshake.Relay.{same_host, with_password, establish_socks5_udp_associate-Names}
use rusnel.Proxy.Handshake.Secret.{establish_socks5_udp_associate_secret}
use rusnel.Proxy.Socket.{
  Socks5UdpSocket, datagram, failure, poll_recv, recv_loop, packet_of, received,
}
use rusnel.Proxy.Socket.Filter.{broken, Received, nothing, packet, malformed, poll_recv-Arrives}

abbrev home : IpAddr
home = v4 Ipv4.localhost

abbrev nowhere : IpAddr
nowhere = v4 Ipv4.unspecified

establish_socks5_udp_associate-Names_example :
    establish_socks5_udp_associate
      (some home)
      (some (text "joe", text "pw"))
      (5 ∷ 2 ∷ ((1 ∷ 0 ∷ []) ++ (5 ∷ 0 ∷ 0 ∷ (ip_bytes nowhere ++ (port_bytes 1080 ++ [])))))
    ≡ record {
      written =
          greeting (some (text "joe", text "pw"))
          ++ (userpass_request (text "joe") (text "pw") ++ associate_request);
      result = ok (record { ip = home; port = 1080 }, []);
    }
establish_socks5_udp_associate-Names_example =
    establish_socks5_udp_associate-Names home 1080 []
      (with_password (text "joe") (text "pw") (omega arith) (omega arith)) (same_host nowhere refl)

establish_socks5_udp_associate_secret_example :
    (let t =
        establish_socks5_udp_associate (some home) (some (text "joe", text "pw")) (5 ∷ 0 ∷ []) in
      (t.written ≡ greeting (some (text "joe", text "pw")))
      ⊎ (t.written ≡ greeting (some (text "joe", text "pw")) ++ associate_request))
establish_socks5_udp_associate_secret_example =
    establish_socks5_udp_associate_secret (some home) (some (text "joe", text "pw")) (5 ∷ 0 ∷ [])
      (omega arith)

abbrev socket : Socks5UdpSocket
socket = record {
  relay = record { ip = home; port = 1080 };
  target = record { ip = home; port = 8080 };
}

unreadable : unwrap_socks5_udp_in_place (text "?") ≡ none
unfolding unwrap_socks5_udp_in_place
unreadable = refl

wrapped_size : length (wrap_socks5_udp socket.target (text "hi")) ≡ 12
unfolding wrap_socks5_udp
wrapped_size = refl

poll_recv-Arrives_example : Received socket 1500 [] 0 (err (text "refused") ∷ ok (text "hi") ∷ []) (
    datagram (text "?") socket.relay
    ∷ failure (text "refused")
    ∷ datagram (wrap_socks5_udp socket.target (text "hi")) socket.relay
    ∷ [])
poll_recv-Arrives_example = poll_recv-Arrives socket 1500 [] 0 (
    malformed (text "?") socket.relay unreadable
      (broken (text "refused") (packet (text "hi") (omega (arith, wrapped_size)) nothing)))

-- A packet that does not fit into the buffer loses its end.
cut_off :
    poll_recv socket
      (11 ∷ [])
      1
      (datagram (wrap_socks5_udp socket.target (text "hi")) socket.relay ∷ [])
    ≡ received (text "h") []
unfolding poll_recv recv_loop packet_of wrap_socks5_udp unwrap_socks5_udp_in_place
    rusnel.Proxy.unwrap_v4
cut_off = refl
