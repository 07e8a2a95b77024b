-- ===== src/Proxy/Socket/Filter.antt =====
-- Only the server's packets come through the proxy, and all of them do.
use rusnel.Base.{
  ℕ, zero, suc, ◌≤◌, ap, take, length, Result, ok, err, ◌≡◌, refl, arith, true, false, none, some,
  List, [], ◌∷◌, Bytes, equal_refl, ==_refl,
}
use rusnel.Net.Ipv4
use rusnel.Net.Ipv6
use rusnel.Net.Addr.{IpAddr, v4, v6, SocketAddr}
use rusnel.Wire.Datagram.{same_ip, same_socket_addr}
use rusnel.Proxy.{wrap_socks5_udp, unwrap_socks5_udp_in_place}
use rusnel.Proxy.Datagrams.{unwrap_socks5_udp_in_place-wrap_socks5_udp}
use rusnel.Proxy.Socket.{
  Socks5UdpSocket, packet_of, poll_recv, recv_loop, Arrival, datagram, failure, RecvPoll, received,
  read_failed, pending,
}

same_ip_refl : (ip : IpAddr) → same_ip ip ip ≡ true
same_ip_refl (v4 ip) = equal_refl (Ipv4.octets ip)
same_ip_refl (v6 ip) = equal_refl (Ipv6.segments ip)

pub same_socket_addr_refl : (a : SocketAddr) → same_socket_addr a a ≡ true
same_socket_addr_refl a = ground (arith, same_ip_refl a.ip, ==_refl a.port)

-- What arrives, with the packets of the server among it: wrapped by the relay for the server. The
-- other datagrams come from elsewhere, are malformed, or are relayed for somebody else, as far as
-- they fit into the buffer; and a read may fail.
pub data Arrives (socket : Socks5UdpSocket) (capacity : ℕ)
    : List (Result Bytes Bytes) → List Arrival → Type 0 where
  nothing : Arrives socket capacity [] []
  packet :
      {outs : List (Result Bytes Bytes)} {ds : List Arrival} (payload : Bytes)
      → length (wrap_socks5_udp socket.target payload) ≤ capacity
      → Arrives socket capacity outs ds
      → Arrives socket capacity
          (ok payload ∷ outs)
          (datagram (wrap_socks5_udp socket.target payload) socket.relay ∷ ds)
  broken :
      {outs : List (Result Bytes Bytes)} {ds : List Arrival} (e : Bytes)
      → Arrives socket capacity outs ds
      → Arrives socket capacity (err e ∷ outs) (failure e ∷ ds)
  stranger :
      {outs : List (Result Bytes Bytes)} {ds : List Arrival} (bytes : Bytes) (source : SocketAddr)
      → same_socket_addr source socket.relay ≡ false
      → Arrives socket capacity outs ds
      → Arrives socket capacity outs (datagram bytes source ∷ ds)
  malformed :
      {outs : List (Result Bytes Bytes)} {ds : List Arrival} (bytes : Bytes) (source : SocketAddr)
      → unwrap_socks5_udp_in_place (take capacity bytes) ≡ none
      → Arrives socket capacity outs ds
      → Arrives socket capacity outs (datagram bytes source ∷ ds)
  for_another :
      {outs : List (Result Bytes Bytes)} {ds : List Arrival} (bytes : Bytes) (source : SocketAddr)
      (from : SocketAddr) (payload : Bytes)
      → unwrap_socks5_udp_in_place (take capacity bytes) ≡ some (from, payload)
      → same_socket_addr from socket.target ≡ false
      → Arrives socket capacity outs ds
      → Arrives socket capacity outs (datagram bytes source ∷ ds)

-- What a poll gives for a packet or an error, with `rest` behind it.
abbrev pub delivered : Result Bytes Bytes → List Arrival → RecvPoll
delivered (ok payload) rest = received payload rest
delivered (err e) rest = read_failed e rest

-- What the polls give, one after the other, until nothing is left. Each has a buffer and a place
-- for its description.
abbrev pub Received :
    Socks5UdpSocket → ℕ → List ℕ → ℕ → List (Result Bytes Bytes) → List Arrival → Type 0
Received socket capacity bufs metas [] ds =
    poll_recv socket (capacity ∷ bufs) (suc metas) ds ≡ pending
Received socket capacity bufs metas (out ∷ outs) ds =
    (rest : List Arrival) × (poll_recv socket (capacity ∷ bufs) (suc metas) ds ≡ delivered out rest)
    × Received socket capacity bufs metas outs rest

packet_of-stranger :
    (socket : Socks5UdpSocket) (bytes : Bytes) (source : SocketAddr)
    → same_socket_addr source socket.relay ≡ false
    → packet_of socket (bytes, source) ≡ none
unfolding packet_of
packet_of-stranger socket bytes source h = rw h refl

packet_of-malformed :
    (socket : Socks5UdpSocket) (bytes : Bytes) (source : SocketAddr)
    → unwrap_socks5_udp_in_place bytes ≡ none
    → packet_of socket (bytes, source) ≡ none
unfolding packet_of
packet_of-malformed socket bytes source h = rw h (ground arith)

packet_of-for_another :
    (socket : Socks5UdpSocket) (bytes : Bytes) (source from : SocketAddr) (payload : Bytes)
    → unwrap_socks5_udp_in_place bytes ≡ some (from, payload)
    → same_socket_addr from socket.target ≡ false
    → packet_of socket (bytes, source) ≡ none
unfolding packet_of
packet_of-for_another socket bytes source from payload u h = rw (u, h) (ground arith)

packet_of-packet :
    (socket : Socks5UdpSocket) (payload : Bytes)
    → packet_of socket (wrap_socks5_udp socket.target payload, socket.relay) ≡ some payload
unfolding packet_of
packet_of-packet socket payload =
    rw
      (
        same_socket_addr_refl socket.relay,
        unwrap_socks5_udp_in_place-wrap_socks5_udp socket.target payload,
        same_socket_addr_refl socket.target,
      )
      refl

take_all : (n : ℕ) (xs : Bytes) → length xs ≤ n → take n xs ≡ xs
take_all zero [] le = refl
take_all zero (x ∷ xs) le = absurd (omega (arith, le))
take_all (suc n) [] le = refl
take_all (suc n) (x ∷ xs) le = ap (◌∷◌ x) (take_all n xs (omega (arith, le)))

module _ (socket : Socks5UdpSocket) (capacity : ℕ) (bufs : List ℕ) (metas : ℕ) where
  skipped :
      (outs : List (Result Bytes Bytes)) (bytes : Bytes) (source : SocketAddr) (ds : List Arrival)
      → packet_of socket (take capacity bytes, source) ≡ none
      → Received socket capacity bufs metas outs ds
      → Received socket capacity bufs metas outs (datagram bytes source ∷ ds)
  unfolding poll_recv recv_loop
  skipped [] bytes source ds e h = rw e h
  skipped (out ∷ outs) bytes source ds e (rest, f, h) = (rest, rw e f, h)

  empty : poll_recv socket (capacity ∷ bufs) (suc metas) [] ≡ pending
  unfolding poll_recv recv_loop
  empty = refl

  first_packet :
      (payload bytes : Bytes) (source : SocketAddr) (ds : List Arrival)
      → packet_of socket (take capacity bytes, source) ≡ some payload
      → poll_recv socket (capacity ∷ bufs) (suc metas) (datagram bytes source ∷ ds)
        ≡ received payload ds
  unfolding poll_recv recv_loop
  first_packet payload bytes source ds e = rw e refl

  first_failure :
      (e : Bytes) (ds : List Arrival)
      → poll_recv socket (capacity ∷ bufs) (suc metas) (failure e ∷ ds) ≡ read_failed e ds
  unfolding poll_recv recv_loop
  first_failure e ds = refl

  -- Of all that arrives, exactly the packets of the server, wrapped by the relay, and the errors of
  -- the socket are given out, in order, the packets unchanged if they fit into the buffer in their
  -- wrapping; strangers, malformed datagrams and those of somebody else behind the proxy are passed
  -- over.
  pub poll_recv-Arrives :
      {outs : List (Result Bytes Bytes)} {ds : List Arrival}
      → Arrives socket capacity outs ds
      → Received socket capacity bufs metas outs ds
  poll_recv-Arrives nothing = empty
  poll_recv-Arrives (packet {outs} {ds} payload fits h) =
      let bytes = wrap_socks5_udp socket.target payload in
      (
        ds,
        first_packet payload bytes socket.relay ds
            (rw (take_all capacity bytes fits) (packet_of-packet socket payload)),
        poll_recv-Arrives h,
      )
  poll_recv-Arrives (broken {outs} {ds} e h) = (ds, first_failure e ds, poll_recv-Arrives h)
  poll_recv-Arrives (stranger {outs} {ds} bytes source e h) =
      skipped outs bytes source ds (packet_of-stranger socket (take capacity bytes) source e)
        (poll_recv-Arrives h)
  poll_recv-Arrives (malformed {outs} {ds} bytes source e h) =
      skipped outs bytes source ds (packet_of-malformed socket (take capacity bytes) source e)
        (poll_recv-Arrives h)
  poll_recv-Arrives (for_another {outs} {ds} bytes source from payload u e h) =
      skipped outs bytes source ds
        (packet_of-for_another socket (take capacity bytes) source from payload u e)
        (poll_recv-Arrives h)
