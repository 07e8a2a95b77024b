-- ===== src/Wire/Datagram.antt =====
-- UDP datagrams over a stream: the framing and the two pumps of src/common/udp.rs.
pub mod Pump
use rusnel.Base.{
  ℕ, zero, suc, ◌+◌, ◌^◌, ◌<◌, ◌≡◌, refl, arith, Bool, true, false, ◌&&◌, Option, none, some, List,
  [], ◌∷◌, ◌++◌, Bytes, length, ltb, ◌==◌, equal, if◌then◌else◌, Result, ok, err, ◌>>=◌, ok_or,
}
use rusnel.Net.Ipv4
use rusnel.Net.Ipv6
use rusnel.Net.Addr.{IpAddr, v4, v6, SocketAddr}
use rusnel.Server.State.{add64}
use rusnel.Wire.{read_exact}
use rusnel.Wire.Words.{u16_bytes, from_le_bytes}

pub data DatagramError : Type 0 where
  exceeds_u16 : ℕ → DatagramError
  exceeds_buffer : ℕ → ℕ → DatagramError
  stream_ended socket_failed out_of_fuel : DatagramError

abbrev pub max_datagram : ℕ
max_datagram = 65535

unfoldable pub write_datagram : Bytes → Result DatagramError Bytes
write_datagram payload =
    if ltb (length payload) (2 ^ 16)
    then ok (u16_bytes (length payload) ++ payload)
    else err (exceeds_u16 (length payload))

-- The payload at the front of the stream, and the bytes behind it. `room` is the size of the buffer.
unfoldable pub read_datagram : ℕ → Bytes → Result DatagramError (Bytes × Bytes)
read_datagram room s = do
  (len_buf, behind) ← ok_or (read_exact 2 s) stream_ended
  let len = from_le_bytes len_buf
  if ltb room len then err (exceeds_buffer len room) else ok_or (read_exact len behind) stream_ended

-- What a pump has put out, what it has counted, and why it stopped.
pub record Pumped {ℓ} (A : Type ℓ) : Type ℓ where
  pub out : A
  pub counted : ℕ
  pub stop : DatagramError

abbrev pub same_ip : IpAddr → IpAddr → Bool
same_ip (v4 a) (v4 b) = equal (Ipv4.octets a) (Ipv4.octets b)
same_ip (v6 a) (v6 b) = equal (Ipv6.segments a) (Ipv6.segments b)
same_ip _ _ = false

abbrev pub same_socket_addr : SocketAddr → SocketAddr → Bool
same_socket_addr a b = same_ip a.ip b.ip && a.port == b.port

-- The frame of a payload in front of what the pump puts out next.
abbrev pub sent_first : Bytes → Result DatagramError Bytes → Pumped Bytes → Pumped Bytes
sent_first payload (err e) later = record { out = []; counted = 0; stop = e }
sent_first payload (ok frame) later = record {
  out = frame ++ later.out;
  counted = add64 (length payload) later.counted;
  stop = later.stop;
}

-- The datagrams that the socket receives, each with its source, until the socket fails.
unfoldable pub pump_socket_to_stream : SocketAddr → List (Bytes × SocketAddr) → Pumped Bytes
pump_socket_to_stream udp_address [] = record { out = []; counted = 0; stop = socket_failed }
pump_socket_to_stream udp_address ((payload, source) ∷ later) =
    let rest = pump_socket_to_stream udp_address later in
    if same_socket_addr source udp_address
    then sent_first payload (write_datagram payload) rest
    else rest

-- The payload, if the socket takes it, in front of what the pump puts out next.
abbrev pub delivered_first : (Bytes → Bool) → Bytes → Pumped (List Bytes) → Pumped (List Bytes)
delivered_first takes payload later =
    if takes payload
    then record {
      out = payload ∷ later.out;
      counted = add64 (length payload) later.counted;
      stop = later.stop;
    }
    else record { out = []; counted = 0; stop = socket_failed }

-- One round of the loop, with the rest of it.
abbrev pub deliver_round :
    (Bytes → Bool)
    → (Bytes → Pumped (List Bytes))
    → Result DatagramError (Bytes × Bytes)
    → Pumped (List Bytes)
deliver_round takes next (err e) = record { out = []; counted = 0; stop = e }
deliver_round takes next (ok (payload, behind)) = delivered_first takes payload (next behind)

unfoldable pub deliver_loop : (Bytes → Bool) → ℕ → Bytes → Pumped (List Bytes)
deliver_loop takes zero s = record { out = []; counted = 0; stop = out_of_fuel }
deliver_loop takes (suc fuel) s =
    deliver_round takes (deliver_loop takes fuel) (read_datagram max_datagram s)

-- `takes` says which payloads the socket takes. Each round reads two bytes at least.
unfoldable pub pump_stream_to_socket : (Bytes → Bool) → Bytes → Pumped (List Bytes)
pump_stream_to_socket takes s = deliver_loop takes (suc (length s)) s
