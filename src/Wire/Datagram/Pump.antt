-- ===== src/Wire/Datagram/Pump.antt =====
-- Datagrams keep their boundaries, order and number on a stream.
use rusnel.Base.{
  ℕ, zero, suc, ◌+◌, ◌<◌, ◌≤◌, ◌≡◌, ◌≢◌, refl, arith, Bool, true, some, List, [], ◌∷◌, ◌++◌,
  append_assoc, Bytes, length, length-append, if◌then◌else◌, ok, err, All, Option-cases,
  Result-cases, inl, inr,
}
use rusnel.Net.Addr.{SocketAddr}
use rusnel.Server.State.{add64}
use rusnel.Wire.{read_exact, read_exact-append}
use rusnel.Wire.Words.{u16_bytes, from_le_bytes, from_le_bytes-u16_bytes}
use rusnel.Wire.Datagram.{
  stream_ended, socket_failed, out_of_fuel, max_datagram, write_datagram, read_datagram,
  same_socket_addr, pump_socket_to_stream, deliver_loop, pump_stream_to_socket,
}

write_datagram-short :
    (payload : Bytes)
    → length payload ≤ max_datagram
    → write_datagram payload ≡ ok (u16_bytes (length payload) ++ payload)
unfolding write_datagram
write_datagram-short payload h = ground arith

read_exact-length : (n : ℕ) (s : Bytes) → read_exact 2 (u16_bytes n ++ s) ≡ some (u16_bytes n, s)
read_exact-length n s = read_exact-append (u16_bytes n) s

read_datagram-frame :
    (payload rest : Bytes)
    → length payload ≤ max_datagram
    → read_datagram max_datagram (u16_bytes (length payload) ++ payload ++ rest)
      ≡ ok (payload, rest)
unfolding read_datagram
read_datagram-frame payload rest h = ground (
  arith,
  read_exact-length (length payload) (payload ++ rest),
  from_le_bytes-u16_bytes (length payload),
  read_exact-append payload rest,
)

-- The payloads that come from the peer.
abbrev pub payloads_of : SocketAddr → List (Bytes × SocketAddr) → List Bytes
payloads_of peer [] = []
payloads_of peer ((payload, source) ∷ later) =
    let rest = payloads_of peer later in
    if same_socket_addr source peer then payload ∷ rest else rest

abbrev pub bytes_of : List Bytes → ℕ
bytes_of [] = 0
bytes_of (p ∷ ps) = add64 (length p) (bytes_of ps)

abbrev frames : List Bytes → Bytes
frames [] = []
frames (p ∷ ps) = u16_bytes (length p) ++ p ++ frames ps

abbrev pub IsShort : Bytes × SocketAddr → Type 0
IsShort d = length (d.0) ≤ max_datagram

abbrev IsShortPayload : Bytes → Type 0
IsShortPayload p = length p ≤ max_datagram

pump_socket_to_stream-frames :
    (peer : SocketAddr) (ds : List (Bytes × SocketAddr))
    → All IsShort ds
    → pump_socket_to_stream peer ds ≡ record {
      out = frames (payloads_of peer ds);
      counted = bytes_of (payloads_of peer ds);
      stop = socket_failed;
    }
unfolding pump_socket_to_stream
pump_socket_to_stream-frames peer [] h = refl
pump_socket_to_stream-frames peer ((payload, source) ∷ ds) (h, hs) = ground (
  arith,
  pump_socket_to_stream-frames peer ds hs,
  write_datagram-short payload h,
  append_assoc (u16_bytes (length payload)) payload (frames (payloads_of peer ds)),
)

payloads_of-short :
    (peer : SocketAddr) (ds : List (Bytes × SocketAddr))
    → All IsShort ds
    → All IsShortPayload (payloads_of peer ds)
payloads_of-short peer [] h = tt
payloads_of-short peer ((payload, source) ∷ ds) (h, hs) =
    ground (arith, payloads_of-short peer ds hs)

read_datagram-end : read_datagram max_datagram [] ≡ err stream_ended
unfolding read_datagram read_exact
read_datagram-end = refl

deliver_loop-frames :
    (takes : Bytes → Bool) (fuel : ℕ) (ps : List Bytes)
    → ((p : Bytes) → takes p ≡ true)
    → All IsShortPayload ps
    → length (frames ps) < fuel
    → deliver_loop takes fuel (frames ps)
      ≡ record { out = ps; counted = bytes_of ps; stop = stream_ended }
unfolding deliver_loop
deliver_loop-frames takes zero ps t h lt = absurd (omega arith)
deliver_loop-frames takes (suc fuel) [] t h lt = rw read_datagram-end refl
deliver_loop-frames takes (suc fuel) (p ∷ ps) t (h, hs) lt =
    let shorter = length-append p (frames ps) in
    let rest = deliver_loop-frames takes fuel ps t hs (omega (arith, shorter)) in
    rw (read_datagram-frame p (frames ps) h, rest, t p) refl

-- If each datagram fits the buffer and the far socket takes all, the datagrams that come from the
-- peer, and no others, leave the far end one by one, in order and unchanged, and both ends count
-- the same bytes.
pub pump_stream_to_socket-pump_socket_to_stream :
    (takes : Bytes → Bool) (peer : SocketAddr) (ds : List (Bytes × SocketAddr))
    → ((p : Bytes) → takes p ≡ true)
    → All IsShort ds
    → (let near = pump_socket_to_stream peer ds in
        let far = pump_stream_to_socket takes near.out in
        (far.out ≡ payloads_of peer ds)
        × (far.counted ≡ near.counted)
        × (near.stop ≡ socket_failed)
        × (far.stop ≡ stream_ended))
unfolding pump_stream_to_socket
pump_stream_to_socket-pump_socket_to_stream takes peer ds t h =
    let ps = payloads_of peer ds in
    let e =
      deliver_loop-frames takes (suc (length (frames ps))) ps t (payloads_of-short peer ds h)
        (omega arith) in
    rw (pump_socket_to_stream-frames peer ds h, e) (refl, refl, refl, refl)

read_exact-shorter :
    (n : ℕ) (s : Bytes) {taken rest : Bytes}
    → read_exact n s ≡ some (taken, rest)
    → length rest + n ≡ length s
unfolding read_exact
read_exact-shorter zero s h = ground arith
read_exact-shorter (suc n) [] h = cc
read_exact-shorter (suc n) (b ∷ s) {taken} {rest} h = elim (Option-cases (read_exact n s)) [
  | inl e ↦ ground (arith, e)
  | inr ((t, r), e) ↦ ground (arith, e, read_exact-shorter n s {taken = t} {rest = r} e)
]

read_datagram-shorter :
    (room : ℕ) (s : Bytes) {payload rest : Bytes}
    → read_datagram room s ≡ ok (payload, rest)
    → length rest + 2 ≤ length s
unfolding read_datagram
read_datagram-shorter room s {payload} {rest} h = elim (Option-cases (read_exact 2 s)) [
  | inl e ↦ ground (arith, e)
  | inr ((len_buf, behind), e) ↦
      let len = from_le_bytes len_buf in
      elim (Option-cases (read_exact len behind)) [
        | inl early ↦ ground (arith, e, early)
        | inr ((t, r), full) ↦ ground (
          arith,
          e,
          full,
          read_exact-shorter 2 s {taken = len_buf} {rest = behind} e,
          read_exact-shorter len behind {taken = t} {rest = r} full,
        )
      ]
]

read_datagram-fuel : (room : ℕ) (s : Bytes) → read_datagram room s ≢ err out_of_fuel
unfolding read_datagram
read_datagram-fuel room s h = elim (Option-cases (read_exact 2 s)) [
  | inl e ↦ ground (arith, e)
  | inr ((len_buf, behind), e) ↦ elim (Option-cases (read_exact (from_le_bytes len_buf) behind)) [
    | inl early ↦ ground (arith, e, early)
    | inr ((t, r), full) ↦ ground (arith, e, full)
  ]
]

deliver_loop-terminates :
    (takes : Bytes → Bool) (fuel : ℕ) (s : Bytes)
    → length s < fuel
    → (deliver_loop takes fuel s).stop ≢ out_of_fuel
unfolding deliver_loop
deliver_loop-terminates takes zero s lt = absurd (omega arith)
deliver_loop-terminates takes (suc fuel) s lt = elim (Result-cases (read_datagram max_datagram s)) [
  | inl ((payload, rest), e) ↦
      let shorter = read_datagram-shorter max_datagram s {payload = payload} {rest = rest} e in
      let later = deliver_loop-terminates takes fuel rest (omega (arith, shorter)) in
      ground (arith, e, later)
  | inr (bad, e) ↦ ground (arith, e, read_datagram-fuel max_datagram s)
]

-- Whatever arrives, the loop that delivers datagrams ends with the stream, a bad length or the
-- socket, never for want of fuel.
pub pump_stream_to_socket-terminates :
    (takes : Bytes → Bool) (s : Bytes) → (pump_stream_to_socket takes s).stop ≢ out_of_fuel
unfolding pump_stream_to_socket
pump_stream_to_socket-terminates takes s =
    deliver_loop-terminates takes (suc (length s)) s (omega arith)
