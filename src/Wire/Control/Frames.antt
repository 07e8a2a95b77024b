-- ===== src/Wire/Control/Frames.antt =====
-- What a frame of the control plane carries.
use rusnel.Base.{ℕ, ◌^◌, ◌<◌, ◌≤◌, ◌≡◌, arith, some, ◌++◌, Bytes, length, ok, err}
use rusnel.Wire.{read_exact, read_exact-append}
use rusnel.Wire.Words.{u32_bytes, from_le_bytes-u32_bytes}
use rusnel.Wire.Control.{
  Codec, IsCodec, over_cap, max_control_msg, write_framed, read_body, read_framed,
}

read_exact-length : (n : ℕ) (s : Bytes) → read_exact 4 (u32_bytes n ++ s) ≡ some (u32_bytes n, s)
read_exact-length n s = read_exact-append (u32_bytes n) s

module _ {T : Type 0} (c : Codec T) where
  write_framed-encoded :
      (msg : T) (body : Bytes)
      → c.to_bytes msg ≡ some body
      → length body < 2 ^ 32
      → write_framed c msg ≡ ok (u32_bytes (length body) ++ body)
  unfolding write_framed
  write_framed-encoded msg body e lt = ground (arith, e)

  -- With a codec that decodes what it encodes, a message whose encoding keeps to the cap is read
  -- back, whatever follows it on the stream.
  pub read_framed-write_framed :
      (msg : T) (body rest : Bytes)
      → IsCodec c
      → c.to_bytes msg ≡ some body
      → length body ≤ max_control_msg
      → (frame : Bytes) × (write_framed c msg ≡ ok frame)
        × (read_framed c (frame ++ rest) ≡ ok (msg, rest))
  unfolding read_framed read_body
  read_framed-write_framed msg body rest h e le = (
    u32_bytes (length body) ++ body,
    write_framed-encoded msg body e (omega arith),
    ground (
      arith,
      read_exact-length (length body) (body ++ rest),
      from_le_bytes-u32_bytes (length body),
      read_exact-append body rest,
      h.decodes msg body e,
    ),
  )

  -- A message whose encoding exceeds the cap, but not 32 bits of length, is written all the same,
  -- and the peer refuses it by its length alone.
  pub read_framed-oversized :
      (msg : T) (body rest : Bytes)
      → c.to_bytes msg ≡ some body
      → max_control_msg < length body
      → length body < 2 ^ 32
      → (frame : Bytes) × (write_framed c msg ≡ ok frame)
        × (read_framed c (frame ++ rest) ≡ err (over_cap (length body)))
  unfolding read_framed
  read_framed-oversized msg body rest e lt fits = (
    u32_bytes (length body) ++ body,
    write_framed-encoded msg body e fits,
    ground (
      arith,
      read_exact-length (length body) (body ++ rest),
      from_le_bytes-u32_bytes (length body),
    ),
  )
