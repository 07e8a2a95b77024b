-- ===== src/Wire/Control.antt =====
-- Control messages: src/common/tunnel.rs. MessagePack, a third-party crate, is a parameter.
pub mod Frames
pub mod Hello
use rusnel.Base.{
  ℕ, ◌+◌, ◌*◌, ◌^◌, ◌<◌, ◌≡◌, arith, Bool, true, false, Option, none, some, List, [], ◌∷◌, ◌++◌,
  Bytes, length, ltb, ◌==◌, not, if◌then◌else◌, Result, ok, err, ◌>>=◌, ok_or, map_ok,
}
use rusnel.Remote.{SessionHello, SessionHelloResponse, OpenConn, OpenConnResponse}
use rusnel.Wire.{read_exact}
use rusnel.Wire.Words.{u32_bytes, from_le_bytes}

-- `SerdeHelper`: MessagePack of one type. Both directions may fail.
pub record Codec {ℓ} (T : Type ℓ) : Type ℓ where
  pub to_bytes : T → Option Bytes
  pub from_bytes : Bytes → Option T

-- What the program relies on: what is encoded can be decoded.
pub record IsCodec {ℓ} {T : Type ℓ} (c : Codec T) : Type ℓ where
  pub decodes : (x : T) (body : Bytes) → c.to_bytes x ≡ some body → c.from_bytes body ≡ some x

pub data FrameError : Type 0 where
  not_encoded too_long length_lost body_lost not_decoded : FrameError
  over_cap : ℕ → FrameError
  id_count : ℕ → ℕ → FrameError
  session_rejected conn_rejected : Bytes → FrameError

abbrev pub max_control_msg : ℕ
max_control_msg = 64 * 1024

module _ {T : Type 0} (c : Codec T) where
  -- The bytes that a message puts on the stream.
  unfoldable pub write_framed : T → Result FrameError Bytes
  write_framed msg = do
    body ← ok_or (c.to_bytes msg) not_encoded
    if ltb (length body) (2 ^ 32) then ok (u32_bytes (length body) ++ body) else err too_long

  -- The body behind the length, and the bytes behind both.
  unfoldable pub read_body : ℕ → Bytes → Result FrameError (T × Bytes)
  read_body len s = do
    (body, rest) ← ok_or (read_exact len s) body_lost
    msg ← ok_or (c.from_bytes body) not_decoded
    ok (msg, rest)

  -- The length is refused before the body is read.
  unfoldable pub read_framed : Bytes → Result FrameError (T × Bytes)
  read_framed s = do
    (len_buf, behind) ← ok_or (read_exact 4 s) length_lost
    let len = from_le_bytes len_buf
    if ltb max_control_msg len then err (over_cap len) else read_body len behind

-- The verdict on a reply to a hello with `n` remotes.
unfoldable pub hello_ids : ℕ → SessionHelloResponse → Result FrameError (List ℕ)
hello_ids n (SessionHelloResponse.ok ids) =
    if length ids == n then ok ids else err (id_count (length ids) n)
hello_ids n (SessionHelloResponse.failed reason) = err (session_rejected reason)

unfoldable pub conn_opened : OpenConnResponse → Result FrameError (Unit {0})
conn_opened OpenConnResponse.ok = ok tt
conn_opened (OpenConnResponse.failed reason) = err (conn_rejected reason)

-- An exchange: the bytes that were written, and what came of it. The bytes that arrive may answer
-- them.
pub record Exchange (A : Type 0) : Type 0 where
  pub sent : Bytes
  pub result : Result FrameError A

abbrev pub exchange :
    {A : Type 0}
    → Result FrameError Bytes
    → (Bytes → Result FrameError A)
    → (Bytes → Bytes)
    → Exchange A
exchange (err e) after arriving = record { sent = []; result = err e }
exchange (ok frame) after arriving = record { sent = frame; result = after (arriving frame) }

unfoldable pub client_send_session_hello :
    Codec SessionHello
    → Codec SessionHelloResponse
    → SessionHello
    → (Bytes → Bytes)
    → Exchange (List ℕ)
client_send_session_hello hellos replies hello arriving =
    exchange (write_framed hellos hello)
      (λ s. read_framed replies s >>= λ r. hello_ids (length hello.remotes) (r.0)) arriving

unfoldable pub send_open_conn :
    Codec OpenConn → Codec OpenConnResponse → OpenConn → (Bytes → Bytes) → Exchange (Unit {0})
send_open_conn opens replies open_conn arriving =
    exchange (write_framed opens open_conn) (λ s. read_framed replies s >>= λ r. conn_opened (r.0))
      arriving

-- `receive_open_conn`, `server_receive_session_hello` and the two replies are the frames themselves.
unfoldable pub server_receive_session_hello :
    Codec SessionHello → Bytes → Result FrameError SessionHello
server_receive_session_hello hellos s = map_ok (λ r. r.0) (read_framed hellos s)

unfoldable pub server_reply_session_hello :
    Codec SessionHelloResponse → SessionHelloResponse → Result FrameError Bytes
server_reply_session_hello replies response = write_framed replies response

unfoldable pub receive_open_conn : Codec OpenConn → Bytes → Result FrameError (OpenConn × Bytes)
receive_open_conn opens s = read_framed opens s

unfoldable pub reply_open_conn : Codec OpenConnResponse → OpenConnResponse → Result FrameError Bytes
reply_open_conn replies response = write_framed replies response
