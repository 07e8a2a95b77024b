-- ===== src/Remote.antt =====
-- src/common/remote.rs: tunnel declarations and their accessors. The parser is in Tokens and
-- Parse, the printed forms are in Display.
pub mod Tokens
pub mod Parse
pub mod Display
use rusnel.Base.{ℕ, ◌<◌, Bool, true, false, Option, none, some, Bytes, List}
use rusnel.Net.Addr.{SocketAddr, IsSocketAddr}

pub data Protocol : Type 0 where
  tcp udp : Protocol

pub data Direction : Type 0 where
  forward reverse : Direction

-- The host as the user typed it.
pub record HostPort : Type 0 where
  pub host : Bytes
  pub port : ℕ

pub data RemoteKind : Type 0 where
  tcp udp : SocketAddr → HostPort → RemoteKind
  socks5 : SocketAddr → RemoteKind

pub record RemoteRequest : Type 0 where
  pub direction : Direction
  pub kind : RemoteKind
  pub stdio : Bool

unfoldable pub kind_local : RemoteKind → SocketAddr
kind_local (RemoteKind.tcp addr _) = addr
kind_local (RemoteKind.udp addr _) = addr
kind_local (RemoteKind.socks5 addr) = addr

unfoldable pub kind_protocol : RemoteKind → Option Protocol
kind_protocol (RemoteKind.tcp _ _) = some Protocol.tcp
kind_protocol (RemoteKind.udp _ _) = some Protocol.udp
kind_protocol (RemoteKind.socks5 _) = none

-- `RemoteRequest::new`
abbrev pub new_request : Direction → RemoteKind → RemoteRequest
new_request d k = record { direction = d; kind = k; stdio = false }

abbrev kind_is_socks : RemoteKind → Bool
kind_is_socks (RemoteKind.socks5 _) = true
kind_is_socks _ = false

abbrev direction_is_reverse : Direction → Bool
direction_is_reverse reverse = true
direction_is_reverse forward = false

unfoldable pub is_socks : RemoteRequest → Bool
is_socks r = kind_is_socks r.kind

unfoldable pub is_reversed : RemoteRequest → Bool
is_reversed r = direction_is_reverse r.direction

abbrev pub local_socket_addr : RemoteRequest → SocketAddr
local_socket_addr r = kind_local r.kind

-- The first frame of a session, and the reply.
pub record SessionHello : Type 0 where
  pub remotes : List RemoteRequest

pub data SessionHelloResponse : Type 0 where
  ok : List ℕ → SessionHelloResponse
  failed : Bytes → SessionHelloResponse

pub data DynamicTarget : Type 0 where
  tcp udp : HostPort → DynamicTarget

-- The frame that opens a data stream, and the reply.
pub record OpenConn : Type 0 where
  pub tunnel_id : ℕ
  pub dynamic : Option DynamicTarget

pub data OpenConnResponse : Type 0 where
  ok : OpenConnResponse
  failed : Bytes → OpenConnResponse
