-- ===== src/Tls.antt =====
-- TLS modes and pinned certificates: src/common/tls.rs, the verifier of src/common/quic.rs, and the
-- choice of a mode in src/main.rs.
pub mod Fingerprint
pub mod Mode
use rusnel.Base.{Bytes, Option, none, some}

-- A path is its bytes.
pub data ServerTlsConfig : Type 0 where
  insecure : ServerTlsConfig
  self_signed : Bytes → ServerTlsConfig
  provided : Bytes → Bytes → ServerTlsConfig
  mtls : Bytes → Bytes → Bytes → ServerTlsConfig

-- The digest, and the server name that overrides the host.
pub data ClientTlsConfig : Type 0 where
  insecure : ClientTlsConfig
  fingerprint : Bytes → Option Bytes → ClientTlsConfig
  ca : Bytes → Option Bytes → ClientTlsConfig
  mtls : Bytes → Bytes → Bytes → Option Bytes → ClientTlsConfig

-- Where the credentials of the build stand on the disk, and the constants of the build.
pub record Embedded : Type 0 where
  pub ca : Option Bytes
  pub server_cert : Option Bytes
  pub server_key : Option Bytes
  pub client_cert : Option Bytes
  pub client_key : Option Bytes
  pub fingerprint : Option Bytes
  pub server_name : Option Bytes
