-- ===== src/Tls/Mode.antt =====
-- The choice of a TLS mode from the flags and the credentials of the build: `resolve_server_tls`
-- and `resolve_client_tls` of src/main.rs, and `client_server_name` of src/common/quic.rs.
pub mod Choice
use rusnel.Base.{
  ◌==◌, ℕ, ◌≡◌, Bool, true, false, Option, none, some, List, [], ◌∷◌, ◌++◌, Bytes, length, ltb,
  if◌then◌else◌, Result, ok, err, ◌>>=◌,
}
use rusnel.Text.{text}
use rusnel.Config.{or_else, unwrap_or}
use rusnel.Tls.{ServerTlsConfig, ClientTlsConfig, Embedded}
use rusnel.Tls.Fingerprint.{FingerprintError, parse_fingerprint}

pub data TlsError : Type 0 where
  no_home no_mode : TlsError
  bad_fingerprint bad_embedded_fingerprint : FingerprintError → TlsError

abbrev ends_with_slash : Bytes → Bool
ends_with_slash [] = true
ends_with_slash (b ∷ []) = b == b'/'
ends_with_slash (b ∷ c ∷ s) = ends_with_slash (c ∷ s)

-- `Path::join` with a relative name.
abbrev pub join_path : Bytes → Bytes → Bytes
join_path dir name = if ends_with_slash dir then dir ++ name else dir ++ (b'/' ∷ name)

-- `home` is what `dirs::home_dir` says.
unfoldable pub default_state_dir : Option Bytes → Result TlsError Bytes
default_state_dir none = err no_home
default_state_dir (some home) = ok (join_path home (text ".rusnel"))

abbrev pub with_cert : Bytes → Bytes → Option Bytes → ServerTlsConfig
with_cert cert key (some ca) = ServerTlsConfig.mtls cert key ca
with_cert cert key none = ServerTlsConfig.provided cert key

-- The credentials of the build, if there are any.
unfoldable pub embedded_server : Embedded → Result TlsError ServerTlsConfig
embedded_server e = elim e.server_cert [
  | none ↦ err no_mode
  | some cert ↦ elim e.server_key [ none ↦ err no_mode | some key ↦ ok (with_cert cert key e.ca) ]
]

-- A certificate with its key, or else what the build has.
abbrev pub given_cert :
    Option Bytes
    → Option Bytes
    → Option Bytes
    → Result TlsError ServerTlsConfig
    → Result TlsError ServerTlsConfig
given_cert (some cert) (some key) ca otherwise = ok (with_cert cert key ca)
given_cert _ _ ca otherwise = otherwise

abbrev pub state_dir_or : Option Bytes → Option Bytes → Result TlsError Bytes
state_dir_or (some dir) home = ok dir
state_dir_or none home = default_state_dir home

unfoldable pub resolve_server_tls :
    Bool
    → Bool
    → Option Bytes
    → Option Bytes
    → Option Bytes
    → Option Bytes
    → Option Bytes
    → Embedded
    → Result TlsError ServerTlsConfig
resolve_server_tls insecure tls_self_signed tls_state_dir tls_cert tls_key tls_ca home embedded =
    if insecure
    then ok ServerTlsConfig.insecure
    else if tls_self_signed
    then (state_dir_or tls_state_dir home >>= λ dir. ok (ServerTlsConfig.self_signed dir))
    else given_cert tls_cert tls_key tls_ca (embedded_server embedded)

-- Mutual TLS if there is a certificate with its key.
abbrev pub with_ca : Bytes → Option Bytes → Option Bytes → Option Bytes → ClientTlsConfig
with_ca ca (some cert) (some key) name = ClientTlsConfig.mtls ca cert key name
with_ca ca _ _ name = ClientTlsConfig.ca ca name

abbrev pub pinned :
    (FingerprintError → TlsError)
    → Option Bytes
    → Result FingerprintError Bytes
    → Result TlsError ClientTlsConfig
pinned f name (err e) = err (f e)
pinned f name (ok sha256) = ok (ClientTlsConfig.fingerprint sha256 name)

-- The CA of the build, then its fingerprint.
unfoldable pub embedded_client : Embedded → Option Bytes → Result TlsError ClientTlsConfig
embedded_client e name = elim e.ca [
  | some ca ↦ ok (with_ca ca e.client_cert e.client_key name)
  | none ↦ elim e.fingerprint [
    | some fp ↦ pinned bad_embedded_fingerprint name (parse_fingerprint fp)
    | none ↦ err no_mode
  ]
]

unfoldable pub resolve_client_tls :
    Bool
    → Option Bytes
    → Option Bytes
    → Option Bytes
    → Option Bytes
    → Option Bytes
    → Embedded
    → Result TlsError ClientTlsConfig
resolve_client_tls insecure tls_fingerprint tls_ca tls_cert tls_key tls_server_name embedded =
    let name = or_else tls_server_name embedded.server_name in
    if insecure then ok ClientTlsConfig.insecure else elim tls_fingerprint [
      | some raw ↦ pinned bad_fingerprint name (parse_fingerprint raw)
      | none ↦ elim tls_ca [
        | some ca ↦ ok (with_ca ca tls_cert tls_key name)
        | none ↦ embedded_client embedded name
      ]
    ]

unfoldable pub client_server_name : ClientTlsConfig → Bytes → Bytes
client_server_name ClientTlsConfig.insecure host = host
client_server_name (ClientTlsConfig.fingerprint sha256 name) host = unwrap_or name host
client_server_name (ClientTlsConfig.ca ca name) host = unwrap_or name host
client_server_name (ClientTlsConfig.mtls ca cert key name) host = unwrap_or name host

-- `argv` with the arguments of the build, if it has any and none were given. `program` is the
-- package's name.
unfoldable pub resolve_argv : Bytes → Option (List Bytes) → List Bytes → List Bytes
resolve_argv program embedded (a ∷ b ∷ raw) = a ∷ b ∷ raw
resolve_argv program none raw = raw
resolve_argv program (some args) [] = program ∷ args
resolve_argv program (some args) (a ∷ []) = a ∷ args
