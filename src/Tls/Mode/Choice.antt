-- ===== src/Tls/Mode/Choice.antt =====
-- No mode is weaker than what was asked for.
use rusnel.Base.{
  OnOk, OnOk-elim, ◌≡◌, refl, arith, false, Option, none, some, Bytes, Result, ok, err,
}
use rusnel.Config.{or_else}
use rusnel.Tls.{ServerTlsConfig, ClientTlsConfig, Embedded}
use rusnel.Tls.Fingerprint.{FingerprintError, parse_fingerprint}
use rusnel.Tls.Mode.{
  TlsError, embedded_server, resolve_server_tls, with_ca, pinned, embedded_client,
  resolve_client_tls,
}

-- What a client that connects in this mode knows of the server.
pub data Authenticates : ClientTlsConfig → Type 0 where
  by_digest :
      (sha256 : Bytes) (name : Option Bytes)
      → Authenticates (ClientTlsConfig.fingerprint sha256 name)
  by_ca : (ca : Bytes) (name : Option Bytes) → Authenticates (ClientTlsConfig.ca ca name)
  by_ca_mutual :
      (ca cert key : Bytes) (name : Option Bytes)
      → Authenticates (ClientTlsConfig.mtls ca cert key name)

pinned_ok :
    (f : FingerprintError → TlsError) (name : Option Bytes) (r : Result FingerprintError Bytes)
    → OnOk Authenticates (pinned f name r)
pinned_ok f name (ok sha256) = by_digest sha256 name
pinned_ok f name (err e) = tt

with_ca-Authenticates :
    (ca : Bytes) (cert key name : Option Bytes) → Authenticates (with_ca ca cert key name)
with_ca-Authenticates ca (some cert) (some key) name = by_ca_mutual ca cert key name
with_ca-Authenticates ca (some cert) none name = by_ca ca name
with_ca-Authenticates ca none key name = by_ca ca name

embedded_ok :
    (ca fp cert key name : Option Bytes)
    → OnOk Authenticates (elim ca [
      | some c ↦ ok (with_ca c cert key name)
      | none ↦ elim fp [
        | some f ↦ pinned TlsError.bad_embedded_fingerprint name (parse_fingerprint f)
        | none ↦ err TlsError.no_mode
      ]
    ])
embedded_ok (some c) fp cert key name = with_ca-Authenticates c cert key name
embedded_ok none (some f) cert key name =
    pinned_ok TlsError.bad_embedded_fingerprint name (parse_fingerprint f)
embedded_ok none none cert key name = tt

explicit_ok :
    (tls_fingerprint tls_ca tls_cert tls_key tls_server_name : Option Bytes) (embedded : Embedded)
    → OnOk Authenticates
        (resolve_client_tls false tls_fingerprint tls_ca tls_cert tls_key tls_server_name embedded)
unfolding resolve_client_tls embedded_client
explicit_ok (some raw) tls_ca tls_cert tls_key name e =
    pinned_ok TlsError.bad_fingerprint _ (parse_fingerprint raw)
explicit_ok none (some ca) tls_cert tls_key name e = with_ca-Authenticates ca tls_cert tls_key _
explicit_ok none none tls_cert tls_key name e =
    embedded_ok e.ca e.fingerprint e.client_cert e.client_key (or_else name e.server_name)

-- Without `--insecure`, a client that gets a mode at all checks the server, by its digest or by a
-- CA, whatever flags and credentials of the build there are.
pub resolve_client_tls-Authenticates :
    (tls_fingerprint tls_ca tls_cert tls_key tls_server_name : Option Bytes) (embedded : Embedded)
    {c : ClientTlsConfig}
    → resolve_client_tls false tls_fingerprint tls_ca tls_cert tls_key tls_server_name embedded
      ≡ ok c
    → Authenticates c
resolve_client_tls-Authenticates fp ca cert key name e h =
    OnOk-elim Authenticates (resolve_client_tls false fp ca cert key name e)
      (explicit_ok fp ca cert key name e) h

-- A CA next to a certificate with its key asks every client for a certificate.
pub resolve_server_tls-mtls :
    (cert key ca : Bytes) (tls_state_dir home : Option Bytes) (embedded : Embedded)
    → resolve_server_tls false false tls_state_dir (some cert) (some key) (some ca) home embedded
      ≡ ok (ServerTlsConfig.mtls cert key ca)
unfolding resolve_server_tls
resolve_server_tls-mtls cert key ca tls_state_dir home embedded = refl

-- A CA without a certificate of its own is dropped when the build has a server certificate, its
-- key and no CA: no client is asked for a certificate.
pub resolve_server_tls_drops_ca :
    (ca cert key : Bytes) (tls_state_dir home : Option Bytes) (embedded : Embedded)
    → embedded.server_cert ≡ some cert
    → embedded.server_key ≡ some key
    → embedded.ca ≡ none
    → resolve_server_tls false false tls_state_dir none none (some ca) home embedded
      ≡ ok (ServerTlsConfig.provided cert key)
unfolding resolve_server_tls embedded_server
resolve_server_tls_drops_ca ca cert key tls_state_dir home embedded c k a = ground (arith, c, k, a)
