-- ===== src/Config/Start/Safe.antt =====
-- What holds of every configuration that a client or a server starts with.
use rusnel.Base.{
  ℕ, ◌^◌, ◌<◌, ◌≡◌, ◌⊎◌, inl, inr, refl, arith, Bool, true, false, Option, none, some, List, [],
  ◌∷◌, Bytes, Result, ok, err, ok_or, map_ok, length, ltb, OnOk, OnOk-bind, OnOk-elim, ℤ, pos,
  negsuc, Bool-cases,
}
use rusnel.Net.Addr.{SocketAddr}
use rusnel.Remote.{RemoteRequest}
use rusnel.Proxy.{ProxyConfig}
use rusnel.Client.Addresses.{length-interleave_address_families}
use rusnel.Config.{unwrap_or}
use rusnel.Config.ClientSide.{
  ServerEndpoint, AddrError, found, parse_server_addr, host_of, ClientFlag, ClientCli,
  ClientSection, FileError, server_of, remotes_of, proxy_of, client_set_tls, merged_client,
  merge_client_with_file, max_retries_from_cli, in_file, bad_server,
}
use rusnel.Config.Start.{ClientConfig, StartError, client_config, require_remotes, tls_or, file_or}
use rusnel.Tls.{ClientTlsConfig, Embedded}
use rusnel.Tls.Mode.{TlsError, resolve_client_tls}
use rusnel.Tls.Mode.Choice.{Authenticates, resolve_client_tls-Authenticates}

-- The file does not ask for an insecure connection, or a flag of the command line about TLS rules
-- out that the file is asked.
abbrev pub FileIsSafe : (ClientFlag → Bool) → Option ClientSection → Type 0
FileIsSafe explicit none = Unit
FileIsSafe explicit (some file) =
    (client_set_tls explicit ≡ true) ⊎ (unwrap_or file.insecure false ≡ false)

-- A server of the command line has been through its parser.
abbrev pub FromParser : (Bytes → Option (List SocketAddr)) → Option ServerEndpoint → Type 0
FromParser resolve none = Unit
FromParser resolve (some e) = (s : Bytes) × (parse_server_addr resolve s ≡ ok e)

abbrev HasAddress : ServerEndpoint → Type 0
HasAddress e = 0 < length e.addrs

abbrev AllAddressed : Option ServerEndpoint → Type 0
AllAddressed none = Unit
AllAddressed (some e) = HasAddress e

abbrev WithinU32 : Option ℕ → Type 0
WithinU32 none = Unit
WithinU32 (some n) = n < 2 ^ 32

-- There is an address to connect to, a tunnel to open, the server is checked, and the retries fit.
pub record IsRunnable (c : ClientConfig) : Type 0 where
  pub has_address : HasAddress c.server
  pub has_remote : 0 < length c.remotes
  pub authenticates : Authenticates c.tls
  pub retries : WithinU32 c.reconnect.max_retries

found-HasAddress : (host : Bytes) (l : List SocketAddr) → OnOk HasAddress (found host l)
found-HasAddress host [] = tt
found-HasAddress host (a ∷ l) = omega (arith, length-interleave_address_families (a ∷ l))

parse_server_addr-HasAddress :
    (resolve : Bytes → Option (List SocketAddr)) (s : Bytes)
    → OnOk HasAddress (parse_server_addr resolve s)
unfolding parse_server_addr
parse_server_addr-HasAddress resolve s = OnOk-bind HasAddress (host_of s) _ (λ host e.
    OnOk-bind HasAddress (ok_or (resolve s) AddrError.unresolved) _
      (λ l f. found-HasAddress host l))

in_file-some :
    (r : Result AddrError ServerEndpoint)
    → OnOk HasAddress r
    → OnOk AllAddressed (map_ok some (in_file bad_server r))
in_file-some (ok e) h = h
in_file-some (err e) h = tt

from_parser :
    (resolve : Bytes → Option (List SocketAddr)) (o : Option ServerEndpoint)
    → FromParser resolve o
    → AllAddressed o
from_parser resolve none h = tt
from_parser resolve (some e) (s, h) =
    OnOk-elim HasAddress (parse_server_addr resolve s) (parse_server_addr-HasAddress resolve s) h

server_of-AllAddressed :
    (resolve : Bytes → Option (List SocketAddr)) (cli : Option ServerEndpoint) (file : Option Bytes)
    → FromParser resolve cli
    → OnOk AllAddressed (server_of resolve cli file)
server_of-AllAddressed resolve (some e) file h = from_parser resolve (some e) h
server_of-AllAddressed resolve none none h = tt
server_of-AllAddressed resolve none (some s) h =
    in_file-some (parse_server_addr resolve s) (parse_server_addr-HasAddress resolve s)

-- What the merge makes sure of.
abbrev IsMerged : ClientCli → Type 0
IsMerged m = AllAddressed m.server × (m.insecure ≡ false)

section-insecure :
    (cli : ClientCli) (file : ClientSection) (explicit : ClientFlag → Bool)
    (server : Option ServerEndpoint) (remotes : List RemoteRequest) (via : Option ProxyConfig)
    → cli.insecure ≡ false
    → FileIsSafe explicit (some file)
    → (merged_client cli file explicit server remotes via).insecure ≡ false
section-insecure cli file explicit server remotes via h (inl t) = ground (arith, h, t)
section-insecure cli file explicit server remotes via h (inr t) = ground (arith, h, t)

merge_client_with_file-IsMerged :
    (resolve : Bytes → Option (List SocketAddr)) (cli : ClientCli) (file : Option ClientSection)
    (explicit : ClientFlag → Bool)
    → FromParser resolve cli.server
    → cli.insecure ≡ false
    → FileIsSafe explicit file
    → OnOk IsMerged (merge_client_with_file resolve cli file explicit)
unfolding merge_client_with_file
merge_client_with_file-IsMerged resolve cli none explicit h i k =
    (from_parser resolve cli.server h, i)
merge_client_with_file-IsMerged resolve cli (some file) explicit h i k =
    OnOk-bind IsMerged (server_of resolve cli.server file.server) _ (λ server e.
      OnOk-bind IsMerged (remotes_of cli.remotes file.remotes) _ (λ remotes f.
        OnOk-bind IsMerged (proxy_of (explicit ClientFlag.proxy) cli.proxy file.proxy) _ (λ via g. (
          OnOk-elim AllAddressed (server_of resolve cli.server file.server)
              (server_of-AllAddressed resolve cli.server file.server h) e,
          section-insecure cli file explicit server remotes via i k,
        ))))

on_mode :
    (r : Result TlsError ClientTlsConfig)
    → ((c : ClientTlsConfig) → r ≡ ok c → Authenticates c)
    → OnOk Authenticates (tls_or r)
on_mode (ok c) h = h c refl
on_mode (err e) h = tt

tls_or-Authenticates :
    (insecure : Bool) (fp ca cert key name : Option Bytes) (embedded : Embedded)
    → insecure ≡ false
    → OnOk Authenticates (tls_or (resolve_client_tls insecure fp ca cert key name embedded))
tls_or-Authenticates true fp ca cert key name e h = cc
tls_or-Authenticates false fp ca cert key name e h =
    on_mode (resolve_client_tls false fp ca cert key name e)
      (λ c p. resolve_client_tls-Authenticates fp ca cert key name e p)

require_remotes-some :
    (rs : List RemoteRequest) → OnOk (λ (l : List RemoteRequest). 0 < length l) (require_remotes rs)
require_remotes-some [] = tt
require_remotes-some (r ∷ rs) = omega arith

max_retries_from_cli-WithinU32 :
    (n : ℤ) → OnOk WithinU32 (ok_or (max_retries_from_cli n) StartError.too_many_retries)
unfolding max_retries_from_cli
max_retries_from_cli-WithinU32 (negsuc n) = tt
max_retries_from_cli-WithinU32 (pos n) = elim (Bool-cases (ltb n (2 ^ 32))) [
  | inl t ↦ rw t (ground (arith, t))
  | inr f ↦ rw f tt
]

file_or-IsMerged : (r : Result FileError ClientCli) → OnOk IsMerged r → OnOk IsMerged (file_or r)
file_or-IsMerged (ok m) h = h
file_or-IsMerged (err e) h = tt

ok_or-HasAddress :
    (o : Option ServerEndpoint)
    → AllAddressed o
    → OnOk HasAddress (ok_or o StartError.missing_server)
ok_or-HasAddress none h = tt
ok_or-HasAddress (some e) h = h

-- A client that starts has an address of its server and a declaration to open, and a limit of
-- retries, if any, below 2^32; and it checks the server's certificate by digest or CA, if
-- `--insecure` is not given and the file does not ask for it either, or a TLS flag on the command line
-- shuts out what the file says of TLS. A server that stands on the command line has been parsed.
pub client_config-IsRunnable :
    (resolve : Bytes → Option (List SocketAddr)) (flags : ClientCli) (file : Option ClientSection)
    (explicit : ClientFlag → Bool) (embedded : Embedded) {c : ClientConfig}
    → FromParser resolve flags.server
    → flags.insecure ≡ false
    → FileIsSafe explicit file
    → client_config resolve flags file explicit embedded ≡ ok c
    → IsRunnable c
unfolding client_config
client_config-IsRunnable resolve flags file explicit embedded h i k =
    let merge = merge_client_with_file resolve flags file explicit in
    OnOk-elim IsRunnable _ (
      OnOk-bind IsRunnable (file_or merge) _ (λ m e.
        let (addressed, secure) =
          OnOk-elim IsMerged (file_or merge)
            (file_or-IsMerged merge
              (merge_client_with_file-IsMerged resolve flags file explicit h i k))
            e in
        OnOk-bind IsRunnable (ok_or m.server StartError.missing_server) _ (λ server f.
          OnOk-bind IsRunnable (require_remotes m.remotes) _ (λ remotes g.
            OnOk-bind IsRunnable
              (tls_or (
                resolve_client_tls m.insecure m.tls_fingerprint m.tls_ca m.tls_cert m.tls_key
                  m.tls_server_name embedded))
              _
              (λ tls p.
                OnOk-bind IsRunnable
                  (ok_or (max_retries_from_cli m.max_retry_count) StartError.too_many_retries) _
                  (λ retries q. record {
                    has_address = OnOk-elim HasAddress _ (ok_or-HasAddress m.server addressed) f;
                    has_remote =
                        OnOk-elim (λ (l : List RemoteRequest). 0 < length l) _
                          (require_remotes-some m.remotes) g;
                    authenticates =
                        OnOk-elim Authenticates _
                          (tls_or-Authenticates m.insecure m.tls_fingerprint m.tls_ca m.tls_cert
                            m.tls_key m.tls_server_name embedded secure)
                          p;
                    retries =
                        OnOk-elim WithinU32 _ (max_retries_from_cli-WithinU32 m.max_retry_count) q;
                  }))))))
