-- ===== src/Config/Start.antt =====
-- What `main` of src/main.rs makes of the merged flags before it starts a server or a client.
pub mod Safe
use rusnel.Base.{
  ℕ, ◌≡◌, Bool, true, false, Option, none, some, List, [], ◌∷◌, Bytes, ◌==◌, if◌then◌else◌, Result,
  ok, err, ◌>>=◌, ok_or,
}
use rusnel.Net.Addr.{IpAddr, SocketAddr}
use rusnel.Remote.{RemoteRequest}
use rusnel.Proxy.{ProxyConfig}
use rusnel.Client.Reconnect.{ReconnectConfig}
use rusnel.Config.{CongestionArg, Flag, ServerCli, ServerSection, merge_server_with_file, unwrap_or}
use rusnel.Config.ClientSide.{
  ServerEndpoint, ClientFlag, ClientCli, ClientSection, FileError, merge_client_with_file,
  max_retries_from_cli,
}
use rusnel.Tls.{ServerTlsConfig, ClientTlsConfig, Embedded}
use rusnel.Tls.Mode.{TlsError, resolve_server_tls, resolve_client_tls}

pub record ServerConfig : Type 0 where
  pub host : IpAddr
  pub port : ℕ
  pub allow_reverse : Bool
  pub allow_socks : Bool
  pub tls : ServerTlsConfig
  pub congestion : CongestionArg
  pub max_connections : Option ℕ
  pub admin_socket : Option Bytes

pub record ClientConfig : Type 0 where
  pub server : ServerEndpoint
  pub remotes : List RemoteRequest
  pub tls : ClientTlsConfig
  pub congestion : CongestionArg
  pub reconnect : ReconnectConfig
  pub proxy : Option ProxyConfig

pub data StartError : Type 0 where
  bad_file : FileError → StartError
  missing_server no_remotes too_many_retries : StartError
  no_tls : TlsError → StartError

abbrev pub limit_of : ℕ → Option ℕ
limit_of n = if n == 0 then none else some n

-- On Unix. `home` is the home directory and `socket` the default path of the admin socket.
abbrev pub admin_socket_of : Bool → Option Bytes → Bytes → Option Bytes
admin_socket_of no_admin_socket path socket =
    if no_admin_socket then none else some (unwrap_or path socket)

module _ {A : Type 0} where
  abbrev pub tls_or : Result TlsError A → Result StartError A
  tls_or (ok a) = ok a
  tls_or (err e) = err (no_tls e)

  abbrev pub file_or : Result FileError A → Result StartError A
  file_or (ok a) = ok a
  file_or (err e) = err (bad_file e)

unfoldable pub server_config :
    ServerCli
    → Option ServerSection
    → (Flag → Bool)
    → Option Bytes
    → Bytes
    → Embedded
    → Result StartError ServerConfig
server_config flags file explicit home socket embedded = do
  let m = merge_server_with_file flags file explicit
  tls ← tls_or (
      resolve_server_tls m.insecure m.tls_self_signed m.tls_state_dir m.tls_cert m.tls_key m.tls_ca
        home embedded)
  ok (record {
    host = m.host;
    port = m.port;
    allow_reverse = m.allow_reverse;
    allow_socks = m.allow_socks;
    tls = tls;
    congestion = m.congestion;
    max_connections = limit_of m.max_connections;
    admin_socket = admin_socket_of m.no_admin_socket m.admin_socket socket;
  })

-- `ReconnectConfig::default().initial_backoff`: 200 milliseconds, in nanoseconds.
abbrev pub default_initial_backoff : ℕ
default_initial_backoff = 200000000

abbrev pub require_remotes : List RemoteRequest → Result StartError (List RemoteRequest)
require_remotes [] = err no_remotes
require_remotes (r ∷ rs) = ok (r ∷ rs)

unfoldable pub client_config :
    (Bytes → Option (List SocketAddr))
    → ClientCli
    → Option ClientSection
    → (ClientFlag → Bool)
    → Embedded
    → Result StartError ClientConfig
client_config resolve flags file explicit embedded = do
  m ← file_or (merge_client_with_file resolve flags file explicit)
  server ← ok_or m.server missing_server
  remotes ← require_remotes m.remotes
  tls ← tls_or (
      resolve_client_tls m.insecure m.tls_fingerprint m.tls_ca m.tls_cert m.tls_key
        m.tls_server_name embedded)
  max_retries ← ok_or (max_retries_from_cli m.max_retry_count) too_many_retries
  ok (record {
    server = server;
    remotes = remotes;
    tls = tls;
    congestion = m.congestion;
    reconnect = record {
      max_retries = max_retries;
      initial_backoff = default_initial_backoff;
      max_backoff = m.max_retry_interval;
    };
    proxy = m.proxy;
  })
