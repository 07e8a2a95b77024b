-- ===== src/Tests/Start.antt =====
-- A run of the configuration of a client (src/main.rs).
use rusnel.Base.{
  Bool, inl, ◌≡◌, refl, false, true, none, some, List, [], ◌∷◌, Bytes, Option, ok, pos,
}
use rusnel.Text.{text, split_once, rsplit_once}
use rusnel.Net.Ipv4
use rusnel.Net.Addr.{v4, SocketAddr}
use rusnel.Remote.{RemoteRequest, forward, RemoteKind}
use rusnel.Client.{interleave_address_families, by_family, alternate}
use rusnel.Config.{CongestionArg, LogFormat, pick}
use rusnel.Config.ClientSide.{
  ServerEndpoint, ClientCli, ClientSection, ClientFlag, parse_server_addr, host_of,
  merge_client_with_file, max_retries_from_cli,
}
use rusnel.Config.Start.{ClientConfig, client_config, default_initial_backoff}
use rusnel.Config.Start.Safe.{IsRunnable, client_config-IsRunnable}
use rusnel.Tls.{ClientTlsConfig, Embedded}
use rusnel.Tls.Mode.{resolve_client_tls}

abbrev addr : SocketAddr
addr = record { ip = v4 Ipv4.localhost; port = 8080 }

abbrev resolve : Bytes → Option (List SocketAddr)
resolve s = some (addr ∷ [])

abbrev endpoint : ServerEndpoint
endpoint = record { addrs = addr ∷ []; host = text "localhost" }

endpoint_parsed : parse_server_addr resolve (text "localhost:8080") ≡ ok endpoint
unfolding parse_server_addr host_of split_once rsplit_once interleave_address_families by_family
    alternate
endpoint_parsed = refl

abbrev web : RemoteRequest
web = record {
  direction = forward;
  kind = RemoteKind.tcp addr (record { host = text "web"; port = 80 });
  stdio = false;
}

abbrev flags : ClientCli
flags = record {
  server = some endpoint;
  remotes = web ∷ [];
  insecure = false;
  tls_fingerprint = none;
  tls_ca = some (text "/ca.pem");
  tls_cert = none;
  tls_key = none;
  tls_server_name = none;
  congestion = CongestionArg.cubic;
  max_retry_count = pos 3;
  max_retry_interval = 300000000000;
  proxy = none;
  is_verbose = false;
  is_debug = false;
  is_quiet = false;
  log_format = LogFormat.compact;
}

-- The file asks for an insecure connection; the flag `--tls-ca` shuts that out.
abbrev file_section : ClientSection
file_section = record {
  server = none;
  remotes = none;
  insecure = some true;
  tls_fingerprint = none;
  tls_ca = none;
  tls_cert = none;
  tls_key = none;
  tls_server_name = none;
  congestion = none;
  max_retry_count = none;
  max_retry_interval = none;
  proxy = none;
  log_format = none;
  verbose = none;
  debug = none;
  quiet = none;
}

abbrev typed : ClientFlag → Bool
typed ClientFlag.tls_ca = true
typed _ = false

abbrev no_embedded : Embedded
no_embedded = record {
  ca = none;
  server_cert = none;
  server_key = none;
  client_cert = none;
  client_key = none;
  fingerprint = none;
  server_name = none;
}

abbrev started : ClientConfig
started = record {
  server = endpoint;
  remotes = web ∷ [];
  tls = ClientTlsConfig.ca (text "/ca.pem") none;
  congestion = CongestionArg.cubic;
  reconnect = record {
    max_retries = some 3;
    initial_backoff = default_initial_backoff;
    max_backoff = 300000000000;
  };
  proxy = none;
}

starts : client_config resolve flags (some file_section) typed no_embedded ≡ ok started
unfolding client_config merge_client_with_file pick resolve_client_tls max_retries_from_cli
starts = refl

client_config-IsRunnable_example : IsRunnable started
client_config-IsRunnable_example =
    client_config-IsRunnable resolve flags (some file_section) typed no_embedded {c = started}
      (text "localhost:8080", endpoint_parsed) refl (inl refl) starts
