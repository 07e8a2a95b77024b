-- ===== src/Config/ClientSide.antt =====
-- The configuration of a client: the address of its server, its flags and the `[client]` section of
-- a file, merged (src/main.rs). The resolver of names is an argument.
use rusnel.Base.{
  ℕ, ◌*◌, ◌-◌, ◌^◌, Bool, true, false, ◌||◌, Option, none, some, List, [], ◌∷◌, Bytes, ltb,
  if◌then◌else◌, Result, ok, err, ◌>>=◌, ok_or, map_ok, ℤ, pos, negsuc,
}
use rusnel.Text.{text, strip_prefix, split_once, rsplit_once}
use rusnel.Net.Number.{parse_uint}
use rusnel.Net.Addr.{SocketAddr}
use rusnel.Remote.{RemoteRequest}
use rusnel.Remote.Tokens.{RemoteError}
use rusnel.Remote.Parse.{from_str}
use rusnel.Proxy.{ProxyConfig, ProxyError, parse_proxy}
use rusnel.Client.{interleave_address_families}
use rusnel.Config.{CongestionArg, LogFormat, pick, or_else, unwrap_or, map_some}

pub record ServerEndpoint : Type 0 where
  pub addrs : List SocketAddr
  pub host : Bytes

pub data AddrError : Type 0 where
  no_bracket no_port unresolved no_addresses : AddrError

-- The text in front of `]`, if a bracket starts it, or else in front of the last `:`.
unfoldable pub host_of : Bytes → Result AddrError Bytes
host_of s = elim (strip_prefix (text "[") s) [
  | some rest ↦ elim (split_once b']' rest) [ none ↦ err no_bracket | some (host, _) ↦ ok host ]
  | none ↦ elim (rsplit_once b':' s) [ none ↦ err no_port | some (host, _) ↦ ok host ]
]

abbrev pub found : Bytes → List SocketAddr → Result AddrError ServerEndpoint
found host [] = err no_addresses
found host (a ∷ as') = ok (record { addrs = interleave_address_families (a ∷ as'); host = host })

-- `resolve` is `to_socket_addrs`.
unfoldable pub parse_server_addr :
    (Bytes → Option (List SocketAddr)) → Bytes → Result AddrError ServerEndpoint
parse_server_addr resolve s = do
  host ← host_of s
  resolved ← ok_or (resolve s) unresolved
  found host resolved

-- Whole seconds, in nanoseconds.
abbrev pub from_secs : ℕ → ℕ
from_secs secs = secs * 1000000000

unfoldable pub parse_duration_secs : Bytes → Option ℕ
parse_duration_secs s = elim (parse_uint (2 ^ 64 - 1) s) [
  | none ↦ none
  | some secs ↦ some (from_secs secs)
]

-- A negative count is no limit.
unfoldable pub max_retries_from_cli : ℤ → Option (Option ℕ)
max_retries_from_cli (negsuc n) = some none
max_retries_from_cli (pos n) = if ltb n (2 ^ 32) then some (some n) else none

pub data ClientFlag : Type 0 where
  insecure tls_fingerprint tls_ca tls_cert tls_key tls_server_name : ClientFlag
  congestion max_retry_count max_retry_interval proxy is_verbose is_debug is_quiet log_format :
      ClientFlag

pub record ClientCli : Type 0 where
  pub server : Option ServerEndpoint
  pub remotes : List RemoteRequest
  pub insecure : Bool
  pub tls_fingerprint : Option Bytes
  pub tls_ca : Option Bytes
  pub tls_cert : Option Bytes
  pub tls_key : Option Bytes
  pub tls_server_name : Option Bytes
  pub congestion : CongestionArg
  pub max_retry_count : ℤ
  pub max_retry_interval : ℕ
  pub proxy : Option ProxyConfig
  pub is_verbose : Bool
  pub is_debug : Bool
  pub is_quiet : Bool
  pub log_format : LogFormat

pub record ClientSection : Type 0 where
  pub server : Option Bytes
  pub remotes : Option (List Bytes)
  pub insecure : Option Bool
  pub tls_fingerprint : Option Bytes
  pub tls_ca : Option Bytes
  pub tls_cert : Option Bytes
  pub tls_key : Option Bytes
  pub tls_server_name : Option Bytes
  pub congestion : Option CongestionArg
  pub max_retry_count : Option ℤ
  pub max_retry_interval : Option ℕ
  pub proxy : Option Bytes
  pub log_format : Option LogFormat
  pub verbose : Option Bool
  pub debug : Option Bool
  pub quiet : Option Bool

-- What is wrong with the file.
pub data FileError : Type 0 where
  bad_server : AddrError → FileError
  bad_remote : RemoteError → FileError
  bad_proxy : ProxyError → FileError

module _ {A E : Type 0} (f : E → FileError) where
  -- `map_err`
  abbrev pub in_file : Result E A → Result FileError A
  in_file (ok a) = ok a
  in_file (err e) = err (f e)

abbrev pub server_of :
    (Bytes → Option (List SocketAddr))
    → Option ServerEndpoint
    → Option Bytes
    → Result FileError (Option ServerEndpoint)
server_of resolve (some s) file = ok (some s)
server_of resolve none none = ok none
server_of resolve none (some s) = map_ok some (in_file bad_server (parse_server_addr resolve s))

-- The first entry that does not parse decides.
abbrev pub parse_all : List Bytes → Result FileError (List RemoteRequest)
parse_all [] = ok []
parse_all (r ∷ rs) = do
  request ← in_file bad_remote (from_str r)
  requests ← parse_all rs
  ok (request ∷ requests)

abbrev pub remotes_of :
    List RemoteRequest → Option (List Bytes) → Result FileError (List RemoteRequest)
remotes_of (r ∷ rs) file = ok (r ∷ rs)
remotes_of [] none = ok []
remotes_of [] (some list) = parse_all list

abbrev pub proxy_of :
    Bool → Option ProxyConfig → Option Bytes → Result FileError (Option ProxyConfig)
proxy_of true cli file = ok cli
proxy_of false cli none = ok cli
proxy_of false cli (some s) = map_ok some (in_file bad_proxy (parse_proxy s))

abbrev seconds : Option ℕ → Option ℕ
seconds none = none
seconds (some secs) = some (from_secs secs)

abbrev pub client_set_tls : (ClientFlag → Bool) → Bool
client_set_tls explicit =
    explicit ClientFlag.insecure
    || explicit ClientFlag.tls_fingerprint
    || explicit ClientFlag.tls_ca
    || explicit ClientFlag.tls_cert
    || explicit ClientFlag.tls_key

abbrev pub merged_client :
    ClientCli
    → ClientSection
    → (ClientFlag → Bool)
    → Option ServerEndpoint
    → List RemoteRequest
    → Option ProxyConfig
    → ClientCli
merged_client cli file explicit server remotes via =
    let tls = client_set_tls explicit in
    record {
      server = server;
      remotes = remotes;
      insecure = if tls then cli.insecure else unwrap_or file.insecure cli.insecure;
      tls_fingerprint =
          if tls then cli.tls_fingerprint else or_else file.tls_fingerprint cli.tls_fingerprint;
      tls_ca = if tls then cli.tls_ca else or_else file.tls_ca cli.tls_ca;
      tls_cert = if tls then cli.tls_cert else or_else file.tls_cert cli.tls_cert;
      tls_key = if tls then cli.tls_key else or_else file.tls_key cli.tls_key;
      tls_server_name =
          pick cli.tls_server_name (explicit ClientFlag.tls_server_name)
            (map_some file.tls_server_name);
      congestion = pick cli.congestion (explicit ClientFlag.congestion) file.congestion;
      max_retry_count =
          pick cli.max_retry_count (explicit ClientFlag.max_retry_count) file.max_retry_count;
      max_retry_interval =
          pick cli.max_retry_interval (explicit ClientFlag.max_retry_interval)
            (seconds file.max_retry_interval);
      proxy = via;
      is_verbose = pick cli.is_verbose (explicit ClientFlag.is_verbose) file.verbose;
      is_debug = pick cli.is_debug (explicit ClientFlag.is_debug) file.debug;
      is_quiet = pick cli.is_quiet (explicit ClientFlag.is_quiet) file.quiet;
      log_format = pick cli.log_format (explicit ClientFlag.log_format) file.log_format;
    }

unfoldable pub merge_client_with_file :
    (Bytes → Option (List SocketAddr))
    → ClientCli
    → Option ClientSection
    → (ClientFlag → Bool)
    → Result FileError ClientCli
merge_client_with_file resolve cli none explicit = ok cli
merge_client_with_file resolve cli (some file) explicit = do
  server ← server_of resolve cli.server file.server
  remotes ← remotes_of cli.remotes file.remotes
  via ← proxy_of (explicit ClientFlag.proxy) cli.proxy file.proxy
  ok (merged_client cli file explicit server remotes via)
