-- ===== src/Config.antt =====
-- The configuration of a server: its flags and the `[server]` section of a file, merged
-- (src/main.rs, src/config_file.rs). clap, which says which flags stand on the command line, and
-- the TOML reader are third-party: `explicit` and the section are arguments.
pub mod ClientSide
pub mod Start
pub mod Override
use rusnel.Base.{
  ℕ, ◌≡◌, Bool, true, false, ◌||◌, Option, none, some, map, List, Bytes, if◌then◌else◌,
}
use rusnel.Net.Addr.{IpAddr}

pub data CongestionArg : Type 0 where
  cubic bbr : CongestionArg

pub data LogFormat : Type 0 where
  compact json : LogFormat

pub data Flag : Type 0 where
  host port allow_reverse allow_socks insecure tls_self_signed tls_state_dir tls_cert tls_key
        tls_ca :
      Flag
  congestion max_connections admin_socket no_admin_socket is_verbose is_debug is_quiet log_format :
      Flag

pub record ServerCli : Type 0 where
  pub host : IpAddr
  pub port : ℕ
  pub allow_reverse : Bool
  pub allow_socks : Bool
  pub insecure : Bool
  pub tls_self_signed : Bool
  pub tls_state_dir : Option Bytes
  pub tls_cert : Option Bytes
  pub tls_key : Option Bytes
  pub tls_ca : Option Bytes
  pub congestion : CongestionArg
  pub max_connections : ℕ
  pub admin_socket : Option Bytes
  pub no_admin_socket : Bool
  pub is_verbose : Bool
  pub is_debug : Bool
  pub is_quiet : Bool
  pub log_format : LogFormat

pub record ServerSection : Type 0 where
  pub host : Option IpAddr
  pub port : Option ℕ
  pub allow_reverse : Option Bool
  pub allow_socks : Option Bool
  pub insecure : Option Bool
  pub tls_self_signed : Option Bool
  pub tls_state_dir : Option Bytes
  pub tls_cert : Option Bytes
  pub tls_key : Option Bytes
  pub tls_ca : Option Bytes
  pub congestion : Option CongestionArg
  pub max_connections : Option ℕ
  pub admin_socket : Option Bytes
  pub no_admin_socket : Option Bool
  pub log_format : Option LogFormat
  pub verbose : Option Bool
  pub debug : Option Bool
  pub quiet : Option Bool

abbrev pub unwrap_or {ℓ} : {A : Type ℓ} → Option A → A → A
unwrap_or none d = d
unwrap_or (some a) d = a

-- `Option::or`
abbrev pub or_else {ℓ} : {A : Type ℓ} → Option A → Option A → Option A
or_else none o = o
or_else (some a) o = some a

abbrev pub map_some {ℓ} : {A : Type ℓ} → Option A → Option (Option A)
map_some none = none
map_some (some a) = some (some a)

unfoldable pub pick {ℓ} : {A : Type ℓ} → A → Bool → Option A → A
pick cli_val was_explicit file_val = if was_explicit then cli_val else unwrap_or file_val cli_val

abbrev pub cli_set_tls : (Flag → Bool) → Bool
cli_set_tls explicit =
    explicit Flag.insecure
    || explicit Flag.tls_self_signed
    || explicit Flag.tls_cert
    || explicit Flag.tls_key
    || explicit Flag.tls_ca

unfoldable pub merge_section : ServerCli → ServerSection → (Flag → Bool) → ServerCli
merge_section cli file explicit =
    let tls = cli_set_tls explicit in
    record {
      host = pick cli.host (explicit Flag.host) file.host;
      port = pick cli.port (explicit Flag.port) file.port;
      allow_reverse = pick cli.allow_reverse (explicit Flag.allow_reverse) file.allow_reverse;
      allow_socks = pick cli.allow_socks (explicit Flag.allow_socks) file.allow_socks;
      insecure = if tls then cli.insecure else unwrap_or file.insecure cli.insecure;
      tls_self_signed =
          if tls then cli.tls_self_signed else unwrap_or file.tls_self_signed cli.tls_self_signed;
      tls_state_dir =
          if tls then cli.tls_state_dir else or_else file.tls_state_dir cli.tls_state_dir;
      tls_cert = if tls then cli.tls_cert else or_else file.tls_cert cli.tls_cert;
      tls_key = if tls then cli.tls_key else or_else file.tls_key cli.tls_key;
      tls_ca = if tls then cli.tls_ca else or_else file.tls_ca cli.tls_ca;
      congestion = pick cli.congestion (explicit Flag.congestion) file.congestion;
      max_connections =
          pick cli.max_connections (explicit Flag.max_connections) file.max_connections;
      admin_socket =
          pick cli.admin_socket (explicit Flag.admin_socket) (map_some file.admin_socket);
      no_admin_socket =
          pick cli.no_admin_socket (explicit Flag.no_admin_socket) file.no_admin_socket;
      is_verbose = pick cli.is_verbose (explicit Flag.is_verbose) file.verbose;
      is_debug = pick cli.is_debug (explicit Flag.is_debug) file.debug;
      is_quiet = pick cli.is_quiet (explicit Flag.is_quiet) file.quiet;
      log_format = pick cli.log_format (explicit Flag.log_format) file.log_format;
    }

unfoldable pub merge_server_with_file : ServerCli → Option ServerSection → (Flag → Bool) → ServerCli
merge_server_with_file cli none explicit = cli
merge_server_with_file cli (some file) explicit = merge_section cli file explicit
