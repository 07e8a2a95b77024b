-- ===== src/Tests/Config.antt =====
-- Runs of the merge of flags and file (src/main.rs).
use rusnel.Base.{◌≡◌, refl, Bool, true, false, none, some}
use rusnel.Text.{text}
use rusnel.Net.Ipv4
use rusnel.Net.Addr.{v4}
use rusnel.Config.{bbr, compact, Flag, ServerCli, ServerSection, merge_server_with_file}
use rusnel.Config.Override.{Keeps, merge_server_with_file-Keeps}

abbrev flags : ServerCli
flags = record {
  host = v4 Ipv4.unspecified;
  port = 9000;
  allow_reverse = false;
  allow_socks = false;
  insecure = false;
  tls_self_signed = false;
  tls_state_dir = some (text "/a");
  tls_cert = none;
  tls_key = none;
  tls_ca = none;
  congestion = bbr;
  max_connections = 10;
  admin_socket = none;
  no_admin_socket = false;
  is_verbose = false;
  is_debug = false;
  is_quiet = false;
  log_format = compact;
}

abbrev section_in_file : ServerSection
section_in_file = record {
  host = none;
  port = some 8080;
  allow_reverse = some true;
  allow_socks = none;
  insecure = none;
  tls_self_signed = none;
  tls_state_dir = some (text "/b");
  tls_cert = none;
  tls_key = none;
  tls_ca = none;
  congestion = none;
  max_connections = none;
  admin_socket = none;
  no_admin_socket = none;
  log_format = none;
  verbose = none;
  debug = none;
  quiet = none;
}

abbrev typed : Flag → Bool
typed Flag.port = true
typed Flag.tls_self_signed = true
typed Flag.tls_state_dir = true
typed _ = false

merge_server_with_file-Keeps_example :
    Keeps flags (merge_server_with_file flags (some section_in_file) typed) Flag.port
merge_server_with_file-Keeps_example =
    merge_server_with_file-Keeps flags (some section_in_file) typed Flag.port refl
      (λ (h : typed Flag.tls_state_dir ≡ true). h)
