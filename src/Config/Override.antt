-- ===== src/Config/Override.antt =====
-- Which of the flags override the file.
use rusnel.Base.{◌≡◌, refl, arith, Bool, true, Option, none, some}
use rusnel.Config.{Flag, ServerCli, ServerSection, pick, merge_section, merge_server_with_file}

-- The flag that the merged field stands for keeps its value.
abbrev pub Keeps : ServerCli → ServerCli → Flag → Type 0
Keeps cli out Flag.host = out.host ≡ cli.host
Keeps cli out Flag.port = out.port ≡ cli.port
Keeps cli out Flag.allow_reverse = out.allow_reverse ≡ cli.allow_reverse
Keeps cli out Flag.allow_socks = out.allow_socks ≡ cli.allow_socks
Keeps cli out Flag.insecure = out.insecure ≡ cli.insecure
Keeps cli out Flag.tls_self_signed = out.tls_self_signed ≡ cli.tls_self_signed
Keeps cli out Flag.tls_state_dir = out.tls_state_dir ≡ cli.tls_state_dir
Keeps cli out Flag.tls_cert = out.tls_cert ≡ cli.tls_cert
Keeps cli out Flag.tls_key = out.tls_key ≡ cli.tls_key
Keeps cli out Flag.tls_ca = out.tls_ca ≡ cli.tls_ca
Keeps cli out Flag.congestion = out.congestion ≡ cli.congestion
Keeps cli out Flag.max_connections = out.max_connections ≡ cli.max_connections
Keeps cli out Flag.admin_socket = out.admin_socket ≡ cli.admin_socket
Keeps cli out Flag.no_admin_socket = out.no_admin_socket ≡ cli.no_admin_socket
Keeps cli out Flag.is_verbose = out.is_verbose ≡ cli.is_verbose
Keeps cli out Flag.is_debug = out.is_debug ≡ cli.is_debug
Keeps cli out Flag.is_quiet = out.is_quiet ≡ cli.is_quiet
Keeps cli out Flag.log_format = out.log_format ≡ cli.log_format

section-Keeps :
    (cli : ServerCli) (file : ServerSection) (explicit : Flag → Bool) (f : Flag)
    → explicit f ≡ true
    → (explicit Flag.tls_state_dir ≡ true → explicit Flag.tls_self_signed ≡ true)
    → Keeps cli (merge_section cli file explicit) f
unfolding merge_section pick
section-Keeps cli file explicit Flag.host h n = ground (arith, h)
section-Keeps cli file explicit Flag.port h n = ground (arith, h)
section-Keeps cli file explicit Flag.allow_reverse h n = ground (arith, h)
section-Keeps cli file explicit Flag.allow_socks h n = ground (arith, h)
section-Keeps cli file explicit Flag.insecure h n = ground (arith, h)
section-Keeps cli file explicit Flag.tls_self_signed h n = ground (arith, h)
section-Keeps cli file explicit Flag.tls_state_dir h n = ground (arith, n h)
section-Keeps cli file explicit Flag.tls_cert h n = ground (arith, h)
section-Keeps cli file explicit Flag.tls_key h n = ground (arith, h)
section-Keeps cli file explicit Flag.tls_ca h n = ground (arith, h)
section-Keeps cli file explicit Flag.congestion h n = ground (arith, h)
section-Keeps cli file explicit Flag.max_connections h n = ground (arith, h)
section-Keeps cli file explicit Flag.admin_socket h n = ground (arith, h)
section-Keeps cli file explicit Flag.no_admin_socket h n = ground (arith, h)
section-Keeps cli file explicit Flag.is_verbose h n = ground (arith, h)
section-Keeps cli file explicit Flag.is_debug h n = ground (arith, h)
section-Keeps cli file explicit Flag.is_quiet h n = ground (arith, h)
section-Keeps cli file explicit Flag.log_format h n = ground (arith, h)

no_file : (cli : ServerCli) (f : Flag) → Keeps cli cli f
no_file cli Flag.host = refl
no_file cli Flag.port = refl
no_file cli Flag.allow_reverse = refl
no_file cli Flag.allow_socks = refl
no_file cli Flag.insecure = refl
no_file cli Flag.tls_self_signed = refl
no_file cli Flag.tls_state_dir = refl
no_file cli Flag.tls_cert = refl
no_file cli Flag.tls_key = refl
no_file cli Flag.tls_ca = refl
no_file cli Flag.congestion = refl
no_file cli Flag.max_connections = refl
no_file cli Flag.admin_socket = refl
no_file cli Flag.no_admin_socket = refl
no_file cli Flag.is_verbose = refl
no_file cli Flag.is_debug = refl
no_file cli Flag.is_quiet = refl
no_file cli Flag.log_format = refl

-- A flag that stands on the command line overrides the file, if the state directory never stands
-- there without `--tls-self-signed`, as the `requires` of its declaration says.
pub merge_server_with_file-Keeps :
    (cli : ServerCli) (file : Option ServerSection) (explicit : Flag → Bool) (f : Flag)
    → explicit f ≡ true
    → (explicit Flag.tls_state_dir ≡ true → explicit Flag.tls_self_signed ≡ true)
    → Keeps cli (merge_server_with_file cli file explicit) f
unfolding merge_server_with_file
merge_server_with_file-Keeps cli none explicit f h n = no_file cli f
merge_server_with_file-Keeps cli (some file) explicit f h n = section-Keeps cli file explicit f h n
