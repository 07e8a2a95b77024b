-- ===== src/Ctl/Request.antt =====
-- The requests of `run_ctl` in src/main.rs and what it prints, the default socket and the text of
-- an error (src/ctl/mod.rs), and the routes that src/server/admin.rs serves.
use rusnel.Base.{
  ℕ, Bool, false, ◌==◌, Option, none, some, List, [], ◌∷◌, ◌++◌, Bytes, if◌then◌else◌,
}
use rusnel.Text.{text}
use rusnel.Net.Number.{show_uint}
use rusnel.Tls.Mode.{join_path}

pub data CtlAction : Type 0 where
  server clients tunnels conns : CtlAction
  client client_conns tunnel tunnel_conns : ℕ → CtlAction
  history : Option ℕ → CtlAction

-- The path of a request.
unfoldable pub request_path : CtlAction → Bytes
request_path CtlAction.server = text "/api/v1/server"
request_path CtlAction.clients = text "/api/v1/clients"
request_path (CtlAction.client id) = text "/api/v1/clients/" ++ show_uint id
request_path (CtlAction.client_conns id) =
    text "/api/v1/clients/" ++ (show_uint id ++ text "/conns")
request_path CtlAction.tunnels = text "/api/v1/tunnels"
request_path (CtlAction.tunnel id) = text "/api/v1/tunnels/" ++ show_uint id
request_path (CtlAction.tunnel_conns id) =
    text "/api/v1/tunnels/" ++ (show_uint id ++ text "/conns")
request_path CtlAction.conns = text "/api/v1/conns"
request_path (CtlAction.history (some n)) = text "/api/v1/history?limit=" ++ show_uint n
request_path (CtlAction.history none) = text "/api/v1/history"

abbrev ends_with_newline : Bytes → Bool
ends_with_newline [] = false
ends_with_newline (b ∷ []) = b == b'\n'
ends_with_newline (b ∷ c ∷ s) = ends_with_newline (c ∷ s)

-- What is printed for a rendered answer.
unfoldable pub printed : Bytes → Bytes
printed output = if ends_with_newline output then output else output ++ text "\n"

-- `home` is the home directory, if there is one, and `uid` the user.
unfoldable pub default_socket_path : Option Bytes → ℕ → Bytes
default_socket_path (some home) uid =
    join_path (join_path home (text ".rusnel")) (text "admin.sock")
default_socket_path none uid = text "/tmp/rusnel-admin-" ++ (show_uint uid ++ text ".sock")

-- An error and its causes.
unfoldable pub flatten_error : Bytes → List Bytes → Bytes
flatten_error e [] = e
flatten_error e (cause ∷ causes) = flatten_error (e ++ (text ": " ++ cause)) causes

pub data Handler : Type 0 where
  get_server list_clients get_client list_client_tunnels list_client_conns list_tunnels : Handler
  get_tunnel list_tunnel_conns list_conns get_conn list_history : Handler

-- The routes: `:id` stands for one segment of a path.
unfoldable pub router : List (Bytes × Handler)
router =
    (text "/api/v1/server", get_server)
    ∷ (text "/api/v1/clients", list_clients)
    ∷ (text "/api/v1/clients/:id", get_client)
    ∷ (text "/api/v1/clients/:id/tunnels", list_client_tunnels)
    ∷ (text "/api/v1/clients/:id/conns", list_client_conns)
    ∷ (text "/api/v1/tunnels", list_tunnels)
    ∷ (text "/api/v1/tunnels/:id", get_tunnel)
    ∷ (text "/api/v1/tunnels/:id/conns", list_tunnel_conns)
    ∷ (text "/api/v1/conns", list_conns)
    ∷ (text "/api/v1/conns/:id", get_conn)
    ∷ (text "/api/v1/history", list_history)
    ∷ []
