-- ===== src/Tests/Session.antt =====
-- A run of a connected client (src/client/mod.rs) against the server of the other tests.
use rusnel.Base.{◌≡◌, ◌⊎◌, refl, true, false, none, [], ◌∷◌, mem}
use rusnel.Remote.{RemoteRequest, OpenConn, OpenConnResponse, is_reversed, is_socks}
use rusnel.Server.State.{new, register_client, register_tunnels, register_tunnel}
use rusnel.Server.Session.{start_session, perform_session_hello, validate_remotes}
use rusnel.Server.Session.Ids.{IsTunnelOf, AreTunnelsOf}
use rusnel.Client.{resolve_reverse_dispatch}
use rusnel.Client.Session.{remotes_by_id, unknown_reply, answered, client_accept_reverse_conn}
use rusnel.Client.Session.Known.{client_accept_reverse_conn_lem}
use rusnel.Tests.Server.{hello, joined}

known : AreTunnelsOf joined 7 (1 ∷ 2 ∷ []) hello.remotes
unfolding new start_session perform_session_hello register_client register_tunnels register_tunnel
    validate_remotes is_reversed is_socks
known = (
  record { in_map = refl; owner = refl; direction = refl; kind = refl; spec = refl },
  (record { in_map = refl; owner = refl; direction = refl; kind = refl; spec = refl }, tt),
)

abbrev pushed : OpenConn
pushed = record { tunnel_id = 2; dynamic = none }

client_accept_reverse_conn_lem_example :
    (let out = client_accept_reverse_conn true (remotes_by_id (1 ∷ 2 ∷ []) hello.remotes) pushed in
      ((mem 2 (1 ∷ 2 ∷ []) ≡ false)
        × (out.reply ≡ OpenConnResponse.failed (unknown_reply 2))
        × (out.served ≡ none))
      ⊎ ((mem 2 (1 ∷ 2 ∷ []) ≡ true)
          × ((req : RemoteRequest) × IsTunnelOf joined 7 2 req
              × (out ≡ answered true (resolve_reverse_dispatch req none)))))
client_accept_reverse_conn_lem_example =
    client_accept_reverse_conn_lem true joined 7 (1 ∷ 2 ∷ []) hello.remotes pushed known
      (refl, (refl, tt))
