-- ===== src/Tests/Client.antt =====
-- Runs of the client (src/main.rs, src/client/mod.rs).
use mathlib.Core.List.{Memᴰ}
use rusnel.Base.{
  ℕ, ◌+◌, Bytes, Result, if◌then◌else◌, ◌≡◌, ◌++◌, refl, arith, false, none, some, List, [], ◌∷◌,
  ok, err,
}
use rusnel.Text.{text}
use rusnel.Net.Ipv4
use rusnel.Net.Addr.{v4, v6, SocketAddr}
use rusnel.Remote.{forward, reverse, RemoteKind, RemoteRequest, new_request}
use rusnel.Server.Entries.{TunnelEntry}
use rusnel.Server.OpenStream.{ForwardDispatch, resolve_dispatch, dispatch_in, dispatch_kind}
use rusnel.Client.{
  by_family, alternate, is_ipv6, interleave_address_families, forward_tunnel,
  resolve_reverse_dispatch,
}
use rusnel.Client.Race.{EndpointPool, happy_eyeballs_connect, launch, first_success, get_for}
use rusnel.Client.Race.Wins.{happy_eyeballs_connect-wins}
use rusnel.Client.Reconnect.{
  shut_down, lost, ReconnectConfig, lost, finished, gave_up, run_with_reconnect,
}
use rusnel.Client.Reconnect.Limits.{
  run_with_reconnect-recovers, failures, pauses_from, run_with_reconnect-failures,
}
use rusnel.Client.Reverse.{
  IsMirror, resolve_reverse_dispatch-IsMirror, resolve_reverse_dispatch_excluded,
}

abbrev four : SocketAddr
four = record { ip = v4 Ipv4.localhost; port = 8080 }

abbrev six : SocketAddr
six = record {
  ip = v6 (record { s0 = 0; s1 = 0; s2 = 0; s3 = 0; s4 = 0; s5 = 0; s6 = 0; s7 = 1 });
  port = 8080;
}

abbrev resolved : List SocketAddr
resolved = four ∷ four ∷ six ∷ []

-- No socket for IPv4 can be bound.
abbrev only_v6 : SocketAddr → Result Bytes ℕ
only_v6 a = if is_ipv6 a then ok 6 else err (text "no socket")

abbrev dial : ℕ → SocketAddr → Result Bytes (Result Bytes ℕ)
dial e a = ok (if is_ipv6 a then ok (e + a.port) else err (text "timed out"))

abbrev in_order : List (SocketAddr × Result Bytes ℕ) → List (SocketAddr × Result Bytes ℕ)
in_order l = l

abbrev empty_pool : EndpointPool ℕ
empty_pool = record { v4 = none; v6 = none }

over_v6 :
    (happy_eyeballs_connect only_v6 dial in_order (interleave_address_families resolved) empty_pool)
    ≡ (ok 8086, record { v4 = none; v6 = some 6 })
unfolding happy_eyeballs_connect interleave_address_families launch first_success get_for by_family
    alternate
over_v6 = refl

happy_eyeballs_connect-wins_example :
    (won : ℕ) × ((happy_eyeballs_connect only_v6 dial in_order resolved empty_pool).0 ≡ ok won)
    × ((b : SocketAddr) × Memᴰ b resolved × ((e : ℕ) × (dial e b ≡ ok (ok won))))
happy_eyeballs_connect-wins_example =
    happy_eyeballs_connect-wins only_v6 dial in_order (λ l r m. m) (λ l r m. m) resolved empty_pool
      {a = six} {e = 6} (Memᴰ.tail (Memᴰ.tail (Memᴰ.head refl))) refl (λ e. (e + 8080, refl))

abbrev kind : RemoteKind
kind = RemoteKind.tcp four (record { host = text "web"; port = 80 })

abbrev entry : TunnelEntry
entry = record {
  id = 1;
  client_id = 7;
  direction = forward;
  kind = kind;
  spec = [];
  opened_at = 0;
  conns = [];
  cumulative_in = 0;
  cumulative_out = 0;
  total_conns = 0;
}

abbrev parent : RemoteRequest
parent = new_request reverse kind

resolve_reverse_dispatch-IsMirror_example :
    IsMirror (resolve_dispatch entry none) (resolve_reverse_dispatch parent none)
resolve_reverse_dispatch-IsMirror_example =
    resolve_reverse_dispatch-IsMirror entry parent none refl refl refl

dispatched : resolve_dispatch entry none ≡ ok (ForwardDispatch.tcp (new_request forward kind))
unfolding resolve_dispatch dispatch_in dispatch_kind
dispatched = refl

resolve_reverse_dispatch_excluded_example :
    resolve_reverse_dispatch (new_request forward kind) none
    ≡ err (forward_tunnel (new_request forward kind))
resolve_reverse_dispatch_excluded_example =
    resolve_reverse_dispatch_excluded entry (new_request forward kind) none
      {d = ForwardDispatch.tcp (new_request forward kind)} refl dispatched

abbrev twice : ReconnectConfig
twice = record { max_retries = some 2; initial_backoff = 200; max_backoff = 300 }

run_with_reconnect-failures_example :
    run_with_reconnect twice (failures 3 ++ finished ∷ [])
    ≡ record { pauses = pauses_from 2 200 300; stop = gave_up 2 }
run_with_reconnect-failures_example =
    run_with_reconnect-failures twice 2 (finished ∷ []) refl (omega arith)

abbrev forever : ReconnectConfig
forever = record { max_retries = none; initial_backoff = 200; max_backoff = 300 }

run_with_reconnect-recovers_example :
    run_with_reconnect twice (failures 2 ++ lost false ∷ failures 1 ++ finished ∷ [])
    ≡ record { pauses = pauses_from 2 200 300 ++ pauses_from 2 200 300; stop = shut_down }
run_with_reconnect-recovers_example =
    run_with_reconnect-recovers twice 2 2 1 [] refl (omega arith) (omega arith) (omega arith)
