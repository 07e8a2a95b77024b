-- ===== src/Tests/Admin.antt =====
-- Runs of the accept loop, the admin API and the control tool (src/server/mod.rs,
-- src/server/admin.rs, src/ctl/mod.rs).
use rusnel.Base.{
  ℕ, ◌+◌, ◌≤◌, ◌<◌, ◌^◌, ◌≡◌, ◌⊎◌, refl, arith, true, false, not, ◌&&◌, none, some, List, [], ◌∷◌,
  length, map, mem, ok, err,
}
use rusnel.Text.{text}
use rusnel.Server.State.{add64, new, deregister_client}
use rusnel.Server.Session.Steps.{IsSound}
use rusnel.Server.Host.{Host, boot, incoming}
use rusnel.Server.Host.Steps.{HostReach, here, next, connect}
use rusnel.Server.Host.Capacity.{HostReach-capacity}
use rusnel.Server.Admin.{ConnDto, list_client_conns, list_conns, get_client, not_found}
use rusnel.Server.Admin.Views.{
  IsConnList, of_client, by_tunnel, conn_id, list_client_conns_lem, list_conns-deregister_client,
}
use rusnel.Ctl.{render}
use rusnel.Ctl.Rows.{ConnRow}
use rusnel.Tests.Server.{idle, idle-IsSound, busy, busy-IsConsistent, busy_facts}

-- One connection is allowed, and one comes.
abbrev one_task : Host
one_task = (incoming (boot (some 1) idle)).0

one_task_reached : HostReach (boot (some 1) idle) one_task
one_task_reached = next here (connect (boot (some 1) idle) (omega arith))

idle_empty : idle.clients ≡ []
unfolding new
idle_empty = refl

HostReach-capacity_example :
    (length one_task.registry.clients ≤ length one_task.tasks)
    × (length one_task.tasks ≤ 1)
    × (one_task.client_counter + 1 < 2 ^ 64
        → mem (add64 one_task.client_counter 1) one_task.registry.clients ≡ false)
    × IsSound one_task.registry
HostReach-capacity_example = HostReach-capacity 1 idle idle-IsSound idle_empty one_task_reached

second_refused : (incoming one_task).1 ≡ none
unfolding incoming new
second_refused = refl

list_client_conns_lem_example :
    ((list_client_conns 7 busy ≡ err not_found) × (mem 7 busy.clients ≡ false))
    ⊎ ((out : List ConnDto) × (list_client_conns 7 busy ≡ ok out)
        × (mem 7 busy.clients ≡ true)
        × IsConnList busy (of_client busy 7) by_tunnel out)
list_client_conns_lem_example = list_client_conns_lem 7 busy busy-IsConsistent

list_conns-deregister_client_example :
    (let s' = deregister_client 9 7 (text "bye") busy in
      (get_client 7 s' ≡ err not_found)
      × (list_client_conns 7 s' ≡ err not_found)
      × ((c : ℕ)
          → mem c (map conn_id (list_conns s'))
            ≡ (mem c (map conn_id (list_conns busy)) && not (of_client busy 7 c))))
list_conns-deregister_client_example =
    list_conns-deregister_client 9 7 (text "bye") busy busy-IsConsistent busy_facts.0

abbrev conn_row : ConnRow
conn_row = record {
  id = 12;
  tunnel_id = 1;
  client_id = 7;
  opened_at_ms = 5;
  peer = none;
  bytes_in = 0;
  bytes_out = 3;
}

short_table :
    render
      (record { headers = text "ID" ∷ text "OUT" ∷ []; rows = (text "123" ∷ text "4" ∷ []) ∷ [] })
    ≡ some (text "ID   OUT\n123  4\n")
unfolding render
short_table = refl
