-- ===== src/Server/Host/Capacity.antt =====
-- The cap on connections, and the ids of clients, over a whole run.
use rusnel.Base.{
  ◌↔◌, ℕ, zero, suc, ◌+◌, ◌^◌, ◌≤◌, ◌<◌, ◌≡◌, refl, arith, false, Option, none, some, [], length,
  mem, length_subset,
}
use rusnel.Server.Entries.{ServerState}
use rusnel.Server.State.{add64}
use rusnel.Server.Session.Steps.{IsSound}
use rusnel.Server.Host.{admit, Host, boot, try_acquire, incoming}
use rusnel.Server.Host.Steps.{HostReach}
use rusnel.Server.Host.Tasks.{Balanced, is_new}
use rusnel.Server.Host.Invariant.{HostReach-IsHosted, boot-IsHosted}

free_permits :
    (limit : ℕ) (limiter : Option ℕ) (n : ℕ) → Balanced (some limit) limiter n → n ≤ limit
free_permits limit none n b = absurd b
free_permits limit (some free) n b = omega (arith, b)

-- In every run of a server that starts with an empty registry and a cap on connections, and whose
-- id counters do not wrap around, no more clients are registered than there are tasks and no more
-- tasks than the cap allows; the id of the next connection, if its counter does not wrap around, is
-- no client's; and the cross references of the registry agree, up to conns whose tunnels have left
-- the map.
pub HostReach-capacity :
    (limit : ℕ) (s : ServerState) {h : Host}
    → IsSound s
    → s.clients ≡ []
    → HostReach (boot (some limit) s) h
    → (length h.registry.clients ≤ length h.tasks)
      × (length h.tasks ≤ limit)
      × (h.client_counter + 1 < 2 ^ 64 → mem (add64 h.client_counter 1) h.registry.clients ≡ false)
      × IsSound h.registry
HostReach-capacity limit s {h} sound e r =
    let v = HostReach-IsHosted (boot-IsHosted (some limit) s sound e) r in
    (
      length_subset h.registry.clients h.tasks v.clients v.tasks v.running,
      free_permits limit h.limiter (length h.tasks) v.permits,
      λ room. ground (arith, is_new h room v, v.running (add64 h.client_counter 1)),
      v.sound,
    )

refused_none :
    (h : Host) (id : ℕ) (permit : Option (Option ℕ)) → (admit h id permit).1 ≡ none → permit ≡ none
refused_none h id none e = refl
refused_none h id (some free) e = cc

full :
    (limit : ℕ) (limiter : Option ℕ) (n : ℕ)
    → Balanced (some limit) limiter n
    → (try_acquire limiter ≡ none) ↔ (n ≡ limit)
full limit none n b = absurd b
full limit (some zero) n b = (λ e. omega (arith, b), λ e. refl)
full limit (some (suc free)) n b = (λ e. cc, λ e. absurd (omega (arith, b, e)))

-- In every such run an incoming connection is refused exactly when as many tasks as the cap allows
-- are there: each task that has ended has freed its permit.
incoming_refused_iff :
    (limit : ℕ) (s : ServerState) {h : Host}
    → IsSound s
    → s.clients ≡ []
    → HostReach (boot (some limit) s) h
    → ((incoming h).1 ≡ none) ↔ (length h.tasks ≡ limit)
unfolding incoming
incoming_refused_iff limit s {h} sound e r =
    let v = HostReach-IsHosted (boot-IsHosted (some limit) s sound e) r in
    let (to, from) = full limit h.limiter (length h.tasks) v.permits in
    (
      λ none_left. to (refused_none h (add64 h.client_counter 1) (try_acquire h.limiter) none_left),
      λ all. rw (from all) refl,
    )
