-- ===== src/Server/Host/Tasks.antt =====
-- The tasks of a host, their permits and their clients.
use rusnel.Base.{
  ℕ, zero, suc, ◌+◌, ◌^◌, ◌≤◌, ◌<◌, ◌≡◌, arith, true, false, not, Option, none, some, List, length,
  mem, remove_key, mem-remove_key, IsDistinct, remove_key-IsDistinct, length-remove_key, Bool-cases,
  inl, inr, ◌==◌, subst,
}
use rusnel.Server.Entries.{ServerState}
use rusnel.Server.State.{add64}
use rusnel.Server.Session.Steps.{IsSound}
use rusnel.Server.Host.{admit, Host, try_acquire, release, finish}

-- The free permits and the tasks make up the limit.
abbrev pub Balanced : Option ℕ → Option ℕ → ℕ → Type 0
Balanced none none n = Unit
Balanced (some limit) (some free) n = free + n ≡ limit
Balanced _ _ n = ⊥

pub record IsHosted (limit : Option ℕ) (h : Host) : Type 0 where
  pub permits : Balanced limit h.limiter (length h.tasks)
  pub tasks : IsDistinct h.tasks
  -- The next id is new.
  pub below : (id : ℕ) → mem id h.tasks ≡ true → id ≤ h.client_counter
  pub clients : IsDistinct h.registry.clients
  -- A client in the registry has a task.
  pub running : (id : ℕ) → mem id h.registry.clients ≡ true → mem id h.tasks ≡ true
  pub sound : IsSound h.registry

pub boot-Balanced : (limit : Option ℕ) → Balanced limit limit 0
boot-Balanced none = tt
boot-Balanced (some limit) = omega arith

acquire-Balanced :
    (limit limiter : Option ℕ) (n : ℕ) {free : Option ℕ}
    → Balanced limit limiter n
    → try_acquire limiter ≡ some free
    → Balanced limit free (suc n)
acquire-Balanced none none n {free} b e =
    subst (λ (f : Option ℕ). Balanced none f (suc n)) {x = none} {y = free} (cc) tt
acquire-Balanced none (some p) n b e = absurd b
acquire-Balanced (some c) none n b e = absurd b
acquire-Balanced (some c) (some zero) n b e = cc
acquire-Balanced (some c) (some (suc p)) n {free} b e =
    subst (λ (f : Option ℕ). Balanced (some c) f (suc n)) {x = some p} {y = free} (cc)
      (omega (arith, b))

release-Balanced :
    (limit limiter : Option ℕ) (n : ℕ)
    → Balanced limit limiter (suc n)
    → Balanced limit (release limiter) n
release-Balanced none none n b = tt
release-Balanced none (some p) n b = absurd b
release-Balanced (some c) none n b = absurd b
release-Balanced (some c) (some p) n b = omega (arith, b)

pub is_new :
    {limit : Option ℕ} (h : Host)
    → h.client_counter + 1 < 2 ^ 64
    → IsHosted limit h
    → mem (add64 h.client_counter 1) h.tasks ≡ false
is_new h room v = ground (arith, v.below (add64 h.client_counter 1))

pub admit-IsHosted :
    (limit : Option ℕ) (h : Host) (permit : Option (Option ℕ))
    → h.client_counter + 1 < 2 ^ 64
    → IsHosted limit h
    → try_acquire h.limiter ≡ permit
    → IsHosted limit (admit h (add64 h.client_counter 1) permit).0
admit-IsHosted limit h none room v e = record {
  permits = v.permits;
  tasks = v.tasks;
  below = λ id m. ground (arith, v.below id m);
  clients = v.clients;
  running = v.running;
  sound = v.sound;
}
admit-IsHosted limit h (some free) room v e = record {
  permits = acquire-Balanced limit h.limiter (length h.tasks) v.permits e;
  tasks = (is_new h room v, v.tasks);
  below = λ id m. ground (arith, v.below id);
  clients = v.clients;
  running = λ id m. ground (arith, v.running id m);
  sound = v.sound;
}

-- A task that has no client in the registry may end.
pub finish-IsHosted :
    (limit : Option ℕ) (id : ℕ) (h : Host)
    → mem id h.registry.clients ≡ false
    → IsHosted limit h
    → IsHosted limit (finish id h)
unfolding finish
finish-IsHosted limit id h gone v = elim (Bool-cases (mem id h.tasks)) [
  | inr f ↦ rw f v
  | inl t ↦ rw t (record {
    permits =
        release-Balanced limit h.limiter (length (remove_key id h.tasks))
          (rw (← length-remove_key id h.tasks v.tasks t) v.permits);
    tasks = remove_key-IsDistinct id h.tasks v.tasks;
    below = λ k m. ground (arith, mem-remove_key k id h.tasks, v.below k);
    clients = v.clients;
    running = λ k m. ground (arith, mem-remove_key k id h.tasks, v.running k m, gone);
    sound = v.sound;
  })
]

pub with_registry :
    {limit : Option ℕ} {h : Host} (s : ServerState)
    → IsHosted limit h
    → IsDistinct s.clients
    → ((k : ℕ) → mem k s.clients ≡ true → mem k h.tasks ≡ true)
    → IsSound s
    → IsHosted limit (record h { registry = s })
with_registry s v distinct running sound = record {
  permits = v.permits;
  tasks = v.tasks;
  below = v.below;
  clients = distinct;
  running = running;
  sound = sound;
}

-- The registry after a client has left it, if it was there at all.
pub without_client :
    {limit : Option ℕ} {h : Host} (id : ℕ) (before : List ℕ) (s : ServerState)
    → IsHosted limit h
    → IsSound s
    → s.clients ≡ remove_key id before
    → IsDistinct before
    → ((k : ℕ) → not (id == k) ≡ true → mem k before ≡ true → mem k h.registry.clients ≡ true)
    → IsHosted limit (finish id (record h { registry = s }))
without_client {limit} {h} id before s v sound e distinct old =
    finish-IsHosted limit id (record h { registry = s })
      (ground (arith, e, mem-remove_key id id before))
      (with_registry s v (rw e (remove_key-IsDistinct id before distinct))
        (λ k m. v.running k (ground (arith, e, mem-remove_key k id before, old k))) sound)
