-- ===== src/Server/Host.antt =====
-- src/server/mod.rs: `run_async`, the loop that accepts connections under a cap, and the task of
-- each connection. QUIC is third-party: an incoming connection, a hello that does not arrive and the
-- end of a connection are events.
pub mod Tasks
pub mod Invariant
pub mod Capacity
pub mod Steps
use rusnel.Base.{
  ℕ, zero, suc, Bool, true, false, Option, none, some, List, [], ◌∷◌, ◌++◌, Bytes, if◌then◌else◌,
  mem, remove_key, Result, ok, err,
}
use rusnel.Text.{text}
use rusnel.Net.Addr.{SocketAddr}
use rusnel.Remote.{SessionHello}
use rusnel.Server.Entries.{ServerState}
use rusnel.Server.State.{add64, register_client, deregister_client}
use rusnel.Server.Session.{SessionError, start_session}

-- `limiter` holds the free permits of the semaphore, if there is one. A task of a connection, which
-- holds its permit, is the client id that it was given. A task that has registered its client is
-- in the session; one that has not yet is waiting for the connection or the hello.
pub record Host : Type 0 where
  pub limiter : Option ℕ
  pub client_counter : ℕ
  pub tasks : List ℕ
  pub registry : ServerState

abbrev pub boot : Option ℕ → ServerState → Host
boot max_connections s = record {
  limiter = max_connections;
  client_counter = 0;
  tasks = [];
  registry = s;
}

-- `try_acquire_owned`, where there is a semaphore.
abbrev pub try_acquire : Option ℕ → Option (Option ℕ)
try_acquire none = some none
try_acquire (some zero) = none
try_acquire (some (suc free)) = some (some free)

abbrev pub release : Option ℕ → Option ℕ
release none = none
release (some free) = some (suc free)

-- With a permit the connection gets a task, and without one it is refused.
abbrev pub admit : Host → ℕ → Option (Option ℕ) → Host × Option ℕ
admit h id none = (record h { client_counter = id }, none)
admit h id (some free) =
    (record h { limiter = free; client_counter = id; tasks = id ∷ h.tasks }, some id)

-- An incoming connection: the id of its task, if it gets one.
unfoldable pub incoming : Host → Host × Option ℕ
incoming h = admit h (add64 h.client_counter 1) (try_acquire h.limiter)

-- The task ends and drops its permit.
unfoldable pub finish : ℕ → Host → Host
finish id h =
    if mem id h.tasks
    then record h { limiter = release h.limiter; tasks = remove_key id h.tasks }
    else h

abbrev pub unless_refused : ℕ → Result SessionError (List ℕ) → Host → Host
unless_refused id (ok ids) h = h
unless_refused id (err e) h = finish id h

-- The connection is up and its hello arrives. A task whose session is refused ends.
unfoldable pub serve_session :
    ℕ → ℕ → SocketAddr → SessionHello → Bool → Bool → Option Bytes → Host → Host
serve_session now id remote hello allow_reverse allow_socks write_error h =
    let v = start_session now id remote hello allow_reverse allow_socks write_error h.registry in
    unless_refused id v.result (record h { registry = v.state })

-- The connection is up and its hello does not arrive, or is malformed.
unfoldable pub lose_hello : ℕ → ℕ → SocketAddr → Bytes → Host → Host
lose_hello now id remote e h = finish id (record h {
  registry =
      deregister_client now id (text "hello rejected: " ++ e)
        (register_client now id remote h.registry);
})

-- The loop over the streams of a session ends.
unfoldable pub disconnect : ℕ → ℕ → Bytes → Host → Host
disconnect now id reason h =
    finish id (record h { registry = deregister_client now id reason h.registry })
