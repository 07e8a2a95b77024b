-- ===== src/Server/Host/Steps.antt =====
-- A whole run of the server: connections that come, sessions that start and end, and the traffic
-- in between, in any order.
use rusnel.Base.{ℕ, ◌+◌, ◌^◌, ◌<◌, ◌≡◌, Bool, true, false, Option, Bytes, length, mem}
use rusnel.Net.Addr.{SocketAddr}
use rusnel.Remote.{SessionHello}
use rusnel.Server.Entries.{ServerState}
use rusnel.Server.Session.Steps.{Step, start, register, receive, send, close, leave}
use rusnel.Server.Host.{Host, incoming, finish, serve_session, lose_hello, disconnect}

-- The steps of the registry in which no client comes or goes.
abbrev pub IsTraffic : {s u : ServerState} → Step s u → Type 0
IsTraffic (start now id remote hello ar as' we s fresh room) = ⊥
IsTraffic (leave now id reason s) = ⊥
IsTraffic (register now t peer s handle room) = Unit
IsTraffic (receive c n s) = Unit
IsTraffic (send c n s) = Unit
IsTraffic (close t c s own) = Unit

-- What can happen next. A counter that would wrap around is out of scope.
pub data HostStep : Host → Host → Type 0 where
  connect : (h : Host) → h.client_counter + 1 < 2 ^ 64 → HostStep h (incoming h).0
  -- The connection fails before it is up.
  give_up : (id : ℕ) (h : Host) → mem id h.registry.clients ≡ false → HostStep h (finish id h)
  session :
      (now id : ℕ) (remote : SocketAddr) (hello : SessionHello) (allow_reverse allow_socks : Bool)
      (write_error : Option Bytes) (h : Host)
      → mem id h.tasks ≡ true
      → mem id h.registry.clients ≡ false
      → h.registry.next_tunnel_id + length hello.remotes < 2 ^ 64
      → HostStep h (serve_session now id remote hello allow_reverse allow_socks write_error h)
  no_hello :
      (now id : ℕ) (remote : SocketAddr) (e : Bytes) (h : Host)
      → mem id h.tasks ≡ true
      → mem id h.registry.clients ≡ false
      → HostStep h (lose_hello now id remote e h)
  quit :
      (now id : ℕ) (reason : Bytes) (h : Host)
      → mem id h.registry.clients ≡ true
      → HostStep h (disconnect now id reason h)
  traffic :
      {u : ServerState} (h : Host) (st : Step h.registry u)
      → IsTraffic st
      → HostStep h (record h { registry = u })

pub data HostReach (h : Host) : Host → Type 0 where
  here : HostReach h h
  next : {g k : Host} → HostReach h g → HostStep g k → HostReach h k
