-- ===== src/Server/Session.antt =====
-- src/server/mod.rs: how a session starts. `validate_remotes`, `perform_session_hello`, and the
-- part of `handle_client_connection` from the registration of the client to the verdict on its
-- hello, and its end. The frames are decoded already (see Frame); the sockets are not modelled.
pub mod Policy
pub mod Ids
pub mod Starts
pub mod Steps
pub mod Handles
pub mod Timely
pub mod Clients
use rusnel.Base.{
  ℕ, Bool, true, false, not, ◌&&◌, Option, none, some, List, [], ◌∷◌, ◌++◌, Bytes, if◌then◌else◌,
  Result, ok, err,
}
use rusnel.Text.{text}
use rusnel.Net.Addr.{SocketAddr}
use rusnel.Remote.{RemoteRequest, is_reversed, is_socks, SessionHello, SessionHelloResponse}
use rusnel.Remote.Display.{show_request}
use rusnel.Server.Entries.{ServerState}
use rusnel.Server.State.{register_client, register_tunnels, deregister_client}

pub reverse_refusal : RemoteRequest → Bytes
reverse_refusal r = text "Reverse remotes are not allowed (" ++ (show_request r ++ text ")")

pub socks_refusal : RemoteRequest → Bytes
socks_refusal r = text "SOCKS5 remotes are not allowed (" ++ (show_request r ++ text ")")

-- The first remote that the policy forbids decides.
unfoldable pub validate_remotes : List RemoteRequest → Bool → Bool → Result Bytes (Unit {0})
unfolding reverse_refusal socks_refusal
validate_remotes [] allow_reverse allow_socks = ok tt
validate_remotes (r ∷ rs) allow_reverse allow_socks =
    let rest = validate_remotes rs allow_reverse allow_socks in
    if is_reversed r && not allow_reverse
    then err (reverse_refusal r)
    else if is_socks r && not allow_socks
    then err (socks_refusal r)
    else rest

-- Why a session does not start: the policy's reason, or a reply that could not be written.
pub data SessionError : Type 0 where
  rejected : Bytes → SessionError
  reply_lost : Bytes → SessionError

pub record Verdict : Type 0 where
  pub response : SessionHelloResponse
  pub result : Result SessionError (List ℕ)
  pub state : ServerState

-- `write_error` is the error that the write of the reply to an accepted hello met, if any; the
-- reply to a rejected one is sent on a best-effort basis.
unfoldable pub perform_session_hello :
    ℕ → ℕ → SessionHello → Bool → Bool → Option Bytes → ServerState → Verdict
perform_session_hello now client hello allow_reverse allow_socks write_error s =
    elim (validate_remotes hello.remotes allow_reverse allow_socks) [
      | err reason ↦ record {
        response = SessionHelloResponse.failed reason;
        result = err (rejected reason);
        state = s;
      }
      | ok _ ↦
          let (ids, s') = register_tunnels now client hello.remotes s in
          record {
            response = SessionHelloResponse.ok ids;
            result = elim write_error [ none ↦ ok ids | some e ↦ err (reply_lost e) ];
            state = s';
          }
    ]

-- What a session that does not start leaves in the history.
abbrev pub refusal_reason : SessionError → Bytes
refusal_reason (rejected reason) = text "hello rejected: " ++ reason
refusal_reason (reply_lost e) = text "hello rejected: " ++ e

abbrev pub conclude : ℕ → ℕ → Verdict → Verdict
conclude now id v = elim v.result [
  | ok ids ↦ v
  | err e ↦ record v { state = deregister_client now id (refusal_reason e) v.state }
]

-- A client connects and sends its hello; one that is refused leaves again.
unfoldable pub start_session :
    ℕ → ℕ → SocketAddr → SessionHello → Bool → Bool → Option Bytes → ServerState → Verdict
start_session now id remote hello allow_reverse allow_socks write_error s = conclude now id (
    perform_session_hello now id hello allow_reverse allow_socks write_error
      (register_client now id remote s))
