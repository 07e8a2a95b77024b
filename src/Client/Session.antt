-- ===== src/Client/Session.antt =====
-- What a connected client does with the streams that the server opens: `run_connection` and
-- `client_accept_reverse_conn` of src/client/mod.rs.
pub mod Known
use rusnel.Base.{
  ℕ, Bool, true, false, Option, none, some, List, [], ◌∷◌, ◌++◌, Bytes, ◌==◌, if◌then◌else◌, Result,
  ok, err,
}
use rusnel.Text.{text}
use rusnel.Net.Number.{show_uint}
use rusnel.Remote.{Direction, forward, reverse, RemoteRequest, OpenConn, OpenConnResponse}
use rusnel.Remote.Display.{show_request}
use rusnel.Client.{
  ReverseDispatch, ReverseError, forward_tunnel, dynamic_missing, dynamic_unexpected, Dispatched,
  resolve_reverse_dispatch,
}

-- The declarations by the ids of their tunnels. Of two with one id a hash map keeps the later.
abbrev pub later_or : Option RemoteRequest → Bool → RemoteRequest → Option RemoteRequest
later_or (some later) same req = some later
later_or none same req = if same then some req else none

unfoldable pub remotes_by_id : List ℕ → List RemoteRequest → ℕ → Option RemoteRequest
remotes_by_id [] reqs id = none
remotes_by_id (i ∷ ids) [] id = none
remotes_by_id (i ∷ ids) (req ∷ reqs) id = later_or (remotes_by_id ids reqs id) (i == id) req

-- The declarations that the client listens for itself, with their ids.
unfoldable pub forward_tunnels : List ℕ → List RemoteRequest → List (ℕ × RemoteRequest)
forward_tunnels [] reqs = []
forward_tunnels (i ∷ ids) [] = []
forward_tunnels (i ∷ ids) (req ∷ reqs) =
    let later = forward_tunnels ids reqs in
    elim req.direction [ forward ↦ (i, req) ∷ later | reverse ↦ later ]

-- The reply that is written, and what is connected to.
pub record Acceptance : Type 0 where
  pub reply : OpenConnResponse
  pub served : Option ReverseDispatch

pub unknown_reply : ℕ → Bytes
unknown_reply id = text "unknown tunnel id " ++ show_uint id

-- The text of an error. It has a dash of three bytes in it.
unfoldable pub reverse_text : ReverseError → Bytes
reverse_text (forward_tunnel parent) =
    text "server pushed conn on a forward tunnel ("
    ++ (show_request parent ++ (text ") " ++ (226 ∷ 128 ∷ 148 ∷ text " protocol error")))
reverse_text dynamic_missing = text "server pushed reverse SOCKS5 conn without a dynamic target"
reverse_text dynamic_unexpected =
    text "server pushed unexpected dynamic target on non-SOCKS reverse tunnel"

-- `acked` says whether the reply could be written.
abbrev pub answered : Bool → Dispatched → Acceptance
answered acked (err e) = record { reply = OpenConnResponse.failed (reverse_text e); served = none }
answered acked (ok d) = record {
  reply = OpenConnResponse.ok;
  served = if acked then some d else none;
}

abbrev pub with_parent : Bool → OpenConn → Option RemoteRequest → Acceptance
with_parent acked open_conn none = record {
  reply = OpenConnResponse.failed (unknown_reply open_conn.tunnel_id);
  served = none;
}
with_parent acked open_conn (some parent) =
    answered acked (resolve_reverse_dispatch parent open_conn.dynamic)

unfoldable pub client_accept_reverse_conn :
    Bool → (ℕ → Option RemoteRequest) → OpenConn → Acceptance
client_accept_reverse_conn acked remotes open_conn =
    with_parent acked open_conn (remotes open_conn.tunnel_id)
