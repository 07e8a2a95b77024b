-- ===== src/Tcp.antt =====
-- src/common/tcp.rs: the two directions of `tunnel_tcp_stream` and how one ends the other. A copy
-- of bytes is what its polls say; that it moves the bytes in order is up to tokio. What a shutdown
-- of a socket says is ignored, as the code ignores it.
pub mod Abort
use rusnel.Base.{Bool, true, false, List, [], ◌∷◌, ◌++◌, if◌then◌else◌}

-- What a poll of `copy_buf` gives.
pub data CopyPoll : Type 0 where
  pending at_end failing : CopyPoll

pub data CopyOutcome : Type 0 where
  eof errored aborted : CopyOutcome

-- A direction: not polled yet, in its copy, or through. In its copy it waits for the `Notify`, and
-- `woken` says that it has been notified.
pub data Half : Type 0 where
  unpolled : Half
  copying : (woken : Bool) → Half
  through : CopyOutcome → Half

-- How the ends of the tunnel are closed: `shutdown` and `reset` of the QUIC stream, and `shutdown`
-- of the TCP socket.
pub data Closing : Type 0 where
  finish_quic reset_quic shutdown_tcp : Closing

pub record Duplex : Type 0 where
  pub client_to_server : Half
  pub server_to_client : Half
  pub closings : List Closing

abbrev pub fresh : Duplex
fresh = record { client_to_server = unpolled; server_to_client = unpolled; closings = [] }

-- `notify_waiters` reaches a waiter that exists, and stores nothing for one that does not.
abbrev pub notify : Half → Half
notify unpolled = unpolled
notify (copying woken) = copying true
notify (through o) = through o

abbrev pub copied : CopyPoll → Half
copied pending = copying false
copied at_end = through eof
copied failing = through errored

-- The `select!`, which asks the notification first.
abbrev pub select : CopyPoll → Half → Half
select poll unpolled = copied poll
select poll (copying true) = through aborted
select poll (copying false) = copied poll
select poll (through o) = through o

abbrev pub settle_client_to_server : Half → Duplex → Duplex
settle_client_to_server (through eof) d = record d {
  client_to_server = through eof;
  closings = d.closings ++ (finish_quic ∷ []);
}
settle_client_to_server (through errored) d = record d {
  client_to_server = through errored;
  server_to_client = notify d.server_to_client;
  closings = d.closings ++ (reset_quic ∷ []);
}
settle_client_to_server (through aborted) d = record d {
  client_to_server = through aborted;
  closings = d.closings ++ (reset_quic ∷ []);
}
settle_client_to_server h d = record d { client_to_server = h }

abbrev pub settle_server_to_client : Half → Duplex → Duplex
settle_server_to_client (through eof) d = record d {
  server_to_client = through eof;
  closings = d.closings ++ (shutdown_tcp ∷ []);
}
settle_server_to_client (through errored) d = record d {
  server_to_client = through errored;
  client_to_server = notify d.client_to_server;
  closings = d.closings ++ (shutdown_tcp ∷ []);
}
settle_server_to_client (through aborted) d = record d {
  server_to_client = through aborted;
  closings = d.closings ++ (shutdown_tcp ∷ []);
}
settle_server_to_client h d = record d { server_to_client = h }

abbrev pub is_through : Half → Bool
is_through (through o) = true
is_through _ = false

-- One poll of a direction; a direction that is through is not polled again.
unfoldable pub poll_client_to_server : CopyPoll → Duplex → Duplex
poll_client_to_server poll d =
    if is_through d.client_to_server
    then d
    else settle_client_to_server (select poll d.client_to_server) d

unfoldable pub poll_server_to_client : CopyPoll → Duplex → Duplex
poll_server_to_client poll d =
    if is_through d.server_to_client
    then d
    else settle_server_to_client (select poll d.server_to_client) d

-- A poll of the `join!`: which direction comes first, and what the two copies give.
pub record Round : Type 0 where
  pub upward_first : Bool
  pub upward : CopyPoll
  pub downward : CopyPoll

unfoldable pub join_poll : Round → Duplex → Duplex
join_poll r d =
    if r.upward_first
    then poll_server_to_client r.downward (poll_client_to_server r.upward d)
    else poll_client_to_server r.upward (poll_server_to_client r.downward d)

unfoldable pub tunnel_tcp_stream : List Round → Duplex → Duplex
tunnel_tcp_stream [] d = d
tunnel_tcp_stream (r ∷ rs) d = tunnel_tcp_stream rs (join_poll r d)
