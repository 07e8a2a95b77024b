-- ===== src/Server/OpenStream/Dispatch.antt =====
-- Which streams the server accepts, and what becomes of them.
use rusnel.Base.{
  ℕ, ◌≡◌, refl, arith, Bool, true, ok, err, mem, Bool-cases, inl, inr, Result-cases, ◌⊎◌,
  mem-insert_key, false, ◌||◌, ◌==◌,
}
use rusnel.Remote.{OpenConn, OpenConnResponse}
use rusnel.Server.Entries.{ServerState}
use rusnel.Server.State.{add64, tunnel, register_conn}
use rusnel.Server.OpenStream.{
  ForwardDispatch, peer_label, resolve_dispatch, OpenError, handle_open_conn, Opening,
  unknown_tunnel, no_dispatch, reply_lost,
}

-- Why a stream is refused, in the state in which its tunnel is looked up.
abbrev pub IsRefusedBy : OpenError → OpenConn → Bool → ServerState → Type 0
IsRefusedBy (unknown_tunnel id) open_conn replied s =
    (id ≡ open_conn.tunnel_id) × (mem open_conn.tunnel_id s.tunnels ≡ false)
IsRefusedBy (no_dispatch e) open_conn replied s =
    (mem open_conn.tunnel_id s.tunnels ≡ true)
    × (resolve_dispatch (s.tunnel_at open_conn.tunnel_id) open_conn.dynamic ≡ err e)
IsRefusedBy reply_lost open_conn replied s =
    (mem open_conn.tunnel_id s.tunnels ≡ true) × (replied ≡ false)

-- The stream that is let through adds one conn, to the tunnel that it names: `s` is the state in
-- which the tunnel is looked up, `m` the one in which the reply has been written.
pub record IsOpened (s m : ServerState) (open_conn : OpenConn) (o : Opening) (id : ℕ)
    (d : ForwardDispatch) : Type 0 where
  pub response : o.response ≡ OpenConnResponse.ok
  pub known : mem open_conn.tunnel_id s.tunnels ≡ true
  pub dispatched : resolve_dispatch (s.tunnel_at open_conn.tunnel_id) open_conn.dynamic ≡ ok d
  pub conns : (c : ℕ) → mem c o.state.conns ≡ (id == c || mem c m.conns)
  pub listed : mem id (o.state.tunnel_at open_conn.tunnel_id).conns ≡ true
  pub peer : (o.state.conn_at id).peer ≡ peer_label d

-- A stream that is refused changes nothing itself, and is refused because its tunnel is unknown, or
-- has no dispatch for it, or because the reply is lost. One that is let through, when the reply is
-- written, names a known tunnel and is dispatched by the rule; it adds one conn to the map, listed by
-- that tunnel and with the peer of its dispatch, even if the tunnel has left the map by then.
pub handle_open_conn_lem :
    (now : ℕ) (open_conn : OpenConn) (replied : Bool) (meanwhile : ServerState → ServerState)
    (s : ServerState)
    → (let o = handle_open_conn now open_conn replied meanwhile s in
        ((e : OpenError) × (o.result ≡ err e)
          × (o.state ≡ meanwhile s)
          × IsRefusedBy e open_conn replied s)
        ⊎ ((id : ℕ) × (d : ForwardDispatch) × (o.result ≡ ok (id, d))
            × (replied ≡ true)
            × IsOpened s (meanwhile s) open_conn o id d))
unfolding handle_open_conn tunnel register_conn
handle_open_conn_lem now open_conn replied meanwhile s =
    elim (Bool-cases (mem open_conn.tunnel_id s.tunnels)) [
      | inr unknown ↦
          inl (unknown_tunnel open_conn.tunnel_id, ground arith, ground arith, (refl, unknown))
      | inl known ↦
          elim (Result-cases
            (resolve_dispatch (s.tunnel_at open_conn.tunnel_id) open_conn.dynamic)) [
              | inr (e, bad) ↦
                  inl (no_dispatch e, ground (arith, bad), ground (arith, bad), (known, bad))
              | inl (d, good) ↦ elim (Bool-cases replied) [
                | inr lost ↦
                    inl (reply_lost, ground (arith, good), ground (arith, good), (known, lost))
                | inl sent ↦
                    let m = meanwhile s in
                    let id = add64 m.next_conn_id 1 in
                    inr (
                      id,
                      d,
                      ground (arith, good),
                      sent,
                      record {
                        response = ground (arith, good);
                        known = known;
                        dispatched = good;
                        conns = λ c. ground (arith, good, mem-insert_key c id m.conns);
                        listed = ground (
                          arith,
                          good,
                          mem-insert_key id id (m.tunnel_at open_conn.tunnel_id).conns,
                        );
                        peer = ground (arith, good);
                      },
                    )
              ]
            ]
    ]
