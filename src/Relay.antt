-- ===== src/Relay.antt =====
-- The conns of a UDP listener, one for each source: `tunnel_udp_client` of src/common/udp.rs, and
-- one for each source and target: `run_socks_udp_relay` of src/common/socks.rs. The two loops are
-- one, over the keys of the map.
pub mod Steps
pub mod Order
pub mod Routing
pub mod Listeners
use rusnel.Base.{
  ℕ, zero, suc, ◌+◌, Bool, true, false, Option, none, some, List, [], ◌∷◌, ◌++◌, Bytes, length, ltb,
  ◌==◌, if◌then◌else◌, put,
}

-- The channel to the task of a conn: what waits in it, and what the task has taken out. It is closed
-- when the task drops its receiver.
pub record Channel (K : Type 0) : Type 0 where
  pub key : K
  pub queue : List Bytes
  pub taken : List Bytes
  pub is_closed : Bool

-- The map of the listener and the channels that were ever opened.
pub record Relay (K : Type 0) : Type 0 where
  pub conns : List (K × ℕ)
  pub channel_at : ℕ → Channel K
  pub next_channel : ℕ

-- `CONN_CHANNEL_CAPACITY`
abbrev pub conn_channel_capacity : ℕ
conn_channel_capacity = 4096

-- `same` is the equality of the keys.
module _ {K : Type 0} (same : K → K → Bool) where
  abbrev pub get : K → List (K × ℕ) → Option ℕ
  get k [] = none
  get k ((j, c) ∷ conns) = let later = get k conns in if same j k then some c else later

  abbrev pub remove : K → List (K × ℕ) → List (K × ℕ)
  remove k [] = []
  remove k ((j, c) ∷ conns) =
      let later = remove k conns in if same j k then later else (j, c) ∷ later

  -- A new channel, in place of what the map has for the key.
  abbrev pub open_channel : K → Relay K → ℕ × Relay K
  open_channel k r =
      let c = r.next_channel in
      (
        c,
        record r {
          conns = (k, c) ∷ remove k r.conns;
          channel_at =
              put r.channel_at c (record { key = k; queue = []; taken = []; is_closed = false });
          next_channel = c + 1;
        },
      )

  -- The channel that the map has, unless it is closed, or a new one.
  abbrev pub channel_or : K → Relay K → Option ℕ → ℕ × Relay K
  channel_or k r none = open_channel k r
  channel_or k r (some c) =
      if (r.channel_at c).is_closed
      then open_channel k (record r { conns = remove k r.conns })
      else (c, r)

  -- `try_send`: a datagram for a closed or a full channel is dropped.
  abbrev pub try_send : ℕ → ℕ → Bytes → Relay K → Relay K
  try_send capacity c payload r =
      let channel = r.channel_at c in
      if channel.is_closed
      then r
      else if ltb (length channel.queue) capacity
      then record r {
        channel_at =
            put r.channel_at c (record channel { queue = channel.queue ++ (payload ∷ []) });
      }
      else r

  -- One round of the loop: a datagram arrives.
  unfoldable pub receive : ℕ → K → Bytes → Relay K → Relay K
  receive capacity k payload r =
      let (c, r') = channel_or k r (get k r.conns) in try_send capacity c payload r'

  -- The task of a conn ends and takes the key of its conn out of the map.
  unfoldable pub forget : ℕ → Relay K → Relay K
  forget c r = record r { conns = remove (r.channel_at c).key r.conns }

module _ {K : Type 0} where
  abbrev pub take_front : Channel K → Channel K
  take_front channel = elim channel.queue [
    | [] ↦ channel
    | payload ∷ queue ↦ record channel { queue = queue; taken = channel.taken ++ (payload ∷ []) }
  ]

  -- `rx.recv()` of the task, which forwards what it takes.
  unfoldable pub recv : ℕ → Relay K → Relay K
  recv c r = record r { channel_at = put r.channel_at c (take_front (r.channel_at c)) }

  -- The task drops its receiver, with what waits in it.
  unfoldable pub drop_receiver : ℕ → Relay K → Relay K
  drop_receiver c r = record r {
    channel_at = put r.channel_at c (record (r.channel_at c) { queue = []; is_closed = true });
  }
