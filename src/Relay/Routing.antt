-- ===== src/Relay/Routing.antt =====
-- The map of a relay keeps to its channels, whatever happens.
use rusnel.Base.{
  ℕ, ◌<◌, ◌≡◌, refl, arith, Bool, true, false, Option, none, some, List, [], ◌∷◌, ◌++◌, Bytes,
  length, ltb, ◌==◌, if◌then◌else◌, put, All, Bool-cases, inl, inr, ltb→lt,
}
use rusnel.Relay.{
  Channel, Relay, get, remove, open_channel, channel_or, try_send, receive, forget, take_front,
  recv, drop_receiver,
}
use rusnel.Relay.Steps.{RelayRun, idle, arrival, taking, ending, leaving}
use rusnel.Relay.Order.{
  Sub-nil, IsFed, log_longer, push-IsFed, take_front-IsFed, closed-IsFed, IsEntry, IsRouted,
}

module _ {K : Type 0} (same : K → K → Bool) where
  remove-All :
      (P : K × ℕ → Type 0) (k : K) (conns : List (K × ℕ))
      → All P conns
      → All P (remove same k conns)
  remove-All P k [] h = tt
  remove-All P k ((j, c) ∷ conns) h = elim (Bool-cases (same j k)) [
    | inl t ↦ rw t (remove-All P k conns h.1)
    | inr f ↦ rw f (h.0, remove-All P k conns h.1)
  ]

All-map :
    {A : Type 0} (P Q : A → Type 0) (xs : List A) → ((x : A) → P x → Q x) → All P xs → All Q xs
All-map P Q [] f h = tt
All-map P Q (x ∷ xs) f h = (f x h.0, All-map P Q xs f h.1)

module _ {K : Type 0} (same : K → K → Bool) (capacity : ℕ) where
  get-entry :
      (r : Relay K) (k : K) (conns : List (K × ℕ)) {c : ℕ}
      → All (IsEntry r) conns
      → get same k conns ≡ some c
      → (c < r.next_channel) × (same (r.channel_at c).key k ≡ true)
  get-entry r k [] h e = cc
  get-entry r k ((j, d) ∷ conns) {c} h e = elim (Bool-cases (same j k)) [
    | inl t ↦ ground (arith, t, e, h.0)
    | inr f ↦ get-entry r k conns h.1 (ground (arith, f, e))
  ]

  take_front_key :
      (key : K) (queue taken : List Bytes) (closed : Bool)
      → (let channel : Channel K = record {
        key = key;
        queue = queue;
        taken = taken;
        is_closed = closed;
      } in
          (take_front channel).key ≡ key)
  take_front_key key [] taken closed = refl
  take_front_key key (p ∷ queue) taken closed = refl

  -- A channel may change, but not its key.
  put-IsRouted :
      (log : List (K × Bytes)) (r : Relay K) (c : ℕ) (channel : Channel K)
      → IsRouted same capacity log r
      → channel.key ≡ (r.channel_at c).key
      → (c < r.next_channel → IsFed same capacity log channel)
      → IsRouted same capacity log (record r { channel_at = put r.channel_at c channel })
  put-IsRouted log r c channel v e h = record {
    entries =
        All-map (IsEntry r) (IsEntry (record r { channel_at = put r.channel_at c channel })) r.conns
          (λ (k, d) p. ground (arith, p.0, p.1, e)) v.entries;
    fed = λ d lt. elim (Bool-cases (d == c)) [
      | inl t ↦ rw t (h (ground arith))
      | inr f ↦ rw f (v.fed d lt)
    ];
  }

  recv-IsRouted :
      (log : List (K × Bytes)) (r : Relay K) (c : ℕ)
      → IsRouted same capacity log r
      → IsRouted same capacity log (recv c r)
  unfolding recv
  recv-IsRouted log r c v =
      let ch = r.channel_at c in
      put-IsRouted log r c (take_front ch) v (take_front_key ch.key ch.queue ch.taken ch.is_closed)
        (λ lt.
          take_front-IsFed same capacity log ch.key ch.queue ch.taken ch.is_closed (v.fed c lt))

  drop_receiver-IsRouted :
      (log : List (K × Bytes)) (r : Relay K) (c : ℕ)
      → IsRouted same capacity log r
      → IsRouted same capacity log (drop_receiver c r)
  unfolding drop_receiver
  drop_receiver-IsRouted log r c v =
      put-IsRouted log r c (record (r.channel_at c) { queue = []; is_closed = true }) v refl
        (λ lt. closed-IsFed same capacity log (r.channel_at c) (v.fed c lt))

  without-IsRouted :
      (log : List (K × Bytes)) (r : Relay K) (k : K)
      → IsRouted same capacity log r
      → IsRouted same capacity log (record r { conns = remove same k r.conns })
  without-IsRouted log r k v = record {
    entries = remove-All same (IsEntry r) k r.conns v.entries;
    fed = v.fed;
  }

  longer-IsRouted :
      (log : List (K × Bytes)) (r : Relay K) (k : K) (payload : Bytes)
      → IsRouted same capacity log r
      → IsRouted same capacity (log ++ ((k, payload) ∷ [])) r
  longer-IsRouted log r k payload v = record {
    entries = v.entries;
    fed = λ c lt. log_longer same capacity log (r.channel_at c) k payload (v.fed c lt);
  }

  -- The channel that a datagram goes to is one of its key.
  abbrev Target : List (K × Bytes) → K → ℕ × Relay K → Type 0
  Target log k (c, r) =
      IsRouted same capacity log r × (c < r.next_channel) × (same (r.channel_at c).key k ≡ true)

  open_channel-Target :
      (log : List (K × Bytes)) (k : K) (r : Relay K)
      → same k k ≡ true
      → IsRouted same capacity log r
      → Target log k (open_channel same k r)
  open_channel-Target log k r e v = (
    record {
      entries = (
        (omega arith, ground arith),
        All-map (IsEntry r) (IsEntry (open_channel same k r).1) (remove same k r.conns)
            (λ (j, d) p. ground (arith, p.0, p.1))
            (remove-All same (IsEntry r) k r.conns v.entries),
      );
      fed = λ c lt. elim (Bool-cases (c == r.next_channel)) [
        | inl t ↦ rw t (record { order = Sub-nil _; bounded = omega arith })
        | inr f ↦ rw f (v.fed c (ground (arith, f, lt)))
      ];
    },
    omega arith,
    ground (arith, e),
  )

  channel_or-Target :
      (log : List (K × Bytes)) (k : K) (r : Relay K) (found : Option ℕ)
      → same k k ≡ true
      → IsRouted same capacity log r
      → get same k r.conns ≡ found
      → Target log k (channel_or same k r found)
  channel_or-Target log k r none e v g = open_channel-Target log k r e v
  channel_or-Target log k r (some c) e v g = elim (Bool-cases (r.channel_at c).is_closed) [
    | inl t ↦ rw t (
        open_channel-Target log k (record r { conns = remove same k r.conns }) e
          (without-IsRouted log r k v))
    | inr f ↦ let (lt, key) = get-entry r k r.conns v.entries g in rw f (v, lt, key)
  ]

  if-IsRouted :
      (log : List (K × Bytes)) (b : Bool) (r s : Relay K)
      → (b ≡ true → IsRouted same capacity log r)
      → (b ≡ false → IsRouted same capacity log s)
      → IsRouted same capacity log (if b then r else s)
  if-IsRouted log true r s h k = h refl
  if-IsRouted log false r s h k = k refl

  try_send-IsRouted :
      (log : List (K × Bytes)) (k : K) (payload : Bytes) (c : ℕ) (r : Relay K)
      → Target log k (c, r)
      → IsRouted same capacity (log ++ ((k, payload) ∷ [])) (try_send same capacity c payload r)
  try_send-IsRouted log k payload c r (v, lt, e) =
      let longer = longer-IsRouted log r k payload v in
      let ch = r.channel_at c in
      let sent = record ch { queue = ch.queue ++ (payload ∷ []) } in
      if-IsRouted (log ++ ((k, payload) ∷ [])) ch.is_closed _ _ (λ _. longer)
        (λ _.
          if-IsRouted (log ++ ((k, payload) ∷ [])) (ltb (length ch.queue) capacity) _ _
            (λ room.
              put-IsRouted (log ++ ((k, payload) ∷ [])) r c sent longer refl
                (λ _. push-IsFed same capacity log ch k payload (v.fed c lt) e (ltb→lt _ _ room)))
            (λ _. longer))

  RelayRun-IsRouted :
      {start : ℕ → Channel K} {log : List (K × Bytes)} {r : Relay K}
      → ((k : K) → same k k ≡ true)
      → RelayRun same capacity start log r
      → IsRouted same capacity log r
  unfolding receive forget
  RelayRun-IsRouted eq idle = record { entries = tt; fed = λ c lt. absurd (omega (arith, lt)) }
  RelayRun-IsRouted eq (arrival {log} {r} k payload run) =
      try_send-IsRouted log k payload _ _
        (channel_or-Target log k r (get same k r.conns) (eq k) (RelayRun-IsRouted eq run) refl)
  RelayRun-IsRouted eq (taking {log} {r} c run) = recv-IsRouted log r c (RelayRun-IsRouted eq run)
  RelayRun-IsRouted eq (ending {log} {r} c run) =
      drop_receiver-IsRouted log r c (RelayRun-IsRouted eq run)
  RelayRun-IsRouted eq (leaving {log} {r} c run) =
      without-IsRouted log r (r.channel_at c).key (RelayRun-IsRouted eq run)

  -- Over every run of the loop, whatever tasks take, end or leave the map: what a conn forwards and
  -- what waits for it is part of what arrived under its own key, in order and once at most, and no
  -- more waits than the capacity.
  pub RelayRun-IsFed :
      {start : ℕ → Channel K} {log : List (K × Bytes)} {r : Relay K} (c : ℕ)
      → ((k : K) → same k k ≡ true)
      → RelayRun same capacity start log r
      → c < r.next_channel
      → IsFed same capacity log (r.channel_at c)
  RelayRun-IsFed c eq run lt = (RelayRun-IsRouted eq run).fed c lt
