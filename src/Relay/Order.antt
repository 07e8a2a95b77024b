-- ===== src/Relay/Order.antt =====
-- Every conn gets what its own source sent, in order, once at most.
use rusnel.Base.{
  ℕ, ◌<◌, ◌≤◌, ◌≡◌, arith, Bool, true, List, [], ◌∷◌, ◌++◌, append_assoc, Bytes, length,
  length-append, if◌then◌else◌, All, Bool-cases, inl, inr,
}
use rusnel.Relay.{Channel, Relay, take_front}
use rusnel.Relay.Steps.{payloads_for}

-- The first list is the second one, without some of its elements.
pub data Sub {A : Type 0} : List A → List A → Type 0 where
  done : Sub [] []
  skip : (y : A) {xs ys : List A} → Sub xs ys → Sub xs (y ∷ ys)
  keep : (y : A) {xs ys : List A} → Sub xs ys → Sub (y ∷ xs) (y ∷ ys)

module _ {A : Type 0} where
  pub Sub-nil : (ys : List A) → Sub [] ys
  Sub-nil [] = done
  Sub-nil (y ∷ ys) = skip y (Sub-nil ys)

  Sub-skip_last : {xs ys : List A} (y : A) → Sub xs ys → Sub xs (ys ++ (y ∷ []))
  Sub-skip_last y done = skip y done
  Sub-skip_last y (skip z h) = skip z (Sub-skip_last y h)
  Sub-skip_last y (keep z h) = keep z (Sub-skip_last y h)

  Sub-keep_last : {xs ys : List A} (y : A) → Sub xs ys → Sub (xs ++ (y ∷ [])) (ys ++ (y ∷ []))
  Sub-keep_last y done = keep y done
  Sub-keep_last y (skip z h) = skip z (Sub-keep_last y h)
  Sub-keep_last y (keep z h) = keep z (Sub-keep_last y h)

  Sub-front : (xs zs ys : List A) → Sub (xs ++ zs) ys → Sub (xs ++ []) ys
  Sub-front [] zs ys h = Sub-nil ys
  Sub-front (x ∷ xs) zs [] h = elim h [ ]
  Sub-front (x ∷ xs) zs (y ∷ ys) (skip z h) = skip z (Sub-front (x ∷ xs) zs ys h)
  Sub-front (x ∷ xs) zs (y ∷ ys) (keep z h) = keep z (Sub-front xs zs ys h)

module _ {K : Type 0} (same : K → K → Bool) where
  payloads_for_last :
      (key k : K) (payload : Bytes) (log : List (K × Bytes))
      → payloads_for same key (log ++ ((k, payload) ∷ [])) ≡ (
          if same key k
          then payloads_for same key log ++ (payload ∷ [])
          else payloads_for same key log)
  payloads_for_last key k payload [] = ground arith
  payloads_for_last key k payload ((j, p) ∷ log) =
      ground (arith, payloads_for_last key k payload log)

module _ {K : Type 0} where
  -- An entry of the map stands for a channel of its key.
  abbrev pub IsEntry : Relay K → K × ℕ → Type 0
  IsEntry r (k, c) = (c < r.next_channel) × ((r.channel_at c).key ≡ k)

module _ {K : Type 0} (same : K → K → Bool) (capacity : ℕ) where
  -- What the channel has taken in is part of what arrived under its key, and it is not overfull.
  pub record IsFed (log : List (K × Bytes)) (channel : Channel K) : Type 0 where
    pub order : Sub (channel.taken ++ channel.queue) (payloads_for same channel.key log)
    pub bounded : length channel.queue ≤ capacity

  pub log_longer :
      (log : List (K × Bytes)) (channel : Channel K) (k : K) (payload : Bytes)
      → IsFed log channel
      → IsFed (log ++ ((k, payload) ∷ [])) channel
  log_longer log channel k payload h = record {
    order =
        rw (payloads_for_last same channel.key k payload log)
          (elim (Bool-cases (same channel.key k)) [
            | inl t ↦ rw t (Sub-skip_last payload h.order)
            | inr f ↦ rw f h.order
          ]);
    bounded = h.bounded;
  }

  pub push-IsFed :
      (log : List (K × Bytes)) (channel : Channel K) (k : K) (payload : Bytes)
      → IsFed log channel
      → same channel.key k ≡ true
      → length channel.queue < capacity
      → IsFed
          (log ++ ((k, payload) ∷ []))
          (record channel { queue = channel.queue ++ (payload ∷ []) })
  push-IsFed log channel k payload h t room = record {
    order =
        rw
          (
            payloads_for_last same channel.key k payload log,
            t,
            ← append_assoc channel.taken channel.queue (payload ∷ []),
          )
          (Sub-keep_last payload h.order);
    bounded = omega (arith, length-append channel.queue (payload ∷ []), room);
  }

  pub take_front-IsFed :
      (log : List (K × Bytes)) (key : K) (queue taken : List Bytes) (closed : Bool)
      → (let channel : Channel K = record {
        key = key;
        queue = queue;
        taken = taken;
        is_closed = closed;
      } in
          IsFed log channel → IsFed log (take_front channel))
  take_front-IsFed log key [] taken closed h = h
  take_front-IsFed log key (p ∷ queue) taken closed h = record {
    order = rw (append_assoc taken (p ∷ []) queue) h.order;
    bounded = omega (arith, h.bounded);
  }

  pub closed-IsFed :
      (log : List (K × Bytes)) (channel : Channel K)
      → IsFed log channel
      → IsFed log (record channel { queue = []; is_closed = true })
  closed-IsFed log channel h = record {
    order = Sub-front channel.taken channel.queue _ h.order;
    bounded = omega arith;
  }

  pub record IsRouted (log : List (K × Bytes)) (r : Relay K) : Type 0 where
    pub entries : All (IsEntry r) r.conns
    pub fed : (c : ℕ) → c < r.next_channel → IsFed log (r.channel_at c)
