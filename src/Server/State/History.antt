-- ===== src/Server/State/History.antt =====
-- The history of disconnects: a ring buffer of the last 256.
use rusnel.Base.{
  ◌^◌, ℕ, suc, ◌+◌, ◌≤◌, ◌≡◌, refl, ap, ◌∙◌, arith, true, List, [], ◌∷◌, ◌++◌, append_assoc, Bytes,
  length, length-append, take, take-append_le, remove_key, sym, ◌<◌, ==_iff, min, ◌==◌, Bool-cases,
  inl, inr, mem,
}
use rusnel.Net.Addr.{show_socket_addr}
use rusnel.Server.State.Accounting.{sum64-lt, bytes_in_of, bytes_out_of, opened_of}
use rusnel.Server.Entries.{Totals, HistoryEntry, ServerState}
use rusnel.Server.State.{
  history_capacity, push_history, deregister_client, history_snapshot, reverse_onto, history_entry,
  add64, sum64, tunnel_totals, add_totals, sum_totals, zero_totals, client_totals,
}
use rusnel.Server.State.Drops.{drop_tunnels_history}

length-push_history :
    (h : HistoryEntry) (hist : List HistoryEntry)
    → length hist ≤ history_capacity
    → length (push_history h hist) ≤ history_capacity
unfolding push_history
length-push_history h [] le = omega arith
length-push_history h (x ∷ xs) le = elim (Bool-cases (length (x ∷ xs) == history_capacity)) [
  | inl full ↦ rw full (omega (arith, length-append xs (h ∷ [])))
  | inr free ↦ ground (arith, length-append (x ∷ xs) (h ∷ []))
]

-- The history never holds more than 256 entries.
pub deregister_client-history_bound :
    (now id : ℕ) (reason : Bytes) (s : ServerState)
    → length s.history ≤ history_capacity
    → length (deregister_client now id reason s).history ≤ history_capacity
unfolding deregister_client
deregister_client-history_bound now id reason s le = elim (Bool-cases (mem id s.clients)) [
  | inl live ↦
      let s1 = record s { clients = remove_key id s.clients } in
      let ts = (s.client_at id).tunnels in
      let h = history_entry now reason s (s.client_at id) in
      rw (live, drop_tunnels_history ts s1) (length-push_history h s.history le)
  | inr absent ↦ rw absent le
]

abbrev newest_first : List HistoryEntry → List HistoryEntry
newest_first hist = reverse_onto hist []

reverse_onto-append :
    (xs ys acc : List HistoryEntry)
    → reverse_onto (xs ++ ys) acc ≡ reverse_onto ys (reverse_onto xs acc)
reverse_onto-append [] ys acc = refl
reverse_onto-append (x ∷ xs) ys acc = reverse_onto-append xs ys (x ∷ acc)

reverse_onto_lem : (xs acc : List HistoryEntry) → reverse_onto xs acc ≡ newest_first xs ++ acc
reverse_onto_lem [] acc = refl
reverse_onto_lem (x ∷ xs) acc =
    reverse_onto_lem xs (x ∷ acc)
    ∙ rw (reverse_onto_lem xs (x ∷ [])) (sym (append_assoc (newest_first xs) (x ∷ []) acc))

length-reverse_onto :
    (xs acc : List HistoryEntry) → length (reverse_onto xs acc) ≡ length xs + length acc
length-reverse_onto [] acc = omega arith
length-reverse_onto (x ∷ xs) acc = omega (arith, length-reverse_onto xs (x ∷ acc))

take_newest :
    (n : ℕ) (h : HistoryEntry) (hist : List HistoryEntry)
    → take (min (suc n) (length (hist ++ h ∷ []))) (newest_first (hist ++ h ∷ []))
      ≡ h ∷ take (min n (length hist)) (newest_first hist)
take_newest n h hist =
    let e : min (suc n) (length (hist ++ h ∷ [])) ≡ suc (min n (length hist)) =
      omega (arith, length-append hist (h ∷ [])) in
    rw (e, reverse_onto-append hist (h ∷ []) [])

push_history_newest :
    (n : ℕ) (h : HistoryEntry) (hist : List HistoryEntry)
    → n < history_capacity
    → take (min (suc n) (length (push_history h hist))) (newest_first (push_history h hist))
      ≡ h ∷ take (min n (length hist)) (newest_first hist)
unfolding push_history
push_history_newest n h [] lt = take_newest n h []
push_history_newest n h (x ∷ xs) lt = elim (Bool-cases (length (x ∷ xs) == history_capacity)) [
  | inl full ↦
      let size = (==_iff (length (x ∷ xs)) history_capacity).0 full in
      let m : min n (length xs) ≡ min n (length (x ∷ xs)) = omega arith in
      let older = reverse_onto_lem xs (x ∷ []) in
      let cut =
        take-append_le (min n (length xs)) (newest_first xs) (x ∷ [])
          (omega (arith, length-reverse_onto xs [])) in
      rw full (take_newest n h xs ∙ ap (◌∷◌ h) (rw (older, ← m) (sym cut)))
  | inr free ↦ rw free (take_newest n h (x ∷ xs))
]

deregister_client_pushed :
    (now id n : ℕ) (reason : Bytes) (s : ServerState)
    → mem id s.clients ≡ true
    → n < history_capacity
    → history_snapshot (suc n) (deregister_client now id reason s)
      ≡ history_entry now reason s (s.client_at id) ∷ history_snapshot n s
unfolding deregister_client history_snapshot
deregister_client_pushed now id n reason s live lt =
    let s1 = record s { clients = remove_key id s.clients } in
    let ts = (s.client_at id).tunnels in
    let h = history_entry now reason s (s.client_at id) in
    rw (live, drop_tunnels_history ts s1) (push_history_newest n h s.history lt)

-- The sums of the totals of tunnels, direction by direction.
sum_totals_in :
    (s : ServerState) (acc : Totals) (ts : List ℕ)
    → (let out = sum_totals s acc ts in
        add64 out.active_in out.cumulative_in
        ≡ add64 (add64 acc.active_in acc.cumulative_in) (sum64 (λ t. bytes_in_of t s) ts))
unfolding sum_totals tunnel_totals
sum_totals_in s acc [] = omega arith
sum_totals_in s acc (t ∷ ts) =
    let part = tunnel_totals s (s.tunnel_at t) in
    omega (arith, sum_totals_in s (add_totals acc part) ts)

sum_totals_out :
    (s : ServerState) (acc : Totals) (ts : List ℕ)
    → (let out = sum_totals s acc ts in
        add64 out.active_out out.cumulative_out
        ≡ add64 (add64 acc.active_out acc.cumulative_out) (sum64 (λ t. bytes_out_of t s) ts))
unfolding sum_totals tunnel_totals
sum_totals_out s acc [] = omega arith
sum_totals_out s acc (t ∷ ts) =
    let part = tunnel_totals s (s.tunnel_at t) in
    omega (arith, sum_totals_out s (add_totals acc part) ts)

sum_totals_opened :
    (s : ServerState) (acc : Totals) (ts : List ℕ)
    → acc.total_conns < 2 ^ 64
    → (sum_totals s acc ts).total_conns ≡ add64 acc.total_conns (sum64 (λ t. opened_of t s) ts)
unfolding sum_totals tunnel_totals
sum_totals_opened s acc [] lt = omega (arith, lt)
sum_totals_opened s acc (t ∷ ts) lt =
    let part = tunnel_totals s (s.tunnel_at t) in
    omega (arith, sum_totals_opened s (add_totals acc part) ts (omega arith))

-- What the history says of client `id`, which leaves `s`: who it was, when and why it left, and
-- what its tunnels report one by one, live and closed conns together, summed modulo 2^64.
pub record IsRecordOf (now id : ℕ) (why : Bytes) (s : ServerState) (h : HistoryEntry) : Type 0 where
  pub client_id : h.client_id ≡ id
  pub remote : h.remote ≡ show_socket_addr (s.client_at id).remote
  pub connected : h.connected_at_ms ≡ (s.client_at id).connected_at
  pub disconnected : h.disconnected_at_ms ≡ now
  pub reason : h.reason ≡ why
  pub bytes_in : h.bytes_in ≡ sum64 (λ t. bytes_in_of t s) (s.client_at id).tunnels
  pub bytes_out : h.bytes_out ≡ sum64 (λ t. bytes_out_of t s) (s.client_at id).tunnels
  pub total_conns : h.total_conns ≡ sum64 (λ t. opened_of t s) (s.client_at id).tunnels

history_entry-IsRecordOf :
    (now id : ℕ) (reason : Bytes) (s : ServerState)
    → (s.client_at id).id ≡ id
    → IsRecordOf now id reason s (history_entry now reason s (s.client_at id))
unfolding client_totals
history_entry-IsRecordOf now id reason s own =
    let ts = (s.client_at id).tunnels in
    record {
      client_id = own;
      remote = refl;
      connected = refl;
      disconnected = refl;
      reason = refl;
      bytes_in = omega (arith, sum_totals_in s zero_totals ts, sum64-lt (λ t. bytes_in_of t s) ts);
      bytes_out =
          omega (arith, sum_totals_out s zero_totals ts, sum64-lt (λ t. bytes_out_of t s) ts);
      total_conns = omega (
        arith,
        sum_totals_opened s zero_totals ts (omega arith),
        sum64-lt (λ t. opened_of t s) ts,
      );
    }

-- The departure of a connected client, which stands under its own id, is the newest entry of the
-- history: it says who left, when and why, and the bytes and conns that the client's tunnels report,
-- summed modulo 2^64. Behind it stand the newest entries from before, up to the capacity.
pub deregister_client-newest :
    (now id n : ℕ) (reason : Bytes) (s : ServerState)
    → (s.client_at id).id ≡ id
    → mem id s.clients ≡ true
    → n < history_capacity
    → (h : HistoryEntry) × (history_snapshot (suc n) (deregister_client now id reason s)
        ≡ h ∷ history_snapshot n s)
      × IsRecordOf now id reason s h
deregister_client-newest now id n reason s own live lt = (
  history_entry now reason s (s.client_at id),
  deregister_client_pushed now id n reason s live lt,
  history_entry-IsRecordOf now id reason s own,
)
