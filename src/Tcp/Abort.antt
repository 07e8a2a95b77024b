-- ===== src/Tcp/Abort.antt =====
-- How the two directions of a stream end each other.
use rusnel.Base.{
  Bool-cases, sym, ap, ◌∙◌, ◌≡◌, ◌≢◌, ◌⊎◌, inl, inr, refl, arith, true, false, List, [], ◌∷◌, All,
}
use rusnel.Tcp.{
  CopyPoll, pending, failing, errored, aborted, Half, unpolled, copying, through, Duplex, fresh,
  copied, is_through, poll_client_to_server, poll_server_to_client, Round, join_poll,
  tunnel_tcp_stream,
}

-- When one direction has failed, the other one is through or has been notified.
abbrev Answers : Half → Half → Type 0
Answers (through errored) (copying false) = ⊥
Answers (through errored) unpolled = ⊥
Answers _ _ = Unit

abbrev IsPolled : Half → Type 0
IsPolled unpolled = ⊥
IsPolled _ = Unit

record IsLinked (d : Duplex) : Type 0 where
  up : IsPolled d.client_to_server
  down : IsPolled d.server_to_client
  answered_up : Answers d.client_to_server d.server_to_client
  answered_down : Answers d.server_to_client d.client_to_server

up-IsLinked : (poll : CopyPoll) (d : Duplex) → IsLinked d → IsLinked (poll_client_to_server poll d)
unfolding poll_client_to_server
up-IsLinked poll d v = ground (arith, v.up, v.down, v.answered_up, v.answered_down)

down-IsLinked :
    (poll : CopyPoll) (d : Duplex) → IsLinked d → IsLinked (poll_server_to_client poll d)
unfolding poll_server_to_client
down-IsLinked poll d v = ground (arith, v.up, v.down, v.answered_up, v.answered_down)

join-IsLinked : (r : Round) (d : Duplex) → IsLinked d → IsLinked (join_poll r d)
unfolding join_poll
join-IsLinked r d v = elim (Bool-cases r.upward_first) [
  | inl t ↦ rw t (down-IsLinked r.downward _ (up-IsLinked r.upward d v))
  | inr f ↦ rw f (up-IsLinked r.upward _ (down-IsLinked r.downward d v))
]

run-IsLinked : (rs : List Round) (d : Duplex) → IsLinked d → IsLinked (tunnel_tcp_stream rs d)
unfolding tunnel_tcp_stream
run-IsLinked [] d v = v
run-IsLinked (r ∷ rs) d v = run-IsLinked rs (join_poll r d) (join-IsLinked r d v)

-- No copy fails in the round.
abbrev pub IsQuiet : Round → Type 0
IsQuiet r = (r.upward ≢ failing) × (r.downward ≢ failing)

first-IsLinked : (r : Round) → IsQuiet r → IsLinked (join_poll r fresh)
unfolding join_poll poll_client_to_server poll_server_to_client
first-IsLinked r q = ground (arith, q.0, q.1)

abbrev pub HasFailed : Half → Type 0
HasFailed h = h ≡ through errored

abbrev pub IsThrough : Half → Type 0
IsThrough h = is_through h ≡ true

linked_ends :
    (r : Round) (d : Duplex)
    → IsLinked d
    → HasFailed d.client_to_server ⊎ HasFailed d.server_to_client
    → IsThrough (join_poll r d).client_to_server × IsThrough (join_poll r d).server_to_client
unfolding join_poll poll_client_to_server poll_server_to_client
linked_ends r d v (inl e) = ground (arith, v.up, v.down, v.answered_up, v.answered_down, e)
linked_ends r d v (inr e) = ground (arith, v.up, v.down, v.answered_up, v.answered_down, e)

-- If no copy fails in the first round, a failure of either direction in any later round has both
-- directions through one round after it at the latest, whatever their copies do.
pub failure_ends_both :
    (first : Round) (rs : List Round) (later : Round)
    → IsQuiet first
    → (let d = tunnel_tcp_stream (first ∷ rs) fresh in
        HasFailed d.client_to_server ⊎ HasFailed d.server_to_client
        → IsThrough (join_poll later d).client_to_server
          × IsThrough (join_poll later d).server_to_client)
unfolding tunnel_tcp_stream
failure_ends_both first rs later q failed =
    linked_ends later _ (run-IsLinked rs (join_poll first fresh) (first-IsLinked first q)) failed

-- The polls of one copy on its own.
abbrev pub alone : Half → List CopyPoll → Half
alone h [] = h
alone unpolled (p ∷ ps) = alone (copied p) ps
alone (copying woken) (p ∷ ps) = alone (copied p) ps
alone (through o) (p ∷ ps) = through o

abbrev pub upward_polls : List Round → List CopyPoll
upward_polls [] = []
upward_polls (r ∷ rs) = r.upward ∷ upward_polls rs

abbrev pub downward_polls : List Round → List CopyPoll
downward_polls [] = []
downward_polls (r ∷ rs) = r.downward ∷ downward_polls rs

-- Nobody has failed or been notified.
abbrev IsCalm : Half → Type 0
IsCalm (copying true) = ⊥
IsCalm (through errored) = ⊥
IsCalm (through aborted) = ⊥
IsCalm _ = Unit

IsCalm-step :
    (r : Round) (d : Duplex)
    → IsQuiet r
    → IsCalm d.client_to_server
    → IsCalm d.server_to_client
    → (let e = join_poll r d in
        IsCalm e.client_to_server
        × IsCalm e.server_to_client
        × (e.client_to_server ≡ alone d.client_to_server (r.upward ∷ []))
        × (e.server_to_client ≡ alone d.server_to_client (r.downward ∷ [])))
unfolding join_poll poll_client_to_server poll_server_to_client
IsCalm-step r d q u v = ground (arith, q.0, q.1, u, v)

alone_cons :
    (h : Half) (p : CopyPoll) (ps : List CopyPoll) → alone h (p ∷ ps) ≡ alone (alone h (p ∷ [])) ps
alone_cons unpolled p ps = refl
alone_cons (copying woken) p ps = refl
alone_cons (through o) p [] = refl
alone_cons (through o) p (x ∷ ps) = refl

calm_run :
    (rs : List Round) (d : Duplex)
    → All IsQuiet rs
    → IsCalm d.client_to_server
    → IsCalm d.server_to_client
    → (let e = tunnel_tcp_stream rs d in
        (e.client_to_server ≡ alone d.client_to_server (upward_polls rs))
        × (e.server_to_client ≡ alone d.server_to_client (downward_polls rs)))
unfolding tunnel_tcp_stream
calm_run [] d q u v = (refl, refl)
calm_run (r ∷ rs) d q u v =
    let (u', v', up, down) = IsCalm-step r d q.0 u v in
    let rest = calm_run rs (join_poll r d) q.1 u' v' in
    (
      rest.0
          ∙ ap (λ h. alone h (upward_polls rs)) up
          ∙ sym (alone_cons d.client_to_server r.upward (upward_polls rs)),
      rest.1
          ∙ ap (λ h. alone h (downward_polls rs)) down
          ∙ sym (alone_cons d.server_to_client r.downward (downward_polls rs)),
    )

-- As long as no copy fails, each direction goes on as if it were alone: the end of one neither ends
-- nor cuts short the other.
pub tunnel_tcp_stream-alone :
    (rs : List Round)
    → All IsQuiet rs
    → (let d = tunnel_tcp_stream rs fresh in
        (d.client_to_server ≡ alone unpolled (upward_polls rs))
        × (d.server_to_client ≡ alone unpolled (downward_polls rs)))
tunnel_tcp_stream-alone rs q = calm_run rs fresh q tt tt

abbrev pub IsIdleDownward : Round → Type 0
IsIdleDownward r = r.downward ≡ pending

stays :
    (r : Round) (d : Duplex)
    → IsIdleDownward r
    → HasFailed d.client_to_server
    → d.server_to_client ≡ copying false
    → HasFailed (join_poll r d).client_to_server
      × ((join_poll r d).server_to_client ≡ copying false)
unfolding join_poll poll_client_to_server poll_server_to_client
stays r d i f e = ground (arith, i, f, e)

stays_run :
    (rs : List Round) (d : Duplex)
    → All IsIdleDownward rs
    → HasFailed d.client_to_server
    → d.server_to_client ≡ copying false
    → (tunnel_tcp_stream rs d).server_to_client ≡ copying false
unfolding tunnel_tcp_stream
stays_run [] d i f e = e
stays_run (r ∷ rs) d i f e =
    let (f', e') = stays r d i.0 f e in stays_run rs (join_poll r d) i.1 f' e'

lost_round :
    (r : Round)
    → r.upward_first ≡ true
    → r.upward ≡ failing
    → IsIdleDownward r
    → HasFailed (join_poll r fresh).client_to_server
      × ((join_poll r fresh).server_to_client ≡ copying false)
unfolding join_poll poll_client_to_server poll_server_to_client
lost_round r o f i = ground (arith, o, f, i)

-- A failure of the first poll of the direction that is polled first reaches nobody: the other
-- direction stays in its copy for as many rounds as that copy has nothing to say.
pub first_poll_failure_is_lost :
    (first : Round) (rs : List Round)
    → first.upward_first ≡ true
    → first.upward ≡ failing
    → All IsIdleDownward (first ∷ rs)
    → (tunnel_tcp_stream (first ∷ rs) fresh).server_to_client ≡ copying false
unfolding tunnel_tcp_stream
first_poll_failure_is_lost first rs o f i =
    let (failed, waits) = lost_round first o f i.0 in
    stays_run rs (join_poll first fresh) i.1 failed waits
