-- ===== src/Buffer/Wakeup.antt =====
-- What holds of a round buffer and its flusher under every interleaving.
use conflux_fl.Base.{
  ℕ, ◌≤◌, ◌≡◌, ◌⊎◌, refl, subst, ◌∙◌, Bool, true, false, List, [], ◌∷◌, ◌++◌, arith, length, All,
  ◌<◌, inl, inr, Bool-cases, ◌==◌, ==_iff,
}
use conflux_fl.Proto.{ClientDelta}
use conflux_fl.Buffer.{
  open_with, closed, FlushResult, quorum, timeout, push, append, notify_one, check_quorum,
  check_deadline,
}
use conflux_fl.Buffer.Schedule.{
  Flusher, checking, timing, parked, finished, Sys, Event, pushes, appends, notifies, runs, wakes,
  expires, ticks, step, run, start,
}

-- Every delta is for the buffer's round.
abbrev pub ForRound : ℕ → List ClientDelta → Type 0
ForRound r = All (λ d. d.round ≡ r)

-- What a returned batch promises: it is exactly what was accepted, it reached the quorum if it
-- says so, and otherwise the deadline has passed.
pub record IsFlush (s : Sys) (r : FlushResult) : Type 0 where
  pub shut : s.buffer.state ≡ closed
  pub same_round : r.round ≡ s.buffer.round
  pub whole : r.deltas ≡ s.accepted
  pub enough : r.reason ≡ quorum → s.buffer.quorum ≤ length r.deltas
  pub late : r.reason ≡ timeout → s.deadline ≤ s.now

-- Before the flusher returns, the buffer is open and holds what was accepted. Once it has failed
-- the quorum check, a batch that reaches the quorum has left a permit, or a push is about to.
abbrev pub Waiting : Sys → Type 0
Waiting s = s.buffer.state ≡ open_with s.accepted

abbrev pub Noticed : Sys → Type 0
Noticed s = s.buffer.quorum ≤ length s.accepted → (s.buffer.permit ≡ true) ⊎ (1 ≤ s.pending)

abbrev pub FlusherInv : Flusher → Sys → Type 0
FlusherInv checking s = Waiting s
FlusherInv timing s = Waiting s × Noticed s
FlusherInv parked s = Waiting s × Noticed s
FlusherInv (finished r) s = IsFlush s r

pub record Inv (s : Sys) : Type 0 where
  pub phase : FlusherInv s.flusher s
  pub own_round : ForRound s.buffer.round s.accepted

All-append :
    (r : ℕ) (ds : List ClientDelta) (d : ClientDelta)
    → ForRound r ds
    → d.round ≡ r
    → ForRound r (ds ++ d ∷ [])
All-append r [] d h e = (e, tt)
All-append r (x ∷ ds) d h e = (h.0, All-append r ds d h.1 e)

step-Inv : (s : Sys) (e : Event) → Inv s → Inv (step s e)
unfolding step push append notify_one check_quorum check_deadline
step-Inv s (pushes d) v = ground (arith, All-append s.buffer.round s.accepted d v.own_round)
step-Inv s (appends d) v = ground (arith, All-append s.buffer.round s.accepted d v.own_round)
step-Inv s notifies v = ground arith
step-Inv s runs v = ground arith
step-Inv s wakes v = ground arith
step-Inv s expires v = ground arith
step-Inv s (ticks k) v = ground arith

start-Inv : (round q wait : ℕ) → Inv (start round q wait)
unfolding start
start-Inv round q wait = record { phase = refl; own_round = tt }

run-Inv : (s : Sys) (es : List Event) → Inv s → Inv (run s es)
unfolding run
run-Inv s [] v = v
run-Inv s (e ∷ es) v = run-Inv (step s e) es (step-Inv s e v)

pub run-start-Inv : (round q wait : ℕ) (es : List Event) → Inv (run (start round q wait) es)
run-start-Inv round q wait es = run-Inv _ es (start-Inv round q wait)

-- Whatever the interleaving of pushes, wake-ups, timer and clock: when `await_flush` returns, the
-- buffer is closed, and the result names the buffer's round, holds exactly the deltas whose `push`
-- was accepted, in the order of their acceptance, reaches the quorum if it claims the quorum, and
-- comes no earlier than the deadline if it claims the timeout.
pub run-start-IsFlush :
    (round q wait : ℕ) (es : List Event) (r : FlushResult)
    → (run (start round q wait) es).flusher ≡ finished r
    → IsFlush (run (start round q wait) es) r
run-start-IsFlush round q wait es r h =
    subst (λ f. FlusherInv f (run (start round q wait) es)) h (run-start-Inv round q wait es).phase

-- What the flusher returns on a quorum.
abbrev pub full_result : Sys → FlushResult
full_result s = record { round = s.buffer.round; reason = quorum; deltas = s.accepted }

wake_parked :
    (s : Sys)
    → Inv s
    → s.flusher ≡ parked
    → s.buffer.quorum ≤ length s.accepted
    → s.pending ≡ 0
    → (run s (wakes ∷ runs ∷ [])).flusher ≡ finished (full_result s)
unfolding run step check_quorum
wake_parked s v h q n = ground arith

notify_parked :
    (s : Sys)
    → Inv s
    → s.flusher ≡ parked
    → s.buffer.quorum ≤ length s.accepted
    → (run s (notifies ∷ wakes ∷ runs ∷ [])).flusher ≡ finished (full_result s)
unfolding run step check_quorum notify_one
notify_parked s v h q = ground arith

-- No wake-up is ever lost. In every state that any interleaving reaches, also between a push's append
-- and its notification, let the flusher be parked while the accepted deltas reach the quorum. Either
-- some push is held up before its `notify_one`, or the flusher's next two steps return all of the
-- deltas with the reason `quorum`, whatever the clock says; and in both cases they do so after a
-- `notify_one`.
pub run-start_wakes :
    (round q wait : ℕ) (es : List Event) (s : Sys)
    → run (start round q wait) es ≡ s
    → s.flusher ≡ parked
    → s.buffer.quorum ≤ length s.accepted
    → ((0 < s.pending) ⊎ ((run s (wakes ∷ runs ∷ [])).flusher ≡ finished (full_result s)))
      × ((run s (notifies ∷ wakes ∷ runs ∷ [])).flusher ≡ finished (full_result s))
run-start_wakes round q wait es s reached h n =
    let v = subst Inv reached (run-start-Inv round q wait es) in
    (
      (elim (Bool-cases (s.pending == 0)) [
        | inl e ↦ inr (wake_parked s v h n ((==_iff _ 0).0 e))
        | inr e ↦ inl (ground arith)
      ]),
      notify_parked s v h n,
    )

abbrev pub has_finished : Flusher → Bool
has_finished (finished r) = true
has_finished _ = false

expire_unfinished :
    (s : Sys)
    → Inv s
    → s.deadline ≤ s.now
    → has_finished (run s (expires ∷ runs ∷ runs ∷ [])).flusher ≡ true
unfolding run step check_quorum check_deadline
expire_unfinished s v h = ground arith

-- A round never hangs: once the deadline has passed, the timer and at most two steps of the
-- flusher end `await_flush`, from every state that any interleaving reaches, quorum or not.
pub run-start_expires :
    (round q wait : ℕ) (es : List Event) (s : Sys)
    → run (start round q wait) es ≡ s
    → s.deadline ≤ s.now
    → has_finished (run s (expires ∷ runs ∷ runs ∷ [])).flusher ≡ true
run-start_expires round q wait es s reached h =
    expire_unfinished s (subst Inv reached (run-start-Inv round q wait es)) h

finished_step :
    (s : Sys) (e : Event) (r : FlushResult)
    → IsFlush s r
    → s.flusher ≡ finished r
    → ((step s e).flusher ≡ finished r)
      × ((step s e).accepted ≡ s.accepted)
      × ((step s e).buffer.state ≡ closed)
unfolding step push append notify_one
finished_step s (pushes d) r v h = ground arith
finished_step s (appends d) r v h = ground arith
finished_step s notifies r v h = ground arith
finished_step s runs r v h = ground arith
finished_step s wakes r v h = ground arith
finished_step s expires r v h = ground arith
finished_step s (ticks k) r v h = ground arith

finished_run :
    (s : Sys) (es : List Event) (r : FlushResult)
    → Inv s
    → s.flusher ≡ finished r
    → ((run s es).flusher ≡ finished r) × ((run s es).accepted ≡ s.accepted)
unfolding run
finished_run s [] r v h = (h, refl)
finished_run s (e ∷ es) r v h =
    let now = finished_step s e r (subst (λ f. FlusherInv f s) h v.phase) h in
    let later = finished_run (step s e) es r (step-Inv s e v) now.0 in (later.0, later.1 ∙ now.1)

-- A snapshot is final: after `await_flush` has returned, no later event changes its result, and no
-- later push is accepted into a batch that nobody will read.
pub run-start_final :
    (round q wait : ℕ) (es later : List Event) (s : Sys) (r : FlushResult)
    → run (start round q wait) es ≡ s
    → s.flusher ≡ finished r
    → ((run s later).flusher ≡ finished r) × ((run s later).accepted ≡ s.accepted)
run-start_final round q wait es later s r reached h =
    finished_run s later r (subst Inv reached (run-start-Inv round q wait es)) h
