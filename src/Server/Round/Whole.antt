-- ===== src/Server/Round/Whole.antt =====
-- crates/conflux-server/src/round.rs: a whole `run_round`, with the calls that clients make while it
-- waits in `await_flush`.
use conflux_fl.Base.{
  ℕ, ◌≤◌, ◌≡◌, refl, sym, ap, subst, ◌∙◌, Option, none, some, List, [], ◌∷◌, ◌++◌, true, ok, err,
  arith, length, ◌⊎◌, inl, inr,
}
use mathlib.Core.Option
use mathlib.Core.List.{append_assoc}
use conflux_fl.Buffer.{
  RoundBuffer, FlushResult, BufferError, new, push, append, notify_one, check_quorum,
  check_deadline,
}
use conflux_fl.Buffer
use conflux_fl.Buffer.Schedule.{Flusher, Sys, logged, step, run, start}
use conflux_fl.Buffer.Schedule
use conflux_fl.Buffer.Wakeup.{run-start-IsFlush, run-start_expires, has_finished}
use conflux_fl.Server.Error.{ServerError}
use conflux_fl.Server.History.{RoundSummary}
use conflux_fl.Server.Round.{Opened, Outcome, open_round, close_round, unwrap_or, quorum_override}
use conflux_fl.Server.Round.Opening.{open_round-Opening, Opening, IsOpen}
use conflux_fl.Server.Round.Progress.{close_round-Ended, Ended}
use conflux_fl.Server.State.{Environment, AppState}
use conflux_fl.Server.Round.Interleaved.{
  Event, waits, Live, run-append, reaches, happen_all, happen_all-Follows, reached, Beside,
}

-- The quorum and the deadline stay.
abbrev Bounds : Sys → Sys → Type 0
Bounds t s = (t.buffer.quorum ≡ s.buffer.quorum) × (t.deadline ≡ s.deadline)

map-some :
    {A B : Type 0} (f : A → B) (x : Option A) (b : B)
    → Option.map f x ≡ some b
    → (a : A) × (x ≡ some a) × (f a ≡ b)
map-some f (some a) b h = (a, refl, Option.some_inj.0 h)
map-some f none b h = ground arith

module _ (env : Environment) where
  abbrev pub waiting : AppState env → Live env
  waiting s = record {
    state = s;
    flusher = Schedule.checking;
    now = 0;
    deadline = s.config.round_timeout_secs;
    accepted = [];
    pending = 0;
  }

  abbrev pub returned : Flusher → Option FlushResult
  returned (Schedule.finished r) = some r
  returned Schedule.checking = none
  returned Schedule.timing = none
  returned Schedule.parked = none

  -- What follows the opening: none while the round still waits.
  abbrev pub conclude :
      Option ℕ → List Event → Outcome env Opened → Option (Outcome env RoundSummary)
  conclude now events (s, err e) = some (s, err e)
  conclude now events (s, ok o) =
      let l = happen_all env (waiting s) events in
      Option.map (λ flush. close_round env now o flush l.state) (returned l.flusher)

  unfoldable pub run_round :
      Option ℕ → List Event → AppState env → Option (Outcome env RoundSummary)
  run_round now events s = conclude now events (open_round env s)

  -- How a round ended that opened: the batch that was closed is what was appended to the buffer while
  -- it waited, in order; it reached the quorum, or time was up; the calls changed nothing else
  -- that the round reads.
  abbrev pub IsClosed : Option ℕ → List Event → AppState env → Outcome env RoundSummary → Type 0
  IsClosed now events s outcome =
      (s' : AppState env) × (o : Opened) × (flush : FlushResult) × (open_round env s ≡ (s', ok o))
      × IsOpen env s o s'
      × (flush.deltas ≡ (happen_all env (waiting s') events).accepted)
      × (flush.reason ≡ Buffer.quorum
          → unwrap_or env (quorum_override env s) (length o.selected) ≤ length flush.deltas)
      × (flush.reason ≡ Buffer.timeout
          → s'.config.round_timeout_secs ≤ (happen_all env (waiting s') events).now)
      × Beside env s' (happen_all env (waiting s') events).state
      × (outcome ≡ close_round env now o flush (happen_all env (waiting s') events).state)
      × Ended env o (happen_all env (waiting s') events).state outcome

  step-Bounds : (sys : Sys) (e : Schedule.Event) → Bounds (step sys e) sys
  unfolding step push append notify_one check_quorum check_deadline
  step-Bounds sys (Schedule.pushes d) = ground arith
  step-Bounds sys (Schedule.appends d) = ground arith
  step-Bounds sys Schedule.notifies = ground arith
  step-Bounds sys Schedule.runs = ground arith
  step-Bounds sys Schedule.wakes = ground arith
  step-Bounds sys Schedule.expires = ground arith
  step-Bounds sys (Schedule.ticks k) = ground arith

  run-Bounds : (sys : Sys) (es : List Schedule.Event) → Bounds (run sys es) sys
  unfolding run
  run-Bounds sys [] = (refl, refl)
  run-Bounds sys (e ∷ es) =
      let (q, d) = step-Bounds sys e in
      let (q', d') = run-Bounds (step sys e) es in (q' ∙ q, d' ∙ d)

  flushed :
      (events : List Event) (s s' : AppState env) (q : ℕ) (flush : FlushResult)
      → s'.current_buffer ≡ some (Buffer.new s.round q)
      → (happen_all env (waiting s') events).flusher ≡ Schedule.finished flush
      → (flush.deltas ≡ (happen_all env (waiting s') events).accepted)
        × (flush.reason ≡ Buffer.quorum → q ≤ length flush.deltas)
        × (flush.reason ≡ Buffer.timeout
            → s'.config.round_timeout_secs ≤ (happen_all env (waiting s') events).now)
        × Beside env s' (happen_all env (waiting s') events).state
  unfolding start new
  flushed events s s' q flush h done =
      let l = happen_all env (waiting s') events in
      let (b, _, same, beside) =
        happen_all-Follows env (waiting s') (Buffer.new s.round q) events h in
      let sys = run (start s.round q s'.config.round_timeout_secs) (reached env events) in
      let ended : sys.flusher ≡ Schedule.finished flush = sym (ap (λ x. x.flusher) same) ∙ done in
      let promise =
        run-start-IsFlush s.round q s'.config.round_timeout_secs (reached env events) flush ended in
      let (fixed, due) =
        run-Bounds (start s.round q s'.config.round_timeout_secs) (reached env events) in
      (
        promise.whole ∙ ap (λ x. x.accepted) (sym same),
        (λ e. subst (λ n. n ≤ length flush.deltas) fixed (promise.enough e)),
        (λ e.
            subst (λ n. n ≤ l.now) due
              (subst (λ n. sys.deadline ≤ n) (ap (λ x. x.now) (sym same)) (promise.late e))),
        beside,
      )

  -- How a round ended that did not open.
  abbrev pub IsRefused : AppState env → Outcome env RoundSummary → Type 0
  IsRefused s outcome =
      (why : ServerError) × (open_round env s ≡ (outcome.0, err why))
      × (outcome.1 ≡ err why)
      × (outcome.0.pushed ≡ s.pushed)
      × (outcome.0.current_buffer ≡ s.current_buffer)
      × (outcome.0.round ≡ s.round)

  returned_finished :
      (f : Flusher) (flush : FlushResult) → returned f ≡ some flush → f ≡ Schedule.finished flush
  returned_finished f flush h = ground arith

  concluded :
      (now : Option ℕ) (events : List Event) (s : AppState env) (outcome : Outcome env RoundSummary)
      (p : Outcome env Opened)
      → open_round env s ≡ p
      → Opening env s p
      → conclude now events p ≡ some outcome
      → IsRefused s outcome ⊎ IsClosed now events s outcome
  concluded now events s outcome (s', err why) opened facts h =
      let same : (s', err why) ≡ outcome = Option.some_inj.0 h in
      subst (λ r. IsRefused s r ⊎ IsClosed now events s r) same
        (inl (why, opened, refl, facts.0, facts.1, facts.2))
  concluded now events s outcome (s', ok o) opened facts h =
      let l = happen_all env (waiting s') events in
      let (flush, done, e) = map-some _ (returned l.flusher) outcome h in
      let (whole, enough, late, beside) =
        flushed events s s' (unwrap_or env (quorum_override env s) (length o.selected)) flush
          facts.1 (returned_finished l.flusher flush done) in
      inr (
        s',
        o,
        flush,
        opened,
        facts,
        whole,
        enough,
        late,
        beside,
        sym e,
        subst (Ended env o l.state) e (close_round-Ended env now o flush l.state),
      )

  -- A whole round, with the calls that clients make while it waits. If `run_round` returns, the
  -- round either failed to open, having broadcast nothing and left the buffer and the counter; or it
  -- opened, and what it closed is exactly what was appended to the buffer since, in that order, by the
  -- calls of `submit_delta` that were told it is accepted and by the buffer's own pushes: at least the
  -- quorum if the reason is `Quorum`, and no earlier than the timeout if it is `Timeout`. The calls leave the round's number, the accountant, the history and
  -- the store to it, and it ends as `close_round` does on that batch, completed or failed.
  pub run_round-IsClosed :
      (now : Option ℕ) (events : List Event) (s : AppState env) (outcome : Outcome env RoundSummary)
      → run_round now events s ≡ some outcome
      → IsRefused s outcome ⊎ IsClosed now events s outcome
  unfolding run_round
  run_round-IsClosed now events s outcome h =
      concluded now events s outcome (open_round env s) refl (open_round-Opening env s) h

  reached-append : (xs ys : List Event) → reached env (xs ++ ys) ≡ reached env xs ++ reached env ys
  reached-append [] ys = refl
  reached-append (x ∷ xs) ys =
      ap (λ es. reaches env x ++ es) (reached-append xs ys)
      ∙ sym (append_assoc (reaches env x) (reached env xs) (reached env ys))

  -- The timer of the waiting task fires, and the task is scheduled twice.
  abbrev pub overdue : List Event
  overdue = waits Schedule.expires ∷ waits Schedule.runs ∷ waits Schedule.runs ∷ []

  returned-has_finished :
      (f : Flusher) → has_finished f ≡ true → (flush : FlushResult) × (returned f ≡ some flush)
  returned-has_finished (Schedule.finished flush) h = (flush, refl)
  returned-has_finished Schedule.checking h = ground arith
  returned-has_finished Schedule.timing h = ground arith
  returned-has_finished Schedule.parked h = ground arith

  expired :
      (events : List Event) (s s' : AppState env) (q : ℕ)
      → s'.current_buffer ≡ some (Buffer.new s.round q)
      → s'.config.round_timeout_secs ≤ (happen_all env (waiting s') events).now
      → has_finished (happen_all env (waiting s') (events ++ overdue)).flusher ≡ true
  unfolding start new
  expired events s s' q h due =
      let wait = s'.config.round_timeout_secs in
      let sys = run (start s.round q wait) (reached env events) in
      let (_, _, same, _) = happen_all-Follows env (waiting s') (Buffer.new s.round q) events h in
      let (_, _, later, _) =
        happen_all-Follows env (waiting s') (Buffer.new s.round q) (events ++ overdue) h in
      let after : run (start s.round q wait) (reached env (events ++ overdue))
          ≡ run sys (Schedule.expires ∷ Schedule.runs ∷ Schedule.runs ∷ []) =
        ap (run (start s.round q wait)) (reached-append events overdue)
        ∙ run-append (start s.round q wait) (reached env events) (reached env overdue) in
      let clock : sys.deadline ≤ sys.now =
        subst (λ n. n ≤ sys.now) (sym (run-Bounds (start s.round q wait) (reached env events)).1)
          (subst (λ n. wait ≤ n) (ap (λ x. x.now) same) due) in
      ap (λ x. has_finished x.flusher) (later ∙ after)
      ∙ run-start_expires s.round q wait (reached env events) sys refl clock

  returns :
      (now : Option ℕ) (events : List Event) (s : AppState env) (p : Outcome env Opened)
      → Opening env s p
      → p.0.config.round_timeout_secs ≤ (happen_all env (waiting p.0) events).now
      → (outcome : Outcome env RoundSummary) × (conclude now (events ++ overdue) p ≡ some outcome)
  returns now events s (s', err why) facts due = ((s', err why), refl)
  returns now events s (s', ok o) facts due =
      let l = happen_all env (waiting s') (events ++ overdue) in
      let (flush, e) = returned-has_finished l.flusher (
        expired events s s' (unwrap_or env (quorum_override env s) (length o.selected)) facts.1
          due) in
      (
        close_round env now o flush l.state,
        ap (Option.map (λ flush. close_round env now o flush l.state)) e,
      )

  -- A round returns: once the clock has passed the configured timeout, whatever clients called and
  -- however the waiting task was scheduled until then, the timer and two steps of the task end
  -- `run_round`, with a summary or an error.
  pub run_round_returns :
      (now : Option ℕ) (events : List Event) (s : AppState env)
      → (open_round env s).0.config.round_timeout_secs
        ≤ (happen_all env (waiting (open_round env s).0) events).now
      → (outcome : Outcome env RoundSummary) × (run_round now (events ++ overdue) s ≡ some outcome)
  unfolding run_round
  run_round_returns now events s due =
      returns now events s (open_round env s) (open_round-Opening env s) due
