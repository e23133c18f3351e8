-- ===== src/Server/Round/Opening.antt =====
-- crates/conflux-server/src/round.rs: what clients see once a round is open.
use conflux_fl.Base.{
  ℕ, ◌≡◌, refl, sym, ap, ap₂, ◌∙◌, ◌%◌, ◌^◌, true, false, ◌⊎◌, inl, inr, some, List, ◌∷◌, ok, err,
  Result-cases, arith, length,
}
use conflux_fl.Proto.{TaskResponse}
use conflux_fl.Float.{F32}
use conflux_fl.Buffer
use conflux_fl.Privacy.Accountant.{budget_exhausted}
use conflux_fl.Server.Admission.{is_per_client, is_halt}
use conflux_fl.Server.Dispatcher.{fetch_task, task_of}
use conflux_fl.Server.Round.{
  Opened, Outcome, and_then, quorum_override, unwrap_or, check_privacy_budget, prepare,
  check_batch_requirement, open_buffer, open_round,
}
use conflux_fl.Server.State.{Environment, AppState}

module _ (env : Environment) where
  -- The gate of the experiment's budget lets a round start: budgets are each client's own, or the
  -- action is another than `Halt`, or the budget is not exhausted.
  abbrev pub MayStart : AppState env → Type 0
  MayStart s =
      (is_per_client s.config.accounting_scope ≡ true)
      ⊎ (is_halt s.config.budget_exhausted_action ≡ false)
      ⊎ (budget_exhausted env.arithmetic64 env.iteration s.config.target_epsilon s.config.delta
            s.accountant
          ≡ false)

  -- What opening did: the broadcast task is the one that `fetch_task` answers, the buffer is fresh.
  abbrev pub IsOpen : AppState env → Opened → AppState env → Type 0
  IsOpen s o s' =
      ((task : TaskResponse) × (fetch_task env s' ≡ ok task) × (s'.pushed ≡ task ∷ s.pushed))
      × (s'.current_buffer
          ≡ some (Buffer.new s.round (unwrap_or env (quorum_override env s) (length o.selected))))
      × (s'.round ≡ s.round)
      × (o.round ≡ s.round)
      × MayStart s

  abbrev pub Opening : AppState env → Outcome env Opened → Type 0
  Opening s (s', ok o) = IsOpen s o s'
  Opening s (s', err e) =
      (s'.pushed ≡ s.pushed) × (s'.current_buffer ≡ s.current_buffer) × (s'.round ≡ s.round)

  prepare-opened :
      (s : AppState env) (o : Opened)
      → prepare env s ≡ ok o
      → (check_privacy_budget env s ≡ ok tt)
        × (env.load_latest_weights s.store ≡ ok o.weights)
        × (o.round ≡ s.round)
  unfolding prepare
  prepare-opened s o h = ground arith

  -- What the check of the requirement leaves alone.
  abbrev Unread : AppState env → AppState env → Type 0
  Unread s t =
      (t.store ≡ s.store)
      × (t.pushed ≡ s.pushed)
      × (t.current_buffer ≡ s.current_buffer)
      × (t.round ≡ s.round)

  check_batch_requirement-Unread :
      (round batch : ℕ) (s : AppState env) → Unread s (check_batch_requirement env round batch s).0
  unfolding check_batch_requirement
  check_batch_requirement-Unread round batch s = ground arith

  check_privacy_budget-left : (s : AppState env) → check_privacy_budget env s ≡ ok tt → MayStart s
  unfolding check_privacy_budget
  check_privacy_budget-left s h = ground arith

  fetch_task-task_of :
      (s : AppState env) (weights : List F32)
      → env.load_latest_weights s.store ≡ ok weights
      → fetch_task env s ≡ ok (task_of s.round weights (env.control_variate s.aggregator))
  unfolding fetch_task
  fetch_task-task_of s weights h = rw h refl

  buffer-Opening :
      (s : AppState env) (o : Opened) (m : Outcome env (Unit {0}))
      → Unread s m.0
      → (check_privacy_budget env s ≡ ok tt)
        × (env.load_latest_weights s.store ≡ ok o.weights)
        × (o.round ≡ s.round)
      → Opening s (
          and_then env m (λ _ t. (
            open_buffer env o (unwrap_or env (quorum_override env s) (length o.selected)) t,
            ok o,
          )))
  unfolding open_buffer
  buffer-Opening s o (t, ok u) (store, pushed, buffer, round) (budget, weights, number) =
      let q = unwrap_or env (quorum_override env s) (length o.selected) in
      let loaded : env.load_latest_weights t.store ≡ ok o.weights =
        ap env.load_latest_weights store ∙ weights in
      let task : task_of o.round o.weights (env.control_variate t.aggregator)
          ≡ task_of t.round o.weights (env.control_variate t.aggregator) =
        ap (λ r. task_of r o.weights (env.control_variate t.aggregator)) (number ∙ sym round) in
      (
        (_, fetch_task-task_of (open_buffer env o q t) o.weights loaded, ap₂ ◌∷◌ task pushed),
        ap (λ r. some (Buffer.new r q)) number,
        round,
        number,
        check_privacy_budget-left s budget,
      )
  buffer-Opening s o (t, err e) (store, pushed, buffer, round) facts = (pushed, buffer, round)

  -- A round that opens tells every client the same: the task that is broadcast to push-mode
  -- subscribers is the one that `fetch_task` answers from then on; its buffer is a fresh one for the
  -- round and its quorum; and the budget's gate let it start, which under experiment-wide accounting with
  -- `Halt` means that the budget was not exhausted. One that fails to open has broadcast nothing, and left the buffer and the counter.
  pub open_round-Opening : (s : AppState env) → Opening s (open_round env s)
  unfolding open_round
  open_round-Opening s = elim (Result-cases (prepare env s)) [
    | inl (o, e) ↦
        rw (open_round, e)
          (buffer-Opening s o _
            (check_batch_requirement-Unread o.round
              (unwrap_or env (quorum_override env s) (length o.selected) % 2 ^ 32) s)
            (prepare-opened s o e))
    | inr (why, e) ↦ rw (open_round, e) (refl, refl, refl)
  ]
