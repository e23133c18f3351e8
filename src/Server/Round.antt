-- ===== src/Server/Round.antt =====
-- crates/conflux-server/src/round.rs: `run_round`, in its two halves around `await_flush`. Between
-- them clients submit to the buffer that the first half opened.
pub mod Order
pub mod Progress
pub mod Opening
pub mod Interleaved
pub mod Whole
pub mod Validated
use conflux_fl.Base.{
  ℕ, zero, suc, ◌+◌, ◌%◌, ◌^◌, ◌==◌, ◌≡◌, Bool, true, false, not, Option, none, some, List, [], ◌∷◌,
  map, Result, ok, err, ◌>>=◌, ◌>>◌, map_err, length, if◌then◌else◌, Text, Bytes, text_le,
}
use mathlib.Core.Option
use conflux_fl.Base.Sort.{sort_by}
use conflux_fl.Float.{F32, zero_f32}
use conflux_fl.Proto.{ClientDelta, TaskResponse}
use conflux_fl.Proto.Codec.{encode_weights}
use conflux_fl.Proto.Codec
use conflux_fl.Buffer.{FlushResult, FlushReason}
use conflux_fl.Buffer
use conflux_fl.Config.{global}
use conflux_fl.Config.Preconditions.{BatchRequirement, satisfied_by, batch_requirement}
use conflux_fl.Privacy.Accountant.{
  RdpAccountant, budget_exhausted, record_round, record_round_for_client,
}
use conflux_fl.Server.Admission.{admit, is_per_client, is_halt}
use conflux_fl.Server.Dispatcher.{task_of}
use conflux_fl.Server.Error.{
  ServerError, store_error, registry_error, aggregator_error, precondition_violated,
  trusted_reference_unavailable,
}
use conflux_fl.Server.History.{RoundSummary}
use conflux_fl.Server.History
use conflux_fl.Server.State.{Environment, AppState}
use conflux_fl.Server.Verdict.{record_satisfied, satisfied}

abbrev pub sorted_by_client : List ClientDelta → List ClientDelta
sorted_by_client deltas = sort_by (λ a b. text_le a.client_id b.client_id) deltas

-- What the first half hands to the second.
pub record Opened : Type 0 where
  pub round : ℕ
  pub weights : List F32
  pub active : List Text
  pub selected : List Text

module _ (env : Environment) where
  -- A step of the round: the state after it, and what it returns.
  abbrev pub Outcome : Type 0 → Type 0
  Outcome A = AppState env × Result ServerError A

  abbrev pub and_then : {A B : Type 0} → Outcome A → (A → AppState env → Outcome B) → Outcome B
  and_then (s, ok a) f = f a s
  and_then (s, err e) f = (s, err e)

  abbrev pub quorum_override : AppState env → Option ℕ
  quorum_override s = s.config.quorum

  -- `unwrap_or`
  abbrev pub unwrap_or : Option ℕ → ℕ → ℕ
  unwrap_or none n = n
  unwrap_or (some q) n = q

  unfoldable pub check_batch_requirement : ℕ → ℕ → AppState env → Outcome (Unit {0})
  check_batch_requirement round batch s =
      elim (batch_requirement env.arithmetic s.config.aggregator s.config.robust_byzantine_fraction
        batch) [
          | none ↦ (s, ok tt)
          | some req ↦
              if satisfied_by req batch
              then (
                record s {
                  round_verdict = (record_satisfied s.config.round_log_detail s.round_verdict).0;
                },
                ok tt,
              )
              else (
                s,
                err (
                    precondition_violated round s.config.aggregator batch req.required
                      req.excluded),
              )
        ]

  unfoldable pub check_privacy_budget : AppState env → Result ServerError (Unit {0})
  check_privacy_budget s =
      let exhausted =
        budget_exhausted env.arithmetic64 env.iteration s.config.target_epsilon s.config.delta
          s.accountant in
      if is_per_client s.config.accounting_scope
      then ok tt
      else (if not exhausted
          then ok tt
          else (if is_halt s.config.budget_exhausted_action
              then err ServerError.budget_exhausted
              else ok tt))

  -- Up to the selection nothing is written.
  unfoldable pub prepare : AppState env → Result ServerError Opened
  unfolding check_privacy_budget
  prepare s = do
    check_privacy_budget s
    weights ← map_err store_error (env.load_latest_weights s.store)
    active ← map_err registry_error (env.active_clients s.registry)
    ok (record {
      round = s.round;
      weights = weights;
      active = active;
      selected = env.select active (unwrap_or (quorum_override s) (length active)) s.round;
    })

  -- The buffer and the broadcast.
  unfoldable pub open_buffer : Opened → ℕ → AppState env → AppState env
  open_buffer o quorum s = record s {
    current_buffer = some (Buffer.new o.round quorum);
    pushed = task_of o.round o.weights (env.control_variate s.aggregator) ∷ s.pushed;
  }

  -- The first half of `run_round`, up to `await_flush`.
  unfoldable pub open_round : AppState env → Outcome Opened
  unfolding prepare check_batch_requirement open_buffer
  open_round s = elim (prepare s) [
    | err e ↦ (s, err e)
    | ok o ↦
        (let quorum = unwrap_or (quorum_override s) (length o.selected) in
          and_then (check_batch_requirement o.round (quorum % 2 ^ 32) s)
            (λ _ s'. (open_buffer o quorum s', ok o)))
  ]

  unfoldable pub fetch_and_inject_trusted_reference :
      ℕ → List F32 → AppState env → Outcome (Unit {0})
  fetch_and_inject_trusted_reference round weights s =
      let unavailable = trusted_reference_unavailable round in
      elim s.trusted_reference [
        | none ↦ (s, err unavailable)
        | some sidecar ↦ elim (env.reference_update round (encode_weights weights) sidecar) [
          | err _ ↦ (s, err unavailable)
          | ok bytes ↦ elim (Codec.decode_weights bytes) [
            | err _ ↦ (s, err unavailable)
            | ok reference ↦ (
              record s { aggregator = env.set_trusted_reference weights reference s.aggregator },
              ok tt,
            )
          ]
        ]
      ]

  unfoldable pub fetch_and_inject_candidate_scores :
      ℕ → List F32 → List ClientDelta → AppState env → Outcome (Unit {0})
  fetch_and_inject_candidate_scores round weights batch s =
      let unavailable = trusted_reference_unavailable round in
      elim s.trusted_reference [
        | none ↦ (s, err unavailable)
        | some sidecar ↦
            elim (env.score_updates round (encode_weights weights)
              (map (λ d. (d.client_id, d.weights)) batch) sidecar) [
                | err _ ↦ (s, err unavailable)
                | ok scores ↦ (
                  record s { aggregator = env.set_candidate_scores weights scores s.aggregator },
                  ok tt,
                )
              ]
      ]

  -- The sidecar's part, for the methods that ask for it: a reference, and scores.
  unfoldable pub inject_reference : Opened → AppState env → Outcome (Unit {0})
  unfolding fetch_and_inject_trusted_reference
  inject_reference o s =
      if env.requires_trusted_reference s.aggregator
      then fetch_and_inject_trusted_reference o.round o.weights s
      else (s, ok tt)

  unfoldable pub inject_scores : Opened → List ClientDelta → AppState env → Outcome (Unit {0})
  unfolding fetch_and_inject_candidate_scores
  inject_scores o batch s =
      if env.requires_candidate_scores s.aggregator
      then fetch_and_inject_candidate_scores o.round o.weights batch s
      else (s, ok tt)

  unfoldable pub consult_sidecar : Opened → List ClientDelta → AppState env → Outcome (Unit {0})
  unfolding inject_reference inject_scores
  consult_sidecar o batch s = and_then (inject_reference o s) (λ _ s'. inject_scores o batch s')

  abbrev pub record_clients : F32 → F32 → List Text → RdpAccountant → RdpAccountant
  record_clients noise rate [] a = a
  record_clients noise rate (id ∷ ids) a =
      record_clients noise rate ids (record_round_for_client id noise rate a)

  -- The appends to the durable log, which stop at the first failure.
  unfoldable pub append_clients :
      F32 → F32 → List Text → env.RoundLog → env.RoundLog × Result ServerError (Unit {0})
  append_clients noise rate [] log = (log, ok tt)
  append_clients noise rate (id ∷ ids) log =
      let (log', outcome) = env.append_round_for_client id noise rate log in
      let rest = append_clients noise rate ids log' in
      elim outcome [ err e ↦ (log', err (store_error e)) | ok _ ↦ rest ]

  unfoldable pub append_rounds :
      F32 → F32 → List Text → env.RoundLog → env.RoundLog × Result ServerError (Unit {0})
  unfolding append_clients
  append_rounds noise rate ids log =
      let (log', outcome) = env.append_round noise rate log in
      elim outcome [
        | err e ↦ (log', err (store_error e))
        | ok _ ↦ append_clients noise rate ids log'
      ]

  abbrev pub sample_rate : ℕ → ℕ → F32
  sample_rate num_selected num_active =
      if num_active == 0
      then zero_f32
      else env.arithmetic.div (env.arithmetic.of_nat num_selected)
          (env.arithmetic.of_nat num_active)

  unfoldable pub record_round_privacy_cost : ℕ → ℕ → List Text → AppState env → Outcome (Unit {0})
  unfolding append_rounds
  record_round_privacy_cost num_selected num_active admitted s =
      let rate = sample_rate num_selected num_active in
      let noise = s.config.noise_multiplier in
      let counted = record s {
        accountant = record_clients noise rate admitted (record_round noise rate s.accountant);
      } in
      elim s.accountant_log [
        | none ↦ (counted, ok tt)
        | some log ↦
            (let (log', outcome) = append_rounds noise rate admitted log in
              (record counted { accountant_log = some log' }, outcome))
      ]

  unfoldable pub aggregate_batch : List ClientDelta → AppState env → Outcome (List F32)
  aggregate_batch batch s =
      let (aggregator, outcome) = env.aggregate batch s.aggregator in
      (record s { aggregator = aggregator }, map_err aggregator_error outcome)

  unfoldable pub save : ℕ → List F32 → AppState env → Outcome (Unit {0})
  save round weights s =
      let (store, outcome) = env.save_checkpoint s.store round weights in
      (record s { store = store }, map_err store_error outcome)

  -- The end of a round that succeeded; `now` is the clock for its record.
  unfoldable pub complete : Option ℕ → RoundSummary → AppState env → Outcome RoundSummary
  complete now summary s = (
    record s {
      round = (summary.round + 1) % 2 ^ 64;
      current_buffer = none;
      round_history = History.record_round s.round_history summary (satisfied s.round_verdict) now;
    },
    ok summary,
  )

  -- From the admitted batch on.
  unfoldable pub finish :
      Option ℕ → Opened → FlushReason → ℕ → List ClientDelta → AppState env → Outcome RoundSummary
  unfolding consult_sidecar aggregate_batch save record_round_privacy_cost complete
  finish now o reason num_submitted batch s = and_then (consult_sidecar o batch s) (λ _ s₁.
      and_then (aggregate_batch batch s₁) (λ weights s₂. and_then (save o.round weights s₂) (λ _ s₃.
        and_then
          (record_round_privacy_cost (length o.selected) (length o.active)
            (map (λ d. d.client_id) batch) s₃)
          (λ _ s₄.
            complete now
              (record {
                round = o.round;
                flush_reason = reason;
                num_selected = length o.selected;
                num_submitted = num_submitted;
                num_passed = length batch;
              })
              s₄))))

  -- From the check of the batch that arrived on: why it was flushed, its size, and the sorted batch.
  unfoldable pub close_sorted :
      Option ℕ → Opened → FlushReason → ℕ → List ClientDelta → AppState env → Outcome RoundSummary
  unfolding check_batch_requirement admit finish
  close_sorted now o reason num_submitted deltas s =
      and_then (check_batch_requirement o.round (num_submitted % 2 ^ 32) s) (λ _ s'.
        elim (admit env s' o.round deltas) [
          | err e ↦ (s', err e)
          | ok batch ↦ finish now o reason num_submitted batch s'
        ])

  -- The second half of `run_round`.
  unfoldable pub close_round : Option ℕ → Opened → FlushResult → AppState env → Outcome RoundSummary
  unfolding close_sorted
  close_round now o flush s =
      close_sorted now o flush.reason (length flush.deltas) (sorted_by_client flush.deltas) s
