-- ===== src/Tests/Rounds.antt =====
-- Rounds of the small deployment, and its round loop.
use conflux_fl.Base.{
  ◌≡◌, refl, ap, none, some, Option, ◌⊎◌, false, List, [], ◌∷◌, ◌++◌, map, Nodup, err, length,
  arith, All, all?, Text-discrete, Text, ◌<◌, not,
}
use mathlib.Core.List.{Nodup-cons, Nodup-nil, mem-cons, not-mem-nil}
use mathlib.Core.List.Perm
use mathlib.Core.Logic.Or
use mathlib.Core.HLevel.{⊥_prop}
use conflux_fl.Base.Dict.{get, insert}
use conflux_fl.Core.Batch
use conflux_fl.Float.{is_finite}
use conflux_fl.Proto.{ClientDelta, DeltaChunk}
use conflux_fl.Server.Dispatcher.{submit_delta, heartbeat}
use conflux_fl.Server.History.{RoundSummary}
use conflux_fl.Proto.Codec.{encode_weights}
use conflux_fl.Proto.Codec
use conflux_fl.Buffer.{check_quorum, check_deadline, push, append, FlushResult, quorum}
use conflux_fl.Buffer.Schedule.{
  Event, pushes, appends, notifies, runs, wakes, ticks, finished, run, start, step,
}
use conflux_fl.Buffer.Wakeup.{IsFlush, full_result, run-start-IsFlush, run-start_wakes}
use conflux_fl.Server.Admission.{admit}
use conflux_fl.Server.Admission.Origin.{IsRebuilt, IsTransformed, MayEnter, admit-MayEnter}
use conflux_fl.Server.Error.{ServerError, is_transient, store_error}
use conflux_fl.Store.{no_checkpoint}
use conflux_fl.Server.Loop.{
  Turn, returns, panics, loop, first_ending, is_over, is_stopped, loop_ends,
}
use conflux_fl.Server.Health.{state_of, is_healthy, new}
use conflux_fl.Server.Round.{
  Opened, Outcome, prepare, check_batch_requirement, open_buffer, close_round, open_round,
}
use conflux_fl.Server.Round.Opening.{Opening, open_round-Opening}
use conflux_fl.Server.Round.Order.{close_round_perm}
use conflux_fl.Server.Round.Progress.{Ended, close_round-Ended}
use conflux_fl.Server.Round.Interleaved.{submits, heartbeats, waits, happen, happen_all}
use conflux_fl.Server.Round.Interleaved
use conflux_fl.Server.Round.Whole.{
  run_round, overdue, run_round_returns, run_round-IsClosed, IsRefused, IsClosed,
}
use conflux_fl.Tests.World.{world, idle, update, ann, jo}

-- Two clients against a quorum of one: the second comes too late.
abbrev script : List Event
script = pushes (update ann 7) ∷ runs ∷ pushes (update jo 8) ∷ []

abbrev flushed : FlushResult
flushed = record { round = 1; reason = quorum; deltas = update ann 7 ∷ [] }

run-start-IsFlush_example : IsFlush (run (start 1 1 10) script) flushed
unfolding run step start check_quorum check_deadline push
run-start-IsFlush_example = run-start-IsFlush 1 1 10 script flushed refl

-- The flusher parks on an empty buffer, and then the quorum is met by a push that is held up.
abbrev parking : List Event
parking = runs ∷ runs ∷ appends (update ann 7) ∷ []

run-start_wakes_example :
    ((0 < (run (start 1 1 10) parking).pending)
      ⊎ ((run (run (start 1 1 10) parking) (wakes ∷ runs ∷ [])).flusher
          ≡ finished (full_result (run (start 1 1 10) parking))))
    × ((run (run (start 1 1 10) parking) (notifies ∷ wakes ∷ runs ∷ [])).flusher
        ≡ finished (full_result (run (start 1 1 10) parking)))
unfolding run step start check_quorum check_deadline append
run-start_wakes_example =
    run-start_wakes 1 1 10 parking (run (start 1 1 10) parking) refl refl (omega arith)

abbrev opened : Opened
opened = record {
  round = 1;
  weights = 1 ∷ 2 ∷ [];
  active = ann ∷ jo ∷ [];
  selected = ann ∷ jo ∷ [];
}

abbrev arrived : FlushResult
arrived = record { round = 1; reason = quorum; deltas = update jo 8 ∷ update ann 7 ∷ [] }

distinct : Nodup (map (λ d. d.client_id) (update jo 8 ∷ update ann 7 ∷ []))
distinct = Nodup-cons.1 (
  (λ m. Or.elim ⊥_prop (mem-cons.0 m) (λ e. omega (arith, ap length e)) (λ t. not-mem-nil t)),
  Nodup-cons.1 ((λ m. not-mem-nil m), Nodup-nil),
)

close_round_perm_example :
    close_round world none opened arrived idle
    ≡ close_round world none opened
        (record arrived { deltas = update ann 7 ∷ update jo 8 ∷ [] })
        idle
close_round_perm_example =
    close_round_perm world none opened arrived (update ann 7 ∷ update jo 8 ∷ []) idle distinct
      (Perm.swap (update ann 7) (update jo 8) [])

close_round-Ended_example : Ended world opened idle (close_round world none opened arrived idle)
close_round-Ended_example = close_round-Ended world none opened arrived idle

open_round-Opening_example : Opening world idle (open_round world idle)
open_round-Opening_example = open_round-Opening world idle

-- Both clients submit while the round waits for two, and one of them comes again after the quorum.
abbrev chunk : Text → DeltaChunk
chunk id = record {
  client_id = id;
  round = 1;
  chunk_index = 0;
  payload = 7 ∷ 0 ∷ 0 ∷ 0 ∷ [];
  num_samples = 5;
  local_steps = none;
  local_loss = none;
  control_variate = none;
}

abbrev calls : List Interleaved.Event
calls =
    submits (chunk ann ∷ [])
    ∷ waits runs
    ∷ heartbeats ann
    ∷ submits (chunk jo ∷ [])
    ∷ waits runs
    ∷ waits runs
    ∷ waits wakes
    ∷ waits runs
    ∷ submits (chunk ann ∷ [])
    ∷ []

abbrev settled : Option (Outcome world RoundSummary) → Outcome world RoundSummary
settled (some outcome) = outcome
settled none = (idle, err (store_error no_checkpoint))

run_round-IsClosed_example :
    IsRefused world idle (settled (run_round world none calls idle))
    ⊎ IsClosed world none calls idle (settled (run_round world none calls idle))
unfolding run_round open_round happen_all happen submit_delta heartbeat step check_quorum push
    check_deadline prepare check_batch_requirement open_buffer
    conflux_fl.Privacy.Accountant.budget_exhausted conflux_fl.Privacy.Rdp.epsilon_from_rounds
    conflux_fl.Store.load_latest_weights conflux_fl.Registry.active_clients
    conflux_fl.Config.Preconditions.batch_requirement conflux_fl.Config.Preconditions.in_unit
    conflux_fl.Float.float_le conflux_fl.Config.Preconditions.rule_of conflux_fl.Buffer.new
run_round-IsClosed_example =
    run_round-IsClosed world none calls idle (settled (run_round world none calls idle)) refl

-- One of the two clients never comes.
abbrev lonely : List Interleaved.Event
lonely = submits (chunk ann ∷ []) ∷ waits runs ∷ waits runs ∷ waits (ticks 60) ∷ []

run_round_returns_example :
    (outcome : Outcome world RoundSummary) × (run_round world none (lonely ++ overdue world) idle
      ≡ some outcome)
unfolding open_round happen_all happen submit_delta step check_quorum push check_deadline prepare
    check_batch_requirement open_buffer conflux_fl.Privacy.Accountant.budget_exhausted
    conflux_fl.Privacy.Rdp.epsilon_from_rounds conflux_fl.Store.load_latest_weights
    conflux_fl.Registry.active_clients conflux_fl.Config.Preconditions.batch_requirement
    conflux_fl.Config.Preconditions.in_unit conflux_fl.Float.float_le
    conflux_fl.Config.Preconditions.rule_of conflux_fl.Buffer.new
run_round_returns_example = run_round_returns world none lonely idle (omega arith)

admit-MayEnter_example :
    All
      (IsRebuilt
        (IsTransformed world 1 (MayEnter world idle (update ann 7 ∷ [])))
        (update ann 7 ∷ []))
      (update ann 7 ∷ [])
unfolding admit conflux_fl.Core.Batch.decode_weights conflux_fl.Proto.Codec.decode_weights all?
    is_finite Text-discrete get insert encode_weights
admit-MayEnter_example = admit-MayEnter world idle 1 (update ann 7 ∷ []) (update ann 7 ∷ []) refl

-- A backend that is down for a turn, and then a round that panics.
abbrev outage : List Turn
outage =
    record { shutdown = false; outcome = returns (err (store_error no_checkpoint)) }
    ∷ record { shutdown = false; outcome = panics }
    ∷ []

abbrev silent : ServerError → Text
silent e = []

loop_ends_example :
    ((loop silent new outage).ended ≡ is_over silent (first_ending silent outage))
    × (is_healthy (state_of (loop silent new outage).health)
        ≡ not (is_stopped silent (first_ending silent outage)))
unfolding new is_transient
loop_ends_example = loop_ends silent outage
