-- ===== src/Tests/Parts.antt =====
-- The parts on their own: the codec, the checks of a batch, the accountant, the store, the history.
use conflux_fl.Base.{
  ℕ, ◌≡◌, ◌≢◌, ◌↔◌, ◌⊎◌, ◌%◌, refl, none, some, List, [], ◌∷◌, map, take, Any, length, ok, err,
  arith, Text, text, Bytes,
}
use mathlib.Core.List.{reverse}
use conflux_fl.Buffer.{quorum}
use conflux_fl.Config.Preconditions.{
  Demands, rule_of, byzantine_count, batch_requirement, in_unit, batch_requirement-Demands,
}
use conflux_fl.Core.Batch.{decode_and_validate, IsFit, decode_and_validate_iff}
use conflux_fl.Float.{F32, float_le}
use conflux_fl.Privacy.Accountant.{
  Recorded, for_round, for_client, record_calls, experiment, own, current_epsilon,
  current_epsilon_for_client, epsilon-record_calls,
}
use conflux_fl.Privacy.Accountant
use conflux_fl.Privacy.Rdp.{epsilon_from_rounds}
use conflux_fl.Proto.Codec.{
  malformed, encode_weights, decode_weights, encode_weights-decode_weights,
}
use conflux_fl.Reputation.{filter_by_threshold, Passes, filter_by_threshold_iff}
use conflux_fl.Server.History.{Completed, row, recent, record_all, recent-record_all}
use conflux_fl.Server.History
use conflux_fl.Store.{
  InMemoryStore, Latest, save_all, list_checkpoints, load_latest_weights, load_checkpoint,
  no_checkpoint, load_latest_weights-save_all,
}
use conflux_fl.Store
use conflux_fl.Tests.World.{integers, integers64, update, ann, jo}

abbrev ragged : Bytes
ragged = 1 ∷ 2 ∷ 3 ∷ []

encode_weights-decode_weights_example :
    ((length ragged % 4 ≡ 0)
      × ((ws : List F32) × (decode_weights ragged ≡ ok ws) × (encode_weights ws ≡ ragged)))
    ⊎ ((length ragged % 4 ≢ 0) × (decode_weights ragged ≡ err (malformed 3)))
encode_weights-decode_weights_example =
    encode_weights-decode_weights ragged (omega arith, (omega arith, (omega arith, tt)))

decode_and_validate_iff_example :
    (decode_and_validate (update ann 7 ∷ update jo 8 ∷ []) ≡ ok ((7 ∷ []) ∷ (8 ∷ []) ∷ []))
    ↔ IsFit 1 (update ann 7 ∷ update jo 8 ∷ []) ((7 ∷ []) ∷ (8 ∷ []) ∷ [])
decode_and_validate_iff_example =
    decode_and_validate_iff (update ann 7 ∷ update jo 8 ∷ []) ((7 ∷ []) ∷ (8 ∷ []) ∷ [])

batch_requirement-Demands_example :
    Demands
      (rule_of (text "krum"))
      (byzantine_count integers 0 5)
      5
      (batch_requirement integers (text "krum") 0 5)
unfolding in_unit float_le
batch_requirement-Demands_example =
    batch_requirement-Demands integers (text "krum") 0 5 (omega arith) refl

abbrev scored : List (Text × List F32)
scored = (ann, 3 ∷ []) ∷ (jo, 1 ∷ 2 ∷ []) ∷ []

filter_by_threshold_iff_example :
    Any (λ j. j ≡ ann) (filter_by_threshold integers scored (5 ∷ []) 0)
    ↔ Any (λ u. (u.0 ≡ ann) × Passes integers (5 ∷ []) 0 u.1) scored
filter_by_threshold_iff_example = filter_by_threshold_iff integers ann scored (5 ∷ []) 0

abbrev calls : List Recorded
calls =
    for_round (1, 2)
    ∷ for_client ann (1, 2)
    ∷ for_client jo (1, 2)
    ∷ for_round (1, 3)
    ∷ for_client ann (1, 3)
    ∷ []

epsilon-record_calls_example :
    (current_epsilon integers64 (λ t. t) 1 (record_calls Accountant.new calls)
      ≡ epsilon_from_rounds integers64 (λ t. t) (experiment calls) 1)
    × (current_epsilon_for_client integers64 (λ t. t) jo 1 (record_calls Accountant.new calls)
        ≡ epsilon_from_rounds integers64 (λ t. t) (own jo calls) 1)
epsilon-record_calls_example = epsilon-record_calls integers64 (λ t. t) jo 1 calls

abbrev saves : List (ℕ × List F32)
saves = (2, 7 ∷ []) ∷ (1, 8 ∷ []) ∷ (2, 9 ∷ []) ∷ []

load_latest_weights-save_all_example :
    (s : InMemoryStore) × (s ≡ save_all (Store.new (1 ∷ [])) saves)
    × Latest (Store.new (1 ∷ [])) saves s
    × (list_checkpoints s ≡ ok (s.round ∷ []))
    × (load_latest_weights s ≡ ok s.weights)
    × (load_checkpoint s s.round ≡ ok s.weights)
    × ((1 ≡ s.round) ⊎ (load_checkpoint s 1 ≡ err no_checkpoint))
load_latest_weights-save_all_example = load_latest_weights-save_all saves (1 ∷ []) 1

abbrev completed : ℕ → Completed
completed n = record {
  summary = record {
    round = n;
    flush_reason = quorum;
    num_selected = 3;
    num_submitted = 3;
    num_passed = 2;
  };
  satisfied = none;
  now = some n;
}

abbrev past : List Completed
past = completed 1 ∷ completed 2 ∷ completed 3 ∷ []

recent-record_all_example :
    recent (record_all (History.new 2) past) 5 ≡ take 5 (take 2 (reverse (map row past)))
recent-record_all_example = recent-record_all 2 5 past
