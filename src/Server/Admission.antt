-- ===== src/Server/Admission.antt =====
-- crates/conflux-server/src/round.rs: which of the submitted updates reach the aggregator, and with
-- which weights.
pub mod Origin
pub mod Intact
use conflux_fl.Base.{
  ℕ, zero, suc, ◌+◌, ◌≡◌, Bool, true, false, ◌&&◌, ◌||◌, not, Option, none, some, List, [], ◌∷◌,
  map, Result, ok, err, ◌>>=◌, traverse, keep_if, all?, length, if◌then◌else◌, Text, Text-discrete,
  ite,
}
use conflux_fl.Base.Dict.{get, insert}
use conflux_fl.Float.{F32, Arithmetic, is_finite, zero_f32}
use conflux_fl.Proto.{ClientDelta}
use conflux_fl.Proto.Codec.{encode_weights}
use conflux_fl.Config.{
  AccountingScope, global, per_client, BudgetExhaustedAction, halt, continue_without_guarantee,
}
use conflux_fl.Core.Batch.{decode_weights}
use conflux_fl.Privacy.Accountant.{RdpAccountant, budget_exhausted_for_client}
use conflux_fl.Reputation.{filter_by_threshold}
use conflux_fl.Server.Error.{ServerError, aggregator_error}
use conflux_fl.Server.State.{Environment, AppState}

-- A client's decoded weights.
abbrev pub Decoded : Type 0
Decoded = Text × List F32

unfoldable pub decode_delta : ClientDelta → Result ServerError Decoded
decode_delta d = elim (decode_weights d.client_id d.weights) [
  | ok w ↦ ok (d.client_id, w)
  | err e ↦ err (aggregator_error e)
]

abbrev pub all_finite : Decoded → Bool
all_finite u = all? is_finite u.1

unfoldable pub decode_flushed_deltas : List ClientDelta → Result ServerError (List Decoded)
unfolding decode_delta traverse keep_if
decode_flushed_deltas deltas = do
  decoded ← traverse decode_delta deltas
  ok (keep_if all_finite decoded)

abbrev pub is_per_client : AccountingScope → Bool
is_per_client per_client = true
is_per_client global = false

abbrev pub is_halt : BudgetExhaustedAction → Bool
is_halt halt = true
is_halt continue_without_guarantee = false

-- The loop over the decoded updates, with the test of a client's own budget.
unfoldable pub keep_within_budget :
    BudgetExhaustedAction → (Text → Bool) → List Decoded → Result ServerError (List Decoded)
keep_within_budget action exhausted [] = ok []
keep_within_budget action exhausted ((client_id, weights) ∷ decoded) =
    let rest = keep_within_budget action exhausted decoded in
    if not (exhausted client_id)
    then (do kept ← rest; ok ((client_id, weights) ∷ kept))
    else (if is_halt action then err (ServerError.budget_exhausted_for_client client_id) else rest)

-- `for (s, w) in sum.iter_mut().zip(weights) { *s += w }`
abbrev pub add_into : (F32 → F32 → F32) → List F32 → List F32 → List F32
add_into add [] ws = []
add_into add (s ∷ ss) [] = s ∷ ss
add_into add (s ∷ ss) (w ∷ ws) = add s w ∷ add_into add ss ws

abbrev pub sum_into : (F32 → F32 → F32) → List F32 → List Decoded → List F32
sum_into add sum [] = sum
sum_into add sum ((id, weights) ∷ decoded) = sum_into add (add_into add sum weights) decoded

unfoldable pub mean_vector : Arithmetic → List Decoded → List F32
mean_vector ops [] = []
mean_vector ops ((id, first) ∷ rest) =
    let zeros = map (λ w. zero_f32) first in
    let n = ops.of_nat (length ((id, first) ∷ rest)) in
    map (λ s. ops.div s n) (sum_into ops.add zeros ((id, first) ∷ rest))

-- `collect::<HashMap<_, _>>()`: a later entry replaces an earlier one of the same key.
unfoldable pub collect_map : List Decoded → List Decoded → List Decoded
collect_map m [] = m
collect_map m ((id, w) ∷ us) = collect_map (insert Text-discrete id w m) us

-- `HashSet::contains`
unfoldable pub contains : List Text → Text → Bool
contains [] id = false
contains (x ∷ xs) id = let rest = contains xs id in ite (Text-discrete x id) true rest

-- One delta rebuilt with its client's weights, if there are any.
abbrev pub reencoded : Option (List F32) → ClientDelta → List ClientDelta → List ClientDelta
reencoded none d rest = rest
reencoded (some w) d rest = record d { weights = encode_weights w } ∷ rest

abbrev pub reencode_from : List Decoded → (Text → Bool) → List ClientDelta → List ClientDelta
reencode_from by_client passed [] = []
reencode_from by_client passed (d ∷ ds) =
    let rest = reencode_from by_client passed ds in
    if passed d.client_id then reencoded (get Text-discrete d.client_id by_client) d rest else rest

unfoldable pub reencode_passing_deltas :
    List ClientDelta → List Decoded → List Text → List ClientDelta
unfolding collect_map contains
reencode_passing_deltas deltas decoded passed_ids =
    reencode_from (collect_map [] decoded) (contains passed_ids) deltas

module _ (env : Environment) where
  unfoldable pub filter_by_per_client_budget :
      AppState env → List Decoded → Result ServerError (List Decoded)
  unfolding keep_within_budget
  filter_by_per_client_budget s decoded =
      let exhausted = λ (id : Text).
        budget_exhausted_for_client env.arithmetic64 env.iteration id s.config.target_epsilon
          s.config.delta s.accountant in
      if is_per_client s.config.accounting_scope
      then keep_within_budget s.config.budget_exhausted_action exhausted decoded
      else ok decoded

  -- From the n-th update of the batch on.
  unfoldable pub apply_server_side_privacy : ℕ → ℕ → List Decoded → List Decoded
  apply_server_side_privacy round n [] = []
  apply_server_side_privacy round n ((id, weights) ∷ decoded) =
      (id, env.transform round n weights) ∷ apply_server_side_privacy round (suc n) decoded

  unfoldable pub passed_ids : AppState env → List Decoded → List Text
  unfolding mean_vector
  passed_ids s decoded =
      if s.config.reputation_filter_enabled
      then filter_by_threshold env.arithmetic decoded (mean_vector env.arithmetic decoded)
          s.config.min_reputation_score
      else map (λ u. u.0) decoded

  -- `run_round` from the decoding to the re-encoding.
  unfoldable pub admit : AppState env → ℕ → List ClientDelta → Result ServerError (List ClientDelta)
  unfolding decode_flushed_deltas filter_by_per_client_budget apply_server_side_privacy passed_ids
      reencode_passing_deltas
  admit s round deltas = do
    decoded ← decode_flushed_deltas deltas
    budgeted ← filter_by_per_client_budget s decoded
    (let transformed = apply_server_side_privacy round 0 budgeted in
        ok (reencode_passing_deltas deltas transformed (passed_ids s transformed)))
