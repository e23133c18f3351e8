-- ===== src/Core/Zeno.antt =====
-- crates/conflux-core/src/trusted.rs: `ZenoAggregator`, which drops the candidates that the sidecar's
-- scores make most suspicious and averages the others.
pub mod Ranking
pub mod Scores
use conflux_fl.Base.{
  ℕ, suc, ◌-◌, ◌/◌, ◌%◌, ◌^◌, ◌==◌, Bool, true, false, leb, Option, none, some, List, [], ◌∷◌, map,
  length, take, if◌then◌else◌, Result, ok, err, ok_or, map_err, ◌>>=◌, Text, Text-discrete,
}
use conflux_fl.Base.Dict.{get, insert, remove}
use conflux_fl.Base.Sort.{sort_by}
use conflux_fl.Config.Preconditions.{byzantine_count}
use conflux_fl.Float.{F32, F64, Arithmetic, Arithmetic64, one_f32}
use conflux_fl.Proto.{ClientDelta}
use conflux_fl.Core.{
  AggregatorError, Fault, refuses, empty_batch, missing_candidate_scores, unscored_client,
  candidate_scores_dimension,
}
use conflux_fl.Core.Averaging.{validated, zeros}
use conflux_fl.Core.Batch.{dim_of}
use conflux_fl.Core.Robust.Filters.{picked, add_shares}

pub record CandidateScores : Type 0 where
  pub global_weights : List F32
  pub scores : List (Text × F32)

-- `f64::NEG_INFINITY`
abbrev pub neg_infinity : F64
neg_infinity = 0xfff0000000000000

abbrev pub sign64 : F64 → Bool
sign64 x = x / 2 ^ 63 % 2 == 1

abbrev pub magnitude64 : F64 → ℕ
magnitude64 x = x % 2 ^ 63

-- `a.total_cmp(&b)` is not `Greater`.
unfoldable pub total_le : F64 → F64 → Bool
total_le a b =
    if sign64 a
    then (if sign64 b then leb (magnitude64 b) (magnitude64 a) else true)
    else (if sign64 b then false else leb (magnitude64 a) (magnitude64 b))

-- `b.1.total_cmp(&a.1)`: the highest score first.
abbrev pub trusted_first : ℕ × F64 → ℕ × F64 → Bool
trusted_first p q = total_le q.1 p.1

-- `into_iter().collect()`: of two entries for one key the later stays.
unfoldable pub collect_scores : List (Text × F32) → List (Text × F32) → List (Text × F32)
unfolding insert Text-discrete
collect_scores [] m = m
collect_scores ((id, score) ∷ entries) m = collect_scores entries (insert Text-discrete id score m)

module _ (h : Arithmetic) (d : Arithmetic64) where
  unfoldable pub squared_gaps : List F32 → List F32 → List F64
  squared_gaps [] global = []
  squared_gaps (y ∷ weights) [] = []
  squared_gaps (y ∷ weights) (x ∷ global) =
      let gap = d.sub (d.of_f32 y) (d.of_f32 x) in d.mul gap gap ∷ squared_gaps weights global

  unfoldable pub suspicion : F32 → List F32 → F32 → List F32 → F64
  unfolding squared_gaps
  suspicion rho global score weights =
      let sds =
        d.sub (d.of_f32 score) (d.mul (d.of_f32 rho) (d.sum (squared_gaps weights global))) in
      if d.finite sds then sds else neg_infinity

  -- The loop over the batch; a score is used up by its client.
  unfoldable pub suspicions :
      F32
      → List F32
      → ℕ
      → List ClientDelta
      → List (List F32)
      → List (Text × F32)
      → Result AggregatorError (List (ℕ × F64))
  unfolding suspicion get remove Text-discrete
  suspicions rho global i [] vectors by_client = ok []
  suspicions rho global i (u ∷ us) [] by_client = ok []
  suspicions rho global i (u ∷ us) (w ∷ ws) by_client = do
    score ← ok_or (get Text-discrete u.client_id by_client) (unscored_client u.client_id)
    rest ← suspicions rho global (suc i) us ws (remove Text-discrete u.client_id by_client)
    ok ((i, suspicion rho global score w) ∷ rest)

  -- The unweighted mean of the kept candidates, the share folded into each term.
  unfoldable pub kept_mean : ℕ → List (List F32) → List F32
  unfolding zeros add_shares
  kept_mean dim vectors =
      add_shares h (h.div one_f32 (h.of_nat (length vectors))) (zeros dim) vectors

  abbrev pub most_trusted : F32 → ℕ → List (ℕ × F64) → List (ℕ × F64)
  most_trusted fraction n ranked =
      take (n - byzantine_count h fraction n) (sort_by trusted_first ranked)

  -- What follows once the scores are taken.
  unfoldable pub rank_and_average :
      F32 → F32 → List ClientDelta → List (List F32) → CandidateScores → Result Fault (List F32)
  unfolding suspicions collect_scores kept_mean sort_by byzantine_count
  rank_and_average fraction rho updates decoded injected =
      if length injected.global_weights == dim_of decoded
      then (do
        ranked ← map_err refuses (
            suspicions rho injected.global_weights 0 updates decoded
              (collect_scores injected.scores []))
        vectors ← picked decoded (map (λ p. p.0) (most_trusted fraction (length updates) ranked))
        ok (kept_mean (dim_of decoded) vectors))
      else err
          (refuses (candidate_scores_dimension (dim_of decoded) (length injected.global_weights)))

  -- `ZenoAggregator::aggregate`: the scores that are left, and what it returns.
  unfoldable pub zeno :
      F32
      → F32
      → List ClientDelta
      → Option CandidateScores
      → Option CandidateScores × Result Fault (List F32)
  unfolding rank_and_average
  zeno fraction rho [] scores = (scores, err (refuses empty_batch))
  zeno fraction rho (u ∷ us) scores = elim (validated (u ∷ us)) [
    | err e ↦ (scores, err e)
    | ok decoded ↦ elim scores [
      | none ↦ (none, err (refuses missing_candidate_scores))
      | some injected ↦ (none, rank_and_average fraction rho (u ∷ us) decoded injected)
    ]
  ]
