-- ===== src/Core/Optimizer.antt =====
-- crates/conflux-core/src/optimization.rs: the server optimizers FedAdagrad, FedAdam, FedYogi and
-- FedAvgM. The state behind the mutex goes in and comes out.
pub mod Commits
use conflux_fl.Base.{
  ℕ, zero, suc, Bool, not, true, false, Option, none, some, List, [], ◌∷◌, ◌++◌, length, ◌==◌,
  if◌then◌else◌, Result, ok, err, Text, text,
}
use conflux_fl.Float.{F32, F64, Arithmetic, Arithmetic64, one_f32, zero_f64, one_f64, minus_one_f64}
use conflux_fl.Proto.{ClientDelta}
use conflux_fl.Core.{Fault, panics, refuses, empty_batch, non_finite_weights}
use conflux_fl.Core.Averaging.{Aggregator, validated, zeros, fed_avg}
use conflux_fl.Core.Batch.{dim_of, position_non_finite}
use conflux_fl.Core.Robust.Filters.{mean_of}

pub data FedOptVariant : Type 0 where
  adagrad : FedOptVariant
  adam : FedOptVariant
  yogi : FedOptVariant

-- `FedOptVariant::name`
unfoldable pub name : FedOptVariant → Text
name adagrad = text "fedadagrad"
name adam = text "fedadam"
name yogi = text "fedyogi"

pub record FedOptParams : Type 0 where
  pub server_learning_rate : F32
  pub beta1 : F32
  pub beta2 : F32
  pub tau : F32

pub record OptimizerState : Type 0 where
  pub global : List F32
  pub m : List F64
  pub v : List F64

-- `vec![x; dim]`
unfoldable pub filled : F64 → ℕ → List F64
filled x zero = []
filled x (suc n) = x ∷ filled x n

-- The state behind `FedAvgMAggregator::state`.
pub record MomentumState : Type 0 where
  pub global : List F32
  pub velocity : List F64

module _ (h : Arithmetic) (ops : Arithmetic64) where
  open ops use {add, sub, mul, div, sqrt, maximum, less, of_f32, to_f32}

  -- `sign(v - d2)`
  unfoldable pub sign : F64 → F64
  sign diff =
      if less zero_f64 diff
      then one_f64
      else (if less diff zero_f64 then minus_one_f64 else zero_f64)

  unfoldable pub second_moment : FedOptVariant → F64 → F64 → F64 → F64
  unfolding sign
  second_moment adagrad beta2 v d2 = add v d2
  second_moment adam beta2 v d2 = add (mul beta2 v) (mul (sub one_f64 beta2) d2)
  second_moment yogi beta2 v d2 = sub v (mul (mul (sub one_f64 beta2) d2) (sign (sub v d2)))

  -- `(tau * tau) as f64`
  abbrev pub floor_of : FedOptParams → F64
  floor_of params = of_f32 (h.mul params.tau params.tau)

  -- One coordinate: the next first and second moment, and the next weight.
  unfoldable pub adapt : FedOptVariant → FedOptParams → F32 → F32 → F64 → F64 → F64 × F64 × F32
  unfolding second_moment
  adapt variant params target previous m v =
      let delta = sub (of_f32 target) (of_f32 previous) in
      let beta1 = of_f32 params.beta1 in
      let m' = add (mul beta1 m) (mul (sub one_f64 beta1) delta) in
      let v' =
        maximum (second_moment variant (of_f32 params.beta2) v (mul delta delta))
          (floor_of params) in
      let step =
        div (mul (of_f32 params.server_learning_rate) m') (add (sqrt v') (of_f32 params.tau)) in
      (m', v', to_f32 (add (of_f32 previous) step))

  -- The loop over the coordinates; `state.m[i]` and `state.v[i]` panic out of bounds.
  unfoldable pub adapt_all :
      FedOptVariant
      → FedOptParams
      → List F32
      → List F32
      → List F64
      → List F64
      → Result Fault (List F64 × List F64 × List F32)
  unfolding adapt
  adapt_all variant params [] global ms vs = ok ([], [], [])
  adapt_all variant params (t ∷ ts) [] ms vs = ok ([], [], [])
  adapt_all variant params (t ∷ ts) (p ∷ ps) [] vs = err panics
  adapt_all variant params (t ∷ ts) (p ∷ ps) (m ∷ ms) [] = err panics
  adapt_all variant params (t ∷ ts) (p ∷ ps) (m ∷ ms) (v ∷ vs) =
      let (m', v', w) = adapt variant params t p m v in
      elim (adapt_all variant params ts ps ms vs) [
        | err e ↦ err e
        | ok (ms', vs', ws) ↦ ok (m' ∷ ms', v' ∷ vs', w ∷ ws)
      ]

  abbrev pub seeded : FedOptParams → List F32 → ℕ → OptimizerState
  seeded params aggregate dim = record {
    global = aggregate;
    m = filled zero_f64 dim;
    v = filled (floor_of params) dim;
  }

  -- `copy_from_slice`, which panics where the lengths differ; the moments are stored by then.
  unfoldable pub commit :
      OptimizerState
      → List F64 × List F64 × List F32
      → Option OptimizerState × Result Fault (List F32)
  commit s (ms, vs, next) =
      if length s.global == length next
      then (some (record { global = next; m = ms; v = vs }), ok next)
      else (some (record { global = s.global; m = ms; v = vs }), err panics)

  -- The check of the iterate, before anything is stored.
  unfoldable pub validate :
      FedOptVariant
      → OptimizerState
      → List F64 × List F64 × List F32
      → Option OptimizerState × Result Fault (List F32)
  unfolding commit name
  validate variant s (ms, vs, next) = elim (position_non_finite next) [
    | some index ↦ (
      some s,
      err (
          refuses
            (non_finite_weights (text "<" ++ name variant ++ text " server optimizer>") index)),
    )
    | none ↦ commit s (ms, vs, next)
  ]

  unfoldable pub advance :
      FedOptVariant
      → FedOptParams
      → OptimizerState
      → List F32
      → Option OptimizerState × Result Fault (List F32)
  unfolding adapt_all validate
  advance variant params s aggregate = elim (adapt_all variant params aggregate s.global s.m s.v) [
    | err e ↦ (some s, err e)
    | ok next ↦ validate variant s next
  ]

  unfoldable pub optimize :
      FedOptVariant
      → FedOptParams
      → ℕ
      → Option OptimizerState
      → List F32
      → Option OptimizerState × Result Fault (List F32)
  unfolding advance filled
  optimize variant params dim none aggregate = (some (seeded params aggregate dim), ok aggregate)
  optimize variant params dim (some s) aggregate =
      if length s.global == dim
      then advance variant params s aggregate
      else (some (seeded params aggregate dim), ok aggregate)

  -- The batch's aggregate: the base method's, or the unweighted mean.
  unfoldable pub aggregate_of :
      Option Aggregator → List (List F32) → List ClientDelta → Result Fault (List F32)
  unfolding mean_of
  aggregate_of (some base) decoded updates = base updates
  aggregate_of none decoded updates = ok (mean_of h decoded)

  -- `FedOptAggregator::aggregate`
  unfoldable pub fed_opt :
      FedOptVariant
      → FedOptParams
      → Option Aggregator
      → Option OptimizerState
      → List ClientDelta
      → Option OptimizerState × Result Fault (List F32)
  unfolding aggregate_of optimize
  fed_opt variant params base state [] = (state, err (refuses empty_batch))
  fed_opt variant params base state (u ∷ us) = elim (validated (u ∷ us)) [
    | err e ↦ (state, err e)
    | ok decoded ↦ elim (aggregate_of base decoded (u ∷ us)) [
      | err e ↦ (state, err e)
      | ok aggregate ↦ optimize variant params (dim_of decoded) state aggregate
    ]
  ]

  -- One coordinate of FedAvgM: the next velocity and the next weight.
  unfoldable pub push_on : F64 → F64 → F32 → F32 → F64 → F64 × F32
  push_on beta eta target previous v =
      let updated = add (mul beta v) (sub (of_f32 target) (of_f32 previous)) in
      (updated, to_f32 (add (of_f32 previous) (mul eta updated)))

  unfoldable pub push_all : F64 → F64 → List F32 → List F32 → List F64 → List F64 × List F32
  unfolding push_on
  push_all beta eta [] global velocity = ([], [])
  push_all beta eta (t ∷ ts) [] velocity = ([], [])
  push_all beta eta (t ∷ ts) (p ∷ ps) [] = ([], [])
  push_all beta eta (t ∷ ts) (p ∷ ps) (v ∷ vs) =
      let (v', w) = push_on beta eta t p v in
      let (vs', ws) = push_all beta eta ts ps vs in (v' ∷ vs', w ∷ ws)

  -- The check of the iterate, and the two copies, which panic where the lengths differ.
  unfoldable pub store :
      MomentumState → List F64 × List F32 → Option MomentumState × Result Fault (List F32)
  store s (velocity, next) = elim (position_non_finite next) [
    | some index ↦
        (some s, err (refuses (non_finite_weights (text "<fedavgm server optimizer>") index)))
    | none ↦
        if not (length s.velocity == length velocity)
        then (some s, err panics)
        else (if not (length s.global == length next)
            then (some (record { global = s.global; velocity = velocity }), err panics)
            else (some (record { global = next; velocity = velocity }), ok next))
  ]

  unfoldable pub accelerate :
      F32
      → F32
      → ℕ
      → Option MomentumState
      → List F32
      → Option MomentumState × Result Fault (List F32)
  unfolding push_all store filled
  accelerate beta eta dim none aggregate =
      (some (record { global = aggregate; velocity = filled zero_f64 dim }), ok aggregate)
  accelerate beta eta dim (some s) aggregate =
      if length s.global == dim
      then store s (push_all (of_f32 beta) (of_f32 eta) aggregate s.global s.velocity)
      else (some (record { global = aggregate; velocity = filled zero_f64 dim }), ok aggregate)

  unfoldable pub averaged : Option Aggregator → List ClientDelta → Result Fault (List F32)
  unfolding fed_avg
  averaged (some base) updates = base updates
  averaged none updates = fed_avg h updates

  -- `FedAvgMAggregator::aggregate`
  unfoldable pub fed_avg_m :
      F32
      → F32
      → Option Aggregator
      → Option MomentumState
      → List ClientDelta
      → Option MomentumState × Result Fault (List F32)
  unfolding averaged accelerate
  fed_avg_m beta eta base state [] = (state, err (refuses empty_batch))
  fed_avg_m beta eta base state (u ∷ us) = elim (validated (u ∷ us)) [
    | err e ↦ (state, err e)
    | ok decoded ↦ elim (averaged base (u ∷ us)) [
      | err e ↦ (state, err e)
      | ok aggregate ↦ accelerate beta eta (dim_of decoded) state aggregate
    ]
  ]
