-- ===== src/Core/Averaging.antt =====
-- crates/conflux-core/src/averaging.rs and the accumulation of src/weights.rs: the weighted mean.
use conflux_fl.Base.{
  sym, ◌∙◌, Bool, true, false, ℕ, zero, suc, ◌≡◌, refl, ap, List, [], ◌∷◌, map, Bool, arith, length,
  if◌then◌else◌, Result, ok, err, map_err, ◌>>=◌, ◌==◌,
}
use conflux_fl.Float.{F32, Arithmetic, magnitude, zero_f32}
use conflux_fl.Proto.{ClientDelta}
use conflux_fl.Core.{Fault, refuses, empty_batch, zero_weight_sum}
use conflux_fl.Core.Batch.{decode_and_validate, dim_of}

-- `Aggregator::aggregate` of the methods that keep no state.
abbrev pub Aggregator : Type 0
Aggregator = List ClientDelta → Result Fault (List F32)

-- `vec![0.0f32; dim]`
unfoldable pub zeros : ℕ → List F32
zeros zero = []
zeros (suc n) = zero_f32 ∷ zeros n

-- `x == 0.0`
unfoldable pub is_zero : F32 → Bool
is_zero x = magnitude x == 0

abbrev pub validated : List ClientDelta → Result Fault (List (List F32))
validated updates = map_err refuses (decode_and_validate updates)

module _ (h : Arithmetic) where
  open h use {add, mul, div, sum, of_nat}

  unfoldable pub accumulate_weighted : List F32 → List F32 → F32 → List F32
  accumulate_weighted [] src weight = []
  accumulate_weighted (a ∷ acc) [] weight = a ∷ acc
  accumulate_weighted (a ∷ acc) (s ∷ src) weight =
      add a (mul s weight) ∷ accumulate_weighted acc src weight

  pub length-accumulate_weighted :
      (acc src : List F32) (weight : F32) → length (accumulate_weighted acc src weight) ≡ length acc
  unfolding accumulate_weighted
  length-accumulate_weighted [] src weight = refl
  length-accumulate_weighted (a ∷ acc) [] weight = refl
  length-accumulate_weighted (a ∷ acc) (s ∷ src) weight =
      ap suc (length-accumulate_weighted acc src weight)

  -- The loop over the batch, each vector with its raw weight.
  unfoldable pub accumulate_all : F32 → List F32 → List F32 → List (List F32) → List F32
  unfolding accumulate_weighted
  accumulate_all total acc [] vectors = acc
  accumulate_all total acc (r ∷ raw) [] = acc
  accumulate_all total acc (r ∷ raw) (w ∷ vectors) =
      accumulate_all total (accumulate_weighted acc w (div r total)) raw vectors

  pub length-accumulate_all :
      (total : F32) (acc raw : List F32) (vectors : List (List F32))
      → length (accumulate_all total acc raw vectors) ≡ length acc
  unfolding accumulate_all
  length-accumulate_all total acc [] vectors = refl
  length-accumulate_all total acc (r ∷ raw) [] = refl
  length-accumulate_all total acc (r ∷ raw) (w ∷ vectors) = omega (
    arith,
    length-accumulate_all total (accumulate_weighted acc w (div r total)) raw vectors,
    length-accumulate_weighted acc w (div r total),
  )

  -- `WeightedAverageAggregator::aggregate`, over `AveragingWeighting::weight_for`.
  unfoldable pub weighted_average : (ClientDelta → List ClientDelta → F32) → Aggregator
  unfolding zeros is_zero accumulate_all
  weighted_average weight_for [] = err (refuses empty_batch)
  weighted_average weight_for (u ∷ us) = do
    decoded ← validated (u ∷ us)
    let raw = map (λ x. weight_for x (u ∷ us)) (u ∷ us)
    let total = sum raw
    if is_zero total
        then err (refuses zero_weight_sum)
        else ok (accumulate_all total (zeros (dim_of decoded)) raw decoded)

  -- `SampleCountWeighting`
  unfoldable pub sample_count : ClientDelta → List ClientDelta → F32
  sample_count update batch = of_nat update.num_samples

  unfoldable pub fed_avg : Aggregator
  unfolding weighted_average sample_count
  fed_avg = weighted_average sample_count

pub length-zeros : (n : ℕ) → length (zeros n) ≡ n
unfolding zeros
length-zeros zero = refl
length-zeros (suc n) = ap suc (length-zeros n)

module _ (h : Arithmetic) where
  -- The weighted mean has a weight for each coordinate of the batch.
  pub length-fed_avg :
      (us : List ClientDelta) (vs : List (List F32)) (w : List F32)
      → decode_and_validate us ≡ ok vs
      → fed_avg h us ≡ ok w
      → length w ≡ dim_of vs
  unfolding fed_avg
  length-fed_avg [] vs w valid e = cc
  length-fed_avg (u ∷ us) vs w valid e =
      let raw = map (λ x. sample_count h x (u ∷ us)) (u ∷ us) in
      let total = h.sum raw in
      let size =
        length-accumulate_all h total (zeros (dim_of vs)) raw vs ∙ length-zeros (dim_of vs) in
      let step : fed_avg h (u ∷ us) ≡ (
          if is_zero total
          then err (refuses zero_weight_sum)
          else ok (accumulate_all h total (zeros (dim_of vs)) raw vs)) =
        rw (valid, fed_avg, weighted_average) refl in
      by_total (is_zero total) raw total size (sym step ∙ e)
    where
      by_total :
          (b : Bool) (raw : List F32) (total : F32)
          → length (accumulate_all h total (zeros (dim_of vs)) raw vs) ≡ dim_of vs
          → ◌≡◌ {A = Result Fault (List F32)}
              (if b
                then err (refuses zero_weight_sum)
                else ok (accumulate_all h total (zeros (dim_of vs)) raw vs))
              (ok w)
          → length w ≡ dim_of vs
      by_total true raw total size f = cc
      by_total false raw total size f =
          let same : accumulate_all h total (zeros (dim_of vs)) raw vs ≡ w = cc in
          sym (ap length same) ∙ size
