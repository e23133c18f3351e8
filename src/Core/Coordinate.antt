-- ===== src/Core/Coordinate.antt =====
-- crates/conflux-core/src/robust.rs: the methods that combine one coordinate at a time, across all
-- clients.
pub mod Resilience
use conflux_fl.Base.{
  ℕ, zero, suc, ◌+◌, ◌-◌, ◌/◌, ◌%◌, min, max, List, [], ◌∷◌, map, length, take, drop, leb, ◌==◌,
  if◌then◌else◌, Result, ok, err, traverse, ◌>>=◌,
}
use conflux_fl.Base.Positions.{range_from}
use conflux_fl.Base.Sort.{sort_by}
use conflux_fl.Config.Preconditions.{byzantine_count}
use conflux_fl.Float.{F32, Arithmetic}
use conflux_fl.Proto.{ClientDelta}
use conflux_fl.Core.{Fault, refuses, empty_batch}
use conflux_fl.Core.Averaging.{Aggregator, validated}
use conflux_fl.Core.Batch.{dim_of}
use conflux_fl.Core.Extrema.{sort_checked, ascending}
use conflux_fl.Core.Robust.Filters.{at}

-- `CoordinateWiseRobustStatistic::combine`
abbrev pub Statistic : Type 0
Statistic = List F32 → Result Fault F32

-- `2.0`
abbrev pub two_f32 : F32
two_f32 = 0x40000000

-- `decoded.iter().map(|w| w[k]).collect()`, and the statistic of it.
unfoldable pub coordinate : Statistic → List (List F32) → ℕ → Result Fault F32
unfolding traverse
coordinate combine decoded k = traverse (λ w. at w k) decoded >>= combine

-- `CoordinateWiseAggregator::aggregate`
unfoldable pub coordinate_wise : Statistic → Aggregator
unfolding coordinate range_from traverse
coordinate_wise combine [] = err (refuses empty_batch)
coordinate_wise combine (u ∷ us) = do
  decoded ← validated (u ∷ us)
  traverse (coordinate combine decoded) (range_from 0 (dim_of decoded))

abbrev pub sorted : List F32 → Result Fault (List F32)
sorted values = sort_checked (λ v. v) ascending values

-- `&values[trim..n - trim]`
abbrev pub inner : ℕ → List F32 → List F32
inner trim values = drop trim (take (length values - trim) values)

module _ (h : Arithmetic) where
  open h use {add, div, sum, of_nat}

  -- `kept.iter().sum::<f32>() / kept.len() as f32`
  abbrev pub mean : List F32 → F32
  mean values = div (sum values) (of_nat (length values))

  unfoldable pub trim_count : F32 → ℕ → ℕ
  unfolding byzantine_count
  trim_count fraction n = min (byzantine_count h fraction n) ((n - 1) / 2)

  -- `TrimmedMeanStatistic::combine`
  unfoldable pub trimmed_mean : F32 → Statistic
  unfolding trim_count sort_checked sort_by
  trimmed_mean fraction values = do
    ordered ← sorted values
    ok (mean (inner (trim_count fraction (length values)) ordered))

  -- The middle value, or the mean of the two middle ones.
  unfoldable pub middle : Statistic
  middle ordered =
      let half = length ordered / 2 in
      if length ordered % 2 == 1
      then at ordered half
      else (do low ← at ordered (half - 1); high ← at ordered half; ok (div (add low high) two_f32))

  -- `MedianStatistic::combine`
  unfoldable pub median : Statistic
  unfolding middle sort_checked sort_by
  median values = sorted values >>= middle

  -- `values.chunks(size)`, each turn of which takes one chunk: as many turns as values are enough.
  unfoldable pub chunks : ℕ → ℕ → List F32 → List (List F32)
  chunks size zero values = []
  chunks size (suc turns) [] = []
  chunks size (suc turns) (v ∷ values) =
      take size (v ∷ values) ∷ chunks size turns (drop size (v ∷ values))

  -- `MedianOfMeansStatistic::combine`
  unfoldable pub median_of_means : ℕ → Statistic
  unfolding middle chunks sort_checked sort_by
  median_of_means group_size values =
      sorted (map mean (chunks (max group_size 1) (length values) values)) >>= middle
