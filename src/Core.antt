-- ===== src/Core.antt =====
-- crates/conflux-core: the errors that every aggregation method shares, and the check of a batch
-- that they all start with (src/lib.rs, src/weights.rs).
pub mod Batch
pub mod Extrema
pub mod Averaging
pub mod Robust
pub mod Coordinate
pub mod Optimizer
pub mod Zeno
pub mod FlTrust
use conflux_fl.Base.{ℕ, Text}

pub data AggregatorError : Type 0 where
  empty_batch : AggregatorError
  non_finite_weights : Text → ℕ → AggregatorError
  implausible_sample_count : Text → ℕ → ℕ → AggregatorError
  mismatched_length : Text → ℕ → ℕ → AggregatorError
  malformed_weights : Text → ℕ → AggregatorError
  missing_trusted_reference : AggregatorError
  missing_candidate_scores : AggregatorError
  unscored_client : Text → AggregatorError
  candidate_scores_dimension : ℕ → ℕ → AggregatorError
  trusted_reference_dimension : ℕ → ℕ → ℕ → AggregatorError
  zero_weight_sum : AggregatorError

-- How a call that does not answer ends: by a panic, or with an error.
pub data Fault : Type 0 where
  panics : Fault
  refuses : AggregatorError → Fault
