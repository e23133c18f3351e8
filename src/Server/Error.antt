-- ===== src/Server/Error.antt =====
-- crates/conflux-server/src/error.rs: why a round failed, and whether the loop tries again.
use conflux_fl.Base.{ℕ, Bool, true, false, Text}
use conflux_fl.Registry.{RegistryError}
use conflux_fl.Core.{AggregatorError}
use conflux_fl.Store.{StoreError}

pub data ServerError : Type 0 where
  budget_exhausted : ServerError
  -- round, aggregator, batch, required, excluded; the citation's wording is left out.
  precondition_violated : ℕ → Text → ℕ → ℕ → ℕ → ServerError
  budget_exhausted_for_client : Text → ServerError
  registry_error : RegistryError → ServerError
  store_error : StoreError → ServerError
  aggregator_error : AggregatorError → ServerError
  -- round; the reason's wording is left out.
  trusted_reference_unavailable : ℕ → ServerError

unfoldable pub is_transient : ServerError → Bool
is_transient budget_exhausted = false
is_transient (budget_exhausted_for_client id) = false
is_transient (precondition_violated round aggregator batch required excluded) = false
is_transient (registry_error e) = true
is_transient (store_error e) = true
is_transient (aggregator_error e) = true
is_transient (trusted_reference_unavailable round) = true
