-- ===== src/Config.antt =====
-- crates/conflux-config: what the server reads of its resolved configuration, and the batch
-- requirements of src/preconditions.rs.
pub mod Preconditions
pub mod Defaults
pub mod Resolve
pub mod Environment
pub mod Validate
pub mod Axis
pub mod Profile
use conflux_fl.Base.{ℕ, Bool, Option, Text}
use conflux_fl.Float.{F32, F64}

pub data AccountingScope : Type 0 where
  global per_client : AccountingScope

pub data BudgetExhaustedAction : Type 0 where
  halt continue_without_guarantee : BudgetExhaustedAction

pub data RoundLogDetail : Type 0 where
  quiet changes every : RoundLogDetail

pub data AuthMode : Type 0 where
  jwt mtls : AuthMode

pub data Mode : Type 0 where
  research production : Mode

pub data ConnectionMode : Type 0 where
  push pull : ConnectionMode

pub data SeedMode : Type 0 where
  fixed os_random : SeedMode

pub data LogFormat : Type 0 where
  json text : LogFormat

pub data Topology : Type 0 where
  cross_silo cross_device crowdsource edge : Topology

-- The resolved values; where each came from is left out.
pub record ResolvedConfig : Type 0 where
  pub mode : Mode
  pub auth : AuthMode
  pub require_node_auth : Bool
  pub quorum : Option ℕ
  pub round_timeout_secs : ℕ
  pub aggregator : Text
  pub robust_byzantine_fraction : F32
  pub accounting_scope : AccountingScope
  pub budget_exhausted_action : BudgetExhaustedAction
  pub target_epsilon : F64
  pub delta : F64
  pub noise_multiplier : F32
  pub reputation_filter_enabled : Bool
  pub min_reputation_score : F32
  pub round_log_detail : RoundLogDetail
