-- ===== src/Config/Resolve.antt =====
-- crates/conflux-config/src/lib.rs: what a tier may say of each parameter, and what is resolved, with
-- the tier that it comes from (src/source.rs).
pub mod Layer
pub mod Participation
pub mod Methods
pub mod Privacy
pub mod Whole
pub mod Parameter
pub mod Precedence
use conflux_fl.Base.{ℕ, Bool, Option, List, Text, none, some}
use conflux_fl.Float.{F32, F64}
use conflux_fl.Config.{
  AccountingScope, BudgetExhaustedAction, RoundLogDetail, AuthMode, Mode, ConnectionMode, SeedMode,
  LogFormat, Topology,
}
use conflux_fl.Config.Defaults.{TopologyDefaults, ModeDefaults}

pub data ConfigSource : Type 0 where
  cli : ConfigSource
  env_var : Text → ConfigSource
  experiment_file : Text → ConfigSource
  mode_profile : Text → ConfigSource
  topology_profile : Text → ConfigSource
  builtin_fallback : ConfigSource

pub record Resolved (T : Type 0) : Type 0 where
  pub value : T
  pub source : ConfigSource

-- One tier: `none` where it has no opinion.
pub record Overrides : Type 0 where
  pub connection_mode : Option ConnectionMode
  pub auth : Option AuthMode
  pub round_timeout_secs : Option ℕ
  pub min_reputation_score : Option F32
  pub client_registry_ttl : Option ℕ
  pub quorum : Option ℕ
  pub max_update_bytes : Option ℕ
  pub selector : Option Text
  pub seed_mode : Option SeedMode
  pub seed_value : Option ℕ
  pub aggregator : Option Text
  pub robust_byzantine_fraction : Option F32
  pub clip_radius : Option F32
  pub server_learning_rate : Option F32
  pub server_tau : Option F32
  pub server_momentum : Option F32
  pub fairness_q : Option F32
  pub scaffold_num_clients : Option ℕ
  pub zeno_rho : Option F32
  pub server_lipschitz : Option F32
  pub reputation_filter_enabled : Option Bool
  pub client_side_privacy_transform : Option Bool
  pub privacy_mechanism : Option Text
  pub clip_norm : Option F32
  pub noise_multiplier : Option F32
  pub target_epsilon : Option F64
  pub delta : Option F64
  pub budget_exhausted_action : Option BudgetExhaustedAction
  pub accounting_scope : Option AccountingScope
  pub allow_stub_client : Option Bool
  pub require_node_auth : Option Bool
  pub config_log_format : Option LogFormat
  pub round_log_detail : Option RoundLogDetail
  pub round_history_len : Option ℕ

pub record ResolvedConfig : Type 0 where
  pub topology : Topology
  pub mode : Mode
  pub connection_mode : Resolved ConnectionMode
  pub auth : Resolved AuthMode
  pub round_timeout_secs : Resolved ℕ
  pub min_reputation_score : Resolved F32
  pub client_registry_ttl : Resolved ℕ
  pub quorum : Option (Resolved ℕ)
  pub max_update_bytes : Resolved ℕ
  pub selector : Resolved Text
  pub seed_mode : Resolved SeedMode
  pub seed_value : Resolved (Option ℕ)
  pub aggregator : Resolved Text
  pub robust_byzantine_fraction : Resolved F32
  pub clip_radius : Resolved F32
  pub server_learning_rate : Resolved F32
  pub server_tau : Resolved F32
  pub server_momentum : Resolved F32
  pub fairness_q : Resolved F32
  pub scaffold_num_clients : Resolved ℕ
  pub zeno_rho : Resolved F32
  pub server_lipschitz : Resolved F32
  pub reputation_filter_enabled : Resolved Bool
  pub client_side_privacy_transform : Resolved Bool
  pub privacy_mechanism : Resolved Text
  pub clip_norm : Resolved F32
  pub noise_multiplier : Resolved F32
  pub target_epsilon : Resolved F64
  pub delta : Resolved F64
  pub budget_exhausted_action : Resolved BudgetExhaustedAction
  pub accounting_scope : Resolved AccountingScope
  pub allow_stub_client : Resolved Bool
  pub require_node_auth : Resolved Bool
  pub config_log_format : Resolved LogFormat
  pub round_log_detail : Resolved RoundLogDetail
  pub round_history_len : Resolved ℕ

-- A builtin profile, or one that was read from a file and its bases: which link of the chain set each
-- key.
pub record TopologyProfile : Type 0 where
  pub name : Text
  pub base : Topology
  pub defaults : TopologyDefaults
  pub chain : List Text
  pub origins : List (Text × Text)

pub record ModeProfile : Type 0 where
  pub name : Text
  pub base : Mode
  pub defaults : ModeDefaults
  pub chain : List Text
  pub origins : List (Text × Text)

-- The arguments of `resolve_with_profiles`. The experiment file comes with its path.
pub record Tiers : Type 0 where
  pub topology : TopologyProfile
  pub mode : ModeProfile
  pub file : Option (Text × Overrides)
  pub env : Overrides
  pub cli : Overrides
