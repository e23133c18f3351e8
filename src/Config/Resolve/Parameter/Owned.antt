-- ===== src/Config/Resolve/Parameter/Owned.antt =====
-- crates/conflux-config: which tiers have an opinion on a parameter of their own: the topology, the mode
-- and the builtin fallback.
use conflux_fl.Base.{◌*◌, false, Option, none, some, text}
use conflux_fl.Float.{zero_f32, one_f32}
use conflux_fl.Config.{
  AccountingScope, BudgetExhaustedAction, RoundLogDetail, AuthMode, ConnectionMode, SeedMode,
  LogFormat,
}
use conflux_fl.Config
use conflux_fl.Config.Defaults.{TopologyDefaults, ModeDefaults}
use conflux_fl.Config.Resolve.Parameter.{Parameter, Value}

-- What the topology and the mode have to say: each owns its own parameters.
abbrev pub topology_value : (p : Parameter) → TopologyDefaults → Option (Value p)
topology_value Parameter.connection_mode d = some d.connection_mode
topology_value Parameter.auth d = some d.auth
topology_value Parameter.round_timeout_secs d = some d.round_timeout_secs
topology_value Parameter.min_reputation_score d = some d.min_reputation_score
topology_value Parameter.client_registry_ttl d = some d.client_registry_ttl
topology_value Parameter.quorum d = none
topology_value Parameter.max_update_bytes d = none
topology_value Parameter.selector d = none
topology_value Parameter.seed_mode d = none
topology_value Parameter.seed_value d = none
topology_value Parameter.aggregator d = none
topology_value Parameter.robust_byzantine_fraction d = none
topology_value Parameter.clip_radius d = none
topology_value Parameter.server_learning_rate d = none
topology_value Parameter.server_tau d = none
topology_value Parameter.server_momentum d = none
topology_value Parameter.fairness_q d = none
topology_value Parameter.scaffold_num_clients d = none
topology_value Parameter.zeno_rho d = none
topology_value Parameter.server_lipschitz d = none
topology_value Parameter.reputation_filter_enabled d = none
topology_value Parameter.client_side_privacy_transform d = none
topology_value Parameter.privacy_mechanism d = none
topology_value Parameter.clip_norm d = none
topology_value Parameter.noise_multiplier d = none
topology_value Parameter.target_epsilon d = none
topology_value Parameter.delta d = none
topology_value Parameter.budget_exhausted_action d = none
topology_value Parameter.accounting_scope d = none
topology_value Parameter.allow_stub_client d = none
topology_value Parameter.require_node_auth d = none
topology_value Parameter.config_log_format d = none
topology_value Parameter.round_log_detail d = none
topology_value Parameter.round_history_len d = none

abbrev pub mode_value : (p : Parameter) → ModeDefaults → Option (Value p)
mode_value Parameter.connection_mode d = none
mode_value Parameter.auth d = none
mode_value Parameter.round_timeout_secs d = none
mode_value Parameter.min_reputation_score d = none
mode_value Parameter.client_registry_ttl d = none
mode_value Parameter.quorum d = none
mode_value Parameter.max_update_bytes d = none
mode_value Parameter.selector d = none
mode_value Parameter.seed_mode d = some d.seed_mode
mode_value Parameter.seed_value d = some d.seed_value
mode_value Parameter.aggregator d = none
mode_value Parameter.robust_byzantine_fraction d = none
mode_value Parameter.clip_radius d = none
mode_value Parameter.server_learning_rate d = none
mode_value Parameter.server_tau d = none
mode_value Parameter.server_momentum d = none
mode_value Parameter.fairness_q d = none
mode_value Parameter.scaffold_num_clients d = none
mode_value Parameter.zeno_rho d = none
mode_value Parameter.server_lipschitz d = none
mode_value Parameter.reputation_filter_enabled d = none
mode_value Parameter.client_side_privacy_transform d = none
mode_value Parameter.privacy_mechanism d = none
mode_value Parameter.clip_norm d = none
mode_value Parameter.noise_multiplier d = none
mode_value Parameter.target_epsilon d = none
mode_value Parameter.delta d = none
mode_value Parameter.budget_exhausted_action d = some d.budget_exhausted_action
mode_value Parameter.accounting_scope d = some d.accounting_scope
mode_value Parameter.allow_stub_client d = some d.allow_stub_client
mode_value Parameter.require_node_auth d = some d.require_node_auth
mode_value Parameter.config_log_format d = some d.config_log_format
mode_value Parameter.round_log_detail d = none
mode_value Parameter.round_history_len d = none

-- The fallback of a parameter that neither owns; the quorum has none.
abbrev pub fallback : (p : Parameter) → Option (Value p)
fallback Parameter.connection_mode = none
fallback Parameter.auth = none
fallback Parameter.round_timeout_secs = none
fallback Parameter.min_reputation_score = none
fallback Parameter.client_registry_ttl = none
fallback Parameter.quorum = none
fallback Parameter.max_update_bytes = some (256 * 1024 * 1024)
fallback Parameter.selector = some (text "uniform_random")
fallback Parameter.seed_mode = none
fallback Parameter.seed_value = none
fallback Parameter.aggregator = some (text "fedavg")
fallback Parameter.robust_byzantine_fraction = some 0x3e4ccccd
fallback Parameter.clip_radius = some one_f32
fallback Parameter.server_learning_rate = some one_f32
fallback Parameter.server_tau = some 0x3a83126f
fallback Parameter.server_momentum = some 0x3f666666
fallback Parameter.fairness_q = some zero_f32
fallback Parameter.scaffold_num_clients = some 1
fallback Parameter.zeno_rho = some 0x3a03126f
fallback Parameter.server_lipschitz = some one_f32
fallback Parameter.reputation_filter_enabled = some false
fallback Parameter.client_side_privacy_transform = some false
fallback Parameter.privacy_mechanism = some (text "gaussian_clipping")
fallback Parameter.clip_norm = some one_f32
fallback Parameter.noise_multiplier = some one_f32
fallback Parameter.target_epsilon = some 0x4020000000000000
fallback Parameter.delta = some 0x3ee4f8b588e368f1
fallback Parameter.budget_exhausted_action = none
fallback Parameter.accounting_scope = none
fallback Parameter.allow_stub_client = none
fallback Parameter.require_node_auth = none
fallback Parameter.config_log_format = none
fallback Parameter.round_log_detail = some Config.changes
fallback Parameter.round_history_len = some 128
