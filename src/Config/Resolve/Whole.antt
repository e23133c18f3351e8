-- ===== src/Config/Resolve/Whole.antt =====
-- crates/conflux-config/src/lib.rs: `resolve_with_profiles` and `resolve`, and what the server reads of
-- the result.
use conflux_fl.Base.{Option, [], ◌∷◌, Text}
use mathlib.Core.Option
use conflux_fl.Config
use conflux_fl.Config.{Mode, Topology}
use conflux_fl.Config.Defaults.{topology_label, topology_defaults, mode_label, mode_defaults}
use conflux_fl.Config.Resolve.{Tiers, ResolvedConfig, TopologyProfile, ModeProfile, Overrides}
use conflux_fl.Config.Resolve.Participation.{
  connection_mode, auth, round_timeout_secs, min_reputation_score, client_registry_ttl, quorum,
  max_update_bytes, selector, seed_mode, seed_value,
}
use conflux_fl.Config.Resolve.Methods.{
  aggregator, robust_byzantine_fraction, clip_radius, server_learning_rate, server_tau,
  server_momentum, fairness_q, scaffold_num_clients, zeno_rho, server_lipschitz,
  reputation_filter_enabled,
}
use conflux_fl.Config.Resolve.Privacy.{
  client_side_privacy_transform, privacy_mechanism, clip_norm, noise_multiplier, target_epsilon,
  delta, budget_exhausted_action, accounting_scope, allow_stub_client, require_node_auth,
  config_log_format, round_log_detail, round_history_len,
}

-- `ConfigError` has no values, so the result is the configuration itself.
unfoldable pub resolve_with_profiles : Tiers → ResolvedConfig
unfolding connection_mode auth round_timeout_secs min_reputation_score client_registry_ttl quorum
    max_update_bytes selector seed_mode seed_value aggregator robust_byzantine_fraction clip_radius
    server_learning_rate server_tau server_momentum fairness_q scaffold_num_clients zeno_rho
    server_lipschitz reputation_filter_enabled client_side_privacy_transform privacy_mechanism
    clip_norm noise_multiplier target_epsilon delta budget_exhausted_action accounting_scope
    allow_stub_client require_node_auth config_log_format round_log_detail round_history_len
resolve_with_profiles t = record {
  topology = t.topology.base;
  mode = t.mode.base;
  connection_mode = connection_mode t;
  auth = auth t;
  round_timeout_secs = round_timeout_secs t;
  min_reputation_score = min_reputation_score t;
  client_registry_ttl = client_registry_ttl t;
  quorum = quorum t;
  max_update_bytes = max_update_bytes t;
  selector = selector t;
  seed_mode = seed_mode t;
  seed_value = seed_value t;
  aggregator = aggregator t;
  robust_byzantine_fraction = robust_byzantine_fraction t;
  clip_radius = clip_radius t;
  server_learning_rate = server_learning_rate t;
  server_tau = server_tau t;
  server_momentum = server_momentum t;
  fairness_q = fairness_q t;
  scaffold_num_clients = scaffold_num_clients t;
  zeno_rho = zeno_rho t;
  server_lipschitz = server_lipschitz t;
  reputation_filter_enabled = reputation_filter_enabled t;
  client_side_privacy_transform = client_side_privacy_transform t;
  privacy_mechanism = privacy_mechanism t;
  clip_norm = clip_norm t;
  noise_multiplier = noise_multiplier t;
  target_epsilon = target_epsilon t;
  delta = delta t;
  budget_exhausted_action = budget_exhausted_action t;
  accounting_scope = accounting_scope t;
  allow_stub_client = allow_stub_client t;
  require_node_auth = require_node_auth t;
  config_log_format = config_log_format t;
  round_log_detail = round_log_detail t;
  round_history_len = round_history_len t;
}

-- `TopologyProfile::builtin`, `ModeProfile::builtin`
unfoldable pub topology_builtin : Topology → TopologyProfile
unfolding topology_label topology_defaults
topology_builtin topology = record {
  name = topology_label topology;
  base = topology;
  defaults = topology_defaults topology;
  chain = topology_label topology ∷ [];
  origins = [];
}

unfoldable pub mode_builtin : Mode → ModeProfile
unfolding mode_label mode_defaults
mode_builtin mode = record {
  name = mode_label mode;
  base = mode;
  defaults = mode_defaults mode;
  chain = mode_label mode ∷ [];
  origins = [];
}

unfoldable pub resolve :
    Topology → Mode → Option (Text × Overrides) → Overrides → Overrides → ResolvedConfig
unfolding resolve_with_profiles topology_builtin mode_builtin
resolve topology mode file env cli = resolve_with_profiles (record {
  topology = topology_builtin topology;
  mode = mode_builtin mode;
  file = file;
  env = env;
  cli = cli;
})

-- The values that the server reads.
abbrev pub values : ResolvedConfig → Config.ResolvedConfig
values c = record {
  mode = c.mode;
  auth = c.auth.value;
  require_node_auth = c.require_node_auth.value;
  quorum = Option.map (λ q. q.value) c.quorum;
  round_timeout_secs = c.round_timeout_secs.value;
  aggregator = c.aggregator.value;
  robust_byzantine_fraction = c.robust_byzantine_fraction.value;
  accounting_scope = c.accounting_scope.value;
  budget_exhausted_action = c.budget_exhausted_action.value;
  target_epsilon = c.target_epsilon.value;
  delta = c.delta.value;
  noise_multiplier = c.noise_multiplier.value;
  reputation_filter_enabled = c.reputation_filter_enabled.value;
  min_reputation_score = c.min_reputation_score.value;
  round_log_detail = c.round_log_detail.value;
}
