-- ===== src/Config/Resolve/Parameter.antt =====
-- crates/conflux-config: the parameters as data, each with the type of its value, its key in a file, and
-- who owns it. The statements about resolution range over them.
pub mod Owned
use conflux_fl.Base.{
  ℕ, ◌-◌, ◌*◌, ◌++◌, Bool, false, ◌&&◌, Option, none, some, map, Text, text, leb, if◌then◌else◌,
}
use mathlib.Core.Option
use conflux_fl.Float.{F32, F64, zero_f32, one_f32}
use conflux_fl.Config.{
  AccountingScope, BudgetExhaustedAction, RoundLogDetail, AuthMode, ConnectionMode, SeedMode,
  LogFormat,
}
use conflux_fl.Config
use conflux_fl.Config.Defaults.{TopologyDefaults, ModeDefaults}
use conflux_fl.Config.Resolve.{Resolved, ResolvedConfig, Overrides}

pub data Parameter : Type 0 where
  connection_mode auth round_timeout_secs min_reputation_score : Parameter
  client_registry_ttl quorum max_update_bytes selector : Parameter
  seed_mode seed_value aggregator robust_byzantine_fraction : Parameter
  clip_radius server_learning_rate server_tau server_momentum : Parameter
  fairness_q scaffold_num_clients zeno_rho server_lipschitz : Parameter
  reputation_filter_enabled client_side_privacy_transform privacy_mechanism clip_norm : Parameter
  noise_multiplier target_epsilon delta budget_exhausted_action : Parameter
  accounting_scope allow_stub_client require_node_auth config_log_format : Parameter
  round_log_detail round_history_len : Parameter

abbrev pub Value : Parameter → Type 0
Value connection_mode = ConnectionMode
Value auth = AuthMode
Value round_timeout_secs = ℕ
Value min_reputation_score = F32
Value client_registry_ttl = ℕ
Value quorum = ℕ
Value max_update_bytes = ℕ
Value selector = Text
Value seed_mode = SeedMode
Value seed_value = Option ℕ
Value aggregator = Text
Value robust_byzantine_fraction = F32
Value clip_radius = F32
Value server_learning_rate = F32
Value server_tau = F32
Value server_momentum = F32
Value fairness_q = F32
Value scaffold_num_clients = ℕ
Value zeno_rho = F32
Value server_lipschitz = F32
Value reputation_filter_enabled = Bool
Value client_side_privacy_transform = Bool
Value privacy_mechanism = Text
Value clip_norm = F32
Value noise_multiplier = F32
Value target_epsilon = F64
Value delta = F64
Value budget_exhausted_action = BudgetExhaustedAction
Value accounting_scope = AccountingScope
Value allow_stub_client = Bool
Value require_node_auth = Bool
Value config_log_format = LogFormat
Value round_log_detail = RoundLogDetail
Value round_history_len = ℕ

-- The key of the parameter in a file.
abbrev pub key : Parameter → Text
key connection_mode = text "connection_mode"
key auth = text "auth"
key round_timeout_secs = text "round_timeout_secs"
key min_reputation_score = text "min_reputation_score"
key client_registry_ttl = text "client_registry_ttl"
key quorum = text "quorum"
key max_update_bytes = text "max_update_bytes"
key selector = text "selector"
key seed_mode = text "seed_mode"
key seed_value = text "seed_value"
key aggregator = text "aggregator"
key robust_byzantine_fraction = text "robust_byzantine_fraction"
key clip_radius = text "clip_radius"
key server_learning_rate = text "server_learning_rate"
key server_tau = text "server_tau"
key server_momentum = text "server_momentum"
key fairness_q = text "fairness_q"
key scaffold_num_clients = text "scaffold_num_clients"
key zeno_rho = text "zeno_rho"
key server_lipschitz = text "server_lipschitz"
key reputation_filter_enabled = text "reputation_filter_enabled"
key client_side_privacy_transform = text "client_side_privacy_transform"
key privacy_mechanism = text "privacy_mechanism"
key clip_norm = text "clip_norm"
key noise_multiplier = text "noise_multiplier"
key target_epsilon = text "target_epsilon"
key delta = text "delta"
key budget_exhausted_action = text "budget_exhausted_action"
key accounting_scope = text "accounting_scope"
key allow_stub_client = text "allow_stub_client"
key require_node_auth = text "require_node_auth"
key config_log_format = text "config_log_format"
key round_log_detail = text "round_log_detail"
key round_history_len = text "round_history_len"

upper : ℕ → ℕ
upper c = if leb b'a' c && leb c b'z' then c - 32 else c

-- The environment variable that is documented for it: the key in upper case.
unfoldable pub variable : Parameter → Text
unfolding upper
variable p = text "CONFLUX_" ++ map upper (key p)

-- What a tier says of it.
abbrev pub stated : (p : Parameter) → Overrides → Option (Value p)
stated connection_mode o = o.connection_mode
stated auth o = o.auth
stated round_timeout_secs o = o.round_timeout_secs
stated min_reputation_score o = o.min_reputation_score
stated client_registry_ttl o = o.client_registry_ttl
stated quorum o = o.quorum
stated max_update_bytes o = o.max_update_bytes
stated selector o = o.selector
stated seed_mode o = o.seed_mode
stated seed_value o = Option.map some o.seed_value
stated aggregator o = o.aggregator
stated robust_byzantine_fraction o = o.robust_byzantine_fraction
stated clip_radius o = o.clip_radius
stated server_learning_rate o = o.server_learning_rate
stated server_tau o = o.server_tau
stated server_momentum o = o.server_momentum
stated fairness_q o = o.fairness_q
stated scaffold_num_clients o = o.scaffold_num_clients
stated zeno_rho o = o.zeno_rho
stated server_lipschitz o = o.server_lipschitz
stated reputation_filter_enabled o = o.reputation_filter_enabled
stated client_side_privacy_transform o = o.client_side_privacy_transform
stated privacy_mechanism o = o.privacy_mechanism
stated clip_norm o = o.clip_norm
stated noise_multiplier o = o.noise_multiplier
stated target_epsilon o = o.target_epsilon
stated delta o = o.delta
stated budget_exhausted_action o = o.budget_exhausted_action
stated accounting_scope o = o.accounting_scope
stated allow_stub_client o = o.allow_stub_client
stated require_node_auth o = o.require_node_auth
stated config_log_format o = o.config_log_format
stated round_log_detail o = o.round_log_detail
stated round_history_len o = o.round_history_len

-- What is resolved for it.
abbrev pub outcome : (p : Parameter) → ResolvedConfig → Option (Resolved (Value p))
outcome connection_mode c = some c.connection_mode
outcome auth c = some c.auth
outcome round_timeout_secs c = some c.round_timeout_secs
outcome min_reputation_score c = some c.min_reputation_score
outcome client_registry_ttl c = some c.client_registry_ttl
outcome quorum c = c.quorum
outcome max_update_bytes c = some c.max_update_bytes
outcome selector c = some c.selector
outcome seed_mode c = some c.seed_mode
outcome seed_value c = some c.seed_value
outcome aggregator c = some c.aggregator
outcome robust_byzantine_fraction c = some c.robust_byzantine_fraction
outcome clip_radius c = some c.clip_radius
outcome server_learning_rate c = some c.server_learning_rate
outcome server_tau c = some c.server_tau
outcome server_momentum c = some c.server_momentum
outcome fairness_q c = some c.fairness_q
outcome scaffold_num_clients c = some c.scaffold_num_clients
outcome zeno_rho c = some c.zeno_rho
outcome server_lipschitz c = some c.server_lipschitz
outcome reputation_filter_enabled c = some c.reputation_filter_enabled
outcome client_side_privacy_transform c = some c.client_side_privacy_transform
outcome privacy_mechanism c = some c.privacy_mechanism
outcome clip_norm c = some c.clip_norm
outcome noise_multiplier c = some c.noise_multiplier
outcome target_epsilon c = some c.target_epsilon
outcome delta c = some c.delta
outcome budget_exhausted_action c = some c.budget_exhausted_action
outcome accounting_scope c = some c.accounting_scope
outcome allow_stub_client c = some c.allow_stub_client
outcome require_node_auth c = some c.require_node_auth
outcome config_log_format c = some c.config_log_format
outcome round_log_detail c = some c.round_log_detail
outcome round_history_len c = some c.round_history_len
