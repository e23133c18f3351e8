-- ===== src/Tests/Settings.antt =====
-- Deployments that set a quorum, a method and a timeout in different tiers.
use conflux_fl.Base.{
  ℕ, ◌≡◌, ◌↔◌, refl, Option, none, some, [], ◌∷◌, Text, text, Text-discrete, ite, ok, arith,
}
use conflux_fl.Base.Dict
use conflux_fl.Config.{research}
use conflux_fl.Config
use conflux_fl.Config.Environment.{FromStr, overrides_from_vars}
use conflux_fl.Config.Environment.Reading.{IsTier}
use conflux_fl.Config.Environment.Reading.Tier.{overrides_from_vars-IsTier}
use conflux_fl.Config.Resolve.{Overrides, Tiers, ResolvedConfig, ConfigSource}
use conflux_fl.Config.Resolve.Parameter.{outcome, aggregator}
use conflux_fl.Config.Resolve.Parameter
use conflux_fl.Config.Resolve.Precedence.{
  resolve_with_profiles-first_opinion, first_opinion, opinions,
}
use conflux_fl.Config.Resolve.Whole.{
  resolve, resolve_with_profiles, topology_builtin, mode_builtin, values,
}
use conflux_fl.Config.Validate.{validate}
use conflux_fl.Config.Validate.Admissible.{IsAdmissible, validate-IsAdmissible}
use conflux_fl.Config.Preconditions
use conflux_fl.Privacy.Accountant
use conflux_fl.Privacy.Rdp
use conflux_fl.Registry
use conflux_fl.Store
use conflux_fl.Server.Round.{Opened, prepare, open_round}
use conflux_fl.Server.Round.Validated.{validate-open_round}
use conflux_fl.Server.State.{AppState}
use conflux_fl.Tests.World.{world, idle, integers, integers64}

abbrev pub no_opinion : Overrides
no_opinion = record {
  connection_mode = none;
  auth = none;
  round_timeout_secs = none;
  min_reputation_score = none;
  client_registry_ttl = none;
  quorum = none;
  max_update_bytes = none;
  selector = none;
  seed_mode = none;
  seed_value = none;
  aggregator = none;
  robust_byzantine_fraction = none;
  clip_radius = none;
  server_learning_rate = none;
  server_tau = none;
  server_momentum = none;
  fairness_q = none;
  scaffold_num_clients = none;
  zeno_rho = none;
  server_lipschitz = none;
  reputation_filter_enabled = none;
  client_side_privacy_transform = none;
  privacy_mechanism = none;
  clip_norm = none;
  noise_multiplier = none;
  target_epsilon = none;
  delta = none;
  budget_exhausted_action = none;
  accounting_scope = none;
  allow_stub_client = none;
  require_node_auth = none;
  config_log_format = none;
  round_log_detail = none;
  round_history_len = none;
}

abbrev from_env : Overrides
from_env = record no_opinion { quorum = some 2; aggregator = some (text "median") }

abbrev from_cli : Overrides
from_cli = record no_opinion { aggregator = some (text "fedavg") }

abbrev deployment : Tiers
deployment = record {
  topology = topology_builtin Config.cross_silo;
  mode = mode_builtin research;
  file = none;
  env = from_env;
  cli = from_cli;
}

resolve_with_profiles-first_opinion_example :
    outcome Parameter.aggregator (resolve_with_profiles deployment)
    ≡ first_opinion (opinions Parameter.aggregator deployment)
resolve_with_profiles-first_opinion_example =
    resolve_with_profiles-first_opinion Parameter.aggregator deployment

-- Only one numeral is parsed.
abbrev two : Text → Option ℕ
two s = ite (Text-discrete s (text "2")) (some 2) none

abbrev numerals : FromStr
numerals = record { u32 = two; u64 = two; f32 = two; f64 = two; bool = λ s. none }

-- The quorum is set, and its variable is the only one.
abbrev variables : Text → Option Text
variables name = ite (Text-discrete name (text "CONFLUX_QUORUM")) (some (text "2")) none

overrides_from_vars-IsTier_example :
    IsTier numerals variables (overrides_from_vars numerals variables)
overrides_from_vars-IsTier_example = overrides_from_vars-IsTier numerals variables

abbrev settled : ResolvedConfig
unfolding resolve resolve_with_profiles topology_builtin mode_builtin
settled = resolve Config.cross_silo research none from_env from_cli

validate-IsAdmissible_example :
    ((validate integers integers64 settled).errors ≡ []) ↔ IsAdmissible integers integers64 settled
validate-IsAdmissible_example = validate-IsAdmissible integers integers64 settled

abbrev started : AppState world
started = record idle { config = values settled }

abbrev ready : Opened
ready = record { round = 1; weights = 1 ∷ 2 ∷ []; active = []; selected = [] }

validate-open_round_example : (open_round world started).1 ≡ ok ready
unfolding validate prepare settled Preconditions.rule_of Accountant.budget_exhausted
    Rdp.epsilon_from_rounds Store.load_latest_weights Registry.active_clients Dict.keys
validate-open_round_example =
    validate-open_round world settled
      (record { value = 2; source = ConfigSource.env_var (text "CONFLUX_QUORUM") }) started ready
      refl refl refl (omega arith) refl
