-- ===== src/Config/Environment.antt =====
-- crates/conflux-config/src/env.rs: the environment as a tier of overrides.
pub mod Reading
use conflux_fl.Base.{
  ℕ, Bool, Option, none, some, Text, text, Text-discrete, ite, Result, ok, err, ◌>>=◌,
}
use conflux_fl.Float.{F32, F64}
use conflux_fl.Config.{RoundLogDetail, quiet, changes, every}
use conflux_fl.Config.Resolve.{Overrides}

pub data EnvError : Type 0 where
  invalid : Text → Text → EnvError

-- `str::parse` of the standard library's types; none for an error.
pub record FromStr : Type 0 where
  pub u32 : Text → Option ℕ
  pub u64 : Text → Option ℕ
  pub f32 : Text → Option F32
  pub f64 : Text → Option F64
  pub bool : Text → Option Bool

unfoldable pub round_log_detail_from_str : Text → Option RoundLogDetail
unfolding Text-discrete
round_log_detail_from_str s = ite (Text-discrete s (text "quiet")) (some quiet) (
    ite (Text-discrete s (text "changes")) (some changes)
      (ite (Text-discrete s (text "every")) (some every) none))

-- A value that is set has to parse.
abbrev pub parsed : {T : Type 0} → Text → Text → Option T → Result EnvError (Option T)
parsed name value none = err (invalid name value)
parsed name value (some v) = ok (some v)

unfoldable pub parse :
    {T : Type 0} → (Text → Option T) → Text → Option Text → Result EnvError (Option T)
parse from_str name none = ok none
parse from_str name (some value) = parsed name value (from_str value)

module _ (h : FromStr) where
  unfoldable pub overrides_from_vars : (Text → Option Text) → Result EnvError Overrides
  unfolding parse round_log_detail_from_str
  overrides_from_vars get = do
    robust_byzantine_fraction ←
        parse h.f32 (text "CONFLUX_ROBUST_BYZANTINE_FRACTION")
          (get (text "CONFLUX_ROBUST_BYZANTINE_FRACTION"))
    clip_radius ← parse h.f32 (text "CONFLUX_CLIP_RADIUS") (get (text "CONFLUX_CLIP_RADIUS"))
    server_learning_rate ←
        parse h.f32 (text "CONFLUX_SERVER_LEARNING_RATE")
          (get (text "CONFLUX_SERVER_LEARNING_RATE"))
    server_tau ← parse h.f32 (text "CONFLUX_SERVER_TAU") (get (text "CONFLUX_SERVER_TAU"))
    server_momentum ←
        parse h.f32 (text "CONFLUX_SERVER_MOMENTUM") (get (text "CONFLUX_SERVER_MOMENTUM"))
    fairness_q ← parse h.f32 (text "CONFLUX_FAIRNESS_Q") (get (text "CONFLUX_FAIRNESS_Q"))
    scaffold_num_clients ←
        parse h.u32 (text "CONFLUX_SCAFFOLD_NUM_CLIENTS")
          (get (text "CONFLUX_SCAFFOLD_NUM_CLIENTS"))
    zeno_rho ← parse h.f32 (text "CONFLUX_ZENO_RHO") (get (text "CONFLUX_ZENO_RHO"))
    server_lipschitz ←
        parse h.f32 (text "CONFLUX_SERVER_LIPSCHITZ") (get (text "CONFLUX_SERVER_LIPSCHITZ"))
    min_reputation_score ←
        parse h.f32 (text "CONFLUX_MIN_REPUTATION_SCORE")
          (get (text "CONFLUX_MIN_REPUTATION_SCORE"))
    reputation_filter_enabled ←
        parse h.bool (text "CONFLUX_REPUTATION_FILTER_ENABLED")
          (get (text "CONFLUX_REPUTATION_FILTER_ENABLED"))
    quorum ← parse h.u32 (text "CONFLUX_QUORUM") (get (text "CONFLUX_QUORUM"))
    round_log_detail ←
        parse round_log_detail_from_str (text "CONFLUX_ROUND_LOG_DETAIL")
          (get (text "CONFLUX_ROUND_LOG_DETAIL"))
    round_history_len ←
        parse h.u32 (text "CONFLUX_ROUND_HISTORY_LEN") (get (text "CONFLUX_ROUND_HISTORY_LEN"))
    max_update_bytes ←
        parse h.u64 (text "CONFLUX_MAX_UPDATE_BYTES") (get (text "CONFLUX_MAX_UPDATE_BYTES"))
    round_timeout_secs ←
        parse h.u64 (text "CONFLUX_ROUND_TIMEOUT_SECS") (get (text "CONFLUX_ROUND_TIMEOUT_SECS"))
    clip_norm ← parse h.f32 (text "CONFLUX_CLIP_NORM") (get (text "CONFLUX_CLIP_NORM"))
    noise_multiplier ←
        parse h.f32 (text "CONFLUX_NOISE_MULTIPLIER") (get (text "CONFLUX_NOISE_MULTIPLIER"))
    ok (record {
      connection_mode = none;
      auth = none;
      round_timeout_secs = round_timeout_secs;
      min_reputation_score = min_reputation_score;
      client_registry_ttl = none;
      quorum = quorum;
      max_update_bytes = max_update_bytes;
      selector = get (text "CONFLUX_SELECTOR");
      seed_mode = none;
      seed_value = none;
      aggregator = get (text "CONFLUX_AGGREGATOR");
      robust_byzantine_fraction = robust_byzantine_fraction;
      clip_radius = clip_radius;
      server_learning_rate = server_learning_rate;
      server_tau = server_tau;
      server_momentum = server_momentum;
      fairness_q = fairness_q;
      scaffold_num_clients = scaffold_num_clients;
      zeno_rho = zeno_rho;
      server_lipschitz = server_lipschitz;
      reputation_filter_enabled = reputation_filter_enabled;
      client_side_privacy_transform = none;
      privacy_mechanism = get (text "CONFLUX_PRIVACY_MECHANISM");
      clip_norm = clip_norm;
      noise_multiplier = noise_multiplier;
      target_epsilon = none;
      delta = none;
      budget_exhausted_action = none;
      accounting_scope = none;
      allow_stub_client = none;
      require_node_auth = none;
      config_log_format = none;
      round_log_detail = round_log_detail;
      round_history_len = round_history_len;
    })
