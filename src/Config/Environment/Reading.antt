-- ===== src/Config/Environment/Reading.antt =====
-- crates/conflux-config/src/env.rs: which variables reach the configuration, and how a wrong one is
-- refused.
pub mod Tier
use conflux_fl.Base.{◌≡◌, refl, Bool, true, false, Option, none, some, Text, Result, ok, err, ◌>>=◌}
use conflux_fl.Config.Environment.{
  EnvError, invalid, FromStr, round_log_detail_from_str, parsed, parse, overrides_from_vars,
}
use conflux_fl.Config.Resolve.{Overrides}
use conflux_fl.Config.Resolve.Parameter.{Parameter, Value, variable, stated}

-- The parameters that the environment can set.
abbrev pub is_read : Parameter → Bool
is_read Parameter.connection_mode = false
is_read Parameter.auth = false
is_read Parameter.round_timeout_secs = true
is_read Parameter.min_reputation_score = true
is_read Parameter.client_registry_ttl = false
is_read Parameter.quorum = true
is_read Parameter.max_update_bytes = true
is_read Parameter.selector = true
is_read Parameter.seed_mode = false
is_read Parameter.seed_value = false
is_read Parameter.aggregator = true
is_read Parameter.robust_byzantine_fraction = true
is_read Parameter.clip_radius = true
is_read Parameter.server_learning_rate = true
is_read Parameter.server_tau = true
is_read Parameter.server_momentum = true
is_read Parameter.fairness_q = true
is_read Parameter.scaffold_num_clients = true
is_read Parameter.zeno_rho = true
is_read Parameter.server_lipschitz = true
is_read Parameter.reputation_filter_enabled = true
is_read Parameter.client_side_privacy_transform = false
is_read Parameter.privacy_mechanism = true
is_read Parameter.clip_norm = true
is_read Parameter.noise_multiplier = true
is_read Parameter.target_epsilon = false
is_read Parameter.delta = false
is_read Parameter.budget_exhausted_action = false
is_read Parameter.accounting_scope = false
is_read Parameter.allow_stub_client = false
is_read Parameter.require_node_auth = false
is_read Parameter.config_log_format = false
is_read Parameter.round_log_detail = true
is_read Parameter.round_history_len = true

module _ (h : FromStr) where
  -- How the value of a parameter is written in its variable.
  abbrev pub from_str : (p : Parameter) → Text → Option (Value p)
  from_str Parameter.connection_mode s = none
  from_str Parameter.auth s = none
  from_str Parameter.round_timeout_secs s = h.u64 s
  from_str Parameter.min_reputation_score s = h.f32 s
  from_str Parameter.client_registry_ttl s = none
  from_str Parameter.quorum s = h.u32 s
  from_str Parameter.max_update_bytes s = h.u64 s
  from_str Parameter.selector s = some s
  from_str Parameter.seed_mode s = none
  from_str Parameter.seed_value s = none
  from_str Parameter.aggregator s = some s
  from_str Parameter.robust_byzantine_fraction s = h.f32 s
  from_str Parameter.clip_radius s = h.f32 s
  from_str Parameter.server_learning_rate s = h.f32 s
  from_str Parameter.server_tau s = h.f32 s
  from_str Parameter.server_momentum s = h.f32 s
  from_str Parameter.fairness_q s = h.f32 s
  from_str Parameter.scaffold_num_clients s = h.u32 s
  from_str Parameter.zeno_rho s = h.f32 s
  from_str Parameter.server_lipschitz s = h.f32 s
  from_str Parameter.reputation_filter_enabled s = h.bool s
  from_str Parameter.client_side_privacy_transform s = none
  from_str Parameter.privacy_mechanism s = some s
  from_str Parameter.clip_norm s = h.f32 s
  from_str Parameter.noise_multiplier s = h.f32 s
  from_str Parameter.target_epsilon s = none
  from_str Parameter.delta s = none
  from_str Parameter.budget_exhausted_action s = none
  from_str Parameter.accounting_scope s = none
  from_str Parameter.allow_stub_client s = none
  from_str Parameter.require_node_auth s = none
  from_str Parameter.config_log_format s = none
  from_str Parameter.round_log_detail s = round_log_detail_from_str s
  from_str Parameter.round_history_len s = h.u32 s

  -- The variable's content, read as the parameter's value.
  abbrev pub Consulted : (p : Parameter) → Option Text → Option (Value p) → Type 0
  Consulted p none r = r ≡ none
  Consulted p (some value) r = (v : Value p) × (from_str p value ≡ some v) × (r ≡ some v)

  abbrev pub Reads : (Text → Option Text) → Parameter → Overrides → Type 0
  Reads get p o = elim (is_read p) [
    | true ↦ Consulted p (get (variable p)) (stated p o)
    | false ↦ stated p o ≡ none
  ]

  -- What is read, or which variable is to blame.
  abbrev pub IsTier : (Text → Option Text) → Result EnvError Overrides → Type 0
  IsTier get (ok o) = (p : Parameter) → Reads get p o
  IsTier get (err (invalid name value)) =
      (p : Parameter) × (is_read p ≡ true)
      × (name ≡ variable p)
      × (get name ≡ some value)
      × (from_str p value ≡ none)

  module _ (get : Text → Option Text) where
    pub consult :
        (p : Parameter) (next : Option (Value p) → Result EnvError Overrides)
        → is_read p ≡ true
        → ((r : Option (Value p)) → Consulted p (get (variable p)) r → IsTier get (next r))
        → IsTier get (parse (from_str p) (variable p) (get (variable p)) >>= next)
    unfolding parse
    consult p next mine go = by_raw (get (variable p)) refl go
      where
        by_value :
            (value : Text)
            → get (variable p) ≡ some value
            → (v : Option (Value p)) → from_str p value ≡ v
            → ((r : Option (Value p)) → Consulted p (some value) r → IsTier get (next r))
            → IsTier get (parsed (variable p) value v >>= next)
        by_value value e none f go = (p, mine, refl, e, f)
        by_value value e (some v) f go = go (some v) (v, f, refl)

        by_raw :
            (raw : Option Text)
            → get (variable p) ≡ raw
            → ((r : Option (Value p)) → Consulted p raw r → IsTier get (next r))
            → IsTier get (parse (from_str p) (variable p) raw >>= next)
        by_raw none e go = go none refl
        by_raw (some value) e go = by_value value e (from_str p value) refl go
