-- ===== src/Config/Environment/Reading/Tier.antt =====
-- crates/conflux-config/src/env.rs: the environment is read as its own tier, parameter by parameter.
use conflux_fl.Base.{◌≡◌, refl, true, Option, none, some, Text}
use conflux_fl.Config.Environment.{FromStr, overrides_from_vars}
use conflux_fl.Config.Environment.Reading.{is_read, from_str, Consulted, Reads, IsTier, consult}
use conflux_fl.Base
use conflux_fl.Config.Environment.{EnvError, parse}
use conflux_fl.Config.Resolve.{Overrides}
use conflux_fl.Config.Resolve.Parameter.{Parameter, Value, variable}

module _ (h : FromStr) (get : Text → Option Text) where
  -- A parameter that is read, with what follows on it, and what its variable says of it.
  abbrev Reading : Type 0
  Reading =
      (p : Parameter) × (is_read p ≡ true) × (Option (Value p) → Base.Result EnvError Overrides)

  abbrev Read : Parameter → Type 0
  Read p = (v : Option (Value p)) × Consulted h p (get (variable p)) v

  -- The rule for `?` on a variable, in the notation of the code.
  infixl 5 ◌>>=◌
  ◌>>=◌ :
      (r : Reading)
      → ((v : Read r.0) → IsTier h get (r.2 v.0))
      → IsTier h get (Base.◌>>=◌ (parse (from_str h r.0) (variable r.0) (get (variable r.0))) r.2)
  ◌>>=◌ r go = consult h get r.0 r.2 r.1 (λ v c. go (v, c))

  -- What is set as text is taken as it is.
  taken_aggregator : (raw : Option Text) → Consulted h Parameter.aggregator raw raw
  taken_aggregator none = refl
  taken_aggregator (some value) = (value, refl, refl)

  taken_selector : (raw : Option Text) → Consulted h Parameter.selector raw raw
  taken_selector none = refl
  taken_selector (some value) = (value, refl, refl)

  taken_privacy_mechanism : (raw : Option Text) → Consulted h Parameter.privacy_mechanism raw raw
  taken_privacy_mechanism none = refl
  taken_privacy_mechanism (some value) = (value, refl, refl)

  -- The environment sets exactly the parameters that it reads, each from the variable that is
  -- documented for it: such a parameter is stated exactly if its variable is set, with the value that
  -- the variable parses to; all others are left to the other tiers, whatever is in the environment.
  -- The tier is refused only for a variable that is set and read, with a value that does not parse,
  -- and names it.
  pub overrides_from_vars-IsTier : IsTier h get (overrides_from_vars h get)
  unfolding overrides_from_vars variable
  overrides_from_vars-IsTier = do
    (_, robust_byzantine_fraction) ← (Parameter.robust_byzantine_fraction, refl, _)
    (_, clip_radius) ← (Parameter.clip_radius, refl, _)
    (_, server_learning_rate) ← (Parameter.server_learning_rate, refl, _)
    (_, server_tau) ← (Parameter.server_tau, refl, _)
    (_, server_momentum) ← (Parameter.server_momentum, refl, _)
    (_, fairness_q) ← (Parameter.fairness_q, refl, _)
    (_, scaffold_num_clients) ← (Parameter.scaffold_num_clients, refl, _)
    (_, zeno_rho) ← (Parameter.zeno_rho, refl, _)
    (_, server_lipschitz) ← (Parameter.server_lipschitz, refl, _)
    (_, min_reputation_score) ← (Parameter.min_reputation_score, refl, _)
    (_, reputation_filter_enabled) ← (Parameter.reputation_filter_enabled, refl, _)
    (_, quorum) ← (Parameter.quorum, refl, _)
    (_, round_log_detail) ← (Parameter.round_log_detail, refl, _)
    (_, round_history_len) ← (Parameter.round_history_len, refl, _)
    (_, max_update_bytes) ← (Parameter.max_update_bytes, refl, _)
    (_, round_timeout_secs) ← (Parameter.round_timeout_secs, refl, _)
    (_, clip_norm) ← (Parameter.clip_norm, refl, _)
    (_, noise_multiplier) ← (Parameter.noise_multiplier, refl, _)
    λ p. elim p as (λ p. Reads h get p _) [
      | Parameter.connection_mode ↦ refl
      | Parameter.auth ↦ refl
      | Parameter.round_timeout_secs ↦ round_timeout_secs
      | Parameter.min_reputation_score ↦ min_reputation_score
      | Parameter.client_registry_ttl ↦ refl
      | Parameter.quorum ↦ quorum
      | Parameter.max_update_bytes ↦ max_update_bytes
      | Parameter.selector ↦ taken_selector (get (variable Parameter.selector))
      | Parameter.seed_mode ↦ refl
      | Parameter.seed_value ↦ refl
      | Parameter.aggregator ↦ taken_aggregator (get (variable Parameter.aggregator))
      | Parameter.robust_byzantine_fraction ↦ robust_byzantine_fraction
      | Parameter.clip_radius ↦ clip_radius
      | Parameter.server_learning_rate ↦ server_learning_rate
      | Parameter.server_tau ↦ server_tau
      | Parameter.server_momentum ↦ server_momentum
      | Parameter.fairness_q ↦ fairness_q
      | Parameter.scaffold_num_clients ↦ scaffold_num_clients
      | Parameter.zeno_rho ↦ zeno_rho
      | Parameter.server_lipschitz ↦ server_lipschitz
      | Parameter.reputation_filter_enabled ↦ reputation_filter_enabled
      | Parameter.client_side_privacy_transform ↦ refl
      | Parameter.privacy_mechanism ↦
          taken_privacy_mechanism (get (variable Parameter.privacy_mechanism))
      | Parameter.clip_norm ↦ clip_norm
      | Parameter.noise_multiplier ↦ noise_multiplier
      | Parameter.target_epsilon ↦ refl
      | Parameter.delta ↦ refl
      | Parameter.budget_exhausted_action ↦ refl
      | Parameter.accounting_scope ↦ refl
      | Parameter.allow_stub_client ↦ refl
      | Parameter.require_node_auth ↦ refl
      | Parameter.config_log_format ↦ refl
      | Parameter.round_log_detail ↦ round_log_detail
      | Parameter.round_history_len ↦ round_history_len
    ]
