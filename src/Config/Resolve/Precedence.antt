-- ===== src/Config/Resolve/Precedence.antt =====
-- crates/conflux-config/src/lib.rs: every parameter is resolved by the one rule of precedence.
use conflux_fl.Base.{ℕ, ◌*◌, false, text, ◌≡◌, refl, Option, none, some, List, [], ◌∷◌}
use mathlib.Core.Option
use conflux_fl.Float.{zero_f32, one_f32}
use conflux_fl.Config
use conflux_fl.Config.Resolve.{ConfigSource, env_var, builtin_fallback, Resolved, Tiers, Overrides}
use conflux_fl.Config.Resolve.Participation.{pick_quorum}
use conflux_fl.Config.Resolve.Layer.{
  layer, and_then, file_overrides, file_source, topo_src, mode_src, topology_source, mode_source,
}
use conflux_fl.Config.Resolve.Whole.{resolve_with_profiles}
use conflux_fl.Config.Resolve.Parameter.{Parameter, Value, key, variable, stated, outcome}
use conflux_fl.Config.Resolve.Parameter.Owned.{topology_value, mode_value, fallback}

-- The first opinion in a list, with its source.
abbrev pub first_opinion : {T : Type 0} → List (Option T × ConfigSource) → Option (Resolved T)
first_opinion [] = none
first_opinion ((some value, source) ∷ rest) = some (record { value = value; source = source })
first_opinion ((none, source) ∷ rest) = first_opinion rest

-- The tiers, the narrowest first.
abbrev pub opinions : (p : Parameter) → Tiers → List (Option (Value p) × ConfigSource)
opinions p t =
    (stated p t.cli, ConfigSource.cli)
    ∷ (stated p t.env, env_var (variable p))
    ∷ (and_then (file_overrides t) (stated p), file_source t)
    ∷ (mode_value p t.mode.defaults, mode_src t (key p))
    ∷ (topology_value p t.topology.defaults, topo_src t (key p))
    ∷ (fallback p, builtin_fallback)
    ∷ []

module _ {T : Type 0} (ts ms fs es ts' ms' : ConfigSource) where
  three_unowned :
      (b : T) (c e f : Option T)
      → some (layer b none none f e c ts ms fs es)
        ≡ first_opinion (
            (c, ConfigSource.cli)
            ∷ (e, es)
            ∷ (f, fs)
            ∷ (none, ms')
            ∷ (none, ts')
            ∷ (some b, builtin_fallback)
            ∷ [])
  unfolding layer
  three_unowned b (some v) e f = refl
  three_unowned b none (some v) f = refl
  three_unowned b none none (some v) = refl
  three_unowned b none none none = refl

  three_of_topology :
      (d : T) (last c e f : Option T)
      → some (layer d (some d) none f e c ts ms fs es)
        ≡ first_opinion (
            (c, ConfigSource.cli)
            ∷ (e, es)
            ∷ (f, fs)
            ∷ (none, ms')
            ∷ (some d, ts)
            ∷ (last, builtin_fallback)
            ∷ [])
  unfolding layer
  three_of_topology d last (some v) e f = refl
  three_of_topology d last none (some v) f = refl
  three_of_topology d last none none (some v) = refl
  three_of_topology d last none none none = refl

  three_of_mode :
      (d : T) (last c e f : Option T)
      → some (layer d none (some d) f e c ts ms fs es)
        ≡ first_opinion (
            (c, ConfigSource.cli)
            ∷ (e, es)
            ∷ (f, fs)
            ∷ (some d, ms)
            ∷ (none, ts')
            ∷ (last, builtin_fallback)
            ∷ [])
  unfolding layer
  three_of_mode d last (some v) e f = refl
  three_of_mode d last none (some v) f = refl
  three_of_mode d last none none (some v) = refl
  three_of_mode d last none none none = refl

-- The rule for a parameter that nobody owns, and for the topology's and the mode's own.
module _ (p : Parameter) (t : Tiers) where
  abbrev file_stated : Option (Value p)
  file_stated = and_then (file_overrides t) (stated p)

  unowned :
      (b : Value p)
      → some (
          layer b none none file_stated
            (stated p t.env)
            (stated p t.cli)
            (topology_source t)
            (mode_source t)
            (file_source t)
            (env_var (variable p)))
        ≡ first_opinion (
            (stated p t.cli, ConfigSource.cli)
            ∷ (stated p t.env, env_var (variable p))
            ∷ (file_stated, file_source t)
            ∷ (none, mode_src t (key p))
            ∷ (none, topo_src t (key p))
            ∷ (some b, builtin_fallback)
            ∷ [])
  unowned b =
      three_unowned (topology_source t) (mode_source t) (file_source t) (env_var (variable p))
        (topo_src t (key p)) (mode_src t (key p)) b (stated p t.cli) (stated p t.env) file_stated

  of_topology :
      (d : Value p) (last : Option (Value p))
      → some (
          layer d
            (some d)
            none
            file_stated
            (stated p t.env)
            (stated p t.cli)
            (topo_src t (key p))
            (mode_source t)
            (file_source t)
            (env_var (variable p)))
        ≡ first_opinion (
            (stated p t.cli, ConfigSource.cli)
            ∷ (stated p t.env, env_var (variable p))
            ∷ (file_stated, file_source t)
            ∷ (none, mode_src t (key p))
            ∷ (some d, topo_src t (key p))
            ∷ (last, builtin_fallback)
            ∷ [])
  of_topology d last =
      three_of_topology (topo_src t (key p)) (mode_source t) (file_source t) (env_var (variable p))
        (topo_src t (key p)) (mode_src t (key p)) d last (stated p t.cli) (stated p t.env)
        file_stated

  of_mode :
      (d : Value p) (last : Option (Value p))
      → some (
          layer d none
            (some d)
            file_stated
            (stated p t.env)
            (stated p t.cli)
            (topology_source t)
            (mode_src t (key p))
            (file_source t)
            (env_var (variable p)))
        ≡ first_opinion (
            (stated p t.cli, ConfigSource.cli)
            ∷ (stated p t.env, env_var (variable p))
            ∷ (file_stated, file_source t)
            ∷ (some d, mode_src t (key p))
            ∷ (none, topo_src t (key p))
            ∷ (last, builtin_fallback)
            ∷ [])
  of_mode d last =
      three_of_mode (topology_source t) (mode_src t (key p)) (file_source t) (env_var (variable p))
        (topo_src t (key p)) (mode_src t (key p)) d last (stated p t.cli) (stated p t.env)
        file_stated

quorum_lem :
    (c e f : Option ℕ) (fs ms ts : ConfigSource)
    → pick_quorum c e f fs
      ≡ first_opinion (
          (c, ConfigSource.cli)
          ∷ (e, env_var (variable Parameter.quorum))
          ∷ (f, fs)
          ∷ (none, ms)
          ∷ (none, ts)
          ∷ (none, builtin_fallback)
          ∷ [])
unfolding pick_quorum variable
quorum_lem (some v) e f fs ms ts = refl
quorum_lem none (some v) f fs ms ts = refl
quorum_lem none none (some v) fs ms ts = refl
quorum_lem none none none fs ms ts = refl

-- A seed that the file states stands for itself.
seeded :
    (file : Option Overrides)
    → Option.map some (and_then file (λ o. o.seed_value))
      ≡ and_then file (λ o. Option.map some o.seed_value)
seeded none = refl
seeded (some o) = refl

-- Every one of the parameters is resolved by the same rule: the narrowest tier that has an opinion on
-- it decides, of command line, environment, experiment file, mode, topology and fallback in this
-- order, and is named as its source: the environment by the very variable that the key stands for, a
-- profile by its own label for the key. Only the quorum can be left without a value.
pub resolve_with_profiles-first_opinion :
    (p : Parameter) (t : Tiers) → outcome p (resolve_with_profiles t) ≡ first_opinion (opinions p t)
unfolding resolve_with_profiles variable
resolve_with_profiles-first_opinion Parameter.connection_mode t =
    of_topology Parameter.connection_mode t t.topology.defaults.connection_mode none
resolve_with_profiles-first_opinion Parameter.auth t =
    of_topology Parameter.auth t t.topology.defaults.auth none
resolve_with_profiles-first_opinion Parameter.round_timeout_secs t =
    of_topology Parameter.round_timeout_secs t t.topology.defaults.round_timeout_secs none
resolve_with_profiles-first_opinion Parameter.min_reputation_score t =
    of_topology Parameter.min_reputation_score t t.topology.defaults.min_reputation_score none
resolve_with_profiles-first_opinion Parameter.client_registry_ttl t =
    of_topology Parameter.client_registry_ttl t t.topology.defaults.client_registry_ttl none
resolve_with_profiles-first_opinion Parameter.quorum t =
    quorum_lem t.cli.quorum t.env.quorum (and_then (file_overrides t) (λ o. o.quorum))
      (file_source t) (mode_src t (key Parameter.quorum)) (topo_src t (key Parameter.quorum))
resolve_with_profiles-first_opinion Parameter.max_update_bytes t =
    unowned Parameter.max_update_bytes t (256 * 1024 * 1024)
resolve_with_profiles-first_opinion Parameter.selector t =
    unowned Parameter.selector t (text "uniform_random")
resolve_with_profiles-first_opinion Parameter.seed_mode t =
    of_mode Parameter.seed_mode t t.mode.defaults.seed_mode none
resolve_with_profiles-first_opinion Parameter.seed_value t =
    rw (seeded (file_overrides t)) (of_mode Parameter.seed_value t t.mode.defaults.seed_value none)
resolve_with_profiles-first_opinion Parameter.aggregator t =
    unowned Parameter.aggregator t (text "fedavg")
resolve_with_profiles-first_opinion Parameter.robust_byzantine_fraction t =
    unowned Parameter.robust_byzantine_fraction t (0x3e4ccccd)
resolve_with_profiles-first_opinion Parameter.clip_radius t =
    unowned Parameter.clip_radius t (one_f32)
resolve_with_profiles-first_opinion Parameter.server_learning_rate t =
    unowned Parameter.server_learning_rate t (one_f32)
resolve_with_profiles-first_opinion Parameter.server_tau t =
    unowned Parameter.server_tau t (0x3a83126f)
resolve_with_profiles-first_opinion Parameter.server_momentum t =
    unowned Parameter.server_momentum t (0x3f666666)
resolve_with_profiles-first_opinion Parameter.fairness_q t =
    unowned Parameter.fairness_q t (zero_f32)
resolve_with_profiles-first_opinion Parameter.scaffold_num_clients t =
    unowned Parameter.scaffold_num_clients t (1)
resolve_with_profiles-first_opinion Parameter.zeno_rho t = unowned Parameter.zeno_rho t (0x3a03126f)
resolve_with_profiles-first_opinion Parameter.server_lipschitz t =
    unowned Parameter.server_lipschitz t (one_f32)
resolve_with_profiles-first_opinion Parameter.reputation_filter_enabled t =
    unowned Parameter.reputation_filter_enabled t (false)
resolve_with_profiles-first_opinion Parameter.client_side_privacy_transform t =
    unowned Parameter.client_side_privacy_transform t (false)
resolve_with_profiles-first_opinion Parameter.privacy_mechanism t =
    unowned Parameter.privacy_mechanism t (text "gaussian_clipping")
resolve_with_profiles-first_opinion Parameter.clip_norm t = unowned Parameter.clip_norm t (one_f32)
resolve_with_profiles-first_opinion Parameter.noise_multiplier t =
    unowned Parameter.noise_multiplier t (one_f32)
resolve_with_profiles-first_opinion Parameter.target_epsilon t =
    unowned Parameter.target_epsilon t (0x4020000000000000)
resolve_with_profiles-first_opinion Parameter.delta t =
    unowned Parameter.delta t (0x3ee4f8b588e368f1)
resolve_with_profiles-first_opinion Parameter.budget_exhausted_action t =
    of_mode Parameter.budget_exhausted_action t t.mode.defaults.budget_exhausted_action none
resolve_with_profiles-first_opinion Parameter.accounting_scope t =
    of_mode Parameter.accounting_scope t t.mode.defaults.accounting_scope none
resolve_with_profiles-first_opinion Parameter.allow_stub_client t =
    of_mode Parameter.allow_stub_client t t.mode.defaults.allow_stub_client none
resolve_with_profiles-first_opinion Parameter.require_node_auth t =
    of_mode Parameter.require_node_auth t t.mode.defaults.require_node_auth none
resolve_with_profiles-first_opinion Parameter.config_log_format t =
    of_mode Parameter.config_log_format t t.mode.defaults.config_log_format none
resolve_with_profiles-first_opinion Parameter.round_log_detail t =
    unowned Parameter.round_log_detail t (Config.changes)
resolve_with_profiles-first_opinion Parameter.round_history_len t =
    unowned Parameter.round_history_len t (128)
