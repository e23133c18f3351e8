-- ===== src/Config/Validate.antt =====
-- crates/conflux-config/src/validate.rs: what is checked of a resolved configuration before a server
-- starts. The wording of a finding is left out.
pub mod Numeric
pub mod Admissible
use conflux_fl.Base.{
  ℕ, ◌==◌, Bool, true, false, not, ◌&&◌, ◌||◌, Option, none, some, List, [], ◌∷◌, ◌++◌, map, ltb,
  leb, if◌then◌else◌, ite, Text, text, Text-discrete,
}
use conflux_fl.Config.Preconditions.{BatchRequirement, batch_requirement, satisfied_by, in_unit}
use conflux_fl.Config.Resolve.{ConfigSource, Resolved, ResolvedConfig}
use conflux_fl.Float.{
  F32, Arithmetic, Arithmetic64, is_finite, is_nan, ordered_le, float_le, zero_f32, one_f32,
  zero_f64, one_f64,
}

pub data Severity : Type 0 where
  error warning : Severity

pub record Finding : Type 0 where
  pub severity : Severity
  pub parameter : Text
  pub source : ConfigSource

pub record Validation : Type 0 where
  pub errors : List Finding
  pub warnings : List Finding

-- `Validation::push`
abbrev push_by : Severity → Finding → Validation → Validation
push_by error f v = record v { errors = v.errors ++ f ∷ [] }
push_by warning f v = record v { warnings = v.warnings ++ f ∷ [] }

unfoldable pub push : Finding → Validation → Validation
push f v = push_by f.severity f v

unfoldable pub merge : Validation → Validation → Validation
merge v other = record {
  errors = v.errors ++ other.errors;
  warnings = v.warnings ++ other.warnings;
}

unfoldable pub is_clean : Validation → Bool
is_clean v = elim v.errors [ [] ↦ elim v.warnings [ [] ↦ true | f ∷ fs ↦ false ] | f ∷ fs ↦ false ]

-- One `if` of `validate`: its condition, and what it pushes.
abbrev pub Check : Type 0
Check = Bool × Finding

unfoldable pub run_checks : List Check → Validation → Validation
unfolding push
run_checks [] v = v
run_checks ((raised, f) ∷ rest) v = run_checks rest (if raised then push f v else v)

-- `<`, which is false of a NaN.
unfoldable pub float_lt : F32 → F32 → Bool
unfolding is_nan ordered_le
float_lt x y = if is_nan x || is_nan y then false else not (ordered_le y x)

-- `matches!(name, ...)`
unfoldable pub one_of : Text → List Text → Bool
unfolding Text-discrete
one_of name [] = false
one_of name (x ∷ names) = let rest = one_of name names in ite (Text-discrete name x) true rest

-- -1.0, 0.5
abbrev minus_one_f32 : F32
minus_one_f32 = 0xbf800000

abbrev half_f32 : F32
half_f32 = 0x3f000000

abbrev pub adaptive_methods : List Text
adaptive_methods = text "fedadagrad" ∷ text "fedadam" ∷ text "fedyogi" ∷ []

abbrev pub server_lr_methods : List Text
server_lr_methods = adaptive_methods ++ text "fedavgm" ∷ text "scaffold" ∷ []

abbrev pub robust_methods : List Text
robust_methods =
    text "krum"
    ∷ text "multi_krum"
    ∷ text "trimmed_mean"
    ∷ text "median"
    ∷ text "faba"
    ∷ text "bulyan"
    ∷ text "geometric_median"
    ∷ text "median_of_means"
    ∷ text "divide_and_conquer"
    ∷ []

-- `!x.is_finite() || x < 0.0`, and the same with `<=`.
unfoldable pub not_non_negative : F32 → Bool
unfolding is_finite float_lt
not_non_negative x = not (is_finite x) || float_lt x zero_f32

unfoldable pub not_positive : F32 → Bool
unfolding is_finite float_le
not_positive x = not (is_finite x) || float_le x zero_f32

abbrev pub at_fault : {T : Type 0} → Text → Resolved T → Finding
at_fault name r = record { severity = error; parameter = name; source = r.source }

abbrev pub doubtful : {T : Type 0} → Text → Resolved T → Finding
doubtful name r = record { severity = warning; parameter = name; source = r.source }

module _ (h : Arithmetic) (d : Arithmetic64) where
  unfoldable pub quorum_positive : Option (Resolved ℕ) → List Check
  quorum_positive none = []
  quorum_positive (some q) = (q.value == 0, at_fault (text "quorum") q) ∷ []

  -- The bounds of each number on its own.
  unfoldable pub numeric_checks : ResolvedConfig → List Check
  unfolding quorum_positive float_le in_unit not_non_negative
  numeric_checks c =
      (c.round_timeout_secs.value == 0, at_fault (text "round_timeout_secs") c.round_timeout_secs)
      ∷ (
        not (c.round_timeout_secs.value == 0) && ltb 86400 c.round_timeout_secs.value,
        doubtful (text "round_timeout_secs") c.round_timeout_secs,
      )
      ∷ (
        c.client_registry_ttl.value == 0,
        at_fault (text "client_registry_ttl") c.client_registry_ttl,
      )
      ∷ (c.max_update_bytes.value == 0, at_fault (text "max_update_bytes") c.max_update_bytes)
      ∷ (quorum_positive c.quorum
          ++ (
            not (
                float_le minus_one_f32 c.min_reputation_score.value
                && float_le c.min_reputation_score.value one_f32),
            at_fault (text "min_reputation_score") c.min_reputation_score,
          )
            ∷ (
              not (in_unit h c.robust_byzantine_fraction.value),
              at_fault (text "robust_byzantine_fraction") c.robust_byzantine_fraction,
            )
            ∷ (not_non_negative c.clip_norm.value, at_fault (text "clip_norm") c.clip_norm)
            ∷ (
              not_non_negative c.noise_multiplier.value,
              at_fault (text "noise_multiplier") c.noise_multiplier,
            )
            ∷ (
              not (d.less zero_f64 c.target_epsilon.value && d.finite c.target_epsilon.value),
              at_fault (text "target_epsilon") c.target_epsilon,
            )
            ∷ (
              not (d.less zero_f64 c.delta.value && d.less c.delta.value one_f64),
              at_fault (text "delta") c.delta,
            )
            ∷ [])

  -- The population against the quorum, where the population is not zero.
  unfoldable pub population_check : Option (Resolved ℕ) → Bool → Resolved ℕ → List Check
  population_check none scaffold n = []
  population_check (some q) scaffold n =
      (
        scaffold && not (n.value == 0) && ltb n.value q.value,
        at_fault (text "scaffold_num_clients") n,
      )
      ∷ []

  -- The parameters of the configured method.
  unfoldable pub method_checks : ResolvedConfig → List Check
  unfolding one_of not_positive not_non_negative float_le float_lt population_check
  method_checks c =
      let name = c.aggregator.value in
      (
        one_of name (text "centered_clipping" ∷ []) && not_positive c.clip_radius.value,
        at_fault (text "clip_radius") c.clip_radius,
      )
      ∷ (
        one_of name server_lr_methods && not_positive c.server_learning_rate.value,
        at_fault (text "server_learning_rate") c.server_learning_rate,
      )
      ∷ (
        one_of name adaptive_methods && not_positive c.server_tau.value,
        at_fault (text "server_tau") c.server_tau,
      )
      ∷ (
        one_of name (text "fedavgm" ∷ [])
            && not (
                float_le zero_f32 c.server_momentum.value
                && float_lt c.server_momentum.value one_f32),
        at_fault (text "server_momentum") c.server_momentum,
      )
      ∷ (
        one_of name (text "qfedavg" ∷ []) && not_non_negative c.fairness_q.value,
        at_fault (text "fairness_q") c.fairness_q,
      )
      ∷ (
        one_of name (text "zeno" ∷ []) && not_non_negative c.zeno_rho.value,
        at_fault (text "zeno_rho") c.zeno_rho,
      )
      ∷ (
        one_of name (text "scaffold" ∷ []) && c.scaffold_num_clients.value == 0,
        at_fault (text "scaffold_num_clients") c.scaffold_num_clients,
      )
      ∷ population_check c.quorum (one_of name (text "scaffold" ∷ [])) c.scaffold_num_clients

  abbrev pub unsatisfied : Option BatchRequirement → ℕ → Bool
  unsatisfied none n = false
  unsatisfied (some req) n = not (satisfied_by req n)

  -- Whether the quorum is one that the method's paper can do with.
  unfoldable pub requirement_check : Option (Resolved ℕ) → ResolvedConfig → List Check
  unfolding one_of batch_requirement satisfied_by
  requirement_check none c =
      (
        one_of c.aggregator.value robust_methods,
        doubtful (text "quorum") c.robust_byzantine_fraction,
      )
      ∷ []
  requirement_check (some q) c =
      (
        unsatisfied
            (batch_requirement h c.aggregator.value c.robust_byzantine_fraction.value q.value)
            q.value,
        at_fault (text "quorum") q,
      )
      ∷ []

  -- What holds between parameters.
  unfoldable pub cross_checks : ResolvedConfig → List Check
  unfolding one_of float_le float_lt requirement_check
  cross_checks c =
      (
        one_of c.aggregator.value robust_methods
            && (float_le half_f32 c.robust_byzantine_fraction.value
                && float_le c.robust_byzantine_fraction.value one_f32),
        at_fault (text "robust_byzantine_fraction") c.robust_byzantine_fraction,
      )
      ∷ (
        float_lt zero_f32 c.noise_multiplier.value
            && float_le c.clip_norm.value zero_f32
            && float_le zero_f32 c.clip_norm.value,
        doubtful (text "noise_multiplier") c.noise_multiplier,
      )
      ∷ requirement_check c.quorum c

  unfoldable pub validate : ResolvedConfig → Validation
  unfolding run_checks numeric_checks method_checks cross_checks
  validate c =
      run_checks (numeric_checks c ++ (method_checks c ++ cross_checks c))
        (record { errors = []; warnings = [] })
