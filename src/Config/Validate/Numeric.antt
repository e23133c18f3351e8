-- ===== src/Config/Validate/Numeric.antt =====
-- crates/conflux-config/src/validate.rs: which configurations a list of checks lets pass, and the bounds
-- of each number.
use conflux_fl.Base.{
  ℕ, ◌==◌, ◌≤◌, ◌≡◌, ◌↔◌, refl, Bool, true, false, not, ◌&&◌, Option, none, some, List, [], ◌∷◌,
  ◌++◌, arith,
}
use conflux_fl.Config.Preconditions.{in_unit}
use conflux_fl.Config.Resolve.{Resolved, ResolvedConfig}
use conflux_fl.Config.Validate.{
  Severity, error, warning, Finding, Validation, Check, push, push_by, run_checks, float_lt,
  minus_one_f32, not_non_negative, not_positive, quorum_positive, numeric_checks,
}
use conflux_fl.Float.{
  F32, Arithmetic, Arithmetic64, is_finite, float_le, zero_f32, one_f32, zero_f64, one_f64,
}

-- A check lets a configuration pass unless it raises an error.
abbrev PassBy : Severity → Bool → Type 0
PassBy warning raised = Unit {0}
PassBy error raised = raised ≡ false

abbrev pub Passed : List Check → Type 0
Passed [] = Unit {0}
Passed ((raised, f) ∷ rest) = PassBy f.severity raised × Passed rest

pub Passed-append : (xs ys : List Check) → Passed (xs ++ ys) ↔ (Passed xs × Passed ys)
Passed-append [] ys = (λ p. (tt, p), λ p. p.1)
Passed-append (x ∷ xs) ys = (
  λ p. (let (a, b) = (Passed-append xs ys).0 p.1 in ((p.0, a), b)),
  λ p. (p.0.0, (Passed-append xs ys).1 (p.0.1, p.1)),
)

append-nonempty : (fs : List Finding) (f : Finding) → ¬ (fs ++ f ∷ [] ≡ [])
append-nonempty [] f e = cc
append-nonempty (g ∷ fs) f e = cc

errors-push :
    (s : Severity) (f : Finding) (v : Validation)
    → ((push_by s f v).errors ≡ []) ↔ ((v.errors ≡ []) × PassBy s true)
errors-push error f v =
    (λ e. absurd (append-nonempty v.errors f e), λ p. absurd (let e = p.1 in (cc)))
errors-push warning f v = (λ e. (e, tt), λ p. p.0)

passes : (s : Severity) → PassBy s false
passes error = refl
passes warning = tt

pub errors-run_checks :
    (l : List Check) (v : Validation)
    → ((run_checks l v).errors ≡ []) ↔ ((v.errors ≡ []) × Passed l)
unfolding run_checks push
errors-run_checks [] v = (λ e. (e, tt), λ p. p.0)
errors-run_checks ((false, f) ∷ rest) v =
    let (to, back) = errors-run_checks rest v in
    let pass = passes f.severity in
    (λ e. (let (none', p) = to e in (none', (pass, p))), λ q. back (q.0, q.1.1))
errors-run_checks ((true, f) ∷ rest) v =
    let (to, back) = errors-run_checks rest (push f v) in
    let (seen, unseen) = errors-push f.severity f v in
    (
      λ e. (let (none', p) = to e in let (before, pass) = seen none' in (before, (pass, p))),
      λ q. back (unseen (q.0, q.1.0), q.1.1),
    )

pub at_least_one : (n : ℕ) → ((n == 0) ≡ false) ↔ (1 ≤ n)
at_least_one n = (λ e. ground arith, λ e. ground arith)

pub holds : (b : Bool) → (not b ≡ false) ↔ (b ≡ true)
holds true = (λ e. refl, λ e. refl)
holds false = (λ e. cc, λ e. cc)

pub both_hold : (a b : Bool) → (not (a && b) ≡ false) ↔ ((a ≡ true) × (b ≡ true))
both_hold a b = (λ e. ground arith, λ e. ground arith)

-- A finite number that is at least, or above, zero.
abbrev pub IsNonNegative : F32 → Type 0
IsNonNegative x = (is_finite x ≡ true) × (float_le zero_f32 x ≡ true)

abbrev pub IsPositive : F32 → Type 0
IsPositive x = (is_finite x ≡ true) × (float_lt zero_f32 x ≡ true)

pub not_non_negative_iff : (x : F32) → (not_non_negative x ≡ false) ↔ IsNonNegative x
unfolding not_non_negative float_le
not_non_negative_iff x = (λ e. ground arith, λ p. ground arith)

pub not_positive_iff : (x : F32) → (not_positive x ≡ false) ↔ IsPositive x
unfolding not_positive float_lt
not_positive_iff x = (λ e. ground arith, λ p. ground arith)

-- What each number has to be on its own.
abbrev pub QuorumPositive : Option (Resolved ℕ) → Type 0
QuorumPositive none = Unit {0}
QuorumPositive (some q) = 1 ≤ q.value

module _ (h : Arithmetic) (d : Arithmetic64) where
  pub record Numeric (c : ResolvedConfig) : Type 0 where
    pub waits : 1 ≤ c.round_timeout_secs.value
    pub remembers : 1 ≤ c.client_registry_ttl.value
    pub accepts : 1 ≤ c.max_update_bytes.value
    pub quorum_given : QuorumPositive c.quorum
    pub score :
        (float_le minus_one_f32 c.min_reputation_score.value ≡ true)
        × (float_le c.min_reputation_score.value one_f32 ≡ true)
    pub fraction : in_unit h c.robust_byzantine_fraction.value ≡ true
    pub clip_norm : IsNonNegative c.clip_norm.value
    pub noise : IsNonNegative c.noise_multiplier.value
    pub epsilon :
        (d.less zero_f64 c.target_epsilon.value ≡ true) × (d.finite c.target_epsilon.value ≡ true)
    pub delta : (d.less zero_f64 c.delta.value ≡ true) × (d.less c.delta.value one_f64 ≡ true)

  quorum_positive_iff :
      (q : Option (Resolved ℕ)) (l : List Check)
      → Passed (quorum_positive h d q ++ l) ↔ (QuorumPositive q × Passed l)
  unfolding quorum_positive
  quorum_positive_iff none l = (λ p. (tt, p), λ p. p.1)
  quorum_positive_iff (some q) l = (λ p. (ground arith, p.1), λ p. (ground arith, p.1))

  pub numeric_checks_iff : (c : ResolvedConfig) → Passed (numeric_checks h d c) ↔ Numeric c
  unfolding numeric_checks
  numeric_checks_iff c = (
    λ p.
        let (t, (_, (ttl, (bytes, rest)))) = p in
        let (quorum, (score, (fraction, (clip, (noise, (epsilon, (delta, _))))))) =
          (quorum_positive_iff c.quorum _).0 rest in
        record {
          waits = (at_least_one _).0 t;
          remembers = (at_least_one _).0 ttl;
          accepts = (at_least_one _).0 bytes;
          quorum_given = quorum;
          score = (both_hold _ _).0 score;
          fraction = (holds _).0 fraction;
          clip_norm = (not_non_negative_iff _).0 clip;
          noise = (not_non_negative_iff _).0 noise;
          epsilon = (both_hold _ _).0 epsilon;
          delta = (both_hold _ _).0 delta;
        },
    λ n. (
      (at_least_one _).1 n.waits,
      (
        tt,
        (
          (at_least_one _).1 n.remembers,
          (
            (at_least_one _).1 n.accepts,
            (quorum_positive_iff c.quorum _).1 (
              n.quorum_given,
              (
                (both_hold _ _).1 n.score,
                (
                  (holds _).1 n.fraction,
                  (
                    (not_non_negative_iff _).1 n.clip_norm,
                    (
                      (not_non_negative_iff _).1 n.noise,
                      ((both_hold _ _).1 n.epsilon, ((both_hold _ _).1 n.delta, tt)),
                    ),
                  ),
                ),
              ),
            ),
          ),
        ),
      ),
    ),
  )
