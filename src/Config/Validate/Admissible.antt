-- ===== src/Config/Validate/Admissible.antt =====
-- crates/conflux-config/src/validate.rs: a configuration is reported as wrong exactly when it cannot
-- work.
use conflux_fl.Base.{
  ℕ, ◌==◌, ◌≤◌, ◌≡◌, ◌↔◌, ◌⊎◌, inl, inr, refl, subst, sym, Bool, true, false, ◌&&◌, Option, none,
  some, List, [], ◌∷◌, ◌++◌, Text, text, arith,
}
use conflux_fl.Config.Preconditions.{
  BatchRequirement, Rule, batch_requirement, in_unit, rule_of, Covered, byzantine_count, Demands,
  batch_requirement-Demands,
}
use conflux_fl.Config.Resolve.{Resolved, ResolvedConfig}
use conflux_fl.Config.Validate.{
  float_lt, one_of, half_f32, adaptive_methods, server_lr_methods, robust_methods, population_check,
  method_checks, requirement_check, numeric_checks, cross_checks, validate, unsatisfied,
}
use conflux_fl.Config.Validate.Numeric.{
  Passed, Passed-append, errors-run_checks, holds, both_hold, not_non_negative_iff,
  not_positive_iff, IsNonNegative, IsPositive, QuorumPositive, Numeric, numeric_checks_iff,
}
use conflux_fl.Float.{Arithmetic, Arithmetic64, float_le, zero_f32, one_f32}

-- A condition on the parameters of the methods in a list.
abbrev pub Where : Text → List Text → Type 0 → Type 0
Where name methods P = (one_of name methods ≡ false) ⊎ P

-- SCAFFOLD's population is there, and no smaller than a round's quorum.
abbrev pub PopulationCovers : Option (Resolved ℕ) → ℕ → Type 0
PopulationCovers none n = 1 ≤ n
PopulationCovers (some q) n = (1 ≤ n) × (q.value ≤ n)

where_iff :
    {P : Type 0} (b bad : Bool) → ((bad ≡ false) ↔ P) → ((b && bad) ≡ false) ↔ ((b ≡ false) ⊎ P)
where_iff true bad i = (λ e. inr (i.0 e), λ p. elim p [ inl e ↦ cc | inr q ↦ i.1 q ])
where_iff false bad i = (λ e. inl refl, λ p. refl)

module _ (h : Arithmetic) (d : Arithmetic64) where
  pub record Methodical (c : ResolvedConfig) : Type 0 where
    pub clip_radius :
        Where c.aggregator.value (text "centered_clipping" ∷ []) (IsPositive c.clip_radius.value)
    pub learning_rate :
        Where c.aggregator.value server_lr_methods (IsPositive c.server_learning_rate.value)
    pub tau : Where c.aggregator.value adaptive_methods (IsPositive c.server_tau.value)
    pub momentum : Where c.aggregator.value (text "fedavgm" ∷ []) (
        (float_le zero_f32 c.server_momentum.value ≡ true)
        × (float_lt c.server_momentum.value one_f32 ≡ true))
    pub fairness : Where c.aggregator.value (text "qfedavg" ∷ []) (IsNonNegative c.fairness_q.value)
    pub rho : Where c.aggregator.value (text "zeno" ∷ []) (IsNonNegative c.zeno_rho.value)
    pub population :
        Where c.aggregator.value
          (text "scaffold" ∷ [])
          (PopulationCovers c.quorum c.scaffold_num_clients.value)

  population_iff :
      (q : Option (Resolved ℕ)) (scaffold : Bool) (n : Resolved ℕ)
      → (((scaffold && n.value == 0) ≡ false) × Passed (population_check h d q scaffold n))
        ↔ ((scaffold ≡ false) ⊎ PopulationCovers q n.value)
  unfolding population_check
  population_iff none false n = (λ p. inl refl, λ p. (refl, tt))
  population_iff (some q) false n = (λ p. inl refl, λ p. (refl, (refl, tt)))
  population_iff none true n = (λ p. inr (ground arith), λ p. ground arith)
  population_iff (some q) true n = (λ p. inr (ground arith), λ p. ground arith)

  method_checks_iff : (c : ResolvedConfig) → Passed (method_checks h d c) ↔ Methodical c
  unfolding method_checks
  method_checks_iff c = (
    λ p.
        let (radius, (rate, (tau, (momentum, (fairness, (rho, (some_n, population))))))) = p in
        record {
          clip_radius = (where_iff _ _ (not_positive_iff _)).0 radius;
          learning_rate = (where_iff _ _ (not_positive_iff _)).0 rate;
          tau = (where_iff _ _ (not_positive_iff _)).0 tau;
          momentum = (where_iff _ _ (both_hold _ _)).0 momentum;
          fairness = (where_iff _ _ (not_non_negative_iff _)).0 fairness;
          rho = (where_iff _ _ (not_non_negative_iff _)).0 rho;
          population = (population_iff _ _ _).0 (some_n, population);
        },
    λ m.
        let (some_n, population) =
          (population_iff c.quorum (one_of c.aggregator.value (text "scaffold" ∷ []))
              c.scaffold_num_clients).1
            m.population in
        (
          (where_iff _ _ (not_positive_iff _)).1 m.clip_radius,
          (
            (where_iff _ _ (not_positive_iff _)).1 m.learning_rate,
            (
              (where_iff _ _ (not_positive_iff _)).1 m.tau,
              (
                (where_iff _ _ (both_hold _ _)).1 m.momentum,
                (
                  (where_iff _ _ (not_non_negative_iff _)).1 m.fairness,
                  ((where_iff _ _ (not_non_negative_iff _)).1 m.rho, (some_n, population)),
                ),
              ),
            ),
          ),
        ),
  )

  -- The quorum leaves the configured method its paper's margin.
  abbrev pub RequirementMet : Option (Resolved ℕ) → ResolvedConfig → Type 0
  RequirementMet none c = Unit {0}
  RequirementMet (some q) c =
      Covered (rule_of c.aggregator.value)
        (byzantine_count h c.robust_byzantine_fraction.value q.value) q.value

  pub record Consistent (c : ResolvedConfig) : Type 0 where
    pub minority :
        Where c.aggregator.value robust_methods
          (float_le half_f32 c.robust_byzantine_fraction.value ≡ false)
    pub requirement : RequirementMet c.quorum c

  satisfied_iff :
      (r : Rule) (f n : ℕ) (req : Option BatchRequirement)
      → Demands r f n req
      → (unsatisfied h d req n ≡ false) ↔ Covered r f n
  satisfied_iff r f n none e = (λ u. subst (λ r. Covered r f n) (sym e) tt, λ u. refl)
  satisfied_iff r f n (some req) (_, i) =
      (λ u. i.0 ((holds _).0 u), λ covered. (holds _).1 (i.1 covered))

  requirement_check_iff :
      (q : Option (Resolved ℕ)) (c : ResolvedConfig)
      → QuorumPositive q
      → in_unit h c.robust_byzantine_fraction.value ≡ true
      → Passed (requirement_check h d q c) ↔ RequirementMet q c
  unfolding requirement_check
  requirement_check_iff none c pos unit = (λ p. tt, λ m. (tt, tt))
  requirement_check_iff (some q) c pos unit =
      let i =
        satisfied_iff (rule_of c.aggregator.value)
          (byzantine_count h c.robust_byzantine_fraction.value q.value) q.value
          (batch_requirement h c.aggregator.value c.robust_byzantine_fraction.value q.value)
          (batch_requirement-Demands h c.aggregator.value c.robust_byzantine_fraction.value q.value
            (omega (arith, pos)) unit) in
      (λ p. i.0 p.0, λ m. (i.1 m, tt))

  below_half :
      (c : ResolvedConfig)
      → in_unit h c.robust_byzantine_fraction.value ≡ true
      → ((float_le half_f32 c.robust_byzantine_fraction.value
            && float_le c.robust_byzantine_fraction.value one_f32)
          ≡ false)
        ↔ (float_le half_f32 c.robust_byzantine_fraction.value ≡ false)
  unfolding in_unit
  below_half c unit = (λ e. ground arith, λ e. ground arith)

  cross_checks_iff :
      (c : ResolvedConfig) → Numeric h d c → Passed (cross_checks h d c) ↔ Consistent c
  unfolding cross_checks
  cross_checks_iff c n =
      let i = requirement_check_iff c.quorum c n.quorum_given n.fraction in
      (
        λ p.
            let (minority, (_, requirement)) = p in
            record {
              minority = (where_iff _ _ (below_half c n.fraction)).0 minority;
              requirement = i.0 requirement;
            },
        λ k. ((where_iff _ _ (below_half c n.fraction)).1 k.minority, (tt, i.1 k.requirement)),
      )

  -- A configuration that can work: every number is in its range, the parameters of the configured
  -- method are in theirs, and the method's assumptions hold of the fraction and the quorum.
  pub record IsAdmissible (c : ResolvedConfig) : Type 0 where
    pub numeric : Numeric h d c
    pub methodical : Methodical c
    pub consistent : Consistent c

  -- The report is complete and says nothing false: a resolved configuration has no error exactly if it
  -- is admissible. Every number is in its range and no NaN; the parameters of the configured method
  -- are in theirs; a robust method is not asked to withstand half of the batch or more; SCAFFOLD's
  -- population covers a quorum; and a quorum leaves the method the margin that its paper asks for.
  pub validate-IsAdmissible : (c : ResolvedConfig) → ((validate h d c).errors ≡ []) ↔ IsAdmissible c
  unfolding validate
  validate-IsAdmissible c =
      let (run, back) =
        errors-run_checks (numeric_checks h d c ++ (method_checks h d c ++ cross_checks h d c)) _ in
      (
        λ e.
            let (ns, rest) = (Passed-append (numeric_checks h d c) _).0 (run e).1 in
            let (ms, cs) = (Passed-append (method_checks h d c) _).0 rest in
            let n = (numeric_checks_iff h d c).0 ns in
            record {
              numeric = n;
              methodical = (method_checks_iff c).0 ms;
              consistent = (cross_checks_iff c n).0 cs;
            },
        λ a. back (
          refl,
          (Passed-append (numeric_checks h d c) _).1 (
            (numeric_checks_iff h d c).1 a.numeric,
            (Passed-append (method_checks h d c) _).1 (
              (method_checks_iff c).1 a.methodical,
              (cross_checks_iff c a.numeric).1 a.consistent,
            ),
          ),
        ),
      )

  -- The requirement holds of the quorum itself.
  pub requirement-unsatisfied :
      (c : ResolvedConfig) (q : Resolved ℕ)
      → IsAdmissible c
      → c.quorum ≡ some q
      → unsatisfied h d
          (batch_requirement h c.aggregator.value c.robust_byzantine_fraction.value q.value)
          q.value
        ≡ false
  unfolding requirement_check
  requirement-unsatisfied c q a e =
      ((requirement_check_iff (some q) c (subst QuorumPositive e a.numeric.quorum_given)
          a.numeric.fraction).1
        (subst (λ x. RequirementMet x c) e a.consistent.requirement)).0
