-- ===== src/Server/Round/Validated.antt =====
-- crates/conflux-server/src/serve.rs and src/round.rs: the check of the configuration at startup stands
-- in for the check of the quorum at the opening of every round.
use conflux_fl.Base.{
  ℕ, ◌<◌, ◌%◌, ◌^◌, ◌≡◌, refl, sym, ap, subst, ◌∙◌, false, some, [], ok, err, arith, length,
}
use mathlib.Core.Option
use conflux_fl.Config.Preconditions.{batch_requirement}
use conflux_fl.Config.Resolve.{Resolved, ResolvedConfig}
use conflux_fl.Config.Resolve.Whole.{values}
use conflux_fl.Config.Validate.{validate, unsatisfied}
use conflux_fl.Config.Validate.Admissible.{validate-IsAdmissible, requirement-unsatisfied}
use conflux_fl.Server.Round.{
  Opened, open_round, prepare, check_batch_requirement, and_then, quorum_override, unwrap_or,
  open_buffer, Outcome,
}
use conflux_fl.Server.State.{Environment, AppState}

module _ (env : Environment) where
  satisfied-check_batch_requirement :
      (round n : ℕ) (s : AppState env)
      → unsatisfied env.arithmetic env.arithmetic64
          (batch_requirement env.arithmetic s.config.aggregator s.config.robust_byzantine_fraction
            n)
          n
        ≡ false
      → (check_batch_requirement env round n s).1 ≡ ok tt
  unfolding check_batch_requirement
  satisfied-check_batch_requirement round n s e = ground arith

  opened :
      (m : Outcome env (Unit {0})) (f : AppState env → AppState env) (o : Opened)
      → m.1 ≡ ok tt
      → (and_then env m (λ _ s'. (f s', ok o))).1 ≡ ok o
  opened (s', ok u) f o h = refl
  opened (s', err e) f o h = cc

  -- A server whose configuration passed the check at startup, with a quorum configured, never fails to
  -- open a round for the sake of its method's batch requirement: what is prepared is opened.
  pub validate-open_round :
      (c : ResolvedConfig) (q : Resolved ℕ) (s : AppState env) (o : Opened)
      → (validate env.arithmetic env.arithmetic64 c).errors ≡ []
      → s.config ≡ values c
      → c.quorum ≡ some q
      → q.value < 2 ^ 32
      → prepare env s ≡ ok o
      → (open_round env s).1 ≡ ok o
  unfolding open_round
  validate-open_round c q s o clean same e bound prepared =
      let a = (validate-IsAdmissible env.arithmetic env.arithmetic64 c).0 clean in
      let met = requirement-unsatisfied env.arithmetic env.arithmetic64 c q a e in
      let configured : s.config.quorum ≡ some q.value =
        ap (λ x. x.quorum) same ∙ ap (Option.map (λ q. q.value)) e in
      let n = unwrap_or env (quorum_override env s) (length o.selected) in
      let given : n ≡ q.value = ap (λ x. unwrap_or env x (length o.selected)) configured in
      let cut : q.value ≡ n % 2 ^ 32 = omega (arith, given, bound) in
      let met' : unsatisfied env.arithmetic env.arithmetic64
            (batch_requirement env.arithmetic s.config.aggregator s.config.robust_byzantine_fraction
              (n % 2 ^ 32))
            (n % 2 ^ 32)
          ≡ false =
        subst
          (λ x.
            unsatisfied env.arithmetic env.arithmetic64
              (batch_requirement env.arithmetic x.aggregator x.robust_byzantine_fraction
                (n % 2 ^ 32))
              (n % 2 ^ 32)
            ≡ false)
          (sym same)
          (subst
            (λ k.
              unsatisfied env.arithmetic env.arithmetic64
                (batch_requirement env.arithmetic c.aggregator.value
                  c.robust_byzantine_fraction.value k)
                k
              ≡ false)
            cut met) in
      rw (prepared, open_round)
        (opened (check_batch_requirement env o.round (n % 2 ^ 32) s) (open_buffer env o n) o
          (satisfied-check_batch_requirement o.round (n % 2 ^ 32) s met'))
