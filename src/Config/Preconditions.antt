-- ===== src/Config/Preconditions.antt =====
-- crates/conflux-config/src/preconditions.rs: what a robust method's paper requires of the batch
-- that it aggregates. Its twin in crates/conflux-core/src/robust.rs, `byzantine_count`, too.
use conflux_fl.Base.{
  ℕ, ◌+◌, ◌-◌, ◌*◌, ◌<◌, min, ◌≡◌, refl, Bool, true, not, ◌&&◌, ◌||◌, Option, none, some, arith,
  leb, ◌==◌, if◌then◌else◌, Text, text, Text-discrete, ite, tests, ◌↔◌,
}
use conflux_fl.Float.{F32, Arithmetic, float_le, zero_f32, one_f32}

-- The citation's wording is left out.
pub record BatchRequirement : Type 0 where
  pub required : ℕ
  pub excluded : ℕ

unfoldable pub satisfied_by : BatchRequirement → ℕ → Bool
satisfied_by req n = leb req.required n

-- The rows of the table: which multiple of the excluded count a method needs, and how many more.
pub data Rule : Type 0 where
  krum bulyan trimmed_mean unbounded : Rule

unfoldable pub rule_of : Text → Rule
unfolding Text-discrete
rule_of name = ite (Text-discrete name (text "krum")) krum (
    ite (Text-discrete name (text "multi_krum")) krum (
      ite (Text-discrete name (text "bulyan")) bulyan
        (ite (Text-discrete name (text "trimmed_mean")) trimmed_mean unbounded)))

abbrev pub required_at : Rule → ℕ → Option ℕ
required_at krum f = some (2 * f + 3)
required_at bulyan f = some (4 * f + 3)
required_at trimmed_mean f = some (2 * f + 1)
required_at unbounded f = none

abbrev with_excluded : ℕ → Option ℕ → Option BatchRequirement
with_excluded f none = none
with_excluded f (some required) = some (record { required = required; excluded = f })

-- What is left of a batch when the method itself drops its Byzantine share: of the `n - f - 2`
-- neighbours over which Krum scores, more than `f`; of the `n - 2f` updates that Bulyan selects,
-- more than `2f + 2`; of the values that the trimmed mean keeps, one.
abbrev pub Covered : Rule → ℕ → ℕ → Type 0
Covered krum f n = f < n - f - 2
Covered bulyan f n = 2 * f + 2 < n - 2 * f
Covered trimmed_mean f n = 0 < n - 2 * f
Covered unbounded f n = Unit {0}

abbrev pub Demands : Rule → ℕ → ℕ → Option BatchRequirement → Type 0
Demands r f n none = r ≡ unbounded
Demands r f n (some req) = (req.excluded ≡ f) × ((satisfied_by req n ≡ true) ↔ Covered r f n)

requirement-Demands : (r : Rule) (f n : ℕ) → Demands r f n (with_excluded f (required_at r f))
unfolding satisfied_by
requirement-Demands krum f n = (refl, ((λ h. omega tests), λ h. omega tests))
requirement-Demands bulyan f n = (refl, ((λ h. omega tests), λ h. omega tests))
requirement-Demands trimmed_mean f n = (refl, ((λ h. omega tests), λ h. omega tests))
requirement-Demands unbounded f n = refl

module _ (ops : Arithmetic) where
  open ops use {mul, of_nat, floor_nat}

  unfoldable pub excluded_at : F32 → ℕ → ℕ
  excluded_at fraction n = min (floor_nat (mul fraction (of_nat n))) (n - 1)

  -- `byzantine_count` of conflux-core, with which the methods themselves size what they drop.
  unfoldable pub byzantine_count : F32 → ℕ → ℕ
  byzantine_count fraction n = min (floor_nat (mul fraction (of_nat n))) (n - 1)

  -- `(0.0..=1.0).contains(&fraction)`
  unfoldable pub in_unit : F32 → Bool
  in_unit x = float_le zero_f32 x && float_le x one_f32

  unfoldable pub batch_requirement : Text → F32 → ℕ → Option BatchRequirement
  unfolding excluded_at
  batch_requirement aggregator fraction n =
      let f = excluded_at fraction n in
      if n == 0 || not (in_unit fraction)
      then none
      else with_excluded f (required_at (rule_of aggregator) f)

  batch_requirement_checked :
      (aggregator : Text) (fraction : F32) (n : ℕ)
      → 0 < n
      → in_unit fraction ≡ true
      → batch_requirement aggregator fraction n
        ≡ with_excluded
            (excluded_at fraction n)
            (required_at (rule_of aggregator) (excluded_at fraction n))
  unfolding batch_requirement
  batch_requirement_checked aggregator fraction n pos unit = ground arith

  -- The check stands in for the methods' own arithmetic: at a fraction in range and a batch that is
  -- not empty, a method without a requirement is one that states no minimum; any other requirement
  -- counts as excluded exactly what conflux-core will drop, and a batch satisfies it exactly when
  -- dropping that many leaves the method its paper's margin.
  pub batch_requirement-Demands :
      (aggregator : Text) (fraction : F32) (n : ℕ)
      → 0 < n
      → in_unit fraction ≡ true
      → Demands
          (rule_of aggregator)
          (byzantine_count fraction n)
          n
          (batch_requirement aggregator fraction n)
  unfolding byzantine_count excluded_at
  batch_requirement-Demands aggregator fraction n pos unit =
      rw (batch_requirement_checked aggregator fraction n pos unit)
        (requirement-Demands (rule_of aggregator) (excluded_at fraction n) n)

  -- A method never drops the whole of a batch.
  pub byzantine_count-lt : (fraction : F32) (n : ℕ) → 0 < n → byzantine_count fraction n < n
  unfolding byzantine_count
  byzantine_count-lt fraction n pos = omega arith
