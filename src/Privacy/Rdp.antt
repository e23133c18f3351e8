-- ===== src/Privacy/Rdp.antt =====
-- crates/conflux-privacy/src/lib.rs: the composition of Rényi differential privacy over rounds,
-- `epsilon_from_rounds`.
use conflux_fl.Base.{
  ◌%◌, ◌^◌, ℕ, zero, suc, ◌+◌, ◌-◌, not, ◌&&◌, ◌||◌, Option, none, some, List, [], ◌∷◌, map, ◌==◌,
  if◌then◌else◌,
}
use conflux_fl.Float.{F32, F64, Arithmetic64}

-- One round of exposure: the noise multiplier and the sampling rate.
abbrev pub Exposure : Type 0
Exposure = F32 × F32

-- A row of `by_config`: the configuration by its bits, both values as `f64`, and how many rounds
-- share it.
pub record Tally : Type 0 where
  pub sigma_bits : F32
  pub q_bits : F32
  pub sigma : F64
  pub q : F64
  pub count : ℕ

abbrev pub positive_infinity : F64
positive_infinity = 0x7ff0000000000000

abbrev pub negative_infinity : F64
negative_infinity = 0xfff0000000000000

abbrev pub zero_f64 : F64
zero_f64 = 0

abbrev pub one_f64 : F64
one_f64 = 0x3ff0000000000000

abbrev pub two_f64 : F64
two_f64 = 0x4000000000000000

-- 1.25, 1.5, 1.75, 2, 2.5, 3, 4, 5, 6, 8, 10, 12, 16, 20, 24, 32, 48, 64, 96, 128, 192 and 256.
abbrev pub rdp_orders : List F64
rdp_orders =
    0x3ff4000000000000 ∷ 0x3ff8000000000000 ∷ 0x3ffc000000000000 ∷ 0x4000000000000000
    ∷ 0x4004000000000000 ∷ 0x4008000000000000 ∷ 0x4010000000000000 ∷ 0x4014000000000000
    ∷ 0x4018000000000000 ∷ 0x4020000000000000 ∷ 0x4024000000000000 ∷ 0x4028000000000000
    ∷ 0x4030000000000000 ∷ 0x4034000000000000 ∷ 0x4038000000000000 ∷ 0x4040000000000000
    ∷ 0x4048000000000000 ∷ 0x4050000000000000 ∷ 0x4058000000000000 ∷ 0x4060000000000000
    ∷ 0x4068000000000000 ∷ 0x4070000000000000 ∷ []

module _ {A B : Type 0} where
  -- `iter().fold(init, f)`
  abbrev pub fold : (B → A → B) → B → List A → B
  fold f init [] = init
  fold f init (x ∷ xs) = fold f (f init x) xs

module _ (ops : Arithmetic64) (iteration : List Tally → List Tally) where
  open ops use {
    add, sub, mul, div, sum, ln, exp, fract, minimum, maximum, less, equal, finite, of_f32, of_nat,
    to_nat,
  }

  -- The terms for k, k + 1, … , as many as `left` says, with the logarithm of the binomial
  -- coefficient that the loop carries.
  unfoldable pub ln_terms : F64 → F64 → F64 → F64 → ℕ → ℕ → F64 → ℕ → List F64
  ln_terms alpha ln_q ln_1mq two_sigma_sq order k ln_binomial zero = []
  ln_terms alpha ln_q ln_1mq two_sigma_sq order k ln_binomial (suc left) =
      let binomial =
        if k == 0
        then ln_binomial
        else add ln_binomial (sub (ln (of_nat (order - k + 1))) (ln (of_nat k))) in
      let x = of_nat k in
      add (add (add binomial (mul (sub alpha x) ln_1mq)) (mul x ln_q))
        (div (mul x (sub x one_f64)) two_sigma_sq)
      ∷ ln_terms alpha ln_q ln_1mq two_sigma_sq order (k + 1) binomial left

  -- From the terms to the result: the largest is factored out, and a sum that is not finite has none.
  unfoldable pub log_sum : F64 → List F64 → Option F64
  log_sum alpha terms =
      let max = fold maximum negative_infinity terms in
      let total = sum (map (λ t. exp (sub t max)) terms) in
      let rdp = div (add max (ln total)) (sub alpha one_f64) in
      if not (finite max) then none else (if finite rdp then some (maximum rdp zero_f64) else none)

  unfoldable pub sampled_gaussian_rdp : F64 → F64 → F64 → Option F64
  unfolding ln_terms log_sum
  sampled_gaussian_rdp alpha sigma q =
      let integer_order =
        equal (fract alpha) zero_f64 && (less two_f64 alpha || equal two_f64 alpha) in
      let rate_in_unit_interval = less zero_f64 q && less q one_f64 in
      let positive_noise = less zero_f64 sigma in
      let order = to_nat alpha in
      let terms =
        ln_terms alpha (ln q) (ln (sub one_f64 q)) (mul (mul two_f64 sigma) sigma) order 0 zero_f64
          (order + 1) in
      if not (integer_order && rate_in_unit_interval && positive_noise)
      then none
      else log_sum alpha terms

  unfoldable pub rdp_per_round : F64 → F64 → F64 → F64
  unfolding sampled_gaussian_rdp
  rdp_per_round alpha sigma q =
      let full = div alpha (mul (mul two_f64 sigma) sigma) in
      elim (sampled_gaussian_rdp alpha sigma q) [
        | some tight ↦ if less tight full then tight else full
        | none ↦ full
      ]

  -- `by_config.entry(..).or_insert(..).2 += 1`
  unfoldable pub count_round : Exposure → List Tally → List Tally
  count_round (sigma, q) [] =
      record { sigma_bits = sigma; q_bits = q; sigma = of_f32 sigma; q = of_f32 q; count = 1 } ∷ []
  count_round (sigma, q) (t ∷ ts) =
      let rest = count_round (sigma, q) ts in
      if t.sigma_bits == sigma && t.q_bits == q
      then record t { count = (t.count + 1) % 2 ^ 32 } ∷ ts
      else t ∷ rest

  unfoldable pub by_config : List Exposure → List Tally
  unfolding count_round
  by_config rounds = fold (λ ts r. count_round r ts) [] rounds

  -- One order's bound: the composed RDP, converted to (ε, δ).
  unfoldable pub epsilon_at : List Tally → F64 → F64 → F64
  unfolding rdp_per_round
  epsilon_at tallies delta alpha =
      let rdp_total =
        sum
          (map (λ t. mul (rdp_per_round alpha t.sigma t.q) (of_nat t.count)) (iteration tallies)) in
      add rdp_total (div (ln (div one_f64 delta)) (sub alpha one_f64))

  -- `iteration` is the order in which the hash map gives its values.
  unfoldable pub epsilon_from_rounds : List Exposure → F64 → F64
  unfolding epsilon_at by_config
  epsilon_from_rounds [] delta = zero_f64
  epsilon_from_rounds (r ∷ rs) delta =
      fold minimum positive_infinity (map (epsilon_at (by_config (r ∷ rs)) delta) rdp_orders)
