-- ===== src/Core/FlTrust.antt =====
-- crates/conflux-core/src/trusted.rs: `FlTrustAggregator`, which weighs every update by its similarity
-- to the server's own.
pub mod Influence
use conflux_fl.Base.{
  ℕ, ◌==◌, Bool, true, false, not, ◌&&◌, ◌||◌, Option, none, some, List, [], ◌∷◌, length,
  if◌then◌else◌, Result, ok, err, ok_or, ◌>>=◌,
}
use conflux_fl.Core.{
  AggregatorError, Fault, refuses, empty_batch, missing_trusted_reference,
  trusted_reference_dimension,
}
use conflux_fl.Core.Averaging.{validated}
use conflux_fl.Core.Batch.{dim_of}
use conflux_fl.Core.Optimizer.{filled}
use conflux_fl.Float.{F32, F64, Arithmetic, Arithmetic64, zero_f64}
use conflux_fl.Proto.{ClientDelta}

pub record TrustedReference : Type 0 where
  pub global_weights : List F32
  pub reference_weights : List F32

-- The sum of the trust so far, and the combined updates.
pub record Weighed : Type 0 where
  pub trust_sum : F64
  pub combined : List F64

module _ (h : Arithmetic) (d : Arithmetic64) where
  -- `x.iter().zip(w).map(|(x, w)| x - w)`
  unfoldable pub update_from : List F32 → List F32 → List F32
  update_from [] global = []
  update_from (x ∷ weights) [] = []
  update_from (x ∷ weights) (w ∷ global) = h.sub x w ∷ update_from weights global

  unfoldable pub products64 : List F32 → List F32 → List F64
  products64 [] b = []
  products64 (x ∷ a) [] = []
  products64 (x ∷ a) (y ∷ b) = d.mul (d.of_f32 x) (d.of_f32 y) ∷ products64 a b

  unfoldable pub l2_norm_f64 : List F32 → F64
  unfolding products64
  l2_norm_f64 v = d.sqrt (d.sum (products64 v v))

  unfoldable pub cosine_similarity_f64 : List F32 → List F32 → F64
  unfolding l2_norm_f64 products64
  cosine_similarity_f64 a b =
      let norm_a = l2_norm_f64 a in
      let norm_b = l2_norm_f64 b in
      if d.equal norm_a zero_f64 || d.equal norm_b zero_f64
      then zero_f64
      else d.div (d.sum (products64 a b)) (d.mul norm_a norm_b)

  -- `<= 0.0`
  abbrev pub not_above_zero : F64 → Bool
  not_above_zero x = d.less x zero_f64 || d.equal x zero_f64

  -- `TSᵢ`
  unfoldable pub trust_of : List F32 → List F32 → F64
  unfolding cosine_similarity_f64
  trust_of g0 gi = d.maximum (cosine_similarity_f64 gi g0) zero_f64

  unfoldable pub add_trusted : F64 → F64 → List F64 → List F32 → List F64
  add_trusted trust scale [] gi = []
  add_trusted trust scale (acc ∷ combined) [] = acc ∷ combined
  add_trusted trust scale (acc ∷ combined) (g ∷ gi) =
      d.add acc (d.mul (d.mul trust scale) (d.of_f32 g)) ∷ add_trusted trust scale combined gi

  -- One turn of the loop over the batch.
  unfoldable pub weigh : List F32 → List F32 → List F32 → Weighed → Weighed
  unfolding trust_of update_from l2_norm_f64 add_trusted
  weigh global g0 update w =
      let gi = update_from update global in
      let trust = trust_of g0 gi in
      let gi_norm = l2_norm_f64 gi in
      if not_above_zero trust
      then w
      else (if d.equal gi_norm zero_f64 then w else record {
        trust_sum = d.add w.trust_sum trust;
        combined = add_trusted trust (d.div (l2_norm_f64 g0) gi_norm) w.combined gi;
      })

  unfoldable pub weigh_all : List F32 → List F32 → List (List F32) → Weighed → Weighed
  unfolding weigh
  weigh_all global g0 [] w = w
  weigh_all global g0 (update ∷ updates) w = weigh_all global g0 updates (weigh global g0 update w)

  unfoldable pub moved : F64 → List F32 → List F64 → List F32
  moved trust_sum [] combined = []
  moved trust_sum (w ∷ global) [] = []
  moved trust_sum (w ∷ global) (acc ∷ combined) =
      d.to_f32 (d.add (d.of_f32 w) (d.div acc trust_sum)) ∷ moved trust_sum global combined

  abbrev pub answer : List F32 → Weighed → List F32
  answer global w =
      if not_above_zero w.trust_sum then global else moved w.trust_sum global w.combined

  -- What follows once the reference is there.
  unfoldable pub trust_and_average : TrustedReference → List (List F32) → Result Fault (List F32)
  unfolding weigh_all update_from filled moved
  trust_and_average r decoded =
      let dim = dim_of decoded in
      if length r.global_weights == dim && length r.reference_weights == dim
      then ok (
          answer r.global_weights (
            weigh_all r.global_weights (update_from r.reference_weights r.global_weights) decoded
              (record { trust_sum = zero_f64; combined = filled zero_f64 dim })))
      else err (
          refuses (
            trusted_reference_dimension dim (length r.global_weights) (length r.reference_weights)))

  -- `FlTrustAggregator::aggregate`. The reference is read and stays.
  unfoldable pub fl_trust : Option TrustedReference → List ClientDelta → Result Fault (List F32)
  unfolding trust_and_average
  fl_trust reference [] = err (refuses empty_batch)
  fl_trust reference (u ∷ us) = do
    decoded ← validated (u ∷ us)
    r ← ok_or reference (refuses missing_trusted_reference)
    trust_and_average r decoded
