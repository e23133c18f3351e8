-- ===== src/Core/FlTrust/Influence.antt =====
-- crates/conflux-core/src/trusted.rs, `FlTrustAggregator`: what an update that is not trusted can do.
use conflux_fl.Base.{
  ℕ, ◌==◌, ◌≡◌, refl, sym, ap, ap₂, ◌∙◌, Bool, true, false, not, ◌&&◌, some, List, [], ◌∷◌, length,
  keep_if, if◌then◌else◌, Result, ok, err, ◌>>=◌, arith,
}
use conflux_fl.Core.{Fault, refuses, trusted_reference_dimension}
use conflux_fl.Core.Averaging.{validated}
use conflux_fl.Core.Batch.{dim_of}
use conflux_fl.Core.FlTrust.{
  TrustedReference, Weighed, update_from, l2_norm_f64, not_above_zero, trust_of, weigh, weigh_all,
  answer, trust_and_average, fl_trust,
}
use conflux_fl.Core.Optimizer.{filled}
use conflux_fl.Float.{F32, Arithmetic, Arithmetic64, zero_f64}
use conflux_fl.Proto.{ClientDelta}

module _ (h : Arithmetic) (d : Arithmetic64) where
  -- Whether an update moves, and in the direction of the server's own.
  abbrev pub is_trusted : List F32 → List F32 → List F32 → Bool
  is_trusted global g0 update =
      let gi = update_from h d update global in
      not (not_above_zero h d (trust_of h d g0 gi)) && not (d.equal (l2_norm_f64 h d gi) zero_f64)

  abbrev pub trusted_by : TrustedReference → List F32 → Bool
  trusted_by r = is_trusted r.global_weights (update_from h d r.reference_weights r.global_weights)

  distrusted-weigh :
      (global g0 update : List F32) (w : Weighed)
      → is_trusted global g0 update ≡ false
      → weigh h d global g0 update w ≡ w
  unfolding weigh
  distrusted-weigh global g0 update w e = ground arith

  weigh_all-keep_if :
      (global g0 : List F32) (updates : List (List F32)) (w : Weighed)
      → weigh_all h d global g0 updates w
        ≡ weigh_all h d global g0 (keep_if (is_trusted global g0) updates) w
  unfolding weigh_all keep_if
  weigh_all-keep_if global g0 [] w = refl
  weigh_all-keep_if global g0 (update ∷ updates) w =
      by_trust (is_trusted global g0 update) refl (λ w. weigh_all-keep_if global g0 updates w)
    where
      by_trust :
          (b : Bool)
          → is_trusted global g0 update ≡ b
          → ((w : Weighed)
              → weigh_all h d global g0 updates w
                ≡ weigh_all h d global g0 (keep_if (is_trusted global g0) updates) w)
          → weigh_all h d global g0 updates (weigh h d global g0 update w)
            ≡ weigh_all h d global g0
                (if b
                  then update ∷ keep_if (is_trusted global g0) updates
                  else keep_if (is_trusted global g0) updates)
                w
      by_trust true e rest = rest (weigh h d global g0 update w)
      by_trust false e rest =
          ap (weigh_all h d global g0 updates) (distrusted-weigh global g0 update w e) ∙ rest w

  -- The answer, as the kept updates alone make it.
  abbrev concluded : TrustedReference → ℕ → List (List F32) → Result Fault (List F32)
  concluded r dim kept =
      if length r.global_weights == dim && length r.reference_weights == dim
      then ok (
          answer h d r.global_weights (
            weigh_all h d r.global_weights (update_from h d r.reference_weights r.global_weights)
              kept (record { trust_sum = zero_f64; combined = filled zero_f64 dim })))
      else err (
          refuses (
            trusted_reference_dimension dim (length r.global_weights) (length r.reference_weights)))

  trust_and_average-keep_if :
      (r : TrustedReference) (xs : List (List F32))
      → trust_and_average h d r xs ≡ concluded r (dim_of xs) (keep_if (trusted_by r) xs)
  unfolding trust_and_average
  trust_and_average-keep_if r xs =
      ap
        (λ w.
          if length r.global_weights == dim_of xs && length r.reference_weights == dim_of xs
          then ok (answer h d r.global_weights w)
          else err (
              refuses (
                trusted_reference_dimension (dim_of xs) (length r.global_weights)
                  (length r.reference_weights))))
        (weigh_all-keep_if r.global_weights (update_from h d r.reference_weights r.global_weights)
          xs _)

  validated-fl_trust :
      (r : TrustedReference) (u : ClientDelta) (us : List ClientDelta) (xs : List (List F32))
      → validated (u ∷ us) ≡ ok xs
      → fl_trust h d (some r) (u ∷ us) ≡ trust_and_average h d r xs
  unfolding fl_trust
  validated-fl_trust r u us xs e = ap (λ m. m >>= trust_and_average h d r) e

  -- The answer of FLTrust depends on the trusted updates alone: two valid batches of the same
  -- dimension with the same updates that move, and towards the server's own, have the same answer,
  -- however many other updates either of them holds and whatever these are.
  pub fl_trust-trusted_by :
      (r : TrustedReference) (u v : ClientDelta) (us vs : List ClientDelta)
      (xs ys : List (List F32))
      → validated (u ∷ us) ≡ ok xs
      → validated (v ∷ vs) ≡ ok ys
      → dim_of xs ≡ dim_of ys
      → keep_if (trusted_by r) xs ≡ keep_if (trusted_by r) ys
      → fl_trust h d (some r) (u ∷ us) ≡ fl_trust h d (some r) (v ∷ vs)
  fl_trust-trusted_by r u v us vs xs ys valid valid' dims same =
      validated-fl_trust r u us xs valid
      ∙ trust_and_average-keep_if r xs
      ∙ ap₂ (concluded r) dims same
      ∙ sym (trust_and_average-keep_if r ys)
      ∙ sym (validated-fl_trust r v vs ys valid')
