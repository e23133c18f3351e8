-- ===== src/Tests/Trusted.antt =====
-- FLTrust on two batches that differ only in what it does not trust.
use conflux_fl.Base.{◌≡◌, refl, some, [], ◌∷◌, keep_if}
use conflux_fl.Core.Batch.{decode_and_validate}
use conflux_fl.Core.FlTrust.{TrustedReference, fl_trust, trust_of, update_from}
use conflux_fl.Core.FlTrust.Influence.{fl_trust-trusted_by}
use conflux_fl.Float.{is_finite}
use conflux_fl.Proto.Codec
use conflux_fl.Tests.World.{integers, integers64, update, ann, jo}

-- The server's own update goes from 10 to 11.
abbrev upward : TrustedReference
upward = record { global_weights = 10 ∷ []; reference_weights = 11 ∷ [] }

fl_trust-trusted_by_example :
    fl_trust integers integers64 (some upward) (update ann 11 ∷ update jo 7 ∷ [])
    ≡ fl_trust integers integers64 (some upward) (update jo 9 ∷ update jo 8 ∷ update ann 11 ∷ [])
unfolding decode_and_validate Codec.decode_weights is_finite trust_of keep_if update_from
fl_trust-trusted_by_example =
    fl_trust-trusted_by integers integers64 upward (update ann 11) (update jo 9) (update jo 7 ∷ [])
      (update jo 8 ∷ update ann 11 ∷ []) ((11 ∷ []) ∷ (7 ∷ []) ∷ [])
      ((9 ∷ []) ∷ (8 ∷ []) ∷ (11 ∷ []) ∷ []) refl refl refl refl
