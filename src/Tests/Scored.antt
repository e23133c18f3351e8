-- ===== src/Tests/Scored.antt =====
-- Zeno on two updates of one weight each.
use conflux_fl.Base.{
  ℕ, ◌-◌, ◌≡◌, refl, none, some, List, [], ◌∷◌, ◌++◌, map, length, ok, Perm, Nodup, arith, ap,
  Text-discrete,
}
use mathlib.Core.List.{Nodup-cons, Nodup-nil, mem-cons, not-mem-nil}
use mathlib.Core.Logic.Or
use mathlib.Core.HLevel.{⊥_prop}
use conflux_fl.Config.Preconditions.{byzantine_count}
use conflux_fl.Core.Batch.{decode_and_validate}
use conflux_fl.Core.Robust.Filters.{picked}
use conflux_fl.Core.Zeno.{CandidateScores, zeno, kept_mean}
use conflux_fl.Core.Zeno.Scores.{AreScored, AreSuspicions}
use conflux_fl.Core.Zeno.Ranking.{Outscores, zeno-Outscores}
use conflux_fl.Float.{F32, F64, is_finite}
use conflux_fl.Proto.{ClientDelta}
use conflux_fl.Proto.Codec
use conflux_fl.Tests.Methods.{saturating}
use conflux_fl.Tests.World.{integers64, update, ann, jo}

abbrev pair : List ClientDelta
pair = update ann 7 ∷ update jo 8 ∷ []

abbrev pair_vectors : List (List F32)
pair_vectors = (7 ∷ []) ∷ (8 ∷ []) ∷ []

pair_valid : decode_and_validate pair ≡ ok pair_vectors
unfolding decode_and_validate Codec.decode_weights is_finite
pair_valid = refl

abbrev judged : CandidateScores
judged = record { global_weights = 1 ∷ []; scores = (ann, 7) ∷ (jo, 200) ∷ (ann, 100) ∷ [] }

distinct : Nodup (map (λ v. v.client_id) pair)
distinct = Nodup-cons.1 (
  (λ m. Or.elim ⊥_prop (mem-cons.0 m) (λ e. omega (arith, ap length e)) (λ t. not-mem-nil t)),
  Nodup-cons.1 ((λ m. not-mem-nil m), Nodup-nil),
)

-- The client that comes first in the batch is scored last, and twice.
given : AreScored judged.scores pair
unfolding Text-discrete
given = ((100, refl), ((200, refl), tt))

zeno-Outscores_example :
    (ranked : List (ℕ × F64)) × AreSuspicions saturating integers64 1
      (1 ∷ [])
      judged.scores
      0
      pair
      pair_vectors
      ranked
    × (kept others : List (ℕ × F64)) × (chosen left : List (List F32)) × (zeno saturating integers64
          2 1 pair
          (some judged)
        ≡ (none, ok (kept_mean saturating integers64 1 chosen)))
    × (picked pair_vectors (map (λ p. p.0) kept) ≡ ok chosen)
    × (length chosen ≡ 2 - byzantine_count saturating 2 2)
    × Perm (kept ++ others) ranked
    × Perm (chosen ++ left) pair_vectors
    × Outscores kept others
zeno-Outscores_example =
    zeno-Outscores saturating integers64 2 1 (update ann 7) (update jo 8 ∷ []) (7 ∷ [])
      ((8 ∷ []) ∷ []) judged pair_valid refl distinct given
