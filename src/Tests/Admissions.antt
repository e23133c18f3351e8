-- ===== src/Tests/Admissions.antt =====
-- A batch of the small deployment, which neither filters nor transforms.
use conflux_fl.Base.{◌≡◌, refl, ap, ok, List, [], ◌∷◌, map, length, arith, Nodup}
use mathlib.Core.HLevel.{⊥_prop}
use mathlib.Core.List.{Nodup-cons, Nodup-nil, mem-cons, not-mem-nil}
use mathlib.Core.Logic.Or
use conflux_fl.Float.{is_finite}
use conflux_fl.Proto.{ClientDelta}
use conflux_fl.Proto.Codec.{encode_weights, decode_weights}
use conflux_fl.Server.Admission.{Decoded, admit}
use conflux_fl.Server.Admission.Intact.{IsSound, admit-IsSound}
use conflux_fl.Tests.World.{world, idle, update, ann, jo}

abbrev batch : List ClientDelta
batch = update ann 7 ∷ update jo 8 ∷ []

abbrev vectors : List Decoded
vectors = (ann, 7 ∷ []) ∷ (jo, 8 ∷ []) ∷ []

batch-IsSound : IsSound batch vectors
unfolding encode_weights decode_weights is_finite
batch-IsSound = (refl, refl, (refl, tt), refl, (refl, refl, (refl, tt), refl, tt))

distinct : Nodup (map (λ u. u.0) vectors)
distinct = Nodup-cons.1 (
  (λ m. Or.elim ⊥_prop (mem-cons.0 m) (λ e. omega (arith, ap length e)) (λ t. not-mem-nil t)),
  Nodup-cons.1 ((λ m. not-mem-nil m), Nodup-nil),
)

admit-IsSound_example : admit world idle 1 batch ≡ ok batch
admit-IsSound_example =
    admit-IsSound world idle 1 batch vectors batch-IsSound distinct refl refl (λ k w. refl)
