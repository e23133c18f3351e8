-- ===== src/Core/Batch.antt =====
-- crates/conflux-core/src/weights.rs: `decode_and_validate`, through which every method reads a
-- batch.
use conflux_fl.Base.{
  ℕ, suc, ◌≤◌, ◌≡◌, refl, sym, subst, ◌∙◌, bind-ok, true, Option, none, some, List, [], ◌∷◌, arith,
  ◌↔◌, length, ltb, ◌==◌, if◌then◌else◌, Result, ok, err, ◌>>=◌, ◌>>◌, traverse, Text, Bytes, All,
}
use conflux_fl.Float.{F32, is_finite}
use conflux_fl.Proto.{ClientDelta}
use conflux_fl.Proto.Codec.{malformed}
use conflux_fl.Proto.Codec
use conflux_fl.Core.{
  AggregatorError, malformed_weights, mismatched_length, non_finite_weights,
  implausible_sample_count,
}

-- `1 << 40`
abbrev pub max_plausible_sample_count : ℕ
max_plausible_sample_count = 1099511627776

unfoldable pub decode_weights : Text → Bytes → Result AggregatorError (List F32)
decode_weights client_id bytes = elim (Codec.decode_weights bytes) [
  | ok ws ↦ ok ws
  | err _ ↦ err (malformed_weights client_id (length bytes))
]

abbrev pub decode_update : ClientDelta → Result AggregatorError (List F32)
decode_update u = decode_weights u.client_id u.weights

-- The first loop: every vector has the length of the first.
unfoldable pub check_lengths :
    ℕ → List ClientDelta → List (List F32) → Result AggregatorError (Unit {0})
check_lengths dim [] decoded = ok tt
check_lengths dim (u ∷ us) [] = ok tt
check_lengths dim (u ∷ us) (w ∷ ws) =
    let rest = check_lengths dim us ws in
    if length w == dim then rest else err (mismatched_length u.client_id dim (length w))

-- `iter().position(|w| !w.is_finite())`
unfoldable pub position_non_finite : List F32 → Option ℕ
position_non_finite [] = none
position_non_finite (w ∷ ws) =
    let rest = position_non_finite ws in
    if is_finite w then elim rest [ none ↦ none | some i ↦ some (suc i) ] else some 0

-- The second loop: finite weights, and a possible sample count.
unfoldable pub check_update : ClientDelta → List F32 → Result AggregatorError (Unit {0})
unfolding position_non_finite
check_update u ws = elim (position_non_finite ws) [
  | some index ↦ err (non_finite_weights u.client_id index)
  | none ↦
      if ltb max_plausible_sample_count u.num_samples
      then err (implausible_sample_count u.client_id u.num_samples max_plausible_sample_count)
      else ok tt
]

unfoldable pub check_updates :
    List ClientDelta → List (List F32) → Result AggregatorError (Unit {0})
unfolding check_update
check_updates [] decoded = ok tt
check_updates (u ∷ us) [] = ok tt
check_updates (u ∷ us) (w ∷ ws) = let rest = check_updates us ws in check_update u w >> rest

unfoldable pub check_dimension :
    List ClientDelta → List (List F32) → Result AggregatorError (Unit {0})
unfolding check_lengths
check_dimension updates [] = ok tt
check_dimension updates (first ∷ rest) = check_lengths (length first) updates (first ∷ rest)

unfoldable pub decode_and_validate : List ClientDelta → Result AggregatorError (List (List F32))
unfolding decode_weights check_dimension check_updates traverse
decode_and_validate updates = do
  decoded ← traverse decode_update updates
  check_dimension updates decoded
  check_updates updates decoded
  ok decoded

-- A batch that is fit to aggregate: one vector for each update, decoded from it, all of one length,
-- finite, and with a sample count that can be real.
abbrev pub AreFinite : List F32 → Type 0
AreFinite = All (λ w. is_finite w ≡ true)

abbrev pub IsFit : ℕ → List ClientDelta → List (List F32) → Type 0
IsFit dim [] [] = Unit {0}
IsFit dim [] (w ∷ ws) = ⊥
IsFit dim (u ∷ us) [] = ⊥
IsFit dim (u ∷ us) (w ∷ ws) =
    (Codec.decode_weights u.weights ≡ ok w)
    × (length w ≡ dim)
    × AreFinite w
    × (u.num_samples ≤ max_plausible_sample_count)
    × IsFit dim us ws

pub position-AreFinite : (ws : List F32) → position_non_finite ws ≡ none → AreFinite ws
unfolding position_non_finite
position-AreFinite [] h = tt
position-AreFinite (w ∷ ws) h = ground (arith, position-AreFinite ws)

AreFinite-position : (ws : List F32) → AreFinite ws → position_non_finite ws ≡ none
unfolding position_non_finite
AreFinite-position [] h = refl
AreFinite-position (w ∷ ws) h = ground (arith, AreFinite-position ws h.1)

checks-IsFit :
    (dim : ℕ) (us : List ClientDelta) (ws : List (List F32))
    → traverse decode_update us ≡ ok ws
    → check_lengths dim us ws ≡ ok tt
    → check_updates us ws ≡ ok tt
    → IsFit dim us ws
unfolding traverse check_lengths check_updates check_update decode_weights
checks-IsFit dim [] [] d l c = tt
checks-IsFit dim [] (w ∷ ws) d l c = cc
checks-IsFit dim (u ∷ us) [] d l c = ground arith
checks-IsFit dim (u ∷ us) (w ∷ ws) d l c =
    ground (arith, checks-IsFit dim us ws, position-AreFinite w)

IsFit-checks :
    (dim : ℕ) (us : List ClientDelta) (ws : List (List F32))
    → IsFit dim us ws
    → (traverse decode_update us ≡ ok ws)
      × (check_lengths dim us ws ≡ ok tt)
      × (check_updates us ws ≡ ok tt)
unfolding traverse check_lengths check_updates check_update decode_weights
IsFit-checks dim [] [] f = (refl, refl, refl)
IsFit-checks dim [] (w ∷ ws) f = absurd f
IsFit-checks dim (u ∷ us) [] f = absurd f
IsFit-checks dim (u ∷ us) (w ∷ ws) f = ground (arith, IsFit-checks dim us ws, AreFinite-position w)

-- The batch's dimension: that of its first vector.
abbrev pub dim_of : List (List F32) → ℕ
dim_of [] = 0
dim_of (w ∷ ws) = length w

check_dimension-check_lengths :
    (us : List ClientDelta) (ws : List (List F32))
    → check_dimension us ws ≡ check_lengths (dim_of ws) us ws
unfolding check_dimension
check_dimension-check_lengths [] [] = refl
check_dimension-check_lengths (u ∷ us) [] = refl
check_dimension-check_lengths us (w ∷ ws) = refl

decode_and_validate-IsFit :
    (us : List ClientDelta) (ws : List (List F32))
    → decode_and_validate us ≡ ok ws
    → IsFit (dim_of ws) us ws
unfolding decode_and_validate
decode_and_validate-IsFit us ws h =
    let (ds, decoded, h₁) = bind-ok (traverse decode_update us) _ h in
    let (_, same, h₂) = bind-ok (check_dimension us ds) _ h₁ in
    let (_, checked, h₃) = bind-ok (check_updates us ds) _ h₂ in
    let e : ds ≡ ws = cc in
    subst (λ x. IsFit (dim_of x) us x) e
      (checks-IsFit (dim_of ds) us ds decoded (sym (check_dimension-check_lengths us ds) ∙ same)
        checked)

-- The chokepoint lets through exactly the batches that are fit: it answers with vectors if and only
-- if those are the decoded updates, one for each, all of the first one's length, all finite, and
-- every update reports a sample count that can be real.
pub decode_and_validate_iff :
    (us : List ClientDelta) (ws : List (List F32))
    → (decode_and_validate us ≡ ok ws) ↔ IsFit (dim_of ws) us ws
unfolding decode_and_validate
decode_and_validate_iff us ws = (
  decode_and_validate-IsFit us ws,
  λ f.
      let (decoded, same, checked) = IsFit-checks (dim_of ws) us ws f in
      rw (decoded, check_dimension-check_lengths, same, checked),
)
