-- ===== src/Reputation.antt =====
-- crates/conflux-reputation/src/lib.rs: the cosine score of an update against a reference, and the
-- filter that drops what scores below a threshold.
use conflux_fl.Base.{
  ◌≡◌, refl, ◌↔◌, ◌≢◌, ==_iff, Any, Bool, true, false, not, ◌&&◌, ◌||◌, List, [], ◌∷◌, map, arith,
  length, ◌==◌, if◌then◌else◌, Text, Bool-cases, inl, inr,
}
use conflux_fl.Float.{F32, Arithmetic, float_le, is_nan, nan, zero_f32}

-- `iter().zip(..).map(|(a, b)| f(a, b))`
abbrev pub zip_with : (F32 → F32 → F32) → List F32 → List F32 → List F32
zip_with f [] ys = []
zip_with f (x ∷ xs) [] = []
zip_with f (x ∷ xs) (y ∷ ys) = f x y ∷ zip_with f xs ys

-- `x == y` on floats: equal as numbers, and never with a NaN.
abbrev pub float_eq : F32 → F32 → Bool
float_eq x y = float_le x y && float_le y x

-- What compares with a number is a number.
float_le-is_nan : (x y : F32) → float_le x y ≡ true → is_nan y ≡ false
unfolding float_le
float_le-is_nan x y h = ground arith

nan-never : (x : F32) → float_le x nan ≢ true
unfolding float_le is_nan
nan-never x h = ground arith

module _ (ops : Arithmetic) where
  open ops use {mul, div, sum, sqrt}

  unfoldable pub l2_norm : List F32 → F32
  l2_norm v = sqrt (sum (map (λ x. mul x x) v))

  -- `CosineScorer::score`
  unfoldable pub score : List F32 → List F32 → F32
  unfolding l2_norm
  score update reference =
      let dot = sum (zip_with mul update reference) in
      let norm_update = l2_norm update in
      let norm_reference = l2_norm reference in
      if not (length update == length reference)
      then nan
      else (if float_eq norm_update zero_f32 || float_eq norm_reference zero_f32
          then zero_f32
          else div dot (mul norm_update norm_reference))

  unfoldable pub filter_by_threshold : List (Text × List F32) → List F32 → F32 → List Text
  unfolding score
  filter_by_threshold [] reference min_score = []
  filter_by_threshold ((id, weights) ∷ updates) reference min_score =
      let rest = filter_by_threshold updates reference min_score in
      if float_le min_score (score weights reference) then id ∷ rest else rest

  -- What passes: an update of the reference's length whose score is a number and high enough.
  abbrev pub Passes : List F32 → F32 → List F32 → Type 0
  Passes reference min_score weights =
      (length weights ≡ length reference)
      × (is_nan (score weights reference) ≡ false)
      × (float_le min_score (score weights reference) ≡ true)

  score_mismatched :
      (weights reference : List F32)
      → (length weights == length reference) ≡ false
      → score weights reference ≡ nan
  unfolding score
  score_mismatched weights reference e = rw e refl

  score-Passes :
      (weights reference : List F32) (min_score : F32)
      → float_le min_score (score weights reference) ≡ true
      → Passes reference min_score weights
  score-Passes weights reference min_score h =
      elim (Bool-cases (length weights == length reference)) [
        | inl e ↦
            ((==_iff (length weights) (length reference)).0 e, float_le-is_nan min_score _ h, h)
        | inr e ↦ absurd (nan-never min_score (rw (score_mismatched weights reference e) at h))
      ]

  -- The filter keeps a client exactly when one of its updates is of the reference's length and scores
  -- a number that is at least the threshold: no score of NaN and no update of another length ever
  -- passes, at any threshold.
  pub filter_by_threshold_iff :
      (id : Text) (updates : List (Text × List F32)) (reference : List F32) (min_score : F32)
      → Any (λ j. j ≡ id) (filter_by_threshold updates reference min_score)
        ↔ Any (λ u. (u.0 ≡ id) × Passes reference min_score u.1) updates
  unfolding filter_by_threshold
  filter_by_threshold_iff id [] reference min_score = (λ m. m, λ a. a)
  filter_by_threshold_iff id ((j, weights) ∷ updates) reference min_score =
      let tail = filter_by_threshold_iff id updates reference min_score in
      elim (Bool-cases (float_le min_score (score weights reference))) [
        | inl e ↦
            let (same, number, _) = score-Passes weights reference min_score e in
            rw (filter_by_threshold, e)
              (
                (λ h. elim h [ inl p ↦ inl (p, (same, number, refl)) | inr t ↦ inr (tail.0 t) ]),
                λ h. elim h [ inl p ↦ inl p.0 | inr t ↦ inr (tail.1 t) ],
              )
        | inr e ↦
            rw (filter_by_threshold, e)
              ((λ h. inr (tail.0 h)), λ h. elim h [ inl p ↦ absurd (cc) | inr t ↦ tail.1 t ])
      ]
