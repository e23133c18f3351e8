-- ===== src/Core/Robust/Numbers.antt =====
-- crates/conflux-core/src/robust.rs: on a batch that passed validation no distance and no score is NaN.
use conflux_fl.Base.{
  ℕ, suc, ◌<◌, ◌≡◌, refl, ap, ap₂, true, List, [], ◌∷◌, map, arith, length, All, All-map,
}
use conflux_fl.Float.{F32, Arithmetic, is_nan, is_finite, float_le, zero_f32, one_f32}
use conflux_fl.Proto.{ClientDelta}
use conflux_fl.Core.Batch.{IsFit, AreFinite}
use conflux_fl.Core.Extrema.{IsNumber}
use conflux_fl.Core.Robust.Filters.{squares, l2_distance, with_column, distance_matrix}

-- A number that is no less than zero, infinity among them.
abbrev pub IsLength : F32 → Type 0
IsLength x = float_le zero_f32 x ≡ true

-- IEEE 754 on the cases that the robust methods meet.
pub record Ieee (h : Arithmetic) : Type 0 where
  pub sub_number : (x y : F32) → is_finite x ≡ true → IsNumber y → IsNumber (h.sub x y)
  pub square : (x : F32) → IsNumber x → IsLength (h.mul x x)
  pub square_comm :
      (x y : F32)
      → is_finite x ≡ true
      → is_finite y ≡ true
      → h.mul (h.sub x y) (h.sub x y) ≡ h.mul (h.sub y x) (h.sub y x)
  pub sum_lengths : (l : List F32) → All IsLength l → IsLength (h.sum l)
  pub sqrt_length : (x : F32) → IsLength x → IsLength (h.sqrt x)
  pub share_finite :
      (n : ℕ) (x : F32)
      → 0 < n
      → is_finite x ≡ true
      → is_finite (h.mul x (h.div one_f32 (h.of_nat n))) ≡ true
  pub add_number : (x y : F32) → IsNumber x → is_finite y ≡ true → IsNumber (h.add x y)

pub IsLength-IsNumber : (x : F32) → IsLength x → IsNumber x
unfolding float_le is_nan
IsLength-IsNumber x l = ground arith

pub finite-IsNumber : (x : F32) → is_finite x ≡ true → IsNumber x
unfolding is_finite is_nan
finite-IsNumber x l = ground arith

zero-IsLength : IsLength zero_f32
unfolding float_le
zero-IsLength = refl

pub IsFit-AreFinite :
    (dim : ℕ) (us : List ClientDelta) (ws : List (List F32))
    → IsFit dim us ws
    → All (λ w. AreFinite w × (length w ≡ dim)) ws
IsFit-AreFinite dim [] [] f = tt
IsFit-AreFinite dim [] (w ∷ ws) f = absurd f
IsFit-AreFinite dim (u ∷ us) [] f = absurd f
IsFit-AreFinite dim (u ∷ us) (w ∷ ws) (_, l, fin, _, rest) =
    ((fin, l), IsFit-AreFinite dim us ws rest)

pub IsFit-length :
    (dim : ℕ) (us : List ClientDelta) (ws : List (List F32))
    → IsFit dim us ws
    → length ws ≡ length us
IsFit-length dim [] [] f = refl
IsFit-length dim [] (w ∷ ws) f = absurd f
IsFit-length dim (u ∷ us) [] f = absurd f
IsFit-length dim (u ∷ us) (w ∷ ws) (_, _, _, _, rest) = ap suc (IsFit-length dim us ws rest)

module _ (h : Arithmetic) (laws : Ieee h) where
  open laws use {
    sub_number, square, square_comm, sum_lengths, sqrt_length, share_finite, add_number,
  }

  squares-IsLength : (a b : List F32) → AreFinite a → All IsNumber b → All IsLength (squares h a b)
  unfolding squares
  squares-IsLength [] b p q = tt
  squares-IsLength (x ∷ a) [] p q = tt
  squares-IsLength (x ∷ a) (y ∷ b) p q =
      (square _ (sub_number x y p.0 q.0), squares-IsLength a b p.1 q.1)

  pub l2_distance-IsLength :
      (a b : List F32) → AreFinite a → All IsNumber b → IsLength (l2_distance h a b)
  unfolding l2_distance
  l2_distance-IsLength a b p q = sqrt_length _ (sum_lengths _ (squares-IsLength a b p q))

  pub AreFinite-IsNumber : (a : List F32) → AreFinite a → All IsNumber a
  AreFinite-IsNumber a p = All-map _ _ a finite-IsNumber p

  distances-IsLength :
      (v : List F32) (vs : List (List F32))
      → AreFinite v
      → All AreFinite vs
      → All IsLength (map (λ w. l2_distance h v w) vs)
  distances-IsLength v [] p q = tt
  distances-IsLength v (w ∷ vs) p q =
      (l2_distance-IsLength v w p (AreFinite-IsNumber w q.0), distances-IsLength v vs p q.1)

  with_column-IsLength :
      (ds : List F32) (rows : List (List F32))
      → All IsLength ds
      → All (All IsLength) rows
      → All (All IsLength) (with_column h ds rows)
  unfolding with_column
  with_column-IsLength [] rows p q = tt
  with_column-IsLength (d ∷ ds) [] p q = tt
  with_column-IsLength (d ∷ ds) (row ∷ rows) p q =
      ((p.0, q.0), with_column-IsLength ds rows p.1 q.1)

  -- No distance is NaN.
  pub distance_matrix-IsLength :
      (vs : List (List F32)) → All AreFinite vs → All (All IsLength) (distance_matrix h vs)
  unfolding distance_matrix
  distance_matrix-IsLength [] p = tt
  distance_matrix-IsLength (v ∷ vs) p =
      let ds = distances-IsLength v vs p.0 p.1 in
      ((zero-IsLength, ds), with_column-IsLength _ _ ds (distance_matrix-IsLength vs p.1))

  pub squared-IsLength :
      (row : List F32) → All IsLength row → All IsLength (map (λ d. h.mul d d) row)
  squared-IsLength [] p = tt
  squared-IsLength (d ∷ row) p = (square d (IsLength-IsNumber d p.0), squared-IsLength row p.1)

  squares_comm : (a b : List F32) → AreFinite a → AreFinite b → squares h a b ≡ squares h b a
  unfolding squares
  squares_comm [] [] p q = refl
  squares_comm [] (y ∷ b) p q = refl
  squares_comm (x ∷ a) [] p q = refl
  squares_comm (x ∷ a) (y ∷ b) p q =
      ap₂ (λ (s : F32) (l : List F32). s ∷ l) (square_comm x y p.0 q.0) (squares_comm a b p.1 q.1)

  pub l2_distance_comm :
      (a b : List F32) → AreFinite a → AreFinite b → l2_distance h a b ≡ l2_distance h b a
  unfolding l2_distance
  l2_distance_comm a b p q = ap (λ l. h.sqrt (h.sum l)) (squares_comm a b p q)
