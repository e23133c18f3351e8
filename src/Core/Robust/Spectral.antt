-- ===== src/Core/Robust/Spectral.antt =====
-- crates/conflux-core/src/robust.rs: `DivideAndConquerFilter`, which leaves out the updates that lie
-- farthest along the direction of greatest variance.
pub mod Complement
pub mod Direction
pub mod Outlying
pub mod Ranked
use conflux_fl.Base.{
  ℕ, zero, suc, Bool, true, false, not, ◌||◌, List, [], ◌∷◌, map, length, take, keep_if, ◌==◌,
  if◌then◌else◌, ok, ◌>>=◌,
}
use conflux_fl.Base.Positions.{range_from, enumerate}
use conflux_fl.Config.Preconditions.{byzantine_count}
use conflux_fl.Float.{F32, Arithmetic, is_nan, ordered_le, one_f32}
use conflux_fl.Proto.{ClientDelta}
use conflux_fl.Core.Averaging.{validated, zeros}
use conflux_fl.Core.Batch.{dim_of}
use conflux_fl.Core.Extrema.{sort_checked, descending}
use conflux_fl.Core.Robust.Filters.{UpdateFilter, mean_of}

-- `x > y`: false when either side is NaN.
unfoldable pub exceeds : F32 → F32 → Bool
unfolding is_nan ordered_le
exceeds x y = if is_nan x || is_nan y then false else not (ordered_le x y)

-- `1e-12`
abbrev pub tiny_f32 : F32
tiny_f32 = 0x2b8cbccc

-- `excluded.contains(i)`
unfoldable pub includes : List ℕ → ℕ → Bool
includes [] i = false
includes (x ∷ l) i = x == i || includes l i

module _ (h : Arithmetic) where
  open h use {add, sub, mul, div, sqrt, sum, of_nat}

  -- `row.iter().zip(v).map(|(a, b)| a * b)`
  unfoldable pub products : List F32 → List F32 → List F32
  products [] v = []
  products (a ∷ row) [] = []
  products (a ∷ row) (b ∷ v) = mul a b ∷ products row v

  -- `x - m` for each coordinate.
  unfoldable pub differences : List F32 → List F32 → List F32
  differences [] mean = []
  differences (x ∷ row) [] = []
  differences (x ∷ row) (m ∷ mean) = sub x m ∷ differences row mean

  -- `*n += p * r` for each coordinate.
  unfoldable pub add_scaled : List F32 → F32 → List F32 → List F32
  add_scaled [] p row = []
  add_scaled (n ∷ next) p [] = n ∷ next
  add_scaled (n ∷ next) p (r ∷ row) = add n (mul p r) ∷ add_scaled next p row

  unfoldable pub add_rows : List F32 → List (List F32) → List F32 → List F32
  unfolding add_scaled
  add_rows next [] projections = next
  add_rows next (row ∷ rows) [] = next
  add_rows next (row ∷ rows) (p ∷ projections) = add_rows (add_scaled next p row) rows projections

  abbrev pub projection : List F32 → List F32 → F32
  projection v row = sum (products row v)

  abbrev pub norm : List F32 → F32
  norm l = sqrt (sum (map (λ x. mul x x) l))

  -- The power iteration; a norm that is not above the bound ends it early.
  unfoldable pub iterate : List (List F32) → ℕ → List F32 → List F32
  unfolding products add_rows exceeds zeros
  iterate centered zero v = v
  iterate centered (suc turns) v =
      let next =
        add_rows (zeros (dim_of centered)) centered (map (λ row. projection v row) centered) in
      let rest = iterate centered turns (map (λ x. div x (norm next)) next) in
      if exceeds (norm next) tiny_f32 then rest else v

  unfoldable pub filled_f32 : F32 → ℕ → List F32
  filled_f32 x zero = []
  filled_f32 x (suc n) = x ∷ filled_f32 x n

  unfoldable pub top_singular_vector : List (List F32) → ℕ → List F32
  unfolding iterate filled_f32
  top_singular_vector centered iterations =
      iterate centered iterations
        (filled_f32 (div one_f32 (sqrt (of_nat (dim_of centered)))) (dim_of centered))

  -- The squared projection of each centered update.
  unfoldable pub spectral_scores : ℕ → List (List F32) → List F32
  unfolding mean_of differences top_singular_vector products
  spectral_scores iterations decoded =
      let centered = map (λ row. differences row (mean_of h decoded)) decoded in
      let v = top_singular_vector centered iterations in
      map (λ row. mul (projection v row) (projection v row)) centered

  -- `DivideAndConquerFilter::filter`
  unfoldable pub divide_and_conquer : F32 → ℕ → UpdateFilter
  unfolding spectral_scores sort_checked byzantine_count range_from enumerate includes keep_if
  divide_and_conquer fraction iterations updates = do
    decoded ← validated updates
    let n = length decoded
    let f = byzantine_count h fraction n
    if f == 0 then ok (range_from 0 n) else (do
      ranked ←
          sort_checked (λ (p : ℕ × F32). p.1) descending
            (enumerate 0 (spectral_scores iterations decoded))
      let excluded = map (λ p. p.0) (take f ranked)
      ok (keep_if (λ i. not (includes excluded i)) (range_from 0 n)))
