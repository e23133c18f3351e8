-- ===== src/Core/Robust/Filters.antt =====
-- crates/conflux-core/src/robust.rs: the distances between updates, Krum's score and the filters that
-- are built on it, and `FilteredAggregator`.
use conflux_fl.Base.{
  ℕ, zero, suc, ◌+◌, ◌-◌, ◌*◌, min, max, List, [], ◌∷◌, ◌++◌, map, length, take, get_elem?,
  if◌then◌else◌, ltb, leb, Result, ok, err, ok_or, traverse, ◌>>=◌,
}
use conflux_fl.Base.Positions.{range_from, enumerate, remove_at}
use conflux_fl.Base.Sort.{sort_by}
use conflux_fl.Config.Preconditions.{byzantine_count}
use conflux_fl.Float.{F32, Arithmetic, zero_f32, one_f32}
use conflux_fl.Proto.{ClientDelta}
use conflux_fl.Core.{Fault, panics, refuses, empty_batch}
use conflux_fl.Core.Averaging.{Aggregator, validated, zeros, accumulate_weighted}
use conflux_fl.Core.Batch.{dim_of}
use conflux_fl.Core.Extrema.{sort_checked, least_position, greatest_position, ascending}

-- `UpdateFilter::filter`: the indices that survive.
abbrev pub UpdateFilter : Type 0
UpdateFilter = List ClientDelta → Result Fault (List ℕ)

-- `xs[i]`
abbrev pub at : {A : Type 0} → List A → ℕ → Result Fault A
at xs i = ok_or (get_elem? xs i) panics

abbrev pub picked : {A : Type 0} → List A → List ℕ → Result Fault (List A)
picked xs indices = traverse (at xs) indices

-- `FilteredAggregator::aggregate`
unfoldable pub filtered : UpdateFilter → Aggregator → Aggregator
unfolding traverse
filtered filter combiner [] = err (refuses empty_batch)
filtered filter combiner (u ∷ us) = do
  selected ← filter (u ∷ us)
  elim selected [ [] ↦ err (refuses empty_batch) | i ∷ is ↦ picked (u ∷ us) (i ∷ is) >>= combiner ]

-- `sort_unstable` of indices
abbrev pub in_order : List ℕ → List ℕ
in_order = sort_by leb

module _ (h : Arithmetic) where
  open h use {sub, mul, div, sqrt, sum, of_nat}

  unfoldable pub squares : List F32 → List F32 → List F32
  squares [] b = []
  squares (x ∷ a) [] = []
  squares (x ∷ a) (y ∷ b) = mul (sub x y) (sub x y) ∷ squares a b

  unfoldable pub l2_distance : List F32 → List F32 → F32
  unfolding squares
  l2_distance a b = sqrt (sum (squares a b))

  -- The lower part of a column: the distances of one row, each in front of the row that it belongs to.
  unfoldable pub with_column : List F32 → List (List F32) → List (List F32)
  with_column [] rows = []
  with_column (d ∷ ds) [] = []
  with_column (d ∷ ds) (row ∷ rows) = (d ∷ row) ∷ with_column ds rows

  -- `DistanceMatrix::from_updates`: the first vector's distances to the later ones are its row and its
  -- column, and so on for the rest.
  unfoldable pub distance_matrix : List (List F32) → List (List F32)
  unfolding l2_distance with_column
  distance_matrix [] = []
  distance_matrix (v ∷ vs) =
      let ds = map (λ w. l2_distance v w) vs in
      (zero_f32 ∷ ds) ∷ with_column ds (distance_matrix vs)

  -- `n.saturating_sub(f + 2).clamp(1, n.saturating_sub(1).max(1))`
  unfoldable pub neighbors : F32 → ℕ → ℕ
  unfolding byzantine_count
  neighbors fraction n = min (max (n - (byzantine_count h fraction n + 2)) 1) (max (n - 1) 1)

  -- One turn of the loop: the squared distances to the others, the nearest of them summed.
  unfoldable pub score_of : ℕ → ℕ × List F32 → Result Fault F32
  unfolding sort_checked remove_at
  score_of k (i, row) = do
    nearest ← sort_checked (λ d. d) ascending (map (λ d. mul d d) (remove_at i row))
    ok (sum (take k nearest))

  unfoldable pub krum_scores : F32 → List ClientDelta → Result Fault (List F32)
  unfolding distance_matrix neighbors score_of enumerate traverse
  krum_scores fraction updates = do
    decoded ← validated updates
    traverse (score_of (neighbors fraction (length updates)))
        (enumerate 0 (distance_matrix decoded))

  -- `KrumFilter::filter`
  unfoldable pub krum : F32 → UpdateFilter
  unfolding krum_scores least_position
  krum fraction updates = do
    scores ← krum_scores fraction updates
    best ← least_position scores
    ok (best ∷ [])

  -- `n.saturating_sub(f).max(1)`
  unfoldable pub kept_count : F32 → ℕ → ℕ
  unfolding byzantine_count
  kept_count fraction n = max (n - byzantine_count h fraction n) 1

  -- `MultiKrumFilter::filter`; an index is sorted together with its score.
  unfoldable pub multi_krum : F32 → UpdateFilter
  unfolding krum_scores sort_checked sort_by kept_count enumerate
  multi_krum fraction updates = do
    scores ← krum_scores fraction updates
    ranked ← sort_checked (λ (p : ℕ × F32). p.1) ascending (enumerate 0 scores)
    ok (in_order (take (kept_count fraction (length updates)) (map (λ p. p.0) ranked)))

  -- One turn of FABA's loop: the mean of what remains, and the farthest from it removed.
  unfoldable pub add_shares : F32 → List F32 → List (List F32) → List F32
  unfolding accumulate_weighted
  add_shares share acc [] = acc
  add_shares share acc (v ∷ vs) = add_shares share (accumulate_weighted h acc v share) vs

  unfoldable pub mean_of : List (List F32) → List F32
  unfolding add_shares zeros
  mean_of vectors =
      add_shares (div one_f32 (of_nat (length vectors))) (zeros (dim_of vectors)) vectors

  unfoldable pub drop_farthest : List (List F32) → List ℕ → Result Fault (List ℕ)
  unfolding mean_of l2_distance greatest_position remove_at traverse
  drop_farthest decoded remaining = do
    vectors ← picked decoded remaining
    worst ← greatest_position (map (λ v. l2_distance v (mean_of vectors)) vectors)
    ok (remove_at worst remaining)

  unfoldable pub drop_rounds : List (List F32) → ℕ → List ℕ → Result Fault (List ℕ)
  unfolding drop_farthest
  drop_rounds decoded zero remaining = ok remaining
  drop_rounds decoded (suc turns) remaining =
      let next = drop_farthest decoded remaining >>= drop_rounds decoded turns in
      if leb (length remaining) 1 then ok remaining else next

  -- `FabaFilter::filter`
  unfoldable pub faba : F32 → UpdateFilter
  unfolding drop_rounds byzantine_count sort_by range_from
  faba fraction updates = do
    decoded ← validated updates
    let n = length decoded
    remaining ← drop_rounds decoded (byzantine_count h fraction n) (range_from 0 n)
    ok (in_order remaining)

  -- `n.saturating_sub(2 * f).max(1)`
  unfoldable pub theta : F32 → ℕ → ℕ
  unfolding byzantine_count
  theta fraction n = max (n - 2 * byzantine_count h fraction n) 1

  -- One turn of Bulyan's loop: Krum's scores over what remains, and the best one's place in it.
  unfoldable pub best_remaining : F32 → List ClientDelta → List ℕ → Result Fault (ℕ × ℕ)
  unfolding krum_scores least_position traverse
  best_remaining fraction updates remaining = do
    pool ← picked updates remaining
    scores ← krum_scores fraction pool
    position ← least_position scores
    index ← at remaining position
    ok (position, index)

  -- The loop, with as many turns as `selected` is short of its final length. It answers with what it
  -- selected and with what remains.
  unfoldable pub select_rounds :
      F32 → List ClientDelta → ℕ → List ℕ → List ℕ → Result Fault (List ℕ × List ℕ)
  unfolding best_remaining remove_at
  select_rounds fraction updates zero selected remaining = ok (selected, remaining)
  select_rounds fraction updates (suc turns) selected remaining =
      let next = do
        (position, index) ← best_remaining fraction updates remaining
        select_rounds fraction updates turns (selected ++ index ∷ []) (remove_at position remaining)
      in if leb (length remaining) 1 then ok (selected, remaining) else next

  -- `BulyanFilter::filter`
  unfoldable pub bulyan : F32 → UpdateFilter
  unfolding select_rounds theta sort_by range_from
  bulyan fraction updates = do
    let n = length updates
    (selected, remaining) ← select_rounds fraction updates (theta fraction n) [] (range_from 0 n)
    ok (
        in_order
          (if ltb (length selected) (theta fraction n) then selected ++ remaining else selected))
