-- ===== src/Core/Robust/Scores.antt =====
-- crates/conflux-core/src/robust.rs: what `krum_scores` computes. An update's score is the sum of the
-- squares of its distances to its nearest neighbours among the others.
use conflux_fl.Base.{
  ℕ, zero, suc, ◌+◌, ◌≡◌, refl, sym, ap, ap₂, subst, ◌∙◌, List, [], ◌∷◌, map, arith, length,
  length-map, get_elem?, All, All-map, All-take, take, ok, some, traverse, Perm,
}
use native.Mathlib.Nat.{zero-add}
use conflux_fl.Base.Positions.{enumerate, remove_at, All-remove_at, All-get_elem?}
use conflux_fl.Base.Sort.{sort_by, sort_by-perm, sort_by-IsSorted, IsSorted, All-sort_by}
use conflux_fl.Float.{F32, Arithmetic}
use conflux_fl.Proto.{ClientDelta}
use conflux_fl.Core.Batch.{decode_and_validate, decode_and_validate_iff, dim_of, AreFinite}
use conflux_fl.Core.Extrema.{
  IsNumber, ascending, sort_checked_numbers, ordered_le_total, ordered_le_trans,
}
use conflux_fl.Core.Robust.Filters.{
  l2_distance, with_column, distance_matrix, score_of, krum_scores, neighbors,
}
use conflux_fl.Core.Robust.Numbers.{
  Ieee, IsLength, IsLength-IsNumber, IsFit-AreFinite, distance_matrix-IsLength, squared-IsLength,
  l2_distance_comm,
}

module _ (h : Arithmetic) (laws : Ieee h) where
  -- The squared distances from the update at a place to the others.
  abbrev pub gaps : List (List F32) → ℕ → List F32 → List F32
  gaps vs i v = map (λ d. h.mul d d) (map (λ w. l2_distance h v w) (remove_at i vs))

  abbrev pub IsScore : ℕ → List (List F32) → ℕ → List F32 → F32 → Type 0
  IsScore k vs i v s =
      (nearest : List F32) × Perm nearest (gaps vs i v)
      × IsSorted ascending nearest
      × (s ≡ h.sum (take k nearest))

  -- One score for each update, a number.
  abbrev pub AreScores : ℕ → List (List F32) → List F32 → Type 0
  AreScores k vs scores =
      (length scores ≡ length vs)
      × All IsNumber scores
      × ((i : ℕ) (v : List F32) (s : F32)
          → get_elem? vs i ≡ some v
          → get_elem? scores i ≡ some s
          → IsScore k vs i v s)

  with_column_row :
      (ds : List F32) (rows : List (List F32)) (i : ℕ) (d : F32) (row : List F32)
      → get_elem? ds i ≡ some d
      → get_elem? rows i ≡ some row
      → get_elem? (with_column h ds rows) i ≡ some (d ∷ row)
  unfolding with_column
  with_column_row [] rows i d row p q = cc
  with_column_row (x ∷ ds) [] i d row p q = cc
  with_column_row (x ∷ ds) (r ∷ rows) zero d row p q = cc
  with_column_row (x ∷ ds) (r ∷ rows) (suc i) d row p q = with_column_row ds rows i d row p q

  get_elem?-map :
      (f : List F32 → F32) (vs : List (List F32)) (i : ℕ) (v : List F32)
      → get_elem? vs i ≡ some v
      → get_elem? (map f vs) i ≡ some (f v)
  get_elem?-map f [] i v p = cc
  get_elem?-map f (x ∷ vs) zero v p = cc
  get_elem?-map f (x ∷ vs) (suc i) v p = get_elem?-map f vs i v p

  -- A row of the matrix holds, off the diagonal, the distances to the others.
  pub distance_matrix_row :
      (vs : List (List F32)) (i : ℕ) (v : List F32)
      → All AreFinite vs
      → get_elem? vs i ≡ some v
      → (row : List F32) × (get_elem? (distance_matrix h vs) i ≡ some row)
        × (remove_at i row ≡ map (λ w. l2_distance h v w) (remove_at i vs))
  unfolding distance_matrix remove_at
  distance_matrix_row [] i v f p = cc
  distance_matrix_row (x ∷ vs) zero v f p =
      (_, refl, ap (λ y. map (λ w. l2_distance h y w) vs) (cc))
  distance_matrix_row (x ∷ vs) (suc i) v f p =
      let (row, e, others) = distance_matrix_row vs i v f.1 p in
      (
        l2_distance h x v ∷ row,
        with_column_row _ _ i _ row (get_elem?-map (λ w. l2_distance h x w) vs i v p) e,
        ap₂ (λ (d : F32) (l : List F32). d ∷ l)
            (l2_distance_comm h laws x v f.0 (All-get_elem? AreFinite vs i v f.1 p)) others,
      )

  length-with_column :
      (ds : List F32) (rows : List (List F32))
      → length ds ≡ length rows
      → length (with_column h ds rows) ≡ length rows
  unfolding with_column
  length-with_column [] rows p = omega arith
  length-with_column (d ∷ ds) [] p = refl
  length-with_column (d ∷ ds) (r ∷ rows) p = ap suc (length-with_column ds rows (omega arith))

  length-distance_matrix : (vs : List (List F32)) → length (distance_matrix h vs) ≡ length vs
  unfolding distance_matrix
  length-distance_matrix [] = refl
  length-distance_matrix (v ∷ vs) =
      let f = λ (w : List F32). l2_distance h v w in
      ap suc (
        length-with_column (map f vs) (distance_matrix h vs)
          (length-map f vs ∙ sym (length-distance_matrix vs))
        ∙ length-distance_matrix vs)

  score : ℕ → ℕ → List F32 → F32
  score k i row = h.sum (take k (sort_by ascending (map (λ d. h.mul d d) (remove_at i row))))

  score_of_lem :
      (k i : ℕ) (row : List F32)
      → All IsLength row
      → (score_of h k (i, row) ≡ ok (score k i row)) × IsNumber (score k i row)
  unfolding score_of score
  score_of_lem k i row p =
      let squared = squared-IsLength h laws (remove_at i row) (All-remove_at IsLength i row p) in
      let l = map (λ d. h.mul d d) (remove_at i row) in
      (
        rw
            (sort_checked_numbers (λ d. d) ascending l
              (subst (All IsNumber) (identity l) (numbers l squared)))
            refl,
        IsLength-IsNumber _
            (laws.sum_lengths _ (All-take IsLength k _ (All-sort_by ascending IsLength l squared))),
      )
    where
      numbers : (l : List F32) → All IsLength l → All IsNumber l
      numbers [] p = tt
      numbers (x ∷ l) p = (IsLength-IsNumber x p.0, numbers l p.1)

      identity : (l : List F32) → l ≡ map (λ d. d) l
      identity [] = refl
      identity (x ∷ l) = ap (◌∷◌ x) (identity l)

  scores_from : ℕ → ℕ → List (List F32) → List F32
  scores_from k start [] = []
  scores_from k start (row ∷ rows) = score k start row ∷ scores_from k (suc start) rows

  traverse-score_of :
      (k start : ℕ) (rows : List (List F32))
      → All (All IsLength) rows
      → traverse (score_of h k) (enumerate start rows) ≡ ok (scores_from k start rows)
  unfolding traverse enumerate scores_from
  traverse-score_of k start [] p = refl
  traverse-score_of k start (row ∷ rows) p =
      rw ((score_of_lem k start row p.0).0, traverse-score_of k (suc start) rows p.1) refl

  scores_from-IsNumber :
      (k start : ℕ) (rows : List (List F32))
      → All (All IsLength) rows
      → All IsNumber (scores_from k start rows)
  unfolding scores_from
  scores_from-IsNumber k start [] p = tt
  scores_from-IsNumber k start (row ∷ rows) p =
      ((score_of_lem k start row p.0).1, scores_from-IsNumber k (suc start) rows p.1)

  length-scores_from :
      (k start : ℕ) (rows : List (List F32)) → length (scores_from k start rows) ≡ length rows
  unfolding scores_from
  length-scores_from k start [] = refl
  length-scores_from k start (row ∷ rows) = ap suc (length-scores_from k (suc start) rows)

  get_elem?-scores_from :
      (k start : ℕ) (rows : List (List F32)) (i : ℕ) (row : List F32) (s : F32)
      → get_elem? rows i ≡ some row
      → get_elem? (scores_from k start rows) i ≡ some s
      → s ≡ score k (start + i) row
  unfolding scores_from
  get_elem?-scores_from k start [] i row s p q = cc
  get_elem?-scores_from k start (r ∷ rows) zero row s p q =
      let same : start + 0 ≡ start = omega arith in
      let e : r ≡ row = cc in
      let e' : score k start r ≡ s = cc in rw same (sym e' ∙ ap (score k start) e)
  get_elem?-scores_from k start (r ∷ rows) (suc i) row s p q =
      let moved : start + suc i ≡ suc start + i = omega arith in
      rw moved (get_elem?-scores_from k (suc start) rows i row s p q)

  score-IsScore :
      (k : ℕ) (vs : List (List F32)) (i : ℕ) (v row : List F32)
      → remove_at i row ≡ map (λ w. l2_distance h v w) (remove_at i vs)
      → IsScore k vs i v (score k i row)
  unfolding score
  score-IsScore k vs i v row others =
      let squared = λ (l : List F32). map (λ d. h.mul d d) l in
      let nearest = sort_by ascending (squared (remove_at i row)) in
      (
        nearest,
        subst (λ l. Perm nearest (squared l)) others
            (sort_by-perm ascending (squared (remove_at i row))),
        sort_by-IsSorted ascending ordered_le_total ordered_le_trans (squared (remove_at i row)),
        refl,
      )

  -- On a valid batch the scores are there, and each is what Krum's authors define.
  pub krum_scores-AreScores :
      (fraction : F32) (us : List ClientDelta) (vs : List (List F32))
      → decode_and_validate us ≡ ok vs
      → (scores : List F32) × (krum_scores h fraction us ≡ ok scores)
        × AreScores (neighbors h fraction (length us)) vs scores
  unfolding krum_scores
  krum_scores-AreScores fraction us vs valid =
      let fit = (decode_and_validate_iff us vs).0 valid in
      let finite = All-map _ AreFinite vs (λ w p. p.0) (IsFit-AreFinite (dim_of vs) us vs fit) in
      let lengths = distance_matrix-IsLength h laws vs finite in
      let k = neighbors h fraction (length us) in
      let rows = distance_matrix h vs in
      (
        scores_from k 0 rows,
        rw valid (traverse-score_of k 0 rows lengths),
        (
          length-scores_from k 0 rows ∙ length-distance_matrix vs,
          scores_from-IsNumber k 0 rows lengths,
          λ i v s there scored.
              let (row, at, others) = distance_matrix_row vs i v finite there in
              let e = get_elem?-scores_from k 0 rows i row s at scored in
              subst (IsScore k vs i v) (sym (e ∙ ap (λ j. score k j row) (zero-add i)))
                (score-IsScore k vs i v row others),
        ),
      )
