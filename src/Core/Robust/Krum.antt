-- ===== src/Core/Robust/Krum.antt =====
-- crates/conflux-core/src/robust.rs: which updates `KrumFilter` and `MultiKrumFilter` keep.
use conflux_fl.Base.{
  ℕ, zero, suc, ◌≤◌, ◌<◌, ◌≡◌, refl, sym, ap, subst, ◌∙◌, true, List, [], ◌∷◌, map, arith, length,
  length-map, length-take, take, drop, take-append-drop, All-drop, All-both, Bool, get_elem?, All,
  ok, some, Perm, leb,
}
use mathlib.Core.List.Perm
use native.Mathlib.Nat.{zero-add}
use conflux_fl.Base.Positions.{
  range_from, enumerate, remove_at, remove_at-perm, map-enumerate, map-enumerate_values,
  length-enumerate, get_elem?-range_from, enumerate-All,
}
use conflux_fl.Base.Sort.{
  sort_by, sort_by-perm, sort_by-IsSorted, All-sort_by, IsSorted, IsSorted-first, IsSorted-tail,
  length-sort_by,
}
use conflux_fl.Float.{F32, Arithmetic}
use conflux_fl.Proto.{ClientDelta}
use conflux_fl.Core.Batch.{decode_and_validate, decode_and_validate_iff, dim_of}
use conflux_fl.Core.Extrema.{
  IsNumber, ascending, sort_checked_numbers, ordered_le_total, ordered_le_trans,
  least_position-IsBest, IsBest,
}
use conflux_fl.Core.Robust.Filters.{krum, multi_krum, krum_scores, neighbors, kept_count, in_order}
use conflux_fl.Core.Robust.Numbers.{Ieee, IsFit-length}
use conflux_fl.Core.Robust.Scores.{AreScores, krum_scores-AreScores}
use conflux_fl.Core.Robust.Selection.{IsSelection, in_order-IsSelection}

-- One index and the rest of the range.
pub single-IsSelection : (n i : ℕ) → i < n → IsSelection n (i ∷ []) (remove_at i (range_from 0 n))
single-IsSelection n i h =
    (tt, remove_at-perm i i (range_from 0 n) (get_elem?-range_from 0 n i h ∙ ap some (zero-add i)))

module _ (h : Arithmetic) (laws : Ieee h) where
  valid-length :
      (us : List ClientDelta) (vs : List (List F32))
      → decode_and_validate us ≡ ok vs
      → length vs ≡ length us
  valid-length us vs valid =
      IsFit-length (dim_of vs) us vs ((decode_and_validate_iff us vs).0 valid)

  -- Krum does not panic on a valid batch, and keeps the one update whose score is lowest, where a score
  -- is the sum of the squared distances to the nearest of the others.
  pub krum-IsBest :
      (fraction : F32) (u : ClientDelta) (us : List ClientDelta) (vs : List (List F32))
      → decode_and_validate (u ∷ us) ≡ ok vs
      → (best : ℕ) × (scores : List F32) × (krum h fraction (u ∷ us) ≡ ok (best ∷ []))
        × AreScores h laws (neighbors h fraction (length (u ∷ us))) vs scores
        × IsBest ascending best scores
  unfolding krum
  krum-IsBest fraction u us vs valid =
      chosen (krum_scores-AreScores h laws fraction (u ∷ us) vs valid)
    where
      k : ℕ
      k = neighbors h fraction (length (u ∷ us))

      chosen :
          ((scores : List F32) × (krum_scores h fraction (u ∷ us) ≡ ok scores)
            × AreScores h laws k vs scores)
          → (best : ℕ) × (scores : List F32) × (krum h fraction (u ∷ us) ≡ ok (best ∷ []))
            × AreScores h laws k vs scores
            × IsBest ascending best scores
      chosen ([], e, (l, _, _)) = absurd (omega (arith, l, valid-length (u ∷ us) vs valid))
      chosen (s ∷ scores, e, (l, numbers, meaning)) =
          let (best, found, first) = least_position-IsBest s scores numbers in
          (best, s ∷ scores, rw e (rw found refl), (l, numbers, meaning), first)

  -- Every score of the first list's indices is in order with every score of the second's.
  abbrev pub Outranks : List F32 → List ℕ → List ℕ → Type 0
  Outranks scores kept others =
      All
        (λ i.
          All
            (λ j.
              (a b : F32)
              → get_elem? scores i ≡ some a
              → get_elem? scores j ≡ some b
              → ascending a b ≡ true)
            others)
        kept

  abbrev by_score : ℕ × F32 → ℕ × F32 → Bool
  by_score p q = ascending p.1 q.1

  abbrev IsScored : List F32 → ℕ × F32 → Type 0
  IsScored scores p = get_elem? scores p.0 ≡ some p.1

  ahead :
      (scores : List F32) (p : ℕ × F32) (l : List (ℕ × F32))
      → IsScored scores p
      → All (λ q. (by_score p q ≡ true) × IsScored scores q) l
      → All
          (λ j.
            (a b : F32)
            → get_elem? scores p.0 ≡ some a
            → get_elem? scores j ≡ some b
            → ascending a b ≡ true)
          (map (λ q. q.0) l)
  ahead scores p [] at h = tt
  ahead scores p (q ∷ l) at h = (
    λ a b e e'.
        let first : p.1 ≡ a = cc in
        let second : q.1 ≡ b = cc (h.0.1, e') in rw (← first) (rw (← second) h.0.0),
    ahead scores p l at h.1,
  )

  split-Outranks :
      (scores : List F32) (m : ℕ) (l : List (ℕ × F32))
      → IsSorted by_score l
      → All (IsScored scores) l
      → Outranks scores (map (λ p. p.0) (take m l)) (map (λ p. p.0) (drop m l))
  split-Outranks scores zero l s h = tt
  split-Outranks scores (suc m) [] s h = tt
  split-Outranks scores (suc m) (p ∷ l) s h = (
    ahead scores p (drop m l) h.0 (
        All-drop _ m l (
          All-both _ _ l
            (IsSorted-first by_score (λ p q. ordered_le_total p.1 q.1)
              (λ p q r. ordered_le_trans p.1 q.1 r.1) p l s)
            h.1)),
    split-Outranks scores m l (IsSorted-tail by_score p l s) h.1,
  )

  kept_count-le : (fraction : F32) (n : ℕ) → 0 < n → kept_count h fraction n ≤ n
  unfolding kept_count
  kept_count-le fraction n pos = omega arith

  kept_count-pos : (fraction : F32) (n : ℕ) → 0 < kept_count h fraction n
  unfolding kept_count
  kept_count-pos fraction n = omega arith

  module _ (scores : List F32) (m : ℕ) where
    ranking : List (ℕ × F32)
    ranking = sort_by by_score (enumerate 0 scores)

    ranked : List ℕ
    ranked = map (λ p. p.0) ranking

    ranked-perm : Perm ranked (range_from 0 (length scores))
    unfolding ranked ranking
    ranked-perm =
        subst (Perm (map (λ p. p.0) (sort_by by_score (enumerate 0 scores))))
          (map-enumerate 0 scores)
          (Perm.map (λ p. p.0) (sort_by-perm by_score (enumerate 0 scores)))

    length-ranked : length ranked ≡ length scores
    unfolding ranked ranking
    length-ranked =
        length-map (λ p. p.0) (sort_by by_score (enumerate 0 scores))
        ∙ length-sort_by by_score (enumerate 0 scores)
        ∙ length-enumerate 0 scores

    ranked-Outranks : Outranks scores (in_order (take m ranked)) (drop m ranked)
    unfolding ranked ranking
    ranked-Outranks =
        let total = λ (p q : ℕ × F32). ordered_le_total p.1 q.1 in
        let trans = λ (p q r : ℕ × F32). ordered_le_trans p.1 q.1 r.1 in
        All-sort_by leb _ (take m (map (λ p. p.0) ranking)) (
          subst (λ l. Outranks scores l (drop m (map (λ p. p.0) ranking))) (map-take m ranking)
            (subst (Outranks scores (map (λ p. p.0) (take m ranking))) (map-drop m ranking) (
              split-Outranks scores m ranking
                (sort_by-IsSorted by_score total trans (enumerate 0 scores))
                (All-sort_by by_score (IsScored scores) (enumerate 0 scores)
                  (enumerate-All scores)))))
      where
        map-take :
            (m : ℕ) (l : List (ℕ × F32)) → map (λ p. p.0) (take m l) ≡ take m (map (λ p. p.0) l)
        map-take zero l = refl
        map-take (suc m) [] = refl
        map-take (suc m) (p ∷ l) = ap (◌∷◌ p.0) (map-take m l)

        map-drop :
            (m : ℕ) (l : List (ℕ × F32)) → map (λ p. p.0) (drop m l) ≡ drop m (map (λ p. p.0) l)
        map-drop zero l = refl
        map-drop (suc m) [] = refl
        map-drop (suc m) (p ∷ l) = map-drop m l

  -- Multi-Krum does not panic on a valid batch. It keeps all but the assumed number of Byzantine
  -- updates, at least one, and the score of every update that it keeps is at most that of every one
  -- that it leaves out.
  pub multi_krum-Outranks :
      (fraction : F32) (u : ClientDelta) (us : List ClientDelta) (vs : List (List F32))
      → decode_and_validate (u ∷ us) ≡ ok vs
      → (kept : List ℕ) × (others : List ℕ) × (scores : List F32) × (multi_krum h fraction (u ∷ us)
          ≡ ok kept)
        × AreScores h laws (neighbors h fraction (length (u ∷ us))) vs scores
        × IsSelection (length (u ∷ us)) kept others
        × (length kept ≡ kept_count h fraction (length (u ∷ us)))
        × Outranks scores kept others
  unfolding multi_krum ranked ranking
  multi_krum-Outranks fraction u us vs valid =
      let (scores, e, meaning) = krum_scores-AreScores h laws fraction (u ∷ us) vs valid in
      let n = length (u ∷ us) in
      let m = kept_count h fraction n in
      let all = ranked scores m in
      let size : length scores ≡ n = meaning.0 ∙ valid-length (u ∷ us) vs valid in
      let numbers = subst (All IsNumber) (sym (map-enumerate_values 0 scores)) meaning.1 in
      (
        in_order (take m all),
        drop m all,
        scores,
        rw e (
            rw (sort_checked_numbers (λ (p : ℕ × F32). p.1) ascending (enumerate 0 scores) numbers)
              refl),
        meaning,
        in_order-IsSelection n (take m all) (drop m all) (
            subst (λ l. Perm l (range_from 0 n)) (sym (take-append-drop m all))
              (subst (λ k. Perm all (range_from 0 k)) size (ranked-perm scores m))),
        (length-sort_by leb (take m all)
            ∙ omega (
              arith,
              length-take m all,
              length-ranked scores m,
              size,
              kept_count-le fraction n (omega arith),
            )),
        ranked-Outranks scores m,
      )
