-- ===== src/Core/Robust/Bulyan.antt =====
-- crates/conflux-core/src/robust.rs: which updates `BulyanFilter` keeps.
use conflux_fl.Base.{
  ℕ, zero, suc, ◌+◌, ◌≤◌, ◌<◌, ◌≡◌, ◌⊎◌, inl, inr, refl, sym, ap, subst, ◌∙◌, List, [], ◌∷◌, ◌++◌,
  arith, length, length-append, get_elem?, some, All, ok, Perm, leb, ltb, if◌then◌else◌, traverse,
  Bool-cases, leb→le, leb_false→lt, ltb→lt,
}
use mathlib.Core.List.Perm
use mathlib.Core.List.{append_assoc, append-nil, perm_append_comm}
use conflux_fl.Base.Positions.{
  range_from, length-range_from, remove_at, remove_at-perm, length-remove_at, get_elem?-some,
  get_elem?-lt,
}
use conflux_fl.Base.Sort.{length-sort_by}
use conflux_fl.Float.{F32, Arithmetic}
use conflux_fl.Proto.{ClientDelta}
use conflux_fl.Proto.Codec
use conflux_fl.Core.Batch.{
  decode_and_validate, decode_and_validate_iff, dim_of, AreFinite, IsFit,
  max_plausible_sample_count,
}
use conflux_fl.Core.Extrema.{ascending, IsBest, least_position-IsBest}
use conflux_fl.Core.Robust.Filters.{
  bulyan, theta, select_rounds, best_remaining, krum_scores, neighbors, picked, in_order,
}
use conflux_fl.Core.Robust.Numbers.{Ieee, IsFit-length}
use conflux_fl.Core.Robust.Scores.{AreScores, krum_scores-AreScores}
use conflux_fl.Core.Robust.Selection.{IsSelection, in_order-IsSelection, part-All}

IsFit-at :
    (dim : ℕ) (us : List ClientDelta) (vs : List (List F32)) (i : ℕ) (u : ClientDelta)
    → IsFit dim us vs
    → get_elem? us i ≡ some u
    → (v : List F32) × (Codec.decode_weights u.weights ≡ ok v)
      × (length v ≡ dim)
      × AreFinite v
      × (u.num_samples ≤ max_plausible_sample_count)
IsFit-at dim [] vs i u f e = cc
IsFit-at dim (x ∷ us) [] i u f e = absurd f
IsFit-at dim (x ∷ us) (v ∷ vs) zero u (d, l, fin, s, _) e =
    let same : x ≡ u = cc in
    (
      v,
      subst (λ (y : ClientDelta). Codec.decode_weights y.weights ≡ ok v) same d,
      l,
      fin,
      subst (λ (y : ClientDelta). y.num_samples ≤ max_plausible_sample_count) same s,
    )
IsFit-at dim (x ∷ us) (v ∷ vs) (suc i) u (_, _, _, _, rest) e = IsFit-at dim us vs i u rest e

-- A part of a valid batch is valid.
picked-IsFit :
    (dim : ℕ) (us : List ClientDelta) (vs : List (List F32)) (l : List ℕ)
    → IsFit dim us vs
    → All (λ i. i < length us) l
    → (pool : List ClientDelta) × (ws : List (List F32)) × (picked us l ≡ ok pool)
      × (length pool ≡ length l)
      × IsFit dim pool ws
unfolding traverse
picked-IsFit dim us vs [] f inside = ([], [], refl, refl, tt)
picked-IsFit dim us vs (i ∷ l) f inside =
    let (u, e) = get_elem?-some us i inside.0 in
    let (v, d, size, fin, s) = IsFit-at dim us vs i u f e in
    let (pool, ws, rest, n, g) = picked-IsFit dim us vs l f inside.1 in
    (u ∷ pool, v ∷ ws, rw e (rw rest refl), ap suc n, (d, size, fin, s, g))

IsFit-valid :
    (dim : ℕ) (us : List ClientDelta) (vs : List (List F32))
    → 0 < length us
    → IsFit dim us vs
    → decode_and_validate us ≡ ok vs
IsFit-valid dim [] vs pos f = elim pos [ ]
IsFit-valid dim (u ∷ us) [] pos f = absurd f
IsFit-valid dim (u ∷ us) (v ∷ vs) pos f =
    (decode_and_validate_iff (u ∷ us) (v ∷ vs)).1
      (subst (λ d. IsFit d (u ∷ us) (v ∷ vs)) (sym f.1) f)

module _ (h : Arithmetic) (laws : Ieee h) (fraction : F32) where
  -- The index at a position has the lowest of Krum's scores, computed over what remains alone.
  abbrev pub IsCentral : List ClientDelta → List ℕ → ℕ → ℕ → Type 0
  IsCentral updates remaining position index =
      (pool : List ClientDelta) × (vs : List (List F32)) × (scores : List F32) × (picked updates
          remaining
        ≡ ok pool)
      × (decode_and_validate pool ≡ ok vs)
      × AreScores h laws (neighbors h fraction (length pool)) vs scores
      × IsBest ascending position scores
      × (get_elem? remaining position ≡ some index)

  -- Turn by turn the most central of what remains is selected, until the turns are over or a single
  -- one remains.
  abbrev pub Picks : List ClientDelta → ℕ → List ℕ → List ℕ → List ℕ → List ℕ → Type 0
  Picks updates zero selected remaining selected' remaining' =
      (selected ≡ selected') × (remaining ≡ remaining')
  Picks updates (suc turns) selected remaining selected' remaining' =
      ((length remaining ≤ 1) × (selected ≡ selected') × (remaining ≡ remaining'))
      ⊎ ((position : ℕ) × (index : ℕ) × IsCentral updates remaining position index
          × Picks updates turns (selected ++ index ∷ []) (remove_at position remaining) selected'
              remaining')

  module _ (dim : ℕ) (us : List ClientDelta) (vs : List (List F32)) (fit : IsFit dim us vs) where
    best_remaining-IsCentral :
        (remaining : List ℕ)
        → All (λ i. i < length us) remaining
        → 0 < length remaining
        → (position : ℕ) × (index : ℕ) × (best_remaining h fraction us remaining
            ≡ ok (position, index))
          × IsCentral us remaining position index
    unfolding best_remaining
    best_remaining-IsCentral remaining inside pos =
        let (pool, ws, e, size, fit') = picked-IsFit dim us vs remaining fit inside in
        let valid = IsFit-valid dim pool ws (omega (arith, size)) fit' in
        let (scores, scored, meaning) = krum_scores-AreScores h laws fraction pool ws valid in
        let same : length scores ≡ length remaining =
          meaning.0 ∙ IsFit-length dim pool ws fit' ∙ size in
        found pool ws scores e valid scored meaning same
      where
        found :
            (pool : List ClientDelta) (ws : List (List F32)) (scores : List F32)
            → picked us remaining ≡ ok pool
            → decode_and_validate pool ≡ ok ws
            → krum_scores h fraction pool ≡ ok scores
            → AreScores h laws (neighbors h fraction (length pool)) ws scores
            → length scores ≡ length remaining
            → (position : ℕ) × (index : ℕ) × (best_remaining h fraction us remaining
                ≡ ok (position, index))
              × IsCentral us remaining position index
        found pool ws [] e valid scored meaning size = absurd (omega arith)
        found pool ws (s ∷ scores) e valid scored meaning size =
            let (position, here, best) = least_position-IsBest s scores meaning.1 in
            let inside' = get_elem?-lt (s ∷ scores) position best.0 best.1 in
            let (index, there) = get_elem?-some remaining position (omega (arith, inside', size)) in
            (
              position,
              index,
              rw e (rw scored (rw here (rw there refl))),
              (pool, ws, s ∷ scores, e, valid, meaning, best, there),
            )

    turned :
        (n position index : ℕ) (selected remaining : List ℕ)
        → get_elem? remaining position ≡ some index
        → Perm (selected ++ remaining) (range_from 0 n)
        → Perm ((selected ++ index ∷ []) ++ remove_at position remaining) (range_from 0 n)
    turned n position index selected remaining there p =
        Perm.trans
          (subst (λ l. Perm l (selected ++ remaining))
            (sym (append_assoc selected (index ∷ []) (remove_at position remaining)))
            (Perm.append_left selected (remove_at-perm position index remaining there)))
          p

    select_rounds-Picks :
        (turns : ℕ) (selected remaining : List ℕ)
        → Perm (selected ++ remaining) (range_from 0 (length us))
        → (selected' : List ℕ) × (remaining' : List ℕ) × (select_rounds h fraction us turns selected
              remaining
            ≡ ok (selected', remaining'))
          × Picks us turns selected remaining selected' remaining'
          × Perm (selected' ++ remaining') (range_from 0 (length us))
          × (length selected' + length remaining' ≡ length selected + length remaining)
          × ((length selected' ≡ length selected + turns)
              ⊎ ((length remaining' ≤ 1) × (length selected' ≤ length selected + turns)))
    unfolding select_rounds
    select_rounds-Picks zero selected remaining p =
        (selected, remaining, refl, (refl, refl), p, refl, inl (omega arith))
    select_rounds-Picks (suc turns) selected remaining p =
        elim (Bool-cases (leb (length remaining) 1)) [
          | inl few ↦ (
            selected,
            remaining,
            rw few refl,
            inl (leb→le (length remaining) 1 few, refl, refl),
            p,
            refl,
            inr (leb→le (length remaining) 1 few, omega arith),
          )
          | inr many ↦
              let more : 1 < length remaining = leb_false→lt (length remaining) 1 many in
              let inside =
                part-All (length us) remaining selected
                  (Perm.trans (perm_append_comm remaining selected) p) in
              let (position, index, step, central) =
                best_remaining-IsCentral remaining inside (omega arith) in
              let there = central.7 in
              let (selected', remaining', rest, picks, q, count, ends) =
                select_rounds-Picks turns (selected ++ index ∷ []) (remove_at position remaining)
                  (turned (length us) position index selected remaining there p) in
              let size =
                length-remove_at position remaining (get_elem?-lt remaining position index there) in
              let grown = length-append selected (index ∷ []) in
              (
                selected',
                remaining',
                rw many (rw step rest),
                inr (position, index, central, picks),
                q,
                omega (arith, count, size, grown),
                omega (arith, ends, grown),
              )
        ]

  theta-le : (n : ℕ) → 0 < n → (theta h fraction n ≤ n) × (0 < theta h fraction n)
  unfolding theta
  theta-le n pos = omega arith

  -- What stands after the loop: the selection, filled up where the loop ended early.
  abbrev pub completed : ℕ → List ℕ → List ℕ → List ℕ
  completed goal selected remaining =
      if ltb (length selected) goal then selected ++ remaining else selected

  -- Bulyan does not panic on a valid batch. It selects turn by turn the update with the lowest of
  -- Krum's scores, computed anew over what remains, and keeps of `n` updates exactly `n - 2f`, at least
  -- one, where `f` are assumed to be Byzantine.
  pub bulyan-Picks :
      (u : ClientDelta) (us : List ClientDelta) (vs : List (List F32))
      → decode_and_validate (u ∷ us) ≡ ok vs
      → (selected : List ℕ) × (remaining : List ℕ) × (kept : List ℕ) × (others : List ℕ) × (bulyan h
            fraction
            (u ∷ us)
          ≡ ok kept)
        × Picks
            (u ∷ us)
            (theta h fraction (length (u ∷ us)))
            []
            (range_from 0 (length (u ∷ us)))
            selected
            remaining
        × (kept ≡ in_order (completed (theta h fraction (length (u ∷ us))) selected remaining))
        × IsSelection (length (u ∷ us)) kept others
        × (length kept ≡ theta h fraction (length (u ∷ us)))
  unfolding bulyan
  bulyan-Picks u us vs valid =
      let n = length (u ∷ us) in
      let goal = theta h fraction n in
      let fit = (decode_and_validate_iff (u ∷ us) vs).0 valid in
      let bounds = theta-le n (omega arith) in
      let (selected, remaining, e, picks, p, count, ends) =
        select_rounds-Picks (dim_of vs) (u ∷ us) vs fit goal [] (range_from 0 n) (Perm.refl _) in
      let total : length selected + length remaining ≡ n =
        omega (arith, count, length-range_from 0 n) in
      elim (Bool-cases (ltb (length selected) goal)) [
        | inl short ↦
            let less = ltb→lt (length selected) goal short in
            (
              selected,
              remaining,
              in_order (selected ++ remaining),
              [],
              rw e (rw short refl),
              picks,
              rw short refl,
              in_order-IsSelection n (selected ++ remaining) [] (
                  subst (λ l. Perm l (range_from 0 n)) (sym (append-nil (selected ++ remaining)))
                    p),
              omega (
                arith,
                length-sort_by leb (selected ++ remaining),
                length-append selected remaining,
                total,
                ends,
                less,
                bounds,
              ),
            )
        | inr full ↦
            let enough : goal ≤ length selected = ground arith in
            (
              selected,
              remaining,
              in_order selected,
              remaining,
              rw e (rw full refl),
              picks,
              rw full refl,
              in_order-IsSelection n selected remaining p,
              omega (arith, length-sort_by leb selected, ends, enough, bounds),
            )
      ]
