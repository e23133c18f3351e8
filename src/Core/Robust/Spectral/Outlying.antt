-- ===== src/Core/Robust/Spectral/Outlying.antt =====
-- crates/conflux-core/src/robust.rs: which updates `DivideAndConquerFilter` leaves out.
use conflux_fl.Base.{
  ℕ, ◌<◌, ◌≡◌, ◌⊎◌, inl, inr, refl, sym, ap, subst, ◌∙◌, true, false, not, List, [], ◌∷◌, ◌++◌, map,
  arith, length, all?, All, Any, Perm, ◌==◌, ==_iff, ok, err, Bool-cases, Result,
}
use mathlib.Core.List.{perm_append_comm}
use mathlib.Core.List.Perm
use conflux_fl.Base.Positions.{range_from, enumerate, map-enumerate_values}
use conflux_fl.Config.Preconditions.{byzantine_count}
use conflux_fl.Float.{F32, Arithmetic, is_nan}
use conflux_fl.Proto.{ClientDelta}
use conflux_fl.Core.{panics, Fault}
use conflux_fl.Core.Batch.{decode_and_validate}
use conflux_fl.Core.Extrema.{IsNumber, comparable, descending, sort_checked, sort_checked_numbers}
use conflux_fl.Core.Robust.Filters.{in_order}
use conflux_fl.Core.Robust.Selection.{IsSelection, in_order-IsSelection}
use conflux_fl.Core.Robust.Spectral.{divide_and_conquer, spectral_scores}
use conflux_fl.Core.Robust.Spectral.Complement.{keep_if-in_order}
use conflux_fl.Core.Robust.Spectral.Direction.{
  AreSpectral, spectral_scores-AreSpectral, length-spectral_scores,
}
use conflux_fl.Core.Robust.Spectral.Ranked.{
  Outlying, ranking, excluded, others, excluded-perm, excluded-Outlying, length-excluded,
}

numbers_or_NaN : (l : List F32) → All IsNumber l ⊎ Any (λ x. is_nan x ≡ true) l
numbers_or_NaN [] = inl tt
numbers_or_NaN (x ∷ l) = elim (Bool-cases (is_nan x)) [
  | inl e ↦ inr (inl e)
  | inr e ↦ elim (numbers_or_NaN l) [ inl rest ↦ inl (e, rest) | inr found ↦ inr (inr found) ]
]

Any-all? : (l : List F32) → Any (λ x. is_nan x ≡ true) l → all? (λ x. not (is_nan x)) l ≡ false
unfolding all?
Any-all? [] a = absurd a
Any-all? (x ∷ l) (inl e) = ground arith
Any-all? (x ∷ l) (inr a) = ground (arith, Any-all? l a)

incomparable : (l : List F32) → 1 < length l → Any (λ x. is_nan x ≡ true) l → comparable l ≡ false
unfolding comparable
incomparable [] m a = absurd (omega (arith, m))
incomparable (x ∷ []) m a = absurd (omega (arith, m))
incomparable (x ∷ y ∷ l) m a = Any-all? (x ∷ y ∷ l) a

module _ (h : Arithmetic) where
  -- What the filter answers where it leaves `f` of `n` updates out: it panics if a score is NaN, and
  -- otherwise keeps all but those that score highest.
  abbrev pub LeavesOut : ℕ → ℕ → List F32 → Result Fault (List ℕ) → Type 0
  LeavesOut f n scores answer =
      (Any (λ x. is_nan x ≡ true) scores × (answer ≡ err panics))
      ⊎ (All IsNumber scores
          × (kept : List ℕ) × (out : List ℕ) × (answer ≡ ok kept)
          × IsSelection n kept out
          × (length out ≡ f)
          × Outlying scores out kept)

  module _ (fraction : F32) (iterations : ℕ) (us : List ClientDelta) (vs : List (List F32)) where
    none_out :
        decode_and_validate us ≡ ok vs
        → (byzantine_count h fraction (length vs) == 0) ≡ true
        → divide_and_conquer h fraction iterations us ≡ ok (range_from 0 (length vs))
    unfolding divide_and_conquer
    none_out valid empty = rw (valid, divide_and_conquer, empty) refl

    -- A number of updates to leave out is less than that of the batch's.
    less :
        (byzantine_count h fraction (length vs) == 0) ≡ false
        → (0 < byzantine_count h fraction (length vs))
          × (byzantine_count h fraction (length vs) < length vs)
    unfolding byzantine_count
    less nonzero = ground arith

    panicked :
        decode_and_validate us ≡ ok vs
        → (byzantine_count h fraction (length vs) == 0) ≡ false
        → Any (λ x. is_nan x ≡ true) (spectral_scores h iterations vs)
        → divide_and_conquer h fraction iterations us ≡ err panics
    unfolding divide_and_conquer sort_checked
    panicked valid nonzero nan =
        let scores = spectral_scores h iterations vs in
        let e : comparable (map (λ p. p.1) (enumerate 0 scores)) ≡ false =
          ap comparable (map-enumerate_values 0 scores)
          ∙ incomparable scores
              (omega (arith, less nonzero, length-spectral_scores h iterations vs)) nan in
        rw (valid, divide_and_conquer, nonzero, sort_checked, e) refl

    answered :
        decode_and_validate us ≡ ok vs
        → (byzantine_count h fraction (length vs) == 0) ≡ false
        → All IsNumber (spectral_scores h iterations vs)
        → divide_and_conquer h fraction iterations us
          ≡ ok (
              in_order
                (others (spectral_scores h iterations vs) (byzantine_count h fraction (length vs))))
    unfolding divide_and_conquer others excluded ranking
    answered valid nonzero numbers =
        let scores = spectral_scores h iterations vs in
        let f = byzantine_count h fraction (length vs) in
        let numbers' = subst (All IsNumber) (sym (map-enumerate_values 0 scores)) numbers in
        let rest = keep_if-in_order (length vs) (excluded scores f) (others scores f) (
          subst (λ k. Perm (excluded scores f ++ others scores f) (range_from 0 k))
            (length-spectral_scores h iterations vs) (excluded-perm scores f)) in
        rw (valid, divide_and_conquer, nonzero)
          (rw (sort_checked_numbers (λ (p : ℕ × F32). p.1) descending (enumerate 0 scores) numbers')
            (ap ok rest))

    some_out :
        decode_and_validate us ≡ ok vs
        → (byzantine_count h fraction (length vs) == 0) ≡ false
        → LeavesOut
            (byzantine_count h fraction (length vs))
            (length vs)
            (spectral_scores h iterations vs)
            (divide_and_conquer h fraction iterations us)
    some_out valid nonzero =
        let scores = spectral_scores h iterations vs in
        let f = byzantine_count h fraction (length vs) in
        let size = length-spectral_scores h iterations vs in
        elim (numbers_or_NaN scores) [
          | inr nan ↦ inl (nan, panicked valid nonzero nan)
          | inl numbers ↦ inr (
            numbers,
            in_order (others scores f),
            excluded scores f,
            answered valid nonzero numbers,
            in_order-IsSelection (length vs) (others scores f) (excluded scores f) (
                subst (λ k. Perm (others scores f ++ excluded scores f) (range_from 0 k)) size
                  (Perm.trans (perm_append_comm (others scores f) (excluded scores f))
                    (excluded-perm scores f))),
            length-excluded scores f (omega (arith, less nonzero, size)),
            excluded-Outlying scores f,
          )
        ]

    -- Which updates of a valid batch the filter leaves out, where the score of an update is its squared
    -- projection, less the mean, on the direction that the power iteration ends with. If the assumed
    -- number of Byzantine updates is zero, it keeps all. If it is not, it panics exactly if a score is NaN,
    -- and otherwise leaves out exactly that number, each of which scores at least as high as each that
    -- it keeps, and answers with the kept indices in order.
    pub divide_and_conquer-Outlying :
        decode_and_validate us ≡ ok vs
        → (scores : List F32) × AreSpectral h iterations vs scores
          × (((byzantine_count h fraction (length vs) ≡ 0)
                × (divide_and_conquer h fraction iterations us ≡ ok (range_from 0 (length vs))))
              ⊎ ((0 < byzantine_count h fraction (length vs))
                  × LeavesOut
                      (byzantine_count h fraction (length vs))
                      (length vs)
                      scores
                      (divide_and_conquer h fraction iterations us)))
    divide_and_conquer-Outlying valid = (
      spectral_scores h iterations vs,
      spectral_scores-AreSpectral h iterations vs,
      elim (Bool-cases (byzantine_count h fraction (length vs) == 0)) [
        | inl e ↦ inl ((==_iff _ 0).0 e, none_out valid e)
        | inr e ↦ inr (ground arith, some_out valid e)
      ],
    )
