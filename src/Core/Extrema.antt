-- ===== src/Core/Extrema.antt =====
-- crates/conflux-core/src/robust.rs: how the robust methods compare `f32` values. Each comparison is
-- `partial_cmp(..).expect(..)`, which panics on a NaN.
use conflux_fl.Base.{
  ℕ, suc, ◌≡◌, refl, subst, ◌⊎◌, inl, inr, Bool, true, false, not, List, [], ◌∷◌, map, arith,
  if◌then◌else◌, all?, All, Any, Result, ok, err, some, get_elem?, Bool-cases,
}
use native.Mathlib.Nat.{zero-add}
use conflux_fl.Base.Positions.{enumerate, Any-enumerate}
use conflux_fl.Base.Sort.{sort_by}
use conflux_fl.Float.{F32, is_nan, ordered_le}
use conflux_fl.Core.{Fault, panics}

abbrev pub IsNumber : F32 → Type 0
IsNumber x = is_nan x ≡ false

-- Whether a slice can be compared without a panic: where there are two elements or more, each takes
-- part in a comparison.
unfoldable pub comparable : List F32 → Bool
unfolding all?
comparable [] = true
comparable (x ∷ []) = true
comparable (x ∷ y ∷ l) = all? (λ z. not (is_nan z)) (x ∷ y ∷ l)

pub comparable_lem : (l : List F32) → All IsNumber l → comparable l ≡ true
unfolding comparable all?
comparable_lem [] h = refl
comparable_lem (x ∷ []) h = refl
comparable_lem (x ∷ y ∷ l) h = ground (arith, numbers (x ∷ y ∷ l))
  where
    numbers : (l : List F32) → All IsNumber l → all? (λ z. not (is_nan z)) l ≡ true
    numbers [] h = refl
    numbers (x ∷ l) h = ground (arith, numbers l)

pub ordered_le_total : (a b : F32) → (ordered_le a b ≡ true) ⊎ (ordered_le b a ≡ true)
unfolding ordered_le
ordered_le_total a b = ground arith

pub ordered_le_refl : (a : F32) → ordered_le a a ≡ true
unfolding ordered_le
ordered_le_refl a = ground arith

pub ordered_le_trans :
    (a b c : F32) → ordered_le a b ≡ true → ordered_le b c ≡ true → ordered_le a c ≡ true
unfolding ordered_le
ordered_le_trans a b c h k = ground arith

-- The two ways in which the comparison is written: `a.partial_cmp(b)` and `b.partial_cmp(a)`.
abbrev pub ascending : F32 → F32 → Bool
ascending a b = ordered_le a b

abbrev pub descending : F32 → F32 → Bool
descending a b = ordered_le b a

module _ {A : Type 0} (key : A → F32) where
  -- `sort_by(|a, b| ...)`
  unfoldable pub sort_checked : (F32 → F32 → Bool) → List A → Result Fault (List A)
  unfolding comparable sort_by is_nan ordered_le
  sort_checked le l =
      if comparable (map key l) then ok (sort_by (λ a b. le (key a) (key b)) l) else err panics

  pub sort_checked_numbers :
      (le : F32 → F32 → Bool) (l : List A)
      → All IsNumber (map key l)
      → sort_checked le l ≡ ok (sort_by (λ a b. le (key a) (key b)) l)
  unfolding sort_checked
  sort_checked_numbers le l p = rw (comparable_lem (map key l) p) refl

  -- `min_by`: of equal elements the first.
  unfoldable pub least : A → List A → A
  least best [] = best
  least best (x ∷ l) = least (if ordered_le (key best) (key x) then best else x) l

  -- `max_by`: of equal elements the last.
  unfoldable pub greatest : A → List A → A
  greatest best [] = best
  greatest best (x ∷ l) = greatest (if ordered_le (key best) (key x) then x else best) l

  -- What both find: an element that is in order with every other.
  abbrev pub IsExtreme : (F32 → F32 → Bool) → A → List A → Type 0
  IsExtreme le m l = Any (λ x. x ≡ m) l × All (λ x. le (key m) (key x) ≡ true) l

  module _ (le : F32 → F32 → Bool)
      (trans : (a b c : F32) → le a b ≡ true → le b c ≡ true → le a c ≡ true) where
    -- An element that the best one so far is in order with changes nothing; one that is in order with
    -- the best so far takes its place.
    IsExtreme-keep :
        (m best x : A) (l : List A)
        → le (key best) (key x) ≡ true
        → IsExtreme le m (best ∷ l)
        → IsExtreme le m (best ∷ x ∷ l)
    IsExtreme-keep m best x l e (inl here, (first, rest)) =
        (inl here, (first, (trans (key m) (key best) (key x) first e, rest)))
    IsExtreme-keep m best x l e (inr found, (first, rest)) =
        (inr (inr found), (first, (trans (key m) (key best) (key x) first e, rest)))

    IsExtreme-replace :
        (m best x : A) (l : List A)
        → le (key x) (key best) ≡ true
        → IsExtreme le m (x ∷ l)
        → IsExtreme le m (best ∷ x ∷ l)
    IsExtreme-replace m best x l e (found, (first, rest)) =
        (inr found, (trans (key m) (key x) (key best) first e, (first, rest)))

  turned : (a b : F32) → ordered_le a b ≡ false → ordered_le b a ≡ true
  turned a b e = ground (arith, ordered_le_total a b)

  descending_trans :
      (a b c : F32) → descending a b ≡ true → descending b c ≡ true → descending a c ≡ true
  descending_trans a b c h k = ordered_le_trans c b a k h

  least-IsExtreme : (best : A) (l : List A) → IsExtreme ascending (least best l) (best ∷ l)
  unfolding least
  least-IsExtreme best [] = (inl refl, (ordered_le_refl (key best), tt))
  least-IsExtreme best (x ∷ l) = elim (Bool-cases (ordered_le (key best) (key x))) [
    | inl e ↦
        subst (λ b. IsExtreme ascending (least b l) (best ∷ x ∷ l)) (rw e refl)
          (IsExtreme-keep ascending ordered_le_trans _ best x l e (least-IsExtreme best l))
    | inr e ↦
        subst (λ b. IsExtreme ascending (least b l) (best ∷ x ∷ l)) (rw e refl)
          (IsExtreme-replace ascending ordered_le_trans _ best x l (turned (key best) (key x) e)
            (least-IsExtreme x l))
  ]

  greatest-IsExtreme : (best : A) (l : List A) → IsExtreme descending (greatest best l) (best ∷ l)
  unfolding greatest
  greatest-IsExtreme best [] = (inl refl, (ordered_le_refl (key best), tt))
  greatest-IsExtreme best (x ∷ l) = elim (Bool-cases (ordered_le (key best) (key x))) [
    | inl e ↦
        subst (λ b. IsExtreme descending (greatest b l) (best ∷ x ∷ l)) (rw e refl)
          (IsExtreme-replace descending descending_trans _ best x l e (greatest-IsExtreme x l))
    | inr e ↦
        subst (λ b. IsExtreme descending (greatest b l) (best ∷ x ∷ l)) (rw e refl)
          (IsExtreme-keep descending descending_trans _ best x l (turned (key best) (key x) e)
            (greatest-IsExtreme best l))
  ]

-- `iter().enumerate().min_by(..).map(|(i, _)| i).expect(..)`, and the same with `max_by`.
abbrev pub value_at : ℕ × F32 → F32
value_at p = p.1

unfoldable pub least_position : List F32 → Result Fault ℕ
unfolding least comparable enumerate is_nan ordered_le
least_position [] = err panics
least_position (x ∷ l) =
    if comparable (x ∷ l) then ok (least value_at (0, x) (enumerate 1 l)).0 else err panics

unfoldable pub greatest_position : List F32 → Result Fault ℕ
unfolding greatest comparable enumerate is_nan ordered_le
greatest_position [] = err panics
greatest_position (x ∷ l) =
    if comparable (x ∷ l) then ok (greatest value_at (0, x) (enumerate 1 l)).0 else err panics

-- The position of an element that is in order with every other.
abbrev pub IsBest : (F32 → F32 → Bool) → ℕ → List F32 → Type 0
IsBest le i l = (v : F32) × (get_elem? l i ≡ some v) × All (λ x. le v x ≡ true) l

All-values :
    (P : F32 → Type 0) (start : ℕ) (l : List F32)
    → All {A = ℕ × F32} (λ p. P p.1) (enumerate start l)
    → All P l
unfolding enumerate
All-values P start [] h = tt
All-values P start (x ∷ l) h = (h.0, All-values P (suc start) l h.1)

IsExtreme-IsBest :
    (le : F32 → F32 → Bool) (x : F32) (l : List F32) (m : ℕ × F32)
    → IsExtreme value_at le m ((0, x) ∷ enumerate 1 l)
    → IsBest le m.0 (x ∷ l)
unfolding enumerate
IsExtreme-IsBest le x l (i, v) (found, (first, rest)) =
    let (k, at, here) = Any-enumerate 0 i v (x ∷ l) found in
    (v, rw (at, zero-add) here, (first, All-values (λ z. le v z ≡ true) 1 l rest))

pub least_position-IsBest :
    (x : F32) (l : List F32)
    → All IsNumber (x ∷ l)
    → (i : ℕ) × (least_position (x ∷ l) ≡ ok i) × IsBest ascending i (x ∷ l)
unfolding least_position
least_position-IsBest x l h = (
  (least value_at (0, x) (enumerate 1 l)).0,
  rw (comparable_lem (x ∷ l) h),
  IsExtreme-IsBest ascending x l _ (least-IsExtreme value_at (0, x) (enumerate 1 l)),
)

pub greatest_position-IsBest :
    (x : F32) (l : List F32)
    → All IsNumber (x ∷ l)
    → (i : ℕ) × (greatest_position (x ∷ l) ≡ ok i) × IsBest descending i (x ∷ l)
unfolding greatest_position
greatest_position-IsBest x l h = (
  (greatest value_at (0, x) (enumerate 1 l)).0,
  rw (comparable_lem (x ∷ l) h),
  IsExtreme-IsBest descending x l _ (greatest-IsExtreme value_at (0, x) (enumerate 1 l)),
)
