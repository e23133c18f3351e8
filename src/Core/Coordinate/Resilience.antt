-- ===== src/Core/Coordinate/Resilience.antt =====
-- crates/conflux-core/src/robust.rs: what a few wild values at one coordinate cannot do to the trimmed
-- mean and to the median.
use conflux_fl.Base.{
  ℕ, zero, suc, ◌+◌, ◌-◌, ◌*◌, ◌/◌, ◌%◌, ◌≤◌, ◌<◌, ◌≡◌, refl, sym, ap, subst, ◌∙◌, Bool, true,
  false, not, List, [], ◌∷◌, ◌++◌, map, arith, length, length-take, length-drop, take, drop,
  take-append-drop, get_elem?, some, All, All-map, All-take, All-drop, All-both, keep_if,
  Bool-cases, ◌⊎◌, inl, inr, Perm, ok, ◌==◌, ==_iff, dec_le,
}
use mathlib.Core.List.Perm
use mathlib.Core.List.{append_assoc, perm_append_comm}
use conflux_fl.Base.Positions.{All-get_elem?, get_elem?-some, get_elem?-drop, get_elem?-take}
use conflux_fl.Base.Sort.{
  insert_sorted, sort_by, sort_by-perm, sort_by-IsSorted, IsSorted, IsSorted-first, IsSorted-tail,
  length-sort_by,
}
use conflux_fl.Float.{F32, Arithmetic, ordered_le}
use conflux_fl.Core.Extrema.{
  IsNumber, ascending, sort_checked_numbers, ordered_le_total, ordered_le_trans,
}
use conflux_fl.Core.Coordinate.{trimmed_mean, trim_count, mean, inner, median, middle, two_f32}

-- How many values are below, or above, a bound.
abbrev pub below : F32 → List F32 → ℕ
below lo values = length (keep_if (λ v. not (ordered_le lo v)) values)

abbrev pub above : F32 → List F32 → ℕ
above hi values = length (keep_if (λ v. not (ordered_le v hi)) values)

abbrev pub IsWithin : F32 → F32 → F32 → Type 0
IsWithin lo hi v = (ordered_le lo v ≡ true) × (ordered_le v hi ≡ true)

count-insert_sorted :
    (p : F32 → Bool) (x : F32) (l : List F32)
    → length (keep_if p (insert_sorted ascending x l)) ≡ length (keep_if p (x ∷ l))
unfolding insert_sorted keep_if
count-insert_sorted p x [] = refl
count-insert_sorted p x (y ∷ l) = ground (arith, count-insert_sorted p x l)

count-sort_by :
    (p : F32 → Bool) (l : List F32)
    → length (keep_if p (sort_by ascending l)) ≡ length (keep_if p l)
unfolding sort_by keep_if
count-sort_by p [] = refl
count-sort_by p (x ∷ l) =
    count-insert_sorted p x (sort_by ascending l) ∙ ground (arith, count-sort_by p l)

ordered : (l : List F32) → IsSorted ascending (sort_by ascending l)
ordered = sort_by-IsSorted ascending ordered_le_total ordered_le_trans

-- The first of a sorted list is at most any other.
first-All :
    (x : F32) (l : List F32) → IsSorted ascending (x ∷ l) → All (λ y. ordered_le x y ≡ true) l
first-All = IsSorted-first ascending ordered_le_total ordered_le_trans

-- In a sorted list what is below a bound stands in front.
drop-All :
    (lo : F32) (t : ℕ) (l : List F32)
    → IsSorted ascending l
    → below lo l ≤ t
    → All (λ v. ordered_le lo v ≡ true) (drop t l)
unfolding keep_if
drop-All lo t [] s c = All-drop _ t [] tt
drop-All lo t (x ∷ l) s c = elim (Bool-cases (ordered_le lo x)) [
  | inl e ↦
      All-drop _ t (x ∷ l) (e, All-map _ _ l (λ v q. ordered_le_trans lo x v e q) (first-All x l s))
  | inr e ↦
      rest t (drop-All lo (t - 1) l (IsSorted-tail ascending x l s) (ground arith)) (ground arith)
]
  where
    rest :
        (t : ℕ)
        → All (λ v. ordered_le lo v ≡ true) (drop (t - 1) l)
        → 0 < t
        → All (λ v. ordered_le lo v ≡ true) (drop t (x ∷ l))
    rest zero h pos = elim pos [ ]
    rest (suc t) h pos =
        let same : suc t - 1 ≡ t = omega arith in
        subst (λ k. All (λ v. ordered_le lo v ≡ true) (drop k l)) same h

above-length :
    (hi x : F32) (l : List F32)
    → ordered_le x hi ≡ false
    → All (λ y. ordered_le x y ≡ true) l
    → above hi l ≡ length l
unfolding keep_if
above-length hi x [] e h = refl
above-length hi x (y ∷ l) e h =
    ground (arith, ordered_le_trans x y hi h.0, above-length hi x l e h.1)

-- And what is above one stands at the end.
take-All :
    (hi : F32) (t : ℕ) (l : List F32)
    → IsSorted ascending l
    → above hi l ≤ t
    → All (λ v. ordered_le v hi ≡ true) (take (length l - t) l)
unfolding keep_if
take-All hi t [] s c = All-take _ (0 - t) [] tt
take-All hi t (x ∷ l) s c = elim (Bool-cases (ordered_le x hi)) [
  | inl e ↦
      kept e (take-All hi t l (IsSorted-tail ascending x l s) (ground arith)) (dec_le t (length l))
  | inr e ↦
      let few : suc (length l) ≤ t = ground (arith, above-length hi x l e (first-All x l s)) in
      none_left (omega arith)
]
  where
    none_left :
        suc (length l) - t ≡ 0
        → All (λ v. ordered_le v hi ≡ true) (take (suc (length l) - t) (x ∷ l))
    none_left e = rw e tt

    kept :
        ordered_le x hi ≡ true
        → All (λ v. ordered_le v hi ≡ true) (take (length l - t) l)
        → Dec (t ≤ length l)
        → All (λ v. ordered_le v hi ≡ true) (take (suc (length l) - t) (x ∷ l))
    kept e h (yes p) =
        let more : suc (length l) - t ≡ suc (length l - t) = omega arith in rw more (e, h)
    kept e h (no p) = none_left (omega arith)

drop-take : (a b : ℕ) (l : List F32) → drop a (take b l) ≡ take (b - a) (drop a l)
drop-take zero b l = ap (λ k. take k l) (omega arith)
drop-take (suc a) zero l = ap (λ k. take k (drop (suc a) l)) {x = 0} {y = 0 - suc a} (omega arith)
drop-take (suc a) (suc b) [] = take-nil (suc b - suc a)
  where
    take-nil : (k : ℕ) → ◌≡◌ {A = List F32} [] (take k [])
    take-nil zero = refl
    take-nil (suc k) = refl
drop-take (suc a) (suc b) (x ∷ l) = drop-take a b l ∙ ap (λ k. take k (drop a l)) (omega arith)

-- Where at most `t` values lie below a bound and at most `t` above another, what is left of the sorted
-- values without `t` at each end lies between the two.
inner-IsWithin :
    (lo hi : F32) (t : ℕ) (values : List F32)
    → below lo values ≤ t
    → above hi values ≤ t
    → All (IsWithin lo hi) (inner t (sort_by ascending values))
inner-IsWithin lo hi t values few many =
    let l = sort_by ascending values in
    All-both _ _ (inner t l)
      (subst (All (λ v. ordered_le lo v ≡ true)) (sym (drop-take t (length l - t) l)) (
        All-take _ (length l - t - t) (drop t l) (
          drop-All lo t l (ordered values)
            (omega (arith, count-sort_by (λ v. not (ordered_le lo v)) values)))))
      (All-drop _ t (take (length l - t) l) (
        take-All hi t l (ordered values)
          (omega (arith, count-sort_by (λ v. not (ordered_le v hi)) values))))

length-inner :
    (t : ℕ) (values : List F32)
    → t + t ≤ length values
    → length (inner t (sort_by ascending values)) + 2 * t ≡ length values
length-inner t values few =
    let l = sort_by ascending values in
    omega (
      arith,
      length-drop t (take (length l - t) l),
      length-take (length l - t) l,
      length-sort_by ascending values,
    )

-- What is cut off at either end belongs to the rest of the values.
inner-perm :
    (t : ℕ) (values : List F32)
    → (rest : List F32) × Perm (inner t (sort_by ascending values) ++ rest) values
inner-perm t values =
    let l = sort_by ascending values in
    let front = take (length l - t) l in
    let back = drop (length l - t) l in
    (
      take t front ++ back,
      Perm.trans (rotated (inner t l) (take t front) back) (
          Perm.trans
            (subst (λ k. Perm (k ++ back) l) (sym (take-append-drop t front))
              (subst (λ k. Perm k l) (sym (take-append-drop (length l - t) l)) (Perm.refl l)))
            (sort_by-perm ascending values)),
    )
  where
    rotated : (a b c : List F32) → Perm (a ++ (b ++ c)) ((b ++ a) ++ c)
    rotated a b c =
        subst (λ k. Perm k ((b ++ a) ++ c)) (append_assoc a b c)
          (Perm.append_right c (perm_append_comm a b))

-- An element of the sorted values that is not among the `t` at either end.
place-IsWithin :
    (lo hi : F32) (t : ℕ) (values : List F32) (i : ℕ)
    → below lo values ≤ t
    → above hi values ≤ t
    → t ≤ i
    → i + t < length values
    → (v : F32) × (get_elem? (sort_by ascending values) i ≡ some v) × IsWithin lo hi v
place-IsWithin lo hi t values i few many from to =
    let l = sort_by ascending values in
    let size = length-sort_by ascending values in
    let (v, e) = get_elem?-some l i (omega (arith, size)) in
    let same : t + (i - t) ≡ i = omega arith in
    let place : get_elem? (inner t l) (i - t) ≡ some v =
      get_elem?-drop t (take (length l - t) l) (i - t)
      ∙ ap (get_elem? (take (length l - t) l)) same
      ∙ get_elem?-take (length l - t) l i (omega (arith, size))
      ∙ e in
    (
      v,
      e,
      All-get_elem? (IsWithin lo hi) (inner t l) (i - t) v (inner-IsWithin lo hi t values few many)
          place,
    )

identity : (l : List F32) → All IsNumber l → All IsNumber (map (λ v. v) l)
identity [] p = tt
identity (x ∷ l) p = (p.0, identity l p.1)

module _ (h : Arithmetic) where
  -- The trimmed mean of a column of numbers is the hardware's mean of values of the column: of all but
  -- as many at each end as are trimmed, at least one. If no more than that many lie below `lo`, and no
  -- more above `hi`, then whatever those are, all the values averaged lie between `lo` and `hi`.
  pub trimmed_mean-IsWithin :
      (fraction lo hi : F32) (values : List F32)
      → All IsNumber values
      → 0 < length values
      → below lo values ≤ trim_count h fraction (length values)
      → above hi values ≤ trim_count h fraction (length values)
      → (kept : List F32) × (rest : List F32) × (trimmed_mean h fraction values ≡ ok (mean h kept))
        × Perm (kept ++ rest) values
        × (length kept + 2 * trim_count h fraction (length values) ≡ length values)
        × (0 < length kept)
        × All (IsWithin lo hi) kept
  unfolding trimmed_mean trim_count
  trimmed_mean-IsWithin fraction lo hi values numbers pos few many =
      let t = trim_count h fraction (length values) in
      let (rest, p) = inner-perm t values in
      let size = length-inner t values (omega arith) in
      (
        inner t (sort_by ascending values),
        rest,
        rw (sort_checked_numbers (λ v. v) ascending values (identity values numbers)) refl,
        p,
        size,
        omega (arith, size),
        inner-IsWithin lo hi t values few many,
      )

  middle_odd :
      (l : List F32) (n : ℕ) (m : F32)
      → length l ≡ n
      → (n % 2 == 1) ≡ true
      → get_elem? l (n / 2) ≡ some m
      → middle h l ≡ ok m
  unfolding middle
  middle_odd l n m size odd e = rw (size, odd, e) refl

  middle_even :
      (l : List F32) (n : ℕ) (a b : F32)
      → length l ≡ n
      → (n % 2 == 1) ≡ false
      → get_elem? l (n / 2 - 1) ≡ some a
      → get_elem? l (n / 2) ≡ some b
      → middle h l ≡ ok (h.div (h.add a b) two_f32)
  unfolding middle
  middle_even l n a b size even e e' = rw (size, even, e, e') refl

  median-middle :
      (values : List F32)
      → All IsNumber values
      → median h values ≡ middle h (sort_by ascending values)
  unfolding median
  median-middle values numbers =
      rw (sort_checked_numbers (λ v. v) ascending values (identity values numbers)) refl

  -- The median of a column of numbers is its middle value, or the hardware's mean of its two middle
  -- ones. If fewer than half of the values lie below `lo`, and fewer than half above `hi`, then
  -- whatever those are, the middle ones lie between `lo` and `hi`.
  pub median-IsWithin :
      (lo hi : F32) (values : List F32)
      → All IsNumber values
      → 2 * below lo values < length values
      → 2 * above hi values < length values
      → ((m : F32) × (median h values ≡ ok m) × IsWithin lo hi m)
        ⊎ ((a : F32) × (b : F32) × (median h values ≡ ok (h.div (h.add a b) two_f32))
            × IsWithin lo hi a
            × IsWithin lo hi b)
  median-IsWithin lo hi values numbers few many =
      let l = sort_by ascending values in
      let n = length values in
      let t = (n - 1) / 2 in
      let size = length-sort_by ascending values in
      let sorts = median-middle values numbers in
      elim (Bool-cases (n % 2 == 1)) [
        | inl odd ↦
            let parity : n % 2 ≡ 1 = (==_iff (n % 2) 1).0 odd in
            let (m, e, w) =
              place-IsWithin lo hi t values (n / 2) (omega arith) (omega arith) (omega arith)
                (omega arith) in
            inl (m, sorts ∙ middle_odd l n m size odd e, w)
        | inr even ↦
            let parity : n % 2 ≡ 0 = ground arith in
            let (a, e, w) =
              place-IsWithin lo hi t values (n / 2 - 1) (omega arith) (omega arith) (omega arith)
                (omega arith) in
            let (b, e', w') =
              place-IsWithin lo hi t values (n / 2) (omega arith) (omega arith) (omega arith)
                (omega arith) in
            inr (a, b, sorts ∙ middle_even l n a b size even e e', w, w')
      ]
