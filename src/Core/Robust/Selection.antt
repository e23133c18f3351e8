-- ===== src/Core/Robust/Selection.antt =====
-- crates/conflux-core/src/robust.rs: a filter splits the batch into what it keeps and what it leaves
-- out, and `FilteredAggregator` combines what is kept.
use conflux_fl.Base.{
  ℕ, zero, suc, ◌<◌, ◌≡◌, refl, sym, ap, subst, ◌∙◌, List, [], ◌∷◌, ◌++◌, map, arith, length,
  length-map, get_elem?, All, All-map, ok, some, none, traverse, traverse-All, Perm, Mem, leb,
}
use mathlib.Core.List.{
  mem-cons, mem-cons_self, not-mem-nil, mem-append_left, mem-cons_of_mem, map-append, perm_middle,
}
use mathlib.Core.List.Perm
use native.Mathlib.Bridge.{le_prop}
use mathlib.Core.Logic.Or
use conflux_fl.Base.Positions.{
  range_from, range_from-All, get_elem?-some, All-get_elem?, remove_at, remove_at-perm,
}
use conflux_fl.Base.Sort.{sort_by-perm, sort_by-IsSorted, IsSorted}
use conflux_fl.Proto.{ClientDelta}
use conflux_fl.Core.Averaging.{Aggregator}
use conflux_fl.Core.Robust.Filters.{UpdateFilter, filtered, at, picked, in_order}

-- The kept indices, ascending, and the others make up the batch.
abbrev pub IsSelection : ℕ → List ℕ → List ℕ → Type 0
IsSelection n kept others = IsSorted leb kept × Perm (kept ++ others) (range_from 0 n)

pub in_order-IsSelection :
    (n : ℕ) (kept others : List ℕ)
    → Perm (kept ++ others) (range_from 0 n)
    → IsSelection n (in_order kept) others
in_order-IsSelection n kept others p = (
  sort_by-IsSorted leb (λ a b. ground arith) (λ a b c p q. ground arith) kept,
  Perm.trans (Perm.append_right others (sort_by-perm leb kept)) p,
)

-- What every element of a list has, its members have.
All-mem :
    {A : Type 0} (P : A → Type 0)
    → ((x : A) → IsProp (P x))
    → (l : List A) (x : A) → All P l
    → Mem x l
    → P x
All-mem P prop [] x h m = absurd (not-mem-nil m)
All-mem P prop (y ∷ l) x h m =
    Or.elim (prop x) (mem-cons.0 m) (λ e. subst P (sym e) h.0) (All-mem P prop l x h.1)

pub mem-range_from : (n i : ℕ) → Mem i (range_from 0 n) → i < n
mem-range_from n i m =
    All-mem (λ j. j < n) (λ j. le_prop) (range_from 0 n) i
      (All-map _ _ (range_from 0 n) (λ j b. omega (arith, b.1)) (range_from-All 0 n)) m

below-All : (n : ℕ) (l : List ℕ) → ((i : ℕ) → Mem i l → i < n) → All (λ i. i < n) l
below-All n [] h = tt
below-All n (x ∷ l) h =
    (h x (mem-cons_self {l = l}), below-All n l (λ i m. h i (mem-cons_of_mem x m)))

-- Indices that are part of the batch's.
pub part-All :
    (n : ℕ) (l others : List ℕ) → Perm (l ++ others) (range_from 0 n) → All (λ i. i < n) l
part-All n l others p =
    below-All n l (λ i m. mem-range_from n i ((Perm.mem_iff p).0 (mem-append_left others m)))

module _ {A : Type 0} (fallback : A) where
  item : List A → ℕ → A
  item xs i = elim (get_elem? xs i) [ some x ↦ x | none ↦ fallback ]

  map-range_from-suc :
      (f : ℕ → A) (start n : ℕ)
      → map f (range_from (suc start) n) ≡ map (λ i. f (suc i)) (range_from start n)
  unfolding range_from
  map-range_from-suc f start zero = refl
  map-range_from-suc f start (suc n) = ap (◌∷◌ (f (suc start))) (map-range_from-suc f (suc start) n)

  map-item : (xs : List A) → map (item xs) (range_from 0 (length xs)) ≡ xs
  unfolding item range_from
  map-item [] = refl
  map-item (x ∷ xs) = ap (◌∷◌ x) (map-range_from-suc (item (x ∷ xs)) 0 (length xs) ∙ map-item xs)

  picked-item :
      (xs : List A) (l : List ℕ) → All (λ i. i < length xs) l → picked xs l ≡ ok (map (item xs) l)
  unfolding item traverse
  picked-item xs [] h = refl
  picked-item xs (i ∷ l) h =
      let (x, e) = get_elem?-some xs i h.0 in
      let found : item xs i ≡ x = rw (e, item) refl in
      rw (e, picked-item xs l h.1) (ap (λ y. ok (y ∷ map (item xs) l)) (sym found))

-- What all elements have, the picked ones have.
pub picked-All :
    {A : Type 0} (P : A → Type 0) (xs : List A) (l : List ℕ)
    → All P xs
    → All (λ i. i < length xs) l
    → (ys : List A) × (picked xs l ≡ ok ys) × (length ys ≡ length l) × All P ys
picked-All P xs l h inside =
    traverse-All (at xs) (λ i. i < length xs) P
      (λ i p. let (x, e) = get_elem?-some xs i p in (x, rw e refl, All-get_elem? P xs i x h e)) l
      inside

-- Moving one index from what remains to what is gone.
pub moved-perm :
    (n pos i : ℕ) (remaining gone : List ℕ)
    → get_elem? remaining pos ≡ some i
    → Perm (remaining ++ gone) (range_from 0 n)
    → Perm (remove_at pos remaining ++ i ∷ gone) (range_from 0 n)
moved-perm n pos i remaining gone e p =
    Perm.trans (perm_middle (remove_at pos remaining) gone)
      (Perm.trans (Perm.append_right gone (remove_at-perm pos i remaining e)) p)

-- A part of the indices picks that part of the list.
pub picked-perm :
    {A : Type 0} (x : A) (xs : List A) (kept others : List ℕ)
    → Perm (kept ++ others) (range_from 0 (length (x ∷ xs)))
    → (chosen : List A) × (left : List A) × (picked (x ∷ xs) kept ≡ ok chosen)
      × (length chosen ≡ length kept)
      × Perm (chosen ++ left) (x ∷ xs)
picked-perm {A} x xs kept others p =
    let n = length (x ∷ xs) in
    let pick : ℕ → A = item x (x ∷ xs) in
    (
      map pick kept,
      map pick others,
      picked-item x (x ∷ xs) kept (part-All n kept others p),
      length-map pick kept,
      subst (λ l. Perm l (x ∷ xs)) (map-append pick kept others)
          (subst (Perm (map pick (kept ++ others))) (map-item x (x ∷ xs)) (Perm.map pick p)),
    )

-- `FilteredAggregator` combines what the filter keeps: if the filter of a batch answers with a
-- selection that is not empty, no index is out of bounds, and the result is the combiner's on as many
-- of the batch's updates as were selected, each taken once.
pub filtered-IsSelection :
    (filter : UpdateFilter) (combiner : Aggregator) (u : ClientDelta) (us : List ClientDelta)
    (kept others : List ℕ)
    → filter (u ∷ us) ≡ ok kept
    → 0 < length kept
    → IsSelection (length (u ∷ us)) kept others
    → (chosen : List ClientDelta) × (left : List ClientDelta) × (filtered filter combiner (u ∷ us)
        ≡ combiner chosen)
      × (length chosen ≡ length kept)
      × Perm (chosen ++ left) (u ∷ us)
unfolding filtered
filtered-IsSelection filter combiner u us [] others answer pos (_, p) = elim pos [ ]
filtered-IsSelection filter combiner u us (k ∷ kept) others answer pos (_, p) =
    let (chosen, left, e, l, q) = picked-perm u us (k ∷ kept) others p in
    (chosen, left, rw answer (rw e refl), l, q)
