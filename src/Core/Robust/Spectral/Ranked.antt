-- ===== src/Core/Robust/Spectral/Ranked.antt =====
-- crates/conflux-core/src/robust.rs: the updates of a batch with the highest scores, and the others.
use conflux_fl.Base.{
  ℕ, zero, suc, ◌<◌, ◌≡◌, ◌⊎◌, sym, subst, true, List, [], ◌∷◌, ◌++◌, map, arith, length,
  length-map, length-take, take, drop, take-append-drop, All-drop, All-both, All-map, All,
  get_elem?, Perm, leb, some, Bool,
}
use mathlib.Core.List.{map-append}
use mathlib.Core.List.Perm
use conflux_fl.Base.Positions.{
  range_from, enumerate, map-enumerate, length-enumerate, enumerate-All,
}
use conflux_fl.Base.Sort.{
  sort_by, sort_by-perm, sort_by-IsSorted, All-sort_by, IsSorted, IsSorted-first, IsSorted-tail,
  length-sort_by,
}
use conflux_fl.Float.{F32, ordered_le}
use conflux_fl.Core.Extrema.{descending, ordered_le_total, ordered_le_trans}
use conflux_fl.Core.Robust.Filters.{in_order}

-- Every update of the first list scores at least as high as every one of the second.
abbrev pub Outlying : List F32 → List ℕ → List ℕ → Type 0
Outlying scores excluded kept =
    All
      (λ j.
        All
          (λ i.
            (a b : F32)
            → get_elem? scores j ≡ some a
            → get_elem? scores i ≡ some b
            → ordered_le b a ≡ true)
          kept)
      excluded

abbrev pub highest_first : ℕ × F32 → ℕ × F32 → Bool
highest_first p q = descending p.1 q.1

abbrev IsScored : List F32 → ℕ × F32 → Type 0
IsScored scores p = get_elem? scores p.0 ≡ some p.1

below :
    (scores : List F32) (p : ℕ × F32) (l : List (ℕ × F32))
    → IsScored scores p
    → All (λ q. (highest_first p q ≡ true) × IsScored scores q) l
    → All
        (λ i.
          (a b : F32)
          → get_elem? scores p.0 ≡ some a
          → get_elem? scores i ≡ some b
          → ordered_le b a ≡ true)
        (map (λ q. q.0) l)
below scores p [] at h = tt
below scores p (q ∷ l) at h = (
  λ a b e e'.
      let first : p.1 ≡ a = cc in
      let second : q.1 ≡ b = cc (h.0.1, e') in rw (← first) (rw (← second) h.0.0),
  below scores p l at h.1,
)

total : (p q : ℕ × F32) → (highest_first p q ≡ true) ⊎ (highest_first q p ≡ true)
total p q = ordered_le_total q.1 p.1

trans :
    (p q r : ℕ × F32)
    → highest_first p q ≡ true
    → highest_first q r ≡ true
    → highest_first p r ≡ true
trans p q r a b = ordered_le_trans r.1 q.1 p.1 b a

split-Outlying :
    (scores : List F32) (f : ℕ) (l : List (ℕ × F32))
    → IsSorted highest_first l
    → All (IsScored scores) l
    → Outlying scores (map (λ p. p.0) (take f l)) (map (λ p. p.0) (drop f l))
split-Outlying scores zero l s h = tt
split-Outlying scores (suc f) [] s h = tt
split-Outlying scores (suc f) (p ∷ l) s h = (
  below scores p (drop f l) h.0
      (All-drop _ f l (All-both _ _ l (IsSorted-first highest_first total trans p l s) h.1)),
  split-Outlying scores f l (IsSorted-tail highest_first p l s) h.1,
)

module _ (scores : List F32) (f : ℕ) where
  unfoldable pub ranking : List (ℕ × F32)
  ranking = sort_by highest_first (enumerate 0 scores)

  unfoldable pub excluded : List ℕ
  excluded = map (λ p. p.0) (take f ranking)

  unfoldable pub others : List ℕ
  others = map (λ p. p.0) (drop f ranking)

  pub excluded-perm : Perm (excluded ++ others) (range_from 0 (length scores))
  unfolding excluded others ranking
  excluded-perm =
      subst (λ l. Perm l (range_from 0 (length scores)))
        (map-append (λ p. p.0) (take f ranking) (drop f ranking))
        (subst (λ l. Perm (map (λ p. p.0) l) (range_from 0 (length scores)))
          (sym (take-append-drop f ranking))
          (subst (Perm (map (λ p. p.0) ranking)) (map-enumerate 0 scores)
            (Perm.map (λ p. p.0) (sort_by-perm highest_first (enumerate 0 scores)))))

  pub excluded-Outlying : Outlying scores excluded (in_order others)
  unfolding excluded others ranking
  excluded-Outlying =
      All-map _ _ excluded (λ j. All-sort_by leb _ others)
        (split-Outlying scores f ranking
          (sort_by-IsSorted highest_first total trans (enumerate 0 scores))
          (All-sort_by highest_first _ (enumerate 0 scores) (enumerate-All scores)))

  pub length-excluded : f < length scores → length excluded ≡ f
  unfolding excluded ranking
  length-excluded less = omega (
    arith,
    less,
    length-map (λ (p : ℕ × F32). p.0) (take f ranking),
    length-take f ranking,
    length-sort_by highest_first (enumerate 0 scores),
    length-enumerate 0 scores,
  )
