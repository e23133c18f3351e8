-- ===== src/Core/Robust/Spectral/Complement.antt =====
-- crates/conflux-core/src/robust.rs: the indices that are left once some of the batch's are excluded.
use conflux_fl.Base.{
  ℕ, zero, suc, ◌<◌, ◌≤◌, ◌≡◌, refl, sym, ap, subst, ◌∙◌, Bool, true, not, List, [], ◌∷◌, ◌++◌, map,
  arith, leb, keep_if, Bool-cases, inl, inr, Perm, Nodup, Mem, ==_iff, ◌==◌,
}
use mathlib.Core.List.{
  Nodup-cons, Nodup-nil, Nodup-append, mem-append, mem-append_right, mem-cons, mem-cons_self,
  mem-cons_of_mem, not-mem-nil, perm_ext_iff_of_Nodup,
}
use mathlib.Core.List
use mathlib.Core.List.Perm
use mathlib.Core.Logic.Or
use mathlib.Core.HLevel.{⊥_prop}
use conflux_fl.Base.Positions.{range_from}
use conflux_fl.Base.Sort.{sort_by_sorted, sort_by_perm-eq, IsSorted}
use conflux_fl.Core.Robust.Filters.{in_order}
use conflux_fl.Core.Robust.Spectral.{includes}

Bool-IsSet : IsSet Bool
Bool-IsSet = hlevel

ℕ-IsSet : IsSet ℕ
ℕ-IsSet = hlevel

mem-includes : (l : List ℕ) (i : ℕ) → Mem i l → includes l i ≡ true
unfolding includes
mem-includes [] i m = absurd (not-mem-nil m)
mem-includes (x ∷ l) i m =
    Or.elim (Bool-IsSet (includes (x ∷ l) i) true) (mem-cons.0 m)
      (λ e. let same : (x == i) ≡ true = (==_iff x i).1 (sym e) in rw same refl)
      (λ t. let rest = mem-includes l i t in ground arith)

includes-mem : (l : List ℕ) (i : ℕ) → includes l i ≡ true → Mem i l
unfolding includes
includes-mem [] i e = cc
includes-mem (x ∷ l) i e = elim (Bool-cases (x == i)) [
  | inl here ↦ mem-cons.1 (Or.inl (sym ((==_iff x i).0 here)))
  | inr other ↦ mem-cons_of_mem x (includes-mem l i (ground arith))
]

mem-keep_if : (p : ℕ → Bool) (l : List ℕ) (i : ℕ) → Mem i (keep_if p l) → Mem i l × (p i ≡ true)
unfolding keep_if
mem-keep_if p [] i m = absurd (not-mem-nil m)
mem-keep_if p (x ∷ l) i m = elim (Bool-cases (p x)) [
  | inl e ↦
      let m' : Mem i (x ∷ keep_if p l) = subst (Mem i) (rw e refl) m in
      (
        Or.elim List.Mem-prop (mem-cons.0 m') (λ s. mem-cons.1 (Or.inl s))
            (λ t. mem-cons_of_mem x (mem-keep_if p l i t).0),
        Or.elim (Bool-IsSet (p i) true) (mem-cons.0 m') (λ s. ap p s ∙ e)
            (λ t. (mem-keep_if p l i t).1),
      )
  | inr e ↦
      let m' : Mem i (keep_if p l) = subst (Mem i) (rw e refl) m in
      let (found, q) = mem-keep_if p l i m' in (mem-cons_of_mem x found, q)
]

keep_if-mem : (p : ℕ → Bool) (l : List ℕ) (i : ℕ) → Mem i l → p i ≡ true → Mem i (keep_if p l)
unfolding keep_if
keep_if-mem p [] i m q = absurd (not-mem-nil m)
keep_if-mem p (x ∷ l) i m q = elim (Bool-cases (p x)) [
  | inl e ↦ rw e (
      Or.elim List.Mem-prop (mem-cons.0 m) (λ s. mem-cons.1 (Or.inl s))
        (λ t. mem-cons_of_mem x (keep_if-mem p l i t q)))
  | inr e ↦ rw e (
      Or.elim List.Mem-prop (mem-cons.0 m) (λ s. absurd (let e' = ap p s in cc))
        (λ t. keep_if-mem p l i t q))
]

keep_if-Nodup : (p : ℕ → Bool) (l : List ℕ) → Nodup l → Nodup (keep_if p l)
unfolding keep_if
keep_if-Nodup p [] d = Nodup-nil
keep_if-Nodup p (x ∷ l) d =
    let (new, rest) = Nodup-cons.0 d in
    elim (Bool-cases (p x)) [
      | inl e ↦ rw e (Nodup-cons.1 ((λ m. new (mem-keep_if p l x m).0), keep_if-Nodup p l rest))
      | inr e ↦ rw e (keep_if-Nodup p l rest)
    ]

range_from-below : (start n i : ℕ) → i < start → ¬ Mem i (range_from start n)
unfolding range_from
range_from-below start zero i h m = not-mem-nil m
range_from-below start (suc n) i h m =
    Or.elim ⊥_prop (mem-cons.0 m) (λ e. omega (arith, e, h))
      (range_from-below (suc start) n i (omega (arith, h)))

range_from-Nodup : (start n : ℕ) → Nodup (range_from start n)
unfolding range_from
range_from-Nodup start zero = Nodup-nil
range_from-Nodup start (suc n) =
    Nodup-cons.1
      (range_from-below (suc start) n start (omega arith), range_from-Nodup (suc start) n)

-- What is kept of a range starts no earlier, and is ascending.
abbrev FromUp : ℕ → List ℕ → Type 0
FromUp start [] = Unit
FromUp start (x ∷ l) = (start ≤ x) × IsSorted leb (x ∷ l)

FromUp-weaken : (start : ℕ) (l : List ℕ) → FromUp (suc start) l → FromUp start l
FromUp-weaken start [] h = tt
FromUp-weaken start (x ∷ l) (b, s) = (omega (arith, b), s)

FromUp-cons : (start : ℕ) (l : List ℕ) → FromUp (suc start) l → IsSorted leb (start ∷ l)
FromUp-cons start [] h = tt
FromUp-cons start (x ∷ l) (b, s) = (ground arith, s)

keep_if-FromUp : (p : ℕ → Bool) (start n : ℕ) → FromUp start (keep_if p (range_from start n))
unfolding keep_if range_from
keep_if-FromUp p start zero = tt
keep_if-FromUp p start (suc n) =
    let rest = keep_if-FromUp p (suc start) n in
    elim (Bool-cases (p start)) [
      | inl e ↦ rw e (omega arith, FromUp-cons start (keep_if p (range_from (suc start) n)) rest)
      | inr e ↦ rw e (FromUp-weaken start (keep_if p (range_from (suc start) n)) rest)
    ]

FromUp-IsSorted : (start : ℕ) (l : List ℕ) → FromUp start l → IsSorted leb l
FromUp-IsSorted start [] h = tt
FromUp-IsSorted start (x ∷ l) (b, s) = s

-- If the excluded and the rest make up the batch, what is not excluded is the rest, in order.
pub keep_if-in_order :
    (n : ℕ) (excluded rest : List ℕ)
    → Perm (excluded ++ rest) (range_from 0 n)
    → keep_if (λ i. not (includes excluded i)) (range_from 0 n) ≡ in_order rest
keep_if-in_order n excluded rest whole =
    let kept = keep_if (λ i. not (includes excluded i)) (range_from 0 n) in
    let (_, others, apart) = Nodup-append.0 (Perm.nodup (Perm.symm whole) (range_from-Nodup 0 n)) in
    let distinct =
      keep_if-Nodup (λ i. not (includes excluded i)) (range_from 0 n) (range_from-Nodup 0 n) in
    let same : Perm kept rest = (perm_ext_iff_of_Nodup distinct others).1 (λ i. (
      (λ m.
          let (found, free) = mem-keep_if (λ j. not (includes excluded j)) (range_from 0 n) i m in
          Or.elim List.Mem-prop (mem-append.0 ((Perm.mem_iff (Perm.symm whole)).0 found))
            (λ e. absurd (let e' = mem-includes excluded i e in ground arith)) (λ r. r)),
      (λ m.
          keep_if-mem (λ j. not (includes excluded j)) (range_from 0 n) i
            ((Perm.mem_iff whole).0 (mem-append_right excluded m))
            (elim (Bool-cases (includes excluded i)) [
              | inl e ↦ absurd (apart i (includes-mem excluded i e) m)
              | inr e ↦ rw e refl
            ])),
    )) in
    sym (sort_by_sorted leb kept (FromUp-IsSorted 0 kept (keep_if-FromUp _ 0 n)))
    ∙ sort_by_perm-eq leb (λ a b. ground arith) (λ a b c p q. ground arith) (λ i. i)
        (λ a b p q. ground arith) ℕ-IsSet kept rest (subst Nodup (map-id kept) distinct) same
  where
    map-id : (l : List ℕ) → l ≡ map (λ i. i) l
    map-id [] = refl
    map-id (x ∷ l) = ap (◌∷◌ x) (map-id l)
