-- ===== src/Core/Robust/Faba.antt =====
-- crates/conflux-core/src/robust.rs: which updates `FabaFilter` keeps.
use conflux_fl.Base.{
  ℕ, zero, suc, ◌+◌, ◌<◌, ◌≡◌, refl, sym, subst, false, List, [], ◌∷◌, ◌++◌, map, arith, length,
  length-map, get_elem?, some, All, All-map, ok, Perm, leb,
}
use mathlib.Core.List.Perm
use mathlib.Core.List.{append-nil}
use conflux_fl.Base.Positions.{
  range_from, length-range_from, remove_at, length-remove_at, get_elem?-some, get_elem?-lt,
}
use conflux_fl.Base.Sort.{length-sort_by}
use conflux_fl.Config.Preconditions.{byzantine_count, byzantine_count-lt}
use conflux_fl.Float.{F32, Arithmetic, one_f32, is_nan}
use conflux_fl.Proto.{ClientDelta}
use conflux_fl.Core.Averaging.{accumulate_weighted, zeros}
use conflux_fl.Core.Batch.{decode_and_validate, decode_and_validate_iff, dim_of, AreFinite}
use conflux_fl.Core.Extrema.{IsNumber, descending, IsBest, greatest_position-IsBest}
use conflux_fl.Core.Robust.Filters.{
  faba, drop_rounds, drop_farthest, add_shares, mean_of, l2_distance, picked, in_order,
}
use conflux_fl.Core.Robust.Numbers.{
  Ieee, IsLength-IsNumber, IsFit-AreFinite, IsFit-length, l2_distance-IsLength,
}
use conflux_fl.Core.Robust.Selection.{
  IsSelection, in_order-IsSelection, picked-All, part-All, moved-perm,
}

module _ (h : Arithmetic) (laws : Ieee h) where
  accumulate-IsNumber :
      (n : ℕ) (acc src : List F32)
      → 0 < n
      → All IsNumber acc
      → AreFinite src
      → All IsNumber (accumulate_weighted h acc src (h.div one_f32 (h.of_nat n)))
  unfolding accumulate_weighted
  accumulate-IsNumber n [] src pos p q = tt
  accumulate-IsNumber n (a ∷ acc) [] pos p q = p
  accumulate-IsNumber n (a ∷ acc) (s ∷ src) pos p q = (
    laws.add_number a _ p.0 (laws.share_finite n s pos q.0),
    accumulate-IsNumber n acc src pos p.1 q.1,
  )

  add_shares-IsNumber :
      (n : ℕ) (acc : List F32) (vs : List (List F32))
      → 0 < n
      → All IsNumber acc
      → All AreFinite vs
      → All IsNumber (add_shares h (h.div one_f32 (h.of_nat n)) acc vs)
  unfolding add_shares
  add_shares-IsNumber n acc [] pos p q = p
  add_shares-IsNumber n acc (v ∷ vs) pos p q =
      add_shares-IsNumber n (accumulate_weighted h acc v (h.div one_f32 (h.of_nat n))) vs pos
        (accumulate-IsNumber n acc v pos p q.0) q.1

  zeros-IsNumber : (n : ℕ) → All IsNumber (zeros n)
  unfolding zeros is_nan
  zeros-IsNumber zero = tt
  zeros-IsNumber (suc n) = (refl, zeros-IsNumber n)

  -- The mean of finite vectors may overflow, but is never NaN.
  mean_of-IsNumber :
      (vs : List (List F32)) → 0 < length vs → All AreFinite vs → All IsNumber (mean_of h vs)
  unfolding mean_of
  mean_of-IsNumber vs pos p =
      add_shares-IsNumber (length vs) (zeros (dim_of vs)) vs pos (zeros-IsNumber (dim_of vs)) p

  -- The distances of some updates to their mean.
  abbrev pub spread : List (List F32) → List F32
  spread vectors = map (λ v. l2_distance h v (mean_of h vectors)) vectors

  spread-IsNumber :
      (vs : List (List F32)) → 0 < length vs → All AreFinite vs → All IsNumber (spread vs)
  spread-IsNumber vs pos p = go vs p
    where
      go :
          (ws : List (List F32))
          → All AreFinite ws
          → All IsNumber (map (λ v. l2_distance h v (mean_of h vs)) ws)
      go [] q = tt
      go (w ∷ ws) q = (
        IsLength-IsNumber _
            (l2_distance-IsLength h laws w (mean_of h vs) q.0 (mean_of-IsNumber vs pos p)),
        go ws q.1,
      )

  -- As many times as it says, one of the updates that are farthest from the mean of what remains is
  -- dropped.
  abbrev pub Drops : List (List F32) → ℕ → List ℕ → List ℕ → Type 0
  Drops decoded zero remaining left = remaining ≡ left
  Drops decoded (suc turns) remaining left =
      (worst : ℕ) × (vectors : List (List F32)) × (picked decoded remaining ≡ ok vectors)
      × IsBest descending worst (spread vectors)
      × Drops decoded turns (remove_at worst remaining) left

  module _ (decoded : List (List F32)) (finite : All AreFinite decoded) where
    drop_farthest_lem :
        (remaining gone : List ℕ)
        → Perm (remaining ++ gone) (range_from 0 (length decoded))
        → 0 < length remaining
        → (worst : ℕ) × (i : ℕ) × (vectors : List (List F32)) × (picked decoded remaining
            ≡ ok vectors)
          × (drop_farthest h decoded remaining ≡ ok (remove_at worst remaining))
          × IsBest descending worst (spread vectors)
          × (get_elem? remaining worst ≡ some i)
    unfolding drop_farthest
    drop_farthest_lem remaining gone p pos =
        let n = length decoded in
        let (vectors, e, size, fin) =
          picked-All AreFinite decoded remaining finite (part-All n remaining gone p) in
        found vectors e size fin
      where
        found :
            (vectors : List (List F32))
            → picked decoded remaining ≡ ok vectors
            → length vectors ≡ length remaining
            → All AreFinite vectors
            → (worst : ℕ) × (i : ℕ) × (vectors : List (List F32)) × (picked decoded remaining
                ≡ ok vectors)
              × (drop_farthest h decoded remaining ≡ ok (remove_at worst remaining))
              × IsBest descending worst (spread vectors)
              × (get_elem? remaining worst ≡ some i)
        found [] e size fin = absurd (omega arith)
        found (v ∷ vs) e size fin =
            let numbers = spread-IsNumber (v ∷ vs) (omega arith) fin in
            let (worst, at, best) = greatest_position-IsBest _ _ numbers in
            let inside = get_elem?-lt (spread (v ∷ vs)) worst best.0 best.1 in
            let (i, there) = get_elem?-some remaining worst (
              omega (
                arith,
                inside,
                length-map (λ (w : List F32). l2_distance h w (mean_of h (v ∷ vs))) vs,
              )) in
            (worst, i, v ∷ vs, e, rw e (rw at refl), best, there)

    drop_rounds_lem :
        (turns : ℕ) (remaining gone : List ℕ)
        → Perm (remaining ++ gone) (range_from 0 (length decoded))
        → turns < length remaining
        → (left : List ℕ) × (gone' : List ℕ) × (drop_rounds h decoded turns remaining ≡ ok left)
          × Drops decoded turns remaining left
          × Perm (left ++ gone') (range_from 0 (length decoded))
          × (length left + turns ≡ length remaining)
    unfolding drop_rounds
    drop_rounds_lem zero remaining gone p few = (remaining, gone, refl, refl, p, omega arith)
    drop_rounds_lem (suc turns) remaining gone p few =
        let (worst, i, vectors, e, step, best, there) =
          drop_farthest_lem remaining gone p (omega arith) in
        let size = length-remove_at worst remaining (get_elem?-lt remaining worst i there) in
        let (left, gone', rest, drops, q, count) =
          drop_rounds_lem turns (remove_at worst remaining) (i ∷ gone)
            (moved-perm (length decoded) worst i remaining gone there p) (omega (arith, size)) in
        let many : leb (length remaining) 1 ≡ false = ground arith in
        (
          left,
          gone',
          rw many (rw step rest),
          (worst, vectors, e, best, drops),
          q,
          omega (arith, size, count),
        )

  -- FABA does not panic on a valid batch. As many times as updates are assumed to be Byzantine it drops
  -- one that is farthest from the mean of what remains, and it keeps all others.
  pub faba-Drops :
      (fraction : F32) (u : ClientDelta) (us : List ClientDelta) (vs : List (List F32))
      → decode_and_validate (u ∷ us) ≡ ok vs
      → (left : List ℕ) × (others : List ℕ) × (faba h fraction (u ∷ us) ≡ ok (in_order left))
        × Drops vs
            (byzantine_count h fraction (length (u ∷ us)))
            (range_from 0 (length (u ∷ us)))
            left
        × IsSelection (length (u ∷ us)) (in_order left) others
        × (length (in_order left) + byzantine_count h fraction (length (u ∷ us)) ≡ length (u ∷ us))
  unfolding faba
  faba-Drops fraction u us vs valid =
      let fit = (decode_and_validate_iff (u ∷ us) vs).0 valid in
      let finite =
        All-map _ AreFinite vs (λ w p. p.0) (IsFit-AreFinite (dim_of vs) (u ∷ us) vs fit) in
      let size : length vs ≡ length (u ∷ us) = IsFit-length (dim_of vs) (u ∷ us) vs fit in
      let f = byzantine_count h fraction (length vs) in
      let n = length vs in
      let (left, others, e, drops, p, count) =
        drop_rounds_lem vs finite f (range_from 0 n) []
          (subst (λ l. Perm l (range_from 0 n)) (sym (append-nil (range_from 0 n))) (Perm.refl _))
          (omega (
            arith,
            length-range_from 0 n,
            byzantine_count-lt h fraction n (omega (arith, size)),
          )) in
      (
        left,
        others,
        rw valid (rw e refl),
        subst (λ k. Drops vs (byzantine_count h fraction k) (range_from 0 k) left) size drops,
        in_order-IsSelection (length (u ∷ us)) left others
            (subst (λ k. Perm (left ++ others) (range_from 0 k)) size p),
        subst (λ k. length (in_order left) + byzantine_count h fraction k ≡ k) size
            (omega (arith, length-sort_by leb left, count, length-range_from 0 n)),
      )
