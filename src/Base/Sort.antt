-- ===== src/Base/Sort.antt =====
-- A stable sort: `slice::sort_by`, as insertion sort. Where the keys are distinct, the result does
-- not depend on the order of the input.
use mathlib.Core.Bool.{Bool, true, false}
use mathlib.Core.List.{List, [], ◌∷◌, map, Mem, Nodup, Nodup-cons, Perm, Permᴰ, mem-cons_self}
use mathlib.Core.List.Perm
use mathlib.Core.Logic.{◌⊎◌, inl, inr, ◌≢◌, ∥∥₁_elim}
use mathlib.Core.Path.{◌≡◌, refl, sym, ap, ap₂, subst, ◌∙◌}
use native.Mathlib.Omega.{arith}
use Prim.Native.Nat.{suc}
use conflux_fl.Base.Lists.{length, All, All-map}
use conflux_fl.Base.Tests.{if◌then◌else◌, Bool-cases}

module _ {ℓ} {A : Type ℓ} (le : A → A → Bool) where
  unfoldable pub insert_sorted : A → List A → List A
  insert_sorted x [] = x ∷ []
  insert_sorted x (y ∷ ys) =
      let rest = insert_sorted x ys in if le x y then x ∷ y ∷ ys else y ∷ rest

  unfoldable pub sort_by : List A → List A
  unfolding insert_sorted
  sort_by [] = []
  sort_by (x ∷ xs) = insert_sorted x (sort_by xs)

  insert_sorted-perm : (x : A) (l : List A) → Perm (insert_sorted x l) (x ∷ l)
  unfolding insert_sorted
  insert_sorted-perm x [] = Perm.refl _
  insert_sorted-perm x (y ∷ ys) = elim (Bool-cases (le x y)) [
    | inl e ↦ rw e (Perm.refl _)
    | inr e ↦ rw e (Perm.trans (Perm.cons y (insert_sorted-perm x ys)) (Perm.swap x y ys))
  ]

  -- The result holds the same items.
  pub sort_by-perm : (l : List A) → Perm (sort_by l) l
  unfolding sort_by
  sort_by-perm [] = Perm.refl _
  sort_by-perm (x ∷ xs) =
      Perm.trans (insert_sorted-perm x (sort_by xs)) (Perm.cons x (sort_by-perm xs))

  length-insert_sorted : (x : A) (l : List A) → length (insert_sorted x l) ≡ suc (length l)
  unfolding insert_sorted
  length-insert_sorted x [] = refl
  length-insert_sorted x (y ∷ ys) = ground (arith, length-insert_sorted x ys)

  pub length-sort_by : (l : List A) → length (sort_by l) ≡ length l
  unfolding sort_by
  length-sort_by [] = refl
  length-sort_by (x ∷ xs) = length-insert_sorted x (sort_by xs) ∙ ap suc (length-sort_by xs)

  pub All-insert_sorted {κ} :
      (P : A → Type κ) (x : A) (l : List A) → P x → All P l → All P (insert_sorted x l)
  unfolding insert_sorted
  All-insert_sorted P x [] p h = (p, tt)
  All-insert_sorted P x (y ∷ l) p h = elim (Bool-cases (le x y)) [
    | inl e ↦ rw e (p, h)
    | inr e ↦ rw e (h.0, All-insert_sorted P x l p h.1)
  ]

  pub All-sort_by {κ} : (P : A → Type κ) (l : List A) → All P l → All P (sort_by l)
  unfolding sort_by
  All-sort_by P [] h = tt
  All-sort_by P (x ∷ l) h = All-insert_sorted P x (sort_by l) h.0 (All-sort_by P l h.1)

  -- Neighbours are in order.
  abbrev pub IsSorted : List A → Type 0
  IsSorted [] = Unit
  IsSorted (x ∷ []) = Unit
  IsSorted (x ∷ y ∷ l) = (le x y ≡ true) × IsSorted (y ∷ l)

  insert_sorted_first : (x : A) (l : List A) → IsSorted (x ∷ l) → insert_sorted x l ≡ x ∷ l
  unfolding insert_sorted
  insert_sorted_first x [] s = refl
  insert_sorted_first x (y ∷ l) s = rw s.0 refl

  pub IsSorted-tail : (x : A) (l : List A) → IsSorted (x ∷ l) → IsSorted l
  IsSorted-tail x [] s = tt
  IsSorted-tail x (y ∷ l) s = s.1

  -- A sorted list stays as it is.
  pub sort_by_sorted : (l : List A) → IsSorted l → sort_by l ≡ l
  unfolding sort_by
  sort_by_sorted [] s = refl
  sort_by_sorted (x ∷ l) s = rw (sort_by_sorted l (IsSorted-tail x l s)) (insert_sorted_first x l s)

  module _ (total : (a b : A) → (le a b ≡ true) ⊎ (le b a ≡ true))
      (trans : (a b c : A) → le a b ≡ true → le b c ≡ true → le a c ≡ true) where
    insert_sorted-IsSorted : (x : A) (l : List A) → IsSorted l → IsSorted (insert_sorted x l)
    unfolding insert_sorted
    insert_sorted-IsSorted x [] s = tt
    insert_sorted-IsSorted x (y ∷ []) s = ground (arith, total x y)
    insert_sorted-IsSorted x (y ∷ z ∷ l) s =
        ground (arith, total x y, total x z, insert_sorted-IsSorted x (z ∷ l) s.1)

    -- The first of a sorted list is in order with all others.
    pub IsSorted-first : (x : A) (l : List A) → IsSorted (x ∷ l) → All (λ y. le x y ≡ true) l
    IsSorted-first x [] s = tt
    IsSorted-first x (y ∷ l) s =
        (s.0, All-map _ _ l (λ z h. trans x y z s.0 h) (IsSorted-first y l s.1))

    pub sort_by-IsSorted : (l : List A) → IsSorted (sort_by l)
    unfolding sort_by
    sort_by-IsSorted [] = tt
    sort_by-IsSorted (x ∷ xs) = insert_sorted-IsSorted x (sort_by xs) (sort_by-IsSorted xs)

    insert_sorted_comm :
        (a b : A) (l : List A)
        → le a b ≡ false
        → insert_sorted a (insert_sorted b l) ≡ insert_sorted b (insert_sorted a l)
    unfolding insert_sorted
    insert_sorted_comm a b [] h = ground (arith, total a b)
    insert_sorted_comm a b (y ∷ l) h =
        ground (arith, total a b, trans b a y, insert_sorted_comm a b l h)

    module _ {κ} {K : Type κ} (key : A → K)
        (antisymm : (a b : A) → le a b ≡ true → le b a ≡ true → key a ≡ key b) where
      swap_inserted :
          (a b : A) (l : List A)
          → key a ≢ key b
          → insert_sorted a (insert_sorted b l) ≡ insert_sorted b (insert_sorted a l)
      swap_inserted a b l ne = elim (Bool-cases (le a b)) [
        | inl e ↦ elim (Bool-cases (le b a)) [
          | inl e' ↦ absurd (ne (antisymm a b e e'))
          | inr e' ↦ sym (insert_sorted_comm b a l e')
        ]
        | inr e ↦ insert_sorted_comm a b l e
      ]

      key-ne : (a b : A) (l : List A) → Nodup (map key (a ∷ b ∷ l)) → key a ≢ key b
      key-ne a b l d e =
          (Nodup-cons.0 d).0
            (subst (λ k. Mem k (key b ∷ map key l)) (sym e) (mem-cons_self {l = map key l}))

      sort_by_permᴰ : {l l' : List A} → Permᴰ l l' → Nodup (map key l) → sort_by l ≡ sort_by l'
      unfolding sort_by
      sort_by_permᴰ Permᴰ.nil d = refl
      sort_by_permᴰ (Permᴰ.cons e p) d = ap₂ insert_sorted e (sort_by_permᴰ p (Nodup-cons.0 d).1)
      sort_by_permᴰ (Permᴰ.swap {a = a} {b = b} {l = l} e e') d =
          swap_inserted a b (sort_by l) (key-ne a b l d)
          ∙ ap₂ (λ x y. insert_sorted x (insert_sorted y (sort_by l))) e' e
      sort_by_permᴰ (Permᴰ.trans p q) d =
          sort_by_permᴰ p d ∙ sort_by_permᴰ q (Perm.nodup (Perm.map key ∣ p ∣₁) d)

      -- With distinct keys the order of the input does not matter.
      pub sort_by_perm-eq :
          IsSet A → (l l' : List A) → Nodup (map key l) → Perm l l' → sort_by l ≡ sort_by l'
      sort_by_perm-eq set l l' d p =
          let list_set : IsSet (List A) = hlevel set in
          ∥∥₁_elim p (list_set (sort_by l) (sort_by l')) (λ q. sort_by_permᴰ q d)
