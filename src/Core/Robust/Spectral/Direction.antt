-- ===== src/Core/Robust/Spectral/Direction.antt =====
-- crates/conflux-core/src/robust.rs: what the power iteration finds, and the scores that come of it.
use conflux_fl.Base.{
  ℕ, zero, suc, ◌≤◌, ◌≡◌, ◌⊎◌, inl, inr, refl, ap, ap₂, ◌∙◌, true, false, Bool-cases, List, [], ◌∷◌,
  map, arith, length, length-map, All,
}
use conflux_fl.Float.{F32, Arithmetic, is_nan, ordered_le, one_f32}
use conflux_fl.Core.Averaging.{zeros}
use conflux_fl.Core.Batch.{dim_of}
use conflux_fl.Core.Robust.Filters.{mean_of}
use conflux_fl.Core.Robust.Spectral.{
  exceeds, tiny_f32, products, differences, add_rows, projection, norm, iterate, filled_f32,
  top_singular_vector, spectral_scores,
}

map_same : {A B : Type 0} (f g : A → B) (l : List A) → ((x : A) → f x ≡ g x) → map f l ≡ map g l
map_same f g [] same = refl
map_same f g (x ∷ l) same = ap₂ ◌∷◌ (same x) (map_same f g l same)

-- Two vectors combined coordinate by coordinate, as far as both go.
abbrev pub zipped : (F32 → F32 → F32) → List F32 → List F32 → List F32
zipped f [] ys = []
zipped f (x ∷ xs) [] = []
zipped f (x ∷ xs) (y ∷ ys) = f x y ∷ zipped f xs ys

-- A number above the bound under which a norm counts as nothing.
abbrev pub IsAbove : F32 → Type 0
IsAbove x = (is_nan x ≡ false) × (ordered_le x tiny_f32 ≡ false)

exceeds-IsAbove : (x : F32) → exceeds x tiny_f32 ≡ true → IsAbove x
unfolding exceeds
exceeds-IsAbove x e = ground arith

IsAbove-exceeds : (x : F32) → exceeds x tiny_f32 ≡ false → ¬ IsAbove x
unfolding exceeds is_nan
IsAbove-exceeds x e (number, above) = let e' = rw (number, above) at e in cc

module _ (h : Arithmetic) where
  -- The rows summed, each scaled by its projection on the vector.
  abbrev pub next_vector : List (List F32) → List F32 → List F32
  next_vector rows v =
      add_rows h (zeros (dim_of rows)) rows (map (λ row. h.sum (zipped h.mul row v)) rows)

  -- One vector comes of another by so many normalized steps, each of a norm above the bound.
  abbrev pub Reaches : List (List F32) → ℕ → List F32 → List F32 → Type 0
  Reaches rows zero v v' = v' ≡ v
  Reaches rows (suc k) v v' =
      let next = next_vector rows v in
      IsAbove (norm h next) × Reaches rows k (map (λ x. h.div x (norm h next)) next) v'

  -- The vector that the iteration ends with: it takes all of its turns, unless the norm of the next step
  -- is not above the bound.
  abbrev pub IsDirection : List (List F32) → ℕ → List F32 → List F32 → Type 0
  IsDirection rows iterations start v =
      (k : ℕ) × (k ≤ iterations)
      × Reaches rows k start v
      × ((k ≡ iterations) ⊎ (¬ IsAbove (norm h (next_vector rows v))))

  products-zipped : (row v : List F32) → products h row v ≡ zipped h.mul row v
  unfolding products
  products-zipped [] v = refl
  products-zipped (x ∷ row) [] = refl
  products-zipped (x ∷ row) (y ∷ v) = ap (◌∷◌ (h.mul x y)) (products-zipped row v)

  differences-zipped : (row mean : List F32) → differences h row mean ≡ zipped h.sub row mean
  unfolding differences
  differences-zipped [] mean = refl
  differences-zipped (x ∷ row) [] = refl
  differences-zipped (x ∷ row) (y ∷ mean) = ap (◌∷◌ (h.sub x y)) (differences-zipped row mean)

  next_vector-projection :
      (rows : List (List F32)) (v : List F32)
      → add_rows h (zeros (dim_of rows)) rows (map (λ row. projection h v row) rows)
        ≡ next_vector rows v
  next_vector-projection rows v =
      ap (add_rows h (zeros (dim_of rows)) rows)
        (map_same _ _ rows (λ row. ap h.sum (products-zipped row v)))

  iterate-IsDirection :
      (rows : List (List F32)) (turns : ℕ) (v : List F32)
      → IsDirection rows turns v (iterate h rows turns v)
  unfolding iterate
  iterate-IsDirection rows zero v = (0, omega arith, refl, inl refl)
  iterate-IsDirection rows (suc turns) v =
      let next = next_vector rows v in
      rw (next_vector-projection rows v) (elim (Bool-cases (exceeds (norm h next) tiny_f32)) [
        | inl e ↦
            let (k, within, reached, done) =
              iterate-IsDirection rows turns (map (λ x. h.div x (norm h next)) next) in
            rw e (
              suc k,
              omega (arith, within),
              (exceeds-IsAbove (norm h next) e, reached),
              elim done [ inl all ↦ inl (ap suc all) | inr low ↦ inr low ],
            )
        | inr e ↦ rw e (0, omega arith, refl, inr (IsAbove-exceeds (norm h next) e))
      ])

  filled_f32-All :
      (x : F32) (n : ℕ) → (length (filled_f32 h x n) ≡ n) × All (λ y. y ≡ x) (filled_f32 h x n)
  unfolding filled_f32
  filled_f32-All x zero = (refl, tt)
  filled_f32-All x (suc n) = let (l, same) = filled_f32-All x n in (ap suc l, (refl, same))

  -- The scores of a batch: the squared projection of each update, less the mean, on the vector that the
  -- iteration ends with from the start with equal coordinates.
  abbrev pub AreSpectral : ℕ → List (List F32) → List F32 → Type 0
  AreSpectral iterations vs scores =
      (centered : List (List F32)) × (start v : List F32) × (centered
        ≡ map (λ row. zipped h.sub row (mean_of h vs)) vs)
      × (length start ≡ dim_of centered)
      × All (λ x. x ≡ h.div one_f32 (h.sqrt (h.of_nat (dim_of centered)))) start
      × IsDirection centered iterations start v
      × (scores
          ≡ map (λ row. h.mul (h.sum (zipped h.mul row v)) (h.sum (zipped h.mul row v))) centered)

  pub spectral_scores-AreSpectral :
      (iterations : ℕ) (vs : List (List F32))
      → AreSpectral iterations vs (spectral_scores h iterations vs)
  unfolding spectral_scores top_singular_vector
  spectral_scores-AreSpectral iterations vs =
      let centered = map (λ row. differences h row (mean_of h vs)) vs in
      let x = h.div one_f32 (h.sqrt (h.of_nat (dim_of centered))) in
      let start = filled_f32 h x (dim_of centered) in
      let (size, equal) = filled_f32-All x (dim_of centered) in
      (
        centered,
        start,
        iterate h centered iterations start,
        map_same _ _ vs (λ row. differences-zipped row (mean_of h vs)),
        size,
        equal,
        iterate-IsDirection centered iterations start,
        map_same _ _ centered (λ row. ap (λ p. h.mul (h.sum p) (h.sum p)) (products-zipped row _)),
      )

  pub length-spectral_scores :
      (iterations : ℕ) (vs : List (List F32)) → length (spectral_scores h iterations vs) ≡ length vs
  unfolding spectral_scores
  length-spectral_scores iterations vs = length-map _ _ ∙ length-map _ vs
