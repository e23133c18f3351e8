-- ===== src/Base/Positions.antt =====
-- Lists by position: `enumerate`, ranges, removal, and looking up several positions.
use mathlib.Core.List.{List, [], ◌∷◌, map, Perm}
use mathlib.Core.List.Perm
use mathlib.Core.Option.{some}
use mathlib.Core.Path.{◌≡◌, refl, ap, ap₂, subst}
use mathlib.Core.Logic.{inl, inr}
use native.Mathlib.Omega.{arith}
use Prim.Native.Nat.{ℕ, zero, suc, ◌+◌, ◌<◌, ◌≤◌}
use conflux_fl.Base.Lists.{length, get_elem?, All, Any, take, drop}

-- `(start..start + n).collect()`
unfoldable pub range_from : ℕ → ℕ → List ℕ
range_from start zero = []
range_from start (suc n) = start ∷ range_from (suc start) n

pub length-range_from : (start n : ℕ) → length (range_from start n) ≡ n
unfolding range_from
length-range_from start zero = refl
length-range_from start (suc n) = ap suc (length-range_from (suc start) n)

pub range_from-All : (start n : ℕ) → All (λ i. (start ≤ i) × (i < start + n)) (range_from start n)
unfolding range_from
range_from-All start zero = tt
range_from-All start (suc n) = (
  (omega arith, omega arith),
  within start n (range_from (suc start) n) (range_from-All (suc start) n),
)
  where
    within :
        (start n : ℕ) (l : List ℕ)
        → All (λ i. (suc start ≤ i) × (i < suc start + n)) l
        → All (λ i. (start ≤ i) × (i < start + suc n)) l
    within start n [] h = tt
    within start n (x ∷ l) h = ((omega arith, omega arith), within start n l h.1)

pub get_elem?-range_from :
    (start n i : ℕ) → i < n → get_elem? (range_from start n) i ≡ some (start + i)
unfolding range_from
get_elem?-range_from start zero i h = elim h [ ]
get_elem?-range_from start (suc n) zero h = ground arith
get_elem?-range_from start (suc n) (suc i) h =
    let same : suc start + i ≡ start + suc i = omega arith in
    rw (← same) (get_elem?-range_from (suc start) n i (omega arith))

module _ {ℓ} {A : Type ℓ} where
  -- `iter().enumerate()`, counted from `start`.
  unfoldable pub enumerate : ℕ → List A → List (ℕ × A)
  enumerate start [] = []
  enumerate start (x ∷ xs) = (start, x) ∷ enumerate (suc start) xs

  pub length-enumerate : (start : ℕ) (xs : List A) → length (enumerate start xs) ≡ length xs
  unfolding enumerate
  length-enumerate start [] = refl
  length-enumerate start (x ∷ xs) = ap suc (length-enumerate (suc start) xs)

  pub map-enumerate :
      (start : ℕ) (xs : List A) → map (λ p. p.0) (enumerate start xs) ≡ range_from start (length xs)
  unfolding enumerate range_from
  map-enumerate start [] = refl
  map-enumerate start (x ∷ xs) = ap (◌∷◌ start) (map-enumerate (suc start) xs)

  pub map-enumerate_values : (start : ℕ) (xs : List A) → map (λ p. p.1) (enumerate start xs) ≡ xs
  unfolding enumerate
  map-enumerate_values start [] = refl
  map-enumerate_values start (x ∷ xs) = ap (◌∷◌ x) (map-enumerate_values (suc start) xs)

  -- `Vec::remove`, which panics out of bounds; here nothing is removed then.
  unfoldable pub remove_at : ℕ → List A → List A
  remove_at i [] = []
  remove_at zero (x ∷ xs) = xs
  remove_at (suc i) (x ∷ xs) = x ∷ remove_at i xs

  pub remove_at-perm :
      (i : ℕ) (x : A) (xs : List A) → get_elem? xs i ≡ some x → Perm (x ∷ remove_at i xs) xs
  unfolding remove_at
  remove_at-perm i x [] h = cc
  remove_at-perm zero x (y ∷ xs) h =
      rw (ap₂ (λ (z : A) (w : List A). z ∷ w) {x = x} {y = y} (cc) refl) (Perm.refl _)
  remove_at-perm (suc i) x (y ∷ xs) h =
      Perm.trans (Perm.swap y x (remove_at i xs)) (Perm.cons y (remove_at-perm i x xs h))

  pub length-remove_at :
      (i : ℕ) (xs : List A) → i < length xs → suc (length (remove_at i xs)) ≡ length xs
  unfolding remove_at
  length-remove_at i [] h = elim h [ ]
  length-remove_at zero (x ∷ xs) h = refl
  length-remove_at (suc i) (x ∷ xs) h = ap suc (length-remove_at i xs (omega arith))

  pub All-remove_at {κ} : (P : A → Type κ) (i : ℕ) (xs : List A) → All P xs → All P (remove_at i xs)
  unfolding remove_at
  All-remove_at P i [] h = tt
  All-remove_at P zero (x ∷ xs) h = h.1
  All-remove_at P (suc i) (x ∷ xs) h = (h.0, All-remove_at P i xs h.1)

  pub get_elem?-some : (xs : List A) (i : ℕ) → i < length xs → (x : A) × (get_elem? xs i ≡ some x)
  get_elem?-some [] i h = elim h [ ]
  get_elem?-some (x ∷ xs) zero h = (x, refl)
  get_elem?-some (x ∷ xs) (suc i) h = get_elem?-some xs i (omega arith)

  pub get_elem?-lt : (xs : List A) (i : ℕ) (x : A) → get_elem? xs i ≡ some x → i < length xs
  get_elem?-lt [] i x h = cc
  get_elem?-lt (y ∷ xs) zero x h = omega arith
  get_elem?-lt (y ∷ xs) (suc i) x h = omega (arith, get_elem?-lt xs i x h)

  pub get_elem?-drop :
      (n : ℕ) (xs : List A) (i : ℕ) → get_elem? (drop n xs) i ≡ get_elem? xs (n + i)
  get_elem?-drop zero xs i = ap (get_elem? xs) (omega arith)
  get_elem?-drop (suc n) [] i = refl
  get_elem?-drop (suc n) (x ∷ xs) i =
      let same : suc n + i ≡ suc (n + i) = omega arith in rw same (get_elem?-drop n xs i)

  pub get_elem?-take :
      (n : ℕ) (xs : List A) (i : ℕ) → i < n → get_elem? (take n xs) i ≡ get_elem? xs i
  get_elem?-take zero xs i h = elim h [ ]
  get_elem?-take (suc n) [] i h = refl
  get_elem?-take (suc n) (x ∷ xs) zero h = refl
  get_elem?-take (suc n) (x ∷ xs) (suc i) h = get_elem?-take n xs i (omega arith)

  pub All-get_elem? {κ} :
      (P : A → Type κ) (xs : List A) (i : ℕ) (x : A) → All P xs → get_elem? xs i ≡ some x → P x
  All-get_elem? P [] i x h e = cc
  All-get_elem? P (y ∷ xs) zero x h e = subst P (cc) h.0
  All-get_elem? P (y ∷ xs) (suc i) x h e = All-get_elem? P xs i x h.1 e

module _ {A : Type 0} where
  enumerate_from-All :
      (start : ℕ) (whole xs : List A)
      → ((i : ℕ) → get_elem? whole (start + i) ≡ get_elem? xs i)
      → All {A = ℕ × A} (λ p. get_elem? whole p.0 ≡ some p.1) (enumerate start xs)
  unfolding enumerate
  enumerate_from-All start whole [] h = tt
  enumerate_from-All start whole (x ∷ xs) h =
      let here : start + 0 ≡ start = omega arith in
      (
        subst (λ k. get_elem? whole k ≡ some x) here (h 0),
        enumerate_from-All (suc start) whole xs (λ i.
            let same : start + suc i ≡ suc start + i = omega arith in
            subst (λ k. get_elem? whole k ≡ get_elem? xs i) same (h (suc i))),
      )

  -- Every pair of an enumeration is an element with its position.
  pub enumerate-All :
      (xs : List A) → All {A = ℕ × A} (λ p. get_elem? xs p.0 ≡ some p.1) (enumerate 0 xs)
  enumerate-All xs = enumerate_from-All 0 xs xs (λ i. ap (get_elem? xs) (omega arith))

  -- What an enumeration holds is an element at its position.
  pub Any-enumerate :
      (start i : ℕ) (x : A) (xs : List A)
      → Any {A = ℕ × A} (λ p. p ≡ (i, x)) (enumerate start xs)
      → (k : ℕ) × (i ≡ start + k) × (get_elem? xs k ≡ some x)
  unfolding enumerate
  Any-enumerate start i x [] h = absurd h
  Any-enumerate start i x (y ∷ xs) (inl e) =
      (0, omega (arith, ap (λ p. p.0) e), ap some (ap (λ p. p.1) e))
  Any-enumerate start i x (y ∷ xs) (inr h) =
      let (k, at, found) = Any-enumerate (suc start) i x xs h in (suc k, omega arith, found)
