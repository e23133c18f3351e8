-- ===== src/Base/Fallible.antt =====
-- `Result<T, E>`: the outcome of a fallible call, with the `?` operator as bind.
use mathlib.Core.Path.{◌≡◌, refl, ap}
use mathlib.Core.List.{List, [], ◌∷◌}
use Prim.Native.Nat.{suc}
use mathlib.Core.Logic.{◌⊎◌, inl, inr}
use conflux_fl.Base.Lists.{All, length}
use mathlib.Core.Option.{Option, none, some}

pub data Result {ℓ κ} (E : Type ℓ) (A : Type κ) : Type (ℓ ⊔ κ) where
  ok : A → Result E A
  err : E → Result E A

-- `?`: an error ends the chain.
module _ {ℓ κ μ} {E : Type ℓ} {A : Type κ} {B : Type μ} where
  infixl 5 ◌>>=◌
  abbrev pub ◌>>=◌ : Result E A → (A → Result E B) → Result E B
  err why >>= next = err why
  ok value >>= next = next value

module _ {ℓ κ} {E : Type ℓ} {B : Type κ} where
  infixl 5 ◌>>◌
  abbrev pub ◌>>◌ : Result E (Unit {0}) → Result E B → Result E B
  first >> next = first >>= λ done. next

module _ {ℓ κ} {E : Type ℓ} {A : Type κ} where
  -- `map_err`
  abbrev pub map_err {μ} : {F : Type μ} → (E → F) → Result E A → Result F A
  map_err g (ok a) = ok a
  map_err g (err e) = err (g e)

  -- `ok_or`
  abbrev pub ok_or : Option A → E → Result E A
  ok_or none e = err e
  ok_or (some a) e = ok a

  -- A chain that succeeds: its first step did, with a value, and so did what follows on this value.
  pub bind-ok {μ} :
      {B : Type μ} (first : Result E A) (next : A → Result E B) {result : B}
      → first >>= next ≡ ok result
      → (value : A) × (first ≡ ok value) × (next value ≡ ok result)
  bind-ok (err why) next chain = cc
  bind-ok (ok value) next chain = (value, refl, chain)

pub Result-cases {ℓ κ} :
    {E : Type ℓ} {A : Type κ} (r : Result E A) → ((a : A) × (r ≡ ok a)) ⊎ ((e : E) × (r ≡ err e))
Result-cases (ok a) = inl (a, refl)
Result-cases (err e) = inr (e, refl)

-- `iter().map(f).collect::<Result<Vec<_>, _>>()`: stops at the first error.
module _ {ℓ κ μ} {E : Type ℓ} {A : Type κ} {B : Type μ} where
  unfoldable pub traverse : (A → Result E B) → List A → Result E (List B)
  traverse f [] = ok []
  traverse f (x ∷ xs) = do y ← f x; ys ← traverse f xs; ok (y ∷ ys)

  -- Where every call succeeds, the whole does, with a result for each.
  pub traverse-All {ρ σ} :
      (f : A → Result E B) (P : A → Type ρ) (Q : B → Type σ)
      → ((x : A) → P x → (y : B) × (f x ≡ ok y) × Q y)
      → (xs : List A) → All P xs
      → (ys : List B) × (traverse f xs ≡ ok ys) × (length ys ≡ length xs) × All Q ys
  unfolding traverse
  traverse-All f P Q good [] h = ([], refl, refl, tt)
  traverse-All f P Q good (x ∷ xs) h =
      let (y, e, q) = good x h.0 in
      let (ys, es, l, qs) = traverse-All f P Q good xs h.1 in
      (y ∷ ys, rw e (rw es refl), ap suc l, (q, qs))
