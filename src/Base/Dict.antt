-- ===== src/Base/Dict.antt =====
-- A `HashMap<K, V>` as an association list. The order of the entries stands for the map's own
-- unspecified iteration order, and no theorem depends on it.
use mathlib.Core.List.{
  List, [], ◌∷◌, Mem, Nodup, Nodup-cons, Nodup-nil, mem-cons, mem-cons_self, mem-cons_of_mem,
  not-mem-nil,
}
use mathlib.Core.HLevel.{⊥_prop}
use mathlib.Core.Logic.Or
use mathlib.Core.Logic.{◌≢◌, ◌↔◌, ite}
use mathlib.Core.Option.{Option, none, some}
use mathlib.Core.Path.{◌≡◌, refl, sym, subst}
use mathlib.Core.Bool.{Bool}
use native.Mathlib.Omega.{arith}
use conflux_fl.Base.Tests.{if◌then◌else◌}

module _ {ℓ} {K V : Type ℓ} (dec : Discrete K) where
  -- `map.get(&k)`
  unfoldable pub get : K → List (K × V) → Option V
  get k [] = none
  get k ((j, v) ∷ m) = ite (dec j k) (some v) (get k m)

  -- `map.insert(k, v)`
  unfoldable pub insert : K → V → List (K × V) → List (K × V)
  insert k v [] = (k, v) ∷ []
  insert k v ((j, w) ∷ m) = ite (dec j k) ((k, v) ∷ m) ((j, w) ∷ insert k v m)

  -- `map.remove(&k)`
  unfoldable pub remove : K → List (K × V) → List (K × V)
  remove k [] = []
  remove k ((j, w) ∷ m) = let rest = remove k m in ite (dec j k) rest ((j, w) ∷ rest)

  pub get-insert :
      (k j : K) (v : V) (m : List (K × V)) → get j (insert k v m) ≡ ite (dec k j) (some v) (get j m)
  unfolding get insert
  get-insert k j v [] = refl
  get-insert k j v ((i, w) ∷ m) = ground (arith, get-insert k j v m)

  pub get-remove : (k j : K) (m : List (K × V)) → get j (remove k m) ≡ ite (dec k j) none (get j m)
  unfolding get remove
  get-remove k j [] = ground arith
  get-remove k j ((i, w) ∷ m) = ground (arith, get-remove k j m)

module _ {ℓ} {K V : Type ℓ} where
  -- `map.retain(|_, v| test(v))`
  unfoldable pub retain : (V → Bool) → List (K × V) → List (K × V)
  retain test [] = []
  retain test ((k, v) ∷ m) = let rest = retain test m in if test v then (k, v) ∷ rest else rest

  -- `map.keys()`
  unfoldable pub keys : List (K × V) → List K
  keys [] = []
  keys ((k, v) ∷ m) = k ∷ keys m

module _ {ℓ} {K V : Type ℓ} (dec : Discrete K) where
  -- Every key has one entry.
  abbrev pub IsMap : List (K × V) → Type ℓ
  IsMap [] = Unit
  IsMap ((k, v) ∷ m) = (get dec k m ≡ none) × IsMap m

  pub mem-keys_iff : (k : K) (m : List (K × V)) → Mem k (keys m) ↔ (get dec k m ≢ none)
  unfolding get keys
  mem-keys_iff k [] = (λ h. absurd (not-mem-nil h), λ h. absurd (h refl))
  mem-keys_iff k ((j, v) ∷ m) = elim (dec j k) [
    | yes e ↦ (λ _ e'. ground arith, λ _. subst (λ x. Mem x (j ∷ keys m)) e mem-cons_self)
    | no n ↦ (
      λ h e.
          Or.elim ⊥_prop (mem-cons.0 h) (λ p. n (sym p))
            (λ t. (mem-keys_iff k m).0 t (ground arith)),
      λ h. mem-cons_of_mem j ((mem-keys_iff k m).1 (λ e. h (ground arith))),
    )
  ]

  pub keys-Nodup : (m : List (K × V)) → IsMap m → Nodup (keys m)
  unfolding keys
  keys-Nodup [] h = Nodup-nil
  keys-Nodup ((k, v) ∷ m) h = Nodup-cons.1 ((λ p. (mem-keys_iff k m).0 p h.0), keys-Nodup m h.1)

  pub insert-IsMap : (k : K) (v : V) (m : List (K × V)) → IsMap m → IsMap (insert dec k v m)
  unfolding insert get
  insert-IsMap k v [] h = (refl, tt)
  insert-IsMap k v ((j, w) ∷ m) h = ground (arith, insert-IsMap k v m h.1, get-insert dec k j v m)

  pub remove-IsMap : (k : K) (m : List (K × V)) → IsMap m → IsMap (remove dec k m)
  unfolding remove
  remove-IsMap k [] h = tt
  remove-IsMap k ((j, w) ∷ m) h = ground (arith, remove-IsMap k m h.1, get-remove dec k j m)

  -- What `retain` leaves of an entry.
  abbrev pub kept : (V → Bool) → Option V → Option V
  kept test none = none
  kept test (some v) = if test v then some v else none

  get-retain_absent :
      (test : V → Bool) (k : K) (m : List (K × V))
      → get dec k m ≡ none
      → get dec k (retain test m) ≡ none
  unfolding get retain
  get-retain_absent test k [] h = refl
  get-retain_absent test k ((j, v) ∷ m) h = ground (arith, get-retain_absent test k m)

  pub get-retain :
      (test : V → Bool) (k : K) (m : List (K × V))
      → IsMap m
      → get dec k (retain test m) ≡ kept test (get dec k m)
  unfolding get retain
  get-retain test k [] h = refl
  get-retain test k ((j, v) ∷ m) h =
      ground (arith, get-retain test k m h.1, get-retain_absent test k m)

  pub retain-IsMap : (test : V → Bool) (m : List (K × V)) → IsMap m → IsMap (retain test m)
  unfolding retain
  retain-IsMap test [] h = tt
  retain-IsMap test ((k, v) ∷ m) h =
      ground (arith, retain-IsMap test m h.1, get-retain_absent test k m h.0)
