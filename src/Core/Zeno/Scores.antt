-- ===== src/Core/Zeno/Scores.antt =====
-- crates/conflux-core/src/trusted.rs: the score that Zeno gives each candidate of a batch.
use conflux_fl.Base.{
  ℕ, suc, ◌≡◌, ◌≢◌, ◌⊎◌, inl, inr, refl, sym, ap, subst, ◌∙◌, true, false, Bool-cases, Option, none,
  some, List, [], ◌∷◌, map, arith, length, All, All-map, ok, Text, Text-discrete, Nodup, Mem, ite,
  if_neg,
}
use mathlib.Core.List.{Nodup-cons, mem-cons_self, mem-cons_of_mem}
use conflux_fl.Base.Dict.{get, insert, remove, get-insert, get-remove}
use conflux_fl.Float.{F32, F64, Arithmetic, Arithmetic64}
use conflux_fl.Proto.{ClientDelta}
use conflux_fl.Core.Zeno.{collect_scores, squared_gaps, suspicion, suspicions, neg_infinity}

-- The last score that the list gives a client.
abbrev pub last_score : Text → List (Text × F32) → Option F32
last_score id [] = none
last_score id ((j, score) ∷ entries) = elim (last_score id entries) [
  | some later ↦ some later
  | none ↦ ite (Text-discrete j id) (some score) none
]

abbrev or_else : Option F32 → Option F32 → Option F32
or_else (some x) y = some x
or_else none y = y

get-collect_scores :
    (id : Text) (entries m : List (Text × F32))
    → get Text-discrete id (collect_scores entries m)
      ≡ or_else (last_score id entries) (get Text-discrete id m)
unfolding collect_scores
get-collect_scores id [] m = refl
get-collect_scores id ((j, score) ∷ entries) m = ground (
  arith,
  get-collect_scores id entries (insert Text-discrete j score m),
  get-insert Text-discrete j id score m,
)

-- Every client of the batch is given a score.
abbrev pub AreScored : List (Text × F32) → List ClientDelta → Type 0
AreScored entries = All (λ u. (x : F32) × (last_score u.client_id entries ≡ some x))

abbrev Holds : List (Text × F32) → List (Text × F32) → ClientDelta → Type 0
Holds entries m u =
    (x : F32) × (last_score u.client_id entries ≡ some x)
    × (get Text-discrete u.client_id m ≡ some x)

collect_scores-Holds :
    (entries : List (Text × F32)) (us : List ClientDelta)
    → AreScored entries us
    → All (Holds entries (collect_scores entries [])) us
unfolding get
collect_scores-Holds entries us =
    All-map _ _ us
      (λ u (x, e). (x, e, get-collect_scores u.client_id entries [] ∙ ap (λ o. or_else o none) e))

-- What one client has used up, the others still have.
remove-Holds :
    (id : Text) (entries m : List (Text × F32)) (us : List ClientDelta)
    → ¬ Mem id (map (λ u. u.client_id) us)
    → All (Holds entries m) us
    → All (Holds entries (remove Text-discrete id m)) us
remove-Holds id entries m [] new h = tt
remove-Holds id entries m (u ∷ us) new ((x, e, e'), rest) =
    let other : id ≢ u.client_id = (λ same.
      new (subst (λ j. Mem j (map (λ v. v.client_id) (u ∷ us))) (sym same) mem-cons_self)) in
    (
      (
        x,
        e,
        get-remove Text-discrete id u.client_id m
            ∙ if_neg (Text-discrete id u.client_id) other _ _
            ∙ e',
      ),
      remove-Holds id entries m us (λ later. new (mem-cons_of_mem u.client_id later)) rest,
    )

module _ (h : Arithmetic) (d : Arithmetic64) where
  -- The differences of two vectors, coordinate by coordinate.
  abbrev pub gaps : List F32 → List F32 → List F64
  gaps [] global = []
  gaps (y ∷ w) [] = []
  gaps (y ∷ w) (x ∷ global) = d.sub (d.of_f32 y) (d.of_f32 x) ∷ gaps w global

  squared_gaps-gaps :
      (w global : List F32) → squared_gaps h d w global ≡ map (λ g. d.mul g g) (gaps w global)
  unfolding squared_gaps
  squared_gaps-gaps [] global = refl
  squared_gaps-gaps (y ∷ w) [] = refl
  squared_gaps-gaps (y ∷ w) (x ∷ global) =
      ap (◌∷◌ (let g = d.sub (d.of_f32 y) (d.of_f32 x) in d.mul g g)) (squared_gaps-gaps w global)

  -- The score of a candidate: what it was given, less the weighted squared distance from the model; one
  -- that is not finite counts as the lowest value of all.
  abbrev pub IsSuspicion : F32 → List F32 → F32 → List F32 → F64 → Type 0
  IsSuspicion rho global x w s =
      let sds =
        d.sub (d.of_f32 x) (d.mul (d.of_f32 rho) (d.sum (map (λ g. d.mul g g) (gaps w global)))) in
      ((d.finite sds ≡ true) × (s ≡ sds)) ⊎ ((d.finite sds ≡ false) × (s ≡ neg_infinity))

  suspicion-IsSuspicion :
      (rho : F32) (global : List F32) (x : F32) (w : List F32)
      → IsSuspicion rho global x w (suspicion h d rho global x w)
  unfolding suspicion
  suspicion-IsSuspicion rho global x w =
      rw (← squared_gaps-gaps w global)
        (elim (Bool-cases (d.finite _)) [ inl e ↦ inl (e, rw e refl) | inr e ↦ inr (e, rw e refl) ])

  -- The scores of a batch, each with its position, in order.
  abbrev pub AreSuspicions :
      F32
      → List F32
      → List (Text × F32)
      → ℕ
      → List ClientDelta
      → List (List F32)
      → List (ℕ × F64)
      → Type 0
  AreSuspicions rho global entries i [] [] [] = Unit
  AreSuspicions rho global entries i (u ∷ us) (w ∷ ws) ((j, s) ∷ ranked) =
      (j ≡ i)
      × ((x : F32) × (last_score u.client_id entries ≡ some x) × IsSuspicion rho global x w s)
      × AreSuspicions rho global entries (suc i) us ws ranked
  AreSuspicions rho global entries i us ws ranked = ⊥

  suspicions-from :
      (rho : F32) (global : List F32) (entries m : List (Text × F32)) (i : ℕ)
      (us : List ClientDelta) (ws : List (List F32))
      → length us ≡ length ws
      → Nodup (map (λ u. u.client_id) us)
      → All (Holds entries m) us
      → (ranked : List (ℕ × F64)) × (suspicions h d rho global i us ws m ≡ ok ranked)
        × AreSuspicions rho global entries i us ws ranked
  unfolding suspicions
  suspicions-from rho global entries m i [] [] n distinct held = ([], refl, tt)
  suspicions-from rho global entries m i [] (w ∷ ws) n distinct held = absurd (omega (arith, n))
  suspicions-from rho global entries m i (u ∷ us) [] n distinct held = absurd (omega (arith, n))
  suspicions-from rho global entries m i (u ∷ us) (w ∷ ws) n distinct ((x, e, e'), held) =
      let (new, others) = Nodup-cons.0 distinct in
      let (ranked, found, meaning) =
        suspicions-from rho global entries (remove Text-discrete u.client_id m) (suc i) us ws
          (omega (arith, n)) others (remove-Holds u.client_id entries m us new held) in
      (
        (i, suspicion h d rho global x w) ∷ ranked,
        rw (e', found) refl,
        (refl, (x, e, suspicion-IsSuspicion rho global x w), meaning),
      )

  -- A batch of distinct clients, each with a score, is scored whole.
  pub suspicions-AreSuspicions :
      (rho : F32) (global : List F32) (entries : List (Text × F32)) (us : List ClientDelta)
      (ws : List (List F32))
      → length us ≡ length ws
      → Nodup (map (λ u. u.client_id) us)
      → AreScored entries us
      → (ranked : List (ℕ × F64)) × (suspicions h d rho global 0 us ws (collect_scores entries [])
          ≡ ok ranked)
        × AreSuspicions rho global entries 0 us ws ranked
  suspicions-AreSuspicions rho global entries us ws n distinct given =
      suspicions-from rho global entries (collect_scores entries []) 0 us ws n distinct
        (collect_scores-Holds entries us given)
