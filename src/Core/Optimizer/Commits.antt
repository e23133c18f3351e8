-- ===== src/Core/Optimizer/Commits.antt =====
-- crates/conflux-core/src/optimization.rs: what a round leaves behind in an optimizer's state.
use conflux_fl.Base.{
  ℕ, zero, suc, ◌≡◌, ◌≢◌, ◌⊎◌, ◌∙◌, inl, inr, refl, sym, ap, subst, true, Option, none, some, List,
  [], ◌∷◌, ◌++◌, text, length, ◌==◌, ==_iff, Result, ok, err, arith, Bool-cases, Option-cases,
  Result-cases,
}
use conflux_fl.Float.{F32, F64, Arithmetic, Arithmetic64, zero_f64}
use conflux_fl.Proto.{ClientDelta}
use conflux_fl.Core.{Fault, panics, refuses, AggregatorError, empty_batch, non_finite_weights}
use conflux_fl.Core.Averaging.{
  Aggregator, length-zeros, accumulate_weighted, length-accumulate_weighted,
}
use conflux_fl.Core.Batch.{
  decode_and_validate, dim_of, position_non_finite, AreFinite, position-AreFinite,
}
use conflux_fl.Core.Robust.Filters.{mean_of, add_shares}
use conflux_fl.Core.Optimizer.{
  FedOptVariant, FedOptParams, OptimizerState, filled, adapt, adapt_all, commit, validate, advance,
  optimize, aggregate_of, name, fed_opt, seeded, floor_of,
}

length-filled : (x : F64) (n : ℕ) → length (filled x n) ≡ n
unfolding filled
length-filled x zero = refl
length-filled x (suc n) = ap suc (length-filled x n)

-- The documented contract of a base method: one weight for each coordinate of the batch.
abbrev pub KeepsDimension : Option Aggregator → Type 0
KeepsDimension none = Unit {0}
KeepsDimension (some base) =
    (us : List ClientDelta) (vs : List (List F32)) (w : List F32)
    → decode_and_validate us ≡ ok vs
    → base us ≡ ok w
    → length w ≡ dim_of vs

-- One moment of either kind for each weight.
abbrev pub IsCoherent : Option OptimizerState → Type 0
IsCoherent none = Unit {0}
IsCoherent (some s) = (length s.m ≡ length s.global) × (length s.v ≡ length s.global)

-- The model that a state holds, and the last of some outcomes that is an answer.
abbrev pub model : Option OptimizerState → Option (List F32)
model none = none
model (some s) = some s.global

abbrev pub last_answer : Option (List F32) → List (Result Fault (List F32)) → Option (List F32)
last_answer before [] = before
last_answer before (ok w ∷ rest) = last_answer (some w) rest
last_answer before (err why ∷ rest) = last_answer before rest

-- No model yet, or one of another dimension.
abbrev pub IsFresh : Option OptimizerState → List F32 → Type 0
IsFresh none w = Unit {0}
IsFresh (some s) w = length s.global ≢ length w

module _ (h : Arithmetic) (ops : Arithmetic64) where
  length-add_shares :
      (share : F32) (acc : List F32) (vs : List (List F32))
      → length (add_shares h share acc vs) ≡ length acc
  unfolding add_shares
  length-add_shares share acc [] = refl
  length-add_shares share acc (v ∷ vs) =
      length-add_shares share (accumulate_weighted h acc v share) vs
      ∙ length-accumulate_weighted h acc v share

  length-mean_of : (vs : List (List F32)) → length (mean_of h vs) ≡ dim_of vs
  unfolding mean_of
  length-mean_of vs = length-add_shares _ _ vs ∙ length-zeros (dim_of vs)

  length-adapt_all :
      (variant : FedOptVariant) (params : FedOptParams) (ts ps : List F32) (ms vs : List F64)
      → length ps ≡ length ts
      → length ms ≡ length ts
      → length vs ≡ length ts
      → (ms' : List F64) × (vs' : List F64) × (ws : List F32) × (adapt_all h ops variant params ts
            ps ms vs
          ≡ ok (ms', vs', ws))
        × (length ms' ≡ length ts)
        × (length vs' ≡ length ts)
        × (length ws ≡ length ts)
  unfolding adapt_all
  length-adapt_all variant params [] ps ms vs p q r = ([], [], [], refl, refl, refl, refl)
  length-adapt_all variant params (t ∷ ts) [] ms vs p q r = absurd (omega arith)
  length-adapt_all variant params (t ∷ ts) (x ∷ ps) [] vs p q r = absurd (omega arith)
  length-adapt_all variant params (t ∷ ts) (x ∷ ps) (m ∷ ms) [] p q r = absurd (omega arith)
  length-adapt_all variant params (t ∷ ts) (x ∷ ps) (m ∷ ms) (v ∷ vs) p q r =
      let (ms', vs', ws, e, a, b, c) =
        length-adapt_all variant params ts ps ms vs (omega arith) (omega arith) (omega arith) in
      let next = adapt h ops variant params t x m v in
      (next.0 ∷ ms', next.1 ∷ vs', next.2 ∷ ws, rw e refl, ap suc a, ap suc b, ap suc c)

  -- A round that answered: its answer is the new model, and what it commits is coherent. It is finite,
  -- unless the round was the model's first.
  abbrev pub IsCommitted : Option OptimizerState → Option OptimizerState → List F32 → Type 0
  IsCommitted before after w =
      (s : OptimizerState) × (after ≡ some s)
      × (s.global ≡ w)
      × IsCoherent (some s)
      × (AreFinite w ⊎ IsFresh before w)

  -- What a round does to the state.
  abbrev pub IsSettled :
      Option Aggregator
      → List ClientDelta
      → Option OptimizerState
      → Option OptimizerState × Result Fault (List F32)
      → Type 0
  IsSettled base us before outcome =
      ((why : AggregatorError) × (outcome.1 ≡ err (refuses why)) × (outcome.0 ≡ before))
      ⊎ ((method : Aggregator) × (base ≡ some method)
          × (method us ≡ err panics)
          × (outcome.1 ≡ err panics)
          × (outcome.0 ≡ before))
      ⊎ ((w : List F32) × (outcome.1 ≡ ok w) × IsCommitted before outcome.0 w)

  module _ (variant : FedOptVariant) (params : FedOptParams) (base : Option Aggregator) where
    seed-IsSettled :
        (us : List ClientDelta) (dim : ℕ) (before : Option OptimizerState) (w : List F32)
        → length w ≡ dim
        → IsFresh before w
        → IsSettled base us before (some (seeded h ops params w dim), ok w)
    seed-IsSettled us dim before w size fresh = inr (
        inr (
          w,
          refl,
          (
            seeded h ops params w dim,
            refl,
            refl,
            (
              length-filled zero_f64 dim ∙ sym size,
              length-filled (floor_of h ops params) dim ∙ sym size,
            ),
            inr fresh,
          ),
        ))

    accepted :
        (s : OptimizerState) (ms vs : List F64) (ws : List F32)
        → position_non_finite ws ≡ none
        → length ws ≡ length s.global
        → validate h ops variant s (ms, vs, ws)
          ≡ (some (record { global = ws; m = ms; v = vs }), ok ws)
    unfolding validate commit
    accepted s ms vs ws e size =
        let same : (length s.global == length ws) ≡ true = (==_iff _ _).1 (sym size) in
        rw (e, validate, same, commit) refl

    rejected :
        (s : OptimizerState) (ms vs : List F64) (ws : List F32) (index : ℕ)
        → position_non_finite ws ≡ some index
        → (why : AggregatorError) × (validate h ops variant s (ms, vs, ws)
            ≡ (some s, err (refuses why)))
    unfolding validate name
    rejected s ms vs ws index e = (
      non_finite_weights (text "<" ++ name variant ++ text " server optimizer>") index,
      rw (e, validate) refl,
    )

    validate-IsSettled :
        (us : List ClientDelta) (s : OptimizerState) (ms vs : List F64) (ws : List F32)
        → length ms ≡ length s.global
        → length vs ≡ length s.global
        → length ws ≡ length s.global
        → IsSettled base us (some s) (validate h ops variant s (ms, vs, ws))
    validate-IsSettled us s ms vs ws a b c = elim (Option-cases (position_non_finite ws)) [
      | inl e ↦ subst (IsSettled base us (some s)) (sym (accepted s ms vs ws e c)) (
          inr (
            inr (
              ws,
              refl,
              (
                record { global = ws; m = ms; v = vs },
                refl,
                refl,
                (a ∙ sym c, b ∙ sym c),
                inl (position-AreFinite ws e),
              ),
            )))
      | inr (index, e) ↦
          let (why, f) = rejected s ms vs ws index e in
          subst (IsSettled base us (some s)) (sym f) (inl (why, refl, refl))
    ]

    advance-IsSettled :
        (us : List ClientDelta) (s : OptimizerState) (w : List F32)
        → length w ≡ length s.global
        → IsCoherent (some s)
        → IsSettled base us (some s) (advance h ops variant params s w)
    unfolding advance
    advance-IsSettled us s w size (p, q) =
        let (ms, vs, ws, e, a, b, c) =
          length-adapt_all variant params w s.global s.m s.v (sym size) (p ∙ sym size)
            (q ∙ sym size) in
        let step : advance h ops variant params s w ≡ validate h ops variant s (ms, vs, ws) =
          rw (e, advance) refl in
        subst (IsSettled base us (some s)) (sym step)
          (validate-IsSettled us s ms vs ws (a ∙ size) (b ∙ size) (c ∙ size))

    optimize-IsSettled :
        (us : List ClientDelta) (dim : ℕ) (state : Option OptimizerState) (w : List F32)
        → length w ≡ dim
        → IsCoherent state
        → IsSettled base us state (optimize h ops variant params dim state w)
    unfolding optimize
    optimize-IsSettled us dim none w size coherent = seed-IsSettled us dim none w size tt
    optimize-IsSettled us dim (some s) w size coherent =
        elim (Bool-cases (length s.global == dim)) [
          | inl e ↦
              rw e (
                advance-IsSettled us s w (size ∙ sym ((==_iff (length s.global) dim).0 e)) coherent)
          | inr e ↦ rw e (
              seed-IsSettled us dim (some s) w size
                (λ f. cc (e, (==_iff (length s.global) dim).1 (f ∙ size))))
        ]

    aggregate_of-cases :
        (us : List ClientDelta) (vs : List (List F32))
        → decode_and_validate us ≡ ok vs
        → KeepsDimension base
        → ((w : List F32) × (aggregate_of h ops base vs us ≡ ok w) × (length w ≡ dim_of vs))
          ⊎ ((why : AggregatorError) × (aggregate_of h ops base vs us ≡ err (refuses why)))
          ⊎ ((method : Aggregator) × (base ≡ some method)
              × (method us ≡ err panics)
              × (aggregate_of h ops base vs us ≡ err panics))
    unfolding aggregate_of
    aggregate_of-cases us vs valid keeps = by_base base keeps
      where
        by_base :
            (b : Option Aggregator)
            → KeepsDimension b
            → ((w : List F32) × (aggregate_of h ops b vs us ≡ ok w) × (length w ≡ dim_of vs))
              ⊎ ((why : AggregatorError) × (aggregate_of h ops b vs us ≡ err (refuses why)))
              ⊎ ((method : Aggregator) × (b ≡ some method)
                  × (method us ≡ err panics)
                  × (aggregate_of h ops b vs us ≡ err panics))
        by_base none k = inl (mean_of h vs, refl, length-mean_of vs)
        by_base (some method) k = elim (Result-cases (method us)) [
          | inl (w, e) ↦ inl (w, e, k us vs w valid e)
          | inr (refuses why, e) ↦ inr (inl (why, e))
          | inr (panics, e) ↦ inr (inr (method, refl, e, e))
        ]

    round-eq :
        (us : List ClientDelta) (vs : List (List F32)) (u : ClientDelta)
        (state : Option OptimizerState)
        → decode_and_validate (u ∷ us) ≡ ok vs
        → fed_opt h ops variant params base state (u ∷ us)
          ≡ elim (aggregate_of h ops base vs (u ∷ us))
              as (λ r. Option OptimizerState × Result Fault (List F32)) [
                | err e ↦ (state, err e)
                | ok w ↦ optimize h ops variant params (dim_of vs) state w
              ]
    unfolding fed_opt
    round-eq us vs u state e = rw (e, fed_opt) refl

    -- A round of the server optimizer either refuses its batch and leaves the state as it was, or ends
    -- by a panic of its base method and leaves the state as it was, or answers: then the answer is the
    -- model that it stores, the moments that it stores match it in length, and it is finite, unless the
    -- round was the first of its dimension. The optimizer itself does not panic.
    pub fed_opt-IsSettled :
        (us : List ClientDelta) (state : Option OptimizerState)
        → KeepsDimension base
        → IsCoherent state
        → IsSettled base us state (fed_opt h ops variant params base state us)
    unfolding fed_opt
    fed_opt-IsSettled [] state keeps coherent = inl (empty_batch, refl, refl)
    fed_opt-IsSettled (u ∷ us) state keeps coherent =
        let settled = IsSettled base (u ∷ us) state in
        elim (Result-cases (decode_and_validate (u ∷ us))) [
          | inr (why, e) ↦
              let end : fed_opt h ops variant params base state (u ∷ us)
                  ≡ (state, err (refuses why)) =
                rw (e, fed_opt) refl in
              subst settled (sym end) (inl (why, refl, refl))
          | inl (vs, e) ↦
              subst settled (sym (round-eq us vs u state e))
                (elim (aggregate_of-cases (u ∷ us) vs e keeps) [
                  | inl (w, f, size) ↦
                      rw f (optimize-IsSettled (u ∷ us) (dim_of vs) state w size coherent)
                  | inr (inl (why, f)) ↦ rw f (inl (why, refl, refl))
                  | inr (inr (method, same, panicked, f)) ↦
                      rw f (inr (inl (method, same, panicked, refl, refl)))
                ])
        ]

    -- Several rounds, each with its batch: the final state and the outcomes.
    pub rounds :
        Option OptimizerState
        → List (List ClientDelta)
        → Option OptimizerState × List (Result Fault (List F32))
    rounds state [] = (state, [])
    rounds state (us ∷ batches) =
        let (state', r) = fed_opt h ops variant params base state us in
        let (final, outcomes) = rounds state' batches in (final, r ∷ outcomes)

    round-model :
        (us : List ClientDelta) (state : Option OptimizerState)
        → KeepsDimension base
        → IsCoherent state
        → (model (fed_opt h ops variant params base state us).0
            ≡ last_answer (model state) ((fed_opt h ops variant params base state us).1 ∷ []))
          × IsCoherent (fed_opt h ops variant params base state us).0
    round-model us state keeps coherent = elim (fed_opt-IsSettled us state keeps coherent) [
      | inl (why, r, same) ↦ rw (r, same) (refl, coherent)
      | inr (inl (method, _, _, r, same)) ↦ rw (r, same) (refl, coherent)
      | inr (inr (w, r, (s, stored, global, fits, _))) ↦ rw (r, stored) (ap some global, fits)
    ]

    -- Whatever rounds a server optimizer went through, with batches valid or not, its model is the last
    -- answer that it gave, and each of its moments has an entry for every weight of it.
    pub rounds-model :
        (batches : List (List ClientDelta)) (state : Option OptimizerState)
        → KeepsDimension base
        → IsCoherent state
        → (model (rounds state batches).0 ≡ last_answer (model state) (rounds state batches).1)
          × IsCoherent (rounds state batches).0
    unfolding rounds
    rounds-model [] state keeps coherent = (refl, coherent)
    rounds-model (us ∷ batches) state keeps coherent =
        let (step, fits) = round-model us state keeps coherent in
        let (rest, final) =
          rounds-model batches (fed_opt h ops variant params base state us).0 keeps fits in
        (rest ∙ joined _ _ step, final)
      where
        joined :
            (r : Result Fault (List F32)) (l : List (Result Fault (List F32)))
            → model (fed_opt h ops variant params base state us).0
              ≡ last_answer (model state) (r ∷ [])
            → last_answer (model (fed_opt h ops variant params base state us).0) l
              ≡ last_answer (model state) (r ∷ l)
        joined (ok w) l e = ap (λ m. last_answer m l) e
        joined (err why) l e = ap (λ m. last_answer m l) e
