-- ===== src/Server/Admission/Origin.antt =====
-- crates/conflux-server/src/round.rs: where the weights that reach the aggregator come from.
use conflux_fl.Base.{
  ℕ, suc, ◌≡◌, refl, ap₂, subst, Bool, true, false, Bool-cases, Option, some, Option-cases, List,
  [], ◌∷◌, ok, bind-ok, traverse, keep_if, all?, All, All-map, Any, arith, Text, Text-discrete, ite,
  inl, inr, ◌⊎◌,
}
use conflux_fl.Base.Dict.{get, insert}
use conflux_fl.Float.{F32, is_finite}
use conflux_fl.Proto.{ClientDelta}
use conflux_fl.Proto.Codec.{encode_weights}
use conflux_fl.Proto.Codec
use conflux_fl.Config.{AccountingScope, per_client, global, BudgetExhaustedAction}
use conflux_fl.Core.Batch.{decode_weights, AreFinite}
use conflux_fl.Privacy.Accountant.{budget_exhausted_for_client}
use conflux_fl.Server.Admission.{
  Decoded, decode_delta, all_finite, decode_flushed_deltas, keep_within_budget,
  filter_by_per_client_budget, is_halt, apply_server_side_privacy, collect_map, reencode_from,
  reencode_passing_deltas, passed_ids, admit,
}
use conflux_fl.Server.State.{Environment, AppState}

-- A client's own submission, decoded and finite.
abbrev pub IsOwn : List ClientDelta → Text → List F32 → Type 0
IsOwn deltas id w =
    Any (λ d. (d.client_id ≡ id) × (Codec.decode_weights d.weights ≡ ok w)) deltas × AreFinite w

abbrev pub AllDecoded : (Text → List F32 → Type 0) → List Decoded → Type 0
AllDecoded P = All λ u. P u.0 u.1

AllDecoded-map :
    (P Q : Text → List F32 → Type 0) (us : List Decoded)
    → ((id : Text) (w : List F32) → P id w → Q id w)
    → AllDecoded P us
    → AllDecoded Q us
AllDecoded-map P Q [] f h = tt
AllDecoded-map P Q ((id, w) ∷ us) f h = (f id w h.0, AllDecoded-map P Q us f h.1)

Submitted : List ClientDelta → Text → List F32 → Type 0
Submitted deltas id w =
    Any (λ d. (d.client_id ≡ id) × (Codec.decode_weights d.weights ≡ ok w)) deltas

decode_delta-Codec :
    (d : ClientDelta) (id : Text) (w : List F32)
    → decode_delta d ≡ ok (id, w)
    → (d.client_id ≡ id) × (Codec.decode_weights d.weights ≡ ok w)
unfolding decode_delta decode_weights
decode_delta-Codec d id w h = ground arith

traverse-Submitted :
    (ds : List ClientDelta) (us : List Decoded)
    → traverse decode_delta ds ≡ ok us
    → AllDecoded (Submitted ds) us
unfolding traverse Submitted
traverse-Submitted [] [] h = tt
traverse-Submitted [] (u ∷ us) h = cc
traverse-Submitted (d ∷ ds) us h =
    let (u, first, h₁) = bind-ok (decode_delta d) _ h in
    let (vs, rest, h₂) = bind-ok (traverse decode_delta ds) _ h₁ in
    let e : u ∷ vs ≡ us = cc in
    subst (AllDecoded (Submitted (d ∷ ds))) e (
      inl (decode_delta-Codec d u.0 u.1 first),
      AllDecoded-map (Submitted ds) (Submitted (d ∷ ds)) vs (λ id w s. inr s)
          (traverse-Submitted ds vs rest),
    )

all?-AreFinite : (ws : List F32) → all? is_finite ws ≡ true → AreFinite ws
unfolding all?
all?-AreFinite [] h = tt
all?-AreFinite (w ∷ ws) h = ground (arith, all?-AreFinite ws)

keep_if-AreFinite :
    (P : Text → List F32 → Type 0) (us : List Decoded)
    → AllDecoded P us
    → AllDecoded (λ id w. P id w × AreFinite w) (keep_if all_finite us)
unfolding keep_if
keep_if-AreFinite P [] h = tt
keep_if-AreFinite P ((id, w) ∷ us) h = elim (Bool-cases (all? is_finite w)) [
  | inl e ↦ rw (keep_if, e) ((h.0, all?-AreFinite w e), keep_if-AreFinite P us h.1)
  | inr e ↦ rw (keep_if, e) (keep_if-AreFinite P us h.1)
]

decode_flushed_deltas-IsOwn :
    (ds : List ClientDelta) (us : List Decoded)
    → decode_flushed_deltas ds ≡ ok us
    → AllDecoded (IsOwn ds) us
unfolding decode_flushed_deltas Submitted
decode_flushed_deltas-IsOwn ds us h =
    let (vs, decoded, kept) = bind-ok (traverse decode_delta ds) _ h in
    let e : keep_if all_finite vs ≡ us = cc in
    subst (AllDecoded (IsOwn ds)) e
      (keep_if-AreFinite (Submitted ds) vs (traverse-Submitted ds vs decoded))

keep_within_budget-kept :
    (P : Text → List F32 → Type 0) (action : BudgetExhaustedAction) (exhausted : Text → Bool)
    (us vs : List Decoded)
    → AllDecoded P us
    → keep_within_budget action exhausted us ≡ ok vs
    → AllDecoded (λ id w. P id w × (exhausted id ≡ false)) vs
unfolding keep_within_budget
keep_within_budget-kept P action exhausted [] [] h k = tt
keep_within_budget-kept P action exhausted [] (v ∷ vs) h k = cc
keep_within_budget-kept P action exhausted ((id, w) ∷ us) vs h k =
    elim (Bool-cases (exhausted id)) [
      | inl e ↦ elim (Bool-cases (is_halt action)) [
        | inl e' ↦ absurd (let k' = rw (e, e') at k in cc)
        | inr e' ↦ keep_within_budget-kept P action exhausted us vs h.1 (rw (e, e') at k)
      ]
      | inr e ↦
          let (rest, kept, same) = bind-ok (keep_within_budget action exhausted us) _ (rw e at k) in
          let eq : (id, w) ∷ rest ≡ vs = cc in
          subst (AllDecoded (λ id w. P id w × (exhausted id ≡ false))) eq
            ((h.0, e), keep_within_budget-kept P action exhausted us rest h.1 kept)
    ]

ite-AllDecoded :
    (P : Text → List F32 → Type 0) {R : Type 0} (d : Dec R) (us vs : List Decoded)
    → AllDecoded P us
    → AllDecoded P vs
    → AllDecoded P (ite d us vs)
ite-AllDecoded P (yes r) us vs h k = h
ite-AllDecoded P (no n) us vs h k = k

found_or :
    (P : Text → List F32 → Type 0) {j id : Text} (d : Dec (j ≡ id)) (v w : List F32)
    (o : Option (List F32))
    → P j v
    → (o ≡ some w → P id w)
    → ite d (some v) o ≡ some w
    → P id w
found_or P (yes r) v w o p q e = let same : v ≡ w = cc in subst (λ x. x) (ap₂ P r same) p
found_or P (no n) v w o p q e = q e

-- A property of what the last map holds.
insert-AllDecoded :
    (P : Text → List F32 → Type 0) (id : Text) (w : List F32) (m : List Decoded)
    → P id w
    → AllDecoded P m
    → AllDecoded P (insert Text-discrete id w m)
unfolding insert
insert-AllDecoded P id w [] p h = (p, tt)
insert-AllDecoded P id w ((j, v) ∷ m) p h =
    ite-AllDecoded P (Text-discrete j id) ((id, w) ∷ m) ((j, v) ∷ insert Text-discrete id w m)
      (p, h.1) (h.0, insert-AllDecoded P id w m p h.1)

collect_map-AllDecoded :
    (P : Text → List F32 → Type 0) (us m : List Decoded)
    → AllDecoded P m
    → AllDecoded P us
    → AllDecoded P (collect_map m us)
unfolding collect_map
collect_map-AllDecoded P [] m h k = h
collect_map-AllDecoded P ((id, w) ∷ us) m h k =
    collect_map-AllDecoded P us (insert Text-discrete id w m) (insert-AllDecoded P id w m k.0 h) k.1

get-AllDecoded :
    (P : Text → List F32 → Type 0) (id : Text) (w : List F32) (m : List Decoded)
    → AllDecoded P m
    → get Text-discrete id m ≡ some w
    → P id w
unfolding get
get-AllDecoded P id w [] h e = cc
get-AllDecoded P id w ((j, v) ∷ m) h e =
    found_or P (Text-discrete j id) v w (get Text-discrete id m) h.0 (get-AllDecoded P id w m h.1) e

-- A rebuilt delta: one of those submitted, everything kept but its weights, which stand for a vector
-- that has the property.
abbrev pub IsRebuilt : (Text → List F32 → Type 0) → List ClientDelta → ClientDelta → Type 0
IsRebuilt P deltas d =
    Any
      (λ sub. (w : List F32) × P sub.client_id w × (d ≡ record sub { weights = encode_weights w }))
      deltas

reencode_from-IsRebuilt :
    (P : Text → List F32 → Type 0) (by_client : List Decoded) (passed : Text → Bool)
    (ds : List ClientDelta)
    → AllDecoded P by_client
    → All (IsRebuilt P ds) (reencode_from by_client passed ds)
reencode_from-IsRebuilt P m passed [] h = tt
reencode_from-IsRebuilt P m passed (d ∷ ds) h =
    let rest =
      All-map (IsRebuilt P ds) (IsRebuilt P (d ∷ ds)) (reencode_from m passed ds) (λ x r. inr r)
        (reencode_from-IsRebuilt P m passed ds h) in
    elim (Bool-cases (passed d.client_id)) [
      | inl e ↦ elim (Option-cases (get Text-discrete d.client_id m)) [
        | inl e' ↦ rw (e, e') rest
        | inr (w, found) ↦
            rw (e, found) (inl (w, get-AllDecoded P d.client_id w m h found, refl), rest)
      ]
      | inr e ↦ rw e rest
    ]

scope-cases : (a : AccountingScope) → (a ≡ per_client) ⊎ (a ≡ global)
scope-cases per_client = inl refl
scope-cases global = inr refl

module _ (env : Environment) where
  -- What privacy makes of a vector in a round, at some position of the batch.
  abbrev pub IsTransformed : ℕ → (Text → List F32 → Type 0) → Text → List F32 → Type 0
  IsTransformed round P id w = (n : ℕ) × (v : List F32) × P id v × (w ≡ env.transform round n v)

  transform-AllDecoded :
      (round n : ℕ) (P : Text → List F32 → Type 0) (us : List Decoded)
      → AllDecoded P us
      → AllDecoded (IsTransformed round P) (apply_server_side_privacy env round n us)
  unfolding apply_server_side_privacy
  transform-AllDecoded round n P [] h = tt
  transform-AllDecoded round n P ((id, v) ∷ us) h =
      ((n, v, h.0, refl), transform-AllDecoded round (suc n) P us h.1)

  -- A vector that may enter a round: a client's own, finite, and of a client that has budget left
  -- where budgets are each client's own.
  abbrev pub MayEnter : AppState env → List ClientDelta → Text → List F32 → Type 0
  MayEnter s deltas id w =
      IsOwn deltas id w
      × ((s.config.accounting_scope ≡ global)
          ⊎ (budget_exhausted_for_client env.arithmetic64 env.iteration id s.config.target_epsilon
                s.config.delta s.accountant
              ≡ false))

  filter-MayEnter :
      (s : AppState env) (deltas : List ClientDelta) (us vs : List Decoded)
      → AllDecoded (IsOwn deltas) us
      → filter_by_per_client_budget env s us ≡ ok vs
      → AllDecoded (MayEnter s deltas) vs
  unfolding filter_by_per_client_budget
  filter-MayEnter s deltas us vs own h = elim (scope-cases s.config.accounting_scope) [
    | inl e ↦
        AllDecoded-map _ (MayEnter s deltas) vs (λ id w p. (p.0, inr p.1))
          (keep_within_budget-kept (IsOwn deltas) s.config.budget_exhausted_action _ us vs own
            (rw e at h))
    | inr e ↦
        let same : us ≡ vs = (let h' = rw e at h in cc) in
        AllDecoded-map _ (MayEnter s deltas) vs (λ id w p. (p, inl e))
          (subst (AllDecoded (IsOwn deltas)) same own)
  ]

  -- Every delta that the aggregator is given is one that was submitted, with all that its client
  -- reported but the weights. These are the encoding of what privacy makes of a vector that the same
  -- client submitted, in this or in another delta of the batch, and that is finite; under per-client
  -- accounting the client has not exhausted its own budget.
  pub admit-MayEnter :
      (s : AppState env) (round : ℕ) (deltas batch : List ClientDelta)
      → admit env s round deltas ≡ ok batch
      → All (IsRebuilt (IsTransformed round (MayEnter s deltas)) deltas) batch
  unfolding admit reencode_passing_deltas
  admit-MayEnter s round deltas batch h =
      let (decoded, own, h₁) = bind-ok (decode_flushed_deltas deltas) _ h in
      let (budgeted, within, h₂) = bind-ok (filter_by_per_client_budget env s decoded) _ h₁ in
      let entered =
        filter-MayEnter s deltas decoded budgeted (decode_flushed_deltas-IsOwn deltas decoded own)
          within in
      let transformed = apply_server_side_privacy env round 0 budgeted in
      let same : reencode_passing_deltas deltas transformed (passed_ids env s transformed) ≡ batch =
        cc in
      subst (All (IsRebuilt (IsTransformed round (MayEnter s deltas)) deltas)) same (
        reencode_from-IsRebuilt _ (collect_map [] transformed) _ deltas (
          collect_map-AllDecoded _ transformed [] tt
            (transform-AllDecoded round 0 _ budgeted entered)))
