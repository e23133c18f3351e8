-- ===== src/Server/Admission/Intact.antt =====
-- crates/conflux-server/src/round.rs: a deployment that neither filters nor transforms passes the
-- batch on as it is.
use conflux_fl.Base.{
  ℕ, suc, ◌≡◌, refl, ap, ap₂, subst, ◌∙◌, Bool, true, false, some, List, [], ◌∷◌, map, ok, traverse,
  keep_if, all?, All, All-map, arith, Text, Text-discrete, if_neg, if_pos, Mem, Nodup,
}
use mathlib.Core.List.{mem-cons_self, mem-cons_of_mem, Nodup-cons}
use conflux_fl.Base.Dict.{get, insert, get-insert}
use conflux_fl.Float.{F32, is_finite}
use conflux_fl.Proto.{ClientDelta}
use conflux_fl.Proto.Codec.{encode_weights}
use conflux_fl.Proto.Codec
use conflux_fl.Config.{global}
use conflux_fl.Core.Batch.{decode_weights, AreFinite}
use conflux_fl.Server.Admission.{
  Decoded, decode_delta, all_finite, decode_flushed_deltas, filter_by_per_client_budget,
  apply_server_side_privacy, collect_map, contains, reencode_from, reencode_passing_deltas,
  passed_ids, admit,
}
use conflux_fl.Server.State.{Environment, AppState}

-- Every delta carries the encoding of finite weights: those beside it.
abbrev pub IsSound : List ClientDelta → List Decoded → Type 0
IsSound [] [] = Unit {0}
IsSound [] (u ∷ us) = ⊥
IsSound (d ∷ ds) [] = ⊥
IsSound (d ∷ ds) ((id, w) ∷ us) =
    (d.client_id ≡ id)
    × (Codec.decode_weights d.weights ≡ ok w)
    × AreFinite w
    × (encode_weights w ≡ d.weights)
    × IsSound ds us

traverse-IsSound :
    (ds : List ClientDelta) (us : List Decoded) → IsSound ds us → traverse decode_delta ds ≡ ok us
unfolding traverse decode_delta decode_weights
traverse-IsSound [] [] s = refl
traverse-IsSound [] (u ∷ us) s = absurd s
traverse-IsSound (d ∷ ds) [] s = absurd s
traverse-IsSound (d ∷ ds) ((id, w) ∷ us) s = ground (arith, traverse-IsSound ds us)

all?_finite : (w : List F32) → AreFinite w → all? is_finite w ≡ true
unfolding all?
all?_finite [] h = refl
all?_finite (x ∷ w) h = ground (arith, all?_finite w h.1)

keep_if-IsSound :
    (ds : List ClientDelta) (us : List Decoded) → IsSound ds us → keep_if all_finite us ≡ us
unfolding keep_if
keep_if-IsSound [] [] s = refl
keep_if-IsSound [] (u ∷ us) s = absurd s
keep_if-IsSound (d ∷ ds) [] s = absurd s
keep_if-IsSound (d ∷ ds) ((id, w) ∷ us) (e, h, f, b, s) =
    rw (all?_finite w f) (ap (◌∷◌ (id, w)) (keep_if-IsSound ds us s))

decode_flushed_deltas-IsSound :
    (ds : List ClientDelta) (us : List Decoded) → IsSound ds us → decode_flushed_deltas ds ≡ ok us
unfolding decode_flushed_deltas
decode_flushed_deltas-IsSound ds us s = rw (traverse-IsSound ds us s, keep_if-IsSound ds us s) refl

-- A client that is not among the updates keeps its entry.
get-collect_map_absent :
    (id : Text) (us m : List Decoded)
    → ¬ Mem id (map (λ u. u.0) us)
    → get Text-discrete id (collect_map m us) ≡ get Text-discrete id m
unfolding collect_map
get-collect_map_absent id [] m n = refl
get-collect_map_absent id ((j, v) ∷ us) m n =
    get-collect_map_absent id us (insert Text-discrete j v m) (λ t. n (mem-cons_of_mem j t))
    ∙ get-insert Text-discrete j id v m
    ∙ if_neg (Text-discrete j id)
        (λ e. n (subst (λ x. Mem x (j ∷ map (λ u. u.0) us)) e mem-cons_self)) (some v)
        (get Text-discrete id m)

get-collect_map :
    (us m : List Decoded)
    → Nodup (map (λ u. u.0) us)
    → All (λ u. get Text-discrete u.0 (collect_map m us) ≡ some u.1) us
unfolding collect_map
get-collect_map [] m d = tt
get-collect_map ((id, w) ∷ us) m d = (
  get-collect_map_absent id us (insert Text-discrete id w m) (Nodup-cons.0 d).0
      ∙ get-insert Text-discrete id id w m
      ∙ if_pos (Text-discrete id id) refl (some w) (get Text-discrete id m),
  get-collect_map us (insert Text-discrete id w m) (Nodup-cons.0 d).1,
)

contains_cons :
    (x id : Text) (names : List Text) → contains names id ≡ true → contains (x ∷ names) id ≡ true
unfolding contains
contains_cons x id names h = ground (arith, h)

contains_names : (us : List Decoded) → All (λ u. contains (map (λ v. v.0) us) u.0 ≡ true) us
unfolding contains
contains_names [] = tt
contains_names ((id, w) ∷ us) =
    let names = map (λ (v : Decoded). v.0) us in
    (
      if_pos (Text-discrete id id) refl true (contains names id),
      All-map _ (λ u. contains (id ∷ names) u.0 ≡ true) us (λ u h. contains_cons id u.0 names h)
          (contains_names us),
    )

reencode_from-IsSound :
    (m : List Decoded) (passed : Text → Bool) (ds : List ClientDelta) (us : List Decoded)
    → IsSound ds us
    → All (λ u. get Text-discrete u.0 m ≡ some u.1) us
    → All (λ u. passed u.0 ≡ true) us
    → reencode_from m passed ds ≡ ds
reencode_from-IsSound m passed [] [] s g p = refl
reencode_from-IsSound m passed [] (u ∷ us) s g p = absurd s
reencode_from-IsSound m passed (d ∷ ds) [] s g p = absurd s
reencode_from-IsSound m passed (d ∷ ds) ((id, w) ∷ us) (e, h, f, b, s) g p =
    let passes : passed d.client_id ≡ true = ap passed e ∙ p.0 in
    let found : get Text-discrete d.client_id m ≡ some w =
      ap (λ x. get Text-discrete x m) e ∙ g.0 in
    rw (passes, found, reencode_from-IsSound m passed ds us s g.1 p.1)
      (ap (λ x. record d { weights = x } ∷ ds) b)

module _ (env : Environment) where
  untransformed :
      (round n : ℕ) (us : List Decoded)
      → ((k : ℕ) (w : List F32) → env.transform round k w ≡ w)
      → apply_server_side_privacy env round n us ≡ us
  unfolding apply_server_side_privacy
  untransformed round n [] h = refl
  untransformed round n ((id, w) ∷ us) h =
      ap₂ (λ x rest. (id, x) ∷ rest) (h n w) (untransformed round (suc n) us h)

  -- No interference where none is asked for: with experiment-wide accounting, the reputation filter
  -- off and a privacy mechanism that leaves vectors as they are, a batch of sound updates of different
  -- clients reaches the aggregator exactly as it was submitted.
  pub admit-IsSound :
      (s : AppState env) (round : ℕ) (ds : List ClientDelta) (us : List Decoded)
      → IsSound ds us
      → Nodup (map (λ u. u.0) us)
      → s.config.accounting_scope ≡ global
      → s.config.reputation_filter_enabled ≡ false
      → ((k : ℕ) (w : List F32) → env.transform round k w ≡ w)
      → admit env s round ds ≡ ok ds
  unfolding admit filter_by_per_client_budget passed_ids reencode_passing_deltas
  admit-IsSound s round ds us sound distinct scope off same =
      let decoded = decode_flushed_deltas-IsSound ds us sound in
      let plain = untransformed round 0 us same in
      rw (decoded, scope, plain, off)
        (ap ok (
          reencode_from-IsSound (collect_map [] us) _ ds us sound (get-collect_map us [] distinct)
            (contains_names us)))
