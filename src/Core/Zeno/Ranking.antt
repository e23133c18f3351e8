-- ===== src/Core/Zeno/Ranking.antt =====
-- crates/conflux-core/src/trusted.rs: which candidates Zeno keeps, and that scores serve one batch.
use conflux_fl.Base.{
  ℕ, zero, suc, ◌-◌, ◌≡◌, ◌==◌, refl, sym, ap, subst, ◌∙◌, ◌⊎◌, true, Option, none, some, List, [],
  ◌∷◌, ◌++◌, map, arith, length, length-map, length-take, take, drop, take-append-drop, All-drop,
  All, ok, err, ok_or, bind-ok, Perm, Text, Text-discrete, Nodup,
}
use conflux_fl.Base.Dict.{get, remove}
use mathlib.Core.List.{map-append}
use mathlib.Core.List.Perm
use conflux_fl.Base.Positions.{range_from, length-range_from}
use conflux_fl.Base.Sort.{
  sort_by, sort_by-perm, sort_by-IsSorted, IsSorted, IsSorted-first, IsSorted-tail, length-sort_by,
}
use conflux_fl.Config.Preconditions.{byzantine_count}
use conflux_fl.Float.{F32, F64, Arithmetic, Arithmetic64}
use conflux_fl.Proto.{ClientDelta}
use conflux_fl.Core.{refuses, missing_candidate_scores}
use conflux_fl.Core.Batch.{decode_and_validate, decode_and_validate_iff}
use conflux_fl.Core.Robust.Numbers.{IsFit-length}
use conflux_fl.Core.Robust.Filters.{picked}
use conflux_fl.Core.Robust.Selection.{picked-perm}
use conflux_fl.Core.Zeno.{
  CandidateScores, total_le, trusted_first, collect_scores, suspicion, suspicions, kept_mean,
  most_trusted, rank_and_average, zeno,
}
use conflux_fl.Core.Zeno.Scores.{AreScored, AreSuspicions, suspicions-AreSuspicions}

total_le_total : (a b : F64) → (total_le a b ≡ true) ⊎ (total_le b a ≡ true)
unfolding total_le
total_le_total a b = ground arith

total_le_trans : (a b c : F64) → total_le a b ≡ true → total_le b c ≡ true → total_le a c ≡ true
unfolding total_le
total_le_trans a b c p q = ground arith

-- Every candidate of the first list is scored at least as high as every one of the second.
abbrev pub Outscores : List (ℕ × F64) → List (ℕ × F64) → Type 0
Outscores kept others = All (λ p. All (λ q. total_le q.1 p.1 ≡ true) others) kept

split-Outscores :
    (m : ℕ) (l : List (ℕ × F64)) → IsSorted trusted_first l → Outscores (take m l) (drop m l)
split-Outscores zero l s = tt
split-Outscores (suc m) [] s = tt
split-Outscores (suc m) (p ∷ l) s = (
  All-drop _ m l (
      IsSorted-first trusted_first (λ p q. total_le_total q.1 p.1)
        (λ p q r a b. total_le_trans r.1 q.1 p.1 b a) p l s),
  split-Outscores m l (IsSorted-tail trusted_first p l s),
)

module _ (h : Arithmetic) (d : Arithmetic64) where
  suspicions-range_from :
      (rho : F32) (global : List F32) (i : ℕ) (us : List ClientDelta) (ws : List (List F32))
      (by_client : List (Text × F32)) (ranked : List (ℕ × F64))
      → length us ≡ length ws
      → suspicions h d rho global i us ws by_client ≡ ok ranked
      → map (λ p. p.0) ranked ≡ range_from i (length ws)
  unfolding suspicions range_from
  suspicions-range_from rho global i [] [] m ranked n e = ground arith
  suspicions-range_from rho global i [] (w ∷ ws) m ranked n e = ground arith
  suspicions-range_from rho global i (u ∷ us) [] m ranked n e = ground arith
  suspicions-range_from rho global i (u ∷ us) (w ∷ ws) m ranked n e =
      let (score, _, e₁) = bind-ok (ok_or (get Text-discrete u.client_id m) _) _ e in
      let (rest, found, e₂) =
        bind-ok (suspicions h d rho global (suc i) us ws (remove Text-discrete u.client_id m)) _
          e₁ in
      let same : (i, suspicion h d rho global score w) ∷ rest ≡ ranked = cc in
      subst (λ l. map (λ p. p.0) l ≡ i ∷ range_from (suc i) (length ws)) same
        (ap (◌∷◌ i) (
          suspicions-range_from rho global (suc i) us ws (remove Text-discrete u.client_id m) rest
            (omega (arith, n)) found))

  most_trusted-perm :
      (fraction : F32) (n : ℕ) (ranked : List (ℕ × F64))
      → Perm
          (most_trusted h d fraction n ranked
            ++ drop (n - byzantine_count h fraction n) (sort_by trusted_first ranked))
          ranked
  most_trusted-perm fraction n ranked =
      let m = n - byzantine_count h fraction n in
      subst (λ l. Perm l ranked) (sym (take-append-drop m (sort_by trusted_first ranked)))
        (sort_by-perm trusted_first ranked)

  ranked-Outscores :
      (fraction rho : F32) (u : ClientDelta) (us : List ClientDelta) (w : List F32)
      (ws : List (List F32)) (injected : CandidateScores) (ranked : List (ℕ × F64))
      → decode_and_validate (u ∷ us) ≡ ok (w ∷ ws)
      → length injected.global_weights ≡ length w
      → suspicions h d rho injected.global_weights 0
          (u ∷ us)
          (w ∷ ws)
          (collect_scores injected.scores [])
        ≡ ok ranked
      → (kept others : List (ℕ × F64)) × (chosen left : List (List F32)) × (zeno h d fraction rho
            (u ∷ us)
            (some injected)
          ≡ (none, ok (kept_mean h d (length w) chosen)))
        × (picked (w ∷ ws) (map (λ p. p.0) kept) ≡ ok chosen)
        × (length chosen ≡ length (u ∷ us) - byzantine_count h fraction (length (u ∷ us)))
        × Perm (kept ++ others) ranked
        × Perm (chosen ++ left) (w ∷ ws)
        × Outscores kept others
  unfolding zeno rank_and_average
  ranked-Outscores fraction rho u us w ws injected ranked valid same scored =
      let n = length (u ∷ us) in
      let kept = most_trusted h d fraction n ranked in
      let others = drop (n - byzantine_count h fraction n) (sort_by trusted_first ranked) in
      let whole : n ≡ length (w ∷ ws) = sym (
        IsFit-length (length w) (u ∷ us) (w ∷ ws)
          ((decode_and_validate_iff (u ∷ us) (w ∷ ws)).0 valid)) in
      let positions =
        suspicions-range_from rho injected.global_weights 0 (u ∷ us) (w ∷ ws)
          (collect_scores injected.scores []) ranked whole scored in
      let (chosen, left, found, size, all) =
        picked-perm w ws (map (λ p. p.0) kept) (map (λ p. p.0) others) (
          subst (λ l. Perm l (range_from 0 (length (w ∷ ws)))) (map-append (λ p. p.0) kept others)
            (subst (Perm (map (λ p. p.0) (kept ++ others))) positions
              (Perm.map (λ p. p.0) (most_trusted-perm fraction n ranked)))) in
      let fits : (length injected.global_weights == length w) ≡ true = ground arith in
      let answer : rank_and_average h d fraction rho (u ∷ us) (w ∷ ws) injected
          ≡ ok (kept_mean h d (length w) chosen) =
        rw (rank_and_average, fits, scored, found) refl in
      (
        kept,
        others,
        chosen,
        left,
        rw (valid, zeno, answer) refl,
        found,
        omega (
          arith,
          size,
          length-map (λ (p : ℕ × F64). p.0) kept,
          length-take (n - byzantine_count h fraction n) (sort_by trusted_first ranked),
          length-sort_by trusted_first ranked,
          length-map (λ (p : ℕ × F64). p.0) ranked,
          ap length positions,
          length-range_from 0 (length (w ∷ ws)),
          whole,
        ),
        most_trusted-perm fraction n ranked,
        all,
        split-Outscores (n - byzantine_count h fraction n) (sort_by trusted_first ranked) (
            sort_by-IsSorted trusted_first (λ p q. total_le_total q.1 p.1)
              (λ p q r a b. total_le_trans r.1 q.1 p.1 b a) ranked),
      )

  -- Let a valid batch be of distinct clients, each of which is given a score, relative to a model of the
  -- batch's dimension. Then Zeno answers: with each candidate scored by what its client was given last,
  -- less the weighted squared distance from the model, or by the lowest value where that is not finite,
  -- it leaves out the assumed number of Byzantine updates and no more, every candidate that it keeps is
  -- scored at least as high as every one that it leaves out, and the answer is the unweighted mean of
  -- the kept updates, each taken once. No scores are left after it.
  pub zeno-Outscores :
      (fraction rho : F32) (u : ClientDelta) (us : List ClientDelta) (w : List F32)
      (ws : List (List F32)) (injected : CandidateScores)
      → decode_and_validate (u ∷ us) ≡ ok (w ∷ ws)
      → length injected.global_weights ≡ length w
      → Nodup (map (λ v. v.client_id) (u ∷ us))
      → AreScored injected.scores (u ∷ us)
      → (ranked : List (ℕ × F64)) × AreSuspicions h d rho injected.global_weights injected.scores 0
          (u ∷ us)
          (w ∷ ws)
          ranked
        × (kept others : List (ℕ × F64)) × (chosen left : List (List F32)) × (zeno h d fraction rho
              (u ∷ us)
              (some injected)
            ≡ (none, ok (kept_mean h d (length w) chosen)))
        × (picked (w ∷ ws) (map (λ p. p.0) kept) ≡ ok chosen)
        × (length chosen ≡ length (u ∷ us) - byzantine_count h fraction (length (u ∷ us)))
        × Perm (kept ++ others) ranked
        × Perm (chosen ++ left) (w ∷ ws)
        × Outscores kept others
  zeno-Outscores fraction rho u us w ws injected valid same distinct given =
      let whole : length (u ∷ us) ≡ length (w ∷ ws) = sym (
        IsFit-length (length w) (u ∷ us) (w ∷ ws)
          ((decode_and_validate_iff (u ∷ us) (w ∷ ws)).0 valid)) in
      let (ranked, scored, meaning) =
        suspicions-AreSuspicions h d rho injected.global_weights injected.scores (u ∷ us) (w ∷ ws)
          whole distinct given in
      let (kept, others, chosen, left, answer, found, size, parts, all, first) =
        ranked-Outscores fraction rho u us w ws injected ranked valid same scored in
      (ranked, meaning, kept, others, chosen, left, answer, found, size, parts, all, first)

  used_up :
      (fraction rho : F32) (u : ClientDelta) (us : List ClientDelta) (ws : List (List F32))
      (scores : Option CandidateScores)
      → decode_and_validate (u ∷ us) ≡ ok ws
      → (zeno h d fraction rho (u ∷ us) scores).0 ≡ none
  unfolding zeno
  used_up fraction rho u us ws none valid = rw (valid, zeno) refl
  used_up fraction rho u us ws (some injected) valid = rw (valid, zeno) refl

  unscored :
      (fraction rho : F32) (u : ClientDelta) (us : List ClientDelta) (ws : List (List F32))
      → decode_and_validate (u ∷ us) ≡ ok ws
      → zeno h d fraction rho (u ∷ us) none ≡ (none, err (refuses missing_candidate_scores))
  unfolding zeno
  unscored fraction rho u us ws valid = rw (valid, zeno) refl

  -- Scores serve one batch: whatever Zeno answers to a valid batch, and whether or not there were
  -- scores for it, the next valid batch is refused until new scores are set.
  pub zeno_once :
      (fraction rho : F32) (u u' : ClientDelta) (us us' : List ClientDelta)
      (ws ws' : List (List F32)) (scores : Option CandidateScores)
      → decode_and_validate (u ∷ us) ≡ ok ws
      → decode_and_validate (u' ∷ us') ≡ ok ws'
      → zeno h d fraction rho (u' ∷ us') (zeno h d fraction rho (u ∷ us) scores).0
        ≡ (none, err (refuses missing_candidate_scores))
  zeno_once fraction rho u u' us us' ws ws' scores valid valid' =
      ap (zeno h d fraction rho (u' ∷ us')) (used_up fraction rho u us ws scores valid)
      ∙ unscored fraction rho u' us' ws' valid'
