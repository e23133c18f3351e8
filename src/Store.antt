-- ===== src/Store.antt =====
-- crates/conflux-store/src/lib.rs: the errors of a checkpoint store, and `InMemoryStore`, which
-- keeps the checkpoint of the highest round.
use conflux_fl.Base.{
  ℕ, ◌≡◌, List, [], ◌∷◌, ◌++◌, ◌≤◌, ◌<◌, ◌⊎◌, inl, inr, refl, ap, arith, All, Result, ok, err, leb,
  ◌==◌, if◌then◌else◌, Text,
}
use conflux_fl.Float.{F32}

pub data StoreError : Type 0 where
  no_checkpoint : StoreError
  io : Text → StoreError
  malformed_checkpoint : Text → ℕ → StoreError
  backend : Text → StoreError

-- `latest` is the round and the weights behind the mutex.
pub record InMemoryStore : Type 0 where
  pub round : ℕ
  pub weights : List F32

unfoldable pub new : List F32 → InMemoryStore
new initial_weights = record { round = 0; weights = initial_weights }

unfoldable pub load_latest_weights : InMemoryStore → Result StoreError (List F32)
load_latest_weights s = ok s.weights

unfoldable pub save_checkpoint :
    InMemoryStore → ℕ → List F32 → InMemoryStore × Result StoreError (Unit {0})
save_checkpoint s round weights =
    (if leb s.round round then record s { round = round; weights = weights } else s, ok tt)

unfoldable pub list_checkpoints : InMemoryStore → Result StoreError (List ℕ)
list_checkpoints s = ok (s.round ∷ [])

unfoldable pub load_checkpoint : InMemoryStore → ℕ → Result StoreError (List F32)
load_checkpoint s round = if s.round == round then ok s.weights else err no_checkpoint

-- A run of saves, in the order they are made.
abbrev pub save_all : InMemoryStore → List (ℕ × List F32) → InMemoryStore
save_all s [] = s
save_all s ((round, weights) ∷ saves) = save_all (save_checkpoint s round weights).0 saves

-- What a run of saves leaves behind: the first state when every save is of an earlier round, and
-- otherwise the last save of the highest round.
abbrev pub Latest : InMemoryStore → List (ℕ × List F32) → InMemoryStore → Type 0
Latest s saves s' =
    (All (λ save. save.0 < s.round) saves × (s' ≡ s))
    ⊎ ((before after : List (ℕ × List F32)) × (saves ≡ before ++ (s'.round, s'.weights) ∷ after)
        × (s.round ≤ s'.round)
        × All (λ save. save.0 ≤ s'.round) before
        × All (λ save. save.0 < s'.round) after)

-- A save either replaces the checkpoint or leaves it as it was.
save_cases :
    (s : InMemoryStore) (round : ℕ) (weights : List F32)
    → ((save_checkpoint s round weights).0 ≡ record { round = round; weights = weights })
        × (s.round ≤ round)
      ⊎ ((save_checkpoint s round weights).0 ≡ s) × (round < s.round)
unfolding save_checkpoint
save_cases s round weights = ground arith

All-weaken :
    {a b : ℕ} (saves : List (ℕ × List F32))
    → a ≤ b
    → All (λ save. save.0 < a) saves
    → All (λ save. save.0 < b) saves
All-weaken [] le all = tt
All-weaken (save ∷ saves) le (lt, all) = (omega (arith, lt, le), All-weaken saves le all)

-- A save puts its checkpoint in front of a run.
Latest-cons :
    (s t s' : InMemoryStore) (round : ℕ) (weights : List F32) (saves : List (ℕ × List F32))
    → (t ≡ record { round = round; weights = weights }) × (s.round ≤ round)
      ⊎ (t ≡ s) × (round < s.round)
    → Latest t saves s'
    → Latest s ((round, weights) ∷ saves) s'
Latest-cons s t s' round weights saves (inl (eq, le)) (inl (below, same)) =
    inr ([], saves, ground arith, ground arith, tt, All-weaken saves (ground arith) below)
Latest-cons s t s' round weights saves (inl (eq, le)) (inr (before, after, split, le', bs, cs)) =
    inr (
      (round, weights) ∷ before,
      after,
      ap (◌∷◌ (round, weights)) split,
      ground arith,
      (ground arith, bs),
      cs,
    )
Latest-cons s t s' round weights saves (inr (eq, lt)) (inl (below, same)) =
    inl ((lt, All-weaken saves (ground arith) below), ground arith)
Latest-cons s t s' round weights saves (inr (eq, lt)) (inr (before, after, split, le', bs, cs)) =
    inr (
      (round, weights) ∷ before,
      after,
      ap (◌∷◌ (round, weights)) split,
      ground arith,
      (ground arith, bs),
      cs,
    )

save_all-Latest :
    (saves : List (ℕ × List F32)) (s : InMemoryStore) → Latest s saves (save_all s saves)
save_all-Latest [] s = inl (tt, refl)
save_all-Latest ((round, weights) ∷ saves) s =
    Latest-cons s (save_checkpoint s round weights).0 _ round weights saves
      (save_cases s round weights) (save_all-Latest saves _)

checkpoint_elsewhere :
    (s : InMemoryStore) (other : ℕ)
    → (other ≡ s.round) ⊎ (load_checkpoint s other ≡ err no_checkpoint)
unfolding load_checkpoint
checkpoint_elsewhere s other = ground arith

-- From a store created with any weights, after any run of saves: one checkpoint is listed, it loads
-- to the same weights as the latest, and it is the initial one when nothing was saved, otherwise the last save among
-- those of the highest round; no other round has a checkpoint.
pub load_latest_weights-save_all :
    (saves : List (ℕ × List F32)) (initial_weights : List F32) (other : ℕ)
    → (s : InMemoryStore) × (s ≡ save_all (new initial_weights) saves)
      × Latest (new initial_weights) saves s
      × (list_checkpoints s ≡ ok (s.round ∷ []))
      × (load_latest_weights s ≡ ok s.weights)
      × (load_checkpoint s s.round ≡ ok s.weights)
      × ((other ≡ s.round) ⊎ (load_checkpoint s other ≡ err no_checkpoint))
unfolding list_checkpoints load_latest_weights load_checkpoint
load_latest_weights-save_all saves initial_weights other =
    let s = save_all (new initial_weights) saves in
    (
      s,
      refl,
      save_all-Latest saves (new initial_weights),
      refl,
      refl,
      ground arith,
      checkpoint_elsewhere s other,
    )
