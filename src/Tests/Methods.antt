-- ===== src/Tests/Methods.antt =====
-- The robust methods on three updates of one weight each, with saturating arithmetic on the bit
-- patterns in place of the hardware's.
use conflux_fl.Base.{
  Option, some, err, ℕ, ◌+◌, ◌-◌, ◌*◌, ◌/◌, ◌≤◌, ◌<◌, ◌≡◌, ◌⊎◌, refl, ap, min, max, true, List, [],
  ◌∷◌, ◌++◌, arith, length, Perm, ok, All, keep_if,
}
use conflux_fl.Base.Positions.{range_from, remove_at}
use conflux_fl.Config.Preconditions.{byzantine_count}
use conflux_fl.Float.{F32, Arithmetic, is_finite, is_nan, float_le, ordered_le}
use conflux_fl.Proto.{ClientDelta}
use conflux_fl.Proto.Codec
use conflux_fl.Core.Averaging.{Aggregator, fed_avg, length-fed_avg}
use conflux_fl.Core.Batch.{decode_and_validate}
use conflux_fl.Core.Coordinate.{trimmed_mean, trim_count, mean}
use conflux_fl.Core.Coordinate.Resilience.{below, above, IsWithin, trimmed_mean-IsWithin}
use conflux_fl.Core.Extrema.{IsNumber}
use conflux_fl.Core.Robust.Filters.{
  krum, multi_krum, faba, bulyan, neighbors, kept_count, theta, in_order,
}
use conflux_fl.Core.Robust.Numbers.{Ieee, IsLength}
use conflux_fl.Core.Robust.Scores.{AreScores}
use conflux_fl.Core.Robust.Selection.{IsSelection}
use conflux_fl.Core.Robust.Krum.{multi_krum-Outranks, Outranks, single-IsSelection}
use conflux_fl.Core.Robust.Faba.{Drops, faba-Drops}
use conflux_fl.Core.Robust.Bulyan.{Picks, completed, bulyan-Picks}
use conflux_fl.Core.{panics}
use conflux_fl.Core.Robust.Spectral.{divide_and_conquer}
use conflux_fl.Core.Robust.Spectral.Direction.{AreSpectral}
use conflux_fl.Core.Robust.Spectral.Outlying.{LeavesOut, divide_and_conquer-Outlying}
use conflux_fl.Core.Optimizer.{yogi, FedOptParams, OptimizerState, fed_opt}
use conflux_fl.Core.Optimizer.Commits.{KeepsDimension, IsSettled, fed_opt-IsSettled}
use conflux_fl.Tests.World.{integers64, total, update, ann, jo}

-- The greatest finite pattern.
abbrev most : ℕ
most = 0x7f7fffff

abbrev pub saturating : Arithmetic
saturating = record {
  add = λ a b. min (a + b) most;
  sub = λ a b. min (max (a - b) (b - a)) most;
  mul = λ a b. min (a * b) most;
  div = λ a b. min (a / b) most;
  sqrt = λ a. min a most;
  sum = λ l. min (total l) most;
  of_nat = λ n. n;
  floor_nat = λ a. a / 4;
}

is_finite-of_le : (x : ℕ) → x ≤ most → is_finite x ≡ true
unfolding is_finite
is_finite-of_le x h = ground arith

IsNumber-of_le : (x : ℕ) → x ≤ most → IsNumber x
unfolding is_nan
IsNumber-of_le x h = ground arith

IsLength-of_le : (x : ℕ) → x ≤ most → IsLength x
unfolding float_le
IsLength-of_le x h = ground arith

saturating-Ieee : Ieee saturating
saturating-Ieee = record {
  sub_number = λ x y f n. IsNumber-of_le _ (omega arith);
  square = λ x n. IsLength-of_le _ (omega arith);
  square_comm = λ x y f g. ap (λ d. min (d * d) most) (difference_comm x y);
  sum_lengths = λ l f. IsLength-of_le _ (omega arith);
  sqrt_length = λ x f. IsLength-of_le _ (omega arith);
  share_finite = λ n x p f. is_finite-of_le _ (omega arith);
  add_number = λ x y n f. IsNumber-of_le _ (omega arith);
}
  where
    difference_comm : (x y : ℕ) → min (max (x - y) (y - x)) most ≡ min (max (y - x) (x - y)) most
    difference_comm x y = omega arith

abbrev batch : List ClientDelta
batch = update ann 7 ∷ update jo 8 ∷ update ann 9 ∷ update jo 8 ∷ update ann 200 ∷ []

abbrev vectors : List (List F32)
vectors = (7 ∷ []) ∷ (8 ∷ []) ∷ (9 ∷ []) ∷ (8 ∷ []) ∷ (200 ∷ []) ∷ []

batch_valid : decode_and_validate batch ≡ ok vectors
unfolding decode_and_validate Codec.decode_weights is_finite
batch_valid = refl

krum_selects : krum saturating 1 batch ≡ ok (1 ∷ [])
unfolding krum decode_and_validate Codec.decode_weights is_finite
krum_selects = refl

multi_krum_selects : multi_krum saturating 1 batch ≡ ok (0 ∷ 1 ∷ 2 ∷ 3 ∷ [])
unfolding multi_krum decode_and_validate Codec.decode_weights is_finite
multi_krum_selects = refl

faba_selects : faba saturating 1 batch ≡ ok (0 ∷ 1 ∷ 2 ∷ 3 ∷ [])
unfolding faba decode_and_validate Codec.decode_weights is_finite
faba_selects = refl

bulyan_selects : bulyan saturating 1 batch ≡ ok (0 ∷ 1 ∷ 2 ∷ [])
unfolding bulyan decode_and_validate Codec.decode_weights is_finite
bulyan_selects = refl

multi_krum-Outranks_example :
    (kept : List ℕ) × (others : List ℕ) × (scores : List F32) × (multi_krum saturating 1 batch
      ≡ ok kept)
    × AreScores saturating saturating-Ieee (neighbors saturating 1 5) vectors scores
    × IsSelection 5 kept others
    × (length kept ≡ kept_count saturating 1 5)
    × Outranks saturating saturating-Ieee scores kept others
multi_krum-Outranks_example =
    multi_krum-Outranks saturating saturating-Ieee 1 (update ann 7)
      (update jo 8 ∷ update ann 9 ∷ update jo 8 ∷ update ann 200 ∷ []) vectors batch_valid

faba-Drops_example :
    (left : List ℕ) × (others : List ℕ) × (faba saturating 1 batch ≡ ok (in_order left))
    × Drops saturating saturating-Ieee vectors
        (byzantine_count saturating 1 5)
        (range_from 0 5)
        left
    × IsSelection 5 (in_order left) others
    × (length (in_order left) + byzantine_count saturating 1 5 ≡ 5)
faba-Drops_example =
    faba-Drops saturating saturating-Ieee 1 (update ann 7)
      (update jo 8 ∷ update ann 9 ∷ update jo 8 ∷ update ann 200 ∷ []) vectors batch_valid

bulyan-Picks_example :
    (selected : List ℕ) × (remaining : List ℕ) × (kept : List ℕ) × (others : List ℕ) × (bulyan
        saturating 1 batch
      ≡ ok kept)
    × Picks saturating saturating-Ieee 1 batch
        (theta saturating 1 5)
        []
        (range_from 0 5)
        selected
        remaining
    × (kept
        ≡ in_order
            (completed saturating saturating-Ieee 1 (theta saturating 1 5) selected remaining))
    × IsSelection 5 kept others
    × (length kept ≡ theta saturating 1 5)
bulyan-Picks_example =
    bulyan-Picks saturating saturating-Ieee 1 (update ann 7)
      (update jo 8 ∷ update ann 9 ∷ update jo 8 ∷ update ann 200 ∷ []) vectors batch_valid

one_kept : IsSelection 5 (1 ∷ []) (0 ∷ 2 ∷ 3 ∷ 4 ∷ [])
unfolding range_from remove_at
one_kept = single-IsSelection 5 1 (omega arith)

abbrev column : List F32
column = 7 ∷ 8 ∷ 9 ∷ 8 ∷ 1000 ∷ []

column_numbers : All IsNumber column
unfolding is_nan
column_numbers = (refl, (refl, (refl, (refl, (refl, tt)))))

few_below : below 7 column ≤ trim_count saturating 1 5
unfolding trim_count keep_if ordered_le
few_below = omega arith

few_above : above 9 column ≤ trim_count saturating 1 5
unfolding trim_count keep_if ordered_le
few_above = omega arith

fewer_below : 2 * below 7 column < 5
unfolding keep_if ordered_le
fewer_below = omega arith

fewer_above : 2 * above 9 column < 5
unfolding keep_if ordered_le
fewer_above = omega arith

trimmed_mean-IsWithin_example :
    (kept : List F32) × (rest : List F32) × (trimmed_mean saturating 1 column
      ≡ ok (mean saturating kept))
    × Perm (kept ++ rest) column
    × (length kept + 2 * trim_count saturating 1 5 ≡ 5)
    × (0 < length kept)
    × All (IsWithin 7 9) kept
trimmed_mean-IsWithin_example =
    trimmed_mean-IsWithin saturating 1 7 9 column column_numbers (omega arith) few_below few_above

abbrev params : FedOptParams
params = record { server_learning_rate = 1; beta1 = 1; beta2 = 1; tau = 2 }

abbrev weighted : Option Aggregator
weighted = some (fed_avg saturating)

keeps : KeepsDimension weighted
keeps = length-fed_avg saturating

abbrev before : Option OptimizerState
before = some (record { global = 3 ∷ []; m = 0 ∷ []; v = 4 ∷ [] })

fed_opt-IsSettled_example :
    IsSettled saturating integers64 weighted batch before
      (fed_opt saturating integers64 yogi params weighted before batch)
fed_opt-IsSettled_example =
    fed_opt-IsSettled saturating integers64 yogi params weighted batch before keeps
      (omega arith, omega arith)

-- The same, but every product is NaN.
abbrev poisoned : Arithmetic
poisoned = record saturating { mul = λ a b. 0x7fc00000 }

divide_and_conquer-Outlying_example :
    (scores : List F32) × AreSpectral poisoned 3 vectors scores
    × (((byzantine_count poisoned 1 5 ≡ 0)
          × (divide_and_conquer poisoned 1 3 batch ≡ ok (range_from 0 5)))
        ⊎ ((0 < byzantine_count poisoned 1 5)
            × LeavesOut poisoned
                (byzantine_count poisoned 1 5)
                5
                scores
                (divide_and_conquer poisoned 1 3 batch)))
divide_and_conquer-Outlying_example =
    divide_and_conquer-Outlying poisoned 1 3 batch vectors batch_valid

divide_and_conquer_panics : divide_and_conquer poisoned 1 3 batch ≡ err panics
unfolding divide_and_conquer decode_and_validate Codec.decode_weights is_finite is_nan
divide_and_conquer_panics = refl

divide_and_conquer_selects : divide_and_conquer saturating 1 3 batch ≡ ok (1 ∷ 2 ∷ 3 ∷ 4 ∷ [])
unfolding divide_and_conquer decode_and_validate Codec.decode_weights is_finite
divide_and_conquer_selects = refl
