-- ===== src/Server/Health.antt =====
-- crates/conflux-server/src/round_health.rs: what the round loop publishes for `/health`, and the
-- backoff between failed rounds.
use conflux_fl.Base.{
  ℕ, zero, suc, ◌+◌, ◌-◌, ◌*◌, ◌^◌, ◌%◌, ◌≤◌, min, ◌≡◌, refl, subst, Bool, true, false, Option,
  none, some, arith, Text,
}
use native.Mathlib.Nat.{pow-suc}

pub data RoundLoopState : Type 0 where
  starting running degraded stopped : RoundLoopState

unfoldable pub as_u8 : RoundLoopState → ℕ
as_u8 starting = 0
as_u8 running = 1
as_u8 degraded = 2
as_u8 stopped = 3

unfoldable pub from_u8 : ℕ → RoundLoopState
from_u8 zero = starting
from_u8 (suc zero) = running
from_u8 (suc (suc zero)) = degraded
from_u8 (suc (suc (suc v))) = stopped

unfoldable pub is_healthy : RoundLoopState → Bool
is_healthy stopped = false
is_healthy s = true

-- `state` is the atomic's byte. `consecutive_failures` is an atomic `u32`, which wraps.
pub record RoundLoopHealth : Type 0 where
  pub state : ℕ
  pub consecutive_failures : ℕ
  pub last_completed_round : ℕ
  pub last_error : Option Text

unfoldable pub new : RoundLoopHealth
unfolding as_u8
new = record {
  state = as_u8 starting;
  consecutive_failures = 0;
  last_completed_round = 0;
  last_error = none;
}

unfoldable pub record_success : ℕ → RoundLoopHealth → RoundLoopHealth
unfolding as_u8
record_success round h = record h {
  state = as_u8 running;
  consecutive_failures = 0;
  last_completed_round = round;
  last_error = none;
}

unfoldable pub record_transient_failure : Text → RoundLoopHealth → RoundLoopHealth × ℕ
unfolding as_u8
record_transient_failure error h =
    let count = (h.consecutive_failures + 1) % 2 ^ 32 in
    (
      record h { state = as_u8 degraded; consecutive_failures = count; last_error = some error },
      count,
    )

unfoldable pub record_stopped : Option Text → RoundLoopHealth → RoundLoopHealth
unfolding as_u8
record_stopped reason h = record h { state = as_u8 stopped; last_error = reason }

unfoldable pub state_of : RoundLoopHealth → RoundLoopState
unfolding from_u8
state_of h = from_u8 h.state

-- `BASE_SECS << exponent`, capped.
unfoldable pub backoff_secs : ℕ → ℕ
backoff_secs consecutive_failures = min (2 * 2 ^ min (consecutive_failures - 1) 8) 60

-- The published byte reads back as the state that was written.
pub from_u8-as_u8 : (s : RoundLoopState) → from_u8 (as_u8 s) ≡ s
unfolding from_u8 as_u8
from_u8-as_u8 starting = refl
from_u8-as_u8 running = refl
from_u8-as_u8 degraded = refl
from_u8-as_u8 stopped = refl

wide : (k : ℕ) → 512 ≤ 2 ^ (k + 9)
wide zero = omega arith
wide (suc k) =
    let shifted : suc k + 9 ≡ suc (k + 9) = omega arith in
    rw shifted (omega (arith, wide k, pow-suc 2 (k + 9)))

doubled : (n : ℕ) → 8 ≤ n → min (2 * 2 ^ min n 8) 60 ≡ min (2 ^ suc n) 60
doubled n h =
    let top : min n 8 ≡ 8 = omega arith in
    let far : n - 8 + 9 ≡ suc n = omega arith in
    let large : 512 ≤ 2 ^ suc n = subst (λ m. 512 ≤ 2 ^ m) far (wide (n - 8)) in
    rw top (omega (arith, large))

closed_form : (n : ℕ) → backoff_secs (suc n) ≡ min (2 ^ suc n) 60
unfolding backoff_secs
closed_form zero = omega arith
closed_form (suc zero) = omega arith
closed_form (suc (suc zero)) = omega arith
closed_form (suc (suc (suc zero))) = omega arith
closed_form (suc (suc (suc (suc zero)))) = omega arith
closed_form (suc (suc (suc (suc (suc zero))))) = omega arith
closed_form (suc (suc (suc (suc (suc (suc zero)))))) = omega arith
closed_form (suc (suc (suc (suc (suc (suc (suc zero))))))) = omega arith
closed_form (suc (suc (suc (suc (suc (suc (suc (suc n)))))))) =
    let m = suc (suc (suc (suc (suc (suc (suc (suc n))))))) in
    let less : suc m - 1 ≡ m = omega arith in rw less (doubled m (omega arith))

-- The shift that is stopped at 8 and the cap after it give the exponential backoff with its cap: the
-- delay after n failures in a row is the smaller of 2 ^ n and 60 seconds, however many they are, and
-- after none it is 2 seconds.
pub backoff_secs_lem : (n : ℕ) → (backoff_secs (suc n) ≡ min (2 ^ suc n) 60) × (backoff_secs 0 ≡ 2)
unfolding backoff_secs
backoff_secs_lem n = (closed_form n, refl)
