-- ===== src/Server/Loop.antt =====
-- crates/conflux-server/src/serve.rs, the task that runs rounds until shutdown or a fatal error.
use conflux_fl.Base.{
  ℕ, zero, suc, ◌+◌, ◌%◌, ◌^◌, ◌<◌, ◌≡◌, refl, Bool, true, false, not, Option, none, some, List, [],
  ◌∷◌, arith, Result, ok, err, Text, if◌then◌else◌, length, All,
}
use conflux_fl.Server.Error.{ServerError, is_transient}
use conflux_fl.Server.Health.{
  RoundLoopHealth, degraded, record_success, record_transient_failure, record_stopped, backoff_secs,
  state_of, is_healthy, new,
}
use conflux_fl.Server.History.{RoundSummary}

-- How `run_round` ends: it returns, or it panics.
pub data Ran : Type 0 where
  returns : Result ServerError RoundSummary → Ran
  panics : Ran

-- What happens in one turn: the shutdown flag as the loop reads it, and how `run_round` ends.
pub record Turn : Type 0 where
  pub shutdown : Bool
  pub outcome : Ran

-- Where a turn leaves the loop: it goes on at once, waits before it goes on, has ended, or is unwound by a
-- panic, which ends its task where it stands.
pub data Next : Type 0 where
  again : Next
  wait : ℕ → Next
  exit unwound : Next

module _ (to_string : ServerError → Text) where
  unfoldable pub on_error : ServerError → RoundLoopHealth → RoundLoopHealth × Next
  on_error e h =
      if is_transient e
      then (let (h', failures) = record_transient_failure (to_string e) h in
          (h', wait (backoff_secs failures)))
      else (record_stopped (some (to_string e)) h, exit)

  unfoldable pub turn : Turn → RoundLoopHealth → RoundLoopHealth × Next
  unfolding on_error
  turn t h = if t.shutdown then (record_stopped none h, exit) else (elim t.outcome [
    | returns (ok summary) ↦ (record_success summary.round h, again)
    | returns (err e) ↦ on_error e h
    | panics ↦ (h, unwound)
  ])

  -- The loop over the turns that the environment gives it: the health it leaves, how long it slept
  -- each time, and whether it has ended.
  pub record Trace : Type 0 where
    pub health : RoundLoopHealth
    pub slept : List ℕ
    pub ended : Bool

  unfoldable pub loop : RoundLoopHealth → List Turn → Trace
  loop h [] = record { health = h; slept = []; ended = false }
  loop h (t ∷ ts) =
      let (h', next) = turn t h in
      let rest = loop h' ts in
      elim next [
        | again ↦ rest
        | wait secs ↦ record rest { slept = secs ∷ rest.slept }
        | exit ↦ record { health = h'; slept = []; ended = true }
        | unwound ↦ record { health = h'; slept = []; ended = true }
      ]

  -- How a turn ends the run, if it does: the loop stops by itself, when shutdown was requested or the
  -- round failed for good, or it is broken off by a panic.
  pub data Ending : Type 0 where
    stopped broken : Ending

  abbrev pub ending_of : Ran → Option Ending
  ending_of (returns (ok summary)) = none
  ending_of (returns (err e)) = if is_transient e then none else some stopped
  ending_of panics = some broken

  -- The first ending among the turns.
  abbrev pub first_ending : List Turn → Option Ending
  first_ending [] = none
  first_ending (t ∷ ts) =
      if t.shutdown
      then some stopped
      else (elim (ending_of t.outcome) [ none ↦ first_ending ts | some how ↦ some how ])

  abbrev pub is_over : Option Ending → Bool
  is_over none = false
  is_over (some how) = true

  abbrev pub is_stopped : Option Ending → Bool
  is_stopped none = false
  is_stopped (some stopped) = true
  is_stopped (some broken) = false

  loop_ends_from :
      (h : RoundLoopHealth) (ts : List Turn)
      → is_healthy (state_of h) ≡ true
      → ((loop h ts).ended ≡ is_over (first_ending ts))
        × (is_healthy (state_of (loop h ts).health) ≡ not (is_stopped (first_ending ts)))
  unfolding loop turn record_success record_transient_failure record_stopped state_of is_healthy
  loop_ends_from h [] v = (refl, v)
  loop_ends_from h (t ∷ ts) v = ground (arith, loop_ends_from (turn t h).0 ts)

  -- What ends the round loop, and what its health then says: from a fresh start, over any turns, the
  -- loop has ended exactly if one of them saw the shutdown flag or a fatal error, or panicked, and a
  -- transient failure never ends it; it reports itself unhealthy exactly if the first of these was the
  -- flag or a fatal error. After a panic it goes on reporting that it is healthy.
  pub loop_ends :
      (ts : List Turn)
      → ((loop new ts).ended ≡ is_over (first_ending ts))
        × (is_healthy (state_of (loop new ts).health) ≡ not (is_stopped (first_ending ts)))
  unfolding new state_of is_healthy
  loop_ends ts = loop_ends_from new ts refl

  -- Every turn fails with a retryable error.
  abbrev pub AllTransient : List Turn → Type 0
  AllTransient = All λ t.
      (t.shutdown ≡ false)
      × ((e : ServerError) × (t.outcome ≡ returns (err e)) × (is_transient e ≡ true))

  -- The delays after `c` failures in a row, for `n` more.
  abbrev pub delays : ℕ → ℕ → List ℕ
  delays c zero = []
  delays c (suc n) = backoff_secs (suc c) ∷ delays (suc c) n

  turn_transient :
      (h : RoundLoopHealth) (t : Turn) (e : ServerError)
      → t.shutdown ≡ false
      → t.outcome ≡ returns (err e)
      → is_transient e ≡ true
      → h.consecutive_failures + 1 < 2 ^ 32
      → ((turn t h).1 ≡ wait (backoff_secs (suc h.consecutive_failures)))
        × ((turn t h).0.consecutive_failures ≡ suc h.consecutive_failures)
        × ((turn t h).0.last_error ≡ some (to_string e))
        × (state_of (turn t h).0 ≡ degraded)
  unfolding turn record_transient_failure state_of
  turn_transient h t e s o tr lt =
      let count : (h.consecutive_failures + 1) % 2 ^ 32 ≡ suc h.consecutive_failures =
        omega arith in
      ground arith

  -- A streak of retryable failures is ridden out: as long as the counter does not wrap, the loop
  -- goes on, counts every one of them, and sleeps after each for the backoff of its place in the
  -- streak.
  pub loop_streak :
      (h : RoundLoopHealth) (ts : List Turn)
      → AllTransient ts
      → h.consecutive_failures + length ts < 2 ^ 32
      → ((loop h ts).slept ≡ delays h.consecutive_failures (length ts))
        × ((loop h ts).ended ≡ false)
        × ((loop h ts).health.consecutive_failures ≡ h.consecutive_failures + length ts)
  unfolding loop
  loop_streak h [] a lt = (refl, refl, omega arith)
  loop_streak h (t ∷ ts) (a, rest) lt =
      let e = a.1.0 in
      let (next, count, message, state) =
        turn_transient h t e a.0 a.1.1 a.1.2 (omega (arith, lt)) in
      let below : (turn t h).0.consecutive_failures + length ts < 2 ^ 32 =
        omega (arith, lt, count) in
      let (slept, ended, final) = loop_streak (turn t h).0 ts rest below in
      ground (arith, next, count, slept, ended, final)
