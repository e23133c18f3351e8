-- ===== src/Buffer.antt =====
-- crates/conflux-buffer/src/lib.rs: `RoundBuffer`, which collects one round's updates and closes
-- on quorum or on timeout. What runs under the state's mutex is one step; `push` gives the mutex back
-- before it notifies, so that it is two.
pub mod Closing
pub mod Wakeup
pub mod Schedule
use conflux_fl.Base.{
  ℕ, ◌+◌, Bool, true, false, Option, none, some, List, [], ◌∷◌, ◌++◌, Result, ok, err, length, leb,
  ◌==◌, if◌then◌else◌, not,
}
use conflux_fl.Proto.{ClientDelta}

pub data BufferError : Type 0 where
  -- The round that the buffer collects, and the one that the delta claims.
  wrong_round : ℕ → ℕ → BufferError
  closed_error : BufferError

pub data FlushReason : Type 0 where
  quorum timeout : FlushReason

pub record FlushResult : Type 0 where
  pub round : ℕ
  pub reason : FlushReason
  pub deltas : List ClientDelta

pub data BufferState : Type 0 where
  open_with : List ClientDelta → BufferState
  closed : BufferState

-- `permit` is what tokio's `Notify` keeps: one wake-up that nobody has consumed yet.
pub record RoundBuffer : Type 0 where
  pub round : ℕ
  pub quorum : ℕ
  pub state : BufferState
  pub permit : Bool

unfoldable pub new : ℕ → ℕ → RoundBuffer
new round q = record { round = round; quorum = q; state = open_with []; permit = false }

-- The match of `push` on the state, under the mutex.
unfoldable pub push_state :
    RoundBuffer → BufferState → ClientDelta → RoundBuffer × Result BufferError (Unit {0})
push_state b (open_with deltas) delta =
    (record b { state = open_with (deltas ++ delta ∷ []) }, ok tt)
push_state b closed delta = (b, err closed_error)

-- `push` until the mutex is given back.
unfoldable pub append : RoundBuffer → ClientDelta → RoundBuffer × Result BufferError (Unit {0})
unfolding push_state
append b delta =
    if not (delta.round == b.round)
    then (b, err (wrong_round b.round delta.round))
    else push_state b b.state delta

-- `self.notify.notify_one()`
unfoldable pub notify_one : RoundBuffer → RoundBuffer
notify_one b = record b { permit = true }

-- What follows on the append in a `push`.
abbrev notified :
    RoundBuffer × Result BufferError (Unit {0}) → RoundBuffer × Result BufferError (Unit {0})
notified (b, ok u) = (notify_one b, ok tt)
notified (b, err e) = (b, err e)

-- The whole of a `push` that nothing else comes between.
unfoldable pub push : RoundBuffer → ClientDelta → RoundBuffer × Result BufferError (Unit {0})
unfolding append notify_one
push b delta = notified (append b delta)

-- `matches!(&*state, BufferState::Open(deltas) if deltas.len() >= self.quorum)`
unfoldable pub quorum_met : BufferState → ℕ → Bool
quorum_met (open_with deltas) q = leb q (length deltas)
quorum_met closed q = false

-- `std::mem::replace(&mut *state, BufferState::Closed)`: what was collected, if it was open.
unfoldable pub collected : BufferState → List ClientDelta
collected (open_with deltas) = deltas
collected closed = []

unfoldable pub close_if_quorum_met : RoundBuffer → RoundBuffer × Option (List ClientDelta)
unfolding quorum_met collected
close_if_quorum_met b =
    if quorum_met b.state b.quorum
    then (record b { state = closed }, some (collected b.state))
    else (b, none)

unfoldable pub close_and_take : RoundBuffer → RoundBuffer × List ClientDelta
unfolding collected
close_and_take b = (record b { state = closed }, collected b.state)

-- The first half of a turn of `await_flush`'s loop: the quorum check.
unfoldable pub check_quorum : RoundBuffer → RoundBuffer × Option FlushResult
unfolding close_if_quorum_met
check_quorum b =
    let (b', batch) = close_if_quorum_met b in
    elim batch [
      | some deltas ↦ (b', some (record { round = b.round; reason = quorum; deltas = deltas }))
      | none ↦ (b', none)
    ]

-- The second half: past the deadline the batch closes as it is; before it the task waits.
unfoldable pub check_deadline : RoundBuffer → ℕ → ℕ → RoundBuffer × Option FlushResult
unfolding close_and_take
check_deadline b deadline now =
    if leb deadline now
    then (let (b', deltas) = close_and_take b in
        (b', some (record { round = b.round; reason = timeout; deltas = deltas })))
    else (b, none)
