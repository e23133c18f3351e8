-- ===== src/Buffer/Schedule.antt =====
-- `await_flush` as a task that runs beside the pushing clients. Each event is what one task does
-- under the mutex, or outside it, without the others: a push can land between the quorum check and the
-- wait, and any number of steps can come between a push's append and its `notify_one`.
use conflux_fl.Base.{
  ℕ, zero, suc, ◌+◌, Bool, true, false, Option, none, some, List, [], ◌∷◌, ◌++◌, Result, ok, err,
  leb, if◌then◌else◌,
}
use conflux_fl.Proto.{ClientDelta}
use conflux_fl.Buffer.{
  RoundBuffer, BufferError, FlushResult, new, push, append, notify_one, check_quorum,
  check_deadline,
}

-- Where the flusher stands: before the quorum check, before the deadline check, parked on
-- `notified()`, or returned.
pub data Flusher : Type 0 where
  checking timing parked : Flusher
  finished : FlushResult → Flusher

-- `accepted` lists the deltas that were appended, in order; it is no field of the program. `pending`
-- counts the pushes that have appended and have not notified yet.
pub record Sys : Type 0 where
  pub buffer : RoundBuffer
  pub flusher : Flusher
  pub now : ℕ
  pub deadline : ℕ
  pub accepted : List ClientDelta
  pub pending : ℕ

pub data Event : Type 0 where
  -- A client's `push`, with nothing between its append and its notification.
  pushes : ClientDelta → Event
  -- A `push` that is held up once it has given the mutex back.
  appends : ClientDelta → Event
  -- One that was held up goes on, to `notify_one`.
  notifies : Event
  -- The flusher takes its next step, if it is not waiting.
  runs : Event
  -- The scheduler delivers a stored permit to the parked flusher.
  wakes : Event
  -- The timer of `timeout(remaining, ..)` fires.
  expires : Event
  -- Time passes.
  ticks : ℕ → Event

abbrev pub logged :
    Result BufferError (Unit {0}) → ClientDelta → List ClientDelta → List ClientDelta
logged (ok u) d ds = ds ++ d ∷ []
logged (err e) d ds = ds

step_push : Sys → ClientDelta → Sys
step_push s d =
    let (b, r) = push s.buffer d in record s { buffer = b; accepted = logged r d s.accepted }

-- A refused delta leaves nothing to notify of.
abbrev held : Result BufferError (Unit {0}) → ℕ → ℕ
held (ok u) n = suc n
held (err e) n = n

step_append : Sys → ClientDelta → Sys
step_append s d =
    let (b, r) = append s.buffer d in
    record s { buffer = b; accepted = logged r d s.accepted; pending = held r s.pending }

step_notify : ℕ → Sys → Sys
step_notify zero s = s
step_notify (suc n) s = record s { buffer = notify_one s.buffer; pending = n }

abbrev after_quorum : Option FlushResult → Flusher
after_quorum (some r) = finished r
after_quorum none = timing

abbrev after_deadline : Option FlushResult → Flusher
after_deadline (some r) = finished r
after_deadline none = parked

step_flusher : Flusher → Sys → Sys
step_flusher checking s =
    let (b, r) = check_quorum s.buffer in record s { buffer = b; flusher = after_quorum r }
step_flusher timing s =
    let (b, r) = check_deadline s.buffer s.deadline s.now in
    record s { buffer = b; flusher = after_deadline r }
step_flusher parked s = s
step_flusher (finished r) s = s

-- `notified()` completes: the permit is consumed and the loop starts over.
wake : Flusher → Bool → Sys → Sys
wake parked true s = record s { buffer = record (s.buffer) { permit = false }; flusher = checking }
wake _ _ s = s

expire : Flusher → Sys → Sys
expire parked s = if leb s.deadline s.now then record s { flusher = checking } else s
expire _ s = s

unfoldable pub step : Sys → Event → Sys
unfolding step_push step_append step_notify step_flusher wake expire
step s (pushes d) = step_push s d
step s (appends d) = step_append s d
step s notifies = step_notify s.pending s
step s runs = step_flusher s.flusher s
step s wakes = wake s.flusher s.buffer.permit s
step s expires = expire s.flusher s
step s (ticks k) = record s { now = s.now + k }

unfoldable pub run : Sys → List Event → Sys
run s [] = s
run s (e ∷ es) = run (step s e) es

-- A buffer for a round, and an `await_flush` on it that was just called.
unfoldable pub start : ℕ → ℕ → ℕ → Sys
unfolding new
start round q wait = record {
  buffer = new round q;
  flusher = checking;
  now = 0;
  deadline = wait;
  accepted = [];
  pending = 0;
}
