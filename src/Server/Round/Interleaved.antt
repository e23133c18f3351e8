-- ===== src/Server/Round/Interleaved.antt =====
-- crates/conflux-server/src/dispatcher.rs beside `await_flush` of crates/conflux-server/src/round.rs:
-- the calls that clients make while a round waits. The buffer is shared: the handlers push to it,
-- the waiting task closes it.
use conflux_fl.Base.{
  ℕ, ◌≡◌, refl, sym, ap, subst, ◌∙◌, Option, none, some, List, [], ◌∷◌, ◌++◌, Result, ok, err, Text,
  Result-cases, inl, inr,
}
use conflux_fl.Buffer.{RoundBuffer, BufferError, push}
use conflux_fl.Buffer.Schedule.{Flusher, Sys, logged, step, run, start}
use conflux_fl.Buffer.Schedule
use conflux_fl.Net.{DispatchError}
use conflux_fl.Proto.{ClientDelta, DeltaChunk, SubmitAck}
use conflux_fl.Server.Dispatcher.{
  submit_delta, deliver, delta_of, register, heartbeat, check_credentials, push_error, accepted_ack,
}
use conflux_fl.Server.State.{Environment, AppState}

-- What happens while the round waits: a client's call, or a step of the buffer's own schedule, which is
-- a step of the waiting task or of a push that is held up.
pub data Event : Type 0 where
  submits : List DeltaChunk → Event
  registers : Text → Text → Option Text → Event
  heartbeats : Text → Event
  waits : Schedule.Event → Event

-- `accepted` lists the updates that were acknowledged, in order. It is no field of the program.
abbrev pub acknowledged :
    Result DispatchError SubmitAck → List DeltaChunk → List ClientDelta → List ClientDelta
acknowledged (ok ack) (first ∷ chunks) deltas = deltas ++ delta_of first (first ∷ chunks) ∷ []
acknowledged (ok ack) [] deltas = deltas
acknowledged (err e) chunks deltas = deltas

pub run-append :
    (sys : Sys) (xs ys : List Schedule.Event) → run sys (xs ++ ys) ≡ run (run sys xs) ys
unfolding run
run-append sys [] ys = refl
run-append sys (x ∷ xs) ys = run-append (step sys x) xs ys

module _ (env : Environment) where
  pub record Live : Type 0 where
    pub state : AppState env
    pub flusher : Flusher
    pub now : ℕ
    pub deadline : ℕ
    pub accepted : List ClientDelta
    pub pending : ℕ

  -- The waiting task's own view: its buffer is the one that the handlers push to.
  abbrev pub sys_of : RoundBuffer → Live → Sys
  sys_of b l = record {
    buffer = b;
    flusher = l.flusher;
    now = l.now;
    deadline = l.deadline;
    accepted = l.accepted;
    pending = l.pending;
  }

  abbrev pub written : Sys → Live → Live
  written sys l = record {
    state = record (l.state) { current_buffer = some sys.buffer };
    flusher = sys.flusher;
    now = sys.now;
    deadline = sys.deadline;
    accepted = sys.accepted;
    pending = sys.pending;
  }

  unfoldable pub happen : Live → Event → Live
  unfolding submit_delta register heartbeat step
  happen l (submits chunks) =
      let (s, answer) = submit_delta env chunks l.state in
      record l { state = s; accepted = acknowledged answer chunks l.accepted }
  happen l (registers client_id auth_token fingerprint) = record l {
    state = (register env client_id auth_token fingerprint l.state).0;
  }
  happen l (heartbeats client_id) = record l { state = (heartbeat env client_id l.state).0 }
  happen l (waits e) = elim l.state.current_buffer [
    | none ↦ l
    | some b ↦ written (step (sys_of b l) e) l
  ]

  unfoldable pub happen_all : Live → List Event → Live
  unfolding happen
  happen_all l [] = l
  happen_all l (e ∷ es) = happen_all (happen l e) es

  -- What the calls of clients and the waiting task leave alone.
  abbrev pub Beside : AppState env → AppState env → Type 0
  Beside s t =
      (t.round ≡ s.round)
      × (t.round_history ≡ s.round_history)
      × (t.pushed ≡ s.pushed)
      × (t.accountant ≡ s.accountant)
      × (t.config ≡ s.config)
      × (t.store ≡ s.store)

  -- What reaches the buffer of an event: the update of a call, or the step of the waiting task.
  abbrev pub reaches : Event → List Schedule.Event
  reaches (submits []) = []
  reaches (submits (first ∷ chunks)) = Schedule.pushes (delta_of first (first ∷ chunks)) ∷ []
  reaches (registers client_id auth_token fingerprint) = []
  reaches (heartbeats client_id) = []
  reaches (waits e) = e ∷ []

  -- The system follows the buffer's schedule.
  abbrev pub Follows : AppState env → Sys → Live → Type 0
  Follows s sys l =
      (b : RoundBuffer) × (l.state.current_buffer ≡ some b) × (sys_of b l ≡ sys) × Beside s l.state

  Quiet : AppState env → AppState env → Type 0
  Quiet s t = (t.current_buffer ≡ s.current_buffer) × Beside s t

  register-Quiet :
      (client_id auth_token : Text) (fingerprint : Option Text) (s : AppState env)
      → Quiet s (register env client_id auth_token fingerprint s).0
  unfolding register Quiet
  register-Quiet client_id auth_token fingerprint s =
      elim (Result-cases (check_credentials env client_id auth_token fingerprint s)) [
        | inl (u, e) ↦ rw (e, register) (refl, (refl, refl, refl, refl, refl, refl))
        | inr (why, e) ↦ rw (e, register) (refl, (refl, refl, refl, refl, refl, refl))
      ]

  heartbeat-Quiet : (client_id : Text) (s : AppState env) → Quiet s (heartbeat env client_id s).0
  unfolding heartbeat Quiet
  heartbeat-Quiet client_id s = (refl, (refl, refl, refl, refl, refl, refl))

  acknowledged-logged :
      (first : DeltaChunk) (chunks : List DeltaChunk) (l : Live) (r : Result BufferError (Unit {0}))
      → acknowledged
          (elim r as (λ r. Result DispatchError SubmitAck) [
            | err e ↦ err (push_error env e)
            | ok _ ↦ ok (accepted_ack env (delta_of first (first ∷ chunks)))
          ])
          (first ∷ chunks)
          l.accepted
        ≡ logged r (delta_of first (first ∷ chunks)) l.accepted
  acknowledged-logged first chunks l (ok u) = refl
  acknowledged-logged first chunks l (err e) = refl

  Beside-trans : (s t u : AppState env) → Beside s t → Beside t u → Beside s u
  Beside-trans s t u (a, b, c, d, e, f) (a', b', c', d', e', f') =
      (a' ∙ a, b' ∙ b, c' ∙ c, d' ∙ d, e' ∙ e, f' ∙ f)

  deliver-Follows :
      (l : Live) (b : RoundBuffer) (first : DeltaChunk) (chunks : List DeltaChunk)
      → Follows l.state
          (step (sys_of b l) (Schedule.pushes (delta_of first (first ∷ chunks))))
          (record l {
            state = (deliver env b (delta_of first (first ∷ chunks)) l.state).0;
            accepted =
                acknowledged
                  (deliver env b (delta_of first (first ∷ chunks)) l.state).1
                  (first ∷ chunks)
                  l.accepted;
          })
  unfolding deliver step
  deliver-Follows l b first chunks =
      let d = delta_of first (first ∷ chunks) in
      (
        (push b d).0,
        refl,
        ap
            (λ ds. record {
              buffer = (push b d).0;
              flusher = l.flusher;
              now = l.now;
              deadline = l.deadline;
              accepted = ds;
              pending = l.pending;
            })
            (acknowledged-logged first chunks l (push b d).1),
        (refl, refl, refl, refl, refl, refl),
      )

  happen-Follows :
      (l : Live) (b : RoundBuffer) (e : Event)
      → l.state.current_buffer ≡ some b
      → Follows l.state (run (sys_of b l) (reaches e)) (happen l e)
  unfolding happen run Quiet
  happen-Follows l b (submits []) h = (b, h, refl, (refl, refl, refl, refl, refl, refl))
  happen-Follows l b (submits (first ∷ chunks)) h =
      let d = delta_of first (first ∷ chunks) in
      let submitted : submit_delta env (first ∷ chunks) l.state ≡ deliver env b d l.state =
        rw (h, submit_delta) refl in
      subst
        (λ (x : AppState env × Result DispatchError SubmitAck).
          Follows l.state (step (sys_of b l) (Schedule.pushes d))
            (record l { state = x.0; accepted = acknowledged x.1 (first ∷ chunks) l.accepted }))
        (sym submitted) (deliver-Follows l b first chunks)
  happen-Follows l b (registers c a p) h =
      let (same, beside) = register-Quiet c a p l.state in (b, same ∙ h, refl, beside)
  happen-Follows l b (heartbeats c) h = (b, h, refl, (refl, refl, refl, refl, refl, refl))
  happen-Follows l b (waits e) h =
      let stepped : happen l (waits e) ≡ written (step (sys_of b l) e) l = rw (h, happen) refl in
      subst (Follows l.state (step (sys_of b l) e)) (sym stepped)
        ((step (sys_of b l) e).buffer, refl, refl, (refl, refl, refl, refl, refl, refl))

  abbrev pub reached : List Event → List Schedule.Event
  reached [] = []
  reached (e ∷ es) = reaches e ++ reached es

  pub happen_all-Follows :
      (l : Live) (b : RoundBuffer) (es : List Event)
      → l.state.current_buffer ≡ some b
      → Follows l.state (run (sys_of b l) (reached es)) (happen_all l es)
  unfolding happen_all run
  happen_all-Follows l b [] h = (b, h, refl, (refl, refl, refl, refl, refl, refl))
  happen_all-Follows l b (e ∷ es) h =
      let (b', h', same, beside) = happen-Follows l b e h in
      let (b'', h'', same', beside') = happen_all-Follows (happen l e) b' es h' in
      (
        b'',
        h'',
        same'
            ∙ ap (λ sys. run sys (reached es)) same
            ∙ sym (run-append (sys_of b l) (reaches e) (reached es)),
        Beside-trans l.state (happen l e).state (happen_all (happen l e) es).state beside beside',
      )
