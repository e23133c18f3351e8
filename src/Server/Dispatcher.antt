-- ===== src/Server/Dispatcher.antt =====
-- crates/conflux-server/src/dispatcher.rs: how the server answers the transport.
pub mod Chunks
pub mod Registration
use conflux_fl.Base.{
  ℕ, ◌≡◌, Bool, true, false, Option, none, some, List, [], ◌∷◌, ◌++◌, Result, ok, err, ◌>>=◌, ◌>>◌,
  map_err, leb, if◌then◌else◌, Text, text, Bytes, decimal,
}
use mathlib.Core.Option
use conflux_fl.Base.Sort.{sort_by}
use conflux_fl.Float.{F32}
use conflux_fl.Proto.{
  ClientDelta, DeltaChunk, TaskResponse, SubmitAck, RegisterResponse, HeartbeatResponse,
}
use conflux_fl.Proto.Codec.{encode_weights}
use conflux_fl.Buffer.{RoundBuffer, BufferError, closed_error, push}
use conflux_fl.Net.{
  DispatchError, other, not_allowed, unauthenticated, unknown_client, round_closed,
}
use conflux_fl.Registry.{ClientId, RegistryError, already_registered, not_registered}
use conflux_fl.Registry.Allowlist.{NodeIdentity, cert_fingerprint, shared_token}
use conflux_fl.Server.Auth.{verify_jwt_if_required}
use conflux_fl.Server.State.{Environment, AppState}

-- The control variate is chunked as the weights are.
abbrev pub extend : Option Bytes → Option Bytes → Option Bytes
extend held none = held
extend none (some slice) = some slice
extend (some bytes) (some slice) = some (bytes ++ slice)

-- The loop over the sorted chunks: the weights and the control variate so far.
unfoldable pub reassemble : Bytes → Option Bytes → List DeltaChunk → Bytes × Option Bytes
reassemble weights variate [] = (weights, variate)
reassemble weights variate (c ∷ cs) =
    reassemble (weights ++ c.payload) (extend variate c.control_variate) cs

abbrev pub chunk_le : DeltaChunk → DeltaChunk → Bool
chunk_le a b = leb a.chunk_index b.chunk_index

-- What is read from whichever chunk arrived first, and what is put together of all.
unfoldable pub delta_of : DeltaChunk → List DeltaChunk → ClientDelta
unfolding reassemble
delta_of first chunks =
    let (weights, variate) = reassemble [] none (sort_by chunk_le chunks) in
    record {
      client_id = first.client_id;
      round = first.round;
      weights = weights;
      num_samples = first.num_samples;
      local_steps = first.local_steps;
      local_loss = first.local_loss;
      control_variate = variate;
    }

abbrev pub task_of : ℕ → List F32 → Option (List F32) → TaskResponse
task_of round weights variate = record {
  task_id = text "round-" ++ decimal round;
  round = round;
  model_weights = encode_weights weights;
  control_variate = Option.map encode_weights variate;
}

module _ (env : Environment) where
  abbrev pub Answer : Type 0 → Type 0
  Answer A = AppState env × Result DispatchError A

  unfoldable pub fetch_task : AppState env → Result DispatchError TaskResponse
  fetch_task s = do
    weights ← map_err (λ e. other (env.store_error_text e)) (env.load_latest_weights s.store)
    ok (task_of s.round weights (env.control_variate s.aggregator))

  unfoldable pub push_error : BufferError → DispatchError
  push_error closed_error = round_closed
  push_error e = other (env.buffer_error_text e)

  abbrev pub accepted_ack : ClientDelta → SubmitAck
  accepted_ack delta = record {
    accepted = true;
    message =
        text "accepted delta from " ++ delta.client_id ++ text " for round " ++ decimal delta.round;
  }

  -- The push, and its answer.
  unfoldable pub deliver : RoundBuffer → ClientDelta → AppState env → Answer SubmitAck
  unfolding push_error
  deliver buffer delta s =
      let (buffer', outcome) = push buffer delta in
      (
        record s { current_buffer = some buffer' },
        elim outcome [ err e ↦ err (push_error e) | ok _ ↦ ok (accepted_ack delta) ],
      )

  unfoldable pub submit_delta : List DeltaChunk → AppState env → Answer SubmitAck
  unfolding delta_of deliver
  submit_delta [] s = (s, err (other (text "submit_delta called with zero chunks")))
  submit_delta (first ∷ chunks) s = elim s.current_buffer [
    | none ↦ (s, err (other (text "no round is currently accepting submissions")))
    | some buffer ↦ deliver buffer (delta_of first (first ∷ chunks)) s
  ]

  abbrev pub presented_identity : Text → Option Text → NodeIdentity
  presented_identity auth_token (some fingerprint) = cert_fingerprint fingerprint
  presented_identity auth_token none = shared_token auth_token

  -- The two gates, in the order in which they are passed.
  unfoldable pub check_credentials :
      Text → Text → Option Text → AppState env → Result DispatchError (Unit {0})
  check_credentials client_id auth_token peer_cert_fingerprint s = do
    map_err (λ e. unauthenticated (env.jwt_error_text e))
        (verify_jwt_if_required env.jsonwebtoken s.config.mode s.config.auth s.jwt_key auth_token
          client_id)
    if s.config.require_node_auth
        then (do
          allowed ←
              map_err (λ e. other (env.node_auth_error_text e))
                (env.check client_id (presented_identity auth_token peer_cert_fingerprint)
                  s.node_allowlist)
          if allowed then ok tt else err (not_allowed client_id))
        else ok tt

  unfoldable pub registered :
      Result RegistryError (Unit {0}) → Result DispatchError RegisterResponse
  registered (ok _) = ok (record { accepted = true; message = text "registered" })
  registered (err (already_registered id)) =
      ok (record { accepted = true; message = text "already registered" })
  registered (err e) = err (other (env.registry_error_text e))

  unfoldable pub register : Text → Text → Option Text → AppState env → Answer RegisterResponse
  unfolding check_credentials registered
  register client_id auth_token peer_cert_fingerprint s =
      elim (check_credentials client_id auth_token peer_cert_fingerprint s) [
        | err e ↦ (s, err e)
        | ok _ ↦
            (let (registry, outcome) = env.register client_id s.registry in
              (record s { registry = registry }, registered outcome))
      ]

  unfoldable pub heard : Result RegistryError (Unit {0}) → Result DispatchError HeartbeatResponse
  heard (ok _) = ok (record { acknowledged = true })
  heard (err (not_registered id)) = err (unknown_client id)
  heard (err e) = err (other (env.registry_error_text e))

  unfoldable pub heartbeat : Text → AppState env → Answer HeartbeatResponse
  unfolding heard
  heartbeat client_id s =
      let (registry, outcome) = env.heartbeat client_id s.registry in
      (record s { registry = registry }, heard outcome)
