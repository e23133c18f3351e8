-- ===== src/Server/State.antt =====
-- crates/conflux-server/src/app_state.rs: `AppState`, one experiment's state. The backends and the
-- strategies that it holds as trait objects or backend enums are the fields of `Environment`.
use conflux_fl.Base.{ℕ, Bool, Option, List, Result, Text, Bytes}
use conflux_fl.Float.{F32, Arithmetic, Arithmetic64}
use conflux_fl.Proto.{ClientDelta, TaskResponse}
use conflux_fl.Buffer.{RoundBuffer, BufferError}
use conflux_fl.Config.{ResolvedConfig}
use conflux_fl.Core.{AggregatorError}
use conflux_fl.Net.Jwt.{Jsonwebtoken, JwtAuthError}
use conflux_fl.Privacy.Rdp.{Tally}
use conflux_fl.Privacy.Accountant.{RdpAccountant}
use conflux_fl.Registry.{ClientId, RegistryError}
use conflux_fl.Registry.Allowlist.{NodeIdentity, NodeAuthError}
use conflux_fl.Server.History.{RoundHistory}
use conflux_fl.Server.Verdict.{RoundVerdict}
use conflux_fl.Store.{StoreError}

pub record Environment : Type 1 where
  -- `Store`
  pub Store : Type 0
  pub load_latest_weights : Store → Result StoreError (List F32)
  pub save_checkpoint : Store → ℕ → List F32 → Store × Result StoreError (Unit {0})
  -- `Registry`
  pub Registry : Type 0
  pub register : ClientId → Registry → Registry × Result RegistryError (Unit {0})
  pub heartbeat : ClientId → Registry → Registry × Result RegistryError (Unit {0})
  pub active_clients : Registry → Result RegistryError (List ClientId)
  -- `NodeAllowlist`
  pub NodeAllowlist : Type 0
  pub check : ClientId → NodeIdentity → NodeAllowlist → Result NodeAuthError Bool
  -- `PrivacyRoundLog`
  pub RoundLog : Type 0
  pub append_round : F32 → F32 → RoundLog → RoundLog × Result StoreError (Unit {0})
  pub append_round_for_client :
      Text → F32 → F32 → RoundLog → RoundLog × Result StoreError (Unit {0})
  -- `Aggregator`, with what it keeps from round to round.
  pub Aggregator : Type 0
  pub aggregate : List ClientDelta → Aggregator → Aggregator × Result AggregatorError (List F32)
  pub control_variate : Aggregator → Option (List F32)
  pub requires_trusted_reference : Aggregator → Bool
  pub requires_candidate_scores : Aggregator → Bool
  -- The model that was sent out, with the reference that the sidecar computed or its scores.
  pub set_trusted_reference : List F32 → List F32 → Aggregator → Aggregator
  pub set_candidate_scores : List F32 → List (Text × F32) → Aggregator → Aggregator
  -- `ClientSelector`: candidates, how many, round.
  pub select : List Text → ℕ → ℕ → List Text
  -- `PrivacyMechanism::transform`, with the randomness that is drawn in a round for the update at a
  -- position of the batch.
  pub transform : ℕ → ℕ → List F32 → List F32
  -- `TrustedReferenceTransport`; a failure gives the reason.
  pub Sidecar : Type 0
  pub reference_update : ℕ → Bytes → Sidecar → Result Text Bytes
  pub score_updates : ℕ → Bytes → List (Text × Bytes) → Sidecar → Result Text (List (Text × F32))
  -- The crates and the hardware below.
  pub jsonwebtoken : Jsonwebtoken
  pub arithmetic : Arithmetic
  pub arithmetic64 : Arithmetic64
  pub iteration : List Tally → List Tally
  -- `to_string` of the errors, which `thiserror` generates.
  pub store_error_text : StoreError → Text
  pub registry_error_text : RegistryError → Text
  pub node_auth_error_text : NodeAuthError → Text
  pub jwt_error_text : JwtAuthError → Text
  pub buffer_error_text : BufferError → Text

-- `pushed` lists what was broadcast to push-mode subscribers, newest first. The health of the round
-- loop is in Server/Loop.
pub record AppState (env : Environment) : Type 0 where
  pub config : ResolvedConfig
  pub registry : env.Registry
  pub round_verdict : RoundVerdict
  pub round_history : RoundHistory
  pub store : env.Store
  pub node_allowlist : env.NodeAllowlist
  pub aggregator : env.Aggregator
  pub trusted_reference : Option env.Sidecar
  pub accountant : RdpAccountant
  pub accountant_log : Option env.RoundLog
  pub round : ℕ
  pub current_buffer : Option RoundBuffer
  pub pushed : List TaskResponse
  pub jwt_key : Option env.jsonwebtoken.Key
