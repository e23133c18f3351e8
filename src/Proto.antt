-- ===== src/Proto.antt =====
-- crates/conflux-proto: the messages of `fl_transport.proto` that the server handles, and the
-- weight codec of src/lib.rs.
pub mod Codec
use conflux_fl.Base.{ℕ, Option, Text, Bytes, Bool}
use conflux_fl.Float.{F32}

-- One client's complete update.
pub record ClientDelta : Type 0 where
  pub client_id : Text
  pub round : ℕ
  pub weights : Bytes
  pub num_samples : ℕ
  pub local_steps : Option ℕ
  pub local_loss : Option F32
  pub control_variate : Option Bytes

-- One message of the stream in which a client sends its update.
pub record DeltaChunk : Type 0 where
  pub client_id : Text
  pub round : ℕ
  pub chunk_index : ℕ
  pub payload : Bytes
  pub num_samples : ℕ
  pub local_steps : Option ℕ
  pub local_loss : Option F32
  pub control_variate : Option Bytes

-- What a client is asked to train on.
pub record TaskResponse : Type 0 where
  pub task_id : Text
  pub round : ℕ
  pub model_weights : Bytes
  pub control_variate : Option Bytes

pub record SubmitAck : Type 0 where
  pub accepted : Bool
  pub message : Text

pub record RegisterResponse : Type 0 where
  pub accepted : Bool
  pub message : Text

pub record HeartbeatResponse : Type 0 where
  pub acknowledged : Bool
