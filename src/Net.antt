-- ===== src/Net.antt =====
-- crates/conflux-net: the errors that a dispatcher answers with and the gRPC status that each becomes
-- (src/dispatcher.rs), and the service in front of it (src/service.rs).
pub mod Service
pub mod Jwt
use conflux_fl.Base.{ℕ, ◌++◌, Text, text, decimal}

pub data DispatchError : Type 0 where
  unknown_client : Text → DispatchError
  not_allowed : Text → DispatchError
  unauthenticated : Text → DispatchError
  round_closed : DispatchError
  -- client_id, limit_bytes, received_bytes
  update_too_large : Text → ℕ → ℕ → DispatchError
  other : Text → DispatchError

-- The gRPC codes that the service answers with.
pub data Code : Type 0 where
  not_found permission_denied unauthenticated_code failed_precondition resource_exhausted internal :
      Code

pub record Status : Type 0 where
  pub code : Code
  pub message : Text

unfoldable pub to_status : DispatchError → Status
to_status (unknown_client id) = record { code = not_found; message = text "unknown client " ++ id }
to_status (not_allowed id) = record {
  code = permission_denied;
  message = text "client " ++ id ++ text " is not on the node allow-list";
}
to_status (unauthenticated msg) = record { code = unauthenticated_code; message = msg }
to_status round_closed = record {
  code = failed_precondition;
  message = text "this round already closed; fetch the current task and resubmit";
}
to_status (update_too_large client_id limit_bytes received_bytes) = record {
  code = resource_exhausted;
  message =
      text "client "
      ++ client_id
      ++ text "'s update exceeded the "
      ++ decimal limit_bytes
      ++ text "-byte limit (at least "
      ++ decimal received_bytes
      ++ text " bytes received before the stream was cut)";
}
to_status (other msg) = record { code = internal; message = msg }
