-- ===== src/Tests/Clients.antt =====
-- Clients of the small deployment: submissions, registrations, credentials.
use conflux_fl.Base.{
  Text, ℕ, suc, ◌≡◌, ◌↔◌, ◌⊎◌, ◌<◌, ◌≤◌, refl, none, some, Bool, true, false, List, [], ◌∷◌, map,
  Result, ok, err, arith, text, Text-discrete,
}
use mathlib.Core.List.Perm
use conflux_fl.Base.Dict.{get}
use conflux_fl.Buffer.{RoundBuffer, push}
use conflux_fl.Buffer
use conflux_fl.Config.{research, jwt}
use conflux_fl.Net.{DispatchError, Status, resource_exhausted, round_closed}
use conflux_fl.Net.Service.{total_bytes, answered, submit_delta-gather}
use conflux_fl.Net.Service
use conflux_fl.Proto.{DeltaChunk, SubmitAck}
use conflux_fl.Registry.{empty}
use conflux_fl.Registry.Lifecycle.{
  Call, registers, heartbeats, sweeps, run, history, times, run-history,
}
use conflux_fl.Registry.Allowlist.{
  shared_token, check, apply, Grant, allows, revokes, standing, check-apply,
}
use conflux_fl.Server.Auth.{IsAdmitted, verify_jwt_if_required, verify_jwt_if_required_iff}
use conflux_fl.Server.Dispatcher.{submit_delta, register, registered}
use conflux_fl.Server.AdminAuth.{
  SocketAddr, v4, Request, MayPass, require_admin_token, validate_admin_binding, unauthorized,
  require_admin_token-MayPass,
}
use conflux_fl.Server.Dispatcher.Chunks.{Piece, submit_delta-chunks}
use conflux_fl.Server.Dispatcher.Registration.{IsCleared, register-IsCleared}
use conflux_fl.Server.State.{AppState}
use conflux_fl.Tests.World.{world, idle, plain_tokens, update, ann, jo}

-- Two pieces of one update.
abbrev pieces : List Piece
pieces = (7 ∷ 0 ∷ [], none) ∷ (0 ∷ 0 ∷ [], none) ∷ []

abbrev front : DeltaChunk
front = record {
  client_id = ann;
  round = 1;
  chunk_index = 0;
  payload = 7 ∷ 0 ∷ [];
  num_samples = 5;
  local_steps = none;
  local_loss = none;
  control_variate = none;
}

abbrev back : DeltaChunk
back = record front { chunk_index = 1; payload = 0 ∷ 0 ∷ [] }

abbrev buffer : RoundBuffer
buffer = record { round = 1; quorum = 2; state = Buffer.open_with []; permit = false }

abbrev collecting : AppState world
collecting = record idle { current_buffer = some buffer }

submit_delta-chunks_example :
    ((submit_delta world (back ∷ front ∷ []) collecting).0.current_buffer
      ≡ some (push buffer (update ann 7)).0)
    × (((push buffer (update ann 7)).1 ≡ ok tt)
        ↔ ((ack : SubmitAck) × ((submit_delta world (back ∷ front ∷ []) collecting).1 ≡ ok ack)))
submit_delta-chunks_example =
    submit_delta-chunks world (update ann 7) pieces back (front ∷ []) collecting buffer
      (Perm.swap back front []) refl refl refl

abbrev refuse : List DeltaChunk → ℕ → ℕ × Result DispatchError SubmitAck
refuse chunks calls = (suc calls, err round_closed)

submit_delta-gather_example :
    ((total_bytes (front ∷ back ∷ []) ≤ 3)
      × (Service.submit_delta refuse 3 (map ok (front ∷ back ∷ [])) 0
          ≡ answered refuse (front ∷ back ∷ []) 0))
    ⊎ ((3 < total_bytes (front ∷ back ∷ []))
        × ((status : Status) × (Service.submit_delta refuse 3 (map ok (front ∷ back ∷ [])) 0
              ≡ (0, err status))
            × (status.code ≡ resource_exhausted)))
submit_delta-gather_example = submit_delta-gather refuse 3 (front ∷ back ∷ []) 0 (omega arith)

register-IsCleared_example :
    (IsCleared world ann (text "t") none idle
      × (register world ann (text "t") none idle ≡ (
        record idle { registry = (world.register ann []).0 },
        registered world (world.register ann []).1,
      )))
    ⊎ ((e : DispatchError) × (register world ann (text "t") none idle ≡ (idle, err e))
        × (¬ IsCleared world ann (text "t") none idle))
register-IsCleared_example = register-IsCleared world ann (text "t") none idle

verify_jwt_if_required_iff_example :
    (verify_jwt_if_required plain_tokens research jwt (some (text "k")) ann ann ≡ ok tt)
    ↔ IsAdmitted plain_tokens research jwt (some (text "k")) ann ann
verify_jwt_if_required_iff_example =
    verify_jwt_if_required_iff plain_tokens research jwt (some (text "k")) ann ann

-- A client that falls silent, and one that does not.
abbrev day : List Call
day = registers ann 0 ∷ registers jo 1 ∷ heartbeats ann 9 ∷ sweeps 5 10 ∷ []

run-history_example : times (get Text-discrete jo (run empty day)) ≡ history jo none day
run-history_example = run-history jo day

abbrev grants : List Grant
grants =
    allows ann (shared_token (text "old"))
    ∷ allows ann (shared_token (text "new"))
    ∷ revokes jo
    ∷ []

check-apply_example :
    (verdict : Bool) × (check ann (shared_token (text "old")) (apply [] grants) ≡ ok verdict)
    × ((verdict ≡ true) ↔ (standing ann none grants ≡ some (shared_token (text "old"))))
check-apply_example = check-apply ann (shared_token (text "old")) grants

-- An admin interface on a public address, with a token.
abbrev public : SocketAddr
public = record { ip = v4 0x08080808; port = 8080 }

abbrev listing : Request
listing = record { path = text "/status"; authorization = some (text "Bearer key") }

abbrev answer : Request → Text
answer request = request.path

require_admin_token-MayPass_example :
    (MayPass (λ a. []) some answer public (some (text "key")) listing
      × (require_admin_token (λ a. []) some answer (some (text "key")) listing
          ≡ ok (text "/status")))
    ⊎ ((¬ MayPass (λ a. []) some answer public (some (text "key")) listing)
        × (require_admin_token (λ a. []) some answer (some (text "key")) listing
            ≡ err unauthorized))
unfolding validate_admin_binding
require_admin_token-MayPass_example =
    require_admin_token-MayPass (λ a. []) some answer public (some (text "key")) listing refl
