-- ===== src/EdgeGateway.antt =====
-- The gateway's handler of one frame: apps/edge_gateway/edge_gateway.cpp. What the manager answers
-- to a call, or the error of the transport, is a parameter. The log lines are left out.
pub mod Frames
mod Tests
use vox_orchestra.Prelude.{
  Bool, true, false, Option, none, some, List, [], ◌∷◌, ◌++◌, Bytes, codes, utf8,
}
use vox_orchestra.Prelude.Int.{ℤ, negsuc}
use vox_orchestra.Prelude.Fallible.{Result, returns, throws}
use vox_orchestra.Protocol.{
  Json, Envelope, default_envelope, MessageType, setup_type, inference_type, cancel_type,
  task_info_type, exit_type, error_type, ProtocolError, invalid_type, code_number,
  message_type_to_string, to_json,
}
use vox_orchestra.Protocol.Parse.{from_json}

-- What one frame makes the gateway send: to the manager, and to the client.
pub record Sent : Type 0 where
  pub asked : Option Bytes
  pub reply : Bytes

-- A call of the manager: its reply, or the `what()` of the transport's error.
abbrev pub ManagerCall : Type 0
ManagerCall = Bytes → Result Bytes Bytes

-- The cases of the `switch` that forward.
unfoldable pub is_action : MessageType → Bool
is_action setup_type = true
is_action inference_type = true
is_action cancel_type = true
is_action task_info_type = true
is_action exit_type = true
is_action _ = false

module _ (j : Json) (call : ManagerCall) where
  unfoldable pub error_envelope : Envelope j.Value → ℤ → Bytes → Envelope j.Value
  unfolding default_envelope
  error_envelope request code message = record (default_envelope j) {
    type = error_type;
    work_id = request.work_id;
    request_id = request.request_id;
    session_id = request.session_id;
    error = record { code = code; message = message };
    finish = true;
  }

  -- `conn->send(env.to_json() + "\n")`; what `to_json` throws leaves the handler.
  unfoldable pub send : Option Bytes → Envelope j.Value → Result ProtocolError Sent
  unfolding to_json
  send asked m = elim (to_json j m) [
    | throws e ↦ throws e
    | returns text ↦ returns (record { asked = asked; reply = text ++ b'\n' ∷ [] })
  ]

  -- The request once more, for the ids of an error reply.
  parsed_or_empty : Bytes → Envelope j.Value
  unfolding from_json default_envelope
  parsed_or_empty frame = elim (from_json j frame) [
    | throws _ ↦ default_envelope j
    | returns request ↦ request
  ]

  unfoldable pub forward_to_manager : Bytes → Result ProtocolError Sent
  unfolding send parsed_or_empty error_envelope
  forward_to_manager frame = elim (call frame) [
    | throws what ↦
        send (some frame) (
          error_envelope (parsed_or_empty frame) (negsuc 0) (codes "manager_unreachable: " ++ what))
    | returns reply ↦ returns (record { asked = some frame; reply = reply ++ b'\n' ∷ [] })
  ]

  unfoldable pub reject_envelope : Envelope j.Value → Envelope j.Value
  unfolding error_envelope code_number message_type_to_string
  reject_envelope request =
      error_envelope request (code_number invalid_type)
        (utf8 "客户端不允许发送该类型: " ++ message_type_to_string request.type)

  unfoldable pub bad_frame_envelope : ProtocolError → Envelope j.Value
  unfolding error_envelope code_number default_envelope
  bad_frame_envelope e = error_envelope (default_envelope j) (code_number e.code) e.what

  -- The `switch`, by whether the type is an action.
  switched : Bool → Bytes → Envelope j.Value → Result ProtocolError Sent
  unfolding forward_to_manager send reject_envelope
  switched true frame request = forward_to_manager frame
  switched false frame request = send none (reject_envelope request)

  -- What follows the parsing of the frame.
  handled : Result ProtocolError (Envelope j.Value) → Bytes → Result ProtocolError Sent
  unfolding send bad_frame_envelope switched is_action
  handled (throws e) frame = send none (bad_frame_envelope e)
  handled (returns request) frame = switched (is_action request.type) frame request

  unfoldable pub handle_message : Bytes → Result ProtocolError Sent
  unfolding handled
  handle_message frame = handled (from_json j frame) frame
