-- ===== src/Replies.antt =====
-- The replies of the control plane: apps/common/action_helpers.hpp, with the numbers of the errors
-- of libs/runtime/include/voxorchestra/runtime/task_channel.hpp.
use vox_orchestra.Prelude.{true, none, some, [], if◌then◌else◌, Bytes, codes}
use vox_orchestra.Prelude.Int.{ℤ, pos}
use vox_orchestra.Prelude.Fallible.{returns, throws}
use vox_orchestra.Protocol.{Json, Envelope, default_envelope, ack_type, error_type}
use vox_orchestra.TaskChannel.{
  Error, ok, not_exist, bad_state, busy_error, timeout, cancelled, capacity,
}

-- `static_cast<int>`.
unfoldable pub error_number : Error → ℤ
error_number ok = pos 0
error_number not_exist = pos 1
error_number bad_state = pos 2
error_number busy_error = pos 3
error_number timeout = pos 4
error_number cancelled = pos 5
error_number capacity = pos 6

module _ (j : Json) where
  unfoldable pub build_ack : Envelope j.Value → j.Value → Envelope j.Value
  unfolding default_envelope
  build_ack request payload = record (default_envelope j) {
    type = ack_type;
    work_id = request.work_id;
    request_id = request.request_id;
    session_id = request.session_id;
    payload = payload;
    finish = true;
  }

  unfoldable pub build_error : Envelope j.Value → ℤ → Bytes → Envelope j.Value
  unfolding default_envelope
  build_error request code message = record (default_envelope j) {
    type = error_type;
    work_id = request.work_id;
    request_id = request.request_id;
    session_id = request.session_id;
    error = record { code = code; message = message };
    finish = true;
  }

  -- The text of the payload of a request to infer; empty where it is missing or no string.
  unfoldable pub extract_text : j.Value → Bytes
  extract_text payload = elim (j.member (codes "text") payload) [
    | none ↦ []
    | some v ↦
        if j.is_string v then (elim (j.get_string v) [ returns s ↦ s | throws _ ↦ [] ]) else []
  ]
