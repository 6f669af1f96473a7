-- ===== src/RuntimeNode.antt =====
-- The request handler of a node: apps/common/runtime_node.cpp and apps/common/runtime_node.hpp.
-- The back ends, the clock, and the calls that other threads make while a backend runs are
-- parameters. The events that a backend publishes on its way are left out.
pub mod Effects
mod Tests
use vox_orchestra.Prelude.{
  ℕ, Bool, true, false, Option, none, some, List, [], ◌∷◌, ◌++◌, Bytes, codes, utf8,
}
use vox_orchestra.Prelude.Int.{ℤ, pos}
use vox_orchestra.Prelude.Fallible.{Result, returns, throws}
use vox_orchestra.Protocol.{
  Json, Envelope, default_envelope, MessageType, setup_type, inference_type, cancel_type,
  task_info_type, exit_type, ProtocolError, invalid_type, code_number, message_type_to_string,
  to_json,
}
use vox_orchestra.Protocol.Parse.{from_json}
use vox_orchestra.Replies.{build_ack, build_error, error_number, extract_text}
use vox_orchestra.TaskChannel.{Channel, Error, ok, not_exist, Backend, error_name, state_name}
use vox_orchestra.TaskRuntime.{Runtime, Call}
use vox_orchestra.TaskRuntime

-- What surrounds a request: the backend of each task, the time, and the calls of other threads.
pub record Surroundings : Type 0 where
  pub make : ℕ → Backend
  pub now : ℕ
  pub others : List Call

module _ (j : Json) (infer_timeout : ℤ) (around : Surroundings) where
  -- The reply by the error of the runtime's call.
  unfoldable pub reply_to : Error → Envelope j.Value → j.Value → Envelope j.Value
  unfolding build_ack build_error error_number error_name
  reply_to ok request payload = build_ack j request payload
  reply_to e request payload = build_error j request (error_number e) (error_name e)

  status_ok : j.Value
  status_ok = j.object ((codes "status", j.of_string (codes "ok")) ∷ [])

  -- `out`, which stays empty where nothing is written to it.
  written : Option Bytes → Bytes
  written none = []
  written (some text) = text

  info_of : Channel → j.Value
  unfolding state_name
  info_of c = j.object (
      (codes "state", j.of_string (state_name c.state))
      ∷ (codes "in_flight", j.of_string c.in_flight)
      ∷ (codes "inference_count", j.of_int (pos c.inference_count))
      ∷ (codes "setup_payload", j.of_string c.setup_payload)
      ∷ [])

  info_reply : Option Channel → Envelope j.Value → Envelope j.Value
  unfolding info_of build_ack build_error error_number
  info_reply none request =
      build_error j request (error_number not_exist) (utf8 "未知任务: " ++ request.work_id)
  info_reply (some c) request = build_ack j request (info_of c)

  refused : Envelope j.Value → Envelope j.Value
  unfolding build_error code_number message_type_to_string
  refused request =
      build_error j request (code_number invalid_type)
        (utf8 "节点不支持该消息类型: " ++ message_type_to_string request.type)

  -- The `switch` on the type.
  switch : MessageType → Envelope j.Value → Runtime → Runtime × Envelope j.Value
  unfolding reply_to status_ok written info_reply refused extract_text
  switch setup_type request r =
      let (r', e, id) = TaskRuntime.setup_with request.work_id (j.dump request.payload) r in
      (r', reply_to e request status_ok)
  switch inference_type request r =
      let (r', e, out) =
        TaskRuntime.inference around.make request.work_id request.request_id
          (extract_text j request.payload) around.now infer_timeout around.others r in
      (r', reply_to e request (j.object ((codes "text", j.of_string (written out)) ∷ [])))
  switch cancel_type request r =
      let (r', e) = TaskRuntime.cancel request.work_id r in (r', reply_to e request status_ok)
  switch task_info_type request r = (r, info_reply (TaskRuntime.taskinfo request.work_id r) request)
  switch exit_type request r =
      let (r', e) = TaskRuntime.exit request.work_id r in (r', reply_to e request status_ok)
  switch _ request r = (r, refused request)

  unfoldable pub handle : Envelope j.Value → Runtime → Runtime × Envelope j.Value
  unfolding switch
  handle request r = switch request.type request r

  unfoldable pub handle_request : Bytes → Runtime → Runtime × Result ProtocolError Bytes
  unfolding handle from_json to_json build_error default_envelope code_number
  handle_request text r = elim (from_json j text) [
    | throws e ↦ (r, to_json j (build_error j (default_envelope j) (code_number e.code) e.what))
    | returns request ↦ let out = handle request r in (out.0, to_json j out.1)
  ]
