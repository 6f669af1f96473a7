-- ===== src/UnitManager.antt =====
-- The manager of tasks and their nodes: apps/common/unit_manager.cpp and
-- apps/common/unit_manager.hpp. What a node answers to a call, or the error of the transport, is a
-- parameter. The log lines are left out.
pub mod Routes
pub mod Effects
mod Tests
use vox_orchestra.Prelude.{
  ℕ, ◌+◌, ◌%◌, ◌^◌, Bool, true, false, Option, none, some, List, [], ◌∷◌, ◌++◌, length, Bytes,
  codes, utf8, Dict, find, assign, erase,
}
use vox_orchestra.Prelude.Int.{ℤ, pos, negsuc}
use vox_orchestra.Prelude.Fallible.{Result, returns, throws}
use vox_orchestra.Protocol.{
  Json, Envelope, default_envelope, MessageType, setup_type, inference_type, cancel_type,
  task_info_type, exit_type, ack_type, error_type, ProtocolError, invalid_type, code_number,
  message_type_to_string, to_json,
}
use vox_orchestra.Protocol.Parse.{from_json}
use vox_orchestra.Replies.{build_error, error_number}
use vox_orchestra.TaskChannel.{not_exist, capacity}
use vox_orchestra.TaskRegistry.{Registry}
use vox_orchestra.TaskRegistry

pub record Manager : Type 0 where
  pub registry : Registry
  -- `node_endpoints_.size()`.
  pub node_count : ℕ
  pub route : Dict ℕ
  pub next_node : ℕ

unfoldable pub new : ℕ → ℕ → Manager
new nodes max_tasks = record {
  registry = TaskRegistry.new max_tasks;
  node_count = nodes;
  route = [];
  next_node = 0;
}

-- A call of the node with this index: its reply, or the `what()` of the transport's error.
abbrev pub NodeCall : Type 0
NodeCall = ℕ → Bytes → Result Bytes Bytes

-- The route and the id of a task are taken back.
unfoldable pub forget : Bytes → Manager → Manager
unfolding TaskRegistry.release
forget id m = record m {
  route = erase id m.route;
  registry = (TaskRegistry.release id m.registry).0;
}

-- The type of the reply, behind a request to set up or to exit.
after_setup : MessageType → Bytes → Manager → Manager
unfolding forget
after_setup error_type id m = forget id m
after_setup _ id m = m

after_action : MessageType → MessageType → Bytes → Manager → Manager
unfolding forget
after_action exit_type ack_type id m = forget id m
after_action _ _ id m = m

module _ (j : Json) (call : NodeCall) where
  unfoldable pub forward : Envelope j.Value → ℕ → Envelope j.Value
  unfolding to_json from_json build_error code_number
  forward request node = elim (to_json j request) [
    | throws e ↦ build_error j request (code_number e.code) e.what
    | returns text ↦ elim (call node text) [
      | throws what ↦ build_error j request (negsuc 0) (codes "node_unreachable: " ++ what)
      | returns answer ↦ elim (from_json j answer) [
        | throws e ↦ build_error j request (code_number e.code) e.what
        | returns reply ↦ reply
      ]
    ]
  ]

  -- What `setup` does with the id that the registry gave.
  allocated : Bytes → Envelope j.Value → Manager → Manager × Envelope j.Value
  unfolding forward after_setup build_error error_number
  allocated [] request m = (m, build_error j request (error_number capacity) (utf8 "任务容量已耗尽"))
  allocated (b ∷ bs) request m =
      let id = b ∷ bs in
      let node = m.next_node % m.node_count in
      let m' : Manager = record m {
        next_node = (m.next_node + 1) % 2 ^ 64;
        route = assign id node m.route;
      } in
      let reply = forward (record request { work_id = id }) node in
      (after_setup reply.type id m', reply)

  unfoldable pub handle_setup : Envelope j.Value → Manager → Manager × Envelope j.Value
  unfolding allocated TaskRegistry.allocate
  handle_setup request m =
      let (registry', id) = TaskRegistry.allocate m.registry in
      allocated id request (record m { registry = registry' })

  -- The other four actions, with the node that the table has for the task.
  routed : Option ℕ → Envelope j.Value → Manager → Manager × Envelope j.Value
  unfolding forward after_action build_error error_number
  routed none request m =
      (m, build_error j request (error_number not_exist) (utf8 "未知任务: " ++ request.work_id))
  routed (some node) request m =
      let reply = forward request node in
      (after_action request.type reply.type request.work_id m, reply)

  unfoldable pub handle_action : Envelope j.Value → Manager → Manager × Envelope j.Value
  unfolding routed
  handle_action request m = routed (find request.work_id m.route) request m

  refused : Envelope j.Value → Manager → Manager × Envelope j.Value
  unfolding build_error code_number message_type_to_string
  refused request m = (
    m,
    build_error j request (code_number invalid_type)
        (utf8 "Manager 不支持该消息类型: " ++ message_type_to_string request.type),
  )

  -- The `switch` on the type.
  switch : MessageType → Envelope j.Value → Manager → Manager × Envelope j.Value
  unfolding handle_setup handle_action refused
  switch setup_type request m = handle_setup request m
  switch inference_type request m = handle_action request m
  switch cancel_type request m = handle_action request m
  switch task_info_type request m = handle_action request m
  switch exit_type request m = handle_action request m
  switch _ request m = refused request m

  unfoldable pub handle : Envelope j.Value → Manager → Manager × Envelope j.Value
  unfolding switch
  handle request m = switch request.type request m

  -- The last step, `to_json`, stands outside the `try` block.
  unfoldable pub handle_request : Bytes → Manager → Manager × Result ProtocolError Bytes
  unfolding handle from_json to_json build_error default_envelope code_number
  handle_request text m = elim (from_json j text) [
    | throws e ↦ (m, to_json j (build_error j (default_envelope j) (code_number e.code) e.what))
    | returns request ↦ let out = handle request m in (out.0, to_json j out.1)
  ]
