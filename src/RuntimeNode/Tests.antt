-- ===== src/RuntimeNode/Tests.antt =====
-- A node with one task, at concrete inputs.
use vox_orchestra.Prelude.{[], ◌∷◌, codes}
use vox_orchestra.Prelude.Int.{pos}
use vox_orchestra.Protocol.{Envelope, default_envelope, setup_type, inference_type, exit_type}
use vox_orchestra.Protocol.Trees.{Tree, trees}
use vox_orchestra.TaskChannel.{done}
use vox_orchestra.TaskRuntime.{Runtime, exits, is_alive}
use vox_orchestra.TaskRuntime
use vox_orchestra.TaskRuntime.Valid.{IsValid, new-IsValid}
use vox_orchestra.RuntimeNode.{Surroundings, handle}
use vox_orchestra.RuntimeNode.Effects.{handle_runtime-IsValid}

-- While a backend runs, another thread ends the task.
abbrev around : Surroundings
around = record {
  make = λ a p d asked. record { code = done; text = p };
  now = 0;
  others = exits (codes "w-0") ∷ [];
}

abbrev set_up_request : Envelope Tree
set_up_request = record (default_envelope trees) {
  type = setup_type;
  work_id = codes "w-0";
  request_id = codes "r-1";
}

abbrev infer_request : Envelope Tree
infer_request = record set_up_request { type = inference_type }

abbrev exit_request : Envelope Tree
exit_request = record set_up_request { type = exit_type }

abbrev start : Runtime
start = TaskRuntime.new 4

abbrev one_task : Runtime
one_task = (handle trees (pos 0) around set_up_request start).0

one_task-IsValid : IsValid one_task
one_task-IsValid = handle_runtime-IsValid trees (pos 0) around set_up_request start (new-IsValid 4)
