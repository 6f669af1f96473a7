-- ===== src/UnitManager/Tests.antt =====
-- The manager at concrete inputs: two nodes, of which one cannot be reached.
use vox_orchestra.Prelude.{refl, [], ◌==◌, if◌then◌else◌, codes, find, contains, arith}
use vox_orchestra.Prelude.Fallible.{returns, throws}
use vox_orchestra.Protocol.{Envelope, default_envelope, setup_type, exit_type, to_object}
use vox_orchestra.Protocol.Trees.{Tree, trees, write}
use vox_orchestra.Replies.{build_ack}
use vox_orchestra.TaskRegistry.{work_id, is_alive}
use vox_orchestra.TaskRegistry
use vox_orchestra.UnitManager.{Manager, new, NodeCall, handle}
use vox_orchestra.UnitManager.Routes.{IsValid, new-IsValid}
use vox_orchestra.UnitManager.Effects.{Settled, SetUp, handle-Settled, handle_setup_lem}

abbrev request : Envelope Tree
request = record (default_envelope trees) { type = setup_type; request_id = codes "r-1" }

-- The first node acknowledges, the second cannot be reached.
node_call : NodeCall
unfolding build_ack
node_call n text =
    if n == 0
    then returns (write (to_object trees (build_ack trees request (trees.object []))))
    else throws (codes "timeout")

abbrev start : Manager
start = new 2 0

start-IsValid : IsValid start
start-IsValid = new-IsValid 2 0 (omega arith)

abbrev one_task : Manager
one_task = (handle trees node_call request start).0

abbrev leave : Envelope Tree
leave = record request { type = exit_type; work_id = codes "w-0" }

handle_setup_lem_example :
    SetUp
      (handle trees node_call request start).1.type
      (work_id start.registry.next_seq)
      (codes "w-0")
      start
      one_task
unfolding default_envelope is_alive new TaskRegistry.new contains find
handle_setup_lem_example =
    handle_setup_lem trees node_call request (codes "w-0") start start-IsValid refl refl

handle-Settled_example :
    let out = handle trees node_call leave one_task in
    Settled exit_type out.1.type (codes "w-0") (codes "w-1") one_task out.0
unfolding default_envelope
handle-Settled_example = handle-Settled trees node_call leave (codes "w-1") one_task (λ e. cc)
