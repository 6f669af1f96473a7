-- ===== src/EdgeGateway/Tests.antt =====
-- The handler at concrete inputs.
use vox_orchestra.Prelude.{some, [], ◌∷◌, ◌++◌, Bytes, codes}
use vox_orchestra.Prelude.Fallible.{returns}
use vox_orchestra.Protocol.{Envelope, default_envelope, cancel_type, to_object}
use vox_orchestra.Protocol.Trees.{Tree, trees, write}
use vox_orchestra.EdgeGateway.{Sent, ManagerCall}

abbrev manager : ManagerCall
manager = λ text. returns (codes "done")

abbrev request : Envelope Tree
request = record (default_envelope trees) { type = cancel_type; work_id = codes "w-0" }

abbrev frame : Bytes
frame = write (to_object trees request)

abbrev sent : Sent
sent = record { asked = some frame; reply = codes "done" ++ b'\n' ∷ [] }
