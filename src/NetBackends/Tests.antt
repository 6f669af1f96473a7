-- ===== src/NetBackends/Tests.antt =====
-- The remote back ends at concrete inputs.
use vox_orchestra.Prelude.{◌≡◌, refl, true, false, some, [], ◌∷◌, ◌++◌, Bytes, codes, arith}
use vox_orchestra.Prelude.Int.{pos}
use vox_orchestra.Prelude.Fallible.{returns}
use vox_orchestra.Protocol.{Envelope, default_envelope, ack_type, to_object}
use vox_orchestra.Protocol.Trees.{
  Tree, node, field, stop, string_leaf, write, fields_of, parse_tree, leaf, is_node, member_of,
  int_of, string_of, bool_of, is_text, trees,
}
use vox_orchestra.SessionPipeline.{k_pcm}
use vox_orchestra.Dataplane.{
  DataplaneEvent, dataplane_event_from_backend, dataplane_event_to_envelope, make_topic,
}
use vox_orchestra.NetBackends.{new, cancel, to_backend_event}
use vox_orchestra.NetBackends.Samples.{silence, to_backend_event-half}
use vox_orchestra.NetBackends.Driving.{Config, Round, answered, cancelled, drive_inference}
use vox_orchestra.NetBackends.Replay.{
  Replays, stream_of, arrivals_of, drive_inference-Replays, drive_inference-cancel,
}

to_backend_event-half_example :
    to_backend_event (
      dataplane_event_from_backend
        (record { kind = k_pcm; text = []; pcm = (7 ∷ 300 ∷ []) ++ ((258 ∷ []) ++ 5 ∷ 6 ∷ []) }))
    ≡ returns (record { kind = k_pcm; text = []; pcm = (7 ∷ 300 ∷ []) ++ 2 ∷ silence 2 })
to_backend_event-half_example =
    to_backend_event-half k_pcm [] (7 ∷ 300 ∷ []) (258 ∷ []) (5 ∷ 6 ∷ []) refl (omega arith)
      (omega arith, (omega arith, tt))

abbrev config : Config
config = record { work_id = codes "w"; rpc_endpoint = codes "e"; rpc_timeout = 90 }

abbrev no_value : Tree → Bytes
no_value v = codes "type_error"

abbrev ended : DataplaneEvent
ended = record { kind = codes "done"; text = codes "hi"; pcm = []; index = pos 0; finish = true }

abbrev answer : Envelope Tree
answer = record (default_envelope trees) {
  type = ack_type;
  payload = node (field (codes "text") (string_leaf (codes "ok")) stop);
}

-- An event of another stream, the last event of this one, and the acknowledgement.
abbrev round : Round
round = record {
  cancels = false;
  now = 5;
  later = 6;
  arrivals =
      (
        codes "w/old/",
        write (to_object trees (dataplane_event_to_envelope trees ended (codes "w") (codes "old"))),
      )
      ∷ (
        codes "w/l0/",
        write (to_object trees (dataplane_event_to_envelope trees ended (codes "w") (codes "l0"))),
      )
      ∷ [];
  response = some (write (to_object trees answer));
}

answered_test :
    (drive_inference trees no_value config 0 (codes "l0") (round ∷ []) new).1
    ≡ answered (codes "ok")
unfolding drive_inference new write to_object fields_of dataplane_event_to_envelope parse_tree leaf
    is_node member_of int_of string_of bool_of is_text
answered_test = refl

drive_inference-Replays_example :
    Replays new.heard
      (drive_inference trees no_value config 0 (codes "l0") (round ∷ []) new).0.heard
      (stream_of trees (make_topic (codes "w") (codes "l0")) (arrivals_of (round ∷ [])))
drive_inference-Replays_example =
    drive_inference-Replays trees no_value config 0 (codes "l0") (round ∷ []) new

drive_inference-cancel_example :
    let (s', out) =
      drive_inference trees no_value config 0 (codes "l0") (round ∷ []) (cancel new) in
    (out ≡ cancelled) × (s'.heard ≡ new.heard) × (s'.cancelled ≡ true)
drive_inference-cancel_example =
    drive_inference-cancel trees no_value config 0 (codes "l0") round [] new
