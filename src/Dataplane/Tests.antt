-- ===== src/Dataplane/Tests.antt =====
-- Events at concrete inputs.
use vox_orchestra.Prelude.{◌≡◌, refl, true, false, List, [], ◌∷◌, Bytes, codes, arith}
use vox_orchestra.Prelude.Int.{pos, negsuc}
use vox_orchestra.Prelude.Fallible.{returns}
use vox_orchestra.Protocol.Trees.{
  trees, trees-IsJson, is_text, write, write_fields, fields_of, read, read_rest, leaf, parse_tree,
}
use vox_orchestra.SessionPipeline.{k_pcm}
use vox_orchestra.Dataplane.{DataplaneEvent, dataplane_event_from_backend, publish, receive}
use vox_orchestra.Dataplane.Delivery.{receive-publish}
use vox_orchestra.Protocol.{
  to_object, to_json, members_of, error_object, is_no_error, message_type_to_string,
}
use vox_orchestra.Dataplane.Indices.{Post}

abbrev sound : DataplaneEvent
sound = record { kind = codes "pcm"; text = []; pcm = 1 ∷ 255 ∷ []; index = pos 4; finish = false }

abbrev word : DataplaneEvent
word = record {
  kind = codes "token";
  text = codes "hi";
  pcm = [];
  index = negsuc 0;
  finish = false;
}

from_backend :
    dataplane_event_from_backend (record { kind = k_pcm; text = []; pcm = 65281 ∷ [] })
    ≡ record sound { index = negsuc 0 }
unfolding dataplane_event_from_backend
from_backend = refl

strings : (s : Bytes) → trees.is_string (trees.of_string s) ≡ true
unfolding is_text
strings s = refl

abbrev sound_text : Bytes
sound_text = write (to_object trees (publish trees sound (codes "w-1") (codes "r") []).0.1)

receive-publish_example : receive trees sound_text ≡ returns sound
unfolding publish to_json to_object members_of error_object is_no_error message_type_to_string write
    write_fields fields_of read read_rest leaf parse_tree
receive-publish_example =
    receive-publish trees trees-IsJson strings sound (codes "w-1") (codes "r") sound_text []
      (omega arith, (omega arith, tt)) (omega arith) refl refl

abbrev posts : List Post
posts =
    (word, codes "w-1", codes "r")
    ∷ (sound, codes "w-1", codes "r")
    ∷ (word, codes "w-1", codes "r2")
    ∷ (word, codes "w-1", codes "r")
    ∷ []
