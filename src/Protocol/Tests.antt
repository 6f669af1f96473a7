-- ===== src/Protocol/Tests.antt =====
-- Messages at concrete inputs.
use vox_orchestra.Prelude.{◌≡◌, refl, true, [], Bytes, codes, arith}
use vox_orchestra.Prelude.Int.{pos, negsuc}
use vox_orchestra.Prelude.Fallible.{returns}
use vox_orchestra.Protocol.{
  Envelope, setup_type, protocol_version, to_object, members_of, error_object, is_no_error,
  message_type_to_string, to_json,
}
use vox_orchestra.Protocol.Parse.{from_json}
use vox_orchestra.Protocol.Codec.{IsSized, from_json-to_json}
use vox_orchestra.Protocol.Trees.{
  Tree, string_leaf, node, stop, field, fields_of, write, write_fields, read, read_rest, leaf,
  parse_tree, trees, trees-IsJson,
}

abbrev hello : Envelope Tree
hello = record {
  version = protocol_version;
  work_id = codes "w-1";
  request_id = codes "r";
  session_id = [];
  type = setup_type;
  index = negsuc 0;
  timestamp_ms = pos 7;
  payload = node (field (codes "text") (string_leaf (codes "hi")) stop);
  finish = true;
  error = record { code = pos 0; message = [] };
}

abbrev hello_text : Bytes
hello_text = write (to_object trees hello)

hello-IsSized : IsSized hello
hello-IsSized = record { index = omega arith; timestamp = omega arith; code = omega arith }

from_json-to_json_example : from_json trees hello_text ≡ returns hello
unfolding to_json to_object members_of error_object is_no_error message_type_to_string write
    write_fields fields_of read read_rest leaf parse_tree
from_json-to_json_example =
    from_json-to_json trees trees-IsJson hello hello_text refl hello-IsSized refl refl
