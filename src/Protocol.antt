-- ===== src/Protocol.antt =====
-- The message envelope: libs/protocol/include/voxorchestra/protocol/message_envelope.hpp and
-- libs/protocol/src/message_envelope.cpp. The JSON library is a parameter.
pub mod Parse
pub mod Codec
pub mod Trees
mod Tests
use vox_orchestra.Prelude.{
  ℕ, ◌<◌, ◌^◌, ◌-◌, ◌≡◌, Bool, true, false, not, ◌&&◌, Option, none, some, List, [], ◌∷◌, ◌++◌, ltb,
  ◌==◌, if◌then◌else◌, length, Bytes, bytes_eq, codes, utf8, to_string, find,
}
use vox_orchestra.Prelude.Int.{ℤ, pos, negsuc}
use vox_orchestra.Prelude.Fallible.{Result, returns, throws, ◌>>=◌, ◌>>◌, throw_if, catching}

-- What the code uses of nlohmann::json. An exception of the library is its `what()`.
pub record Json : Type 1 where
  pub Value : Type 0
  pub parse : Bytes → Result Bytes Value
  -- `dump(-1, ' ', false, error_handler_t::replace)`.
  pub dump : Value → Bytes
  pub object : List (Bytes × Value) → Value
  pub is_object : Value → Bool
  pub is_string : Value → Bool
  -- `find` and `contains` and `operator[]` on a key.
  pub member : Bytes → Value → Option Value
  pub of_int : ℤ → Value
  pub of_string : Bytes → Value
  pub of_bool : Bool → Value
  -- `get<int>`, `get<int64_t>`, `get<std::string>`, `get<bool>`.
  pub get_int : Value → Result Bytes ℤ
  pub get_int64 : Value → Result Bytes ℤ
  pub get_string : Value → Result Bytes Bytes
  pub get_bool : Value → Result Bytes Bool

abbrev pub protocol_version : ℤ
protocol_version = pos 1

abbrev pub max_serialized_bytes : ℕ
max_serialized_bytes = 1048576

pub data MessageType : Type 0 where
  setup_type inference_type cancel_type task_info_type exit_type : MessageType
  event_type ack_type error_type : MessageType

pub data ProtocolErrorCode : Type 0 where
  ok_code invalid_json unknown_version invalid_type missing_field oversized : ProtocolErrorCode

-- `static_cast<int>`.
unfoldable pub code_number : ProtocolErrorCode → ℤ
code_number ok_code = pos 0
code_number invalid_json = pos 1
code_number unknown_version = pos 2
code_number invalid_type = pos 3
code_number missing_field = pos 4
code_number oversized = pos 5

pub record ProtocolError : Type 0 where
  pub code : ProtocolErrorCode
  pub what : Bytes

pub record ErrorInfo : Type 0 where
  pub code : ℤ
  pub message : Bytes

pub record Envelope (V : Type 0) : Type 0 where
  pub version : ℤ
  pub work_id : Bytes
  pub request_id : Bytes
  pub session_id : Bytes
  pub type : MessageType
  pub index : ℤ
  pub timestamp_ms : ℤ
  pub payload : V
  pub finish : Bool
  pub error : ErrorInfo

unfoldable pub message_type_to_string : MessageType → Bytes
message_type_to_string setup_type = codes "setup"
message_type_to_string inference_type = codes "inference"
message_type_to_string cancel_type = codes "cancel"
message_type_to_string task_info_type = codes "taskinfo"
message_type_to_string exit_type = codes "exit"
message_type_to_string event_type = codes "event"
message_type_to_string ack_type = codes "ack"
message_type_to_string error_type = codes "error"

abbrev pub type_names : List (Bytes × MessageType)
type_names =
    (codes "setup", setup_type)
    ∷ (codes "inference", inference_type)
    ∷ (codes "cancel", cancel_type)
    ∷ (codes "taskinfo", task_info_type)
    ∷ (codes "exit", exit_type)
    ∷ (codes "event", event_type)
    ∷ (codes "ack", ack_type)
    ∷ (codes "error", error_type)
    ∷ []

-- The first entry with the name; `none` where the source returns false.
unfoldable pub message_type_from_string : Bytes → Option MessageType
unfolding find
message_type_from_string s = find s type_names

-- `ErrorInfo::empty`.
unfoldable pub is_no_error : ErrorInfo → Bool
is_no_error e = is_zero e.code && is_nil e.message
  where
    is_zero : ℤ → Bool
    is_zero (pos n) = n == 0
    is_zero (negsuc n) = false

    is_nil : Bytes → Bool
    is_nil [] = true
    is_nil (_ ∷ _) = false

module _ (j : Json) where
  -- The envelope that the default constructor makes.
  unfoldable pub default_envelope : Envelope j.Value
  default_envelope = record {
    version = protocol_version;
    work_id = [];
    request_id = [];
    session_id = [];
    type = event_type;
    index = negsuc 0;
    timestamp_ms = negsuc 0;
    payload = j.object [];
    finish = false;
    error = record { code = pos 0; message = [] };
  }

  unfoldable pub error_object : ErrorInfo → j.Value
  unfolding is_no_error
  error_object e =
      if is_no_error e
      then j.object []
      else j.object
          ((codes "code", j.of_int e.code) ∷ (codes "message", j.of_string e.message) ∷ [])

  unfoldable pub members_of : Envelope j.Value → List (Bytes × j.Value)
  unfolding error_object message_type_to_string
  members_of m =
      ((codes "version", j.of_int m.version)
        ∷ (codes "work_id", j.of_string m.work_id)
        ∷ (codes "request_id", j.of_string m.request_id)
        ∷ (codes "session_id", j.of_string m.session_id)
        ∷ (codes "type", j.of_string (message_type_to_string m.type))
        ∷ (codes "index", j.of_int m.index)
        ∷ (codes "timestamp_ms", j.of_int m.timestamp_ms)
        ∷ (codes "payload", m.payload)
        ∷ (codes "finish", j.of_bool m.finish)
        ∷ (codes "error", error_object m.error)
        ∷ [])

  unfoldable pub to_object : Envelope j.Value → j.Value
  unfolding members_of
  to_object m = j.object (members_of m)

  unfoldable pub to_json : Envelope j.Value → Result ProtocolError Bytes
  unfolding to_object
  to_json m =
      let s = j.dump (to_object m) in
      if ltb max_serialized_bytes (length s)
      then throws (record {
        code = oversized;
        what = utf8 "序列化后的消息超过 " ++ to_string max_serialized_bytes ++ utf8 " 字节";
      })
      else returns s
