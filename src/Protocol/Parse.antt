-- ===== src/Protocol/Parse.antt =====
-- `MessageEnvelope::from_json` of libs/protocol/src/message_envelope.cpp.
use vox_orchestra.Prelude.{
  suc, Bool, false, not, Option, none, some, [], ◌∷◌, ◌++◌, ltb, ◌==◌, if◌then◌else◌, length, Bytes,
  codes, utf8, to_string,
}
use vox_orchestra.Prelude.Int.{ℤ, pos, negsuc}
use vox_orchestra.Prelude.Fallible.{Result, returns, throws, ◌>>=◌, ◌>>◌, throw_if, catching}
use vox_orchestra.Protocol.{
  Json, protocol_version, max_serialized_bytes, MessageType, invalid_json, unknown_version,
  invalid_type, missing_field, oversized, ProtocolError, ErrorInfo, Envelope,
  message_type_from_string,
}

-- `std::to_string(int)`.
unfoldable pub int_to_string : ℤ → Bytes
int_to_string (pos n) = to_string n
int_to_string (negsuc n) = b'-' ∷ to_string (suc n)

-- What the body of the `try` block throws.
pub data Thrown : Type 0 where
  json_error : Bytes → Thrown
  protocol_error : ProtocolError → Thrown

-- A `ProtocolError` passes the `catch`; an exception of the library becomes one.
unfoldable pub caught : Thrown → ProtocolError
caught (json_error what) = record { code = invalid_json; what = utf8 "消息字段类型错误: " ++ what }
caught (protocol_error e) = e

module _ (j : Json) where
  -- `obj.value(key, fallback)`, with the `get` of its type.
  unfoldable pub value_or :
      {A : Type 0} → (j.Value → Result Bytes A) → Bytes → A → j.Value → Result Thrown A
  value_or get key fallback obj = elim (j.member key obj) [
    | none ↦ returns fallback
    | some v ↦ catching json_error (get v)
  ]

  -- `obj["type"].get<std::string>()`, behind the test that it is there.
  unfoldable pub read_type : j.Value → Result Thrown MessageType
  unfolding message_type_from_string
  read_type obj = elim (j.member (codes "type") obj) [
    | none ↦ throws (protocol_error (record { code = missing_field; what = utf8 "缺少必需字段 type" }))
    | some v ↦ do
      name ← catching json_error (j.get_string v)
      elim (message_type_from_string name) [
        | none ↦
            throws (protocol_error (record { code = invalid_type; what = utf8 "未知消息类型: " ++ name }))
        | some t ↦ returns t
      ]
  ]

  unfoldable pub read_error : j.Value → Result Thrown ErrorInfo
  unfolding value_or
  read_error obj = elim (j.member (codes "error") obj) [
    | none ↦ returns (record { code = pos 0; message = [] })
    | some e ↦
        if j.is_object e
        then (do
          code ← value_or j.get_int (codes "code") (pos 0) e
          message ← value_or j.get_string (codes "message") [] e
          returns (record { code = code; message = message }))
        else returns (record { code = pos 0; message = [] })
  ]

  payload_of : Option j.Value → j.Value
  payload_of none = j.object []
  payload_of (some p) = p

  is_version : ℤ → Bool
  is_version (pos n) = n == 1
  is_version (negsuc n) = false

  -- The body of the `try` block.
  unfoldable pub read_fields : j.Value → Result Thrown (Envelope j.Value)
  unfolding value_or read_type read_error int_to_string is_version payload_of
  read_fields obj = do
    version ← value_or j.get_int (codes "version") (pos 0) obj
    throw_if (not (is_version version)) (
        protocol_error (record {
          code = unknown_version;
          what =
              utf8 "协议版本 "
              ++ int_to_string version
              ++ utf8 " 不受支持，当前版本为 "
              ++ int_to_string protocol_version;
        }))
    type ← read_type obj
    work_id ← value_or j.get_string (codes "work_id") [] obj
    request_id ← value_or j.get_string (codes "request_id") [] obj
    session_id ← value_or j.get_string (codes "session_id") [] obj
    index ← value_or j.get_int64 (codes "index") (negsuc 0) obj
    timestamp_ms ← value_or j.get_int64 (codes "timestamp_ms") (negsuc 0) obj
    finish ← value_or j.get_bool (codes "finish") false obj
    error ← read_error obj
    returns (record {
      version = version;
      work_id = work_id;
      request_id = request_id;
      session_id = session_id;
      type = type;
      index = index;
      timestamp_ms = timestamp_ms;
      payload = payload_of (j.member (codes "payload") obj);
      finish = finish;
      error = error;
    })

  unfoldable pub from_json : Bytes → Result ProtocolError (Envelope j.Value)
  unfolding read_fields caught
  from_json s =
      if ltb max_serialized_bytes (length s)
      then throws (record {
        code = oversized;
        what = utf8 "输入消息超过 " ++ to_string max_serialized_bytes ++ utf8 " 字节";
      })
      else (do
        obj ←
            catching (λ what. record { code = invalid_json; what = utf8 "JSON 解析失败: " ++ what })
              (j.parse s)
        throw_if (not (j.is_object obj))
            (record { code = invalid_json; what = utf8 "消息必须是 JSON 对象" })
        catching caught (read_fields obj))
