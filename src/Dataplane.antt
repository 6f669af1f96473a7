-- ===== src/Dataplane.antt =====
-- The events of the data plane, and their publisher: libs/dataplane/src/dataplane_event.cpp and
-- libs/dataplane/src/event_channel.cpp. The JSON library is the parameter of Protocol; what the
-- sockets do is not modelled: `publish` gives the topic and the envelope of the message.
pub mod Codec
pub mod Delivery
pub mod Indices
mod Tests
use vox_orchestra.Prelude.{
  ℕ, zero, suc, ◌+◌, Bool, true, false, Option, none, some, List, [], ◌∷◌, ◌++◌, if◌then◌else◌,
  Bytes, codes, utf8, Dict, find, assign,
}
use vox_orchestra.Prelude.Int.{ℤ, pos, negsuc}
use vox_orchestra.Prelude.Fallible.{Result, returns, throws, ◌>>=◌, catching}
use vox_orchestra.Base64.{encode, decode}
use vox_orchestra.FakeAudioSink.{pcm_bytes}
use vox_orchestra.Protocol.{
  Json, MessageType, setup_type, inference_type, cancel_type, task_info_type, exit_type, event_type,
  ack_type, error_type, invalid_json, invalid_type, missing_field, ProtocolError, Envelope,
  default_envelope, message_type_to_string,
}
use vox_orchestra.Protocol.Parse.{Thrown, json_error, protocol_error, from_json}
use vox_orchestra.SessionPipeline.{Kind, k_partial, k_final, k_token, k_pcm, k_done, BackendEvent}

pub record DataplaneEvent : Type 0 where
  pub kind : Bytes
  pub text : Bytes
  pub pcm : Bytes
  pub index : ℤ
  pub finish : Bool

unfoldable pub base64_encode : Bytes → Bytes
unfolding encode
base64_encode bytes = encode bytes

unfoldable pub base64_decode : Bytes → Result Thrown Bytes
unfolding decode
base64_decode s = elim (decode s) [
  | none ↦ throws (protocol_error (record { code = invalid_json; what = utf8 "非法 base64 字符" }))
  | some bytes ↦ returns bytes
]

unfoldable pub kind_to_string : Kind → Bytes
kind_to_string k_partial = codes "partial"
kind_to_string k_final = codes "final"
kind_to_string k_token = codes "token"
kind_to_string k_pcm = codes "pcm"
kind_to_string k_done = codes "done"

unfoldable pub ends_stream : Kind → Bool
ends_stream k_final = true
ends_stream k_done = true
ends_stream _ = false

unfoldable pub dataplane_event_from_backend : BackendEvent → DataplaneEvent
unfolding kind_to_string ends_stream pcm_bytes
dataplane_event_from_backend e = record {
  kind = kind_to_string e.kind;
  text = e.text;
  pcm = pcm_bytes e.pcm;
  index = negsuc 0;
  finish = ends_stream e.kind;
}

unfoldable pub is_event : MessageType → Bool
is_event event_type = true
is_event _ = false

module _ (j : Json) where
  -- A member that is left out where its bytes are empty.
  unfoldable pub member_if_any : Bytes → Bytes → (Bytes → Bytes) → List (Bytes × j.Value)
  member_if_any key [] f = []
  member_if_any key (c ∷ cs) f = (key, j.of_string (f (c ∷ cs))) ∷ []

  unfoldable pub dataplane_event_to_payload : DataplaneEvent → j.Value
  unfolding member_if_any base64_encode
  dataplane_event_to_payload e = j.object (
      (codes "kind", j.of_string e.kind)
      ∷ (member_if_any (codes "text") e.text (λ t. t)
          ++ member_if_any (codes "pcm") e.pcm base64_encode))

  -- The string under a key; `none` where there is none.
  unfoldable pub string_at : Bytes → j.Value → Result Thrown (Option Bytes)
  string_at key v = elim (j.member key v) [
    | none ↦ returns none
    | some u ↦
        if j.is_string u
        then (catching json_error (j.get_string u) >>= λ s. returns (some s))
        else returns none
  ]

  unfoldable pub kind_of : Option Bytes → Result Thrown Bytes
  kind_of none =
      throws (protocol_error (record { code = missing_field; what = utf8 "事件载荷缺少 kind 字段" }))
  kind_of (some kind) = returns kind

  unfoldable pub text_or_none : Option Bytes → Bytes
  text_or_none none = []
  text_or_none (some text) = text

  unfoldable pub pcm_of : Option Bytes → Result Thrown Bytes
  unfolding base64_decode
  pcm_of none = returns []
  pcm_of (some s) = base64_decode s

  unfoldable pub dataplane_event_from_payload : j.Value → Result Thrown DataplaneEvent
  unfolding string_at kind_of text_or_none pcm_of
  dataplane_event_from_payload v = do
    found_kind ← string_at (codes "kind") v
    kind ← kind_of found_kind
    found_text ← string_at (codes "text") v
    found_pcm ← string_at (codes "pcm") v
    pcm ← pcm_of found_pcm
    returns (record {
      kind = kind;
      text = text_or_none found_text;
      pcm = pcm;
      index = negsuc 0;
      finish = false;
    })

  unfoldable pub dataplane_event_to_envelope : DataplaneEvent → Bytes → Bytes → Envelope j.Value
  unfolding default_envelope dataplane_event_to_payload
  dataplane_event_to_envelope e work_id request_id = record (default_envelope j) {
    type = event_type;
    work_id = work_id;
    request_id = request_id;
    index = e.index;
    finish = e.finish;
    payload = dataplane_event_to_payload e;
  }

  unfoldable pub dataplane_event_from_envelope : Envelope j.Value → Result Thrown DataplaneEvent
  unfolding is_event message_type_to_string dataplane_event_from_payload
  dataplane_event_from_envelope env =
      if is_event env.type
      then (do
        e ← dataplane_event_from_payload env.payload
        returns (record e { index = env.index; finish = env.finish }))
      else throws (
          protocol_error (record {
            code = invalid_type;
            what = utf8 "数据面消息类型必须为 event，实际为 " ++ message_type_to_string env.type;
          }))

unfoldable pub make_topic : Bytes → Bytes → Bytes
make_topic work_id request_id = work_id ++ (codes "/" ++ (request_id ++ codes "/"))

abbrev pub next : ℤ → ℤ
next (pos n) = pos (n + 1)
next (negsuc zero) = pos 0
next (negsuc (suc n)) = negsuc n

-- `next_index_[topic]`; a key that is not there reads as 0.
unfoldable pub next_of : Bytes → Dict ℤ → ℤ
unfolding find
next_of topic m = elim (find topic m) [ none ↦ pos 0 | some i ↦ i ]

abbrev pub is_negative : ℤ → Bool
is_negative (pos n) = false
is_negative (negsuc n) = true

-- The index that `publish` gives the event, and `next_index_` behind it.
unfoldable pub numbered : Bytes → ℤ → Dict ℤ → ℤ × Dict ℤ
unfolding next_of assign
numbered topic index m =
    if is_negative index
    then (next_of topic m, assign topic (next (next_of topic m)) m)
    else (index, m)

-- The topic and the envelope of the message, and `next_index_` behind it.
unfoldable pub publish :
    (j : Json) → DataplaneEvent → Bytes → Bytes → Dict ℤ → (Bytes × Envelope j.Value) × Dict ℤ
unfolding make_topic numbered dataplane_event_to_envelope
publish j e work_id request_id m =
    let topic = make_topic work_id request_id in
    let (index, m') = numbered topic e.index m in
    ((topic, dataplane_event_to_envelope j (record e { index = index }) work_id request_id), m')

-- `recv`, where the socket has a message.
unfoldable pub receive : (j : Json) → Bytes → Result Thrown DataplaneEvent
unfolding from_json dataplane_event_from_envelope
receive j payload = do
  env ← catching protocol_error (from_json j payload)
  dataplane_event_from_envelope j env
