-- ===== src/SessionNode/Requests.antt =====
-- `SessionNode::handle_request` of apps/session_node/session_node.cpp: the five actions, and what
-- the node does with a request of another type or with a frame that is no message.
use vox_orchestra.Prelude.{
  ℕ, Bool, true, false, ◌||◌, ◌==◌, Option, none, some, List, [], ◌∷◌, ◌++◌, if◌then◌else◌,
  get_elem?, Bytes, bytes_eq, codes, utf8, find, contains, erase,
}
use vox_orchestra.Prelude.Int.{ℤ, pos}
use vox_orchestra.Prelude.Fallible.{Result, returns, throws, ◌>>=◌}
use vox_orchestra.Protocol.{
  Json, Envelope, default_envelope, MessageType, setup_type, inference_type, cancel_type,
  task_info_type, exit_type, invalid_type, code_number, to_json,
}
use vox_orchestra.Protocol.Parse.{Thrown, json_error, protocol_error, value_or, from_json}
use vox_orchestra.Replies.{build_ack, build_error}
use vox_orchestra.SessionState.{state_name}
use vox_orchestra.SessionPipeline.{k_text, k_wav, PipelineInput, cancel_run, is_empty}
use vox_orchestra.SessionNode.{
  Setting, Session, Worker, Node, add_session, put, make_backends, result_stats,
}

-- The router's socket sends a text.
unfoldable pub say : Bytes → Bytes → Node → Node
say identity text n = record n { sent = n.sent ++ record { identity = identity; text = text } ∷ [] }

unfoldable pub hire : Worker → Node → Node
hire k n = record n { workers = n.workers ++ k ∷ [] }

-- `cancel` of the session's pipeline.
unfoldable pub cancel_session : ℕ → Session → Node → Node
unfolding put cancel_run
cancel_session a s n = put a (record s { pipeline = cancel_run s.pipeline }) n

-- `sessions_.erase(it)`.
unfoldable pub take_out : Bytes → Node → Node
unfolding erase
take_out id n = record n { sessions = erase id n.sessions }

module _ (j : Json) (w : Setting j) where
  -- The `send_reply` of the handler.
  unfoldable pub send_reply : Bytes → Envelope j.Value → Node → Result Thrown Node
  unfolding to_json say
  send_reply identity reply n = elim (to_json j reply) [
    | returns text ↦ returns (say identity text n)
    | throws e ↦ throws (protocol_error e)
  ]

  unfoldable pub refuse : Bytes → Envelope j.Value → ℤ → Bytes → Node → Result Thrown Node
  unfolding send_reply build_error
  refuse identity request code message n =
      send_reply identity (build_error j request code message) n

  unfoldable pub acknowledge :
      Bytes → Envelope j.Value → List (Bytes × j.Value) → Node → Result Thrown Node
  unfolding send_reply build_ack
  acknowledge identity request payload n =
      send_reply identity (build_ack j request (j.object payload)) n

  unfoldable pub acknowledge_ok : Bytes → Envelope j.Value → Node → Result Thrown Node
  unfolding acknowledge
  acknowledge_ok identity request n =
      acknowledge identity request ((codes "status", j.of_string (codes "ok")) ∷ []) n

  -- The session of the request, by its address; an address that is not in the store does not occur.
  unfoldable pub with_session :
      Bytes
      → Envelope j.Value
      → (ℕ → Session → Node → Result Thrown Node)
      → Node
      → Result Thrown Node
  unfolding refuse
  with_session identity request act n = elim (find request.work_id n.sessions) [
    | none ↦ refuse identity request (pos 1) (utf8 "未知任务: " ++ request.work_id) n
    | some a ↦ elim (get_elem? n.store a) [ none ↦ returns n | some s ↦ act a s n ]
  ]

  unfoldable pub handle_setup : Bytes → Envelope j.Value → Node → Result Thrown Node
  unfolding refuse acknowledge_ok add_session make_backends contains
  handle_setup identity request n =
      if contains request.work_id n.sessions
      then refuse identity request (pos 2) (utf8 "重复 setup") n
      else elim (make_backends w request.work_id) [
        | some what ↦ refuse identity request (pos 4) (utf8 "后端不可用: " ++ what) n
        | none ↦ acknowledge_ok identity request (add_session request.work_id n)
      ]

  -- `payload.value(key, fallback)`, of a string.
  unfoldable pub payload_value : Bytes → Bytes → j.Value → Result Thrown Bytes
  unfolding value_or
  payload_value key fallback payload =
      if j.is_object payload
      then value_or j j.get_string key fallback payload
      else throws (json_error (w.no_value payload))

  is_absolute : Bytes → Bool
  is_absolute [] = false
  is_absolute (c ∷ cs) = c == b'/'

  -- A relative path stands below the directory of the inputs.
  unfoldable pub wav_path_of : Bytes → Bytes
  unfolding is_empty is_absolute
  wav_path_of wav =
      if is_empty wav || is_absolute wav then wav else w.config.fixture_dir ++ (codes "/" ++ wav)

  unfoldable pub wav_input : j.Value → Result Thrown (Option PipelineInput)
  unfolding payload_value wav_path_of is_empty
  wav_input payload = do
    wav ← payload_value (codes "wav") [] payload
    wav' ← if is_empty wav then payload_value (codes "text") [] payload else returns wav
    returns (some (record { mode = k_wav; text = []; wav_path = wav_path_of wav'; audio = [] }))

  unfoldable pub text_input : j.Value → Result Thrown (Option PipelineInput)
  unfolding payload_value
  text_input payload = do
    text ← payload_value (codes "text") [] payload
    returns (some (record { mode = k_text; text = text; wav_path = []; audio = [] }))

  input_of : Bytes → j.Value → Result Thrown (Option PipelineInput)
  unfolding wav_input text_input bytes_eq
  input_of mode payload =
      if bytes_eq mode (codes "wav")
      then wav_input payload
      else if bytes_eq mode (codes "alsa")
      then returns none
      else text_input payload

  -- The input of the pipeline; `none` for the microphone, which this build has not.
  unfoldable pub read_input : j.Value → Result Thrown (Option PipelineInput)
  unfolding payload_value input_of
  read_input payload = do
    mode ← payload_value (codes "mode") (codes "text") payload
    input_of mode payload

  -- What follows the reading of the input.
  unfoldable pub start_worker :
      Bytes → Envelope j.Value → ℕ → Option PipelineInput → Node → Result Thrown Node
  unfolding refuse hire
  start_worker identity request a none n =
      refuse identity request (pos 3) (utf8 "当前构建未启用 ALSA 录音（需硬件后端构建，--record-device）") n
  start_worker identity request a (some input) n = returns (
      hire
        (record {
          identity = identity;
          work_id = request.work_id;
          request_id = request.request_id;
          session = a;
          input = input;
        })
        n)

  unfoldable pub infer : Bytes → Envelope j.Value → ℕ → Session → Node → Result Thrown Node
  unfolding refuse read_input start_worker put
  infer identity request a s n =
      if s.busy
      then refuse identity request (pos 3) (utf8 "会话忙碌（单流）") n
      else (read_input request.payload >>= λ input.
          start_worker identity request a input (put a (record s { busy = true }) n))

  unfoldable pub cancel : Bytes → Envelope j.Value → ℕ → Session → Node → Result Thrown Node
  unfolding cancel_session acknowledge_ok
  cancel identity request a s n = acknowledge_ok identity request (cancel_session a s n)

  unfoldable pub task_info : Bytes → Envelope j.Value → ℕ → Session → Node → Result Thrown Node
  unfolding acknowledge result_stats state_name
  task_info identity request a s n =
      acknowledge identity request
        (result_stats j s.last_result
          ++ (codes "state", j.of_string (state_name s.pipeline.machine))
            ∷ (codes "busy", j.of_bool s.busy)
            ∷ (codes "in_flight", j.of_string s.last_request_id)
            ∷ [])
        n

  unfoldable pub exit : Bytes → Envelope j.Value → ℕ → Session → Node → Result Thrown Node
  unfolding cancel_session acknowledge_ok take_out
  exit identity request a s n =
      acknowledge_ok identity request (cancel_session a s (take_out request.work_id n))

  -- The `switch` on the type.
  unfoldable pub switch : MessageType → Bytes → Envelope j.Value → Node → Result Thrown Node
  unfolding handle_setup with_session infer cancel task_info exit refuse code_number
  switch setup_type identity request n = handle_setup identity request n
  switch inference_type identity request n =
      with_session identity request (infer identity request) n
  switch cancel_type identity request n = with_session identity request (cancel identity request) n
  switch task_info_type identity request n =
      with_session identity request (task_info identity request) n
  switch exit_type identity request n = with_session identity request (exit identity request) n
  switch _ identity request n =
      refuse identity request (code_number invalid_type) (utf8 "session_node 不支持该消息类型") n

  unfoldable pub handle_request : Bytes → Bytes → Node → Result Thrown Node
  unfolding switch send_reply from_json build_error default_envelope code_number
  handle_request identity text n = elim (from_json j text) [
    | throws e ↦
        send_reply identity (build_error j (default_envelope j) (code_number e.code) e.what) n
    | returns request ↦ switch request.type identity request n
  ]
