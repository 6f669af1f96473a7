-- ===== src/RuntimeNode/Effects.antt =====
-- What a request does to the tasks of a node, and what is answered.
use vox_orchestra.Prelude.{
  ◌≡◌, ◌≢◌, ◌⊎◌, inl, inr, refl, true, false, Option, none, some, if◌then◌else◌, Bytes, bytes_eq,
  bytes_eq_iff, Bool-cases, arith,
}
use vox_orchestra.Prelude.Int.{ℤ}
use vox_orchestra.Protocol.{
  Json, Envelope, MessageType, setup_type, inference_type, cancel_type, task_info_type, exit_type,
  ack_type, error_type,
}
use vox_orchestra.Replies.{build_ack, build_error, extract_text}
use vox_orchestra.TaskChannel.{Channel, Error, ok, not_exist}
use vox_orchestra.TaskRuntime.{Runtime, Call, setups_with, cancels, exits, answer, is_alive}
use vox_orchestra.TaskRuntime
use vox_orchestra.TaskRuntime.Valid.{IsValid, answer-IsValid, inference-IsValid}
use vox_orchestra.TaskRuntime.Effects.{unknown_id, exit_lem}
use vox_orchestra.RuntimeNode.{Surroundings, reply_to, info_reply, refused, switch, handle}

module _ (j : Json) (infer_timeout : ℤ) (around : Surroundings) where
  switch-IsValid :
      (t : MessageType) (request : Envelope j.Value) (r : Runtime)
      → IsValid r
      → IsValid (switch j infer_timeout around t request r).0
  unfolding switch
  switch-IsValid setup_type request r v =
      unfold answer in answer-IsValid (setups_with request.work_id (j.dump request.payload)) r v
  switch-IsValid inference_type request r v = inference-IsValid _ _ _ _ _ _ _ r v
  switch-IsValid cancel_type request r v =
      unfold answer in answer-IsValid (cancels request.work_id) r v
  switch-IsValid exit_type request r v = unfold answer in answer-IsValid (exits request.work_id) r v
  switch-IsValid _ request r v = v

  -- A request keeps each id of the node's table with a live channel of its own, whatever other
  -- threads call while a backend runs.
  pub handle_runtime-IsValid :
      (request : Envelope j.Value) (r : Runtime)
      → IsValid r
      → IsValid (handle j infer_timeout around request r).0
  unfolding handle
  handle_runtime-IsValid request r v = switch-IsValid request.type request r v

-- The reply belongs to the request.
pub record Answers {V : Type 0} (request reply : Envelope V) : Type 0 where
  pub work_id : reply.work_id ≡ request.work_id
  pub request_id : reply.request_id ≡ request.request_id
  pub session_id : reply.session_id ≡ request.session_id
  pub type : (reply.type ≡ ack_type) ⊎ (reply.type ≡ error_type)
  pub finish : reply.finish ≡ true

-- A task that is not in the table, for any action but a setup.
abbrev pub Refused : {V : Type 0} → Runtime → Runtime × Envelope V → Type 0
Refused r out = (out.0 ≡ r) × (out.1.type ≡ error_type)

module _ (j : Json) (infer_timeout : ℤ) (around : Surroundings) where
  build_ack-Answers :
      (request : Envelope j.Value) (payload : j.Value)
      → Answers request (build_ack j request payload)
  unfolding build_ack
  build_ack-Answers request payload = record {
    work_id = refl;
    request_id = refl;
    session_id = refl;
    type = inl refl;
    finish = refl;
  }

  build_error-Answers :
      (request : Envelope j.Value) (code : ℤ) (message : Bytes)
      → Answers request (build_error j request code message)
  unfolding build_error
  build_error-Answers request code message = record {
    work_id = refl;
    request_id = refl;
    session_id = refl;
    type = inr refl;
    finish = refl;
  }

  reply_to-Answers :
      (e : Error) (request : Envelope j.Value) (payload : j.Value)
      → Answers request (reply_to j infer_timeout around e request payload)
  unfolding reply_to
  reply_to-Answers ok request payload = build_ack-Answers request payload
  reply_to-Answers _ request payload = build_error-Answers request _ _

  info_reply-Answers :
      (o : Option Channel) (request : Envelope j.Value)
      → Answers request (info_reply j infer_timeout around o request)
  unfolding info_reply
  info_reply-Answers none request = build_error-Answers request _ _
  info_reply-Answers (some c) request = build_ack-Answers request _

  switch-Answers :
      (t : MessageType) (request : Envelope j.Value) (r : Runtime)
      → Answers request (switch j infer_timeout around t request r).1
  unfolding switch refused
  switch-Answers setup_type request r = reply_to-Answers _ request _
  switch-Answers inference_type request r = reply_to-Answers _ request _
  switch-Answers cancel_type request r = reply_to-Answers _ request _
  switch-Answers task_info_type request r = info_reply-Answers _ request
  switch-Answers exit_type request r = reply_to-Answers _ request _
  switch-Answers _ request r = build_error-Answers request _ _

  -- Each request has one reply with its ids, which is an acknowledgement or an error, and final.
  pub handle-Answers :
      (request : Envelope j.Value) (r : Runtime)
      → Answers request (handle j infer_timeout around request r).1
  unfolding handle
  handle-Answers request r = switch-Answers request.type request r

  abbrev AnswersNone : Envelope j.Value → Runtime → Type 0
  AnswersNone request r =
      (TaskRuntime.cancel request.work_id r ≡ (r, not_exist))
      × (TaskRuntime.exit request.work_id r ≡ (r, not_exist))
      × (TaskRuntime.inference around.make request.work_id request.request_id
            (extract_text j request.payload) around.now infer_timeout around.others r
          ≡ (r, not_exist, none))
      × (TaskRuntime.taskinfo request.work_id r ≡ none)

  unknown :
      (request : Envelope j.Value) (r : Runtime)
      → is_alive request.work_id r ≡ false
      → AnswersNone request r
  unknown request r e =
      unknown_id around.make request.work_id request.request_id (extract_text j request.payload)
        around.now infer_timeout around.others r e

  switch_unknown :
      (t : MessageType) (request : Envelope j.Value) (r : Runtime)
      → is_alive request.work_id r ≡ false
      → t ≢ setup_type
      → Refused r (switch j infer_timeout around t request r)
  unfolding switch reply_to info_reply refused build_error
  switch_unknown setup_type request r e h = absurd (h refl)
  switch_unknown inference_type request r e h = rw (unknown request r e).2 (refl, refl)
  switch_unknown cancel_type request r e h = rw (unknown request r e).0 (refl, refl)
  switch_unknown task_info_type request r e h = rw (unknown request r e).3 (refl, refl)
  switch_unknown exit_type request r e h = rw (unknown request r e).1 (refl, refl)
  switch_unknown _ request r e h = (refl, refl)

  -- An action on a task that is not in the table is answered by an error, and changes nothing.
  pub handle_unknown :
      (request : Envelope j.Value) (r : Runtime)
      → is_alive request.work_id r ≡ false
      → request.type ≢ setup_type
      → Refused r (handle j infer_timeout around request r)
  unfolding handle
  handle_unknown request r e h = switch_unknown request.type request r e h

  missing :
      (id other : Bytes) (r : Runtime)
      → is_alive id r ≡ false
      → is_alive other r ≡ (if bytes_eq id other then false else is_alive other r)
  missing id other r e = ground (arith, bytes_eq_iff id other)

  switch_exit :
      (request : Envelope j.Value) (other : Bytes) (r : Runtime)
      → IsValid r
      → let out = switch j infer_timeout around exit_type request r in
        (out.1.type ≡ (if is_alive request.work_id r then ack_type else error_type))
        × (is_alive other out.0
            ≡ (if bytes_eq request.work_id other then false else is_alive other r))
  unfolding switch reply_to build_ack build_error
  switch_exit request other r v = elim (Bool-cases (is_alive request.work_id r)) [
    | inl e ↦ let done = exit_lem request.work_id other r v e in rw (done.0, e) (refl, done.1)
    | inr e ↦
        let gone = (unknown request r e).1 in rw (gone, e) (refl, missing request.work_id other r e)
  ]

  -- An `exit` is acknowledged just where the task is in the table, and is an error elsewhere; after
  -- it the task is not in the table, and the other tasks are as they were.
  pub handle_exit :
      (request : Envelope j.Value) (other : Bytes) (r : Runtime)
      → IsValid r
      → request.type ≡ exit_type
      → let out = handle j infer_timeout around request r in
        (out.1.type ≡ (if is_alive request.work_id r then ack_type else error_type))
        × (is_alive other out.0
            ≡ (if bytes_eq request.work_id other then false else is_alive other r))
  unfolding handle
  handle_exit request other r v e =
      rw e (switch_exit (record request { type = exit_type }) other r v)
