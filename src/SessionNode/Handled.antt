-- ===== src/SessionNode/Handled.antt =====
-- What the handling of one request may do to the session node, as a step relation: every branch of
-- `handle_request` in apps/session_node/session_node.cpp that ends without an exception.
use vox_orchestra.Prelude.{
  ℕ, ◌≡◌, inl, inr, refl, subst, utf8, ◌++◌, true, false, Option, none, some, List, contains,
  get_elem?, Bytes, find, Bool-cases, Option-cases, arith,
}
use vox_orchestra.Prelude.Int.{ℤ, pos}
use vox_orchestra.Prelude.Fallible.{Result, returns, Result-cases, returns-injective}
use vox_orchestra.Protocol.{
  Json, Envelope, default_envelope, code_number, invalid_type, MessageType, setup_type,
  inference_type, cancel_type, task_info_type, exit_type, event_type, ack_type, error_type, to_json,
}
use vox_orchestra.Protocol.Parse.{from_json}
use vox_orchestra.Protocol.Parse.{Thrown}
use vox_orchestra.Replies.{build_ack, build_error}
use vox_orchestra.SessionPipeline.{PipelineInput}
use vox_orchestra.SessionNode.{Setting, Session, Worker, Node, add_session, put, make_backends}
use vox_orchestra.SessionNode.Requests.{
  say, hire, cancel_session, take_out, send_reply, refuse, acknowledge, acknowledge_ok,
  with_session, handle_setup, read_input, start_worker, infer, cancel, task_info, exit, switch,
  handle_request,
}

-- The request came from the client `i`.
pub data Handled (i : Bytes) (n : Node) : Node → Type 0 where
  answers : (text : Bytes) → Handled i n (say i text n)
  adds : (id text : Bytes) → find id n.sessions ≡ none → Handled i n (say i text (add_session id n))
  cancels :
      (a : ℕ) (s : Session) (text : Bytes)
      → get_elem? n.store a ≡ some s
      → Handled i n (say i text (cancel_session a s n))
  takes_out :
      (id : Bytes) (a : ℕ) (s : Session) (text : Bytes)
      → get_elem? n.store a ≡ some s
      → Handled i n (say i text (cancel_session a s (take_out id n)))
  -- The session is marked, but no worker starts.
  marks :
      (a : ℕ) (s : Session) (text : Bytes)
      → get_elem? n.store a ≡ some s
      → s.busy ≡ false
      → Handled i n (say i text (put a (record s { busy = true }) n))
  starts :
      (k : Worker) (s : Session)
      → get_elem? n.store k.session ≡ some s
      → s.busy ≡ false
      → k.identity ≡ i
      → Handled i n (hire k (put k.session (record s { busy = true }) n))

-- Every address of the table is one of the store.
abbrev pub IsStored : Node → Type 0
IsStored n =
    (id : Bytes) (a : ℕ)
    → find id n.sessions ≡ some a
    → (s : Session) × (get_elem? n.store a ≡ some s)

module _ (j : Json) (w : Setting j) (i : Bytes) where
  -- A reply that is sent is some text.
  send_reply_said :
      (reply : Envelope j.Value) (n : Node) {n' : Node}
      → send_reply j w i reply n ≡ returns n'
      → (text : Bytes) × (say i text n ≡ n')
  unfolding send_reply
  send_reply_said reply n h = elim (Result-cases (to_json j reply)) [
    | inl (text, e) ↦ (text, ground (arith, e))
    | inr (_, e) ↦ absurd (ground (arith, e))
  ]

  pub refuse_said :
      (request : Envelope j.Value) (code : ℤ) (message : Bytes) (n : Node) {n' : Node}
      → refuse j w i request code message n ≡ returns n'
      → (text : Bytes) × (say i text n ≡ n')
  unfolding refuse
  refuse_said request code message n h = send_reply_said (build_error j request code message) n h

  refuse-Handled :
      (request : Envelope j.Value) (code : ℤ) (message : Bytes) (n : Node) {n' : Node}
      → refuse j w i request code message n ≡ returns n'
      → Handled i n n'
  refuse-Handled request code message n h =
      let (text, e) = refuse_said request code message n h in subst (Handled i n) e (answers text)

  acknowledge_said :
      (request : Envelope j.Value) (payload : List (Bytes × j.Value)) (n : Node) {n' : Node}
      → acknowledge j w i request payload n ≡ returns n'
      → (text : Bytes) × (say i text n ≡ n')
  unfolding acknowledge
  acknowledge_said request payload n h =
      send_reply_said (build_ack j request (j.object payload)) n h

  ok_said :
      (request : Envelope j.Value) (n : Node) {n' : Node}
      → acknowledge_ok j w i request n ≡ returns n'
      → (text : Bytes) × (say i text n ≡ n')
  unfolding acknowledge_ok
  ok_said request n h = acknowledge_said request _ n h

  handle_setup-Handled :
      (request : Envelope j.Value) (n : Node) {n' : Node}
      → handle_setup j w i request n ≡ returns n'
      → Handled i n n'
  unfolding handle_setup contains
  handle_setup-Handled request n {n'} h = elim (Option-cases (find request.work_id n.sessions)) [
    | inr (a, e) ↦
        refuse-Handled request (pos 2) (utf8 "重复 setup") n (rw (handle_setup, contains, e) at h)
    | inl e ↦ elim (Option-cases (make_backends w request.work_id)) [
      | inr (what, f) ↦
          refuse-Handled request (pos 4) (utf8 "后端不可用: " ++ what) n
            (rw (handle_setup, contains, e, f) at h)
      | inl f ↦
          let (text, g) =
            ok_said request (add_session request.work_id n) {n' = n'}
              (rw (handle_setup, contains, e, f) at h) in
          subst (Handled i n) g (adds request.work_id text e)
    ]
  ]

  start_worker-Handled :
      (request : Envelope j.Value) (a : ℕ) (s : Session) (input : Option PipelineInput) (n : Node)
      {n' : Node}
      → get_elem? n.store a ≡ some s
      → s.busy ≡ false
      → start_worker j w i request a input (put a (record s { busy = true }) n) ≡ returns n'
      → Handled i n n'
  unfolding start_worker
  start_worker-Handled request a s none n at_a idle h =
      let (text, e) =
        refuse_said request (pos 3) (utf8 "当前构建未启用 ALSA 录音（需硬件后端构建，--record-device）")
          (put a (record s { busy = true }) n) h in
      subst (Handled i n) e (marks a s text at_a idle)
  start_worker-Handled request a s (some input) n {n'} at_a idle h =
      subst (Handled i n) (returns-injective refl h) (starts _ s at_a idle refl)

  infer-Handled :
      (request : Envelope j.Value) (a : ℕ) (s : Session) (n : Node) {n' : Node}
      → get_elem? n.store a ≡ some s
      → infer j w i request a s n ≡ returns n'
      → Handled i n n'
  unfolding infer
  infer-Handled request a s n {n'} at_a h = elim (Bool-cases s.busy) [
    | inl e ↦ refuse-Handled request (pos 3) (utf8 "会话忙碌（单流）") n (rw e at h)
    | inr e ↦ elim (Result-cases (read_input j w request.payload)) [
      | inr (t, f) ↦ absurd (cc (rw (e, f) at h))
      | inl (input, f) ↦ start_worker-Handled request a s input n at_a e (rw (e, f) at h)
    ]
  ]

  cancel-Handled :
      (request : Envelope j.Value) (a : ℕ) (s : Session) (n : Node) {n' : Node}
      → get_elem? n.store a ≡ some s
      → cancel j w i request a s n ≡ returns n'
      → Handled i n n'
  unfolding cancel
  cancel-Handled request a s n at_a h =
      let (text, e) = ok_said request (cancel_session a s n) h in
      subst (Handled i n) e (cancels a s text at_a)

  task_info-Handled :
      (request : Envelope j.Value) (a : ℕ) (s : Session) (n : Node) {n' : Node}
      → get_elem? n.store a ≡ some s
      → task_info j w i request a s n ≡ returns n'
      → Handled i n n'
  unfolding task_info
  task_info-Handled request a s n at_a h =
      let (text, e) = acknowledge_said request _ n h in subst (Handled i n) e (answers text)

  exit-Handled :
      (request : Envelope j.Value) (a : ℕ) (s : Session) (n : Node) {n' : Node}
      → get_elem? n.store a ≡ some s
      → exit j w i request a s n ≡ returns n'
      → Handled i n n'
  unfolding exit
  exit-Handled request a s n at_a h =
      let (text, e) = ok_said request (cancel_session a s (take_out request.work_id n)) h in
      subst (Handled i n) e (takes_out request.work_id a s text at_a)

  with_session-Handled :
      (request : Envelope j.Value) (act : ℕ → Session → Node → Result Thrown Node) (n : Node)
      {n' : Node}
      → IsStored n
      → ((a : ℕ) (s : Session)
          → get_elem? n.store a ≡ some s
          → act a s n ≡ returns n'
          → Handled i n n')
      → with_session j w i request act n ≡ returns n'
      → Handled i n n'
  unfolding with_session
  with_session-Handled request act n v each h =
      elim (Option-cases (find request.work_id n.sessions)) [
        | inl e ↦
            refuse-Handled request (pos 1) (utf8 "未知任务: " ++ request.work_id) n
              (rw (with_session, e) at h)
        | inr (a, e) ↦
            let (s, f) = v request.work_id a e in each a s f (rw (with_session, e, f) at h)
      ]

  switch-Handled :
      (type : MessageType) (request : Envelope j.Value) (n : Node) {n' : Node}
      → IsStored n
      → switch j w type i request n ≡ returns n'
      → Handled i n n'
  unfolding switch
  switch-Handled setup_type request n v h = handle_setup-Handled request n h
  switch-Handled inference_type request n v h =
      with_session-Handled request (infer j w i request) n v
        (λ a s e g. infer-Handled request a s n e g) h
  switch-Handled cancel_type request n v h =
      with_session-Handled request (cancel j w i request) n v
        (λ a s e g. cancel-Handled request a s n e g) h
  switch-Handled task_info_type request n v h =
      with_session-Handled request (task_info j w i request) n v
        (λ a s e g. task_info-Handled request a s n e g) h
  switch-Handled exit_type request n v h =
      with_session-Handled request (exit j w i request) n v
        (λ a s e g. exit-Handled request a s n e g) h
  switch-Handled event_type request n v h =
      refuse-Handled request (code_number invalid_type) (utf8 "session_node 不支持该消息类型") n h
  switch-Handled ack_type request n v h =
      refuse-Handled request (code_number invalid_type) (utf8 "session_node 不支持该消息类型") n h
  switch-Handled error_type request n v h =
      refuse-Handled request (code_number invalid_type) (utf8 "session_node 不支持该消息类型") n h

  pub handle_request-Handled :
      (text : Bytes) (n : Node) {n' : Node}
      → IsStored n
      → handle_request j w i text n ≡ returns n'
      → Handled i n n'
  unfolding handle_request
  handle_request-Handled text n {n'} v h = elim (Result-cases (from_json j text)) [
    | inr (e, f) ↦
        let (said, g) =
          send_reply_said (build_error j (default_envelope j) (code_number e.code) e.what) n
            {n' = n'} (rw (handle_request, f) at h) in
        subst (Handled i n) g (answers said)
    | inl (request, f) ↦ switch-Handled request.type request n v (rw (handle_request, f) at h)
  ]
