-- ===== src/NetBackends/Driving.antt =====
-- One inference of a remote back end: `drive_inference` of backends/net/src/net_backend_session.cpp. A
-- round of its loop takes what other threads, the clock and the sockets do in it; where the rounds
-- end, the loop still runs.
use vox_orchestra.Prelude.{
  ℕ, ◌+◌, ◌-◌, Bool, true, false, ◌&&◌, ◌||◌, Option, none, some, List, [], ◌∷◌, ◌++◌, leb,
  if◌then◌else◌, Bytes, bytes_eq, codes, utf8, to_string,
}
use vox_orchestra.Prelude.Fallible.{Result, returns, throws}
use vox_orchestra.Protocol.{Json, Envelope, MessageType, error_type}
use vox_orchestra.Protocol.Parse.{Thrown, json_error, protocol_error, value_or, from_json}
use vox_orchestra.Dataplane.{DataplaneEvent, make_topic, receive}
use vox_orchestra.NetBackends.{Session, to_backend_event}

pub record Config : Type 0 where
  pub work_id : Bytes
  pub rpc_endpoint : Bytes
  pub rpc_timeout : ℕ

pub record Round : Type 0 where
  -- Another thread calls `cancel` before the round.
  pub cancels : Bool
  -- The clock in the round, and where the response is stored.
  pub now : ℕ
  pub later : ℕ
  -- Topics and payloads that have come in.
  pub arrivals : List (Bytes × Bytes)
  pub response : Option Bytes

-- The locals of the loop.
pub record Locals : Type 0 where
  pub ack_text : Bytes
  pub ack_done : Bool
  pub stream_done : Bool
  pub ack_time : ℕ

-- How the call ends: with the text of the acknowledgement, with the empty text of a cancelled call,
-- or with an exception; or it has not ended.
pub data Outcome : Type 0 where
  answered : Bytes → Outcome
  cancelled waiting : Outcome
  thrown : Bytes → Outcome

unfoldable pub what_of : Thrown → Bytes
what_of (json_error what) = what
what_of (protocol_error e) = e.what

unfoldable pub is_error : MessageType → Bool
is_error error_type = true
is_error _ = false

abbrev pub ack_settle : ℕ
ack_settle = 200

-- A round goes on with this state, unless an exception leaves it.
abbrev pub Going : Type 0
Going = (Session × Locals) × Option Bytes

unfoldable pub finished : Locals → Bool
finished l = l.ack_done && l.stream_done

unfoldable pub hear : DataplaneEvent → Session → Locals → Going
unfolding to_backend_event
hear e s l =
    let l' : Locals = record l { stream_done = l.stream_done || e.finish } in
    elim (to_backend_event e) [
      | throws what ↦ ((s, l'), some what)
      | returns b ↦ ((record s { heard = s.heard ++ b ∷ [] }, l'), none)
    ]

-- Behind the loop.
unfoldable pub leave : Config → Session → Outcome
unfolding utf8 to_string
leave c s =
    if s.cancelled
    then cancelled
    else thrown (
        utf8 "节点推理超时（"
        ++ (c.rpc_endpoint ++ (utf8 "，等待 " ++ (to_string c.rpc_timeout ++ utf8 "ms 未完成）"))))

unfoldable pub cancelled_by : Round → Session → Session
cancelled_by r s = if r.cancels then record s { cancelled = true } else s

-- A test of the loop before its body: the call is cancelled, out of time, or has waited long enough
-- for the events behind the acknowledgement.
unfoldable pub gives_up : ℕ → Round → Session → Locals → Bool
gives_up deadline r s l =
    s.cancelled || leb deadline r.now || (l.ack_done && leb ack_settle (r.now - l.ack_time))

module _ (j : Json) (no_value : j.Value → Bytes) where
  unfoldable pub take_arrivals : Bytes → List (Bytes × Bytes) → Session → Locals → Going
  unfolding hear receive what_of bytes_eq
  take_arrivals topic [] s l = ((s, l), none)
  take_arrivals topic ((got_topic, payload) ∷ rest) s l = elim (receive j payload) [
    | throws t ↦ ((s, l), some (what_of t))
    | returns e ↦ elim (bytes_eq got_topic topic) [
      | false ↦ take_arrivals topic rest s l
      | true ↦
          let ((s', l'), failed) = hear e s l in
          elim failed [ some what ↦ ((s', l'), some what) | none ↦ take_arrivals topic rest s' l' ]
    ]
  ]

  -- `reply.payload().value("text", std::string())`.
  unfoldable pub text_of : j.Value → Result Thrown Bytes
  unfolding value_or
  text_of payload =
      if j.is_object payload
      then value_or j j.get_string (codes "text") [] payload
      else throws (json_error (no_value payload))

  unfoldable pub take_reply : Envelope j.Value → ℕ → Session → Locals → Going
  unfolding is_error text_of what_of
  take_reply reply later s l =
      if is_error reply.type
      then ((s, l), some (utf8 "节点推理失败: " ++ reply.error.message))
      else elim (text_of reply.payload) [
        | throws t ↦ ((s, l), some (what_of t))
        | returns text ↦
            ((s, record l { ack_text = text; ack_done = true; ack_time = later }), none)
      ]

  unfoldable pub take_response : Option Bytes → ℕ → Session → Locals → Going
  unfolding take_reply from_json
  take_response none later s l = ((s, l), none)
  take_response (some text) later s l =
      let s' : Session = record s { rpc_pending = false } in
      elim (from_json j text) [
        | throws e ↦ ((s', l), some e.what)
        | returns reply ↦ take_reply reply later s' l
      ]

  -- The body of the loop.
  unfoldable pub body : Bytes → Round → Session → Locals → Going
  unfolding take_arrivals take_response
  body topic r s l =
      let ((s', l'), failed) = take_arrivals topic r.arrivals s l in
      elim failed [
        | some what ↦ ((s', l'), some what)
        | none ↦ if l'.ack_done then ((s', l'), none) else take_response r.response r.later s' l'
      ]

  unfoldable pub loop : Config → ℕ → Bytes → List Round → Session → Locals → Session × Outcome
  unfolding finished gives_up cancelled_by body leave
  loop c deadline topic [] s l = (s, if finished l then answered l.ack_text else waiting)
  loop c deadline topic (r ∷ rs) s l =
      let s0 = cancelled_by r s in
      let ((s', l'), failed) = body topic r s0 l in
      let rest = loop c deadline topic rs s' l' in
      if finished l
      then (s, answered l.ack_text)
      else if gives_up deadline r s0 l
      then (s0, leave c s0)
      else elim failed [ some what ↦ (s', thrown what) | none ↦ rest ]

  -- The call begins at a time. The request is sent before the loop; sockets, the subscription and the
  -- wait for it are left out.
  -- Behind the sending of the request, which throws where the request is too long for a message.
  unfoldable pub drive_inference : Config → ℕ → Bytes → List Round → Session → Session × Outcome
  unfolding loop make_topic
  drive_inference c start request_id rounds s =
      loop c (start + c.rpc_timeout) (make_topic c.work_id request_id) rounds
        (record s { rpc_pending = true })
        (record { ack_text = []; ack_done = false; stream_done = false; ack_time = 0 })
