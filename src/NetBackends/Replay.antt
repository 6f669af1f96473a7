-- ===== src/NetBackends/Replay.antt =====
-- Which events a remote back end replays, and when it answers.
use vox_orchestra.Prelude.{
  ℕ, ◌+◌, ◌≡◌, inl, inr, refl, sym, ap, ◌∙◌, subst, true, false, ◌||◌, Option, none, some, List, [],
  ◌∷◌, ◌++◌, append-nil, append_assoc, either_way, Bytes, bytes_eq, Bool-cases, Option-cases, arith,
}
use vox_orchestra.Prelude.Fallible.{returns, throws, Result-cases}
use vox_orchestra.Protocol.{Json}
use vox_orchestra.Protocol.Parse.{from_json}
use vox_orchestra.SessionPipeline.{BackendEvent}
use vox_orchestra.Dataplane.{DataplaneEvent, make_topic, receive}
use vox_orchestra.NetBackends.{Session, cancel, to_backend_event}
use vox_orchestra.NetBackends.Driving.{
  Config, Round, Locals, Outcome, answered, cancelled, is_error, Going, finished, hear, leave,
  cancelled_by, gives_up, take_arrivals, text_of, take_reply, take_response, body, loop,
  drive_inference,
}

-- The events of a topic in what has come in, up to the first that cannot be read.
unfoldable pub stream_of : Json → Bytes → List (Bytes × Bytes) → List BackendEvent
unfolding receive bytes_eq to_backend_event
stream_of j topic [] = []
stream_of j topic ((got_topic, payload) ∷ rest) =
    let later = stream_of j topic rest in
    elim (receive j payload) [
      | throws t ↦ []
      | returns e ↦ elim (bytes_eq got_topic topic) [
        | false ↦ later
        | true ↦ elim (to_backend_event e) [ throws what ↦ [] | returns b ↦ b ∷ later ]
      ]
    ]

unfoldable pub arrivals_of : List Round → List (Bytes × Bytes)
arrivals_of [] = []
arrivals_of (r ∷ rs) = r.arrivals ++ arrivals_of rs

-- The callback was called with the first events of a stream, and no others.
pub record Replays (before after stream : List BackendEvent) : Type 0 where
  pub part : List BackendEvent
  pub rest : List BackendEvent
  pub called : after ≡ before ++ part
  pub split : stream ≡ part ++ rest

nothing_yet : (hs stream : List BackendEvent) → Replays hs hs stream
nothing_yet hs stream = record {
  part = [];
  rest = stream;
  called = sym (append-nil hs);
  split = refl;
}

-- What the arrivals of one round do: all of their stream is replayed, or an exception stops it.
record Arrived (j : Json) (topic : Bytes) (arrivals : List (Bytes × Bytes)) (s : Session)
    (g : Going) : Type 0 where
  part : List BackendEvent
  called : g.0.0.heard ≡ s.heard ++ part
  whole :
      g.1 ≡ none
      → (more : List (Bytes × Bytes))
      → stream_of j topic (arrivals ++ more) ≡ part ++ stream_of j topic more
  broken :
      (what : Bytes)
      → g.1 ≡ some what
      → (more : List (Bytes × Bytes)) → stream_of j topic (arrivals ++ more) ≡ part

module _ (j : Json) (no_value : j.Value → Bytes) (topic : Bytes) where
  unheard :
      (ev : DataplaneEvent) (s : Session) (l : Locals) (what : Bytes)
      → to_backend_event ev ≡ throws what
      → hear ev s l ≡ ((s, record l { stream_done = l.stream_done || ev.finish }), some what)
  unfolding hear
  unheard ev s l what g = rw (hear, g) refl

  take_arrivals-Arrived :
      (arrivals : List (Bytes × Bytes)) (s : Session) (l : Locals)
      → Arrived j topic arrivals s (take_arrivals j no_value topic arrivals s l)
  unfolding take_arrivals stream_of hear
  take_arrivals-Arrived [] s l = record {
    part = [];
    called = sym (append-nil s.heard);
    whole = λ e more. refl;
    broken = λ what e more. absurd (cc e);
  }
  take_arrivals-Arrived ((got_topic, payload) ∷ rest) s l =
      elim (Result-cases (receive j payload)) [
        | inr (t, e) ↦
            rw (take_arrivals, e)
              (record {
                part = [];
                called = sym (append-nil s.heard);
                whole = λ f more. absurd (cc f);
                broken = λ what f more. rw (stream_of, e) refl;
              })
        | inl (ev, e) ↦ elim (Bool-cases (bytes_eq got_topic topic)) [
          | inr f ↦
              let next = take_arrivals-Arrived rest s l in
              rw (take_arrivals, e, f)
                (record {
                  part = next.part;
                  called = next.called;
                  whole = λ g more. rw (stream_of, e, f) (next.whole g more);
                  broken = λ what g more. rw (stream_of, e, f) (next.broken what g more);
                })
          | inl f ↦ elim (Result-cases (to_backend_event ev)) [
            | inr (what, g) ↦
                rw (take_arrivals, e, f, hear, g)
                  (record {
                    part = [];
                    called =
                        ap (λ x. x.0.0.heard) (unheard ev s l what g) ∙ sym (append-nil s.heard);
                    whole = λ h more. absurd (cc h);
                    broken = λ what' h more. rw (stream_of, e, f, g) refl;
                  })
            | inl (b, g) ↦
                let s' : Session = record s { heard = s.heard ++ b ∷ [] } in
                let l' : Locals = record l { stream_done = l.stream_done || ev.finish } in
                let next = take_arrivals-Arrived rest s' l' in
                let heard : hear ev s l ≡ ((s', l'), none) = rw (hear, g) refl in
                let onward : take_arrivals j no_value topic ((got_topic, payload) ∷ rest) s l
                    ≡ take_arrivals j no_value topic rest s' l' =
                  rw (take_arrivals, e, f, heard)
                    (ap (λ g. take_arrivals j no_value topic rest g.0.0 g.0.1) heard) in
                subst (Arrived j topic ((got_topic, payload) ∷ rest) s) (sym onward) (record {
                  part = b ∷ next.part;
                  called = next.called ∙ append_assoc s.heard (b ∷ []) next.part;
                  whole = λ h more. rw (stream_of, e, f, g) (ap (λ t. b ∷ t) (next.whole h more));
                  broken = λ what h more.
                      rw (stream_of, e, f, g) (ap (λ t. b ∷ t) (next.broken what h more));
                })
          ]
        ]
      ]

  take_response_heard :
      (response : Option Bytes) (later : ℕ) (s : Session) (l : Locals)
      → (take_response j no_value response later s l).0.0.heard ≡ s.heard
  unfolding take_response take_reply
  take_response_heard none later s l = refl
  take_response_heard (some text) later s l = elim (Result-cases (from_json j text)) [
    | inr (t, e) ↦ rw (take_response, e) refl
    | inl (reply, e) ↦ elim (Bool-cases (is_error reply.type)) [
      | inl f ↦ rw (take_response, e, take_reply, f) refl
      | inr f ↦ elim (Result-cases (text_of j no_value reply.payload)) [
        | inr (t, g) ↦ rw (take_response, e, take_reply, f, g) refl
        | inl (t, g) ↦ rw (take_response, e, take_reply, f, g) refl
      ]
    ]
  ]

  -- What the body of the loop does with the arrivals of its round.
  body_replays :
      (r : Round) (s : Session) (l : Locals) (more : List (Bytes × Bytes))
      → let g = body j no_value topic r s l in
        (part : List BackendEvent) × (rest : List BackendEvent) × (g.0.0.heard ≡ s.heard ++ part)
        × (stream_of j topic (r.arrivals ++ more) ≡ part ++ rest)
        × (g.1 ≡ none → rest ≡ stream_of j topic more)
  unfolding body
  body_replays r s l more =
      let g = take_arrivals j no_value topic r.arrivals s l in
      let v = take_arrivals-Arrived r.arrivals s l in
      elim (Option-cases g.1) [
        | inr (what, e) ↦
            rw (body, e)
              (
                v.part,
                [],
                v.called,
                v.broken what e more ∙ sym (append-nil v.part),
                λ h. absurd (cc h),
              )
        | inl e ↦ elim (Bool-cases g.0.1.ack_done) [
          | inl f ↦
              rw (body, e, f) (v.part, stream_of j topic more, v.called, v.whole e more, λ h. refl)
          | inr f ↦
              rw (body, e, f)
                (
                  v.part,
                  stream_of j topic more,
                  take_response_heard r.response r.later g.0.0 g.0.1 ∙ v.called,
                  v.whole e more,
                  λ h. refl,
                )
        ]
      ]

cancelled_by_heard : (r : Round) (s : Session) → (cancelled_by r s).heard ≡ s.heard
unfolding cancelled_by
cancelled_by_heard r s = ground arith

module _ (j : Json) (no_value : j.Value → Bytes) (c : Config) (deadline : ℕ) (topic : Bytes) where
  loop-Replays :
      (rounds : List Round) (s : Session) (l : Locals)
      → Replays s.heard
          (loop j no_value c deadline topic rounds s l).0.heard
          (stream_of j topic (arrivals_of rounds))
  unfolding loop arrivals_of
  loop-Replays [] s l = nothing_yet s.heard _
  loop-Replays (r ∷ rs) s l =
      let s0 = cancelled_by r s in
      let g = body j no_value topic r s0 l in
      let stream = stream_of j topic (r.arrivals ++ arrivals_of rs) in
      let P : Session × Outcome → Type 0 = λ out. Replays s.heard out.0.heard stream in
      let (part, rest, called, split, onward) =
        body_replays j no_value topic r s0 l (arrivals_of rs) in
      let before : s0.heard ≡ s.heard = cancelled_by_heard r s in
      either_way P (finished l) (s, answered l.ack_text) _ (λ e. nothing_yet s.heard stream)
        (λ e.
          either_way P (gives_up deadline r s0 l) (s0, leave c s0) _
            (λ f. subst (λ hs. Replays s.heard hs stream) (sym before) (nothing_yet s.heard stream))
            (λ f. elim (Option-cases g.1) [
              | inr (what, h) ↦ rw h (record {
                part = part;
                rest = rest;
                called = called ∙ ap (λ hs. hs ++ part) before;
                split = split;
              })
              | inl h ↦
                  let v = loop-Replays rs g.0.0 g.0.1 in
                  rw h (record {
                    part = part ++ v.part;
                    rest = v.rest;
                    called =
                        v.called
                        ∙ ap (λ hs. hs ++ v.part) (called ∙ ap (λ hs. hs ++ part) before)
                        ∙ append_assoc s.heard part v.part;
                    split =
                        split
                        ∙ ap (λ t. part ++ t) (onward h ∙ v.split)
                        ∙ sym (append_assoc part v.part v.rest);
                  })
            ]))

stays_cancelled :
    (r : Round) (s : Session) → s.cancelled ≡ true → (cancelled_by r s).cancelled ≡ true
unfolding cancelled_by
stays_cancelled r s e = ground arith

leave-cancelled : (c : Config) (s : Session) → s.cancelled ≡ true → leave c s ≡ cancelled
unfolding leave
leave-cancelled c s e = rw e refl

gives_up-cancelled :
    (deadline : ℕ) (r : Round) (s : Session) (l : Locals)
    → s.cancelled ≡ true
    → gives_up deadline r s l ≡ true
unfolding gives_up
gives_up-cancelled deadline r s l e = rw e refl

module _ (j : Json) (no_value : j.Value → Bytes) where
  -- A call replays, in order and once each, the first events of its own stream: none of another
  -- topic, and none behind one that cannot be read. This holds however the call ends, and whatever
  -- else comes in, is cancelled or runs out of time.
  pub drive_inference-Replays :
      (c : Config) (start : ℕ) (request_id : Bytes) (rounds : List Round) (s : Session)
      → Replays s.heard
          (drive_inference j no_value c start request_id rounds s).0.heard
          (stream_of j (make_topic c.work_id request_id) (arrivals_of rounds))
  unfolding drive_inference
  drive_inference-Replays c start request_id rounds s =
      loop-Replays j no_value c (start + c.rpc_timeout) (make_topic c.work_id request_id) rounds
        (record s { rpc_pending = true })
        (record { ack_text = []; ack_done = false; stream_done = false; ack_time = 0 })

  -- Once a session was cancelled, each later call of it ends as cancelled in its first round, before
  -- it replays any event, whatever the node answers.
  pub drive_inference-cancel :
      (c : Config) (start : ℕ) (request_id : Bytes) (r : Round) (rounds : List Round) (s : Session)
      → let (s', out) = drive_inference j no_value c start request_id (r ∷ rounds) (cancel s) in
        (out ≡ cancelled) × (s'.heard ≡ s.heard) × (s'.cancelled ≡ true)
  unfolding drive_inference loop cancel
  drive_inference-cancel c start request_id r rounds s =
      let deadline = start + c.rpc_timeout in
      let s1 : Session = record s { cancelled = true; rpc_pending = true } in
      let l : Locals = record {
        ack_text = [];
        ack_done = false;
        stream_done = false;
        ack_time = 0;
      } in
      let s0 = cancelled_by r s1 in
      let marked = stays_cancelled r s1 refl in
      let P : Session × Outcome → Type 0 =
        λ out. (out.1 ≡ cancelled) × (out.0.heard ≡ s.heard) × (out.0.cancelled ≡ true) in
      either_way P (gives_up deadline r s0 l) (s0, leave c s0) _
        (λ e. (leave-cancelled c s0 marked, cancelled_by_heard r s1, marked))
        (λ e. absurd (cc (e, gives_up-cancelled deadline r s0 l marked)))
