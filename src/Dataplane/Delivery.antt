-- ===== src/Dataplane/Delivery.antt =====
-- A message that is published is received as the event that it was made of.
use vox_orchestra.Prelude.{◌≡◌, refl, true, All, Bytes, Dict, arith}
use vox_orchestra.Prelude.Int.{ℤ}
use vox_orchestra.Prelude.Fallible.{returns}
use vox_orchestra.Base64.RoundTrip.{IsByte}
use vox_orchestra.Protocol.{Json, default_envelope, to_object, to_json}
use vox_orchestra.Protocol.Codec.{Fits, IsJson, IsSized, from_json-to_json}
use vox_orchestra.Dataplane.{
  DataplaneEvent, make_topic, numbered, dataplane_event_to_envelope, publish, receive,
}
use vox_orchestra.Dataplane.Codec.{envelope_back}

module _ (j : Json) (laws : IsJson j)
    (strings : (s : Bytes) → j.is_string (j.of_string s) ≡ true) where
  envelope-IsSized :
      (e : DataplaneEvent) (work_id request_id : Bytes)
      → Fits 64 e.index
      → IsSized (dataplane_event_to_envelope j e work_id request_id)
  unfolding dataplane_event_to_envelope default_envelope
  envelope-IsSized e work_id request_id h = record {
    index = h;
    timestamp = omega arith;
    code = omega arith;
  }

  -- An event that is published is received as it was, with the index that the publisher gave it, where
  -- its audio is made of bytes, the index fits in 64 bits, and the message is within the limit of
  -- the protocol and is read by the JSON library as the value that it was made of.
  pub receive-publish :
      (e : DataplaneEvent) (work_id request_id text : Bytes) (m : Dict ℤ)
      → let env = (publish j e work_id request_id m).0.1 in
        All IsByte e.pcm
        → Fits 64 env.index
        → j.parse (j.dump (to_object j env)) ≡ returns (to_object j env)
        → to_json j env ≡ returns text
        → receive j text ≡ returns (record e { index = env.index })
  unfolding receive publish
  receive-publish e work_id request_id text m b f p t =
      let i = (numbered (make_topic work_id request_id) e.index m).0 in
      let numbered_event : DataplaneEvent = record e { index = i } in
      let env = dataplane_event_to_envelope j numbered_event work_id request_id in
      let read =
        from_json-to_json j laws env text refl
          (envelope-IsSized numbered_event work_id request_id f) p t in
      rw (receive, read) (envelope_back j laws strings numbered_event work_id request_id b)
