-- ===== src/EdgeGateway/Frames.antt =====
-- Which frames reach the manager, and when the handler lets an exception out.
use vox_orchestra.Prelude.{
  ◌<◌, ◌≡◌, ◌⊎◌, inl, inr, refl, Bool, true, false, Option, none, some, length, lt→ltb, Bytes,
  arith,
}
use vox_orchestra.Prelude.Fallible.{Result, returns, throws}
use vox_orchestra.Protocol.{
  Json, Envelope, ProtocolError, oversized, max_serialized_bytes, to_object, to_json,
}
use vox_orchestra.Protocol.Parse.{from_json}
use vox_orchestra.EdgeGateway.{
  Sent, ManagerCall, is_action, reject_envelope, bad_frame_envelope, send, forward_to_manager,
  switched, handled, handle_message,
}

-- The frame is a message with one of the five actions.
abbrev pub IsAction : Json → Bytes → Type 0
IsAction j frame =
    (request : Envelope j.Value) × (from_json j frame ≡ returns request)
    × (is_action request.type ≡ true)

module _ (j : Json) (call : ManagerCall) where
  send_asked :
      (asked : Option Bytes) (m : Envelope j.Value) {out : Sent}
      → send j call asked m ≡ returns out
      → out.asked ≡ asked
  unfolding send
  send_asked asked m h = ground arith

  forward_asked :
      (frame : Bytes) {out : Sent}
      → forward_to_manager j call frame ≡ returns out
      → out.asked ≡ some frame
  unfolding forward_to_manager send
  forward_asked frame h = ground arith

  switched_asked :
      (b : Bool) (frame : Bytes) (request : Envelope j.Value) {out : Sent}
      → is_action request.type ≡ b
      → switched j call b frame request ≡ returns out
      → ((out.asked ≡ some frame) × (is_action request.type ≡ true)) ⊎ (out.asked ≡ none)
  unfolding switched
  switched_asked true frame request e h = inl (forward_asked frame h, e)
  switched_asked false frame request e h = inr (send_asked none (reject_envelope j call request) h)

  send_long :
      (asked : Option Bytes) (m : Envelope j.Value)
      → max_serialized_bytes < length (j.dump (to_object j m))
      → (t : ProtocolError) × (send j call asked m ≡ throws t) × (t.code ≡ oversized)
  unfolding send to_json
  send_long asked m h = rw (send, to_json, lt→ltb _ _ h) (_, refl, refl)

  handled_asked :
      (p : Result ProtocolError (Envelope j.Value)) (frame : Bytes) {out : Sent}
      → handled j call p frame ≡ returns out
      → ((out.asked ≡ some frame)
          × ((request : Envelope j.Value) × (p ≡ returns request)
              × (is_action request.type ≡ true)))
        ⊎ (out.asked ≡ none)
  unfolding handled
  handled_asked (throws e) frame h = inr (send_asked none (bad_frame_envelope j call e) h)
  handled_asked (returns request) frame h =
      elim (switched_asked (is_action request.type) frame request refl h) [
        | inl (sent, action) ↦ inl (sent, (request, refl, action))
        | inr none_sent ↦ inr none_sent
      ]

  -- Only a frame that is a message with one of the five actions reaches the manager, and it does
  -- so byte for byte; a frame that does not is answered by the gateway alone.
  pub handle_message_asked :
      (frame : Bytes) {out : Sent}
      → handle_message j call frame ≡ returns out
      → ((out.asked ≡ some frame) × IsAction j frame) ⊎ (out.asked ≡ none)
  unfolding handle_message
  handle_message_asked frame h = handled_asked (from_json j frame) frame h

  -- A frame that is no message, and whose error reply is longer than the limit, makes the handler
  -- throw: nothing is sent.
  pub handle_message_escapes :
      (frame : Bytes) {e : ProtocolError}
      → from_json j frame ≡ throws e
      → max_serialized_bytes < length (j.dump (to_object j (bad_frame_envelope j call e)))
      → (t : ProtocolError) × (handle_message j call frame ≡ throws t) × (t.code ≡ oversized)
  unfolding handle_message
  handle_message_escapes frame {e = err} e h =
      rw (handled, e) (send_long none (bad_frame_envelope j call err) h)
