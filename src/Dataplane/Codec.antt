-- ===== src/Dataplane/Codec.antt =====
-- An event that is put into an envelope is read back from it.
use vox_orchestra.Prelude.{
  ◌≡◌, refl, Bool, true, false, Option, none, some, List, [], ◌∷◌, All, Bytes, codes, find,
  bytes_eq,
}
use vox_orchestra.Prelude.Int.{ℤ, negsuc}
use vox_orchestra.Prelude.Fallible.{returns}
use vox_orchestra.Base64.RoundTrip.{IsByte, decode-encode}
use vox_orchestra.Protocol.{Json, default_envelope}
use vox_orchestra.Protocol.Codec.{IsJson}
use vox_orchestra.Dataplane.{
  DataplaneEvent, base64_encode, base64_decode, is_event, member_if_any, dataplane_event_to_payload,
  string_at, kind_of, text_or_none, pcm_of, dataplane_event_from_payload,
  dataplane_event_to_envelope, dataplane_event_from_envelope,
}

module _ (j : Json) (laws : IsJson j)
    (strings : (s : Bytes) → j.is_string (j.of_string s) ≡ true) where
  string_at-some :
      (k s : Bytes) (fs : List (Bytes × j.Value))
      → find k fs ≡ some (j.of_string s)
      → string_at j k (j.object fs) ≡ returns (some s)
  unfolding string_at
  string_at-some k s fs h = rw (string_at, laws.members k fs, h, strings s, laws.strings s) refl

  string_at-none :
      (k : Bytes) (fs : List (Bytes × j.Value))
      → find k fs ≡ none
      → string_at j k (j.object fs) ≡ returns none
  unfolding string_at
  string_at-none k fs h = rw (string_at, laws.members k fs, h) refl

  -- What the payload says, by its three members.
  from_payload :
      (fs : List (Bytes × j.Value)) (kind pcm : Bytes) (text coded : Option Bytes)
      → string_at j (codes "kind") (j.object fs) ≡ returns (some kind)
      → string_at j (codes "text") (j.object fs) ≡ returns text
      → string_at j (codes "pcm") (j.object fs) ≡ returns coded
      → pcm_of j coded ≡ returns pcm
      → dataplane_event_from_payload j (j.object fs)
        ≡ returns (record {
          kind = kind;
          text = text_or_none j text;
          pcm = pcm;
          index = negsuc 0;
          finish = false;
        })
  unfolding dataplane_event_from_payload kind_of
  from_payload fs kind pcm text coded a b c d = rw (dataplane_event_from_payload, a, b, c, d) refl

  coded_back : (bs : Bytes) → All IsByte bs → pcm_of j (some (base64_encode bs)) ≡ returns bs
  unfolding pcm_of base64_encode base64_decode
  coded_back bs h = rw (pcm_of, base64_encode, base64_decode, decode-encode bs h) refl

  payload_back :
      (kind text pcm : Bytes)
      → All IsByte pcm
      → (i : ℤ) → (f : Bool)
      → dataplane_event_from_payload j (
          dataplane_event_to_payload j
            (record { kind = kind; text = text; pcm = pcm; index = i; finish = f }))
        ≡ returns (record { kind = kind; text = text; pcm = pcm; index = negsuc 0; finish = false })
  unfolding dataplane_event_to_payload member_if_any find bytes_eq text_or_none pcm_of
  payload_back kind [] [] h i f =
      from_payload _ kind [] none none (string_at-some _ kind _ refl) (string_at-none _ _ refl)
        (string_at-none _ _ refl) refl
  payload_back kind (t ∷ ts) [] h i f =
      from_payload _ kind [] (some (t ∷ ts)) none (string_at-some _ kind _ refl)
        (string_at-some _ (t ∷ ts) _ refl) (string_at-none _ _ refl) refl
  payload_back kind [] (b ∷ bs) h i f =
      from_payload _ kind (b ∷ bs) none (some (base64_encode (b ∷ bs)))
        (string_at-some _ kind _ refl) (string_at-none _ _ refl)
        (string_at-some _ (base64_encode (b ∷ bs)) _ refl) (coded_back (b ∷ bs) h)
  payload_back kind (t ∷ ts) (b ∷ bs) h i f =
      from_payload _ kind (b ∷ bs) (some (t ∷ ts)) (some (base64_encode (b ∷ bs)))
        (string_at-some _ kind _ refl) (string_at-some _ (t ∷ ts) _ refl)
        (string_at-some _ (base64_encode (b ∷ bs)) _ refl) (coded_back (b ∷ bs) h)

  -- An event is read back from its envelope as it was, with its index and its end mark, where its
  -- audio is made of bytes; an empty text and empty audio have no member, and are read as empty.
  pub envelope_back :
      (e : DataplaneEvent) (work_id request_id : Bytes)
      → All IsByte e.pcm
      → dataplane_event_from_envelope j (dataplane_event_to_envelope j e work_id request_id)
        ≡ returns e
  unfolding dataplane_event_from_envelope dataplane_event_to_envelope is_event default_envelope
  envelope_back e work_id request_id h =
      rw (payload_back e.kind e.text e.pcm h e.index e.finish) refl
