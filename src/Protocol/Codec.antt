-- ===== src/Protocol/Codec.antt =====
-- What is written is read back.
use vox_orchestra.Prelude.{
  ℕ, ◌<◌, ◌^◌, ◌-◌, ◌≡◌, refl, Bool, true, false, some, List, [], ◌∷◌, ltb, length, Bytes, bytes_eq,
  codes, find, arith, Bool-cases, inl, inr,
}
use vox_orchestra.Prelude.Int.{ℤ, pos, negsuc}
use vox_orchestra.Prelude.Fallible.{Result, returns}
use vox_orchestra.Protocol.{
  Json, protocol_version, max_serialized_bytes, MessageType, setup_type, inference_type,
  cancel_type, task_info_type, exit_type, event_type, ack_type, error_type, ErrorInfo, is_no_error,
  Envelope, message_type_to_string, message_type_from_string, error_object, members_of, to_object,
  to_json,
}
use vox_orchestra.Protocol.Parse.{value_or, read_type, read_error, read_fields, from_json}

-- The numbers of `w` bits, with a sign.
abbrev pub Fits : ℕ → ℤ → Type 0
Fits w (pos n) = n < 2 ^ (w - 1)
Fits w (negsuc n) = n < 2 ^ (w - 1)

-- What the code relies on: an object has the members it was made of, and each `get` gives back
-- what the value was made of.
pub record IsJson (j : Json) : Type 0 where
  pub objects : (fs : List (Bytes × j.Value)) → j.is_object (j.object fs) ≡ true
  pub members : (k : Bytes) (fs : List (Bytes × j.Value)) → j.member k (j.object fs) ≡ find k fs
  pub ints : (n : ℤ) → Fits 32 n → j.get_int (j.of_int n) ≡ returns n
  pub ints64 : (n : ℤ) → Fits 64 n → j.get_int64 (j.of_int n) ≡ returns n
  pub strings : (s : Bytes) → j.get_string (j.of_string s) ≡ returns s
  pub bools : (b : Bool) → j.get_bool (j.of_bool b) ≡ returns b

-- The fields of C++ have their widths.
pub record IsSized {V : Type 0} (m : Envelope V) : Type 0 where
  pub index : Fits 64 m.index
  pub timestamp : Fits 64 m.timestamp_ms
  pub code : Fits 32 m.error.code

pub message_type-round_trip :
    (t : MessageType) → message_type_from_string (message_type_to_string t) ≡ some t
unfolding message_type_from_string message_type_to_string find bytes_eq
message_type-round_trip setup_type = refl
message_type-round_trip inference_type = refl
message_type-round_trip cancel_type = refl
message_type-round_trip task_info_type = refl
message_type-round_trip exit_type = refl
message_type-round_trip event_type = refl
message_type-round_trip ack_type = refl
message_type-round_trip error_type = refl

no_error : (e : ErrorInfo) → is_no_error e ≡ true → (e.code ≡ pos 0) × (e.message ≡ [])
unfolding is_no_error
no_error e h = ground arith

module _ (j : Json) (laws : IsJson j) where
  value_or-object :
      {A : Type 0} (get : j.Value → Result Bytes A) (key : Bytes) (fallback : A)
      (fs : List (Bytes × j.Value)) {v : j.Value} {a : A}
      → find key fs ≡ some v
      → get v ≡ returns a
      → value_or j get key fallback (j.object fs) ≡ returns a
  unfolding value_or
  value_or-object get key fallback fs e g = rw (value_or, laws.members key fs, e, g) refl

  value_or-missing :
      {A : Type 0} (get : j.Value → Result Bytes A) (key : Bytes) (fallback : A)
      → value_or j get key fallback (j.object []) ≡ returns fallback
  unfolding value_or find
  value_or-missing get key fallback = rw (value_or, laws.members key []) refl

  read_type-object :
      (t : MessageType) (fs : List (Bytes × j.Value))
      → find (codes "type") fs ≡ some (j.of_string (message_type_to_string t))
      → read_type j (j.object fs) ≡ returns t
  unfolding read_type
  read_type-object t fs e =
      rw (read_type, laws.members (codes "type") fs, e, laws.strings (message_type_to_string t))
        (ground (arith, message_type-round_trip t))

  error_members : ErrorInfo → List (Bytes × j.Value)
  error_members e = (codes "code", j.of_int e.code) ∷ (codes "message", j.of_string e.message) ∷ []

  read_error-object :
      (e : ErrorInfo) (fs : List (Bytes × j.Value))
      → Fits 32 e.code
      → find (codes "error") fs ≡ some (error_object j e)
      → read_error j (j.object fs) ≡ returns e
  unfolding read_error error_object find bytes_eq error_members
  read_error-object e fs w h = elim (Bool-cases (is_no_error e)) [
    | inl y ↦
        rw
          (
            read_error,
            laws.members (codes "error") fs,
            h,
            error_object,
            y,
            laws.objects [],
            value_or-missing j.get_int (codes "code") (pos 0),
            value_or-missing j.get_string (codes "message") [],
            (no_error e y).0,
            (no_error e y).1,
          )
          refl
    | inr n ↦
        let ms = error_members e in
        rw
          (
            read_error,
            laws.members (codes "error") fs,
            h,
            error_object,
            n,
            laws.objects ms,
            value_or-object j.get_int (codes "code") (pos 0) ms refl (laws.ints e.code w),
            value_or-object j.get_string (codes "message") [] ms refl (laws.strings e.message),
          )
          refl
  ]

  read_fields-to_object :
      (m : Envelope j.Value)
      → m.version ≡ protocol_version
      → IsSized m
      → read_fields j (to_object j m) ≡ returns m
  unfolding read_fields to_object members_of find bytes_eq
  read_fields-to_object m v s =
      let fs = members_of j m in
      rw
        (
          value_or-object j.get_int (codes "version") (pos 0) fs refl
              (laws.ints m.version (rw v (omega arith))),
          read_type-object m.type fs refl,
          value_or-object j.get_string (codes "work_id") [] fs refl (laws.strings m.work_id),
          value_or-object j.get_string (codes "request_id") [] fs refl (laws.strings m.request_id),
          value_or-object j.get_string (codes "session_id") [] fs refl (laws.strings m.session_id),
          value_or-object j.get_int64 (codes "index") (negsuc 0) fs refl
              (laws.ints64 m.index s.index),
          value_or-object j.get_int64 (codes "timestamp_ms") (negsuc 0) fs refl
              (laws.ints64 m.timestamp_ms s.timestamp),
          value_or-object j.get_bool (codes "finish") false fs refl (laws.bools m.finish),
          read_error-object m.error fs s.code refl,
          laws.members (codes "payload") fs,
          v,
        )
        refl

  to_json_text :
      (m : Envelope j.Value) (text : Bytes)
      → to_json j m ≡ returns text
      → (text ≡ j.dump (to_object j m)) × (ltb max_serialized_bytes (length text) ≡ false)
  unfolding to_json
  to_json_text m text h = ground arith

  -- A message of the protocol's version, with fields of their widths, whose text is within the
  -- limit and is read by the JSON library as the value that it was made of, is read back as it was.
  pub from_json-to_json :
      (m : Envelope j.Value) (text : Bytes)
      → m.version ≡ protocol_version
      → IsSized m
      → j.parse (j.dump (to_object j m)) ≡ returns (to_object j m)
      → to_json j m ≡ returns text
      → from_json j text ≡ returns m
  unfolding from_json to_json to_object
  from_json-to_json m text v s p h =
      let (e, short) = to_json_text m text h in
      rw (from_json, short, e, p, laws.objects (members_of j m), read_fields-to_object m v s) refl
