-- ===== src/Dataplane/Indices.antt =====
-- The indices that the publisher gives.
use vox_orchestra.Prelude.{
  ℕ, suc, ◌+◌, ◌≡◌, inl, inr, refl, sym, ap, ◌∙◌, Bool, true, false, ◌&&◌, Option, none, some, List,
  [], ◌∷◌, Bytes, Dict, find, assign, find-assign, bytes_eq, bytes_eq_iff, arith, Bool-cases,
  if◌then◌else◌,
}
use vox_orchestra.Prelude.Int.{ℤ, pos, negsuc}
use vox_orchestra.Protocol.{Json}
use vox_orchestra.Dataplane.{
  DataplaneEvent, make_topic, next, next_of, is_negative, numbered, publish,
  dataplane_event_to_envelope,
}

-- What is published: an event, and the ids of its stream.
abbrev pub Post : Type 0
Post = DataplaneEvent × Bytes × Bytes

unfoldable pub topic_of : Post → Bytes
unfolding make_topic
topic_of post = make_topic post.1 post.2

unfoldable pub publish_all : Json → List Post → Dict ℤ → Dict ℤ
unfolding publish
publish_all j [] m = m
publish_all j (x ∷ xs) m = publish_all j xs (publish j x.0 x.1 x.2 m).1

-- The events of a stream that have no index of their own.
unfoldable pub unnumbered : Bytes → List Post → ℕ
unfolding topic_of bytes_eq
unnumbered topic [] = 0
unnumbered topic (x ∷ xs) =
    let rest = unnumbered topic xs in
    if bytes_eq (topic_of x) topic && is_negative x.0.index then suc rest else rest

-- One more event that asks for an index of its stream, or none.
abbrev asks : Bytes → Bytes → ℤ → ℕ
asks t topic index = if bytes_eq t topic && is_negative index then 1 else 0

next_of_found :
    (topic : Bytes) (m : Dict ℤ) (o : Option ℤ)
    → find topic m ≡ o
    → next_of topic m ≡ elim o [ none ↦ pos 0 | some i ↦ i ]
unfolding next_of
next_of_found topic m o e = rw (next_of, e) refl

numbered_next :
    (t topic : Bytes) (index : ℤ) (m : Dict ℤ) (k : ℕ)
    → next_of topic m ≡ pos k
    → next_of topic (numbered t index m).1 ≡ pos (asks t topic index + k)
unfolding numbered
numbered_next t topic (pos n) m k h = elim (Bool-cases (bytes_eq t topic)) [
  | inl e ↦ h ∙ ap pos (rw e (omega arith))
  | inr e ↦ h ∙ ap pos (rw e (omega arith))
]
numbered_next t topic (negsuc n) m k h =
    let v = next (next_of t m) in
    let m' = assign t v m in
    elim (Bool-cases (bytes_eq t topic)) [
      | inl e ↦
          let same : t ≡ topic = (bytes_eq_iff t topic).0 e in
          let value : v ≡ pos (k + 1) = ap (λ s. next (next_of s m)) same ∙ ap next h in
          next_of_found topic m' (some v) (find-assign t topic v m ∙ rw e refl)
          ∙ value
          ∙ ap pos (rw e (omega arith))
      | inr e ↦
          next_of_found topic m' (find topic m) (find-assign t topic v m ∙ rw e refl)
          ∙ sym (next_of_found topic m (find topic m) refl)
          ∙ h
          ∙ ap pos (rw e (omega arith))
    ]

counted : (b : Bool) (n k : ℕ) → n + ((if b then 1 else 0) + k) ≡ (if b then suc n else n) + k
counted true n k = omega arith
counted false n k = omega arith

publish_all-next :
    (j : Json) (xs : List Post) (topic : Bytes) (m : Dict ℤ) (k : ℕ)
    → next_of topic m ≡ pos k
    → next_of topic (publish_all j xs m) ≡ pos (unnumbered topic xs + k)
unfolding publish_all publish unnumbered topic_of
publish_all-next j [] topic m k h = h ∙ ap pos (omega arith)
publish_all-next j (x ∷ xs) topic m k h =
    let t = make_topic x.1 x.2 in
    let m' = (publish j x.0 x.1 x.2 m).1 in
    publish_all-next j xs topic m' (asks t topic x.0.index + k)
      (numbered_next t topic x.0.index m k h)
    ∙ ap pos (counted (bytes_eq t topic && is_negative x.0.index) (unnumbered topic xs) k)

-- After any events were published by a new publisher, an event without an index is given, in its
-- stream, the number of the stream's earlier events without one: 0, 1, 2 and so on, whatever is
-- published on other streams in between, and whatever indices other events bring with them.
pub publish-unnumbered :
    (j : Json) (xs : List Post) (e : DataplaneEvent) (work_id request_id : Bytes)
    → e.index ≡ negsuc 0
    → (publish j e work_id request_id (publish_all j xs [])).0.1.index
      ≡ pos (unnumbered (make_topic work_id request_id) xs)
unfolding publish numbered dataplane_event_to_envelope next_of
publish-unnumbered j xs e work_id request_id h =
    rw h (publish_all-next j xs (make_topic work_id request_id) [] 0 refl ∙ ap pos (omega arith))
