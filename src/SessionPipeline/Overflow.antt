-- ===== src/SessionPipeline/Overflow.antt =====
-- What becomes of the sentences of an answer that the text queue has no room for.
use vox_orchestra.Prelude.{
  ℕ, zero, suc, ◌+◌, ◌-◌, ◌≡◌, refl, sym, ap, ◌∙◌, subst, List, [], ◌∷◌, ◌++◌, append_assoc,
  append-nil, length, length-append, take, arith, Bytes, false,
}
use mathlib.Core.Bool.{true≢false}
use vox_orchestra.BoundedQueue.{full}
use vox_orchestra.BoundedQueue.Invariant.{IsValid}
use vox_orchestra.SessionPipeline.{PipelineConfig, Driving}
use vox_orchestra.SessionPipeline.Queues.{gone_in, no_room, shut, pushes, push_timeout-IsValid}
use vox_orchestra.SessionPipeline.Answer.{pushed, push_text, push_all}

take-suc : (n m : ℕ) (s : Bytes) (ss : List Bytes) → n ≡ suc m → take n (s ∷ ss) ≡ s ∷ take m ss
take-suc n m s ss e = ap (λ k. take k (s ∷ ss)) e

take_none : (n : ℕ) (ss : List Bytes) → n ≡ 0 → take n ss ≡ []
take_none n ss e = ap (λ k. take k ss) e

take-nil : (n : ℕ) → take {A = Bytes} n [] ≡ []
take-nil zero = refl
take-nil (suc n) = refl

-- The sentences of an answer that the text queue has room for go into it, in order; no thread takes
-- one out meanwhile, so each sentence beyond its capacity is lost, and is counted as dropped.
pub push_all_lem :
    (c : PipelineConfig) (ss : List Bytes) (d : Driving)
    → IsValid d.text_queue
    → d.text_queue.is_closed ≡ false
    → ((push_all c ss d).text_queue.items
        ≡ d.text_queue.items ++ take (d.text_queue.capacity - d.text_queue.size) ss)
      × ((push_all c ss d).result.dropped_sentences
          ≡ d.result.dropped_sentences + (length ss - (d.text_queue.capacity - d.text_queue.size)))
unfolding push_all push_text pushed
push_all_lem c [] d v o = (
  sym (append-nil d.text_queue.items)
      ∙ ap (λ t. d.text_queue.items ++ t)
          (sym (take-nil (d.text_queue.capacity - d.text_queue.size))),
  omega arith,
)
push_all_lem c (s ∷ ss) d v o =
    let q = d.text_queue in
    elim (pushes s q) [
      | gone_in q' free items size still f ↦
          let d' = record d { text_queue = q' } in
          let same : push_text c s d ≡ d' = ap (λ r. pushed c r d) f in
          let v' : IsValid q' = subst (λ r. IsValid r.0) f (push_timeout-IsValid s q v) in
          let (later, dropped) = push_all_lem c ss d' v' (still ∙ o) in
          let one_more : q.capacity - q.size ≡ suc (q'.capacity - q'.size) =
            omega (arith, v'.counted, v.counted, ap length items, length-append q.items (s ∷ [])) in
          (
            ap (λ x. (push_all c ss x).text_queue.items) same
                ∙ later
                ∙ ap (λ xs. xs ++ take (q'.capacity - q'.size) ss) items
                ∙ append_assoc q.items (s ∷ []) (take (q'.capacity - q'.size) ss)
                ∙ ap (λ t. q.items ++ t)
                    (sym (take-suc (q.capacity - q.size) (q'.capacity - q'.size) s ss one_more)),
            ap (λ x. (push_all c ss x).result.dropped_sentences) same
                ∙ dropped
                ∙ omega (arith, one_more),
          )
      | no_room h f ↦
          let d' = pushed c (q, full) d in
          let same : push_text c s d ≡ d' = ap (λ r. pushed c r d) f in
          let (later, dropped) = push_all_lem c ss d' v o in
          (
            ap (λ x. (push_all c ss x).text_queue.items) same
                ∙ later
                ∙ ap (λ t. q.items ++ t)
                    (take_none (q.capacity - q.size) ss (omega (arith, h))
                      ∙ sym (take_none (q.capacity - q.size) (s ∷ ss) (omega (arith, h)))),
            ap (λ x. (push_all c ss x).result.dropped_sentences) same ∙ dropped ∙ omega (arith, h),
          )
      | shut e f ↦ absurd (true≢false (sym e ∙ o))
    ]
