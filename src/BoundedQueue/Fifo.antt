-- ===== src/BoundedQueue/Fifo.antt =====
-- The queue as a history: what went in comes out in the same order.
use mathlib.Core.List.{append-nil, append_assoc}
use vox_orchestra.Prelude.{
  ◌-◌, ◌≡◌, refl, sym, ap, ◌∙◌, true, none, some, List, [], ◌∷◌, ◌++◌, arith,
}
use vox_orchestra.BoundedQueue.{
  ok, closed, Queue, Op, push_op, pop_op, clear_op, close_op, drain_op, pop_front, try_push,
  try_pop, drain, step, run,
}

module _ {A : Type 0} where
  -- The entry that a method put in, by its result.
  accepted : Op A → Queue A → List A
  accepted (push_op a) q = elim (try_push a q).1 [ ok ↦ a ∷ [] | _ ↦ [] ]
  accepted _ q = []

  -- The entries that a method took out or threw away, oldest first.
  removed : Op A → Queue A → List A
  removed pop_op q = elim (try_pop q).2 [ none ↦ [] | some a ↦ a ∷ [] ]
  removed clear_op q = q.items
  removed drain_op q = (drain q).1
  removed _ q = []

  pub all_accepted : List (Op A) → Queue A → List A
  all_accepted [] q = []
  all_accepted (o ∷ os) q = accepted o q ++ all_accepted os (step o q)

  pub all_removed : List (Op A) → Queue A → List A
  all_removed [] q = []
  all_removed (o ∷ os) q = removed o q ++ all_removed os (step o q)

  pop-in_order :
      (xs : List A) (q : Queue A)
      → q.items ≡ xs
      → q.items ≡ removed pop_op q ++ (step pop_op q).items
  unfolding removed step
  pop-in_order [] q e = ground arith
  pop-in_order (x ∷ xs) q e = ground arith

  step-in_order :
      (o : Op A) (q : Queue A) → q.items ++ accepted o q ≡ removed o q ++ (step o q).items
  unfolding removed accepted step
  step-in_order (push_op a) q = ground (arith, append-nil q.items)
  step-in_order pop_op q = append-nil q.items ∙ pop-in_order q.items q refl
  step-in_order clear_op q = refl
  step-in_order close_op q = append-nil q.items
  step-in_order drain_op q = refl

  -- Over any run of the methods, the entries of the queue followed by those accepted since are,
  -- in this order, the entries removed since followed by those still there.
  pub run-in_order :
      (os : List (Op A)) (q : Queue A)
      → q.items ++ all_accepted os q ≡ all_removed os q ++ (run os q).items
  unfolding all_accepted all_removed run
  run-in_order [] q = append-nil q.items
  run-in_order (o ∷ os) q =
      sym (append_assoc q.items (accepted o q) (all_accepted os (step o q)))
      ∙ ap (λ xs. xs ++ all_accepted os (step o q)) (step-in_order o q)
      ∙ append_assoc (removed o q) (step o q).items (all_accepted os (step o q))
      ∙ ap (◌++◌ (removed o q)) (run-in_order os (step o q))
      ∙ sym (append_assoc (removed o q) (all_removed os (step o q)) (run os (step o q)).items)

  pop_front_closed :
      (xs : List A) (q : Queue A) → q.is_closed ≡ true → (pop_front xs q).0.is_closed ≡ true
  unfolding pop_front
  pop_front_closed [] q c = c
  pop_front_closed (x ∷ xs) q c = c

  step_closed :
      (o : Op A) (q : Queue A)
      → q.is_closed ≡ true
      → (accepted o q ≡ []) × ((step o q).is_closed ≡ true)
  unfolding accepted step
  step_closed (push_op a) q c = ground arith
  step_closed pop_op q c = (refl, ground (arith, pop_front_closed q.items q c))
  step_closed _ q c = ground arith

  -- A queue that is closed stays closed, and accepts nothing more.
  pub run_closed :
      (os : List (Op A)) (q : Queue A)
      → q.is_closed ≡ true
      → (all_accepted os q ≡ []) × ((run os q).is_closed ≡ true)
  unfolding all_accepted run
  run_closed [] q c = (refl, c)
  run_closed (o ∷ os) q c =
      let (none_in, c') = step_closed o q c in
      let (rest, end) = run_closed os (step o q) c' in (rw (none_in, rest), end)

  -- As many pops as there are entries.
  pub pops : List A → List (Op A)
  pops [] = []
  pops (_ ∷ xs) = pop_op ∷ pops xs

  pops_lem :
      (xs : List A) (q : Queue A)
      → q.items ≡ xs
      → q.is_closed ≡ true
      → (all_removed (pops xs) q ≡ xs) × ((try_pop (run (pops xs) q)).1 ≡ closed)
  unfolding all_removed run pops removed step
  pops_lem [] q e c = ground arith
  pops_lem (x ∷ xs) q e c =
      ground (arith, pops_lem xs (record q { items = xs; size = q.size - 1 }) refl c)

  -- What a closed queue holds can still be popped, in order; the pop after that reports `closed`.
  pub closed_drains :
      (q : Queue A)
      → q.is_closed ≡ true
      → (all_removed (pops q.items) q ≡ q.items) × ((try_pop (run (pops q.items) q)).1 ≡ closed)
  closed_drains q c = pops_lem q.items q refl c
