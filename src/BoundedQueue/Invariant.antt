-- ===== src/BoundedQueue/Invariant.antt =====
-- The counters of the queue agree with its contents and stay within its capacity.
use vox_orchestra.Prelude.{ℕ, ◌≤◌, ◌<◌, ◌≡◌, refl, ap, List, [], ◌∷◌, arith, length, length-append}
use vox_orchestra.BoundedQueue.{
  Queue, Op, push_op, pop_op, close_op, new, pop_front, try_push, try_pop, step, run,
}

-- `size_` counts the entries, and `size_ <= peak_ <= capacity_`.
pub record IsValid {A : Type 0} (q : Queue A) : Type 0 where
  pub counted : q.size ≡ length q.items
  pub within : q.size ≤ q.peak
  pub bounded : q.peak ≤ q.capacity
  pub room : 0 < q.capacity

module _ {A : Type 0} where
  pub new-IsValid : (n : ℕ) → IsValid (new {A = A} n)
  unfolding new
  new-IsValid n = ground arith

  pop_front-IsValid :
      (xs : List A) (q : Queue A) → q.items ≡ xs → IsValid q → IsValid (pop_front xs q).0
  unfolding pop_front
  pop_front-IsValid [] q e v = v
  pop_front-IsValid (x ∷ xs) q e v = ground (arith, ap length e)

  try_push-IsValid : (a : A) (q : Queue A) → IsValid q → IsValid (try_push a q).0
  unfolding try_push
  try_push-IsValid a q v = ground (arith, length-append q.items (a ∷ []))

  try_pop-IsValid : (q : Queue A) → IsValid q → IsValid (try_pop q).0
  unfolding try_pop
  try_pop-IsValid q v = ground (arith, pop_front-IsValid q.items q refl v)

  pub step-IsValid : (o : Op A) (q : Queue A) → IsValid q → IsValid (step o q)
  unfolding step
  step-IsValid (push_op a) q v = try_push-IsValid a q v
  step-IsValid pop_op q v = try_pop-IsValid q v
  step-IsValid close_op q v = ground arith
  step-IsValid _ q v = ground arith

  -- Over any run of the methods it stays true that the size is the number of entries, that the
  -- peak is between the size and the capacity, and that the capacity is positive.
  pub run-IsValid : (os : List (Op A)) (q : Queue A) → IsValid q → IsValid (run os q)
  unfolding run
  run-IsValid [] q v = v
  run-IsValid (o ∷ os) q v = run-IsValid os (step o q) (step-IsValid o q v)
