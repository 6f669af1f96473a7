-- ===== src/SessionPipeline/Queues.antt =====
-- What the pushes and pops of the workers do to a queue.
use vox_orchestra.Prelude.{
  ◌-◌, ◌≤◌, ◌<◌, ◌≡◌, refl, Bool, true, false, none, some, List, [], ◌∷◌, ◌++◌, leb, arith,
}
use vox_orchestra.BoundedQueue.{
  ok, full, empty, closed, Queue, push_timeout, pop_timeout, push_op, pop_op, close_op, close, step,
}
use vox_orchestra.BoundedQueue.Invariant.{IsValid, step-IsValid}

module _ {A : Type 0} where
  -- A pop that meets no other methods: an entry, or nothing, or the end.
  pub data Pops (q : Queue A) : Type 0 where
    an_entry :
        (a : A) (rest : List A)
        → q.items ≡ a ∷ rest
        → pop_timeout [] q ≡ (record q { items = rest; size = q.size - 1 }, ok, some a)
        → Pops q
    no_entry : q.items ≡ [] → q.is_closed ≡ false → pop_timeout [] q ≡ (q, empty, none) → Pops q
    the_end : q.items ≡ [] → q.is_closed ≡ true → pop_timeout [] q ≡ (q, closed, none) → Pops q

  pops_as : (xs : List A) (b : Bool) (q : Queue A) → q.items ≡ xs → q.is_closed ≡ b → Pops q
  unfolding pop_timeout
  pops_as (x ∷ xs) b q e f = an_entry x xs e (ground arith)
  pops_as [] false q e f = no_entry e f (ground arith)
  pops_as [] true q e f = the_end e f (ground arith)

  pub pops : (q : Queue A) → Pops q
  pops q = pops_as q.items q.is_closed q refl refl

  pub data Pushes (a : A) (q : Queue A) : Type 0 where
    gone_in :
        (q' : Queue A)
        → q.size < q.capacity
        → q'.items ≡ q.items ++ a ∷ []
        → q'.capacity ≡ q.capacity
        → q'.is_closed ≡ q.is_closed
        → push_timeout a [] q ≡ (q', ok)
        → Pushes a q
    no_room : q.capacity ≤ q.size → push_timeout a [] q ≡ (q, full) → Pushes a q
    shut : q.is_closed ≡ true → push_timeout a [] q ≡ (q, closed) → Pushes a q

  pushes_as :
      (b c : Bool) (a : A) (q : Queue A) → q.is_closed ≡ b → leb q.capacity q.size ≡ c → Pushes a q
  unfolding push_timeout
  pushes_as true c a q e f = shut e (ground arith)
  pushes_as false true a q e f = no_room (ground arith) (ground arith)
  pushes_as false false a q e f =
      gone_in (push_timeout a [] q).0 (ground arith) (ground arith) (ground arith) (ground arith)
        (ground arith)

  pub pushes : (a : A) (q : Queue A) → Pushes a q
  pushes a q = pushes_as q.is_closed (leb q.capacity q.size) a q refl refl

  pub push_timeout-IsValid : (a : A) (q : Queue A) → IsValid q → IsValid (push_timeout a [] q).0
  unfolding push_timeout step
  push_timeout-IsValid a q v = ground (arith, step-IsValid (push_op a) q v)

  pub pop_timeout-IsValid : (q : Queue A) → IsValid q → IsValid (pop_timeout [] q).0
  unfolding pop_timeout step
  pop_timeout-IsValid q v = ground (arith, step-IsValid pop_op q v)

  pub close-IsValid : (q : Queue A) → IsValid q → IsValid (close q)
  unfolding step
  close-IsValid q v = step-IsValid close_op q v
