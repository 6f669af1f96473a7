-- ===== src/BoundedQueue/Waiting.antt =====
-- A method that waits acts as its counterpart that does not, at one moment: at once if it need
-- not wait, else when the wait ends.
use vox_orchestra.Prelude.{
  ◌≡◌, Bool, true, false, ◌&&◌, not, Option, none, some, List, arith, leb, if◌then◌else◌,
}
use vox_orchestra.BoundedQueue.{
  QueueResult, ok, closed, Queue, Op, is_empty, try_push, try_pop, run, push_timeout, pop_timeout,
  push, pop,
}

module _ {A : Type 0} where
  -- The queue at that moment.
  pub push_moment : List (Op A) → Queue A → Queue A
  push_moment others q = if not q.is_closed && leb q.capacity q.size then run others q else q

  pub pop_moment : List (Op A) → Queue A → Queue A
  pop_moment others q = if is_empty q.items && not q.is_closed then run others q else q

  -- A timed push has the result and the effect of a `try_push` at its moment.
  pub push_timeout-try_push :
      (a : A) (others : List (Op A)) (q : Queue A)
      → push_timeout a others q ≡ try_push a (push_moment others q)
  unfolding push_timeout try_push push_moment
  push_timeout-try_push a others q = ground arith

  -- A timed pop has the result and the effect of a `try_pop` at its moment.
  pub pop_timeout-try_pop :
      (others : List (Op A)) (q : Queue A) → pop_timeout others q ≡ try_pop (pop_moment others q)
  unfolding pop_timeout try_pop pop_moment
  pop_timeout-try_pop others q = ground arith

  -- What `push` makes of the result of a `try_push`: it goes on waiting where that finds no room.
  pub push_answer : Queue A × QueueResult → Option (Queue A × Bool)
  push_answer (q, ok) = some (q, true)
  push_answer (q, closed) = some (q, false)
  push_answer (q, _) = none

  pub pop_answer : Queue A × QueueResult × Option A → Option (Queue A × Bool × Option A)
  pop_answer (q, ok, out) = some (q, true, out)
  pop_answer (q, closed, out) = some (q, false, out)
  pop_answer (q, _, out) = none

  -- The waits with no limit are a `try_push` and a `try_pop` at their moment, or are still waiting
  -- where these report `full` or `empty`.
  pub push-try_push :
      (a : A) (others : List (Op A)) (q : Queue A)
      → (push a others q ≡ push_answer (try_push a (push_moment others q)))
        × (pop others q ≡ pop_answer (try_pop (pop_moment others q)))
  unfolding push pop try_push try_pop push_moment pop_moment push_answer pop_answer
  push-try_push a others q = ground arith
