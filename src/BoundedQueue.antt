-- ===== src/BoundedQueue.antt =====
-- The bounded queue of libs/common/include/voxorchestra/common/bounded_queue.hpp.
-- Each method body runs under the mutex, so it is one function on the queue's state.
-- A wait gives the mutex away: what other threads do to the queue meanwhile is an argument, a
-- list of methods that do not wait, and the wait's predicate is read after them.
pub mod Invariant
pub mod Fifo
pub mod Waiting
mod Tests
use vox_orchestra.Prelude.{
  ℕ, ◌+◌, ◌-◌, Bool, true, false, ◌||◌, not, Option, none, some, List, [], ◌∷◌, ◌++◌, leb, ltb,
  ◌==◌, if◌then◌else◌, length,
}

pub data QueueResult : Type 0 where
  ok full empty closed : QueueResult

pub record Queue (A : Type 0) : Type 0 where
  pub items : List A
  pub capacity : ℕ
  pub size : ℕ
  pub peak : ℕ
  pub is_closed : Bool

-- The methods that do not wait.
pub data Op (A : Type 0) : Type 0 where
  push_op : A → Op A
  pop_op clear_op close_op drain_op : Op A

module _ {A : Type 0} where
  -- The constructor; a capacity of 0 counts as 1.
  unfoldable pub new : ℕ → Queue A
  new n = record {
    items = [];
    capacity = if n == 0 then 1 else n;
    size = 0;
    peak = 0;
    is_closed = false;
  }

  push_locked : A → Queue A → Queue A
  push_locked a q =
      let n = q.size + 1 in
      record q { items = q.items ++ a ∷ []; size = n; peak = if ltb q.peak n then n else q.peak }

  -- With the list at hand: `items_.front()`, then `pop_front()`.
  pop_front : List A → Queue A → Queue A × Option A
  pop_front [] q = (q, none)
  pop_front (a ∷ rest) q = (record q { items = rest; size = q.size - 1 }, some a)

  pop_locked : Queue A → Queue A × Option A
  unfolding pop_front
  pop_locked q = pop_front q.items q

  is_empty : List A → Bool
  is_empty [] = true
  is_empty (_ ∷ _) = false

  unfoldable pub try_push : A → Queue A → Queue A × QueueResult
  unfolding push_locked
  try_push a q =
      if q.is_closed
      then (q, closed)
      else if leb q.capacity q.size
      then (q, full)
      else (push_locked a q, ok)

  unfoldable pub try_pop : Queue A → Queue A × QueueResult × Option A
  unfolding pop_locked is_empty
  try_pop q =
      if is_empty q.items
      then (q, (if q.is_closed then closed else empty), none)
      else (let (q', out) = pop_locked q in (q', ok, out))

  -- The number of entries that were thrown away goes with the new queue.
  unfoldable pub clear : Queue A → Queue A × ℕ
  clear q = (record q { items = []; size = 0 }, length q.items)

  unfoldable pub close : Queue A → Queue A
  close q = record q { is_closed = true }

  unfoldable pub drain : Queue A → Queue A × List A
  drain q = (record q { items = []; size = 0 }, q.items)

  unfoldable pub step : Op A → Queue A → Queue A
  unfolding try_push try_pop clear close drain
  step (push_op a) q = (try_push a q).0
  step pop_op q = (try_pop q).0
  step clear_op q = (clear q).0
  step close_op q = close q
  step drain_op q = (drain q).0

  unfoldable pub run : List (Op A) → Queue A → Queue A
  unfolding step
  run [] q = q
  run (o ∷ os) q = run os (step o q)

  -- The predicates of the two condition variables.
  push_ready : Queue A → Bool
  push_ready q = q.is_closed || ltb q.size q.capacity

  pop_ready : Queue A → Bool
  unfolding is_empty
  pop_ready q = q.is_closed || not (is_empty q.items)

  -- What follows the wait in `push_timeout`.
  push_awake : A → Queue A → Queue A × QueueResult
  unfolding push_locked
  push_awake a q = if q.is_closed then (q, closed) else (push_locked a q, ok)

  unfoldable pub push_timeout : A → List (Op A) → Queue A → Queue A × QueueResult
  unfolding push_awake push_ready run
  push_timeout a others q =
      if q.is_closed
      then (q, closed)
      else if leb q.capacity q.size
      then (let q' = run others q in if not (push_ready q') then (q', full) else push_awake a q')
      else push_awake a q

  -- What follows the wait in `pop_timeout`.
  pop_awake : Queue A → Queue A × QueueResult × Option A
  unfolding pop_locked is_empty
  pop_awake q =
      if is_empty q.items
      then (q, closed, none)
      else (let (q', out) = pop_locked q in (q', ok, out))

  unfoldable pub pop_timeout : List (Op A) → Queue A → Queue A × QueueResult × Option A
  unfolding pop_awake pop_ready is_empty run
  pop_timeout others q =
      if is_empty q.items
      then (if q.is_closed
          then pop_awake q
          else (let q' = run others q in
              if not (pop_ready q') then (q', empty, none) else pop_awake q'))
      else pop_awake q

  -- The waits with no time limit: `none` while the predicate does not hold.
  unfoldable pub push : A → List (Op A) → Queue A → Option (Queue A × Bool)
  unfolding push_ready push_locked run
  push a others q =
      let q' = if push_ready q then q else run others q in
      if not (push_ready q')
      then none
      else if q'.is_closed
      then some (q', false)
      else some (push_locked a q', true)

  unfoldable pub pop : List (Op A) → Queue A → Option (Queue A × Bool × Option A)
  unfolding pop_ready pop_locked is_empty run
  pop others q =
      let q' = if pop_ready q then q else run others q in
      if not (pop_ready q')
      then none
      else if is_empty q'.items
      then some (q', false, none)
      else (let (q'', out) = pop_locked q' in some (q'', true, out))
