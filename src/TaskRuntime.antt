-- ===== src/TaskRuntime.antt =====
-- The table of tasks: libs/runtime/include/voxorchestra/runtime/task_runtime.hpp and
-- libs/runtime/src/task_runtime.cpp. Channels are shared: the table holds their addresses in a
-- store, so that an inference keeps its channel when the task is taken out of the table.
-- The backend that the factory makes for a channel is an argument, by the channel's address.
pub mod Valid
pub mod Effects
pub mod Isolation
mod Tests
use vox_orchestra.Prelude.{
  ℕ, ◌+◌, Bool, true, false, Option, none, some, List, [], ◌∷◌, ◌++◌, leb, if◌then◌else◌, length,
  get_elem?, set, Bytes, Dict, find, contains, emplace, erase,
}
use vox_orchestra.Prelude.Int.{ℤ}
use vox_orchestra.TaskRegistry.{Registry}
use vox_orchestra.TaskRegistry
use vox_orchestra.TaskChannel.{
  Channel, Error, ok, not_exist, bad_state, capacity, Backend, BackendResult,
}
use vox_orchestra.TaskChannel

pub record Runtime : Type 0 where
  pub registry : Registry
  pub channels : Dict ℕ
  pub store : List Channel

unfoldable pub new : ℕ → Runtime
new n = record { registry = TaskRegistry.new n; channels = []; store = [] }

-- A new channel in the store and, unless its id is there, in the table.
abbrev add_channel : Bytes → Channel → Runtime → Runtime
add_channel id c r = record r {
  channels = emplace id (length r.store) r.channels;
  store = r.store ++ c ∷ [];
}

-- What `setup` does with the error of the channel's own `setup`.
registered : Error → Bytes → Channel → Runtime → Runtime × Error × Bytes
registered ok id c r = (add_channel id c r, ok, id)
registered e id c r = (record r { registry = (TaskRegistry.release id r.registry).0 }, e, [])

allocated : Bytes → Bytes → Runtime → Runtime × Error × Bytes
unfolding registered
allocated [] payload r = (r, capacity, [])
allocated (b ∷ bs) payload r =
    let made = TaskChannel.setup payload (TaskChannel.new (b ∷ bs)) in
    registered made.1 (b ∷ bs) made.0 r

-- The error, and the id of the new task.
unfoldable pub setup : Bytes → Runtime → Runtime × Error × Bytes
unfolding allocated TaskRegistry.allocate TaskRegistry.release TaskChannel.setup TaskChannel.new
setup payload r =
    let (registry', id) = TaskRegistry.allocate r.registry in
    allocated id payload (record r { registry = registry' })

inserted : Error → Bytes → Channel → Runtime → Runtime × Error × Bytes
inserted ok id c r = (add_channel id c r, ok, id)
inserted e id c r = (r, e, [])

unfoldable pub setup_with : Bytes → Bytes → Runtime → Runtime × Error × Bytes
unfolding inserted TaskRegistry.capacity TaskChannel.setup TaskChannel.new
setup_with id payload r =
    if contains id r.channels
    then (r, bad_state, [])
    else if leb (TaskRegistry.capacity r.registry) (length r.channels)
    then (r, capacity, [])
    else (let made = TaskChannel.setup payload (TaskChannel.new id) in inserted made.1 id made.0 r)

-- A channel, by the address that the table has for the id.
unfoldable pub find_locked : Bytes → Runtime → Option ℕ
find_locked id r = find id r.channels

-- A channel method at an address; an address that is not in the store does not occur.
at_address : (Channel → Channel × Error) → ℕ → Runtime → Runtime × Error
at_address method a r = elim (get_elem? r.store a) [
  | none ↦ (r, not_exist)
  | some c ↦ (record r { store = set r.store a (method c).0 }, (method c).1)
]

on_channel : (Channel → Channel × Error) → Option ℕ → Runtime → Runtime × Error
unfolding at_address
on_channel method none r = (r, not_exist)
on_channel method (some a) r = at_address method a r

unfoldable pub cancel : Bytes → Runtime → Runtime × Error
unfolding on_channel find_locked
cancel id r = on_channel TaskChannel.cancel (find_locked id r) r

-- `erase` and `release`, where the channel's `exit` succeeds.
taken_out : Error → Bytes → Runtime → Runtime
taken_out ok id r = record r {
  channels = erase id r.channels;
  registry = (TaskRegistry.release id r.registry).0;
}
taken_out e id r = r

unfoldable pub exit : Bytes → Runtime → Runtime × Error
unfolding on_channel taken_out find_locked TaskRegistry.release
exit id r = let (r', e) = on_channel TaskChannel.exit (find_locked id r) r in (taken_out e id r', e)

-- `inference` up to the backend's call: the error, and the address of the channel.
begin_at : Bytes → Option ℕ → Runtime → Runtime × Error × ℕ
unfolding at_address
begin_at request none r = (r, not_exist, 0)
begin_at request (some a) r = let (r', e) = at_address (TaskChannel.begin request) a r in (r', e, a)

unfoldable pub begin : Bytes → Bytes → Runtime → Runtime × Error × ℕ
unfolding begin_at find_locked
begin id request r = begin_at request (find_locked id r) r

-- The backend that made the result belongs to the channel at `a`, in the table or not.
unfoldable pub finish : ℕ → (Channel → BackendResult) → Runtime → Runtime × Error × Option Bytes
finish a result r = elim (get_elem? r.store a) [
  | none ↦ (r, not_exist, none)
  | some c ↦ (
    record r { store = set r.store a (TaskChannel.finish (result c) c).0 },
    (TaskChannel.finish (result c) c).1,
    (TaskChannel.finish (result c) c).2,
  )
]

-- What other threads may call while a backend runs.
pub data Call : Type 0 where
  setups : Bytes → Call
  setups_with begins : Bytes → Bytes → Call
  cancels exits : Bytes → Call

unfoldable pub answer : Call → Runtime → Runtime × Error
unfolding setup setup_with begin cancel exit
answer (setups p) r = let out = setup p r in (out.0, out.1)
answer (setups_with id p) r = let out = setup_with id p r in (out.0, out.1)
answer (begins id request) r = let out = begin id request r in (out.0, out.1)
answer (cancels id) r = cancel id r
answer (exits id) r = exit id r

unfoldable pub run : List Call → Runtime → Runtime
unfolding answer
run [] r = r
run (x ∷ xs) r = run xs (answer x r).0

after_begin :
    Error → (ℕ → Backend) → Bytes → ℕ → List Call → ℕ → Runtime → Runtime × Error × Option Bytes
unfolding finish run
after_begin ok make payload deadline others a r =
    finish a (λ c. make a payload deadline c.cancel_flag) (run others r)
after_begin e make payload deadline others a r = (r, e, none)

unfoldable pub inference :
    (ℕ → Backend)
    → Bytes
    → Bytes
    → Bytes
    → ℕ
    → ℤ
    → List Call
    → Runtime
    → Runtime × Error × Option Bytes
unfolding begin after_begin
inference make id request payload now limit others r =
    let (r', e, a) = begin id request r in
    after_begin e make payload (TaskChannel.deadline_of now limit) others a r'

unfoldable pub taskinfo : Bytes → Runtime → Option Channel
unfolding find_locked
taskinfo id r = elim (find_locked id r) [ none ↦ none | some a ↦ get_elem? r.store a ]

unfoldable pub is_alive : Bytes → Runtime → Bool
is_alive id r = contains id r.channels

unfoldable pub size : Runtime → ℕ
size r = length r.channels
