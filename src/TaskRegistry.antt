-- ===== src/TaskRegistry.antt =====
-- The registry of work ids: libs/task_registry/include/voxorchestra/task_registry/task_registry.hpp
-- and libs/task_registry/src/task_registry.cpp. `TaskRegistry` passes each call on to its `Impl`,
-- whose method bodies run under the mutex. `std::size_t` has 64 bits.
pub mod Capacity
pub mod Fresh
mod Tests
use vox_orchestra.Prelude.{
  ℕ, ◌+◌, ◌%◌, ◌^◌, Bool, List, [], ◌∷◌, ◌++◌, ◌==◌, leb, if◌then◌else◌, length, Bytes, codes,
  to_string, Dict, contains, emplace, erase,
}

abbrev pub default_max_tasks : ℕ
default_max_tasks = 64

abbrev pub size_mod : ℕ
size_mod = 2 ^ 64

pub record Registry : Type 0 where
  pub max_tasks : ℕ
  pub alive : Dict (Unit {0})
  pub next_seq : ℕ

unfoldable pub new : ℕ → Registry
new n = record { max_tasks = if n == 0 then default_max_tasks else n; alive = []; next_seq = 0 }

unfoldable pub work_id : ℕ → Bytes
work_id n = codes "w-" ++ to_string n

-- The registry, and the new id, which is empty if there is no room.
unfoldable pub allocate : Registry → Registry × Bytes
unfolding work_id
allocate r = if leb r.max_tasks (length r.alive) then (r, []) else (
  record r {
    alive = emplace (work_id r.next_seq) tt r.alive;
    next_seq = (r.next_seq + 1) % size_mod;
  },
  work_id r.next_seq,
)

unfoldable pub is_alive : Bytes → Registry → Bool
is_alive id r = contains id r.alive

unfoldable pub release : Bytes → Registry → Registry × Bool
release id r = (record r { alive = erase id r.alive }, contains id r.alive)

unfoldable pub size : Registry → ℕ
size r = length r.alive

unfoldable pub capacity : Registry → ℕ
capacity r = r.max_tasks
