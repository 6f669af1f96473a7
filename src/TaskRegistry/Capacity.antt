-- ===== src/TaskRegistry/Capacity.antt =====
-- The registry never holds more tasks than its capacity, and each call does what its name says.
use vox_orchestra.Prelude.{
  ℕ, suc, ◌≤◌, ◌<◌, ◌≡◌, ◌↔◌, false, [], if◌then◌else◌, length, Bytes, arith, IsKeyed, contains,
  emplace, find-erase, erase-IsKeyed, length-erase, bytes_eq,
}
use vox_orchestra.TaskRegistry.{Registry, new, work_id, allocate, is_alive, release, size, capacity}

pub record IsValid (r : Registry) : Type 0 where
  pub keyed : IsKeyed r.alive
  pub bounded : length r.alive ≤ r.max_tasks
  pub room : 0 < r.max_tasks

pub new-IsValid : (n : ℕ) → IsValid (new n)
unfolding new
new-IsValid n = ground arith

pub allocate-IsValid : (r : Registry) → IsValid r → IsValid (allocate r).0
unfolding allocate emplace
allocate-IsValid r v = ground arith

pub release-IsValid : (id : Bytes) (r : Registry) → IsValid r → IsValid (release id r).0
unfolding release
release-IsValid id r v =
    ground (arith, erase-IsKeyed id r.alive v.keyed, length-erase id r.alive v.keyed)

-- `allocate` gives the empty id, and changes nothing, just when the registry is full.
pub allocate_full : (r : Registry) → ((allocate r).1 ≡ []) ↔ (capacity r ≤ size r)
unfolding allocate capacity size work_id
allocate_full r = ground arith

-- `release` reports whether the id was alive; afterwards it is not, the other ids are as they
-- were, and there is room for one task more if it was.
pub release_lem :
    (id other : Bytes) (r : Registry)
    → IsValid r
    → ((release id r).1 ≡ is_alive id r)
      × (is_alive other (release id r).0 ≡ (if bytes_eq id other then false else is_alive other r))
      × (size r ≡ (if is_alive id r then suc (size (release id r).0) else size (release id r).0))
unfolding release is_alive size contains
release_lem id other r v =
    ground (arith, find-erase id other r.alive, length-erase id r.alive v.keyed)
