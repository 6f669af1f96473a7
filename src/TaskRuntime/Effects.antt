-- ===== src/TaskRuntime/Effects.antt =====
-- What each call of the table does to the task that it names, and to the others.
use vox_orchestra.Prelude.{
  ℕ, ◌≤◌, ◌<◌, ◌≡◌, ◌≢◌, ◌⊎◌, inl, inr, refl, true, false, none, some, List, [], if◌then◌else◌,
  length, get_elem?-append, Bytes, bytes_eq, bytes_eq_iff, arith, find, contains, emplace,
  find-erase, contains-erase, Option-cases, length-erase-le,
}
use vox_orchestra.Prelude.Int.{ℤ}
use vox_orchestra.TaskChannel.{Channel, State, ready, Error, ok, not_exist, capacity, Backend}
use vox_orchestra.TaskChannel
use vox_orchestra.TaskRuntime.{
  Runtime, setup_with, cancel, exit, inference, taskinfo, is_alive, size, Call, setups, setups_with,
  begins, cancels, exits, answer,
}
use vox_orchestra.TaskRuntime.Valid.{IsValid, exit_live, exit_missing}

-- Every call that names an id which is not in the table answers `not_exist` and changes nothing.
pub unknown_id :
    (make : ℕ → Backend) (id request payload : Bytes) (now : ℕ) (limit : ℤ) (others : List Call)
    (r : Runtime)
    → is_alive id r ≡ false
    → (cancel id r ≡ (r, not_exist))
      × (exit id r ≡ (r, not_exist))
      × (inference make id request payload now limit others r ≡ (r, not_exist, none))
      × (taskinfo id r ≡ none)
unfolding is_alive contains cancel exit inference taskinfo
unknown_id make id request payload now limit others r h = ground arith

-- `exit` of a task in the table succeeds, takes out that task and no other, and a second `exit`
-- finds none.
pub exit_lem :
    (id other : Bytes) (r : Runtime)
    → IsValid r
    → is_alive id r ≡ true
    → ((exit id r).1 ≡ ok)
      × (is_alive other (exit id r).0 ≡ (if bytes_eq id other then false else is_alive other r))
      × (exit id (exit id r).0 ≡ ((exit id r).0, not_exist))
unfolding is_alive contains
exit_lem id other r v h = elim (Option-cases (find id r.channels)) [
  | inl e ↦ absurd (cc (e))
  | inr (a, e) ↦
      let c = v id a e in
      let done = exit_live id a c.channel r e c.there c.live in
      rw done (
        refl,
        contains-erase id other r.channels,
        exit_missing id _ (ground (arith, find-erase id id r.channels, bytes_eq_iff id id)),
      )
]

-- `setup_with` of a new id, where there is room, puts a channel that is ready and holds the payload
-- into the table.
pub setup_with_lem :
    (id payload : Bytes) (r : Runtime)
    → is_alive id r ≡ false
    → size r < r.registry.max_tasks
    → let out = setup_with id payload r in
      (out.1 ≡ ok)
      × (out.2 ≡ id)
      × (taskinfo id out.0
          ≡ some (record (TaskChannel.new id) { state = ready; setup_payload = payload }))
unfolding setup_with is_alive size taskinfo contains emplace TaskChannel.new
setup_with_lem id payload r h room = ground (
  arith,
  bytes_eq_iff id id,
  get_elem?-append r.store (record (TaskChannel.new id) { state = ready; setup_payload = payload })
      (length r.store),
)

-- `setup_with` of an id that is in the table, or into a full table, is refused and changes nothing.
pub setup_with_refused :
    (id payload : Bytes) (r : Runtime)
    → (is_alive id r ≡ true) ⊎ (r.registry.max_tasks ≤ size r)
    → let out = setup_with id payload r in (out.0 ≡ r) × (out.1 ≢ ok) × (out.2 ≡ [])
unfolding setup_with is_alive size
setup_with_refused id payload r h = ground arith

-- `setup` does not look at the table's size; the other calls keep it within the capacity.
abbrev pub IsSetup : Call → Type 0
IsSetup (setups _) = Unit
IsSetup _ = ⊥

exit_bounded :
    (id : Bytes) (r : Runtime)
    → size r ≤ r.registry.max_tasks
    → size (exit id r).0 ≤ (exit id r).0.registry.max_tasks
unfolding exit size
exit_bounded id r h = ground (arith, length-erase-le id r.channels)

-- Every call but `setup` keeps the number of tasks within the capacity.
pub answer_bounded :
    (x : Call) (r : Runtime)
    → ¬ IsSetup x
    → size r ≤ r.registry.max_tasks
    → size (answer x r).0 ≤ (answer x r).0.registry.max_tasks
unfolding answer size
answer_bounded (setups p) r n h = absurd (n tt)
answer_bounded (setups_with id p) r n h = unfold emplace in ground arith
answer_bounded (begins id q) r n h = ground arith
answer_bounded (cancels id) r n h = ground arith
answer_bounded (exits id) r n h = unfold size in exit_bounded id r h
