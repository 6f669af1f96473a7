-- ===== src/UnitManager/Effects.antt =====
-- What a request does to the routes and the registry.
use vox_orchestra.Prelude.{
  Bool-cases, ℕ, ◌+◌, ◌%◌, ◌^◌, ◌≡◌, ◌≢◌, refl, sym, subst, ◌∙◌, Bool, true, false, ◌⊎◌, inl, inr,
  Option, none, some, [], ◌∷◌, if◌then◌else◌, Bytes, bytes_eq, bytes_eq_refl, bytes_eq_iff, find,
  contains, find-erase, find-assign, contains-erase, arith,
}
use vox_orchestra.Protocol.{
  Json, Envelope, MessageType, setup_type, inference_type, cancel_type, task_info_type, exit_type,
  ack_type, error_type,
}
use vox_orchestra.TaskRegistry.{Registry, work_id, is_alive, allocate, release}
use vox_orchestra.UnitManager.{
  Manager, NodeCall, forget, after_setup, after_action, allocated, handle_setup, routed,
  handle_action, refused, switch, handle,
}
use vox_orchestra.UnitManager.Routes.{IsValid, add_route, allocate_same, allocate_alive}

-- The reply ends the task.
unfoldable pub ends : MessageType → MessageType → Bool
ends exit_type ack_type = true
ends _ _ = false

-- The task is in the table and the registry of a manager as it is in those of another.
pub record SameTask (id : Bytes) (a b : Manager) : Type 0 where
  pub route : find id a.route ≡ find id b.route
  pub alive : is_alive id a.registry ≡ is_alive id b.registry

-- The task is gone.
pub record NoTask (id : Bytes) (m : Manager) : Type 0 where
  pub route : find id m.route ≡ none
  pub alive : is_alive id m.registry ≡ false

forget_task : (id : Bytes) (m : Manager) → NoTask id (forget id m)
unfolding forget is_alive release
forget_task id m = record {
  route = find-erase id id m.route ∙ rw (bytes_eq_refl id) refl;
  alive = contains-erase id id m.registry.alive ∙ rw (bytes_eq_refl id) refl;
}

forget_other :
    (id other : Bytes) (m : Manager) → bytes_eq id other ≡ false → SameTask other (forget id m) m
unfolding forget is_alive release
forget_other id other m h = record {
  route = find-erase id other m.route ∙ rw h refl;
  alive = contains-erase id other m.registry.alive ∙ rw h refl;
}

-- The four actions that name a task: what they leave behind.
abbrev pub Settled : MessageType → MessageType → Bytes → Bytes → Manager → Manager → Type 0
Settled t r id other before after =
    if ends t r
    then (if bytes_eq id other then NoTask other after else SameTask other after before)
    else (after ≡ before)

forget-Settled :
    (id other : Bytes) (m : Manager)
    → if bytes_eq id other then NoTask other (forget id m) else SameTask other (forget id m) m
forget-Settled id other m = elim (Bool-cases (bytes_eq id other)) [
  | inl e ↦
      rw e (subst (λ k. NoTask k (forget id m)) ((bytes_eq_iff id other).0 e) (forget_task id m))
  | inr e ↦ rw e (forget_other id other m e)
]

after_action-Settled :
    (t r : MessageType) (id other : Bytes) (m : Manager)
    → Settled t r id other m (after_action t r id m)
unfolding after_action ends
after_action-Settled exit_type ack_type id other m = forget-Settled id other m
after_action-Settled _ _ id other m = refl

error-Settled :
    (t : MessageType) (id other : Bytes) (m : Manager) → Settled t error_type id other m m
unfolding ends
error-Settled exit_type id other m = refl
error-Settled _ id other m = refl

allocate_id : (r : Registry) → ((allocate r).1 ≡ []) ⊎ ((allocate r).1 ≡ work_id r.next_seq)
unfolding allocate
allocate_id r = ground arith

-- What a set-up leaves behind: nothing, where the reply is an error; else a route to the next node
-- in turn, for an id that is alive, and all other tasks as they were.
abbrev pub SetUp : MessageType → Bytes → Bytes → Manager → Manager → Type 0
SetUp error_type id other before after = SameTask other after before
SetUp _ id other before after =
    (find other after.route ≡ (
      if bytes_eq id other
      then some (before.next_node % before.node_count)
      else find other before.route))
    × (is_alive other after.registry
        ≡ (if bytes_eq id other then true else is_alive other before.registry))
    × (after.next_node ≡ (before.next_node + 1) % 2 ^ 64)

new_alive :
    (id other : Bytes) (m : Manager)
    → id ≡ (allocate m.registry).1
    → id ≢ []
    → is_alive other (allocate m.registry).0
      ≡ (if bytes_eq id other then true else is_alive other m.registry)
new_alive id other m e h = simp e (allocate_alive m.registry other (λ z. h (e ∙ z)))

forgotten :
    (id other : Bytes) (m : Manager)
    → is_alive other (forget id m).registry
      ≡ (if bytes_eq id other then false else is_alive other m.registry)
unfolding forget is_alive release
forgotten id other m = contains-erase id other m.registry.alive

forget_alive :
    (id other : Bytes) (m : Manager)
    → id ≡ (allocate m.registry).1
    → id ≢ []
    → is_alive id m.registry ≡ false
    → is_alive other (forget id (add_route id m)).registry ≡ is_alive other m.registry
forget_alive id other m e h new =
    ground
      (arith, forgotten id other (add_route id m), new_alive id other m e h, bytes_eq_iff id other)

-- A new id that is taken back leaves no trace.
forget-add_route :
    (id other : Bytes) (m : Manager)
    → id ≡ (allocate m.registry).1
    → id ≢ []
    → IsValid m
    → is_alive id m.registry ≡ false
    → SameTask other (forget id (add_route id m)) m
unfolding forget is_alive contains
forget-add_route id other m e h v new = record {
  route = ground (
    arith,
    find-erase id other (add_route id m).route,
    find-assign id other (m.next_node % m.node_count) m.route,
    v.agrees id,
    bytes_eq_iff id other,
  );
  alive = forget_alive id other m e h new;
}

after_setup_lem :
    (t : MessageType) (id other : Bytes) (m : Manager)
    → id ≡ (allocate m.registry).1
    → id ≢ []
    → IsValid m
    → is_alive id m.registry ≡ false
    → SetUp t id other m (after_setup t id (add_route id m))
unfolding after_setup
after_setup_lem error_type id other m e h v new = forget-add_route id other m e h v new
after_setup_lem _ id other m e h v new =
    (find-assign id other (m.next_node % m.node_count) m.route, new_alive id other m e h, refl)

module _ (j : Json) (call : NodeCall) where
  routed-Settled :
      (o : Option ℕ) (request : Envelope j.Value) (other : Bytes) (m : Manager)
      → let out = routed j call o request m in
        Settled request.type out.1.type request.work_id other m out.0
  unfolding routed
  routed-Settled none request other m = error-Settled request.type request.work_id other m
  routed-Settled (some node) request other m =
      after_action-Settled request.type _ request.work_id other m

  action-Settled :
      (t : MessageType) (request : Envelope j.Value) (other : Bytes) (m : Manager)
      → request.type ≡ t
      → let out = handle_action j call request m in
        Settled t out.1.type request.work_id other m out.0
  unfolding handle_action
  action-Settled t request other m e =
      let out = routed j call (find request.work_id m.route) request m in
      subst (λ u. Settled u out.1.type request.work_id other m out.0) e
        (routed-Settled _ request other m)

  switch-Settled :
      (t : MessageType) (request : Envelope j.Value) (other : Bytes) (m : Manager)
      → request.type ≡ t
      → t ≢ setup_type
      → let out = switch j call t request m in Settled t out.1.type request.work_id other m out.0
  unfolding switch refused ends
  switch-Settled setup_type request other m e h = absurd (h refl)
  switch-Settled inference_type request other m e h =
      action-Settled inference_type request other m e
  switch-Settled cancel_type request other m e h = action-Settled cancel_type request other m e
  switch-Settled task_info_type request other m e h =
      action-Settled task_info_type request other m e
  switch-Settled exit_type request other m e h = action-Settled exit_type request other m e
  switch-Settled _ request other m e h = refl

  -- A request that sets up no task changes nothing, unless it is an `exit` that is acknowledged:
  -- then the task has no route and its id is not alive, and each other task is as it was.
  pub handle-Settled :
      (request : Envelope j.Value) (other : Bytes) (m : Manager)
      → request.type ≢ setup_type
      → let out = handle j call request m in
        Settled request.type out.1.type request.work_id other m out.0
  unfolding handle
  handle-Settled request other m h = switch-Settled request.type request other m refl h

  allocated_setup :
      (id other : Bytes) (request : Envelope j.Value) (m : Manager)
      → id ≡ (allocate m.registry).1
      → IsValid m
      → is_alive id m.registry ≡ false
      → let out = allocated j call id request (record m { registry = (allocate m.registry).0 }) in
        SetUp out.1.type id other m out.0
  unfolding allocated
  allocated_setup [] other request m e v new =
      rw (allocate_same m.registry (sym e)) (record { route = refl; alive = refl })
  allocated_setup (b ∷ bs) other request m e v new =
      after_setup_lem _ (b ∷ bs) other m e (λ h. ground arith) v new

  -- A request to set up a task, where the next id of the registry is not alive: if the reply is an
  -- error, all routes and ids are as they were; else the id has a route to the next node in turn
  -- and is alive, all other tasks are as they were, and the turn has moved on.
  pub handle_setup_lem :
      (request : Envelope j.Value) (other : Bytes) (m : Manager)
      → IsValid m
      → request.type ≡ setup_type
      → is_alive (work_id m.registry.next_seq) m.registry ≡ false
      → let out = handle j call request m in
        SetUp out.1.type (work_id m.registry.next_seq) other m out.0
  unfolding handle switch handle_setup allocated
  handle_setup_lem request other m v e new = rw e (elim (allocate_id m.registry) [
    | inl full ↦ rw (full, allocate_same m.registry full) (record { route = refl; alive = refl })
    | inr next ↦ rw next (
        allocated_setup (work_id m.registry.next_seq) other (record request { type = setup_type }) m
          (sym next) v new)
  ])
