-- ===== src/UnitManager/Routes.antt =====
-- The routes and the registry of the manager agree, whatever the nodes answer.
use vox_orchestra.Prelude.{
  ℕ, ◌+◌, ◌%◌, ◌^◌, ◌<◌, ◌≡◌, ◌≢◌, refl, true, Option, none, some, [], ◌∷◌, if◌then◌else◌, Bytes,
  bytes_eq, find, contains, assign, find-erase, find-assign, contains-emplace, arith,
}
use vox_orchestra.Protocol.{
  Json, Envelope, MessageType, setup_type, inference_type, cancel_type, task_info_type, exit_type,
  ack_type, error_type,
}
use vox_orchestra.TaskRegistry.{Registry, work_id, is_alive, allocate, release}
use vox_orchestra.TaskRegistry.Capacity
use vox_orchestra.TaskRegistry
use vox_orchestra.UnitManager.{
  Manager, new, NodeCall, forget, after_setup, after_action, allocated, handle_setup, routed,
  handle_action, refused, switch, handle,
}

pub record IsValid (m : Manager) : Type 0 where
  pub registry : Capacity.IsValid m.registry
  -- A task has a route just where its id is alive.
  pub agrees : (id : Bytes) → contains id m.route ≡ is_alive id m.registry
  pub within : (id : Bytes) (node : ℕ) → find id m.route ≡ some node → node < m.node_count
  pub nodes : 0 < m.node_count

pub new-IsValid : (nodes max_tasks : ℕ) → 0 < nodes → IsValid (new nodes max_tasks)
unfolding new is_alive contains find TaskRegistry.new
new-IsValid nodes max_tasks h = record {
  registry = Capacity.new-IsValid max_tasks;
  agrees = λ id. refl;
  within = λ id node e. cc;
  nodes = h;
}

forget-IsValid : (id : Bytes) (m : Manager) → IsValid m → IsValid (forget id m)
unfolding forget contains
forget-IsValid id m v = record {
  registry = Capacity.release-IsValid id m.registry v.registry;
  agrees = λ other. ground (
    arith,
    Capacity.release_lem id other m.registry v.registry,
    v.agrees other,
    find-erase id other m.route,
  );
  within = λ other node e. ground (arith, v.within other node, find-erase id other m.route);
  nodes = v.nodes;
}

after_setup-IsValid :
    (t : MessageType) (id : Bytes) (m : Manager) → IsValid m → IsValid (after_setup t id m)
unfolding after_setup
after_setup-IsValid error_type id m v = forget-IsValid id m v
after_setup-IsValid _ id m v = v

after_action-IsValid :
    (t r : MessageType) (id : Bytes) (m : Manager) → IsValid m → IsValid (after_action t r id m)
unfolding after_action
after_action-IsValid exit_type ack_type id m v = forget-IsValid id m v
after_action-IsValid _ _ id m v = v

-- A new id in both.
abbrev pub add_route : Bytes → Manager → Manager
add_route id m = record m {
  registry = (allocate m.registry).0;
  next_node = (m.next_node + 1) % 2 ^ 64;
  route = assign id (m.next_node % m.node_count) m.route;
}

pub allocate_alive :
    (r : Registry) (other : Bytes)
    → (allocate r).1 ≢ []
    → is_alive other (allocate r).0
      ≡ (if bytes_eq (allocate r).1 other then true else is_alive other r)
unfolding allocate is_alive
allocate_alive r other h = ground (arith, contains-emplace (work_id r.next_seq) other tt r.alive)

pub allocate_same : (r : Registry) → (allocate r).1 ≡ [] → (allocate r).0 ≡ r
unfolding allocate work_id
allocate_same r h = ground arith

add_route-IsValid :
    (m : Manager)
    → (allocate m.registry).1 ≢ []
    → IsValid m
    → IsValid (add_route (allocate m.registry).1 m)
unfolding contains
add_route-IsValid m h v = record {
  registry = Capacity.allocate-IsValid m.registry v.registry;
  agrees = λ other. ground (
    arith,
    allocate_alive m.registry other h,
    v.agrees other,
    find-assign (allocate m.registry).1 other (m.next_node % m.node_count) m.route,
  );
  within = λ other node e. ground (
    arith,
    v.within other node,
    v.nodes,
    find-assign (allocate m.registry).1 other (m.next_node % m.node_count) m.route,
  );
  nodes = v.nodes;
}

module _ (j : Json) (call : NodeCall) where
  allocated-IsValid :
      (id : Bytes) (request : Envelope j.Value) (m : Manager)
      → IsValid m
      → (id ≡ [] → (allocate m.registry).0 ≡ m.registry)
      → (id ≢ [] → IsValid (add_route id m))
      → IsValid (allocated j call id request (record m { registry = (allocate m.registry).0 })).0
  unfolding allocated
  allocated-IsValid [] request m v full h = rw (full refl) v
  allocated-IsValid (b ∷ bs) request m v full h =
      after_setup-IsValid _ (b ∷ bs) (add_route (b ∷ bs) m) (h (λ e. cc))

  handle_setup-IsValid :
      (request : Envelope j.Value) (m : Manager)
      → IsValid m
      → IsValid (handle_setup j call request m).0
  unfolding handle_setup
  handle_setup-IsValid request m v =
      allocated-IsValid (allocate m.registry).1 request m v (allocate_same m.registry)
        (λ h. add_route-IsValid m h v)

  routed-IsValid :
      (o : Option ℕ) (request : Envelope j.Value) (m : Manager)
      → IsValid m
      → IsValid (routed j call o request m).0
  unfolding routed
  routed-IsValid none request m v = v
  routed-IsValid (some node) request m v = after_action-IsValid _ _ request.work_id m v

  switch-IsValid :
      (t : MessageType) (request : Envelope j.Value) (m : Manager)
      → IsValid m
      → IsValid (switch j call t request m).0
  unfolding switch handle_action refused
  switch-IsValid setup_type request m v = handle_setup-IsValid request m v
  switch-IsValid inference_type request m v = routed-IsValid _ request m v
  switch-IsValid cancel_type request m v = routed-IsValid _ request m v
  switch-IsValid task_info_type request m v = routed-IsValid _ request m v
  switch-IsValid exit_type request m v = routed-IsValid _ request m v
  switch-IsValid _ request m v = v

  -- Whatever a node answers or fails with, a request keeps the manager valid: a task has a route
  -- just where its id is alive, each route leads to one of the nodes, and the registry is within
  -- its capacity.
  pub handle-IsValid :
      (request : Envelope j.Value) (m : Manager) → IsValid m → IsValid (handle j call request m).0
  unfolding handle
  handle-IsValid request m v = switch-IsValid request.type request m v
