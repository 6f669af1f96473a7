-- ===== src/TaskRuntime/Isolation.antt =====
-- A task is left alone by the calls that are about other tasks.
use vox_orchestra.Prelude.{
  ℕ, ◌<◌, ◌≡◌, ◌≢◌, inl, inr, sym, ap, subst, ◌∙◌, true, Option, some, List, [], ◌∷◌, leb, length,
  get_elem?, get_elem?-set, get_elem?-append, lt-length_of_get_elem?, Bytes, bytes_eq_iff, arith,
  find, contains, find-emplace, find-erase, emplace_taken, Bool-cases, Option-cases, All,
}
use vox_orchestra.TaskRegistry
use vox_orchestra.TaskRegistry.{work_id}
use vox_orchestra.TaskChannel.{
  Channel, State, ready, Error, ok, not_exist, capacity, Backend, BackendResult,
}
use vox_orchestra.TaskChannel
use vox_orchestra.TaskRuntime.{
  Runtime, at_address, on_channel, begin_at, allocated, find_locked, setup, setup_with, cancel,
  exit, begin, taskinfo, is_alive, Call, setups, setups_with, begins, cancels, exits, answer,
  add_channel, finish,
}
use vox_orchestra.TaskRuntime.Valid.{
  IsValid, HasChannel, exit_live, exit_missing, answer-IsValid, finish-IsValid,
}

-- The id that a call is about is another one; a `setup` is about an id that is not there yet.
abbrev pub IsAbout : Call → Bytes → Type 0
IsAbout (setups _) id = ⊥
IsAbout (setups_with j _) id = j ≡ id
IsAbout (begins j _) id = j ≡ id
IsAbout (cancels j) id = j ≡ id
IsAbout (exits j) id = j ≡ id

-- The table gives the id the address `b`, and the store has a channel of that name there.
record Keeps (id : Bytes) (b : ℕ) (c : Channel) (r : Runtime) : Type 0 where
  entry : find id r.channels ≡ some b
  there : get_elem? r.store b ≡ some c

taskinfo-Keeps :
    (id : Bytes) (b : ℕ) (c : Channel) (r : Runtime) → Keeps id b c r → taskinfo id r ≡ some c
unfolding taskinfo
taskinfo-Keeps id b c r k = ground arith

at_address-Keeps :
    (m : Channel → Channel × Error) (j id : Bytes) (a b : ℕ) (c : Channel) (r : Runtime)
    → HasChannel r.store j a
    → c.work_id ≡ id
    → j ≢ id
    → Keeps id b c r
    → Keeps id b c (at_address m a r).0
unfolding at_address
at_address-Keeps m j id a b c r h w ne k =
    rw (h.there, at_address)
      (record {
        entry = k.entry;
        there =
            get_elem?-set r.store a b _ (lt-length_of_get_elem? r.store a h.there)
            ∙ ground (arith, h.there, h.named, k.there);
      })

on_channel-Keeps :
    (m : Channel → Channel × Error) (j id : Bytes) (b : ℕ) (c : Channel) (r : Runtime)
    → IsValid r
    → c.work_id ≡ id
    → j ≢ id
    → Keeps id b c r
    → Keeps id b c (on_channel m (find j r.channels) r).0
unfolding on_channel
on_channel-Keeps m j id b c r v w ne k = elim (Option-cases (find j r.channels)) [
  | inl e ↦ rw (e, on_channel) k
  | inr (a, e) ↦ rw (e, on_channel) (at_address-Keeps m j id a b c r (v j a e) w ne k)
]

add_channel-Keeps :
    (j id : Bytes) (b : ℕ) (c d : Channel) (r : Runtime)
    → Keeps id b c r
    → Keeps id b c (add_channel j d r)
add_channel-Keeps j id b c d r k = record {
  entry = elim (Option-cases (find j r.channels)) [
    | inl e ↦
        find-emplace j id (length r.store) r.channels e ∙ ground (arith, k.entry, bytes_eq_iff j id)
    | inr (a, e) ↦ rw (emplace_taken j (length r.store) r.channels e) k.entry
  ];
  there =
      get_elem?-append r.store d b
      ∙ ground (arith, lt-length_of_get_elem? r.store b k.there, k.there);
}

exit-Keeps :
    (j id : Bytes) (b : ℕ) (c : Channel) (r : Runtime)
    → IsValid r
    → c.work_id ≡ id
    → j ≢ id
    → Keeps id b c r
    → Keeps id b c (exit j r).0
exit-Keeps j id b c r v w ne k = elim (Option-cases (find j r.channels)) [
  | inl e ↦ rw (exit_missing j r e) k
  | inr (a, e) ↦
      let h = v j a e in
      rw (exit_live j a h.channel r e h.there h.live) (record {
        entry = find-erase j id r.channels ∙ ground (arith, k.entry, bytes_eq_iff j id);
        there =
            get_elem?-set r.store a b _ (lt-length_of_get_elem? r.store a h.there)
            ∙ ground (arith, h.there, h.named, k.there);
      })
]

allocated-Keeps :
    (j payload id : Bytes) (b : ℕ) (c : Channel) (r : Runtime)
    → Keeps id b c r
    → Keeps id b c (allocated j payload r).0
unfolding allocated TaskChannel.setup TaskChannel.new
allocated-Keeps [] payload id b c r k = k
allocated-Keeps (x ∷ xs) payload id b c r k = add_channel-Keeps (x ∷ xs) id b c _ r k

setup_with-Keeps :
    (j payload id : Bytes) (b : ℕ) (c : Channel) (r : Runtime)
    → Keeps id b c r
    → Keeps id b c (setup_with j payload r).0
unfolding setup_with
setup_with-Keeps j payload id b c r k = elim (Bool-cases (contains j r.channels)) [
  | inl e ↦ rw e k
  | inr e ↦ rw e (elim (Bool-cases (leb (TaskRegistry.capacity r.registry) (length r.channels))) [
    | inl full ↦ rw full k
    | inr room ↦ rw room (add_channel-Keeps j id b c _ r k)
  ])
]

begin-Keeps :
    (j request id : Bytes) (b : ℕ) (c : Channel) (r : Runtime)
    → IsValid r
    → c.work_id ≡ id
    → j ≢ id
    → Keeps id b c r
    → Keeps id b c (begin j request r).0
unfolding begin begin_at
begin-Keeps j request id b c r v w ne k = elim (Option-cases (find j r.channels)) [
  | inl e ↦ rw (e, begin_at) k
  | inr (a, e) ↦
      rw (e, begin_at) (at_address-Keeps (TaskChannel.begin request) j id a b c r (v j a e) w ne k)
]

answer-Keeps :
    (x : Call) (id : Bytes) (b : ℕ) (c : Channel) (r : Runtime)
    → IsValid r
    → c.work_id ≡ id
    → ¬ IsAbout x id
    → Keeps id b c r
    → Keeps id b c (answer x r).0
unfolding answer
answer-Keeps (setups p) id b c r v w ne k =
    unfold setup in
    (let made = TaskRegistry.allocate r.registry in
      allocated-Keeps made.1 p id b c (record r { registry = made.0 })
        (record { entry = k.entry; there = k.there }))
answer-Keeps (setups_with j p) id b c r v w ne k = setup_with-Keeps j p id b c r k
answer-Keeps (begins j q) id b c r v w ne k = begin-Keeps j q id b c r v w ne k
answer-Keeps (cancels j) id b c r v w ne k =
    unfold cancel find_locked in on_channel-Keeps TaskChannel.cancel j id b c r v w ne k
answer-Keeps (exits j) id b c r v w ne k = exit-Keeps j id b c r v w ne k

finish-Keeps :
    (a : ℕ) (result : Channel → BackendResult) (id : Bytes) (b : ℕ) (c : Channel) (r : Runtime)
    → a ≢ b
    → Keeps id b c r
    → Keeps id b c (finish a result r).0
unfolding finish
finish-Keeps a result id b c r ne k = elim (Option-cases (get_elem? r.store a)) [
  | inl e ↦ rw (e, finish) k
  | inr (d, e) ↦
      rw (e, finish)
        (record {
          entry = k.entry;
          there =
              get_elem?-set r.store a b _ (lt-length_of_get_elem? r.store a e)
              ∙ ground (arith, k.there);
        })
]

-- What happens in the runtime: a call, or the end of the backend's call of an inference on the channel
-- at an address.
pub data Occurrence : Type 0 where
  calls : Call → Occurrence
  finishes : ℕ → (Channel → BackendResult) → Occurrence

unfoldable pub occur : Occurrence → Runtime → Runtime
unfolding answer finish
occur (calls x) r = (answer x r).0
occur (finishes a result) r = (finish a result r).0

unfoldable pub run_all : List Occurrence → Runtime → Runtime
unfolding occur
run_all [] r = r
run_all (x ∷ xs) r = run_all xs (occur x r)

-- The event is about the id, which the table has at the address `b`.
abbrev pub Concerns : Bytes → Option ℕ → Occurrence → Type 0
Concerns id b (calls x) = IsAbout x id
Concerns id b (finishes a _) = b ≡ some a

occur-IsValid : (x : Occurrence) (r : Runtime) → IsValid r → IsValid (occur x r)
unfolding occur
occur-IsValid (calls x) r v = answer-IsValid x r v
occur-IsValid (finishes a result) r v = finish-IsValid a result r v

occur-Keeps :
    (x : Occurrence) (id : Bytes) (b : ℕ) (c : Channel) (r : Runtime)
    → IsValid r
    → c.work_id ≡ id
    → ¬ Concerns id (some b) x
    → Keeps id b c r
    → Keeps id b c (occur x r)
unfolding occur
occur-Keeps (calls x) id b c r v w ne k = answer-Keeps x id b c r v w ne k
occur-Keeps (finishes a result) id b c r v w ne k =
    finish-Keeps a result id b c r (λ e. ne (ap some (sym e))) k

run_all-Keeps :
    (xs : List Occurrence) (id : Bytes) (b : ℕ) (c : Channel) (r : Runtime)
    → IsValid r
    → c.work_id ≡ id
    → All (λ x. ¬ Concerns id (some b) x) xs
    → Keeps id b c r
    → Keeps id b c (run_all xs r)
unfolding run_all
run_all-Keeps [] id b c r v w ne k = k
run_all-Keeps (x ∷ xs) id b c r v w ne k =
    run_all-Keeps xs id b c _ (occur-IsValid x r v) w ne.1 (occur-Keeps x id b c r v w ne.0 k)

-- A task of the table is left as it is by any calls of `setup_with`, `inference` (up to the backend),
-- `cancel` and `exit` with other ids, by the ends of inferences on other channels, and by any `setup`,
-- whatever id that hands out, in any order.
pub run_isolated :
    (xs : List Occurrence) (id : Bytes) (r : Runtime)
    → IsValid r
    → is_alive id r ≡ true
    → All (λ x. ¬ Concerns id (find id r.channels) x) xs
    → taskinfo id (run_all xs r) ≡ taskinfo id r
unfolding is_alive contains
run_isolated xs id r v h ne = elim (Option-cases (find id r.channels)) [
  | inl e ↦ absurd (cc e)
  | inr (b, e) ↦
      let c = v id b e in
      let k : Keeps id b c.channel r = record { entry = e; there = c.there } in
      let ne' = subst (λ o. All (λ x. ¬ Concerns id o x) xs) e ne in
      taskinfo-Keeps id b c.channel _ (run_all-Keeps xs id b c.channel r v c.named ne' k)
      ∙ sym (taskinfo-Keeps id b c.channel r k)
]

-- `setup` hands out the next id of the registry also where `setup_with` has put that id into the
-- table: it reports success, and the table still has the other task under that id.
pub setup_collides :
    (payload : Bytes) (r : Runtime)
    → IsValid r
    → length r.registry.alive < r.registry.max_tasks
    → is_alive (work_id r.registry.next_seq) r ≡ true
    → let id = work_id r.registry.next_seq in
      let out = setup payload r in (out.1 ≡ ok) × (out.2 ≡ id) × (taskinfo id out.0 ≡ taskinfo id r)
unfolding setup TaskRegistry.allocate TaskRegistry.work_id run_all
setup_collides payload r v room h = (
  ground arith,
  ground arith,
  run_isolated (calls (setups payload) ∷ []) (work_id r.registry.next_seq) r v h (λ e. e, tt),
)
