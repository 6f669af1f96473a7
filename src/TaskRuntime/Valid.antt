-- ===== src/TaskRuntime/Valid.antt =====
-- The table and the store agree, through every call.
use vox_orchestra.Prelude.{
  ℕ, ◌≡◌, ◌≢◌, ◌⊎◌, inl, inr, refl, sym, subst, ◌∙◌, Option, none, some, List, [], ◌∷◌, ◌++◌, ◌==◌,
  leb, if◌then◌else◌, length, get_elem?, set, get_elem?-set, get_elem?-append,
  lt-length_of_get_elem?, Bytes, bytes_eq, bytes_eq_iff, arith, find, contains, erase, find-emplace,
  find-erase, emplace_taken, Bool-cases, Option-cases,
}
use vox_orchestra.Prelude.Int.{ℤ}
use vox_orchestra.TaskRegistry
use vox_orchestra.TaskChannel.{
  Channel, State, ready, busy, terminated, Error, ok, not_exist, Backend, BackendResult,
}
use vox_orchestra.TaskChannel
use vox_orchestra.TaskRuntime.{
  allocated, begin_at, Runtime, new, add_channel, at_address, on_channel, find_locked, setup,
  setup_with, cancel, exit, begin, finish, inference, after_begin, Call, setups, setups_with,
  begins, cancels, exits, answer, run,
}

-- A channel that the table holds is set up and not ended.
abbrev pub IsLive : State → Type 0
IsLive s = (s ≡ ready) ⊎ (s ≡ busy)

-- The store has, at the address `a`, the live channel of the id.
pub record HasChannel (store : List Channel) (id : Bytes) (a : ℕ) : Type 0 where
  pub channel : Channel
  pub there : get_elem? store a ≡ some channel
  pub named : channel.work_id ≡ id
  pub live : IsLive channel.state

-- Each id of the table has its own live channel in the store.
abbrev pub IsValid : Runtime → Type 0
IsValid r = (id : Bytes) (a : ℕ) → find id r.channels ≡ some a → HasChannel r.store id a

pub new-IsValid : (n : ℕ) → IsValid (new n)
unfolding new find
new-IsValid n id a h = cc

-- Another channel at an address, with the same id, and live if the first was.
update-HasChannel :
    (store : List Channel) (a b : ℕ) (c d : Channel) (id : Bytes)
    → get_elem? store a ≡ some c
    → d.work_id ≡ c.work_id
    → (IsLive c.state → IsLive d.state)
    → HasChannel store id b
    → HasChannel (set store a d) id b
update-HasChannel store a b c d id e w l h = elim (Bool-cases (a == b)) [
  | inl same ↦ record {
    channel = d;
    there = get_elem?-set store a b d (lt-length_of_get_elem? store a e) ∙ rw same;
    named = ground arith;
    live = l (ground arith);
  }
  | inr apart ↦ record {
    channel = h.channel;
    there = get_elem?-set store a b d (lt-length_of_get_elem? store a e) ∙ rw apart h.there;
    named = h.named;
    live = h.live;
  }
]

append-HasChannel :
    (store : List Channel) (a : ℕ) (c : Channel) (id : Bytes)
    → HasChannel store id a
    → HasChannel (store ++ c ∷ []) id a
append-HasChannel store a c id h = record {
  channel = h.channel;
  there =
      get_elem?-append store c a ∙ ground (arith, lt-length_of_get_elem? store a h.there, h.there);
  named = h.named;
  live = h.live;
}

last-HasChannel :
    (store : List Channel) (c : Channel)
    → IsLive c.state
    → HasChannel (store ++ c ∷ []) c.work_id (length store)
last-HasChannel store c l = record {
  channel = c;
  there = get_elem?-append store c (length store) ∙ ground arith;
  named = refl;
  live = l;
}

-- A method that keeps the id, and keeps a live channel live.
abbrev Keeps : (Channel → Channel) → Type 0
Keeps f = (c : Channel) → ((f c).work_id ≡ c.work_id) × (IsLive c.state → IsLive (f c).state)

at_address-IsValid :
    (m : Channel → Channel × Error) (a : ℕ) (r : Runtime)
    → Keeps (λ c. (m c).0)
    → IsValid r
    → IsValid (at_address m a r).0
unfolding at_address
at_address-IsValid m a r k v = elim (Option-cases (get_elem? r.store a)) [
  | inl e ↦ rw (e, at_address) v
  | inr (c, e) ↦
      rw (e, at_address)
        (λ id b h. update-HasChannel r.store a b c (m c).0 id e (k c).0 (k c).1 (v id b h))
]

on_channel-IsValid :
    (m : Channel → Channel × Error) (o : Option ℕ) (r : Runtime)
    → Keeps (λ c. (m c).0)
    → IsValid r
    → IsValid (on_channel m o r).0
unfolding on_channel
on_channel-IsValid m none r k v = v
on_channel-IsValid m (some a) r k v = at_address-IsValid m a r k v

-- The table after an insertion under a new id.
inserted-HasChannel :
    (id : Bytes) (c : Channel) (r : Runtime) (j : Bytes) (b : ℕ)
    → c.work_id ≡ id
    → IsLive c.state
    → IsValid r
    → (if bytes_eq id j then some (length r.store) else find j r.channels) ≡ some b
    → HasChannel (r.store ++ c ∷ []) j b
inserted-HasChannel id c r j b w l v h = elim (Bool-cases (bytes_eq id j)) [
  | inl same ↦
      subst (λ k. HasChannel (r.store ++ c ∷ []) k b) (w ∙ (bytes_eq_iff id j).0 same)
        (subst (HasChannel (r.store ++ c ∷ []) c.work_id) (ground arith)
          (last-HasChannel r.store c l))
  | inr apart ↦ append-HasChannel r.store b c j (v j b (rw apart at h))
]

add_channel-IsValid :
    (id : Bytes) (c : Channel) (r : Runtime)
    → c.work_id ≡ id
    → IsLive c.state
    → IsValid r
    → IsValid (add_channel id c r)
add_channel-IsValid id c r w l v = elim (Option-cases (find id r.channels)) [
  | inl e ↦ λ j b h.
      inserted-HasChannel id c r j b w l v
        (sym (find-emplace id j (length r.store) r.channels e) ∙ h)
  | inr (a, e) ↦
      rw (emplace_taken id (length r.store) r.channels e)
        (λ j b h. append-HasChannel r.store b c j (v j b h))
]

-- Elsewhere than at the address that was written.
other-HasChannel :
    (store : List Channel) (a b : ℕ) (c d : Channel) (id : Bytes)
    → get_elem? store a ≡ some c
    → c.work_id ≢ id
    → HasChannel store id b
    → HasChannel (set store a d) id b
other-HasChannel store a b c d id e ne h = elim (Bool-cases (a == b)) [
  | inl same ↦ absurd (ne (ground arith))
  | inr apart ↦ record {
    channel = h.channel;
    there = get_elem?-set store a b d (lt-length_of_get_elem? store a e) ∙ rw apart h.there;
    named = h.named;
    live = h.live;
  }
]

-- `exit` of a live channel.
pub exit_live :
    (id : Bytes) (a : ℕ) (c : Channel) (r : Runtime)
    → find id r.channels ≡ some a
    → get_elem? r.store a ≡ some c
    → IsLive c.state
    → exit id r ≡ (
      record r {
        channels = erase id r.channels;
        registry = (TaskRegistry.release id r.registry).0;
        store = set r.store a (TaskChannel.exit c).0;
      },
      ok,
    )
unfolding exit TaskChannel.exit
exit_live id a c r f g l = ground arith

pub exit_missing :
    (id : Bytes) (r : Runtime) → find id r.channels ≡ none → exit id r ≡ (r, not_exist)
unfolding exit
exit_missing id r f = ground arith

found-erase :
    (id j : Bytes) (b : ℕ) (r : Runtime)
    → find j (erase id r.channels) ≡ some b
    → (id ≢ j) × (find j r.channels ≡ some b)
found-erase id j b r f = ground (arith, find-erase id j r.channels, bytes_eq_iff id j)

exit-IsValid : (id : Bytes) (r : Runtime) → IsValid r → IsValid (exit id r).0
exit-IsValid id r v = elim (Option-cases (find id r.channels)) [
  | inl e ↦ rw (exit_missing id r e) v
  | inr (a, e) ↦
      let h = v id a e in
      rw (exit_live id a h.channel r e h.there h.live) (λ j b f.
        let left = found-erase id j b r f in
        other-HasChannel r.store a b h.channel _ j h.there (λ same. left.0 (sym h.named ∙ same))
          (v j b left.1))
]

allocated-IsValid :
    (id payload : Bytes) (r : Runtime) → IsValid r → IsValid (allocated id payload r).0
unfolding allocated TaskChannel.setup TaskChannel.new
allocated-IsValid [] payload r v = v
allocated-IsValid (b ∷ bs) payload r v = add_channel-IsValid (b ∷ bs) _ r refl (inl refl) v

setup-IsValid : (payload : Bytes) (r : Runtime) → IsValid r → IsValid (setup payload r).0
unfolding setup
setup-IsValid payload r v =
    let made = TaskRegistry.allocate r.registry in
    allocated-IsValid made.1 payload (record r { registry = made.0 }) v

setup_with-IsValid :
    (id payload : Bytes) (r : Runtime) → IsValid r → IsValid (setup_with id payload r).0
unfolding setup_with
setup_with-IsValid id payload r v = elim (Bool-cases (contains id r.channels)) [
  | inl e ↦ rw e v
  | inr e ↦ rw e (elim (Bool-cases (leb (TaskRegistry.capacity r.registry) (length r.channels))) [
    | inl full ↦ rw full v
    | inr room ↦ rw room (add_channel-IsValid id _ r refl (inl refl) v)
  ])
]

begin-Keeps : (request : Bytes) → Keeps (λ c. (TaskChannel.begin request c).0)
unfolding TaskChannel.begin
begin-Keeps request c = ground arith

cancel-Keeps : Keeps (λ c. (TaskChannel.cancel c).0)
unfolding TaskChannel.cancel
cancel-Keeps c = ground arith

finish-Keeps : (result : Channel → BackendResult) → Keeps (λ c. (TaskChannel.finish (result c) c).0)
unfolding TaskChannel.finish
finish-Keeps result c = ground arith

begin_at-IsValid :
    (request : Bytes) (o : Option ℕ) (r : Runtime) → IsValid r → IsValid (begin_at request o r).0
unfolding begin_at
begin_at-IsValid request none r v = v
begin_at-IsValid request (some a) r v =
    at_address-IsValid (TaskChannel.begin request) a r (begin-Keeps request) v

-- The end of an inference keeps the table valid, also where its task has been taken out meanwhile.
pub finish-IsValid :
    (a : ℕ) (result : Channel → BackendResult) (r : Runtime)
    → IsValid r
    → IsValid (finish a result r).0
unfolding finish
finish-IsValid a result r v = elim (Option-cases (get_elem? r.store a)) [
  | inl e ↦ rw (e, finish) v
  | inr (c, e) ↦
      let k = finish-Keeps result c in
      rw (e, finish) (λ id b h. update-HasChannel r.store a b c _ id e k.0 k.1 (v id b h))
]

pub answer-IsValid : (x : Call) (r : Runtime) → IsValid r → IsValid (answer x r).0
unfolding answer
answer-IsValid (setups p) r v = setup-IsValid p r v
answer-IsValid (setups_with id p) r v = setup_with-IsValid id p r v
answer-IsValid (begins id request) r v =
    unfold begin in begin_at-IsValid request (find_locked id r) r v
answer-IsValid (cancels id) r v =
    unfold cancel in on_channel-IsValid TaskChannel.cancel (find_locked id r) r cancel-Keeps v
answer-IsValid (exits id) r v = exit-IsValid id r v

pub run-IsValid : (xs : List Call) (r : Runtime) → IsValid r → IsValid (run xs r)
unfolding run
run-IsValid [] r v = v
run-IsValid (x ∷ xs) r v = run-IsValid xs _ (answer-IsValid x r v)

after_begin-IsValid :
    (e : Error) (make : ℕ → Backend) (payload : Bytes) (deadline : ℕ) (others : List Call) (a : ℕ)
    (r : Runtime)
    → IsValid r
    → IsValid (after_begin e make payload deadline others a r).0
unfolding after_begin
after_begin-IsValid ok make payload deadline others a r v =
    finish-IsValid a _ _ (run-IsValid others r v)
after_begin-IsValid _ make payload deadline others a r v = v

-- An inference, with any calls of other threads while its backend runs, keeps each id of the table
-- with a live channel of its own.
pub inference-IsValid :
    (make : ℕ → Backend) (id request payload : Bytes) (now : ℕ) (limit : ℤ) (others : List Call)
    (r : Runtime)
    → IsValid r
    → IsValid (inference make id request payload now limit others r).0
unfolding inference begin
inference-IsValid make id request payload now limit others r v =
    after_begin-IsValid _ make payload _ others _ _
      (begin_at-IsValid request (find_locked id r) r v)
