-- ===== src/TaskChannel/Lifecycle.antt =====
-- The states that a channel goes through, and its end.
use vox_orchestra.Prelude.{ℕ, ◌≡◌, ◌⊎◌, refl, none, List, [], ◌∷◌, Bytes, arith}
use vox_orchestra.Prelude.Int.{ℤ}
use vox_orchestra.TaskChannel.{
  State, fresh, ready, busy, terminated, Error, ok, not_exist, Backend, BackendResult, Channel,
  finish, exit, Call, setups, answer, run, inference,
}

-- The diagram at the top of task_channel.hpp.
abbrev pub Moves : State → State → Type 0
Moves fresh ready = Unit
Moves ready busy = Unit
Moves busy ready = Unit
Moves fresh terminated = Unit
Moves ready terminated = Unit
Moves busy terminated = Unit
Moves _ _ = ⊥

-- A refusal changes nothing, and a success keeps the state or moves it along the diagram.
abbrev pub Obeys : Channel → Channel × Error → Type 0
Obeys c r =
    (r.0 ≡ c) ⊎ ((r.1 ≡ ok) × Moves c.state r.0.state) ⊎ ((r.1 ≡ ok) × (r.0.state ≡ c.state))

-- Where the end of a request leaves a channel: ready, unless it was ended.
unfoldable pub settled : State → State
settled terminated = terminated
settled _ = ready

-- Each call that runs under the lock keeps the state or moves it along the diagram of the header,
-- and a call that is refused changes nothing; the end of a request leaves an ended channel ended,
-- and any other ready.
pub answer-Obeys :
    (x : Call) (r : BackendResult) (c : Channel)
    → Obeys c (answer x c) × ((finish r c).0.state ≡ settled c.state)
unfolding answer finish settled
answer-Obeys (setups p) r c = ground arith
answer-Obeys _ r c = ground arith

answer_terminated : (x : Call) (c : Channel) → c.state ≡ terminated → answer x c ≡ (c, not_exist)
unfolding answer
answer_terminated (setups p) c e = ground arith
answer_terminated _ c e = ground arith

pub run_terminated : (xs : List Call) (c : Channel) → c.state ≡ terminated → run xs c ≡ c
unfolding run
run_terminated [] c e = refl
run_terminated (x ∷ xs) c e = rw (answer_terminated x c e) (run_terminated xs c e)

exit-terminated : (c : Channel) → (exit c).0.state ≡ terminated
unfolding exit
exit-terminated c = ground arith

-- After an `exit`, whatever is called, every call and every inference answers `not_exist`, and the
-- channel stays as `exit` left it.
pub exit_is_final :
    (xs : List Call) (x : Call) (infer : Backend) (request payload : Bytes) (now : ℕ) (limit : ℤ)
    (c : Channel)
    → let c' = run xs (exit c).0 in
      (c' ≡ (exit c).0)
      × (answer x c' ≡ (c', not_exist))
      × (inference infer request payload now limit [] c' ≡ (c', not_exist, none))
exit_is_final xs x infer request payload now limit c =
    let ended = exit-terminated c in
    rw (run_terminated xs (exit c).0 ended)
      (refl, answer_terminated x (exit c).0 ended, unfold inference in ground arith)
