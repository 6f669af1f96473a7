-- ===== src/TaskChannel.antt =====
-- One task's channel: libs/runtime/include/voxorchestra/runtime/task_channel.hpp and
-- libs/runtime/src/task_channel.cpp, over the backend interface of ibackend.hpp.
-- A method body runs under the mutex, but `inference` gives it away while the backend runs: it is
-- two bodies, `begin` and `finish`, and what other threads call in between is a list.
pub mod Flight
pub mod Lifecycle
mod Tests
use vox_orchestra.Prelude.{
  ℕ, ◌+◌, ◌%◌, ◌^◌, Bool, true, false, Option, none, some, List, [], ◌∷◌, if◌then◌else◌, Bytes,
  codes,
}
use vox_orchestra.Prelude.Int.{ℤ, is_positive, pos_part}

pub data State : Type 0 where
  fresh ready busy terminated : State

pub data Error : Type 0 where
  ok not_exist bad_state busy_error timeout cancelled capacity : Error

pub data Code : Type 0 where
  done timed_out stopped : Code

pub record BackendResult : Type 0 where
  pub code : Code
  pub text : Bytes

-- `IBackend::infer` by its payload, its deadline, and whether the cancel flag was set before it
-- returned. Its events are the caller's. A backend that throws is not modelled.
abbrev pub Backend : Type 0
Backend = Bytes → ℕ → Bool → BackendResult

pub record Channel : Type 0 where
  pub work_id : Bytes
  pub state : State
  pub in_flight : Bytes
  pub setup_payload : Bytes
  pub inference_count : ℕ
  pub cancel_flag : Bool

unfoldable pub new : Bytes → Channel
new id = record {
  work_id = id;
  state = fresh;
  in_flight = [];
  setup_payload = [];
  inference_count = 0;
  cancel_flag = false;
}

set_up : State → Bytes → Channel → Channel × Error
set_up terminated payload c = (c, not_exist)
set_up fresh payload c = (record c { state = ready; setup_payload = payload }, ok)
set_up _ payload c = (c, bad_state)

unfoldable pub setup : Bytes → Channel → Channel × Error
unfolding set_up
setup payload c = set_up c.state payload c

begin_in : State → Bytes → Channel → Channel × Error
begin_in terminated request c = (c, not_exist)
begin_in fresh request c = (c, bad_state)
begin_in busy request c = (c, busy_error)
begin_in ready request c = (record c { state = busy; in_flight = request; cancel_flag = false }, ok)

-- `inference` up to the call of the backend; `ok` means that it is made.
unfoldable pub begin : Bytes → Channel → Channel × Error
unfolding begin_in
begin request c = begin_in c.state request c

release_in : State → Channel → Channel
release_in terminated c = c
release_in _ c = record c { state = ready; in_flight = [] }

abbrev pub error_of : Code → Error
error_of done = ok
error_of stopped = cancelled
error_of timed_out = timeout

abbrev pub text_of : BackendResult → Option Bytes
text_of r = elim r.code [ done ↦ some r.text | _ ↦ none ]

-- `inference` after the call of the backend: the channel, the error, and what is written to
-- `*out_text`.
unfoldable pub finish : BackendResult → Channel → Channel × Error × Option Bytes
unfolding release_in
finish r c =
    let c' = record c { inference_count = (c.inference_count + 1) % 2 ^ 64 } in
    (release_in c'.state c', error_of r.code, text_of r)

cancel_in : State → Channel → Channel × Error
cancel_in terminated c = (c, not_exist)
cancel_in busy c = (record c { cancel_flag = true }, ok)
cancel_in _ c = (c, ok)

unfoldable pub cancel : Channel → Channel × Error
unfolding cancel_in
cancel c = cancel_in c.state c

exit_in : State → Channel → Channel × Error
exit_in terminated c = (c, not_exist)
exit_in busy c = (record c { cancel_flag = true; state = terminated }, ok)
exit_in _ c = (record c { state = terminated }, ok)

unfoldable pub exit : Channel → Channel × Error
unfolding exit_in
exit c = exit_in c.state c

-- What another thread may call; its `inference` counts up to the backend's call.
pub data Call : Type 0 where
  setups begins : Bytes → Call
  cancels exits : Call

unfoldable pub answer : Call → Channel → Channel × Error
unfolding setup begin cancel exit
answer (setups p) c = setup p c
answer (begins r) c = begin r c
answer cancels c = cancel c
answer exits c = exit c

unfoldable pub run : List Call → Channel → Channel
unfolding answer
run [] c = c
run (x ∷ xs) c = run xs (answer x c).0

abbrev pub default_timeout : ℕ
default_timeout = 5000

-- In milliseconds from some start, like `now`.
unfoldable pub deadline_of : ℕ → ℤ → ℕ
deadline_of now limit = now + (if is_positive limit then pos_part limit else default_timeout)

after_begin : Error → Backend → Bytes → ℕ → List Call → Channel → Channel × Error × Option Bytes
unfolding finish run
after_begin ok infer payload deadline others c =
    let c' = run others c in finish (infer payload deadline c'.cancel_flag) c'
after_begin e infer payload deadline others c = (c, e, none)

unfoldable pub inference :
    Backend → Bytes → Bytes → ℕ → ℤ → List Call → Channel → Channel × Error × Option Bytes
unfolding begin after_begin deadline_of
inference infer request payload now limit others c =
    let begun = begin request c in
    after_begin begun.1 infer payload (deadline_of now limit) others begun.0

unfoldable pub state_name : State → Bytes
state_name fresh = codes "new"
state_name ready = codes "ready"
state_name busy = codes "busy"
state_name terminated = codes "terminated"

unfoldable pub error_name : Error → Bytes
error_name ok = codes "ok"
error_name not_exist = codes "not_exist"
error_name bad_state = codes "bad_state"
error_name busy_error = codes "busy"
error_name timeout = codes "timeout"
error_name cancelled = codes "cancelled"
error_name capacity = codes "capacity"
