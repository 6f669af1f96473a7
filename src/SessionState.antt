-- ===== src/SessionState.antt =====
-- The session's state machine: libs/session/include/voxorchestra/session/session_state_machine.hpp
-- and libs/session/src/session_state_machine.cpp. A method body runs under the mutex.
pub mod Table
pub mod Trace
mod Tests
use vox_orchestra.Prelude.{Bool, true, false, Option, none, some, List, [], ◌∷◌, ◌++◌, Bytes, codes}

pub data State : Type 0 where
  idle listening routing thinking speaking cancelling : State

pub data Event : Type 0 where
  audio_start asr_final route_l0_l1 route_l2_l3 llm_done tts_done cancel cancel_complete : Event

unfoldable pub state_to_string : State → Bytes
state_to_string idle = codes "idle"
state_to_string listening = codes "listening"
state_to_string routing = codes "routing"
state_to_string thinking = codes "thinking"
state_to_string speaking = codes "speaking"
state_to_string cancelling = codes "cancelling"

unfoldable pub event_to_string : Event → Bytes
event_to_string audio_start = codes "audio_start"
event_to_string asr_final = codes "asr_final"
event_to_string route_l0_l1 = codes "route_l0_l1"
event_to_string route_l2_l3 = codes "route_l2_l3"
event_to_string llm_done = codes "llm_done"
event_to_string tts_done = codes "tts_done"
event_to_string cancel = codes "cancel"
event_to_string cancel_complete = codes "cancel_complete"

pub record Machine : Type 0 where
  pub state : State
  pub trace : List Bytes

unfoldable pub new : Machine
new = record { state = idle; trace = [] }

-- What the `switch` decides.
pub data Outcome : Type 0 where
  go : State → Outcome
  stay refuse : Outcome

pub next : State → Event → Outcome
next idle audio_start = go listening
next idle cancel = stay
next listening asr_final = go routing
next listening cancel = go cancelling
next routing route_l0_l1 = go speaking
next routing route_l2_l3 = go thinking
next routing cancel = go cancelling
next thinking llm_done = go speaking
next thinking cancel = go cancelling
next speaking tts_done = go idle
next speaking cancel = go cancelling
next cancelling cancel_complete = go idle
next _ _ = refuse

-- One line of the trace.
unfoldable pub label : State → Event → State → Bytes
unfolding state_to_string event_to_string
label s e t =
    state_to_string s ++ (codes "--" ++ (event_to_string e ++ (codes "-->" ++ state_to_string t)))

unfoldable pub dispatch : Event → Machine → Bool × Machine
unfolding next
dispatch e m = elim (next m.state e) [
  | go t ↦ (true, record { state = t; trace = m.trace ++ label m.state e t ∷ [] })
  | stay ↦ (true, m)
  | refuse ↦ (false, m)
]

unfoldable pub reset : Machine → Machine
reset m = record { state = idle; trace = [] }

unfoldable pub state_name : Machine → Bytes
unfolding state_to_string
state_name m = state_to_string m.state
