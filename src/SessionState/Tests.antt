-- ===== src/SessionState/Tests.antt =====
-- The state machine at concrete inputs.
use vox_orchestra.Prelude.{◌≡◌, ◌⊎◌, refl, false, List, [], ◌∷◌, codes}
use vox_orchestra.SessionState.{
  idle, speaking, audio_start, asr_final, route_l0_l1, llm_done, tts_done, cancel, cancel_complete,
  Machine, new, dispatch, reset, state_name,
}
use vox_orchestra.SessionState.Table.{Accepts, Refuses, dispatch-Legal, dispatch-cancel}
use vox_orchestra.SessionState.Trace.{Call, dispatches, resets, run}

abbrev direct_answer : List Call
direct_answer =
    resets
    ∷ dispatches audio_start
    ∷ dispatches asr_final
    ∷ dispatches route_l0_l1
    ∷ dispatches llm_done
    ∷ []

abbrev answering : Machine
answering = record { state = speaking; trace = [] }

speaks : state_name (run direct_answer new) ≡ codes "speaking"
unfolding state_name run dispatch reset new
speaks = refl

llm_done_refused : (dispatch llm_done answering).0 ≡ false
unfolding dispatch
llm_done_refused = refl

dispatch-Legal_example : Accepts tts_done answering ⊎ Refuses tts_done answering
dispatch-Legal_example = dispatch-Legal tts_done answering

dispatch-cancel_example : (dispatch cancel_complete (dispatch cancel answering).1).1.state ≡ idle
dispatch-cancel_example = dispatch-cancel answering
