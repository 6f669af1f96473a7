-- ===== src/SessionPipeline.antt =====
-- The session's pipeline: libs/session/include/voxorchestra/session/session_pipeline.hpp and
-- libs/session/src/session_pipeline.cpp, with the events of
-- backends/include/voxorchestra/backend/backend_event.hpp and the decision of
-- libs/rag/include/voxorchestra/rag/router.hpp. This file has the state and what all phases of a
-- run share; Listen, Answer, Speak and Run have the phases.
-- `cancel` may be called by any thread at any time, and time passes: what happens between two
-- statements of the code is a Moment, an argument of the phases.
pub mod Listen
pub mod Answer
pub mod Cut
pub mod Speak
pub mod Queues
pub mod Turns
pub mod Run
pub mod Keeps
pub mod Late
pub mod Frames
pub mod Invariants
pub mod Progress
pub mod Whole
pub mod Spoken
pub mod Moments
pub mod Flags
pub mod Verdict
pub mod Outcome
pub mod Overflow
mod Tests
use vox_orchestra.Prelude.{
  ℕ, ◌+◌, ◌%◌, ◌^◌, Bool, true, false, ◌&&◌, not, Option, List, [], ◌∷◌, leb, ◌==◌, Bytes, bytes_eq,
  codes,
}
use vox_orchestra.Prelude.Int.{ℤ, is_positive, pos_part}
use vox_orchestra.BoundedQueue.{Queue}
use vox_orchestra.SessionState.{Event, cancel, Machine, dispatch}

pub data Kind : Type 0 where
  k_partial k_final k_token k_pcm k_done : Kind

pub record BackendEvent : Type 0 where
  pub kind : Kind
  pub text : Bytes
  pub pcm : List ℕ

pub data RouteLevel : Type 0 where
  l0 l1 l2 l3 : RouteLevel

unfoldable pub level_to_string : RouteLevel → Bytes
level_to_string l0 = codes "l0"
level_to_string l1 = codes "l1"
level_to_string l2 = codes "l2"
level_to_string l3 = codes "l3"

-- The parts of a decision that the pipeline reads.
pub record Decision : Type 0 where
  pub level : RouteLevel
  pub answer : Bytes
  pub prompt : Bytes

-- Durations are milliseconds.
pub record PipelineConfig : Type 0 where
  pub text_queue_capacity : ℕ
  pub pcm_queue_capacity : ℕ
  pub queue_push_timeout : ℕ
  pub stage_delay : ℕ
  pub output_dir : Bytes
  pub tts_min_duration : ℕ

pub data Mode : Type 0 where
  k_text k_wav k_mic : Mode

pub record PipelineInput : Type 0 where
  pub mode : Mode
  pub text : Bytes
  pub wav_path : Bytes
  pub audio : List ℕ

pub record PipelineResult : Type 0 where
  pub ok : Bool
  pub cancelled : Bool
  pub error : Bytes
  pub route : Bytes
  pub asr_text : Bytes
  pub final_text : Bytes
  pub wav_path : Bytes
  pub llm_called : Bool
  pub decision : Option Decision
  pub token_count : ℕ
  pub pcm_frames : ℕ
  pub text_queue_peak : ℕ
  pub pcm_queue_peak : ℕ
  pub dropped_sentences : ℕ
  pub dropped_pcm_frames : ℕ
  pub generation : ℕ
  pub transitions : List Bytes

-- The members, with the machine, and the reading of the steady clock.
pub record Pipeline : Type 0 where
  pub running : Bool
  pub cancelled : Bool
  pub generation : ℕ
  pub active_generation : ℕ
  pub active_request_id : Bytes
  pub machine : Machine
  pub clock : ℕ

unfoldable pub send : Event → Pipeline → Pipeline
unfolding dispatch
send e p = record p { machine = (dispatch e p.machine).1 }

-- `cancel` in two pieces, which other threads may tear apart: the flags, then the event, behind the
-- calls of the back ends.
unfoldable pub raise : Pipeline → Pipeline
raise p = record p { generation = (p.generation + 1) % 2 ^ 64; cancelled = true }

unfoldable pub notify : Pipeline → Pipeline
unfolding send
notify p = send cancel p

unfoldable pub cancel_run : Pipeline → Pipeline
unfolding raise notify
cancel_run p = notify (raise p)

-- A piece of a call to `cancel` of another thread.
pub data Outside : Type 0 where
  raises notifies : Outside

pub record Moment : Type 0 where
  pub passes : ℕ
  pub others : List Outside

unfoldable pub sleep : ℕ → Pipeline → Pipeline
sleep n p = record p { clock = p.clock + n }

unfoldable pub meet : List Outside → Pipeline → Pipeline
unfolding raise notify
meet [] p = p
meet (raises ∷ os) p = meet os (raise p)
meet (notifies ∷ os) p = meet os (notify p)

unfoldable pub happen : Moment → Pipeline → Pipeline
unfolding sleep meet
happen m p = meet m.others (sleep m.passes p)

-- What one run fixes at its start: `my_gen`, the request, the start and the time limit.
pub record Job : Type 0 where
  pub my_gen : ℕ
  pub request_id : Bytes
  pub start_time : ℕ
  pub deadline : ℤ

unfoldable pub timed_out : Job → Pipeline → Bool
timed_out j p = is_positive j.deadline && leb (j.start_time + pos_part j.deadline) p.clock

unfoldable pub is_active : Job → Pipeline → Bool
is_active j p =
    not p.cancelled && j.my_gen == p.active_generation && bytes_eq j.request_id p.active_request_id

-- What a call of a back end does: the events it delivers, each at a moment, and the exception that
-- ends it, if one does.
pub record Reply : Type 0 where
  pub events : List (Moment × BackendEvent)
  pub thrown : Option Bytes

-- The statements that something may happen before.
pub data Point : Type 0 where
  at_audio_start at_asr_final at_route at_answer at_llm_done at_speak at_padding at_close at_verdict
        at_tts_done at_failure at_cancel_complete :
      Point
  at_frame : ℕ → Point

-- The driving thread, between two statements.
pub record Driving : Type 0 where
  pub pipeline : Pipeline
  pub result : PipelineResult
  pub query : Bytes
  pub text_queue : Queue Bytes

unfoldable pub is_empty : Bytes → Bool
is_empty [] = true
is_empty (c ∷ cs) = false

-- The test before each stage.
unfoldable pub may_go_on : Job → Driving → Bool
unfolding is_empty timed_out
may_go_on j d = is_empty d.result.error && not d.pipeline.cancelled && not (timed_out j d.pipeline)

unfoldable pub moved : (Pipeline → Pipeline) → Driving → Driving
moved f d = record d { pipeline = f d.pipeline }

unfoldable pub fails : Bytes → Driving → Driving
fails e d = record d { result = record d.result { error = e } }
