-- ===== src/SessionNode.antt =====
-- The session node: apps/session_node/session_node.cpp and apps/session_node/session_node.hpp, in
-- the build without ALSA. Sessions are shared: the table holds their addresses in a store, so that a
-- worker keeps its session when the table loses it. ZeroMQ's sockets, the construction of the remote
-- back ends and the JSON library are parameters; the log lines are left out.
-- A run of the pipeline goes on beside the handlers: it changes the session's pipeline step by step,
-- and what it has left when it ends is an argument, a function of the pipeline that it then finds.
-- `main` catches nothing, so an exception of the node ends the process: it is the value of the step.
pub mod Requests
pub mod Handled
pub mod Steps
pub mod Valid
pub mod Invariant
pub mod Accounts
pub mod Stuck
pub mod Microphone
pub mod Outcome
mod Tests
use vox_orchestra.Prelude.{
  ℕ, zero, suc, Bool, true, false, Option, none, some, List, [], ◌∷◌, ◌++◌, length, set, Bytes,
  bytes_eq, codes, if◌then◌else◌, Dict, contains, assign,
}
use vox_orchestra.Prelude.Int.{ℤ, pos}
use vox_orchestra.Prelude.Fallible.{Result}
use vox_orchestra.Protocol.{Json}
use vox_orchestra.SessionState as SessionState
use vox_orchestra.SessionPipeline.{Pipeline, PipelineInput, PipelineResult}
use vox_orchestra.SessionPipeline.Run.{no_result}

-- The parts that the code below reads, by the names of the members.
pub record Config : Type 0 where
  pub backend : Bytes
  pub fixture_dir : Bytes

-- What the node calls: the constructors of the remote back ends by the id of the task, each with the
-- `what()` of its exception, if any; and that of `value` on a JSON value that is no object.
pub record Setting (j : Json) : Type 0 where
  pub config : Config
  pub net_asr : Bytes → Option Bytes
  pub net_llm : Bytes → Option Bytes
  pub net_tts : Bytes → Option Bytes
  pub no_value : j.Value → Bytes

pub record Session : Type 0 where
  pub busy : Bool
  pub pipeline : Pipeline
  pub last_result : PipelineResult
  pub last_request_id : Bytes

-- A worker thread before its run ends; `session` is an address.
pub record Worker : Type 0 where
  pub identity : Bytes
  pub work_id : Bytes
  pub request_id : Bytes
  pub session : ℕ
  pub input : PipelineInput

-- The text for one client, in the pipe to the serving thread or sent by it.
pub record Message : Type 0 where
  pub identity : Bytes
  pub text : Bytes

pub record Node : Type 0 where
  pub sessions : Dict ℕ
  pub store : List Session
  pub workers : List Worker
  pub replies : List Message
  pub sent : List Message
  pub closed : Bool

unfoldable pub new : Node
new = record { sessions = []; store = []; workers = []; replies = []; sent = []; closed = false }

unfoldable pub new_pipeline : Pipeline
unfolding SessionState.new
new_pipeline = record {
  running = false;
  cancelled = false;
  generation = 0;
  active_generation = 0;
  active_request_id = [];
  machine = SessionState.new;
  clock = 0;
}

unfoldable pub new_session : Session
unfolding new_pipeline no_result
new_session = record {
  busy = false;
  pipeline = new_pipeline;
  last_result = no_result;
  last_request_id = [];
}

-- `sessions_[work_id] = s`, of a new session.
unfoldable pub add_session : Bytes → Node → Node
unfolding new_session
add_session id n = record n {
  sessions = assign id (length n.store) n.sessions;
  store = n.store ++ new_session ∷ [];
}

-- A write to the session at an address.
unfoldable pub put : ℕ → Session → Node → Node
put a s n = record n { store = set n.store a s }

unfoldable pub session_count : Node → ℕ
session_count n = length n.sessions

-- `MakeAsrBackend`, `MakeLlmBackend` and `MakeTtsBackend`: the exception, if one leaves it.
unfoldable pub make_backend : Config → (Bytes → Option Bytes) → Bytes → Option Bytes
unfolding bytes_eq
make_backend c net id = if bytes_eq c.backend (codes "net") then net id else none

-- The first of two calls that throws, if one does.
unfoldable pub first_thrown : Option Bytes → Option Bytes → Option Bytes
first_thrown (some what) rest = some what
first_thrown none rest = rest

unfoldable pub make_backends : {j : Json} → Setting j → Bytes → Option Bytes
unfolding make_backend first_thrown
make_backends s id =
    first_thrown (make_backend s.config s.net_asr id)
      (first_thrown (make_backend s.config s.net_llm id) (make_backend s.config s.net_tts id))

-- The fields that the replies with a result share.
unfoldable pub result_stats : (j : Json) → PipelineResult → List (Bytes × j.Value)
result_stats j r =
    (codes "route", j.of_string r.route)
    ∷ (codes "asr_text", j.of_string r.asr_text)
    ∷ (codes "final_text", j.of_string r.final_text)
    ∷ (codes "generation", j.of_int (pos r.generation))
    ∷ (codes "token_count", j.of_int (pos r.token_count))
    ∷ (codes "pcm_frames", j.of_int (pos r.pcm_frames))
    ∷ (codes "text_queue_peak", j.of_int (pos r.text_queue_peak))
    ∷ (codes "pcm_queue_peak", j.of_int (pos r.pcm_queue_peak))
    ∷ (codes "dropped_sentences", j.of_int (pos r.dropped_sentences))
    ∷ (codes "dropped_pcm_frames", j.of_int (pos r.dropped_pcm_frames))
    ∷ []
