-- ===== src/SessionNode/Steps.antt =====
-- The threads of the session node: apps/session_node/session_node.cpp, `run_inference`,
-- `serve_once` and `close`, and the steps in any order.
use vox_orchestra.Prelude.{
  ℕ, zero, suc, Bool, true, false, Option, none, some, List, [], ◌∷◌, ◌++◌, if◌then◌else◌,
  get_elem?, Bytes, codes,
}
use vox_orchestra.Prelude.Fallible.{Result, returns, throws, ◌>>=◌}
use vox_orchestra.Protocol.{Json, Envelope, default_envelope, ack_type, to_json}
use vox_orchestra.Protocol.Parse.{Thrown, protocol_error}
use vox_orchestra.SessionPipeline.{Pipeline, PipelineResult, cancel_run}
use vox_orchestra.SessionNode.{Setting, Session, Worker, Message, Node, put, result_stats}
use vox_orchestra.SessionNode.Requests.{handle_request}

-- What is left of a run of the pipeline.
abbrev pub Ending : Type 0
Ending = Pipeline → Pipeline × PipelineResult

unfoldable pub status_of : PipelineResult → Bytes
status_of r = if r.cancelled then codes "cancelled" else if r.ok then codes "ok" else codes "error"

-- The error stands in the reply only with its status.
unfoldable pub error_fields : (j : Json) → PipelineResult → List (Bytes × j.Value)
error_fields j r =
    if r.cancelled then [] else if r.ok then [] else (codes "error", j.of_string r.error) ∷ []

-- The write of the result, which frees the session.
unfoldable pub store_result : Worker → Session → Pipeline × PipelineResult → Node → Node
unfolding put
store_result k s (p, r) n =
    put k.session
      (record { busy = false; pipeline = p; last_result = r; last_request_id = k.request_id }) n

-- The `cancel` of every session of the table.
unfoldable pub cancel_all : List (Bytes × ℕ) → Node → Node
unfolding put cancel_run
cancel_all [] n = n
cancel_all ((id, a) ∷ m) n = cancel_all m (elim (get_elem? n.store a) [
  | none ↦ n
  | some s ↦ put a (record s { pipeline = cancel_run s.pipeline }) n
])

-- The worker's reply that waits longest goes to its client, where the poll has seen one.
unfoldable pub deliver : Bool → Node → Node
deliver false n = n
deliver true n = elim n.replies [
  | [] ↦ n
  | m ∷ ms ↦ record n { replies = ms; sent = n.sent ++ m ∷ [] }
]

unfoldable pub has_reply : Node → Bool
has_reply n = elim n.replies [ [] ↦ false | _ ∷ _ ↦ true ]

-- The worker at `i` ends.
unfoldable pub remove : ℕ → List Worker → List Worker
remove i [] = []
remove zero (k ∷ ks) = ks
remove (suc i) (k ∷ ks) = k ∷ remove i ks

-- The pipeline of a session moves on.
unfoldable pub advance : ℕ → (Pipeline → Pipeline) → Node → Node
unfolding put
advance a f n = elim (get_elem? n.store a) [
  | none ↦ n
  | some s ↦ put a (record s { pipeline = f s.pipeline }) n
]

module _ (j : Json) where
  unfoldable pub reply_of : Worker → PipelineResult → Envelope j.Value
  unfolding default_envelope result_stats status_of error_fields
  reply_of k r = record (default_envelope j) {
    type = ack_type;
    work_id = k.work_id;
    request_id = k.request_id;
    session_id = [];
    payload = j.object (
        result_stats j r
        ++ ((codes "wav_path", j.of_string r.wav_path) ∷ [])
        ++ error_fields j r
        ++ (codes "status", j.of_string (status_of r)) ∷ []);
    finish = true;
  }

  -- An exception that leaves the thread ends the process.
  unfoldable pub push_reply : Worker → PipelineResult → Node → Result Thrown Node
  unfolding reply_of to_json
  push_reply k r n = elim (to_json j (reply_of k r)) [
    | returns text ↦
        returns
          (record n { replies = n.replies ++ record { identity = k.identity; text = text } ∷ [] })
    | throws e ↦ throws (protocol_error e)
  ]

  unfoldable pub run_inference : Ending → Worker → Node → Result Thrown Node
  unfolding store_result push_reply
  run_inference ending k n = elim (get_elem? n.store k.session) [
    | none ↦ returns n
    | some s ↦ let out = ending s.pipeline in push_reply k out.1 (store_result k s out n)
  ]

  -- `close` joins the workers.
  unfoldable pub join : (Worker → Ending) → List Worker → Node → Result Thrown Node
  unfolding run_inference
  join endings [] n = returns n
  join endings (k ∷ ks) n = run_inference (endings k) k n >>= λ n'. join endings ks n'

  unfoldable pub close : (Worker → Ending) → Node → Result Thrown Node
  unfolding cancel_all join
  close endings n = if n.closed then returns n else (do
    n' ← join endings n.workers (cancel_all n.sessions (record n { closed = true }))
    returns (record n' { workers = []; replies = []; sessions = [] }))

module _ (j : Json) (w : Setting j) where
  unfoldable pub handle_if_any : Option Message → Node → Result Thrown Node
  unfolding handle_request
  handle_if_any none n = returns n
  handle_if_any (some m) n = handle_request j w m.identity m.text n

  -- One poll, which may find a request, and finds a reply where there is one.
  unfoldable pub serve_once : Option Message → Node → Result Thrown Node
  unfolding handle_if_any deliver has_reply
  serve_once request n =
      if n.closed
      then returns n
      else (handle_if_any request n >>= λ n'. returns (deliver (has_reply n) n'))

  unfoldable pub end_worker : ℕ → Ending → Node → Result Thrown Node
  unfolding run_inference remove
  end_worker i ending n = elim (get_elem? n.workers i) [
    | none ↦ returns n
    | some k ↦ run_inference j ending k (record n { workers = remove i n.workers })
  ]

pub data Step : Type 0 where
  serves : Option Message → Step
  moves : ℕ → (Pipeline → Pipeline) → Step
  ends : ℕ → Ending → Step
  closes : (Worker → Ending) → Step

module _ (j : Json) (w : Setting j) where
  unfoldable pub step : Step → Node → Result Thrown Node
  unfolding serve_once advance end_worker close
  step (serves request) n = serve_once j w request n
  step (moves a f) n = returns (advance a f n)
  step (ends i ending) n = end_worker j w i ending n
  step (closes endings) n = close j endings n

  unfoldable pub run : List Step → Node → Result Thrown Node
  unfolding step
  run [] n = returns n
  run (x ∷ xs) n = step x n >>= λ n'. run xs n'
