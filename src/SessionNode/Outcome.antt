-- ===== src/SessionNode/Outcome.antt =====
-- A worker with the pipeline that the session has: what `run` of
-- libs/session/src/session_pipeline.cpp returns is what the reply and the session report.
use vox_orchestra.Prelude.{◌≡◌, ◌≢◌, ◌⊎◌, true, false, List, [], ◌∷◌, ◌++◌, set, Bytes, codes}
use vox_orchestra.Prelude.Int.{ℤ, pos, negsuc}
use vox_orchestra.Prelude.Fallible.{Result, returns, throws}
use vox_orchestra.Protocol.{Json, Envelope, ProtocolError, ack_type, protocol_version, to_json}
use vox_orchestra.Protocol.Parse.{Thrown, protocol_error}
use vox_orchestra.SessionPipeline.{Pipeline, PipelineConfig, PipelineResult}
use vox_orchestra.SessionPipeline.Run as Run
use vox_orchestra.SessionPipeline.Run.{World, begin, job_of, drive_from}
use vox_orchestra.SessionNode.{Worker, Node}
use vox_orchestra.SessionNode.Steps.{Ending}

-- The run that a worker starts.
abbrev pub whole_run : PipelineConfig → World → ℤ → Worker → Ending
whole_run c w deadline k = Run.run c w k.input k.request_id deadline

-- Behind a run, the status that the reply names and the fields that it has for an error.
abbrev pub Reported : (j : Json) → PipelineResult → Bytes → List (Bytes × j.Value) → Type 0
Reported j r status errors =
    ((status ≡ codes "ok") × (r.ok ≡ true) × (r.error ≡ []) × (errors ≡ []))
    ⊎ ((status ≡ codes "cancelled") × (r.cancelled ≡ true) × (r.error ≢ []) × (errors ≡ []))
    ⊎ ((status ≡ codes "error")
        × (r.ok ≡ false)
        × (r.error ≢ [])
        × (errors ≡ (codes "error", j.of_string r.error) ∷ []))

-- The reply to the client, which is the last one of its request.
abbrev pub replied :
    (j : Json) → Worker → PipelineResult → Bytes → List (Bytes × j.Value) → Envelope j.Value
replied j k r status errors = record {
  version = protocol_version;
  work_id = k.work_id;
  request_id = k.request_id;
  session_id = [];
  type = ack_type;
  index = negsuc 0;
  timestamp_ms = negsuc 0;
  error = record { code = pos 0; message = [] };
  finish = true;
  payload = j.object (
      (codes "route", j.of_string r.route)
      ∷ (codes "asr_text", j.of_string r.asr_text)
      ∷ (codes "final_text", j.of_string r.final_text)
      ∷ (codes "generation", j.of_int (pos r.generation))
      ∷ (codes "token_count", j.of_int (pos r.token_count))
      ∷ (codes "pcm_frames", j.of_int (pos r.pcm_frames))
      ∷ (codes "text_queue_peak", j.of_int (pos r.text_queue_peak))
      ∷ (codes "pcm_queue_peak", j.of_int (pos r.pcm_queue_peak))
      ∷ (codes "dropped_sentences", j.of_int (pos r.dropped_sentences))
      ∷ (codes "dropped_pcm_frames", j.of_int (pos r.dropped_pcm_frames))
      ∷ (codes "wav_path", j.of_string r.wav_path)
      ∷ (errors ++ (codes "status", j.of_string status) ∷ []));
}

-- The node behind the worker's run: the session is free and holds the result, and the text waits in
-- the pipe for the client.
abbrev pub finished : Worker → Pipeline × PipelineResult → Bytes → Node → Node
finished k (p, r) text n = record n {
  store =
      set n.store k.session
        (record { busy = false; pipeline = p; last_result = r; last_request_id = k.request_id });
  replies = n.replies ++ record { identity = k.identity; text = text } ∷ [];
}

module _ (j : Json) where
  -- The thread of a worker has done its work, or an exception leaves it, by whether the reply can be
  -- written.
  abbrev pub Left :
      Worker → Pipeline × PipelineResult → Envelope j.Value → Node → Result Thrown Node → Type 0
  Left k out reply n end =
      ((text : Bytes) × (to_json j reply ≡ returns text) × (end ≡ returns (finished k out text n)))
      ⊎ ((e : ProtocolError) × (to_json j reply ≡ throws e) × (end ≡ throws (protocol_error e)))
