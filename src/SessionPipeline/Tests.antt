-- ===== src/SessionPipeline/Tests.antt =====
-- The pipeline at concrete inputs.
use vox_orchestra.Prelude.{
  ℕ, ◌+◌, ◌-◌, ◌≡◌, ◌⊎◌, refl, true, false, none, List, [], ◌∷◌, ◌++◌, length, take, arith,
  bytes_eq, Bytes, codes,
}
use mathlib.Core.List.{Sublist}
use vox_orchestra.Prelude.Int.{pos}
use vox_orchestra.Prelude.Fallible.{Result, returns}
use vox_orchestra.BoundedQueue.{push_timeout}
use vox_orchestra.SentenceChunker as SentenceChunker
use vox_orchestra.BoundedQueue.Invariant.{IsValid, new-IsValid}
use vox_orchestra.SessionState.{idle, cancelling}
use vox_orchestra.SessionPipeline.{
  k_pcm, l1, Decision, PipelineConfig, k_text, PipelineInput, PipelineResult, Pipeline, raises,
  notifies, Moment, Job, Reply, Point, at_tts_done, is_active, Driving,
}
use vox_orchestra.FakeAudioSink.{zeros}
use vox_orchestra.SessionPipeline.Answer.{push_all}
use vox_orchestra.SessionPipeline.Speak.{
  Voice, Speaking, w_writing, d_joined, happens, talks, writes, drives, Step, work,
}
use vox_orchestra.SessionPipeline.Turns.{settle}
use vox_orchestra.SessionPipeline.Run.{
  World, start_speaking, drive_from, job_of, begin, text_hash, run, padded, stop_speaking,
}
use vox_orchestra.SessionPipeline.Invariants.{IsSound, work-IsSound}
use vox_orchestra.SessionPipeline.Progress.{settle-joined}
use vox_orchestra.SessionPipeline.Late.{underway, work_late}
use vox_orchestra.SessionPipeline.Frames.{to_come}
use vox_orchestra.SessionPipeline.Spoken.{start-IsSound, settle-Sublist, settle_all}
use vox_orchestra.SessionPipeline.Outcome.{IsRun, run-IsRun}
use vox_orchestra.SessionPipeline.Overflow.{push_all_lem}

abbrev small : PipelineConfig
small = record {
  text_queue_capacity = 1;
  pcm_queue_capacity = 1;
  queue_push_timeout = 50;
  stage_delay = 0;
  output_dir = codes "out";
  tts_min_duration = 0;
}

abbrev fresh : Pipeline
fresh = record {
  running = false;
  cancelled = false;
  generation = 0;
  active_generation = 0;
  active_request_id = [];
  machine = record { state = idle; trace = [] };
  clock = 0;
}

abbrev quiet : Moment
quiet = record { passes = 1; others = [] }

-- A sentence is spoken as two frames, of its first byte and of its length.
abbrev voice : Voice
voice n [] = ([], none)
voice n (x ∷ xs) = (
  record { kind = k_pcm; text = []; pcm = x ∷ [] }
      ∷ record { kind = k_pcm; text = []; pcm = length xs ∷ [] }
      ∷ [],
  none,
)

abbrev nothing : Reply
nothing = record { events = []; thrown = none }

abbrev direct_answer : Bytes → Result Bytes Decision
direct_answer q = returns (record { level = l1; answer = codes "Yes!No!"; prompt = [] })

abbrev calm_world : World
calm_world = record {
  at = λ _. quiet;
  sink_opens = true;
  files = λ _. none;
  asr = λ _ _ _. nothing;
  route = direct_answer;
  llm = λ _. nothing;
  tts = voice;
  schedule = talks false ∷ writes true ∷ [];
  pads = λ _. true;
  sink_closes = true;
}

abbrev question : PipelineInput
question = record { mode = k_text; text = codes "why"; wav_path = []; audio = [] }

abbrev answered : Pipeline × PipelineResult
answered = run small calm_world question (codes "r1") (pos 0) fresh

abbrev cancel_late : Point → Moment
cancel_late at_tts_done = record { passes = 0; others = raises ∷ notifies ∷ [] }
cancel_late _ = quiet

abbrev cancelled_late : Pipeline × PipelineResult
cancelled_late =
    run small (record calm_world { at = cancel_late }) question (codes "r1") (pos 0) fresh

-- FNV-1a of one byte.
hash_test : text_hash (codes "a") ≡ codes "e40c292c"
unfolding text_hash
hash_test = refl

-- The second sentence finds the text queue full.
answered_test :
    (answered.1.ok ≡ true) × (answered.1.pcm_frames ≡ 2) × (answered.1.dropped_sentences ≡ 1)
unfolding run SentenceChunker.new bytes_eq
answered_test = (refl, refl, refl)

-- A cancel between the verdict and the machine's step leaves a success and a machine that is cancelling.
cancelled_late_test : (cancelled_late.1.ok ≡ true) × (cancelled_late.0.machine.state ≡ cancelling)
unfolding run SentenceChunker.new bytes_eq
cancelled_late_test = (refl, refl)

abbrev started : Driving
started = drive_from small (codes "r1") (begin (codes "r1") fresh)

abbrev the_job : Job
the_job = job_of (codes "r1") (pos 0) (begin (codes "r1") fresh)

started-IsSound : IsSound (start_speaking small started)
unfolding drive_from
started-IsSound = start-IsSound small started (new-IsValid 1)

abbrev some_steps : List Step
some_steps =
    talks false
    ∷ happens (record { passes = 3; others = raises ∷ notifies ∷ [] })
    ∷ drives
    ∷ writes false
    ∷ talks true
    ∷ []

abbrev calm_steps : List Step
calm_steps = talks false ∷ happens quiet ∷ drives ∷ writes true ∷ talks false ∷ []

work-IsSound_example : IsSound (work voice the_job some_steps (start_speaking small started))
work-IsSound_example =
    work-IsSound voice the_job some_steps (start_speaking small started) started-IsSound

settle-joined_example :
    (settle voice the_job (work voice the_job some_steps (start_speaking small started))).driver
    ≡ d_joined
settle-joined_example =
    settle-joined voice the_job some_steps (start_speaking small started) started-IsSound

abbrev loaded : Driving
loaded = push_all small (codes "Yes!" ∷ codes "No!" ∷ []) started

settle-Sublist_example :
    Sublist
      (settle voice the_job (work voice the_job some_steps (start_speaking small loaded))).written
      (to_come voice 0 loaded.text_queue.items)
settle-Sublist_example = settle-Sublist voice small the_job some_steps loaded

push_all_lem_example :
    (loaded.text_queue.items
      ≡ started.text_queue.items
        ++ take
            (started.text_queue.capacity - started.text_queue.size)
            (codes "Yes!" ∷ codes "No!" ∷ []))
    × (loaded.result.dropped_sentences
        ≡ started.result.dropped_sentences
          + (2 - (started.text_queue.capacity - started.text_queue.size)))
unfolding drive_from
push_all_lem_example =
    push_all_lem small (codes "Yes!" ∷ codes "No!" ∷ []) started (new-IsValid 1) refl

unthrown : (n : ℕ) (x : Bytes) → (voice n x).1 ≡ none
unthrown n [] = refl
unthrown n (x ∷ xs) = refl

loaded-IsValid : IsValid loaded.text_queue
unfolding push_all drive_from push_timeout
loaded-IsValid = record {
  counted = refl;
  within = omega arith;
  bounded = omega arith;
  room = omega arith;
}

settle_all_example :
    (settle voice the_job (work voice the_job calm_steps (start_speaking small loaded))).written
    ≡ to_come voice 0 loaded.text_queue.items
unfolding drive_from job_of begin push_all is_active push_timeout bytes_eq
settle_all_example =
    settle_all voice small the_job calm_steps loaded loaded-IsValid refl unthrown
      (refl, (refl, (tt, (refl, (refl, tt)))))

-- The frame was found active, and the run is cancelled before it is written.
abbrev writing : Speaking
writing =
    let s = start_speaking small started in
    record s { writer = w_writing (7 ∷ []); pipeline = record s.pipeline { cancelled = true } }

work_late_example :
    let s' = settle voice the_job (work voice the_job some_steps writing) in
    ((s'.written ≡ writing.written) ⊎ (s'.written ≡ writing.written ++ underway writing.writer))
    × ((padded small calm_world the_job (stop_speaking s' loaded)).result.pcm_frames
        ≡ s'.pcm_frames)
work_late_example = work_late small calm_world the_job some_steps writing loaded refl

run-IsRun_example :
    IsRun small calm_world
      (job_of (codes "r1") (pos 0) (begin (codes "r1") fresh))
      question
      (drive_from small (codes "r1") (begin (codes "r1") fresh))
      answered
run-IsRun_example = run-IsRun small calm_world question (codes "r1") (pos 0) fresh refl

-- One sample more than a frame holds.
abbrev recording : List ℕ
recording = zeros 321
