-- ===== src/SessionPipeline/Run.antt =====
-- A whole run, and the end of it where all paths meet: libs/session/src/session_pipeline.cpp,
-- `text_hash`, `make_wav_path` and `run`.
use vox_orchestra.Prelude.{
  ℕ, zero, suc, ◌+◌, ◌-◌, ◌*◌, ◌/◌, ◌%◌, ◌^◌, Bool, true, false, ◌&&◌, not, Option, none, some,
  List, [], ◌∷◌, ◌++◌, ltb, if◌then◌else◌, Bytes, codes, utf8,
}
use Prim.Native.Nat.{bit_xor}
use vox_orchestra.Prelude.Int.{ℤ}
use vox_orchestra.Prelude.Fallible.{Result}
use vox_orchestra.BoundedQueue.{Queue}
use vox_orchestra.BoundedQueue as BoundedQueue
use vox_orchestra.FakeAudioSink.{sample_rate_hz, frame_samples}
use vox_orchestra.SessionState.{tts_done, cancel, cancel_complete, reset}
use vox_orchestra.SessionPipeline.{
  Decision, PipelineConfig, PipelineInput, PipelineResult, Pipeline, send, Moment, happen, Job,
  timed_out, Reply, Point, at_speak, at_padding, at_close, at_verdict, at_tts_done, at_failure,
  at_cancel_complete, Driving, is_empty, may_go_on, moved, fails,
}
use vox_orchestra.SessionPipeline.Listen.{listen}
use vox_orchestra.SessionPipeline.Answer.{answer}
use vox_orchestra.SessionPipeline.Speak.{Voice, t_waiting, w_waiting, d_open, Speaking, Step, work}
use vox_orchestra.SessionPipeline.Turns.{settle}

-- What the rest of the program and of the machine does in one run: the sink, the file system, the
-- back ends, the router, the steps of the worker threads, and what happens before each statement.
pub record World : Type 0 where
  pub at : Point → Moment
  pub sink_opens : Bool
  pub files : Bytes → Option Bytes
  pub asr : ℕ → List ℕ → Bool → Reply
  pub route : Bytes → Result Bytes Decision
  pub llm : Bytes → Reply
  pub tts : Voice
  pub schedule : List Step
  pub pads : ℕ → Bool
  pub sink_closes : Bool

-- FNV-1a, on 32 bits.
unfoldable pub hash_loop : ℕ → Bytes → ℕ
hash_loop h [] = h
hash_loop h (c ∷ cs) = hash_loop (bit_xor h c * 16777619 % 2 ^ 32) cs

unfoldable pub hex_digit : ℕ → ℕ
hex_digit v = if ltb v 10 then b'0' + v else b'a' + (v - 10)

-- `%08x`.
unfoldable pub hex : ℕ → ℕ → Bytes → Bytes
unfolding hex_digit
hex zero v rest = rest
hex (suc n) v rest = hex n (v / 16) (hex_digit (v % 16) ∷ rest)

unfoldable pub text_hash : Bytes → Bytes
unfolding hash_loop hex
text_hash s = hex 8 (hash_loop 2166136261 s) []

unfoldable pub make_wav_path : PipelineConfig → Bytes → Bytes
unfolding text_hash
make_wav_path c request_id =
    c.output_dir ++ (codes "/session_" ++ (text_hash request_id ++ codes ".wav"))

unfoldable pub no_result : PipelineResult
no_result = record {
  ok = false;
  cancelled = false;
  error = [];
  route = [];
  asr_text = [];
  final_text = [];
  wav_path = [];
  llm_called = false;
  decision = none;
  token_count = 0;
  pcm_frames = 0;
  text_queue_peak = 0;
  pcm_queue_peak = 0;
  dropped_sentences = 0;
  dropped_pcm_frames = 0;
  generation = 0;
  transitions = [];
}

-- The worker threads start.
unfoldable pub start_speaking : PipelineConfig → Driving → Speaking
unfolding BoundedQueue.new
start_speaking c d = record {
  pipeline = d.pipeline;
  text_queue = d.text_queue;
  pcm_queue = BoundedQueue.new c.pcm_queue_capacity;
  talker = t_waiting;
  writer = w_waiting;
  driver = d_open;
  taken = 0;
  written = [];
  pcm_frames = d.result.pcm_frames;
  dropped_pcm_frames = d.result.dropped_pcm_frames;
  error = d.result.error;
}

-- What the driving thread finds once the others are joined.
unfoldable pub stop_speaking : Speaking → Driving → Driving
stop_speaking s d = record d {
  pipeline = s.pipeline;
  text_queue = s.text_queue;
  result = record d.result {
    error = s.error;
    pcm_frames = s.pcm_frames;
    dropped_pcm_frames = s.dropped_pcm_frames;
    pcm_queue_peak = s.pcm_queue.peak;
  };
}

-- The steps of the schedule, then turns until all threads are joined.
unfoldable pub speak : PipelineConfig → World → Job → Driving → Driving
unfolding start_speaking stop_speaking work settle
speak c w j d = stop_speaking (settle w.tts j (work w.tts j w.schedule (start_speaking c d))) d

unfoldable pub speak_if_due : PipelineConfig → World → Job → Driving → Driving
unfolding moved happen may_go_on speak
speak_if_due c w j d =
    let d0 = moved (happen (w.at at_speak)) d in if may_go_on j d0 then speak c w j d0 else d0

unfoldable pub caught : Bytes → Driving → Driving
unfolding fails
caught what d = fails (utf8 "管线异常: " ++ what) d

-- The `try` block.
unfoldable pub stages : PipelineConfig → World → Job → PipelineInput → Driving → Driving
unfolding listen answer speak_if_due caught
stages c w j input d =
    let (d1, thrown) = listen c j w.at w.files w.asr input d in
    elim thrown [
      | some what ↦ caught what d1
      | none ↦
          (let (d2, thrown) = answer c j w.at w.route w.llm d1 in
            elim thrown [ some what ↦ caught what d2 | none ↦ speak_if_due c w j d2 ])
    ]

-- The frames written once the loop that adds `missing` silent ones ends.
unfoldable pub pad : (ℕ → Bool) → ℕ → ℕ → ℕ
pad succeeds zero frames = frames
pad succeeds (suc missing) frames = elim (succeeds frames) [
  | true ↦ pad succeeds missing (frames + 1)
  | false ↦ frames
]

unfoldable pub min_frames : PipelineConfig → ℕ
min_frames c = c.tts_min_duration * sample_rate_hz / 1000 / frame_samples

unfoldable pub padded : PipelineConfig → World → Job → Driving → Driving
unfolding moved happen may_go_on pad min_frames
padded c w j d =
    let d0 = moved (happen (w.at at_padding)) d in
    if may_go_on j d0 && ltb 0 c.tts_min_duration
    then record d0 {
      result = record d0.result {
        pcm_frames = pad w.pads (min_frames c - d0.result.pcm_frames) d0.result.pcm_frames;
      };
    }
    else d0

unfoldable pub mark_cancelled : Driving → Driving
mark_cancelled d =
    if d.pipeline.cancelled then record d { result = record d.result { cancelled = true } } else d

unfoldable pub may_succeed : Job → Driving → Bool
unfolding is_empty timed_out
may_succeed j d = is_empty d.result.error && not d.result.cancelled && not (timed_out j d.pipeline)

unfoldable pub succeed : World → Driving → Driving
unfolding moved happen send fails
succeed w d =
    if w.sink_closes
    then (let d' = moved (λ p. send tts_done (happen (w.at at_tts_done) p)) d in
        record d' { result = record d'.result { ok = true } })
    else fails (utf8 "音频输出关闭失败") d

-- `result.ok`, or the error.
unfoldable pub verdict : World → Job → Driving → Driving
unfolding moved happen mark_cancelled may_succeed succeed
verdict w j d =
    let d1 = mark_cancelled (moved (happen (w.at at_close)) d) in
    let d2 = moved (happen (w.at at_verdict)) d1 in if may_succeed j d2 then succeed w d2 else d2

unfoldable pub report : Job → Driving → Driving
unfolding is_empty fails timed_out
report j d =
    if is_empty d.result.error
    then fails (if timed_out j d.pipeline then utf8 "管线超时" else utf8 "管线未完成") d
    else d

-- The way back to the idle state of a run that is not `ok`.
unfoldable pub cleaned : World → Job → Driving → Driving
unfolding moved happen send report
cleaned w j d =
    if d.result.ok
    then d
    else moved (λ p. send cancel_complete (happen (w.at at_cancel_complete) (send cancel p)))
        (report j (moved (happen (w.at at_failure)) d))

-- What follows the `try` block, on all paths.
unfoldable pub conclude : PipelineConfig → World → Job → Driving → Pipeline × PipelineResult
unfolding padded verdict cleaned
conclude c w j d =
    let d' = cleaned w j (verdict w j (padded c w j d)) in
    (
      record d'.pipeline { running = false },
      record d'.result {
        text_queue_peak = d'.text_queue.peak;
        transitions = d'.pipeline.machine.trace;
      },
    )

-- The start of a run that no other is in the way of.
unfoldable pub begin : Bytes → Pipeline → Pipeline
unfolding reset
begin request_id p =
    let gen = (p.generation + 1) % 2 ^ 64 in
    record p {
      running = true;
      cancelled = false;
      machine = reset p.machine;
      generation = gen;
      active_generation = gen;
      active_request_id = request_id;
    }

unfoldable pub job_of : Bytes → ℤ → Pipeline → Job
job_of request_id deadline p = record {
  my_gen = p.generation;
  request_id = request_id;
  start_time = p.clock;
  deadline = deadline;
}

unfoldable pub drive_from : PipelineConfig → Bytes → Pipeline → Driving
unfolding BoundedQueue.new no_result make_wav_path
drive_from c request_id p = record {
  pipeline = p;
  result = record no_result { generation = p.generation; wav_path = make_wav_path c request_id };
  query = [];
  text_queue = BoundedQueue.new c.text_queue_capacity;
}

unfoldable pub run :
    PipelineConfig → World → PipelineInput → Bytes → ℤ → Pipeline → Pipeline × PipelineResult
unfolding no_result begin job_of drive_from stages conclude make_wav_path
run c w input request_id deadline p =
    if p.running
    then (p, record no_result { error = utf8 "已有在途会话（单流）" })
    else (let p0 = begin request_id p in
        let j = job_of request_id deadline p0 in
        let d = drive_from c request_id p0 in
        if not w.sink_opens
        then (
          record p0 { running = false },
          record d.result { error = utf8 "音频输出打开失败: " ++ make_wav_path c request_id },
        )
        else conclude c w j (stages c w j input d))
