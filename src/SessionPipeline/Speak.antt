-- ===== src/SessionPipeline/Speak.antt =====
-- The third phase of a run, with its two worker threads: libs/session/src/session_pipeline.cpp,
-- `run`, part 3, and the closing of the queues behind it. A Step is what one thread does next up to
-- its next call on shared state, and a schedule is a list of steps. A wait on a queue is a step that
-- leaves the thread where it is, so a queue's own wait meets no other methods here.
use vox_orchestra.Prelude.{
  ℕ, ◌+◌, Bool, true, false, ◌&&◌, Option, none, some, List, [], ◌∷◌, ◌++◌, if◌then◌else◌, Bytes,
  utf8,
}
use vox_orchestra.BoundedQueue.{
  QueueResult, ok, full, closed, Queue, push_timeout, pop_timeout, close,
}
use vox_orchestra.SessionPipeline.{
  Kind, k_pcm, BackendEvent, Pipeline, Moment, happen, Job, is_active,
}

-- What `synthesize` does, for the sentence and the number of sentences before it: the events it
-- delivers, and the exception that ends it.
abbrev pub Voice : Type 0
Voice = ℕ → Bytes → List BackendEvent × Option Bytes

-- Where the thread of the synthesiser is: at the queue, with a sentence, in `synthesize` with the
-- events to come, at the push of a frame, or gone.
pub data Talker : Type 0 where
  t_waiting t_done : Talker
  t_has : ℕ → Bytes → Talker
  t_speaking : List BackendEvent → Option Bytes → Talker
  t_pushing : List ℕ → List BackendEvent → Option Bytes → Talker

-- Where the thread of the output is.
pub data Writer : Type 0 where
  w_waiting w_done : Writer
  w_has w_writing : List ℕ → Writer

-- How far the driving thread is with closing and joining.
pub data Driver : Type 0 where
  d_open d_text_closed d_pcm_closed d_joined : Driver

pub record Speaking : Type 0 where
  pub pipeline : Pipeline
  pub text_queue : Queue Bytes
  pub pcm_queue : Queue (List ℕ)
  pub talker : Talker
  pub writer : Writer
  pub driver : Driver
  pub taken : ℕ
  pub written : List (List ℕ)
  pub pcm_frames : ℕ
  pub dropped_pcm_frames : ℕ
  pub error : Bytes

unfoldable pub is_pcm : Kind → Bool
is_pcm k_pcm = true
is_pcm _ = false

unfoldable pub took : Queue Bytes × QueueResult × Option Bytes → Speaking → Speaking
took (q, ok, some sentence) s = record s {
  text_queue = q;
  talker = t_has s.taken sentence;
  taken = s.taken + 1;
}
took (q, closed, _) s = record s { text_queue = q; talker = t_done }
took (q, _, _) s = record s { text_queue = q }

-- A push whose wait has not ended leaves the thread where it is.
unfoldable pub frame_pushed :
    Bool → List BackendEvent → Option Bytes → Queue (List ℕ) × QueueResult → Speaking → Speaking
frame_pushed gives_up es thrown (q, full) s =
    if gives_up
    then record s {
      pcm_queue = q;
      talker = t_speaking es thrown;
      dropped_pcm_frames = s.dropped_pcm_frames + 1;
    }
    else s
frame_pushed gives_up es thrown (q, _) s = record s { pcm_queue = q; talker = t_speaking es thrown }

-- The end of `synthesize`.
unfoldable pub said : Option Bytes → Speaking → Speaking
said none s = record s { talker = t_waiting }
said (some what) s = record s { talker = t_done; error = utf8 "TTS 阶段异常: " ++ what }

unfoldable pub talk : Voice → Job → Bool → Talker → Speaking → Speaking
unfolding took frame_pushed said is_active is_pcm pop_timeout push_timeout
talk tts j gives_up t_waiting s = took (pop_timeout [] s.text_queue) s
talk tts j gives_up (t_has n sentence) s =
    if is_active j s.pipeline
    then record s { talker = t_speaking (tts n sentence).0 (tts n sentence).1 }
    else record s { talker = t_waiting }
talk tts j gives_up (t_speaking [] thrown) s = said thrown s
talk tts j gives_up (t_speaking (e ∷ es) thrown) s =
    if is_active j s.pipeline && is_pcm e.kind
    then record s { talker = t_pushing e.pcm es thrown }
    else record s { talker = t_speaking es thrown }
talk tts j gives_up (t_pushing frame es thrown) s =
    frame_pushed gives_up es thrown (push_timeout frame [] s.pcm_queue) s
talk tts j gives_up t_done s = s

unfoldable pub frame_took : Queue (List ℕ) × QueueResult × Option (List ℕ) → Speaking → Speaking
frame_took (q, ok, some frame) s = record s { pcm_queue = q; writer = w_has frame }
frame_took (q, closed, _) s = record s { pcm_queue = q; writer = w_done }
frame_took (q, _, _) s = record s { pcm_queue = q }

-- `succeeds` is what the sink's `write_pcm` returns.
unfoldable pub write : Job → Bool → Writer → Speaking → Speaking
unfolding frame_took is_active pop_timeout
write j succeeds w_waiting s = frame_took (pop_timeout [] s.pcm_queue) s
write j succeeds (w_has frame) s = record s {
  writer = if is_active j s.pipeline then w_writing frame else w_waiting;
}
write j succeeds (w_writing frame) s =
    if succeeds
    then record s {
      writer = w_waiting;
      written = s.written ++ frame ∷ [];
      pcm_frames = s.pcm_frames + 1;
    }
    else record s { writer = w_waiting }
write j succeeds w_done s = s

unfoldable pub talker_done : Talker → Bool
talker_done t_done = true
talker_done _ = false

unfoldable pub writer_done : Writer → Bool
writer_done w_done = true
writer_done _ = false

-- The driving thread closes the text queue, joins the synthesiser's thread, closes the queue of
-- frames and joins the other thread.
unfoldable pub drive : Driver → Speaking → Speaking
unfolding talker_done writer_done close
drive d_open s = record s { driver = d_text_closed; text_queue = close s.text_queue }
drive d_text_closed s =
    if talker_done s.talker
    then record s { driver = d_pcm_closed; pcm_queue = close s.pcm_queue }
    else s
drive d_pcm_closed s = if writer_done s.writer then record s { driver = d_joined } else s
drive d_joined s = s

pub data Step : Type 0 where
  happens : Moment → Step
  talks writes : Bool → Step
  drives : Step

unfoldable pub step : Voice → Job → Step → Speaking → Speaking
unfolding happen talk write drive
step tts j (happens m) s = record s { pipeline = happen m s.pipeline }
step tts j (talks gives_up) s = talk tts j gives_up s.talker s
step tts j (writes succeeds) s = write j succeeds s.writer s
step tts j drives s = drive s.driver s

unfoldable pub work : Voice → Job → List Step → Speaking → Speaking
unfolding step
work tts j [] s = s
work tts j (x ∷ xs) s = work tts j xs (step tts j x s)
