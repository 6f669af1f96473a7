-- ===== src/SessionPipeline/Listen.antt =====
-- The first phase of a run, from the input to the query:
-- libs/session/src/session_pipeline.cpp, `run`, part 1.
use vox_orchestra.Prelude.{
  ℕ, zero, suc, ◌+◌, Bool, true, false, ◌&&◌, ◌||◌, not, Option, none, some, List, [], ◌∷◌, leb,
  ◌==◌, if◌then◌else◌, length, take, drop, Bytes, utf8,
}
use vox_orchestra.WavReader.{WavReadResult, read, failed, no_info}
use vox_orchestra.FakeAudioSink.{sample_rate_hz, channel_count, frame_samples}
use vox_orchestra.SessionState.{audio_start, asr_final}
use vox_orchestra.SessionPipeline.{
  Kind, k_final, BackendEvent, PipelineConfig, k_text, k_wav, k_mic, PipelineInput, send, Moment,
  sleep, happen, Job, timed_out, is_active, Reply, Point, at_audio_start, at_asr_final, at_frame,
  Driving, is_empty, moved, fails,
}

-- `none` is not met: see WavReader/Total.
unfoldable pub wav_of : Option WavReadResult → WavReadResult
unfolding failed
wav_of none = failed [] no_info
wav_of (some r) = r

unfoldable pub has_none : List ℕ → Bool
has_none [] = true
has_none (v ∷ vs) = false

-- The error, and the samples where there is none.
unfoldable pub wav_samples : WavReadResult → Bytes × List ℕ
unfolding has_none
wav_samples r =
    if not r.ok
    then (r.error, [])
    else if not (r.info.sample_rate == sample_rate_hz)
        || not (r.info.channels == channel_count)
        || not (r.info.bits == 16)
    then (utf8 "固定输入须为 16kHz 单声道 16-bit WAV", [])
    else if has_none r.info.samples
    then (utf8 "WAV 无音频数据", [])
    else ([], r.info.samples)

unfoldable pub mic_samples : List ℕ → Bytes × List ℕ
unfolding has_none
mic_samples audio = (if has_none audio then utf8 "录音无音频数据" else [], audio)

-- The frames that the loop cuts, each with `last`.
unfoldable pub cut_frames : ℕ → List ℕ → List (List ℕ × Bool)
cut_frames zero vs = []
cut_frames (suc fuel) [] = []
cut_frames (suc fuel) (v ∷ vs) =
    let rest = cut_frames fuel (drop frame_samples (v ∷ vs)) in
    (take frame_samples (v ∷ vs), leb (length (v ∷ vs)) frame_samples) ∷ rest

unfoldable pub frames_of : List ℕ → List (List ℕ × Bool)
unfolding cut_frames
frames_of samples = cut_frames (length samples) samples

unfoldable pub is_final : Kind → Bool
is_final k_final = true
is_final _ = false

-- The callback of the recogniser, for the events of one call.
unfoldable pub hear : Job → List (Moment × BackendEvent) → Driving → Driving
unfolding is_final happen is_active moved
hear j [] d = d
hear j ((m, e) ∷ es) d =
    let d' = moved (happen m) d in
    hear j es
      (if is_active j d'.pipeline && is_final e.kind then record d' { query = e.text } else d')

-- The loop over the frames; `n` frames were fed. An exception ends it.
unfoldable pub feed_frames :
    PipelineConfig
    → Job
    → (Point → Moment)
    → (ℕ → List ℕ → Bool → Reply)
    → List (List ℕ × Bool)
    → ℕ
    → Driving
    → Driving × Option Bytes
unfolding hear happen timed_out sleep moved
feed_frames c j at asr [] n d = (d, none)
feed_frames c j at asr ((frame, last) ∷ fs) n d =
    let d0 = moved (happen (at (at_frame n))) d in
    let reply = asr n frame last in
    let d1 = hear j reply.events d0 in
    let later = feed_frames c j at asr fs (n + 1) (moved (sleep c.stage_delay) d1) in
    if d0.pipeline.cancelled || timed_out j d0.pipeline
    then (d0, none)
    else elim reply.thrown [ some what ↦ (d1, some what) | none ↦ later ]

unfoldable pub is_space : ℕ → Bool
is_space c = c == b' ' || c == b'\t' || c == b'\r' || c == b'\n'

unfoldable pub is_blank : Bytes → Bool
unfolding is_space
is_blank [] = true
is_blank (c ∷ cs) = is_space c && is_blank cs

-- What follows the loop.
unfoldable pub recognised : Driving → Driving
unfolding is_blank fails
recognised d =
    let d' = record d { result = record d.result { asr_text = d.query } } in
    if is_blank d.query then fails (utf8 "ASR 未识别到文本") d' else d'

unfoldable pub end_listening : (Point → Moment) → Driving × Option Bytes → Driving × Option Bytes
unfolding moved happen send
end_listening at (d, some what) = (d, some what)
end_listening at (d, none) = (moved (λ p. send asr_final (happen (at at_asr_final) p)) d, none)

-- The samples of a file or of a microphone go to the recogniser.
unfoldable pub listen_to :
    PipelineConfig
    → Job
    → (Point → Moment)
    → (ℕ → List ℕ → Bool → Reply)
    → Bytes × List ℕ
    → Driving
    → Driving × Option Bytes
unfolding fails is_empty feed_frames frames_of recognised
listen_to c j at asr (error, samples) d =
    if is_empty error
    then (let (d', thrown) = feed_frames c j at asr (frames_of samples) 0 d in
        elim thrown [ some what ↦ (d', some what) | none ↦ (recognised d', none) ])
    else (fails error d, none)

-- Text needs no audio.
unfoldable pub read_text : Bytes → Driving → Driving
unfolding fails is_empty
read_text text d =
    let d' = record d { query = text } in if is_empty text then fails (utf8 "空文本请求") d' else d'

unfoldable pub listen :
    PipelineConfig
    → Job
    → (Point → Moment)
    → (Bytes → Option Bytes)
    → (ℕ → List ℕ → Bool → Reply)
    → PipelineInput
    → Driving
    → Driving × Option Bytes
unfolding moved happen send wav_of wav_samples mic_samples listen_to end_listening read_text read
listen c j at files asr input d =
    let d0 = moved (λ p. send audio_start (happen (at at_audio_start) p)) d in
    elim input.mode [
      | k_text ↦ (let (d1, _) = end_listening at (d0, none) in (read_text input.text d1, none))
      | k_wav ↦ end_listening at (
          listen_to c j at asr (wav_samples (wav_of (read input.wav_path (files input.wav_path))))
            d0)
      | k_mic ↦ end_listening at (listen_to c j at asr (mic_samples input.audio) d0)
    ]
