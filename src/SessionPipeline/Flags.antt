-- ===== src/SessionPipeline/Flags.antt =====
-- The stages of a run leave its verdict to the end.
use vox_orchestra.Prelude.{
  ℕ, ◌+◌, ◌≡◌, inl, inr, refl, ◌∙◌, Bool, true, ◌||◌, Option, none, some, List, [], ◌∷◌, arith,
  Bool-cases, Option-cases, Bytes,
}
use vox_orchestra.Prelude.Fallible.{Result, returns, throws}
use vox_orchestra.BoundedQueue.{Queue, QueueResult, ok, full, empty, closed}
use vox_orchestra.WavReader.{read}
use vox_orchestra.SentenceChunker.{Chunker, feed, flush}
use vox_orchestra.SentenceChunker as SentenceChunker
use vox_orchestra.SessionState.{audio_start, route_l0_l1, route_l2_l3}
use vox_orchestra.SessionPipeline.{
  BackendEvent, Decision, RouteLevel, l0, l1, l2, l3, PipelineConfig, PipelineInput, Mode, k_text,
  k_wav, k_mic, send, Moment, sleep, happen, Job, timed_out, is_active, Reply, Point, at_frame,
  at_route, at_speak, at_answer, at_audio_start, level_to_string, Driving, is_empty, may_go_on,
  moved, fails,
}
use vox_orchestra.SessionPipeline.Listen.{
  wav_of, wav_samples, mic_samples, hear, feed_frames, recognised, end_listening, frames_of,
  listen_to, read_text, listen,
}
use vox_orchestra.SessionPipeline.Answer.{
  is_token, take_event, delayed, on_event, pushed, push_text, push_all, feed_answer_sentences,
  on_token, on_events, direct, generated, by_level, routed, answer,
}
use vox_orchestra.SessionPipeline.Run.{World, stop_speaking, speak, speak_if_due, caught, stages}

-- What no stage changes.
abbrev pub flags : Driving → Bool × Bool
flags d = (d.result.ok, d.result.cancelled)

hear-flags :
    (j : Job) (es : List (Moment × BackendEvent)) (d : Driving) → flags (hear j es d) ≡ flags d
unfolding hear moved
hear-flags j [] d = refl
hear-flags j ((m, e) ∷ es) d = hear-flags j es _ ∙ ground arith

feed_frames-flags :
    (c : PipelineConfig) (j : Job) (at : Point → Moment) (asr : ℕ → List ℕ → Bool → Reply)
    (fs : List (List ℕ × Bool)) (n : ℕ) (d : Driving)
    → flags (feed_frames c j at asr fs n d).0 ≡ flags d
unfolding feed_frames moved
feed_frames-flags c j at asr [] n d = refl
feed_frames-flags c j at asr ((frame, last) ∷ fs) n d =
    let d0 = moved (happen (at (at_frame n))) d in
    let reply = asr n frame last in
    let d1 = hear j reply.events d0 in
    let heard = hear-flags j reply.events d0 in
    elim (Bool-cases (d0.pipeline.cancelled || timed_out j d0.pipeline)) [
      | inl e ↦ rw e refl
      | inr e ↦ elim (Option-cases reply.thrown) [
        | inl t ↦
            rw (e, t)
              (feed_frames-flags c j at asr fs (n + 1) (moved (sleep c.stage_delay) d1) ∙ heard)
        | inr (what, t) ↦ rw (e, t) heard
      ]
    ]

pushed-flags :
    (c : PipelineConfig) (r : Queue Bytes × QueueResult) (d : Driving)
    → flags (pushed c r d) ≡ flags d
unfolding pushed
pushed-flags c (q, full) d = refl
pushed-flags c (q, ok) d = refl
pushed-flags c (q, empty) d = refl
pushed-flags c (q, closed) d = refl

push_all-flags :
    (c : PipelineConfig) (ss : List Bytes) (d : Driving) → flags (push_all c ss d) ≡ flags d
unfolding push_all push_text
push_all-flags c [] d = refl
push_all-flags c (s ∷ ss) d = push_all-flags c ss _ ∙ pushed-flags c _ d

on_token-flags :
    (c : PipelineConfig) (text : Bytes) (k : Chunker) (d : Driving)
    → flags (on_token c text (k, d)).1 ≡ flags d
unfolding on_token
on_token-flags c text k d = push_all-flags c (feed text k).1 _

take_event-flags :
    (c : PipelineConfig) (e : BackendEvent) (k : Chunker) (d : Driving)
    → flags (take_event c e (k, d)).1 ≡ flags d
unfolding take_event
take_event-flags c e k d = elim (Bool-cases (is_token e.kind)) [
  | inl t ↦ rw t (on_token-flags c e.text k d)
  | inr t ↦ rw t refl
]

on_event-flags :
    (c : PipelineConfig) (j : Job) (e : BackendEvent) (k : Chunker) (d : Driving)
    → flags (on_event c j e (k, d)).1 ≡ flags d
unfolding on_event delayed moved
on_event-flags c j e k d = elim (Bool-cases (is_active j d.pipeline)) [
  | inl a ↦ rw a (take_event-flags c e k d)
  | inr a ↦ rw a refl
]

on_events-flags :
    (c : PipelineConfig) (j : Job) (es : List (Moment × BackendEvent)) (s : Chunker × Driving)
    → flags (on_events c j es s).1 ≡ flags s.1
unfolding on_events moved
on_events-flags c j [] s = refl
on_events-flags c j ((m, e) ∷ es) (k, d) =
    let d0 = moved (happen m) d in
    on_events-flags c j es (on_event c j e (k, d0)) ∙ on_event-flags c j e k d0

recognised-flags : (d : Driving) → flags (recognised d) ≡ flags d
unfolding recognised fails
recognised-flags d = ground arith

listen_to-flags :
    (c : PipelineConfig) (j : Job) (at : Point → Moment) (asr : ℕ → List ℕ → Bool → Reply)
    (error : Bytes) (samples : List ℕ) (d : Driving)
    → flags (listen_to c j at asr (error, samples) d).0 ≡ flags d
unfolding listen_to fails
listen_to-flags c j at asr error samples d =
    let fed = feed_frames c j at asr (frames_of samples) 0 d in
    let kept = feed_frames-flags c j at asr (frames_of samples) 0 d in
    elim (Bool-cases (is_empty error)) [
      | inr e ↦ rw e refl
      | inl e ↦ elim (Option-cases fed.1) [
        | inl t ↦ rw (e, t) (recognised-flags fed.0 ∙ kept)
        | inr (what, t) ↦ rw (e, t) kept
      ]
    ]

end_listening-flags :
    (at : Point → Moment) (r : Driving × Option Bytes) → flags (end_listening at r).0 ≡ flags r.0
unfolding end_listening moved
end_listening-flags at (d, none) = refl
end_listening-flags at (d, some what) = refl

read_text-flags : (text : Bytes) (d : Driving) → flags (read_text text d) ≡ flags d
unfolding read_text fails
read_text-flags text d = ground arith

mode-flags :
    (mode : Mode) (c : PipelineConfig) (j : Job) (w : World) (input : PipelineInput) (d : Driving)
    → input.mode ≡ mode
    → flags (listen c j w.at w.files w.asr input d).0 ≡ flags d
unfolding listen moved
mode-flags k_text c j w input d e = rw e (
    let d0 = moved (λ p. send audio_start (happen (w.at at_audio_start) p)) d in
    read_text-flags input.text (end_listening w.at (d0, none)).0
    ∙ end_listening-flags w.at (d0, none))
mode-flags k_wav c j w input d e =
    let d0 = moved (λ p. send audio_start (happen (w.at at_audio_start) p)) d in
    let (error, samples) = (wav_samples (wav_of (read input.wav_path (w.files input.wav_path)))) in
    let heard = listen_to c j w.at w.asr (error, samples) d0 in
    rw e (end_listening-flags w.at heard ∙ listen_to-flags c j w.at w.asr error samples d0)
mode-flags k_mic c j w input d e =
    let d0 = moved (λ p. send audio_start (happen (w.at at_audio_start) p)) d in
    let (error, samples) = (mic_samples input.audio) in
    let heard = listen_to c j w.at w.asr (error, samples) d0 in
    rw e (end_listening-flags w.at heard ∙ listen_to-flags c j w.at w.asr error samples d0)

direct-flags :
    (c : PipelineConfig) (at : Point → Moment) (x : Decision) (d : Driving)
    → flags (direct c at x d) ≡ flags d
unfolding direct feed_answer_sentences moved
direct-flags c at x d =
    let d1 = moved (λ p. send route_l0_l1 (happen (at at_answer) p)) d in
    let d2 = record d1 { result = record d1.result { final_text = x.answer } } in
    let (k, first) = feed x.answer SentenceChunker.new in
    push_all-flags c (flush k).1 (push_all c first d2) ∙ push_all-flags c first d2

generated-flags :
    (c : PipelineConfig) (j : Job) (at : Point → Moment) (llm : Bytes → Reply) (x : Decision)
    (d : Driving)
    → flags (generated c j at llm x d).0 ≡ flags d
unfolding generated moved
generated-flags c j at llm x d =
    let d1 = moved (λ p. send route_l2_l3 (happen (at at_answer) p)) d in
    let s1 : Chunker × Driving =
      (SentenceChunker.new, record d1 { result = record d1.result { llm_called = true } }) in
    let reply = llm x.prompt in
    let (k, d2) = on_events c j reply.events s1 in
    elim (Option-cases reply.thrown) [
      | inl t ↦
          rw (generated, t) (push_all-flags c (flush k).1 d2 ∙ on_events-flags c j reply.events s1)
      | inr (what, t) ↦ rw (generated, t) (on_events-flags c j reply.events s1)
    ]

by_level-flags :
    (c : PipelineConfig) (j : Job) (at : Point → Moment) (llm : Bytes → Reply) (x : Decision)
    (l : RouteLevel) (d : Driving)
    → flags (by_level c j at llm x l d).0 ≡ flags d
unfolding by_level
by_level-flags c j at llm x l0 d = direct-flags c at x d
by_level-flags c j at llm x l1 d = direct-flags c at x d
by_level-flags c j at llm x l2 d = generated-flags c j at llm x d
by_level-flags c j at llm x l3 d = generated-flags c j at llm x d

routed-flags :
    (c : PipelineConfig) (j : Job) (at : Point → Moment) (llm : Bytes → Reply)
    (r : Result Bytes Decision) (d : Driving)
    → flags (routed c j at llm r d).0 ≡ flags d
unfolding routed
routed-flags c j at llm (throws what) d = refl
routed-flags c j at llm (returns x) d =
    by_level-flags c j at llm x x.level
      (record d { result = record d.result { decision = some x; route = level_to_string x.level } })

answer-flags :
    (c : PipelineConfig) (j : Job) (w : World) (d : Driving)
    → flags (answer c j w.at w.route w.llm d).0 ≡ flags d
unfolding answer moved
answer-flags c j w d =
    let d0 = moved (happen (w.at at_route)) d in
    elim (Bool-cases (may_go_on j d0)) [
      | inl e ↦ rw e (routed-flags c j w.at w.llm (w.route d0.query) d0)
      | inr e ↦ rw e refl
    ]

speak_if_due-flags :
    (c : PipelineConfig) (w : World) (j : Job) (d : Driving)
    → flags (speak_if_due c w j d) ≡ flags d
unfolding speak_if_due speak stop_speaking moved
speak_if_due-flags c w j d =
    let d0 = moved (happen (w.at at_speak)) d in
    elim (Bool-cases (may_go_on j d0)) [ inl e ↦ rw e refl | inr e ↦ rw e refl ]

-- The verdict is not given before the end.
pub stages-flags :
    (c : PipelineConfig) (w : World) (j : Job) (input : PipelineInput) (d : Driving)
    → flags (stages c w j input d) ≡ flags d
unfolding stages caught fails
stages-flags c w j input d =
    let heard = listen c j w.at w.files w.asr input d in
    let said = answer c j w.at w.route w.llm heard.0 in
    let listened = mode-flags input.mode c j w input d refl in
    let answered = answer-flags c j w heard.0 ∙ listened in
    elim (Option-cases heard.1) [
      | inr (what, t) ↦ rw (stages, t) listened
      | inl t ↦ elim (Option-cases said.1) [
        | inr (what, u) ↦ rw (stages, t, u) answered
        | inl u ↦ rw (stages, t, u) (speak_if_due-flags c w j said.0 ∙ answered)
      ]
    ]
