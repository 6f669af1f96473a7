-- ===== src/SessionPipeline/Answer.antt =====
-- The second phase of a run, from the query to the sentences in the text queue:
-- libs/session/src/session_pipeline.cpp, `push_text`, `feed_answer_sentences`, and `run`, part 2.
-- No thread takes from the text queue in this phase, so nothing happens to it while a push waits.
use vox_orchestra.Prelude.{
  ◌+◌, Bool, true, false, Option, none, some, List, [], ◌∷◌, ◌++◌, if◌then◌else◌, Bytes, codes,
}
use vox_orchestra.Prelude.Fallible.{Result, returns, throws}
use vox_orchestra.BoundedQueue.{QueueResult, full, Queue, push_timeout}
use vox_orchestra.SentenceChunker.{Chunker, feed, flush}
use vox_orchestra.SentenceChunker as SentenceChunker
use vox_orchestra.SessionState.{route_l0_l1, route_l2_l3, llm_done}
use vox_orchestra.SessionPipeline.{
  Kind, k_token, BackendEvent, RouteLevel, l0, l1, level_to_string, Decision, PipelineConfig, send,
  Moment, sleep, happen, Job, is_active, Reply, Point, at_route, at_answer, at_llm_done, Driving,
  may_go_on, moved,
}

-- A push that found no room has waited.
unfoldable pub pushed : PipelineConfig → Queue Bytes × QueueResult → Driving → Driving
unfolding sleep
pushed c (q, full) d = record d {
  text_queue = q;
  pipeline = sleep c.queue_push_timeout d.pipeline;
  result = record d.result { dropped_sentences = d.result.dropped_sentences + 1 };
}
pushed c (q, _) d = record d { text_queue = q }

unfoldable pub push_text : PipelineConfig → Bytes → Driving → Driving
unfolding pushed
push_text c sentence d = pushed c (push_timeout sentence [] d.text_queue) d

unfoldable pub push_all : PipelineConfig → List Bytes → Driving → Driving
unfolding push_text
push_all c [] d = d
push_all c (s ∷ ss) d = push_all c ss (push_text c s d)

unfoldable pub feed_answer_sentences : PipelineConfig → Bytes → Driving → Driving
unfolding push_all feed flush
feed_answer_sentences c text d =
    let (k, first) = feed text SentenceChunker.new in
    let (_, last) = flush k in push_all c last (push_all c first d)

unfoldable pub is_token : Kind → Bool
is_token k_token = true
is_token _ = false

-- The texts of the tokens, with a blank between two.
unfoldable pub add_text : Bytes → Bytes → Bytes
add_text [] text = text
add_text (c ∷ cs) text = (c ∷ cs) ++ (codes " " ++ text)

unfoldable pub on_token : PipelineConfig → Bytes → Chunker × Driving → Chunker × Driving
unfolding feed push_all add_text
on_token c text (k, d) =
    let (k', sentences) = feed text k in
    let r = record d.result {
      token_count = d.result.token_count + 1;
      final_text = add_text d.result.final_text text;
    } in
    (k', push_all c sentences (record d { result = r }))

unfoldable pub take_event : PipelineConfig → BackendEvent → Chunker × Driving → Chunker × Driving
unfolding on_token is_token
take_event c e (k, d) = if is_token e.kind then on_token c e.text (k, d) else (k, d)

unfoldable pub delayed : PipelineConfig → Chunker × Driving → Chunker × Driving
unfolding moved sleep
delayed c (k, d) = (k, moved (sleep c.stage_delay) d)

-- The callback of the language model.
unfoldable pub on_event :
    PipelineConfig → Job → BackendEvent → Chunker × Driving → Chunker × Driving
unfolding is_active take_event delayed
on_event c j e (k, d) = if is_active j d.pipeline then delayed c (take_event c e (k, d)) else (k, d)

-- The events of one call.
unfoldable pub on_events :
    PipelineConfig → Job → List (Moment × BackendEvent) → Chunker × Driving → Chunker × Driving
unfolding moved happen on_event
on_events c j [] s = s
on_events c j ((m, e) ∷ es) (k, d) = on_events c j es (on_event c j e (k, moved (happen m) d))

-- L0 and L1: the decision has the answer.
unfoldable pub direct : PipelineConfig → (Point → Moment) → Decision → Driving → Driving
unfolding moved happen send feed_answer_sentences
direct c at decision d =
    let d1 = moved (λ p. send route_l0_l1 (happen (at at_answer) p)) d in
    feed_answer_sentences c decision.answer
      (record d1 { result = record d1.result { final_text = decision.answer } })

-- L2 and L3: the language model makes it.
unfoldable pub generated :
    PipelineConfig
    → Job
    → (Point → Moment)
    → (Bytes → Reply)
    → Decision
    → Driving
    → Driving × Option Bytes
unfolding moved happen send on_events push_all flush
generated c j at llm decision d =
    let d1 = moved (λ p. send route_l2_l3 (happen (at at_answer) p)) d in
    let reply = llm decision.prompt in
    let (k, d2) =
      on_events c j reply.events
        (SentenceChunker.new, record d1 { result = record d1.result { llm_called = true } }) in
    elim reply.thrown [
      | some what ↦ (d2, some what)
      | none ↦
          (let (_, last) = flush k in
            (moved (λ p. send llm_done (happen (at at_llm_done) p)) (push_all c last d2), none))
    ]

unfoldable pub by_level :
    PipelineConfig
    → Job
    → (Point → Moment)
    → (Bytes → Reply)
    → Decision
    → RouteLevel
    → Driving
    → Driving × Option Bytes
unfolding direct generated
by_level c j at llm decision l0 d = (direct c at decision d, none)
by_level c j at llm decision l1 d = (direct c at decision d, none)
by_level c j at llm decision _ d = generated c j at llm decision d

-- The router's answer to the query, or its exception.
unfoldable pub routed :
    PipelineConfig
    → Job
    → (Point → Moment)
    → (Bytes → Reply)
    → Result Bytes Decision
    → Driving
    → Driving × Option Bytes
unfolding by_level level_to_string
routed c j at llm (throws what) d = (d, some what)
routed c j at llm (returns decision) d = by_level c j at llm decision decision.level (record d {
  result = record d.result { decision = some decision; route = level_to_string decision.level };
})

unfoldable pub answer :
    PipelineConfig
    → Job
    → (Point → Moment)
    → (Bytes → Result Bytes Decision)
    → (Bytes → Reply)
    → Driving
    → Driving × Option Bytes
unfolding moved happen may_go_on routed
answer c j at route llm d =
    let d0 = moved (happen (at at_route)) d in
    if may_go_on j d0 then routed c j at llm (route d0.query) d0 else (d0, none)
