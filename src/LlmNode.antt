-- ===== src/LlmNode.antt =====
-- The language model of the LLM node: apps/llm_node/main.cpp, the class LlmNodeBackend. What the model
-- tells, and what each round of the waiting loop finds, are parameters.
mod Waiting
mod Tests
use vox_orchestra.Prelude.{
  ℕ, Bool, true, false, Option, none, some, List, [], ◌∷◌, leb, if◌then◌else◌, Bytes, bytes_eq,
  codes,
}
use vox_orchestra.SessionPipeline.{Kind, k_done, BackendEvent}
use vox_orchestra.TaskChannel.{Code, done, timed_out, stopped, BackendResult}

-- What a round of the loop finds while the model still generates.
pub record Poll : Type 0 where
  pub cancelled : Bool
  pub now : ℕ

-- The result, and the events that were passed on.
abbrev pub Answer : Type 0
Answer = BackendResult × List BackendEvent

unfoldable pub is_done : Kind → Bool
is_done k_done = true
is_done _ = false

-- The callback, on `final_text`.
unfoldable pub done_text : List BackendEvent → Bytes → Bytes
unfolding is_done
done_text [] text = text
done_text (e ∷ es) text = done_text es (if is_done e.kind then e.text else text)

-- The loop; behind the last poll the model is found to have ended.
unfoldable pub wait : ℕ → List Poll → Option Code
wait deadline [] = none
wait deadline (p ∷ ps) =
    let rest = wait deadline ps in
    if p.cancelled then some stopped else if leb deadline p.now then some timed_out else rest

unfoldable pub run_fake : List BackendEvent → Answer
unfolding done_text
run_fake told = (record { code = done; text = done_text told [] }, told)

-- `told` is what the model tells, by whether it was cancelled before its end.
unfoldable pub run_rkllm : (Bool → List BackendEvent) → ℕ → List Poll → Answer
unfolding wait done_text
run_rkllm told deadline polls = elim (wait deadline polls) [
  | some code ↦ (record { code = code; text = [] }, told true)
  | none ↦ (record { code = done; text = done_text (told false) [] }, told false)
]

-- `cancelled` is the flag before the model is asked.
unfoldable pub infer : Bytes → Bool → (Bool → List BackendEvent) → ℕ → List Poll → Answer
unfolding run_fake run_rkllm bytes_eq
infer backend_name cancelled told deadline polls =
    if cancelled
    then (record { code = stopped; text = [] }, [])
    else if bytes_eq backend_name (codes "rkllm")
    then run_rkllm told deadline polls
    else run_fake (told false)
