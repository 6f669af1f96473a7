-- ===== src/LlmNode/Tests.antt =====
-- The LLM node at concrete inputs.
use vox_orchestra.Prelude.{◌≡◌, refl, false, List, [], ◌∷◌, codes, Bool}
use vox_orchestra.SessionPipeline.{k_token, k_done, BackendEvent}
use vox_orchestra.TaskChannel.{timed_out}
use vox_orchestra.LlmNode.{Poll, infer}

abbrev told : Bool → List BackendEvent
told stopped_early =
    record { kind = k_token; text = codes "h"; pcm = [] }
    ∷ record { kind = k_done; text = codes "hi"; pcm = [] }
    ∷ []

abbrev polls : List Poll
polls = record { cancelled = false; now = 3 } ∷ record { cancelled = false; now = 13 } ∷ []

too_late : (infer (codes "rkllm") false told 10 polls).0.code ≡ timed_out
unfolding infer
too_late = refl

-- The fake model is not bound by the deadline.
never_late : (infer (codes "fake") false told 0 polls).0.text ≡ codes "hi"
unfolding infer
never_late = refl
