-- ===== src/LlmNode/Waiting.antt =====
-- When the answer of the model counts.
use vox_orchestra.Prelude.{
  ℕ, ◌<◌, ◌≡◌, refl, Bool, false, none, List, [], ◌∷◌, leb, bytes_eq, codes, arith, All,
}
use vox_orchestra.SessionPipeline.{BackendEvent}
use vox_orchestra.TaskChannel.{done}
use vox_orchestra.LlmNode.{Poll, wait, run_rkllm, done_text, infer}

-- A round that neither ends nor is too late.
unfoldable pub IsQuiet : ℕ → Poll → Type 0
IsQuiet deadline p = (p.cancelled ≡ false) × (p.now < deadline)

wait_quiet : (deadline : ℕ) (ps : List Poll) → All (IsQuiet deadline) ps → wait deadline ps ≡ none
unfolding wait IsQuiet
wait_quiet deadline [] h = refl
wait_quiet deadline (p ∷ ps) h =
    let late : leb deadline p.now ≡ false = ground (arith, h.0.1) in
    rw (h.0.0, late) (wait_quiet deadline ps h.1)

-- The real model's answer is the text with which it ended, and all its events are passed on, where
-- no round of the loop finds the flag set or the time over.
pub infer_quiet :
    (told : Bool → List BackendEvent) (deadline : ℕ) (polls : List Poll)
    → All (IsQuiet deadline) polls
    → infer (codes "rkllm") false told deadline polls
      ≡ (record { code = done; text = done_text (told false) [] }, told false)
unfolding infer run_rkllm bytes_eq
infer_quiet told deadline polls h = rw (infer, run_rkllm, wait_quiet deadline polls h) refl
