-- ===== src/SessionPipeline/Spoken.antt =====
-- The worker threads from their start.
use vox_orchestra.Prelude.{ℕ, zero, suc, subst, ◌≡◌, refl, sym, ◌∙◌, true, none, List, arith, Bytes}
use mathlib.Core.Bool.{true≢false}
use mathlib.Core.List.{Sublist, sublist-append_left}
use mathlib.Core.List.Sublist
use vox_orchestra.BoundedQueue as BoundedQueue
use vox_orchestra.BoundedQueue.Invariant.{IsValid, new-IsValid}
use vox_orchestra.SessionPipeline.{PipelineConfig, Job, Driving, is_active}
use vox_orchestra.SessionPipeline.Speak.{Voice, Speaking, Step, work, talker_done, writer_done}
use vox_orchestra.SessionPipeline.Turns.{driver_work, settle, turns, turn, measure}
use vox_orchestra.SessionPipeline.Run.{start_speaking}
use vox_orchestra.SessionPipeline.Invariants.{IsSound}
use vox_orchestra.SessionPipeline.Frames.{to_come, pending, coming, in_hand, work-pending}
use vox_orchestra.SessionPipeline.Whole.{AllGentle, IsCalm, settle_whole}

turns-pending :
    (tts : Voice) (j : Job) (n : ℕ) (s : Speaking)
    → Sublist (pending tts (turns tts j n s)) (pending tts s)
unfolding turns
turns-pending tts j zero s = Sublist.refl _
turns-pending tts j (suc n) s =
    Sublist.trans (turns-pending tts j n (work tts j turn s)) (work-pending tts j turn s)

turns-Sublist :
    (tts : Voice) (j : Job) (n : ℕ) (s : Speaking)
    → Sublist (turns tts j n s).written (pending tts s)
unfolding pending
turns-Sublist tts j n s =
    Sublist.trans (sublist-append_left (turns tts j n s).written _) (turns-pending tts j n s)

pub start-IsSound :
    (c : PipelineConfig) (d : Driving) → IsValid d.text_queue → IsSound (start_speaking c d)
unfolding start_speaking driver_work talker_done writer_done BoundedQueue.new
start-IsSound c d v = record {
  text = v;
  pcm = new-IsValid c.pcm_queue_capacity;
  text_shut = λ h. absurd (omega (arith, h));
  pcm_shut = λ h. absurd (omega (arith, h));
  talked = λ h. absurd (omega (arith, h));
  wrote = λ h. absurd (omega (arith, h));
  joins = λ h. absurd (true≢false (sym h));
  writing = λ h. absurd (true≢false (sym h));
}

start-pending :
    (tts : Voice) (c : PipelineConfig) (d : Driving)
    → pending tts (start_speaking c d) ≡ to_come tts 0 d.text_queue.items
unfolding pending start_speaking coming in_hand BoundedQueue.new
start-pending tts c d = refl

-- Over any schedule, with dropped frames, failing writes, calls to `cancel` and exceptions of the
-- synthesiser, the frames written once the threads are joined are some of the frames that the
-- synthesiser makes of the sentences in the text queue, in order: none is written twice, none
-- overtakes another, and none comes from elsewhere.
pub settle-Sublist :
    (tts : Voice) (c : PipelineConfig) (j : Job) (xs : List Step) (d : Driving)
    → Sublist
        (settle tts j (work tts j xs (start_speaking c d))).written
        (to_come tts 0 d.text_queue.items)
unfolding settle
settle-Sublist tts c j xs d =
    let s = start_speaking c d in
    subst (Sublist _) (start-pending tts c d) (
      Sublist.trans (turns-Sublist tts j (measure tts (work tts j xs s)) (work tts j xs s))
        (work-pending tts j xs s))

-- Of a run that is active when its threads start, that nobody cancels, whose pushes of frames do not
-- give up, whose writes succeed and whose synthesiser throws nothing, the frames written once the
-- threads are joined are all frames of all sentences in the text queue, in order, whatever the
-- schedule and however small the queue of frames is.
pub settle_all :
    (tts : Voice) (c : PipelineConfig) (j : Job) (xs : List Step) (d : Driving)
    → IsValid d.text_queue
    → is_active j d.pipeline ≡ true
    → ((n : ℕ) (x : Bytes) → (tts n x).1 ≡ none)
    → AllGentle xs
    → (settle tts j (work tts j xs (start_speaking c d))).written ≡ to_come tts 0 d.text_queue.items
unfolding start_speaking writer_done
settle_all tts c j xs d v a n g =
    let calm : IsCalm tts j (start_speaking c d) = record {
      sound = start-IsSound c d v;
      active = a;
      unthrown = tt;
      emptied = λ h. absurd (true≢false (sym h));
    } in
    settle_whole tts j n xs (start_speaking c d) g calm ∙ start-pending tts c d
