-- ===== src/SessionPipeline/Outcome.antt =====
-- What a run returns.
use mathlib.Core.Bool.{true≢false}
use vox_orchestra.Prelude.{
  ◌≡◌, ◌≢◌, ◌⊎◌, inl, inr, refl, sym, ap, ◌∙◌, subst, true, false, not, Option, none, some, [],
  ◌++◌, Bool-cases, if◌then◌else◌, Bytes, utf8,
}
use vox_orchestra.Prelude.Int.{ℤ}
use vox_orchestra.SessionState.{idle}
use vox_orchestra.SessionPipeline.{
  PipelineConfig, PipelineInput, PipelineResult, Pipeline, happen, Job, at_speak, Driving, is_empty,
  may_go_on, moved, fails,
}
use vox_orchestra.SessionPipeline.Flags.{stages-flags}
use vox_orchestra.SessionPipeline.Listen.{listen}
use vox_orchestra.SessionPipeline.Answer.{answer}
use vox_orchestra.SessionPipeline.Run.{
  make_wav_path, World, speak, speak_if_due, caught, stages, conclude, begin, job_of, drive_from,
  no_result, run,
}
use vox_orchestra.SessionPipeline.Verdict.{if_true, if_false, conclude-Ends}

-- The worker threads were started, where the run could go on, and joined.
abbrev pub Spoke : PipelineConfig → World → Job → Driving → Type 0
Spoke c w j d = (d0 : Driving) × (may_go_on j d0 ≡ true) × (d ≡ speak c w j d0)

speak_if_due-Spoke :
    (c : PipelineConfig) (w : World) (j : Job) (d : Driving)
    → may_go_on j (speak_if_due c w j d) ≡ true
    → Spoke c w j (speak_if_due c w j d)
unfolding speak_if_due
speak_if_due-Spoke c w j d h =
    let d0 = moved (happen (w.at at_speak)) d in
    elim (Bool-cases (may_go_on j d0)) [
      | inl e ↦ (d0, e, if_true (may_go_on j d0) (speak c w j d0) d0 e)
      | inr e ↦ absurd (
          true≢false
            (sym h ∙ ap (may_go_on j) (if_false (may_go_on j d0) (speak c w j d0) d0 e) ∙ e))
    ]

caught-stops : (j : Job) (what : Bytes) (d : Driving) → may_go_on j (caught what d) ≡ false
unfolding caught fails may_go_on utf8 is_empty
caught-stops j what d = refl

caught-Spoke :
    (c : PipelineConfig) (w : World) (j : Job) (what : Bytes) (d : Driving)
    → may_go_on j (caught what d) ≡ true
    → Spoke c w j (caught what d)
caught-Spoke c w j what d h = absurd (true≢false (sym h ∙ caught-stops j what d))

last-Spoke :
    (c : PipelineConfig) (w : World) (j : Job) (t : Option Bytes) (d : Driving)
    → let d' : Driving = elim t [ some what ↦ caught what d | none ↦ speak_if_due c w j d ] in
      may_go_on j d' ≡ true → Spoke c w j d'
last-Spoke c w j none d = speak_if_due-Spoke c w j d
last-Spoke c w j (some what) d = caught-Spoke c w j what d

first-Spoke :
    (c : PipelineConfig) (w : World) (j : Job) (t : Option Bytes) (d : Driving)
    → let (d2, thrown) = answer c j w.at w.route w.llm d in
      let d' : Driving = elim t [
        | some what ↦ caught what d
        | none ↦ elim thrown [ some what ↦ caught what d2 | none ↦ speak_if_due c w j d2 ]
      ] in
      may_go_on j d' ≡ true → Spoke c w j d'
first-Spoke c w j none d =
    let said = answer c j w.at w.route w.llm d in last-Spoke c w j said.1 said.0
first-Spoke c w j (some what) d = caught-Spoke c w j what d

stages-Spoke :
    (c : PipelineConfig) (w : World) (j : Job) (input : PipelineInput) (d : Driving)
    → may_go_on j (stages c w j input d) ≡ true
    → Spoke c w j (stages c w j input d)
unfolding stages
stages-Spoke c w j input d =
    let heard = listen c j w.at w.files w.asr input d in first-Spoke c w j heard.1 heard.0

-- What a run returns.
abbrev pub IsRun :
    PipelineConfig → World → Job → PipelineInput → Driving → Pipeline × PipelineResult → Type 0
IsRun c w j input d (p, r) =
    (p.running ≡ false)
    × (((r.ok ≡ true) × (r.error ≡ []) × (r.cancelled ≡ false) × Spoke c w j (stages c w j input d))
        ⊎ ((r.ok ≡ false) × (r.error ≢ []) × (p.machine.state ≡ idle)))

refused-IsRun :
    (c : PipelineConfig) (w : World) (input : PipelineInput) (request_id : Bytes) (j : Job)
    (p : Pipeline)
    → let p0 = begin request_id p in
      let d = drive_from c request_id p0 in
      IsRun c w j input d (
        record p0 { running = false },
        record d.result { error = utf8 "音频输出打开失败: " ++ make_wav_path c request_id },
      )
unfolding begin drive_from no_result utf8
refused-IsRun c w input request_id j p = (refl, inr (refl, λ e. cc, refl))

whole-IsRun :
    (c : PipelineConfig) (w : World) (j : Job) (input : PipelineInput) (d : Driving)
    → d.result.ok ≡ false
    → IsRun c w j input d (conclude c w j (stages c w j input d))
whole-IsRun c w j input d o =
    let (stopped, end) =
      conclude-Ends c w j (stages c w j input d) (ap (λ f. f.0) (stages-flags c w j input d) ∙ o) in
    (
      stopped,
      elim end [
        | inl (s, error, cancelled, before) ↦
            inl (s, error, cancelled, stages-Spoke c w j input d before)
        | inr failed ↦ inr failed
      ],
    )

-- A run that no other is in the way of is not running any more when it returns. If it is `ok`, it has
-- no error and was not cancelled when the verdict was due, and the worker threads were started, at
-- a time when there was no error, no cancel and no time-out, and were joined. If it is not `ok`, it
-- has an error, and the machine is idle. This holds whatever the back ends, the router, the sink,
-- the clock and other threads' calls to `cancel` do.
pub run-IsRun :
    (c : PipelineConfig) (w : World) (input : PipelineInput) (request_id : Bytes) (deadline : ℤ)
    (p : Pipeline)
    → p.running ≡ false
    → let (p', r) = run c w input request_id deadline p in
      let p0 = begin request_id p in
      let j = job_of request_id deadline p0 in
      IsRun c w j input (drive_from c request_id p0) (p', r)
unfolding run drive_from no_result
run-IsRun c w input request_id deadline p n =
    let p0 = begin request_id p in
    let j = job_of request_id deadline p0 in
    let d = drive_from c request_id p0 in
    let whole = conclude c w j (stages c w j input d) in
    let refused : Pipeline × PipelineResult = (
      record p0 { running = false },
      record d.result { error = utf8 "音频输出打开失败: " ++ make_wav_path c request_id },
    ) in
    let rest = if not w.sink_opens then refused else whole in
    let body = if_false p.running (p, record no_result { error = utf8 "已有在途会话（单流）" }) rest n in
    elim (Bool-cases (not w.sink_opens)) [
      | inl e ↦
          subst (IsRun c w j input d) (sym (body ∙ if_true (not w.sink_opens) refused whole e))
            (refused-IsRun c w input request_id j p)
      | inr e ↦
          subst (IsRun c w j input d) (sym (body ∙ if_false (not w.sink_opens) refused whole e))
            (whole-IsRun c w j input d refl)
    ]
