-- ===== src/SessionPipeline/Verdict.antt =====
-- How a run ends.
use mathlib.Core.Bool.{true≢false}
use vox_orchestra.Prelude.{
  ℕ, ◌-◌, ltb, ◌≡◌, ◌≢◌, ◌⊎◌, inl, inr, refl, sym, ap, ◌∙◌, subst, Bool, true, false, not, ◌&&◌, [],
  ◌∷◌, Bool-cases, if◌then◌else◌, Bytes, utf8,
}
use vox_orchestra.SessionState.{idle, cancel, cancel_complete}
use vox_orchestra.SessionPipeline.{
  PipelineConfig, PipelineResult, Pipeline, send, happen, Job, timed_out, at_padding, at_close,
  at_verdict, at_failure, at_cancel_complete, Driving, is_empty, may_go_on, moved, fails,
}
use vox_orchestra.SessionPipeline.Flags.{flags}
use vox_orchestra.SessionPipeline.Moments.{settled, happen-before, not_timed_out}
use vox_orchestra.SessionPipeline.Run.{
  World, padded, mark_cancelled, may_succeed, succeed, verdict, report, cleaned, pad, min_frames,
  conclude,
}

-- The end that is reported as a success.
abbrev Succeeds : Job → Driving → Driving → Type 0
Succeeds j d d' =
    (d'.result.ok ≡ true)
    × (d'.result.error ≡ [])
    × (d'.result.cancelled ≡ false)
    × (may_go_on j d ≡ true)

is_empty_eq : (e : Bytes) → is_empty e ≡ true → e ≡ []
unfolding is_empty
is_empty_eq [] h = refl
is_empty_eq (c ∷ cs) h = absurd (true≢false (sym h))

succeed_lem :
    (w : World) (d : Driving)
    → d.result.ok ≡ false
    → ((succeed w d).result.ok ≡ false)
      ⊎ (((succeed w d).result.ok ≡ true)
          × ((succeed w d).result.error ≡ d.result.error)
          × ((succeed w d).result.cancelled ≡ d.result.cancelled))
unfolding succeed moved fails
succeed_lem w d o = elim (Bool-cases w.sink_closes) [
  | inl e ↦ inr (rw e (refl, refl, refl))
  | inr e ↦ inl (rw e o)
]

mark_cancelled_lem :
    (d : Driving)
    → ((mark_cancelled d).result.ok ≡ d.result.ok)
      × ((mark_cancelled d).result.error ≡ d.result.error)
      × ((mark_cancelled d).pipeline ≡ d.pipeline)
      × ((mark_cancelled d).result.cancelled ≡ false → d.pipeline.cancelled ≡ false)
unfolding mark_cancelled
mark_cancelled_lem d = elim (Bool-cases d.pipeline.cancelled) [
  | inl e ↦ rw e (refl, refl, refl, λ h. h)
  | inr e ↦ rw e (refl, refl, refl, λ h. refl)
]

three : (a b c : Bool) → (a && not b && not c) ≡ true → (a ≡ true) × (b ≡ false) × (c ≡ false)
three true false false h = (refl, refl, refl)
three true false true h = absurd (true≢false (sym h))
three true true c h = absurd (true≢false (sym h))
three false b c h = absurd (true≢false (sym h))

go_on_lem :
    (j : Job) (d : Driving)
    → is_empty d.result.error ≡ true
    → d.pipeline.cancelled ≡ false
    → timed_out j d.pipeline ≡ false
    → may_go_on j d ≡ true
unfolding may_go_on
go_on_lem j d e c t = rw (e, c, t) refl

-- A run that may succeed at the end could go on before.
may_succeed-before :
    (w : World) (j : Job) (d : Driving)
    → let d1 = mark_cancelled (moved (happen (w.at at_close)) d) in
      let d2 = moved (happen (w.at at_verdict)) d1 in
      may_succeed j d2 ≡ true
      → (may_go_on j d ≡ true) × (d2.result.error ≡ []) × (d2.result.cancelled ≡ false)
unfolding may_succeed moved
may_succeed-before w j d h =
    let d0 = moved (happen (w.at at_close)) d in
    let d1 = mark_cancelled d0 in
    let (same_ok, same_error, same_pipeline, unmarked) = mark_cancelled_lem d0 in
    let (e, c, t) =
      three (is_empty d1.result.error) d1.result.cancelled
        (timed_out j (happen (w.at at_verdict) d1.pipeline)) h in
    let in_time =
      ap (timed_out j) (sym same_pipeline) ∙ not_timed_out j (w.at at_verdict) d1.pipeline t in
    let (active, early) = happen-before j (w.at at_close) d.pipeline (unmarked c) in_time in
    (
      go_on_lem j d (ap is_empty (sym same_error) ∙ e) active early,
      is_empty_eq d1.result.error e,
      c,
    )

pub if_true : {A : Type 0} (t : Bool) (x y : A) → t ≡ true → (if t then x else y) ≡ x
if_true true x y e = refl
if_true false x y e = absurd (true≢false (sym e))

pub if_false : {A : Type 0} (t : Bool) (x y : A) → t ≡ false → (if t then x else y) ≡ y
if_false false x y e = refl
if_false true x y e = absurd (true≢false e)

-- The run when the verdict is due.
abbrev due : World → Driving → Driving
due w d = moved (happen (w.at at_verdict)) (mark_cancelled (moved (happen (w.at at_close)) d))

still_open : (w : World) (d : Driving) → d.result.ok ≡ false → (due w d).result.ok ≡ false
unfolding moved
still_open w d o = (mark_cancelled_lem (moved (happen (w.at at_close)) d)).0 ∙ o

verdict-Succeeds :
    (w : World) (j : Job) (d : Driving)
    → d.result.ok ≡ false
    → ((verdict w j d).result.ok ≡ false) ⊎ Succeeds j d (verdict w j d)
unfolding verdict
verdict-Succeeds w j d o =
    let d2 = due w d in
    elim (Bool-cases (may_succeed j d2)) [
      | inr e ↦ inl (
          ap (λ x. x.result.ok) (if_false (may_succeed j d2) (succeed w d2) d2 e)
          ∙ still_open w d o)
      | inl e ↦
          let same = if_true (may_succeed j d2) (succeed w d2) d2 e in
          let (before, no_error, no_cancel) = may_succeed-before w j d e in
          elim (succeed_lem w d2 (still_open w d o)) [
            | inl f ↦ inl (ap (λ x. x.result.ok) same ∙ f)
            | inr (s, error, cancelled) ↦ inr (
              ap (λ x. x.result.ok) same ∙ s,
              ap (λ x. x.result.error) same ∙ error ∙ no_error,
              ap (λ x. x.result.cancelled) same ∙ cancelled ∙ no_cancel,
              before,
            )
          ]
    ]

is_empty_ne : (e : Bytes) → is_empty e ≡ false → e ≢ []
unfolding is_empty
is_empty_ne [] h = λ _. true≢false h
is_empty_ne (c ∷ cs) h = λ e. cc

report_lem :
    (j : Job) (d : Driving)
    → ((report j d).result.ok ≡ d.result.ok) × ((report j d).result.error ≢ [])
unfolding report fails utf8
report_lem j d = elim (Bool-cases (is_empty d.result.error)) [
  | inr e ↦ rw (report, e) (refl, is_empty_ne d.result.error e)
  | inl e ↦ elim (Bool-cases (timed_out j d.pipeline)) [
    | inl t ↦ rw (report, e, t) (refl, λ x. cc)
    | inr t ↦ rw (report, e, t) (refl, λ x. cc)
  ]
]

-- A run that has no success is given an error, and leaves the machine idle.
cleaned_lem :
    (w : World) (j : Job) (d : Driving)
    → d.result.ok ≡ false
    → ((cleaned w j d).result.ok ≡ false)
      × ((cleaned w j d).result.error ≢ [])
      × ((cleaned w j d).pipeline.machine.state ≡ idle)
unfolding cleaned moved
cleaned_lem w j d o =
    let d0 = report j (moved (happen (w.at at_failure)) d) in
    let (kept, error) = report_lem j (moved (happen (w.at at_failure)) d) in
    let back : Pipeline → Pipeline =
      λ p. send cancel_complete (happen (w.at at_cancel_complete) (send cancel p)) in
    let same = if_false d.result.ok d (moved back d0) o in
    (
      ap (λ x. x.result.ok) same ∙ kept ∙ o,
      subst (λ x. x.result.error ≢ []) (sym same) error,
      ap (λ x. x.pipeline.machine.state) same ∙ settled (w.at at_cancel_complete) d0.pipeline,
    )

pad_part :
    (c : PipelineConfig) (w : World) (j : Job) (d : Driving) (t : Bool) (n : ℕ)
    → let d' = if t then record d { result = record d.result { pcm_frames = n } } else d in
      (flags d' ≡ flags d) × (d'.result.error ≡ d.result.error) × (d'.pipeline ≡ d.pipeline)
pad_part c w j d true n = (refl, refl, refl)
pad_part c w j d false n = (refl, refl, refl)

padded_lem :
    (c : PipelineConfig) (w : World) (j : Job) (d : Driving)
    → (flags (padded c w j d) ≡ flags d)
      × (may_go_on j (padded c w j d) ≡ true → may_go_on j d ≡ true)
unfolding padded moved may_go_on
padded_lem c w j d =
    let d0 = moved (happen (w.at at_padding)) d in
    let (kept, error, pipeline) =
      pad_part c w j d0 (may_go_on j d0 && ltb 0 c.tts_min_duration)
        (pad w.pads (min_frames c - d0.result.pcm_frames) d0.result.pcm_frames) in
    (
      kept,
      λ h.
          let (e, x, t) =
            three (is_empty (padded c w j d).result.error) (padded c w j d).pipeline.cancelled
              (timed_out j (padded c w j d).pipeline) h in
          let (active, early) =
            happen-before j (w.at at_padding) d.pipeline (ap (λ p. p.cancelled) (sym pipeline) ∙ x)
              (ap (timed_out j) (sym pipeline) ∙ t) in
          go_on_lem j d (ap is_empty (sym error) ∙ e) active early,
    )

abbrev pub Ends : Job → Driving → Pipeline × PipelineResult → Type 0
Ends j d (p, r) =
    (p.running ≡ false)
    × (((r.ok ≡ true) × (r.error ≡ []) × (r.cancelled ≡ false) × (may_go_on j d ≡ true))
        ⊎ ((r.ok ≡ false) × (r.error ≢ []) × (p.machine.state ≡ idle)))

pub conclude-Ends :
    (c : PipelineConfig) (w : World) (j : Job) (d : Driving)
    → d.result.ok ≡ false
    → Ends j d (conclude c w j d)
unfolding conclude
conclude-Ends c w j d o =
    let d1 = padded c w j d in
    let d2 = verdict w j d1 in
    let (kept, back) = padded_lem c w j d in
    (
      refl,
      elim (verdict-Succeeds w j d1 (ap (λ f. f.0) kept ∙ o)) [
        | inl f ↦ inr (cleaned_lem w j d2 f)
        | inr (s, error, cancelled, before) ↦
            let same = if_true d2.result.ok d2 _ s in
            inl (
              ap (λ x. x.result.ok) same ∙ s,
              ap (λ x. x.result.error) same ∙ error,
              ap (λ x. x.result.cancelled) same ∙ cancelled,
              back before,
            )
      ],
    )
