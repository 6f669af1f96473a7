-- ===== src/SessionPipeline/Late.antt =====
-- What a cancelled run still writes.
use vox_orchestra.Prelude.{
  ℕ, ◌≡◌, ◌⊎◌, inl, inr, refl, sym, ap, ap₂, ◌∙◌, Bool, true, false, List, [], ◌∷◌, ◌++◌,
  append-nil, Bool-cases, zero, suc, subst,
}
use vox_orchestra.SessionPipeline.{
  Pipeline, Moment, Outside, raises, notifies, happen, meet, raise, notify, send, sleep, Job,
  is_active, PipelineConfig, Driving, may_go_on, moved, is_empty, at_padding,
}
use vox_orchestra.SessionPipeline.Queues.{an_entry, no_entry, the_end, pops}
use vox_orchestra.SessionPipeline.Speak.{
  Voice, Writer, w_waiting, w_done, w_has, w_writing, Speaking, Step, happens, talks, writes,
  drives, work, step, write, frame_took,
}
use vox_orchestra.SessionPipeline.Turns.{measure, turn, turns, settle}
use vox_orchestra.SessionPipeline.Run.{World, padded, stop_speaking}
use vox_orchestra.SessionPipeline.Keeps.{talk_keeps, write_keeps, drive_keeps}

pub meet-cancelled :
    (os : List Outside) (p : Pipeline) → p.cancelled ≡ true → (meet os p).cancelled ≡ true
unfolding meet raise notify send
meet-cancelled [] p h = h
meet-cancelled (raises ∷ os) p h = meet-cancelled os (raise p) refl
meet-cancelled (notifies ∷ os) p h = meet-cancelled os (notify p) h

pub happen-cancelled :
    (m : Moment) (p : Pipeline) → p.cancelled ≡ true → (happen m p).cancelled ≡ true
unfolding happen sleep
happen-cancelled m p h = meet-cancelled m.others (sleep m.passes p) h

inactive : (j : Job) (p : Pipeline) → p.cancelled ≡ true → is_active j p ≡ false
unfolding is_active
inactive j p h = rw h refl

step-cancelled :
    (tts : Voice) (j : Job) (x : Step) (s : Speaking)
    → s.pipeline.cancelled ≡ true
    → (step tts j x s).pipeline.cancelled ≡ true
unfolding step
step-cancelled tts j (happens m) s h = happen-cancelled m s.pipeline h
step-cancelled tts j (talks g) s h =
    ap (λ p. p.cancelled) (talk_keeps tts j g s.talker s).pipeline ∙ h
step-cancelled tts j (writes b) s h =
    ap (λ p. p.cancelled) (write_keeps j b s.writer s).pipeline ∙ h
step-cancelled tts j drives s h = ap (λ p. p.cancelled) (drive_keeps s.driver s).pipeline ∙ h

-- The frame that has passed its test and is on its way to the sink.
unfoldable pub underway : Writer → List (List ℕ)
underway (w_writing frame) = frame ∷ []
underway _ = []

-- The frame is still underway, or it was written or not, and no other follows it.
abbrev Late : Speaking → Speaking → Type 0
Late s s' =
    ((s'.written ≡ s.written) × (underway s'.writer ≡ underway s.writer))
    ⊎ (((s'.written ≡ s.written) ⊎ (s'.written ≡ s.written ++ underway s.writer))
        × (underway s'.writer ≡ []))

write-Late :
    (j : Job) (b : Bool) (w : Writer) (s : Speaking)
    → s.writer ≡ w
    → s.pipeline.cancelled ≡ true
    → Late s (write j b w s)
unfolding write frame_took underway
write-Late j b w_waiting s e h = elim (pops s.pcm_queue) [
  | an_entry a rest i f ↦ inr (rw f (inl refl, refl))
  | no_entry i c f ↦ inl (rw f (refl, refl))
  | the_end i c f ↦ inr (rw f (inl refl, refl))
]
write-Late j b (w_has frame) s e h = inr (inl refl, rw (inactive j s.pipeline h) refl)
write-Late j true (w_writing frame) s e h =
    inr (inr (ap (λ w. s.written ++ underway w) (sym e)), refl)
write-Late j false (w_writing frame) s e h = inr (inl refl, refl)
write-Late j b w_done s e h = inl (refl, refl)

step-Late :
    (tts : Voice) (j : Job) (x : Step) (s : Speaking)
    → s.pipeline.cancelled ≡ true
    → Late s (step tts j x s)
unfolding step
step-Late tts j (happens m) s h = inl (refl, refl)
step-Late tts j (talks g) s h =
    let k = talk_keeps tts j g s.talker s in inl (k.written, ap underway k.writer)
step-Late tts j (writes b) s h = write-Late j b s.writer s refl h
step-Late tts j drives s h = let k = drive_keeps s.driver s in inl (k.written, ap underway k.writer)

work-Late :
    (tts : Voice) (j : Job) (xs : List Step) (s : Speaking)
    → s.pipeline.cancelled ≡ true
    → ((work tts j xs s).written ≡ s.written)
      ⊎ ((work tts j xs s).written ≡ s.written ++ underway s.writer)
unfolding work
work-Late tts j [] s h = inl refl
work-Late tts j (x ∷ xs) s h =
    let s' = step tts j x s in
    let later = work-Late tts j xs s' (step-cancelled tts j x s h) in
    elim (step-Late tts j x s h) [
      | inl (e, u) ↦ elim later [ inl l ↦ inl (l ∙ e) | inr l ↦ inr (l ∙ ap₂ (λ a b. a ++ b) e u) ]
      | inr (e, u) ↦
          let unchanged : (work tts j xs s').written ≡ s'.written = elim later [
            | inl l ↦ l
            | inr l ↦ l ∙ ap (λ ys. s'.written ++ ys) u ∙ append-nil s'.written
          ] in
          elim e [ inl f ↦ inl (unchanged ∙ f) | inr f ↦ inr (unchanged ∙ f) ]
    ]

work-cancelled :
    (tts : Voice) (j : Job) (xs : List Step) (s : Speaking)
    → s.pipeline.cancelled ≡ true
    → (work tts j xs s).pipeline.cancelled ≡ true
unfolding work
work-cancelled tts j [] s h = h
work-cancelled tts j (x ∷ xs) s h = work-cancelled tts j xs _ (step-cancelled tts j x s h)

no_more : (j : Job) (d : Driving) → d.pipeline.cancelled ≡ true → may_go_on j d ≡ false
unfolding may_go_on
no_more j d h = elim (Bool-cases (is_empty d.result.error)) [
  | inl e ↦ rw (may_go_on, e, h) refl
  | inr e ↦ rw (may_go_on, e) refl
]

-- A cancelled run adds no silence.
padded-cancelled :
    (c : PipelineConfig) (w : World) (j : Job) (d : Driving)
    → d.pipeline.cancelled ≡ true
    → (padded c w j d).result.pcm_frames ≡ d.result.pcm_frames
unfolding padded moved may_go_on
padded-cancelled c w j d h =
    let d0 = moved (happen (w.at at_padding)) d in
    rw (padded, no_more j d0 (happen-cancelled (w.at at_padding) d.pipeline h)) refl

work-append :
    (tts : Voice) (j : Job) (xs ys : List Step) (s : Speaking)
    → work tts j ys (work tts j xs s) ≡ work tts j (xs ++ ys) s
unfolding work
work-append tts j [] ys s = refl
work-append tts j (x ∷ xs) ys s = work-append tts j xs ys (step tts j x s)

-- The turns that end the threads are steps like others.
turns_steps :
    (tts : Voice) (j : Job) (n : ℕ) (s : Speaking)
    → (ys : List Step) × (turns tts j n s ≡ work tts j ys s)
unfolding turns work
turns_steps tts j zero s = ([], refl)
turns_steps tts j (suc n) s =
    let (ys, e) = turns_steps tts j n (work tts j turn s) in
    (turn ++ ys, e ∙ work-append tts j turn ys s)

-- After a `cancel` that comes before the worker threads are joined, whatever these do and when until
-- they are, what the sink has been given grows by one frame at most: the one that the thread of the
-- output had found active just before, and was about to write. The driving thread then finds the run
-- cancelled and adds no silence.
pub work_late :
    (c : PipelineConfig) (w : World) (j : Job) (xs : List Step) (s : Speaking) (d : Driving)
    → s.pipeline.cancelled ≡ true
    → let s' = settle w.tts j (work w.tts j xs s) in
      ((s'.written ≡ s.written) ⊎ (s'.written ≡ s.written ++ underway s.writer))
      × ((padded c w j (stop_speaking s' d)).result.pcm_frames ≡ s'.pcm_frames)
unfolding stop_speaking settle
work_late c w j xs s d h =
    let t = work w.tts j xs s in
    let (ys, e) = turns_steps w.tts j (measure w.tts t) t in
    let same : work w.tts j (xs ++ ys) s ≡ settle w.tts j t =
      sym (e ∙ work-append w.tts j xs ys s) in
    subst
      (λ s'.
        ((s'.written ≡ s.written) ⊎ (s'.written ≡ s.written ++ underway s.writer))
        × ((padded c w j (stop_speaking s' d)).result.pcm_frames ≡ s'.pcm_frames))
      same
      (
        work-Late w.tts j (xs ++ ys) s h,
        padded-cancelled c w j (stop_speaking (work w.tts j (xs ++ ys) s) d)
            (work-cancelled w.tts j (xs ++ ys) s h),
      )
