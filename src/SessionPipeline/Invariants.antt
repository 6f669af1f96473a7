-- ===== src/SessionPipeline/Invariants.antt =====
-- What holds of the worker threads at every step.
use vox_orchestra.Prelude.{
  ℕ, ◌+◌, ◌≤◌, ◌≡◌, inl, inr, refl, sym, subst, ◌∙◌, Bool, true, false, none, some, List, [], ◌∷◌,
  Bytes, arith, Bool-cases, ◌&&◌, ap,
}
use mathlib.Core.Bool.{true≢false}
use vox_orchestra.BoundedQueue.{Queue, close}
use vox_orchestra.BoundedQueue.Invariant.{IsValid}
use vox_orchestra.SessionPipeline.{Job, is_active}
use vox_orchestra.SessionPipeline.Queues.{
  an_entry, no_entry, the_end, pops, gone_in, no_room, shut, pushes, push_timeout-IsValid,
  pop_timeout-IsValid, close-IsValid,
}
use vox_orchestra.SessionPipeline.Turns.{driver_work}
use vox_orchestra.SessionPipeline.Speak.{
  Voice, Talker, t_waiting, t_done, t_has, t_speaking, t_pushing, Writer, w_waiting, w_done, w_has,
  w_writing, Driver, d_open, d_text_closed, d_pcm_closed, d_joined, Speaking, Step, happens, talks,
  writes, drives, work, step, talk, write, drive, took, frame_took, frame_pushed, said, talker_done,
  writer_done, is_pcm,
}

-- The queues are valid, and what the driving thread has closed and joined is closed and gone.
pub record IsSound (s : Speaking) : Type 0 where
  pub text : IsValid s.text_queue
  pub pcm : IsValid s.pcm_queue
  pub text_shut : driver_work s.driver ≤ 2 → s.text_queue.is_closed ≡ true
  pub pcm_shut : driver_work s.driver ≤ 1 → s.pcm_queue.is_closed ≡ true
  pub talked : driver_work s.driver ≤ 1 → talker_done s.talker ≡ true
  pub wrote : driver_work s.driver ≤ 0 → writer_done s.writer ≡ true
  pub joins : s.pcm_queue.is_closed ≡ true → driver_work s.driver ≤ 1
  pub writing : writer_done s.writer ≡ true → driver_work s.driver ≤ 1

-- The thread of the synthesiser moves on, with the queues valid.
move_talker :
    (s : Speaking) (q : Queue Bytes) (r : Queue (List ℕ)) (t : Talker) (n k : ℕ) (e : Bytes)
    → IsSound s
    → talker_done s.talker ≡ false
    → IsValid q
    → IsValid r
    → q.is_closed ≡ s.text_queue.is_closed
    → r.is_closed ≡ s.pcm_queue.is_closed
    → IsSound (record s {
      text_queue = q;
      pcm_queue = r;
      talker = t;
      taken = n;
      dropped_pcm_frames = k;
      error = e;
    })
move_talker s q r t n k e v h vq vr cq cr = record {
  text = vq;
  pcm = vr;
  text_shut = λ d. cq ∙ v.text_shut d;
  pcm_shut = λ d. cr ∙ v.pcm_shut d;
  talked = λ d. absurd (true≢false (sym (v.talked d) ∙ h));
  wrote = v.wrote;
  joins = λ c. v.joins (sym cr ∙ c);
  writing = v.writing;
}

-- So does the thread of the output.
move_writer :
    (s : Speaking) (r : Queue (List ℕ)) (w : Writer) (xs : List (List ℕ)) (n : ℕ)
    → IsSound s
    → writer_done s.writer ≡ false
    → IsValid r
    → r.is_closed ≡ s.pcm_queue.is_closed
    → (writer_done w ≡ true → s.pcm_queue.is_closed ≡ true)
    → IsSound (record s { pcm_queue = r; writer = w; written = xs; pcm_frames = n })
move_writer s r w xs n v h vr cr end = record {
  text = v.text;
  pcm = vr;
  text_shut = v.text_shut;
  pcm_shut = λ d. cr ∙ v.pcm_shut d;
  talked = v.talked;
  wrote = λ d. absurd (true≢false (sym (v.wrote d) ∙ h));
  joins = λ c. v.joins (sym cr ∙ c);
  writing = λ e. v.joins (end e);
}

talk-IsSound :
    (tts : Voice) (j : Job) (g : Bool) (t : Talker) (s : Speaking)
    → s.talker ≡ t
    → IsSound s
    → IsSound (talk tts j g t s)
unfolding talk took frame_pushed said talker_done
talk-IsSound tts j g t_waiting s e v = elim (pops s.text_queue) [
  | an_entry a rest i f ↦ rw f (
      move_talker s _ s.pcm_queue (t_has s.taken a) (s.taken + 1) _ _ v (ap talker_done e)
        (subst (λ r. IsValid r.0) f (pop_timeout-IsValid s.text_queue v.text)) v.pcm refl refl)
  | no_entry i c f ↦ rw f v
  | the_end i c f ↦ rw f (
      move_talker s s.text_queue s.pcm_queue t_done _ _ _ v (ap talker_done e) v.text v.pcm refl
        refl)
]
talk-IsSound tts j g (t_has n x) s e v = elim (Bool-cases (is_active j s.pipeline)) [
  | inl a ↦ rw a (
      move_talker s _ _ (t_speaking (tts n x).0 (tts n x).1) _ _ _ v (ap talker_done e) v.text v.pcm
        refl refl)
  | inr a ↦ rw a (move_talker s _ _ t_waiting _ _ _ v (ap talker_done e) v.text v.pcm refl refl)
]
talk-IsSound tts j g (t_speaking [] none) s e v =
    move_talker s _ _ t_waiting _ _ _ v (ap talker_done e) v.text v.pcm refl refl
talk-IsSound tts j g (t_speaking [] (some what)) s e v =
    move_talker s _ _ t_done _ _ _ v (ap talker_done e) v.text v.pcm refl refl
talk-IsSound tts j g (t_speaking (b ∷ es) thrown) s e v =
    elim (Bool-cases (is_active j s.pipeline && is_pcm b.kind)) [
      | inl a ↦ rw a (
          move_talker s _ _ (t_pushing b.pcm es thrown) _ _ _ v (ap talker_done e) v.text v.pcm refl
            refl)
      | inr a ↦ rw a (
          move_talker s _ _ (t_speaking es thrown) _ _ _ v (ap talker_done e) v.text v.pcm refl
            refl)
    ]
talk-IsSound tts j g (t_pushing frame es thrown) s e v = elim (pushes frame s.pcm_queue) [
  | gone_in q' room items size still f ↦ rw f (
      move_talker s _ q' (t_speaking es thrown) _ _ _ v (ap talker_done e) v.text
        (subst (λ r. IsValid r.0) f (push_timeout-IsValid frame s.pcm_queue v.pcm)) refl still)
  | no_room h f ↦ rw f (elim (Bool-cases g) [
    | inl a ↦
        rw a (
          move_talker s _ _ (t_speaking es thrown) _ _ _ v (ap talker_done e) v.text v.pcm refl
            refl)
    | inr a ↦ rw a v
  ])
  | shut c f ↦
      rw f
        (move_talker s _ _ (t_speaking es thrown) _ _ _ v (ap talker_done e) v.text v.pcm refl refl)
]
talk-IsSound tts j g t_done s e v = v

write-IsSound :
    (j : Job) (b : Bool) (w : Writer) (s : Speaking)
    → s.writer ≡ w
    → IsSound s
    → IsSound (write j b w s)
unfolding write frame_took writer_done
write-IsSound j b w_waiting s e v = elim (pops s.pcm_queue) [
  | an_entry a rest i f ↦ rw f (
      move_writer s _ (w_has a) _ _ v (ap writer_done e)
        (subst (λ r. IsValid r.0) f (pop_timeout-IsValid s.pcm_queue v.pcm)) refl
        (λ d. absurd (true≢false (sym d))))
  | no_entry i c f ↦ rw f v
  | the_end i c f ↦ rw f (move_writer s _ w_done _ _ v (ap writer_done e) v.pcm refl (λ d. c))
]
write-IsSound j b (w_has frame) s e v = elim (Bool-cases (is_active j s.pipeline)) [
  | inl a ↦ rw a (
      move_writer s _ (w_writing frame) _ _ v (ap writer_done e) v.pcm refl
        (λ d. absurd (true≢false (sym d))))
  | inr a ↦ rw a (
      move_writer s _ w_waiting _ _ v (ap writer_done e) v.pcm refl
        (λ d. absurd (true≢false (sym d))))
]
write-IsSound j true (w_writing frame) s e v =
    move_writer s _ w_waiting _ _ v (ap writer_done e) v.pcm refl (λ d. absurd (true≢false (sym d)))
write-IsSound j false (w_writing frame) s e v =
    move_writer s _ w_waiting _ _ v (ap writer_done e) v.pcm refl (λ d. absurd (true≢false (sym d)))
write-IsSound j b w_done s e v = v

drive-IsSound : (d : Driver) (s : Speaking) → s.driver ≡ d → IsSound s → IsSound (drive d s)
unfolding drive driver_work close
drive-IsSound d_open s e v =
    let k = ap driver_work e in
    record {
      text = close-IsValid s.text_queue v.text;
      pcm = v.pcm;
      text_shut = λ d. refl;
      pcm_shut = λ d. absurd (omega (arith, d));
      talked = λ d. absurd (omega (arith, d));
      wrote = λ d. absurd (omega (arith, d));
      joins = λ c. absurd (omega (arith, v.joins c, k));
      writing = λ c. absurd (omega (arith, v.writing c, k));
    }
drive-IsSound d_text_closed s e v = elim (Bool-cases (talker_done s.talker)) [
  | inr f ↦ rw f v
  | inl f ↦ rw f (record {
    text = v.text;
    pcm = close-IsValid s.pcm_queue v.pcm;
    text_shut = λ d. v.text_shut (omega (arith, ap driver_work e));
    pcm_shut = λ d. refl;
    talked = λ d. f;
    wrote = λ d. absurd (omega (arith, d));
    joins = λ c. omega arith;
    writing = λ c. omega arith;
  })
]
drive-IsSound d_pcm_closed s e v = elim (Bool-cases (writer_done s.writer)) [
  | inr f ↦ rw f v
  | inl f ↦
      let k = ap driver_work e in
      rw f (record {
        text = v.text;
        pcm = v.pcm;
        text_shut = λ d. v.text_shut (omega (arith, k));
        pcm_shut = λ d. v.pcm_shut (omega (arith, k));
        talked = λ d. v.talked (omega (arith, k));
        wrote = λ d. f;
        joins = λ c. omega arith;
        writing = λ c. omega arith;
      })
]
drive-IsSound d_joined s e v = v

pub step-IsSound :
    (tts : Voice) (j : Job) (x : Step) (s : Speaking) → IsSound s → IsSound (step tts j x s)
unfolding step
step-IsSound tts j (happens m) s v = record {
  text = v.text;
  pcm = v.pcm;
  text_shut = v.text_shut;
  pcm_shut = v.pcm_shut;
  talked = v.talked;
  wrote = v.wrote;
  joins = v.joins;
  writing = v.writing;
}
step-IsSound tts j (talks g) s v = talk-IsSound tts j g s.talker s refl v
step-IsSound tts j (writes b) s v = write-IsSound j b s.writer s refl v
step-IsSound tts j drives s v = drive-IsSound s.driver s refl v

-- Over any schedule of the worker threads, the driving thread, calls to `cancel` and the clock, both
-- queues keep their sizes within their peaks and their peaks within their capacities, and the
-- threads are joined in order: the text queue is closed before the synthesiser's thread is joined,
-- the queue of frames only behind that join, and the thread of the output ends only when the queue
-- of frames is closed.
pub work-IsSound :
    (tts : Voice) (j : Job) (xs : List Step) (s : Speaking) → IsSound s → IsSound (work tts j xs s)
unfolding work
work-IsSound tts j [] s v = v
work-IsSound tts j (x ∷ xs) s v = work-IsSound tts j xs (step tts j x s) (step-IsSound tts j x s v)
