-- ===== src/SessionPipeline/Progress.antt =====
-- The worker threads end.
use vox_orchestra.Prelude.{
  ℕ, zero, suc, ◌≤◌, ◌<◌, ◌≡◌, ◌⊎◌, inl, inr, refl, sym, subst, ap, ◌∙◌, Bool, true, false, ◌&&◌,
  none, some, List, [], ◌∷◌, length, length-append, arith, Bool-cases,
}
use mathlib.Core.Bool.{true≢false}
use vox_orchestra.BoundedQueue.{close}
use vox_orchestra.SessionPipeline.{Job, is_active}
use vox_orchestra.SessionPipeline.Queues.{
  an_entry, no_entry, the_end, pops, gone_in, no_room, shut, pushes,
}
use vox_orchestra.SessionPipeline.Speak.{
  Voice, Talker, t_waiting, t_done, t_has, t_speaking, t_pushing, Writer, w_waiting, w_done, w_has,
  w_writing, Driver, d_open, d_text_closed, d_pcm_closed, d_joined, Speaking, Step, work, step,
  talk, write, drive, took, frame_took, frame_pushed, said, talker_done, writer_done, is_pcm,
}
use vox_orchestra.SessionPipeline.Turns.{
  sentence_work, talker_work, writer_work, driver_work, measure, turn, turns, settle,
}
use vox_orchestra.SessionPipeline.Keeps.{talk_keeps, write_keeps}
use vox_orchestra.SessionPipeline.Invariants.{IsSound, work-IsSound}

-- A thread cannot move: its queue is empty and open, or full, or it has ended.
abbrev IsStuck : Talker → Speaking → Type 0
IsStuck t_waiting s = s.text_queue.is_closed ≡ false
IsStuck t_done s = Unit
IsStuck (t_has n x) s = ⊥
IsStuck (t_speaking es thrown) s = ⊥
IsStuck (t_pushing frame es thrown) s = s.pcm_queue.capacity ≤ s.pcm_queue.size

-- A step of the synthesiser's thread takes something off the work, or changes nothing.
talk-measure :
    (tts : Voice) (j : Job) (g : Bool) (t : Talker) (s : Speaking)
    → s.talker ≡ t
    → (measure tts (talk tts j g t s) < measure tts s) ⊎ ((talk tts j g t s ≡ s) × IsStuck t s)
unfolding talk took frame_pushed said measure sentence_work talker_work
talk-measure tts j g t_waiting s e = elim (pops s.text_queue) [
  | an_entry a rest i f ↦
      inl (rw f (omega (arith, ap (sentence_work tts s.taken) i, ap (talker_work tts) e)))
  | no_entry i c f ↦ inr (rw f (refl, c))
  | the_end i c f ↦ inl (rw f (omega (arith, ap (talker_work tts) e)))
]
talk-measure tts j g (t_has n x) s e = elim (Bool-cases (is_active j s.pipeline)) [
  | inl a ↦ inl (rw a (omega (arith, ap (talker_work tts) e)))
  | inr a ↦ inl (rw a (omega (arith, ap (talker_work tts) e)))
]
talk-measure tts j g (t_speaking [] none) s e = inl (omega (arith, ap (talker_work tts) e))
talk-measure tts j g (t_speaking [] (some what)) s e = inl (omega (arith, ap (talker_work tts) e))
talk-measure tts j g (t_speaking (b ∷ es) thrown) s e =
    elim (Bool-cases (is_active j s.pipeline && is_pcm b.kind)) [
      | inl a ↦ inl (rw a (omega (arith, ap (talker_work tts) e)))
      | inr a ↦ inl (rw a (omega (arith, ap (talker_work tts) e)))
    ]
talk-measure tts j g (t_pushing frame es thrown) s e = elim (pushes frame s.pcm_queue) [
  | gone_in q' room items size still f ↦ inl (
      rw f (
        omega (
          arith,
          ap (talker_work tts) e,
          ap length items,
          length-append s.pcm_queue.items (frame ∷ []),
        )))
  | no_room h f ↦ elim (Bool-cases g) [
    | inl a ↦ inl (rw (f, a) (omega (arith, ap (talker_work tts) e)))
    | inr a ↦ inr (rw (f, a) (refl, h))
  ]
  | shut c f ↦ inl (rw f (omega (arith, ap (talker_work tts) e)))
]
talk-measure tts j g t_done s e = inr (refl, tt)

abbrev IsIdle : Writer → Speaking → Type 0
IsIdle w_waiting s = (s.pcm_queue.items ≡ []) × (s.pcm_queue.is_closed ≡ false)
IsIdle w_done s = Unit
IsIdle (w_has frame) s = ⊥
IsIdle (w_writing frame) s = ⊥

write-measure :
    (tts : Voice) (j : Job) (b : Bool) (w : Writer) (s : Speaking)
    → s.writer ≡ w
    → (measure tts (write j b w s) < measure tts s) ⊎ ((write j b w s ≡ s) × IsIdle w s)
unfolding write frame_took measure writer_work
write-measure tts j b w_waiting s e = elim (pops s.pcm_queue) [
  | an_entry a rest i f ↦ inl (rw f (omega (arith, ap length i, ap writer_work e)))
  | no_entry i c f ↦ inr (rw f (refl, (i, c)))
  | the_end i c f ↦ inl (rw f (omega (arith, ap writer_work e)))
]
write-measure tts j b (w_has frame) s e = elim (Bool-cases (is_active j s.pipeline)) [
  | inl a ↦ inl (rw a (omega (arith, ap writer_work e)))
  | inr a ↦ inl (rw a (omega (arith, ap writer_work e)))
]
write-measure tts j true (w_writing frame) s e = inl (omega (arith, ap writer_work e))
write-measure tts j false (w_writing frame) s e = inl (omega (arith, ap writer_work e))
write-measure tts j b w_done s e = inr (refl, tt)

-- The driving thread waits, for a thread that has not ended.
abbrev IsWaiting : Driver → Speaking → Type 0
IsWaiting d_open s = ⊥
IsWaiting d_text_closed s = talker_done s.talker ≡ false
IsWaiting d_pcm_closed s = writer_done s.writer ≡ false
IsWaiting d_joined s = Unit

drive-measure :
    (tts : Voice) (d : Driver) (s : Speaking)
    → s.driver ≡ d
    → (measure tts (drive d s) < measure tts s) ⊎ ((drive d s ≡ s) × IsWaiting d s)
unfolding drive measure driver_work close
drive-measure tts d_open s e = inl (omega (arith, ap driver_work e))
drive-measure tts d_text_closed s e = elim (Bool-cases (talker_done s.talker)) [
  | inl a ↦ inl (rw a (omega (arith, ap driver_work e)))
  | inr a ↦ inr (rw a (refl, refl))
]
drive-measure tts d_pcm_closed s e = elim (Bool-cases (writer_done s.writer)) [
  | inl a ↦ inl (rw a (omega (arith, ap driver_work e)))
  | inr a ↦ inr (rw a (refl, refl))
]
drive-measure tts d_joined s e = inr (refl, tt)

-- Not all threads can be where they cannot move, unless all are joined.
not_all_wait :
    (t : Talker) (w : Writer) (d : Driver) (s : Speaking)
    → s.talker ≡ t
    → s.writer ≡ w
    → s.driver ≡ d
    → IsSound s
    → IsStuck t s
    → IsIdle w s
    → IsWaiting d s
    → d ≡ d_joined
unfolding driver_work talker_done writer_done
not_all_wait t w d_joined s et ew ed v st id wa = refl
not_all_wait t_waiting w d_text_closed s et ew ed v st id wa =
    absurd (true≢false (sym (v.text_shut (omega (arith, ap driver_work ed))) ∙ st))
not_all_wait t_done w d_text_closed s et ew ed v st id wa =
    absurd (true≢false (sym (ap talker_done et) ∙ wa))
not_all_wait (t_pushing frame es thrown) w_waiting d_text_closed s et ew ed v st id wa =
    absurd (omega (arith, st, ap length id.0, v.pcm.counted, v.pcm.room))
not_all_wait (t_pushing frame es thrown) w_done d_text_closed s et ew ed v st id wa =
    absurd (omega (arith, v.writing (ap writer_done ew), ap driver_work ed))
not_all_wait t w_waiting d_pcm_closed s et ew ed v st id wa =
    absurd (true≢false (sym (v.pcm_shut (omega (arith, ap driver_work ed))) ∙ id.1))
not_all_wait t w_done d_pcm_closed s et ew ed v st id wa =
    absurd (true≢false (sym (ap writer_done ew) ∙ wa))
not_all_wait t w d_open s et ew ed v st id wa = elim wa [ ]
not_all_wait (t_has _ _) w d_text_closed s et ew ed v st id wa = elim st [ ]
not_all_wait (t_speaking _ _) w d_text_closed s et ew ed v st id wa = elim st [ ]
not_all_wait (t_pushing frame es thrown) (w_has _) d_text_closed s et ew ed v st id wa = elim id [ ]
not_all_wait (t_pushing frame es thrown) (w_writing _) d_text_closed s et ew ed v st id wa =
    elim id [ ]
not_all_wait t (w_has _) d_pcm_closed s et ew ed v st id wa = elim id [ ]
not_all_wait t (w_writing _) d_pcm_closed s et ew ed v st id wa = elim id [ ]

-- A step never adds to the work.
talks-le :
    (tts : Voice) (j : Job) (g : Bool) (s : Speaking)
    → measure tts (talk tts j g s.talker s) ≤ measure tts s
talks-le tts j g s = elim (talk-measure tts j g s.talker s refl) [
  | inl h ↦ omega (arith, h)
  | inr h ↦ omega (arith, ap (measure tts) h.0)
]

writes-le :
    (tts : Voice) (j : Job) (b : Bool) (s : Speaking)
    → measure tts (write j b s.writer s) ≤ measure tts s
writes-le tts j b s = elim (write-measure tts j b s.writer s refl) [
  | inl h ↦ omega (arith, h)
  | inr h ↦ omega (arith, ap (measure tts) h.0)
]

drives-le : (tts : Voice) (s : Speaking) → measure tts (drive s.driver s) ≤ measure tts s
drives-le tts s = elim (drive-measure tts s.driver s refl) [
  | inl h ↦ omega (arith, h)
  | inr h ↦ omega (arith, ap (measure tts) h.0)
]

driven-lt :
    (tts : Voice) (s : Speaking)
    → IsSound s
    → IsStuck s.talker s
    → IsIdle s.writer s
    → (s.driver ≡ d_joined) ⊎ (measure tts (drive s.driver s) < measure tts s)
driven-lt tts s v st id = elim (drive-measure tts s.driver s refl) [
  | inl h ↦ inr h
  | inr h ↦ inl (not_all_wait s.talker s.writer s.driver s refl refl refl v st id h.1)
]

written-lt :
    (tts : Voice) (j : Job) (s : Speaking)
    → IsSound s
    → IsStuck s.talker s
    → let s' = write j true s.writer s in
      (s.driver ≡ d_joined) ⊎ (measure tts (drive s'.driver s') < measure tts s)
written-lt tts j s v st = elim (write-measure tts j true s.writer s refl) [
  | inl h ↦ inr (omega (arith, h, drives-le tts (write j true s.writer s)))
  | inr h ↦
      subst (λ x. (s.driver ≡ d_joined) ⊎ (measure tts (drive x.driver x) < measure tts s))
        (sym h.0) (driven-lt tts s v st h.1)
]

-- A turn for each thread takes something off the work, or all are joined.
turn-lt :
    (tts : Voice) (j : Job) (s : Speaking)
    → IsSound s
    → (s.driver ≡ d_joined) ⊎ (measure tts (work tts j turn s) < measure tts s)
unfolding work step
turn-lt tts j s v = elim (talk-measure tts j false s.talker s refl) [
  | inl h ↦
      let s' = talk tts j false s.talker s in
      inr (omega (arith, h, writes-le tts j true s', drives-le tts (write j true s'.writer s')))
  | inr h ↦
      subst
        (λ x.
          let s' = write j true x.writer x in
          (s.driver ≡ d_joined) ⊎ (measure tts (drive s'.driver s') < measure tts s))
        (sym h.0) (written-lt tts j s v h.1)
]

-- Joined threads stay so.
drive-joined :
    (d : Driver) (s : Speaking) → s.driver ≡ d → d ≡ d_joined → (drive d s).driver ≡ d_joined
unfolding drive
drive-joined d s e f = rw f (e ∙ f)

turn-joined :
    (tts : Voice) (j : Job) (s : Speaking)
    → s.driver ≡ d_joined
    → (work tts j turn s).driver ≡ d_joined
unfolding work step
turn-joined tts j s e =
    let s1 = talk tts j false s.talker s in
    let s2 = write j true s1.writer s1 in
    drive-joined s2.driver s2 refl
      ((write_keeps j true s1.writer s1).driver ∙ (talk_keeps tts j false s.talker s).driver ∙ e)

turns_joined :
    (tts : Voice) (j : Job) (n : ℕ) (s : Speaking)
    → s.driver ≡ d_joined
    → (turns tts j n s).driver ≡ d_joined
unfolding turns
turns_joined tts j zero s e = e
turns_joined tts j (suc n) s e = turns_joined tts j n (work tts j turn s) (turn-joined tts j s e)

driver_work-joined : (d : Driver) → driver_work d ≤ 0 → d ≡ d_joined
unfolding driver_work
driver_work-joined d_joined h = refl
driver_work-joined d_open h = absurd (omega (arith, h))
driver_work-joined d_text_closed h = absurd (omega (arith, h))
driver_work-joined d_pcm_closed h = absurd (omega (arith, h))

enough_turns :
    (tts : Voice) (j : Job) (n : ℕ) (s : Speaking)
    → IsSound s
    → measure tts s ≤ n
    → (turns tts j n s).driver ≡ d_joined
unfolding turns measure
enough_turns tts j zero s v h = driver_work-joined s.driver (omega (arith, h))
enough_turns tts j (suc n) s v h = elim (turn-lt tts j s v) [
  | inl e ↦ turns_joined tts j n (work tts j turn s) (turn-joined tts j s e)
  | inr l ↦
      enough_turns tts j n (work tts j turn s) (work-IsSound tts j turn s v) (omega (arith, h, l))
]

-- Whatever the threads, calls to `cancel` and the clock did so far, both worker threads end and the
-- driving thread joins them, if each of the three gets a bounded number of turns more: there is no
-- deadlock, not even with full queues, a cancelled run or an exception of the synthesiser.
pub settle-joined :
    (tts : Voice) (j : Job) (xs : List Step) (s : Speaking)
    → IsSound s
    → (settle tts j (work tts j xs s)).driver ≡ d_joined
unfolding settle
settle-joined tts j xs s v =
    enough_turns tts j (measure tts (work tts j xs s)) (work tts j xs s) (work-IsSound tts j xs s v)
      (omega arith)
