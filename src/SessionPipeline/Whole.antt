-- ===== src/SessionPipeline/Whole.antt =====
-- A run that nothing disturbs speaks every frame.
use vox_orchestra.Prelude.{
  ℕ, zero, suc, ◌≤◌, ◌≡◌, inl, inr, refl, sym, subst, ap, ◌∙◌, true, false, none, some, List, [],
  ◌∷◌, ◌++◌, append_assoc, append-nil, Bytes, arith, Bool-cases,
}
use mathlib.Core.Bool.{true≢false}
use mathlib.Core.Bool.{true≢false}
use vox_orchestra.SessionPipeline.{Pipeline, Moment, Job, is_active}
use vox_orchestra.SessionPipeline.Queues.{
  an_entry, no_entry, the_end, pops, gone_in, no_room, shut, pushes,
}
use vox_orchestra.SessionPipeline.Speak.{
  Voice, Talker, t_waiting, t_done, t_has, t_speaking, t_pushing, Writer, w_waiting, w_done, w_has,
  w_writing, Speaking, Step, happens, talks, writes, drives, work, step, talk, write, took,
  frame_took, frame_pushed, said, talker_done, writer_done, is_pcm,
}
use mathlib.Core.Path.{subst₂}
use vox_orchestra.SessionPipeline.{happen, meet, sleep}
use vox_orchestra.SessionPipeline.Turns.{driver_work, measure, turn, turns, settle}
use vox_orchestra.SessionPipeline.Keeps.{talk_keeps, write_keeps, drive_keeps}
use vox_orchestra.SessionPipeline.Invariants.{IsSound, step-IsSound}
use vox_orchestra.SessionPipeline.Progress.{settle-joined}
use vox_orchestra.SessionPipeline.Frames.{
  frames_in, to_come, coming, in_hand, pending, drive-pending,
}

-- Nothing calls `cancel`, no push gives up, and no write fails.
abbrev pub IsGentle : Step → Type 0
IsGentle (happens m) = m.others ≡ []
IsGentle (talks gives_up) = gives_up ≡ false
IsGentle (writes succeeds) = succeeds ≡ true
IsGentle drives = Unit

abbrev pub AllGentle : List Step → Type 0
AllGentle [] = Unit
AllGentle (x ∷ xs) = IsGentle x × AllGentle xs

-- The call to `synthesize` under way throws nothing, and the thread ends only with the queue empty.
abbrev Unthrown : Talker → List Bytes → Type 0
Unthrown t_waiting xs = Unit
Unthrown t_done xs = xs ≡ []
Unthrown (t_has n x) xs = Unit
Unthrown (t_speaking es thrown) xs = thrown ≡ none
Unthrown (t_pushing frame es thrown) xs = thrown ≡ none

pub record IsCalm (tts : Voice) (j : Job) (s : Speaking) : Type 0 where
  pub sound : IsSound s
  pub active : is_active j s.pipeline ≡ true
  pub unthrown : Unthrown s.talker s.text_queue.items
  pub emptied : writer_done s.writer ≡ true → s.pcm_queue.items ≡ []

module _ (tts : Voice) (j : Job) (polite : (n : ℕ) → (x : Bytes) → (tts n x).1 ≡ none) where
  talk-pending_eq :
      (t : Talker) (s : Speaking)
      → s.talker ≡ t
      → IsCalm tts j s
      → (pending tts (talk tts j false t s) ≡ pending tts s)
        × Unthrown (talk tts j false t s).talker (talk tts j false t s).text_queue.items
  unfolding talk took frame_pushed said pending coming to_come frames_in talker_done
  talk-pending_eq t_waiting s e v = elim (pops s.text_queue) [
    | an_entry a rest i f ↦ (rw (f, e, i) refl, rw f tt)
    | no_entry i c f ↦ (rw f refl, rw (f, e) tt)
    | the_end i c f ↦ (rw (f, e) refl, rw (f, i) refl)
  ]
  talk-pending_eq (t_has n x) s e v = (rw (v.active, e) refl, rw v.active (polite n x))
  talk-pending_eq (t_speaking [] none) s e v = (rw e refl, tt)
  talk-pending_eq (t_speaking [] (some what)) s e v =
      let u = subst (λ t. Unthrown t s.text_queue.items) e v.unthrown in
      let no : ⊥ = cc in absurd no
  talk-pending_eq (t_speaking (b ∷ es) thrown) s e v =
      let u = subst (λ t. Unthrown t s.text_queue.items) e v.unthrown in
      elim (Bool-cases (is_pcm b.kind)) [
        | inl k ↦ (rw (e, v.active, k) refl, rw (v.active, k) u)
        | inr k ↦ (rw (e, v.active, k) refl, rw (v.active, k) u)
      ]
  talk-pending_eq (t_pushing frame es thrown) s e v =
      let u = subst (λ t. Unthrown t s.text_queue.items) e v.unthrown in
      elim (pushes frame s.pcm_queue) [
        | gone_in q' room items size still f ↦ (
          rw (e, f, items)
              (ap (λ r. s.written ++ (in_hand s.writer ++ r))
                (append_assoc s.pcm_queue.items (frame ∷ []) _)),
          rw f u,
        )
        | no_room h f ↦ (rw f refl, rw (f, e) u)
        | shut c f ↦ absurd (true≢false (sym (v.sound.talked (v.sound.joins c)) ∙ ap talker_done e))
      ]
  talk-pending_eq t_done s e v = (refl, v.unthrown)

  ended-items :
      (t : Talker) (s : Speaking)
      → talker_done t ≡ true
      → (talk tts j false t s).pcm_queue.items ≡ s.pcm_queue.items
  unfolding talk talker_done
  ended-items t_done s h = refl
  ended-items t_waiting s h = absurd (true≢false (sym h))
  ended-items (t_has n x) s h = absurd (true≢false (sym h))
  ended-items (t_speaking es thrown) s h = absurd (true≢false (sym h))
  ended-items (t_pushing frame es thrown) s h = absurd (true≢false (sym h))

  -- The thread of the output has ended only where the synthesiser's has.
  talk-emptied :
      (t : Talker) (s : Speaking)
      → s.talker ≡ t
      → IsCalm tts j s
      → writer_done s.writer ≡ true
      → (talk tts j false t s).pcm_queue.items ≡ []
  talk-emptied t s e v w =
      let ended : talker_done t ≡ true =
        sym (ap talker_done e) ∙ v.sound.talked (v.sound.writing w) in
      ended-items t s ended ∙ v.emptied w

  write-pending_eq :
      (w : Writer) (s : Speaking)
      → s.writer ≡ w
      → IsCalm tts j s
      → pending tts (write j true w s) ≡ pending tts s
  unfolding write frame_took pending in_hand
  write-pending_eq w_waiting s e v = elim (pops s.pcm_queue) [
    | an_entry a rest i f ↦ rw (f, e, i) refl
    | no_entry i c f ↦ rw f refl
    | the_end i c f ↦ rw (f, e) refl
  ]
  write-pending_eq (w_has frame) s e v = rw (v.active, e) refl
  write-pending_eq (w_writing frame) s e v = rw e (append_assoc s.written (frame ∷ []) _)
  write-pending_eq w_done s e v = refl

  write-emptied :
      (w : Writer) (s : Speaking)
      → s.writer ≡ w
      → IsCalm tts j s
      → writer_done (write j true w s).writer ≡ true
      → (write j true w s).pcm_queue.items ≡ []
  unfolding write frame_took writer_done
  write-emptied w_waiting s e v = elim (pops s.pcm_queue) [
    | an_entry a rest i f ↦ rw f (λ h. absurd (true≢false (sym h)))
    | no_entry i c f ↦ rw f (λ h. i)
    | the_end i c f ↦ rw f (λ h. i)
  ]
  write-emptied (w_has frame) s e v = rw v.active (λ h. absurd (true≢false (sym h)))
  write-emptied (w_writing frame) s e v = λ h. absurd (true≢false (sym h))
  write-emptied w_done s e v = λ h. v.emptied (ap writer_done e)

  still_active :
      (m : Moment) (p : Pipeline) → m.others ≡ [] → is_active j (happen m p) ≡ is_active j p
  unfolding happen meet sleep is_active
  still_active m p g = rw g refl

  -- A gentle step leaves the frames as they are, and the run calm.
  step-IsCalm :
      (x : Step) (s : Speaking)
      → IsGentle x
      → IsCalm tts j s
      → (pending tts (step tts j x s) ≡ pending tts s) × IsCalm tts j (step tts j x s)
  unfolding step pending
  step-IsCalm (happens m) s g v = (
    refl,
    record {
      sound = step-IsSound tts j (happens m) s v.sound;
      active = still_active m s.pipeline g ∙ v.active;
      unthrown = v.unthrown;
      emptied = v.emptied;
    },
  )
  step-IsCalm (talks b) s g v =
      let k = talk_keeps tts j false s.talker s in
      let (frames, u) = talk-pending_eq s.talker s refl v in
      subst
        (λ b.
          (pending tts (talk tts j b s.talker s) ≡ pending tts s)
          × IsCalm tts j (talk tts j b s.talker s))
        (sym g)
        (
          frames,
          record {
            sound = step-IsSound tts j (talks false) s v.sound;
            active = ap (is_active j) k.pipeline ∙ v.active;
            unthrown = u;
            emptied = λ w. talk-emptied s.talker s refl v (sym (ap writer_done k.writer) ∙ w);
          },
        )
  step-IsCalm (writes b) s g v =
      let k = write_keeps j true s.writer s in
      subst
        (λ b.
          (pending tts (write j b s.writer s) ≡ pending tts s)
          × IsCalm tts j (write j b s.writer s))
        (sym g)
        (
          write-pending_eq s.writer s refl v,
          record {
            sound = step-IsSound tts j (writes true) s v.sound;
            active = ap (is_active j) k.pipeline ∙ v.active;
            unthrown =
                subst₂ Unthrown (sym k.talker) (ap (λ q. q.items) (sym k.text_queue)) v.unthrown;
            emptied = write-emptied s.writer s refl v;
          },
        )
  step-IsCalm drives s g v =
      let k = drive_keeps s.driver s in
      (
        drive-pending tts s.driver s,
        record {
          sound = step-IsSound tts j drives s v.sound;
          active = ap (is_active j) k.pipeline ∙ v.active;
          unthrown = subst₂ Unthrown (sym k.talker) (sym k.text_items) v.unthrown;
          emptied = λ w. k.pcm_items ∙ v.emptied (sym (ap writer_done k.writer) ∙ w);
        },
      )

  pub work-IsCalm :
      (xs : List Step) (s : Speaking)
      → AllGentle xs
      → IsCalm tts j s
      → (pending tts (work tts j xs s) ≡ pending tts s) × IsCalm tts j (work tts j xs s)
  unfolding work
  work-IsCalm [] s g v = (refl, v)
  work-IsCalm (x ∷ xs) s g v =
      let (now, v') = step-IsCalm x s g.0 v in
      let (later, v'') = work-IsCalm xs (step tts j x s) g.1 v' in (later ∙ now, v'')

  turns-IsCalm :
      (n : ℕ) (s : Speaking)
      → IsCalm tts j s
      → (pending tts (turns tts j n s) ≡ pending tts s) × IsCalm tts j (turns tts j n s)
  unfolding turns
  turns-IsCalm zero s v = (refl, v)
  turns-IsCalm (suc n) s v =
      let (now, v') = work-IsCalm turn s (refl, (refl, (tt, tt))) v in
      let (later, v'') = turns-IsCalm n (work tts j turn s) v' in (later ∙ now, v'')

  joined-pending :
      (t : Talker) (w : Writer) (s : Speaking)
      → s.talker ≡ t
      → s.writer ≡ w
      → talker_done t ≡ true
      → writer_done w ≡ true
      → IsCalm tts j s
      → pending tts s ≡ s.written
  unfolding pending coming to_come in_hand writer_done talker_done
  joined-pending t_done w_done s e f h k v =
      let no_text = subst (λ t. Unthrown t s.text_queue.items) e v.unthrown in
      let no_pcm = v.emptied (ap writer_done f) in rw (e, f, no_text, no_pcm) (append-nil s.written)
  joined-pending t_waiting w s e f h k v = absurd (true≢false (sym h))
  joined-pending (t_has n x) w s e f h k v = absurd (true≢false (sym h))
  joined-pending (t_speaking es thrown) w s e f h k v = absurd (true≢false (sym h))
  joined-pending (t_pushing frame es thrown) w s e f h k v = absurd (true≢false (sym h))
  joined-pending t_done w_waiting s e f h k v = absurd (true≢false (sym k))
  joined-pending t_done (w_has frame) s e f h k v = absurd (true≢false (sym k))
  joined-pending t_done (w_writing frame) s e f h k v = absurd (true≢false (sym k))

  pub settle_whole :
      (xs : List Step) (s : Speaking)
      → AllGentle xs
      → IsCalm tts j s
      → (settle tts j (work tts j xs s)).written ≡ pending tts s
  unfolding settle driver_work
  settle_whole xs s g v =
      let (same, v') = work-IsCalm xs s g v in
      let s' = work tts j xs s in
      let end = turns tts j (measure tts s') s' in
      let (still, v'') = turns-IsCalm (measure tts s') s' v' in
      let joined = settle-joined tts j xs s v.sound in
      let idle : driver_work end.driver ≤ 0 = omega (arith, ap driver_work joined) in
      sym (
        joined-pending end.talker end.writer end refl refl (v''.sound.talked (omega (arith, idle)))
          (v''.sound.wrote idle) v'')
      ∙ still
      ∙ same
