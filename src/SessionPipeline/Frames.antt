-- ===== src/SessionPipeline/Frames.antt =====
-- The frames of the run: those written, and those that may still be.
use vox_orchestra.Prelude.{
  ℕ, ◌+◌, ◌≡◌, inl, inr, refl, subst, ap, Bool, true, false, none, some, List, [], ◌∷◌, ◌++◌,
  append_assoc, Bytes, arith, Bool-cases, if◌then◌else◌,
}
use vox_orchestra.BoundedQueue.{close}
use vox_orchestra.SessionPipeline.{BackendEvent, Job, is_active}
use vox_orchestra.SessionPipeline.Queues.{
  an_entry, no_entry, the_end, pops, gone_in, no_room, shut, pushes,
}
use vox_orchestra.SessionPipeline.Speak.{
  Voice, Talker, t_waiting, t_done, t_has, t_speaking, t_pushing, Writer, w_waiting, w_done, w_has,
  w_writing, Driver, d_open, d_text_closed, d_pcm_closed, d_joined, Speaking, Step, happens, talks,
  writes, drives, work, step, talk, write, drive, took, frame_took, frame_pushed, said, is_pcm,
}
use mathlib.Core.List.{Sublist, sublist-append_right}
use mathlib.Core.List.Sublist

-- The frames of the events of one call to `synthesize`, and of the sentences in the queue.
unfoldable pub frames_in : List BackendEvent → List (List ℕ)
frames_in [] = []
frames_in (e ∷ es) = let rest = frames_in es in if is_pcm e.kind then e.pcm ∷ rest else rest

unfoldable pub to_come : Voice → ℕ → List Bytes → List (List ℕ)
unfolding frames_in
to_come tts n [] = []
to_come tts n (x ∷ xs) = frames_in (tts n x).0 ++ to_come tts (n + 1) xs

unfoldable pub coming : Voice → Talker → List (List ℕ)
unfolding frames_in
coming tts t_waiting = []
coming tts t_done = []
coming tts (t_has n x) = frames_in (tts n x).0
coming tts (t_speaking es thrown) = frames_in es
coming tts (t_pushing frame es thrown) = frame ∷ frames_in es

unfoldable pub in_hand : Writer → List (List ℕ)
in_hand (w_has frame) = frame ∷ []
in_hand (w_writing frame) = frame ∷ []
in_hand _ = []

unfoldable pub pending : Voice → Speaking → List (List ℕ)
unfolding in_hand coming to_come
pending tts s =
    s.written
    ++ (in_hand s.writer
        ++ (s.pcm_queue.items ++ (coming tts s.talker ++ to_come tts s.taken s.text_queue.items)))

-- What stands in front stays in front.
behind :
    (w h : List (List ℕ)) {r r' : List (List ℕ)}
    → Sublist r r'
    → Sublist (w ++ (h ++ r)) (w ++ (h ++ r'))
behind w h e = Sublist.append (Sublist.refl w) (Sublist.append (Sublist.refl h) e)

without : (i c : List (List ℕ)) (r : List (List ℕ)) → Sublist (i ++ r) (i ++ (c ++ r))
without i c r = Sublist.append (Sublist.refl i) (sublist-append_right c r)

equal : {xs ys : List (List ℕ)} → xs ≡ ys → Sublist xs ys
equal {xs = xs} e = subst (Sublist xs) e (Sublist.refl xs)

talk-pending :
    (tts : Voice) (j : Job) (g : Bool) (t : Talker) (s : Speaking)
    → s.talker ≡ t
    → Sublist (pending tts (talk tts j g t s)) (pending tts s)
unfolding talk took frame_pushed said pending coming to_come frames_in
talk-pending tts j g t_waiting s e = elim (pops s.text_queue) [
  | an_entry a rest i f ↦ rw (f, e, i) (Sublist.refl _)
  | no_entry i c f ↦ rw f (Sublist.refl _)
  | the_end i c f ↦ rw (f, e) (Sublist.refl _)
]
talk-pending tts j g (t_has n x) s e = elim (Bool-cases (is_active j s.pipeline)) [
  | inl a ↦ rw (a, e) (Sublist.refl _)
  | inr a ↦
      rw (a, e)
        (behind s.written (in_hand s.writer) (without s.pcm_queue.items (frames_in (tts n x).0) _))
]
talk-pending tts j g (t_speaking [] none) s e = rw e (Sublist.refl _)
talk-pending tts j g (t_speaking [] (some what)) s e = rw e (Sublist.refl _)
talk-pending tts j g (t_speaking (b ∷ es) thrown) s e = elim (Bool-cases (is_pcm b.kind)) [
  | inl k ↦ elim (Bool-cases (is_active j s.pipeline)) [
    | inl a ↦ rw (e, a, k) (Sublist.refl _)
    | inr a ↦
        rw (e, a, k)
          (behind s.written (in_hand s.writer) (without s.pcm_queue.items (b.pcm ∷ []) _))
  ]
  | inr k ↦ elim (Bool-cases (is_active j s.pipeline)) [
    | inl a ↦ rw (e, a, k) (Sublist.refl _)
    | inr a ↦ rw (e, a, k) (Sublist.refl _)
  ]
]
talk-pending tts j g (t_pushing frame es thrown) s e =
    let dropped = behind s.written (in_hand s.writer) (
      without s.pcm_queue.items (frame ∷ [])
        (frames_in es ++ to_come tts s.taken s.text_queue.items)) in
    elim (pushes frame s.pcm_queue) [
      | gone_in q' room items size still f ↦
          rw (e, f, items)
            (equal (
              ap (λ r. s.written ++ (in_hand s.writer ++ r))
                (append_assoc s.pcm_queue.items (frame ∷ []) _)))
      | no_room h f ↦ elim (Bool-cases g) [
        | inl a ↦ rw (e, f, a) dropped
        | inr a ↦ rw (f, a) (Sublist.refl _)
      ]
      | shut c f ↦ rw (e, f) dropped
    ]
talk-pending tts j g t_done s e = Sublist.refl _

write-pending :
    (tts : Voice) (j : Job) (b : Bool) (w : Writer) (s : Speaking)
    → s.writer ≡ w
    → Sublist (pending tts (write j b w s)) (pending tts s)
unfolding write frame_took pending in_hand
write-pending tts j b w_waiting s e = elim (pops s.pcm_queue) [
  | an_entry a rest i f ↦ rw (f, e, i) (Sublist.refl _)
  | no_entry i c f ↦ rw f (Sublist.refl _)
  | the_end i c f ↦ rw (f, e) (Sublist.refl _)
]
write-pending tts j b (w_has frame) s e = elim (Bool-cases (is_active j s.pipeline)) [
  | inl a ↦ rw (a, e) (Sublist.refl _)
  | inr a ↦ rw (a, e) (without s.written (frame ∷ []) _)
]
write-pending tts j true (w_writing frame) s e =
    rw e (equal (append_assoc s.written (frame ∷ []) _))
write-pending tts j false (w_writing frame) s e = rw e (without s.written (frame ∷ []) _)
write-pending tts j b w_done s e = Sublist.refl _

pub drive-pending :
    (tts : Voice) (d : Driver) (s : Speaking) → pending tts (drive d s) ≡ pending tts s
unfolding drive pending close
drive-pending tts d_open s = refl
drive-pending tts d_text_closed s = ground arith
drive-pending tts d_pcm_closed s = ground arith
drive-pending tts d_joined s = refl

step-pending :
    (tts : Voice) (j : Job) (x : Step) (s : Speaking)
    → Sublist (pending tts (step tts j x s)) (pending tts s)
unfolding step pending
step-pending tts j (happens m) s = Sublist.refl _
step-pending tts j (talks g) s = talk-pending tts j g s.talker s refl
step-pending tts j (writes b) s = write-pending tts j b s.writer s refl
step-pending tts j drives s = equal (drive-pending tts s.driver s)

pub work-pending :
    (tts : Voice) (j : Job) (xs : List Step) (s : Speaking)
    → Sublist (pending tts (work tts j xs s)) (pending tts s)
unfolding work
work-pending tts j [] s = Sublist.refl _
work-pending tts j (x ∷ xs) s =
    Sublist.trans (work-pending tts j xs (step tts j x s)) (step-pending tts j x s)
