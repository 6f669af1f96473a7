-- ===== src/SessionPipeline/Keeps.antt =====
-- What a step of one worker thread leaves alone.
use vox_orchestra.Prelude.{◌≡◌, refl, Bool, none, some, [], ◌∷◌, arith}
use vox_orchestra.BoundedQueue.{close}
use vox_orchestra.SessionPipeline.{Job}
use vox_orchestra.SessionPipeline.Queues.{
  an_entry, no_entry, the_end, pops, gone_in, no_room, shut, pushes,
}
use vox_orchestra.SessionPipeline.Speak.{
  Voice, Talker, t_waiting, t_done, t_has, t_speaking, t_pushing, Writer, w_waiting, w_done, w_has,
  w_writing, Driver, d_open, d_text_closed, d_pcm_closed, d_joined, Speaking, talk, write, drive,
  took, frame_took, frame_pushed, said,
}

pub record TalkKeeps (s s' : Speaking) : Type 0 where
  pub driver : s'.driver ≡ s.driver
  pub pipeline : s'.pipeline ≡ s.pipeline
  pub writer : s'.writer ≡ s.writer
  pub written : s'.written ≡ s.written

pub talk_keeps :
    (tts : Voice) (j : Job) (g : Bool) (t : Talker) (s : Speaking) → TalkKeeps s (talk tts j g t s)
unfolding talk took frame_pushed said
talk_keeps tts j g t_waiting s = elim (pops s.text_queue) [
  | an_entry a rest i f ↦
      rw f (record { driver = refl; pipeline = refl; writer = refl; written = refl })
  | no_entry i c f ↦ rw f (record { driver = refl; pipeline = refl; writer = refl; written = refl })
  | the_end i c f ↦ rw f (record { driver = refl; pipeline = refl; writer = refl; written = refl })
]
talk_keeps tts j g (t_has n x) s = ground arith
talk_keeps tts j g (t_speaking [] none) s = record {
  driver = refl;
  pipeline = refl;
  writer = refl;
  written = refl;
}
talk_keeps tts j g (t_speaking [] (some what)) s = record {
  driver = refl;
  pipeline = refl;
  writer = refl;
  written = refl;
}
talk_keeps tts j g (t_speaking (b ∷ es) thrown) s = ground arith
talk_keeps tts j g (t_pushing frame es thrown) s = elim (pushes frame s.pcm_queue) [
  | gone_in q' room items size still f ↦
      rw f (record { driver = refl; pipeline = refl; writer = refl; written = refl })
  | no_room h f ↦ rw f (ground arith)
  | shut c f ↦ rw f (record { driver = refl; pipeline = refl; writer = refl; written = refl })
]
talk_keeps tts j g t_done s = record {
  driver = refl;
  pipeline = refl;
  writer = refl;
  written = refl;
}

pub record WriteKeeps (s s' : Speaking) : Type 0 where
  pub driver : s'.driver ≡ s.driver
  pub pipeline : s'.pipeline ≡ s.pipeline
  pub talker : s'.talker ≡ s.talker
  pub taken : s'.taken ≡ s.taken
  pub text_queue : s'.text_queue ≡ s.text_queue

pub write_keeps : (j : Job) (b : Bool) (w : Writer) (s : Speaking) → WriteKeeps s (write j b w s)
unfolding write frame_took
write_keeps j b w_waiting s = elim (pops s.pcm_queue) [
  | an_entry a rest i f ↦
      rw f
        (record { driver = refl; pipeline = refl; talker = refl; taken = refl; text_queue = refl })
  | no_entry i c f ↦
      rw f
        (record { driver = refl; pipeline = refl; talker = refl; taken = refl; text_queue = refl })
  | the_end i c f ↦
      rw f
        (record { driver = refl; pipeline = refl; talker = refl; taken = refl; text_queue = refl })
]
write_keeps j b (w_has frame) s = record {
  driver = refl;
  pipeline = refl;
  talker = refl;
  taken = refl;
  text_queue = refl;
}
write_keeps j b (w_writing frame) s = ground arith
write_keeps j b w_done s = record {
  driver = refl;
  pipeline = refl;
  talker = refl;
  taken = refl;
  text_queue = refl;
}

pub record DriveKeeps (s s' : Speaking) : Type 0 where
  pub talker : s'.talker ≡ s.talker
  pub text_items : s'.text_queue.items ≡ s.text_queue.items
  pub pcm_items : s'.pcm_queue.items ≡ s.pcm_queue.items
  pub pipeline : s'.pipeline ≡ s.pipeline
  pub writer : s'.writer ≡ s.writer
  pub written : s'.written ≡ s.written

pub drive_keeps : (d : Driver) (s : Speaking) → DriveKeeps s (drive d s)
unfolding drive close
drive_keeps d_open s = record {
  talker = refl;
  text_items = refl;
  pcm_items = refl;
  pipeline = refl;
  writer = refl;
  written = refl;
}
drive_keeps d_text_closed s = ground arith
drive_keeps d_pcm_closed s = ground arith
drive_keeps d_joined s = record {
  talker = refl;
  text_items = refl;
  pcm_items = refl;
  pipeline = refl;
  writer = refl;
  written = refl;
}
