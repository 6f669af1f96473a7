-- ===== src/SessionPipeline/Turns.antt =====
-- How much the two worker threads and the driving thread still have to do, and turns for all three.
use vox_orchestra.Prelude.{ℕ, zero, suc, ◌+◌, ◌*◌, true, false, List, [], ◌∷◌, length, Bytes}
use vox_orchestra.SessionPipeline.{Job}
use vox_orchestra.SessionPipeline.Speak.{
  Voice, Talker, t_waiting, t_done, t_has, t_speaking, t_pushing, Writer, w_waiting, w_done, w_has,
  w_writing, Driver, d_open, d_text_closed, d_pcm_closed, d_joined, Speaking, Step, talks, writes,
  drives, work,
}

-- The steps that a sentence, the threads and a frame of the queue can still cause, at most.
unfoldable pub sentence_work : Voice → ℕ → List Bytes → ℕ
sentence_work tts n [] = 0
sentence_work tts n (x ∷ xs) = 3 + 5 * length (tts n x).0 + sentence_work tts (n + 1) xs

unfoldable pub talker_work : Voice → Talker → ℕ
talker_work tts t_waiting = 1
talker_work tts t_done = 0
talker_work tts (t_has n x) = 3 + 5 * length (tts n x).0
talker_work tts (t_speaking es thrown) = 2 + 5 * length es
talker_work tts (t_pushing frame es thrown) = 6 + 5 * length es

unfoldable pub writer_work : Writer → ℕ
writer_work w_waiting = 1
writer_work w_done = 0
writer_work (w_has frame) = 3
writer_work (w_writing frame) = 2

unfoldable pub driver_work : Driver → ℕ
driver_work d_open = 3
driver_work d_text_closed = 2
driver_work d_pcm_closed = 1
driver_work d_joined = 0

unfoldable pub measure : Voice → Speaking → ℕ
unfolding sentence_work talker_work writer_work driver_work
measure tts s =
    sentence_work tts s.taken s.text_queue.items
    + talker_work tts s.talker
    + 3 * length s.pcm_queue.items
    + writer_work s.writer
    + driver_work s.driver

-- One turn for each thread.
abbrev pub turn : List Step
turn = talks false ∷ writes true ∷ drives ∷ []

unfoldable pub turns : Voice → Job → ℕ → Speaking → Speaking
unfolding work
turns tts j zero s = s
turns tts j (suc n) s = turns tts j n (work tts j turn s)

-- As many turns as it takes: see Progress.
unfoldable pub settle : Voice → Job → Speaking → Speaking
unfolding turns measure
settle tts j s = turns tts j (measure tts s) s
