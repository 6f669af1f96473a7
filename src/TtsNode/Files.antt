-- ===== src/TtsNode/Files.antt =====
-- The file that the TTS node writes, and what the ASR node reads from it.
use vox_orchestra.Prelude.{
  ℕ, ◌+◌, ◌*◌, ◌<◌, ◌^◌, ◌≡◌, refl, ap, ◌∙◌, true, false, some, List, [], ◌∷◌, length,
  length-append, ◌==◌, Bytes, bytes_eq, codes, arith, All, inl, inr, Bool-cases,
}
use vox_orchestra.Protocol.{Json}
use vox_orchestra.WavReader as WavReader
use vox_orchestra.FakeAudioSink.{Sink, new, write_pcm, close, zeros}
use vox_orchestra.FakeAudioSink.RoundTrip.{
  write_all, play, join, IsSample, read-play, open_sink_lem,
}
use vox_orchestra.SessionPipeline.{BackendEvent}
use vox_orchestra.TaskChannel.{BackendResult}
use vox_orchestra.TtsNode.{
  Node, Disk, chunks_of, write_chunks, write_file, wav_path_for, reply_of, infer,
}

-- Calls that all succeed.
abbrev pub sound : Disk
sound = record {
  opened = true;
  placed = 44;
  written = λ i pcm. length pcm * 2;
  found_start = true;
  rewritten = 44;
  closed = true;
}

write_pcm-whole :
    (c : List ℕ) (s : Sink) → s.is_open ≡ true → (write_pcm (length c * 2) c s).1 ≡ true
unfolding write_pcm
write_pcm-whole c s o =
    let whole : (length c * 2 == length c * 2) ≡ true = ground arith in
    rw (write_pcm, o, whole) refl

write_pcm_open :
    (c : List ℕ) (s : Sink) → s.is_open ≡ true → (write_pcm (length c * 2) c s).0.is_open ≡ true
unfolding write_pcm
write_pcm_open c s o =
    let whole : (length c * 2 == length c * 2) ≡ true = ground arith in
    rw (write_pcm, o, whole) refl

write_chunks_sound :
    (i : ℕ) (cs : List (List ℕ)) (s : Sink) (total : ℕ)
    → s.is_open ≡ true
    → write_chunks sound i cs s true total ≡ (write_all cs s, (true, total + length (join cs) * 2))
unfolding write_chunks write_all join
write_chunks_sound i [] s total o = ap (λ n. (s, (true, n))) (omega arith)
write_chunks_sound i (c ∷ cs) s total o =
    let s' = (write_pcm (length c * 2) c s).0 in
    ap (λ w. write_chunks sound (i + 1) cs s' w (total + length c * 2))
      (rw (write_pcm-whole c s o) refl)
    ∙ write_chunks_sound (i + 1) cs s' (total + length c * 2) (write_pcm_open c s o)
    ∙ ap (λ n. (write_all cs s', (true, n))) (omega (arith, length-append c (join cs)))

close_sound : (s : Sink) → (close true 44 true s).1 ≡ true
unfolding close
close_sound s = elim (Bool-cases s.is_open) [ inl o ↦ rw o refl | inr o ↦ rw o refl ]

write_file_sound :
    (cs : List (List ℕ)) (s : Sink)
    → s.is_open ≡ false
    → write_file sound cs s ≡ (play cs s, (true, length (join cs) * 2))
unfolding write_file play
write_file_sound cs s o =
    let t : Sink = record {
      is_open = true;
      data_bytes = 0;
      content = zeros 44;
      streams = s.streams + 1;
    } in
    let spoken : write_chunks sound 0 cs t true 0 ≡ (write_all cs t, (true, length (join cs) * 2)) =
      write_chunks_sound 0 cs t 0 refl ∙ ap (λ n. (write_all cs t, (true, n))) (omega arith) in
    rw (write_file, play, open_sink_lem s o, spoken, close_sound (write_all cs t)) refl

module _ (j : Json) where
  -- A node that writes files, whose synthesizer has spoken and whose calls of the C library succeed,
  -- leaves at the path that its reply names a file with all the chunks, in order, and the reply
  -- counts their bytes; the file is read back as those samples, at 16 kHz, on one channel, with 16
  -- bits, where the count of bytes in its header does not wrap.
  pub infer-read :
      (node : Node) (speech : List BackendEvent) (card : List (List ℕ) → BackendResult)
      (held payload : Bytes)
      → bytes_eq node.sink_name (codes "alsa") ≡ false
      → All IsSample (join (chunks_of speech))
      → length (join (chunks_of speech)) * 2 < 2 ^ 32
      → let vs = join (chunks_of speech) in
        let path = wav_path_for node payload in
        (infer j node false speech card sound (new held) payload
          ≡ (reply_of j path true (length vs * 2), some (path, play (chunks_of speech) (new held))))
        × (WavReader.read path (some (play (chunks_of speech) (new held)).content)
            ≡ some (record {
              ok = true;
              error = [];
              info = record { sample_rate = 16000; channels = 1; bits = 16; samples = vs };
            }))
  unfolding infer new
  infer-read node speech card held payload named all h = (
    rw (infer, named)
        (ap
          (λ r. (
            reply_of j (wav_path_for node payload) r.1.0 r.1.1,
            some (wav_path_for node payload, r.0),
          ))
          (write_file_sound (chunks_of speech) (new held) refl)),
    read-play (wav_path_for node payload) (chunks_of speech) (new held) refl all h,
  )
