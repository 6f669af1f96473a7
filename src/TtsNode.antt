-- ===== src/TtsNode.antt =====
-- The voice of the TTS node: apps/tts_node/main.cpp, the class TtsNodeBackend. The synthesizer's events,
-- the calls of the C library and the sound card are parameters.
mod Files
mod Heard
mod Tests
use vox_orchestra.Prelude.{
  ℕ, zero, suc, ◌+◌, ◌-◌, ◌*◌, ◌/◌, ◌%◌, ◌^◌, Bool, true, false, not, ◌&&◌, Option, none, some,
  List, [], ◌∷◌, ◌++◌, ltb, ◌==◌, if◌then◌else◌, length, Bytes, bytes_eq, codes, utf8,
}
use vox_orchestra.Prelude.Int.{pos}
use vox_orchestra.Protocol.{Json}
use vox_orchestra.FakeAudioSink.{Sink, new, open_sink, write_pcm, close}
use vox_orchestra.SessionPipeline.{BackendEvent}
use vox_orchestra.SessionPipeline.Speak.{is_pcm}
use vox_orchestra.TaskChannel.{done, stopped, BackendResult}

pub record Node : Type 0 where
  pub output_dir : Bytes
  pub sink_name : Bytes

-- What the C library does on one file: whether calls succeed, and how many bytes are written of the
-- header, of each chunk by its number, and of the header again.
pub record Disk : Type 0 where
  pub opened : Bool
  pub placed : ℕ
  pub written : ℕ → List ℕ → ℕ
  pub found_start : Bool
  pub rewritten : ℕ
  pub closed : Bool

-- The result, and the file with its path, where there is one.
abbrev pub Answer : Type 0
Answer = BackendResult × Option (Bytes × Sink)

-- `a ^ b` for `b` of up to `f` bits.
unfoldable pub xor_bits : ℕ → ℕ → ℕ → ℕ
xor_bits zero a b = a
xor_bits (suc f) a b = (a + b) % 2 + 2 * xor_bits f (a / 2) (b / 2)

unfoldable pub hash_from : ℕ → Bytes → ℕ
unfolding xor_bits
hash_from h [] = h
hash_from h (c ∷ cs) = hash_from (xor_bits 8 h c * 16777619 % 2 ^ 32) cs

-- `%08x`, from the last of `left` digits on.
unfoldable pub hex_onto : ℕ → ℕ → Bytes → Bytes
hex_onto zero h rest = rest
hex_onto (suc left) h rest =
    let d = h % 16 in
    hex_onto left (h / 16) ((if ltb d 10 then b'0' + d else b'a' + (d - 10)) ∷ rest)

unfoldable pub text_hash : Bytes → Bytes
unfolding hash_from hex_onto
text_hash s = hex_onto 8 (hash_from 2166136261 s) []

-- The callback, on `chunks`.
unfoldable pub chunks_of : List BackendEvent → List (List ℕ)
unfolding is_pcm
chunks_of [] = []
chunks_of (e ∷ es) = let rest = chunks_of es in if is_pcm e.kind then e.pcm ∷ rest else rest

-- The loop over the chunks from the `i`th on: the sink, `ok` and `pcm_bytes`.
unfoldable pub write_chunks : Disk → ℕ → List (List ℕ) → Sink → Bool → ℕ → Sink × (Bool × ℕ)
unfolding write_pcm
write_chunks disk i [] s ok total = (s, (ok, total))
write_chunks disk i (c ∷ cs) s ok total =
    let (s', wrote) = write_pcm (disk.written i c) c s in
    write_chunks disk (i + 1) cs s' (wrote && ok) (total + length c * 2)

unfoldable pub write_file : Disk → List (List ℕ) → Sink → Sink × (Bool × ℕ)
unfolding open_sink write_chunks close
write_file disk chunks s =
    let (s', ok) = open_sink disk.opened disk.placed s in
    let (t, (whole, total)) = write_chunks disk 0 chunks s' true 0 in
    let (t', shut) = close disk.found_start disk.rewritten disk.closed t in
    if ok then (t', (shut && whole, total)) else (s', (false, 0))

unfoldable pub wav_path_for : Node → Bytes → Bytes
unfolding text_hash
wav_path_for node payload =
    node.output_dir ++ (codes "/tts_" ++ (text_hash payload ++ codes ".wav"))

module _ (j : Json) where
  -- `result.dump()` throws on a text that is not UTF-8, which only `output_dir` can bring in; it is taken
  -- to be UTF-8, and then this is `dump`.
  unfoldable pub reply_of : Bytes → Bool → ℕ → BackendResult
  unfolding utf8
  reply_of path ok total = record {
    code = done;
    text = j.dump (
        j.object (
          (codes "wav_path", j.of_string (if ok then path else []))
          ∷ (codes "pcm_bytes", j.of_int (pos total))
          ∷ (if ok then [] else (codes "error", j.of_string (utf8 "WAV 写出失败")) ∷ [])));
  }

  -- `speech` is what the synthesizer tells, and `card` the answer of `play_alsa`.
  unfoldable pub infer :
      Node
      → Bool
      → List BackendEvent
      → (List (List ℕ) → BackendResult)
      → Disk
      → Sink
      → Bytes
      → Answer
  unfolding chunks_of bytes_eq write_file wav_path_for reply_of
  infer node cancelled speech card disk file payload =
      let chunks = chunks_of speech in
      let path = wav_path_for node payload in
      let (s, (ok, total)) = write_file disk chunks file in
      if cancelled
      then (record { code = stopped; text = [] }, none)
      else if bytes_eq node.sink_name (codes "alsa")
      then (card chunks, none)
      else (reply_of path ok total, some (path, s))
