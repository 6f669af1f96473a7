-- ===== src/AsrNode.antt =====
-- The recogniser of the ASR node: apps/asr_node/main.cpp, the class AsrNodeBackend, with the frames of
-- backends/fake/include/voxorchestra/backend/fake/fake_audio_source.hpp. The recogniser itself is a
-- parameter, and so are the flag and the clock before each frame. Samples are 16-bit words.
mod Uplink
mod Counts
mod Tests
use vox_orchestra.Prelude.{
  ℕ, zero, suc, ◌+◌, ◌-◌, ◌*◌, ◌/◌, ◌%◌, ◌^◌, Bool, true, false, not, ◌&&◌, ◌||◌, Option, none,
  some, List, [], ◌∷◌, ◌++◌, leb, ltb, ◌==◌, if◌then◌else◌, length, drop, Bytes, bytes_eq, codes,
  utf8, to_string,
}
use vox_orchestra.Base64.{decode}
use vox_orchestra.WavReader.{WavReadResult}
use vox_orchestra.WavReader as WavReader
use vox_orchestra.FakeAudioSink.{sample_rate_hz, channel_count, frame_samples}
use vox_orchestra.SessionPipeline.{Kind, k_final, BackendEvent, is_empty}
use vox_orchestra.SessionPipeline.Listen.{frames_of, is_final}
use vox_orchestra.Rag.Router.{starts_with}
use vox_orchestra.TaskChannel.{done, timed_out, stopped, BackendResult}
use vox_orchestra.NetBackends.{words, pcm_prefix}

pub record Node : Type 0 where
  pub backend_name : Bytes
  pub fixture_dir : Bytes

-- What the loop finds before a frame.
pub record Pause : Type 0 where
  pub cancelled : Bool
  pub now : ℕ

-- The result, and the events that were passed on.
abbrev pub Answer : Type 0
Answer = BackendResult × List BackendEvent

unfoldable pub says : Bytes → Answer
says text = (record { code = done; text = text }, [])

-- The callback, on `final_text`.
unfoldable pub final_of : List BackendEvent → Bytes → Bytes
unfolding is_final
final_of [] text = text
final_of (e ∷ es) text = final_of es (if is_final e.kind then e.text else text)

-- A sample of the audio that stands for a number of frames.
unfoldable pub mock_sample : ℕ → ℕ → ℕ
mock_sample seq s = ((seq * 977 + s * 197) % 2048 + 64512) % 65536

unfoldable pub samples_from : ℕ → ℕ → ℕ → List ℕ
unfolding mock_sample
samples_from seq s zero = []
samples_from seq s (suc left) = mock_sample seq s ∷ samples_from seq (s + 1) left

unfoldable pub make_frame : ℕ → List ℕ
unfolding samples_from
make_frame seq = samples_from seq 0 frame_samples

-- The frames of `run_mock_frames` from `i` on, each with whether it is the last.
unfoldable pub mock_frames : ℕ → ℕ → List (List ℕ × Bool)
unfolding make_frame
mock_frames i zero = []
mock_frames i (suc left) = (make_frame i, left == 0) ∷ mock_frames (i + 1) left

unfoldable pub is_blank : ℕ → Bool
is_blank c = c == b' ' || (leb 9 c && leb c 13)

unfoldable pub is_digit : ℕ → Bool
is_digit c = leb b'0' c && leb c b'9'

-- The number that digits begin with, `v` behind those before them.
unfoldable pub digits_value : Bytes → ℕ → ℕ
unfolding is_digit
digits_value [] v = v
digits_value (c ∷ cs) v =
    let rest = digits_value cs (v * 10 + (c - b'0')) in if is_digit c then rest else v

-- `std::stoi` and the tests behind it: 1 for a text that is no number, that is none of type int, or
-- that is not positive.
unfoldable pub frame_count : Bytes → ℕ
unfolding is_blank digits_value
frame_count [] = 1
frame_count (c ∷ cs) =
    let rest = frame_count cs in
    let n = digits_value (if c == b'+' then cs else c ∷ cs) 0 in
    if is_blank c then rest else if n == 0 || leb (2 ^ 31) n then 1 else n

unfoldable pub frames_for : List ℕ → ℕ
frames_for samples =
    let n = (length samples + frame_samples - 1) / frame_samples in if n == 0 then 1 else n

-- `c` is the first byte of the path.
unfoldable pub wav_path_of : Node → ℕ → Bytes → Bytes
unfolding is_empty
wav_path_of node c payload =
    if not (c == b'/') && not (is_empty node.fixture_dir)
    then node.fixture_dir ++ (b'/' ∷ payload)
    else payload

module _ {S : Type 0} (asr : S → List ℕ → Bool → S × List BackendEvent) (begin : S) (at : ℕ → Pause)
    (deadline : ℕ) where
  -- The loops of `run_mock_frames` and `feed_samples`; `n` frames were fed.
  unfoldable pub feed : ℕ → List (List ℕ × Bool) → S → Bytes → Answer
  unfolding final_of
  feed n [] s text = (record { code = done; text = text }, [])
  feed n ((frame, last) ∷ fs) s text =
      let (s', events) = asr s frame last in
      let (result, later) = feed (n + 1) fs s' (final_of events text) in
      if (at n).cancelled
      then (record { code = stopped; text = [] }, [])
      else if leb deadline (at n).now
      then (record { code = timed_out; text = [] }, [])
      else (result, events ++ later)

  unfoldable pub run_mock_frames : ℕ → Answer
  unfolding feed mock_frames
  run_mock_frames frames = feed 0 (mock_frames 0 frames) begin []

  unfoldable pub run_mock : Bytes → Answer
  unfolding run_mock_frames frame_count
  run_mock payload = run_mock_frames (frame_count payload)

  unfoldable pub feed_samples : List ℕ → Answer
  unfolding feed frames_of
  feed_samples samples = feed 0 (frames_of samples) begin []

  -- Behind the decoding.
  unfoldable pub run_bytes : Node → Bytes → Answer
  unfolding says feed_samples run_mock_frames frames_for words bytes_eq is_empty utf8
  run_bytes node bytes =
      if is_empty bytes || not (length bytes % 2 == 0)
      then says (utf8 "{\"error\":\"PCM 负载字节数非法（需 16-bit 采样的偶数长度）\"}")
      else if bytes_eq node.backend_name (codes "sherpa_onnx")
      then feed_samples (words bytes)
      else run_mock_frames (frames_for (words bytes))

  unfoldable pub run_pcm : Node → Bytes → Answer
  unfolding run_bytes says decode pcm_prefix utf8
  run_pcm node payload = elim (decode (drop (length pcm_prefix) payload)) [
    | none ↦ says (utf8 "{\"error\":\"PCM 负载解码失败: 非法 base64 字符\"}")
    | some bytes ↦ run_bytes node bytes
  ]

  unfoldable pub run_read : WavReadResult → Answer
  unfolding says feed_samples utf8 to_string
  run_read r =
      if not r.ok
      then says (utf8 "{\"error\":\"WAV 读取失败: " ++ (r.error ++ codes "\"}"))
      else if not (
          r.info.sample_rate == sample_rate_hz
          && r.info.channels == channel_count
          && r.info.bits == 16)
      then says (
          utf8 "{\"error\":\"WAV 格式不支持: "
          ++ (to_string r.info.sample_rate
              ++ (codes " Hz/"
                  ++ (to_string r.info.channels
                      ++ (codes "ch/"
                          ++ (to_string r.info.bits ++ utf8 "bit（需要 16000/1/16）\"}"))))))
      else feed_samples r.info.samples

  unfoldable pub run_wav : Node → (Bytes → Option Bytes) → Bytes → Answer
  unfolding says wav_path_of run_read utf8 WavReader.read
  run_wav node files [] = says (utf8 "{\"error\":\"负载为空：sherpa_onnx 后端需要 WAV 文件路径\"}")
  run_wav node files (c ∷ cs) =
      let path = wav_path_of node c (c ∷ cs) in
      elim (WavReader.read path (files path)) [ none ↦ says [] | some r ↦ run_read r ]

  unfoldable pub infer : Node → (Bytes → Option Bytes) → Bytes → Answer
  unfolding starts_with run_pcm run_wav run_mock pcm_prefix bytes_eq
  infer node files payload =
      if starts_with pcm_prefix payload
      then run_pcm node payload
      else if bytes_eq node.backend_name (codes "sherpa_onnx")
      then run_wav node files payload
      else run_mock payload
