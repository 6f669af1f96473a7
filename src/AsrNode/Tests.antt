-- ===== src/AsrNode/Tests.antt =====
-- The ASR node at concrete inputs.
use vox_orchestra.Prelude.{
  ℕ, ◌+◌, ◌≡◌, refl, Bool, false, if◌then◌else◌, Option, ◌++◌, arith, none, List, [], ◌∷◌, codes,
  Bytes, bytes_eq, length, to_string,
}
use vox_orchestra.Base64.{encode}
use vox_orchestra.FakeAudioSink.{pcm_bytes}
use vox_orchestra.SessionPipeline.{k_partial, k_final, BackendEvent}
use vox_orchestra.NetBackends.{silent, pcm_prefix, feed_audio}
use vox_orchestra.AsrNode.{Node, Pause, feed_samples, infer, frame_count}
use vox_orchestra.AsrNode.Counts.{infer-feed_audio_mock}

-- A recogniser that counts its samples, and tells their number behind the last frame.
abbrev count_up : ℕ → List ℕ → Bool → ℕ × List BackendEvent
count_up n frame last = (
  n + length frame,
  record {
    kind = if last then k_final else k_partial;
    text = to_string (n + length frame);
    pcm = [];
  }
      ∷ [],
)

abbrev no_pause : ℕ → Pause
no_pause n = record { cancelled = false; now = n }

abbrev real_node : Node
real_node = record { backend_name = codes "sherpa_onnx"; fixture_dir = [] }

abbrev mock_node : Node
mock_node = record { backend_name = codes "fake"; fixture_dir = [] }

abbrev no_files : Bytes → Option Bytes
no_files path = none

abbrev samples : List ℕ
samples = 7 ∷ 300 ∷ 65535 ∷ []

infer-feed_audio_mock_example :
    infer count_up 0 no_pause 9 mock_node no_files (pcm_prefix ++ encode (pcm_bytes samples))
    ≡ infer count_up 0 no_pause 9 mock_node no_files (codes "1")
unfolding silent bytes_eq feed_audio
infer-feed_audio_mock_example =
    infer-feed_audio_mock count_up 0 no_pause 9 mock_node no_files silent samples _ _ refl
      (omega arith) (omega arith) (omega arith) (omega arith, (omega arith, (omega arith, tt))) refl
      refl refl

heard : (feed_samples count_up 0 no_pause 9 samples).0.text ≡ codes "3"
unfolding feed_samples to_string
heard = refl

counted_texts :
    (frame_count (codes " +12x") ≡ 12)
    × (frame_count (codes "-3") ≡ 1)
    × (frame_count (codes "2147483648") ≡ 1)
unfolding frame_count
counted_texts = (refl, refl, refl)
