-- ===== src/FakeAudioSink.antt =====
-- The sink that writes a WAV file: backends/fake/include/voxorchestra/backend/fake/fake_audio_sink.hpp,
-- with the constants of backends/include/voxorchestra/backend/backend_event.hpp. What the C library
-- does is an argument of each method: whether a call succeeds, and how many bytes are written. A
-- sample is its 16-bit pattern, low byte first in memory.
pub mod RoundTrip
pub mod Calls
mod Tests
use vox_orchestra.Prelude.{
  ℕ, zero, suc, ◌+◌, ◌*◌, ◌/◌, ◌%◌, ◌^◌, ◌-◌, Bool, true, false, not, List, [], ◌∷◌, ◌++◌, ◌==◌,
  if◌then◌else◌, length, take, drop, Bytes, codes,
}

abbrev pub sample_rate_hz : ℕ
sample_rate_hz = 16000

abbrev pub channel_count : ℕ
channel_count = 1

abbrev pub frame_samples : ℕ
frame_samples = 320

-- `file_ != nullptr`, `data_bytes_`, the bytes of the file, and the streams that are open.
pub record Sink : Type 0 where
  pub is_open : Bool
  pub data_bytes : ℕ
  pub content : Bytes
  pub streams : ℕ

unfoldable pub new : Bytes → Sink
new content = record { is_open = false; data_bytes = 0; content = content; streams = 0 }

abbrev pub le16_bytes : ℕ → Bytes
le16_bytes v = v % 256 ∷ v / 256 % 256 ∷ []

abbrev pub le32_bytes : ℕ → Bytes
le32_bytes v = v % 256 ∷ v / 256 % 256 ∷ v / 65536 % 256 ∷ v / 16777216 % 256 ∷ []

-- The samples as they stand in memory.
unfoldable pub pcm_bytes : List ℕ → Bytes
pcm_bytes [] = []
pcm_bytes (v ∷ vs) = v % 256 ∷ v / 256 % 256 ∷ pcm_bytes vs

unfoldable pub zeros : ℕ → Bytes
zeros zero = []
zeros (suc n) = 0 ∷ zeros n

-- `WriteHeader`, where all its writes succeed.
unfoldable pub header : ℕ → Bytes
header data_bytes =
    codes "RIFF"
    ++ (le32_bytes ((36 + data_bytes) % 2 ^ 32)
        ++ (codes "WAVE"
            ++ (codes "fmt "
                ++ (le32_bytes 16
                    ++ (le16_bytes 1
                        ++ (le16_bytes channel_count
                            ++ (le32_bytes sample_rate_hz
                                ++ (le32_bytes (sample_rate_hz * channel_count * 2)
                                    ++ (le16_bytes (channel_count * 2)
                                        ++ (le16_bytes 16
                                            ++ (codes "data" ++ le32_bytes data_bytes)))))))))))

-- `fopen` truncates the file; then `n` bytes of the placeholder are written.
unfoldable pub open_sink : Bool → ℕ → Sink → Sink × Bool
unfolding zeros
open_sink opened n s =
    if s.is_open
    then (s, false)
    else if not opened
    then (s, false)
    else if n == 44
    then (
      record { is_open = true; data_bytes = 0; content = zeros 44; streams = s.streams + 1 },
      true,
    )
    else (record s { data_bytes = 0; content = zeros n }, false)

unfoldable pub write_pcm : ℕ → List ℕ → Sink → Sink × Bool
unfolding pcm_bytes
write_pcm n pcm s =
    if not s.is_open
    then (s, false)
    else if n == length pcm * 2
    then (
      record s {
        data_bytes = (s.data_bytes + length pcm * 2) % 2 ^ 32;
        content = s.content ++ pcm_bytes pcm;
      },
      true,
    )
    else (record s { content = s.content ++ take n (pcm_bytes pcm) }, false)

-- The first `n` bytes of the header are written; the stream is closed only behind a whole header.
unfoldable pub close : Bool → ℕ → Bool → Sink → Sink × Bool
unfolding header
close found_start n closed s =
    if not s.is_open
    then (s, true)
    else if not found_start
    then (record s { is_open = false }, false)
    else (let content' = take n (header s.data_bytes) ++ drop n s.content in
        if n == 44
        then (record s { is_open = false; content = content'; streams = s.streams - 1 }, closed)
        else (record s { is_open = false; content = content' }, false))
