-- ===== src/FakeAudioSink/Tests.antt =====
-- The sink at concrete inputs.
use vox_orchestra.Prelude.{◌≡◌, refl, ℕ, true, false, some, List, [], ◌∷◌, length, codes, arith}
use vox_orchestra.WavReader.{read}
use vox_orchestra.FakeAudioSink.{new, open_sink, write_pcm, close}
use vox_orchestra.FakeAudioSink.RoundTrip.{play, join, read-play}
use vox_orchestra.FakeAudioSink.Calls.{Call, call, opens, writes, closes, run}

abbrev two_frames : List (List ℕ)
two_frames = (1 ∷ 65535 ∷ []) ∷ (300 ∷ []) ∷ []

open_twice : (open_sink true 44 (open_sink true 44 (new [])).0).1 ≡ false
unfolding open_sink new
open_twice = refl

write_closed : (write_pcm 4 (1 ∷ 2 ∷ []) (new [])).1 ≡ false
unfolding write_pcm new
write_closed = refl

file_length : length (play two_frames (new [])).content ≡ 50
unfolding play new
file_length = refl

lost_stream : (run (opens true 44 ∷ closes false 0 true ∷ []) (new [])).streams ≡ 1
unfolding run new call close open_sink
lost_stream = refl

read-play_example :
    read (codes "a.wav") (some (play two_frames (new [])).content)
    ≡ some (record {
      ok = true;
      error = [];
      info = record {
        sample_rate = 16000;
        channels = 1;
        bits = 16;
        samples = 1 ∷ 65535 ∷ 300 ∷ [];
      };
    })
unfolding new join
read-play_example =
    read-play (codes "a.wav") two_frames (new []) refl
      (omega arith, (omega arith, (omega arith, tt))) (omega arith)

abbrev some_calls : List Call
some_calls =
    opens true 44
    ∷ writes 2 (7 ∷ [])
    ∷ closes true 20 true
    ∷ opens true 44
    ∷ closes true 44 true
    ∷ opens true 44
    ∷ []
