-- ===== src/TtsNode/Tests.antt =====
-- The TTS node at concrete inputs.
use vox_orchestra.Prelude.{
  ℕ, ◌+◌, ◌≡◌, refl, Bool, false, Option, some, List, [], ◌∷◌, length, Bytes, codes,
}
use vox_orchestra.FakeAudioSink.{new}
use vox_orchestra.FakeAudioSink.RoundTrip.{play}
use vox_orchestra.SessionPipeline.{k_pcm, k_done, BackendEvent}
use vox_orchestra.TaskChannel.{done, BackendResult}
use vox_orchestra.AsrNode as AsrNode
use vox_orchestra.AsrNode.{Pause}
use vox_orchestra.TtsNode as TtsNode
use vox_orchestra.TtsNode.{Disk, text_hash, chunks_of, wav_path_for, write_file}
use vox_orchestra.TtsNode.Files.{sound}

-- `TextHash` of the empty text and of one letter.
hash_of_nothing : text_hash [] ≡ codes "811c9dc5"
unfolding text_hash
hash_of_nothing = refl

hash_of_a : text_hash (codes "a") ≡ codes "e40c292c"
unfolding text_hash
hash_of_a = refl

abbrev voice : TtsNode.Node
voice = record { output_dir = codes "/out"; sink_name = codes "wav" }

abbrev ears : AsrNode.Node
ears = record { backend_name = codes "sherpa_onnx"; fixture_dir = [] }

abbrev speech : List BackendEvent
speech =
    record { kind = k_pcm; text = []; pcm = 7 ∷ 65535 ∷ [] }
    ∷ record { kind = k_pcm; text = []; pcm = 300 ∷ [] }
    ∷ record { kind = k_done; text = []; pcm = [] }
    ∷ []

abbrev no_card : List (List ℕ) → BackendResult
no_card chunks = record { code = done; text = [] }

abbrev count_up : ℕ → List ℕ → Bool → ℕ × List BackendEvent
count_up n frame last = (n + length frame, [])

abbrev no_pause : ℕ → Pause
no_pause n = record { cancelled = false; now = n }

abbrev files : Bytes → Option Bytes
files path = some (play (chunks_of speech) (new [])).content

-- A disk that is full behind the header: the reply names no file.
abbrev full : Disk
full = record sound { written = λ i pcm. 0 }

full_disk : (write_file full ((7 ∷ []) ∷ []) (new [])).1 ≡ (false, 2)
unfolding write_file new
full_disk = refl
