-- ===== src/FakeBackends.antt =====
-- The deterministic back ends: backends/fake/include/voxorchestra/backend/fake/fake_asr_backend.hpp,
-- fake_llm_backend.hpp and fake_tts_backend.hpp. A call gives the events that it delivers; `silent`
-- says that no callback is set or that the back end is cancelled, when the call begins.
pub mod Words
mod Tests
use vox_orchestra.Prelude.{
  ℕ, zero, suc, ◌+◌, ◌-◌, ◌*◌, ◌/◌, ◌%◌, Bool, true, false, ◌&&◌, ◌||◌, List, [], ◌∷◌, ◌++◌, map,
  ltb, leb, ◌==◌, if◌then◌else◌, length, Bytes, codes, utf8, to_string,
}
use vox_orchestra.FakeAudioSink.{frame_samples}
use vox_orchestra.SessionPipeline.{k_partial, k_final, k_token, k_pcm, k_done, BackendEvent}

-- The square wave; -6000 in 16 bits.
unfoldable pub sample_at : ℕ → ℕ
sample_at g = if ltb (g % 32) 16 then 6000 else 65536 - 6000

unfoldable pub samples_from : ℕ → ℕ → List ℕ
unfolding sample_at
samples_from zero g = []
samples_from (suc n) g = sample_at g ∷ samples_from n (g + 1)

unfoldable pub pcm_events : ℕ → ℕ → List BackendEvent
unfolding samples_from
pcm_events zero c = []
pcm_events (suc n) c =
    record { kind = k_pcm; text = []; pcm = samples_from frame_samples (c * frame_samples) }
    ∷ pcm_events n (c + 1)

unfoldable pub chunk_count : Bytes → ℕ
chunk_count text = let n = (length text + 31) / 32 in if ltb 1 n then n else 1

unfoldable pub synthesize : Bool → Bytes → List BackendEvent
unfolding pcm_events chunk_count
synthesize silent text =
    if silent
    then []
    else pcm_events (chunk_count text) 0 ++ record { kind = k_done; text = []; pcm = [] } ∷ []

-- `isspace` in the locale "C".
unfoldable pub is_white : ℕ → Bool
is_white c = c == b' ' || leb 9 c && leb c 13

-- A word is taken, unless there is none.
abbrev pub with_word : Bytes → List Bytes → List Bytes
with_word [] ws = ws
with_word (c ∷ cs) ws = (c ∷ cs) ∷ ws

unfoldable pub words_loop : Bytes → Bytes → List Bytes
unfolding is_white
words_loop [] cur = with_word cur []
words_loop (c ∷ cs) cur = elim (is_white c) [
  | true ↦ with_word cur (words_loop cs [])
  | false ↦ words_loop cs (cur ++ c ∷ [])
]

unfoldable pub split_words : Bytes → List Bytes
unfolding words_loop
split_words s = words_loop s []

-- A blank stands in front of each word but the first.
unfoldable pub join_onto : Bytes → List Bytes → Bytes
join_onto text [] = text
join_onto text (w ∷ ws) = join_onto (text ++ (codes " " ++ w)) ws

unfoldable pub join_words : List Bytes → Bytes
unfolding join_onto
join_words [] = []
join_words (w ∷ ws) = join_onto w ws

unfoldable pub token_event : Bytes → BackendEvent
token_event w = record { kind = k_token; text = w; pcm = [] }

unfoldable pub generate : Bool → Bytes → List BackendEvent
unfolding split_words join_words token_event
generate silent prompt =
    if silent
    then []
    else (let tokens = split_words prompt in
        map token_event tokens ++ record { kind = k_done; text = join_words tokens; pcm = [] } ∷ [])

-- `frame_count_` and `partials_`.
pub record Recogniser : Type 0 where
  pub frame_count : ℕ
  pub partials : List Bytes

unfoldable pub feed_audio : Bool → List ℕ → Bool → Recogniser → Recogniser × List BackendEvent
unfolding join_words
feed_audio silent pcm is_last r =
    if silent
    then (r, [])
    else (let n = r.frame_count + 1 in
        let partial_text =
          utf8 "第" ++ (to_string n ++ (utf8 "帧(" ++ (to_string (length pcm) ++ codes ")"))) in
        let partials' = r.partials ++ partial_text ∷ [] in
        let final_event : BackendEvent = record {
          kind = k_final;
          text = join_words partials';
          pcm = [];
        } in
        (
          record { frame_count = n; partials = partials' },
          record { kind = k_partial; text = partial_text; pcm = [] }
              ∷ (if is_last then final_event ∷ [] else []),
        ))
