-- ===== src/FakeBackends/Words.antt =====
-- The words of a prompt, and the text that the pipeline gathers from them.
use vox_orchestra.Prelude.{
  ◌≡◌, ◌≢◌, refl, false, Bool-cases, inl, inr, List, [], ◌∷◌, ◌++◌, All, All-append, Bytes, codes,
}
use vox_orchestra.SessionPipeline.Answer.{add_text}
use vox_orchestra.FakeBackends.{is_white, with_word, words_loop, split_words, join_onto, join_words}

abbrev pub IsWord : Bytes → Type 0
IsWord w = (w ≢ []) × All (λ c. is_white c ≡ false) w

with_word-IsWord :
    (w : Bytes) (ws : List Bytes)
    → All (λ c. is_white c ≡ false) w
    → All IsWord ws
    → All IsWord (with_word w ws)
with_word-IsWord [] ws h k = k
with_word-IsWord (c ∷ cs) ws h k = (((λ e. cc), h), k)

words_loop-IsWord :
    (s cur : Bytes) → All (λ c. is_white c ≡ false) cur → All IsWord (words_loop s cur)
unfolding words_loop
words_loop-IsWord [] cur h = with_word-IsWord cur [] h tt
words_loop-IsWord (c ∷ cs) cur h = elim (Bool-cases (is_white c)) [
  | inl e ↦
      rw (words_loop, e) (with_word-IsWord cur (words_loop cs []) h (words_loop-IsWord cs [] tt))
  | inr e ↦
      rw (words_loop, e)
        (words_loop-IsWord cs (cur ++ c ∷ [])
          (All-append (λ c. is_white c ≡ false) cur (c ∷ []) h (e, tt)))
]

-- The pipeline's `final_text`, over the texts of some tokens.
unfoldable pub gathered : Bytes → List Bytes → Bytes
unfolding add_text
gathered text [] = text
gathered text (w ∷ ws) = gathered (add_text text w) ws

gathered-join_onto :
    (text : Bytes) (ws : List Bytes) → text ≢ [] → gathered text ws ≡ join_onto text ws
unfolding gathered join_onto add_text
gathered-join_onto text [] h = refl
gathered-join_onto [] (w ∷ ws) h = absurd (h refl)
gathered-join_onto (c ∷ cs) (w ∷ ws) h =
    gathered-join_onto (c ∷ (cs ++ (codes " " ++ w))) ws (λ e. cc)

gathered-join_words : (ws : List Bytes) → All IsWord ws → gathered [] ws ≡ join_words ws
unfolding gathered join_words add_text
gathered-join_words [] h = refl
gathered-join_words (w ∷ ws) h = gathered-join_onto w ws h.0.0

-- The tokens of a prompt are words, with no white space and not empty, and the text that the pipeline
-- gathers from them is the whole text that the language model sends at the end.
pub split_words_lem :
    (prompt : Bytes)
    → All IsWord (split_words prompt)
      × (gathered [] (split_words prompt) ≡ join_words (split_words prompt))
unfolding split_words
split_words_lem prompt =
    let words = words_loop-IsWord prompt [] tt in
    (words, gathered-join_words (words_loop prompt []) words)
