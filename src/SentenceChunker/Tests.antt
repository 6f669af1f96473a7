-- ===== src/SentenceChunker/Tests.antt =====
-- The splitter at concrete inputs.
use vox_orchestra.Prelude.{◌≡◌, refl, inl, List, [], ◌∷◌, ◌++◌, Bytes, codes, arith}
use vox_orchestra.SentenceChunker.{new, feed, flush}
use vox_orchestra.SentenceChunker.Stream.{
  IsReady, AreSentences, speak, all_spoken, speak-AreSentences, join, speak-join,
}

-- A sentence in ASCII, the full stop of full width, and another beginning.
abbrev full_stop : Bytes
full_stop = 0xE3 ∷ 0x80 ∷ 0x82 ∷ []

english : (feed (codes "One!Two?\nThree") new).1 ≡ codes "One!" ∷ codes "Two?" ∷ []
unfolding feed new
english = refl

chinese :
    (feed (codes "a" ++ (full_stop ++ (full_stop ++ codes "b"))) new).1
    ≡ (codes "a" ++ full_stop) ∷ []
unfolding feed new
chinese = refl

new-IsReady : IsReady new
unfolding new
new-IsReady = record { plain = tt; settled = λ e. cc }

abbrev tokens : List Bytes
tokens = codes "One" ∷ codes "!T" ∷ codes "wo" ∷ []

spoken_tokens : speak tokens new ≡ codes "One!" ∷ codes "Two" ∷ []
unfolding speak feed flush new
spoken_tokens = refl

speak-AreSentences_example : AreSentences (new.cur ++ all_spoken tokens) (speak tokens new)
speak-AreSentences_example = speak-AreSentences tokens new new-IsReady

speak-join_example : speak tokens new ≡ speak (join tokens ∷ []) new
speak-join_example =
    speak-join tokens new (inl (omega arith), (inl (omega arith), (inl (omega arith), tt)))
