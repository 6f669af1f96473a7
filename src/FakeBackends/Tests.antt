-- ===== src/FakeBackends/Tests.antt =====
-- The deterministic back ends at concrete inputs.
use vox_orchestra.Prelude.{◌≡◌, refl, false, [], ◌∷◌, length, Bytes, codes}
use vox_orchestra.FakeBackends.{synthesize, split_words}

three_words : split_words (codes "  the light  on ") ≡ codes "the" ∷ codes "light" ∷ codes "on" ∷ []
unfolding split_words
three_words = refl

-- Two frames and the end for 33 bytes.
frames_test : length (synthesize false (codes "abcdefghijklmnopqrstuvwxyzabcdefg")) ≡ 3
unfolding synthesize
frames_test = refl

abbrev prompt : Bytes
prompt = codes " turn it  off"
