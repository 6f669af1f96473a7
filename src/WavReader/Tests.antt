-- ===== src/WavReader/Tests.antt =====
-- The reader at concrete inputs.
use vox_orchestra.Prelude.{◌≡◌, refl, none, some, Bytes, bytes_eq, [], ◌∷◌, ◌++◌, codes, utf8}
use vox_orchestra.WavReader.{WavReadResult, no_info, failed, read}
use vox_orchestra.WavReader.Total.{read-Returns}

-- Two samples behind a header that promises one byte more than a whole number of samples.
abbrev short_file : Bytes
short_file =
    codes "RIFF" ++ (0 ∷ 0 ∷ 0 ∷ 0 ∷ [] ++ (codes "WAVEdata" ++ (3 ∷ 0 ∷ 0 ∷ 0 ∷ 1 ∷ 0 ∷ 2 ∷ [])))

abbrev truncated : Bytes
truncated = codes "RIFF" ++ (0 ∷ 0 ∷ 0 ∷ 0 ∷ [] ++ (codes "WAVELIST" ++ (9 ∷ 0 ∷ 0 ∷ 0 ∷ [])))

no_file : read (codes "a.wav") none ≡ some (failed (utf8 "无法打开文件: a.wav") no_info)
unfolding read failed utf8
no_file = refl

data_first : read [] (some short_file) ≡ some (failed (utf8 "data 块出现在 fmt 块之前") no_info)
unfolding read failed bytes_eq
data_first = refl

cut_chunk : read [] (some truncated) ≡ some (failed (utf8 "块长度超出文件范围（文件可能被截断）") no_info)
unfolding read failed bytes_eq
cut_chunk = refl

read-Returns_example : (r : WavReadResult) × (read (codes "a.wav") (some short_file) ≡ some r)
read-Returns_example = read-Returns (codes "a.wav") (some short_file)
