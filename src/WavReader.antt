-- ===== src/WavReader.antt =====
-- The reader of WAV files: libs/common/src/wav_reader.cpp. The bytes of the file are an argument,
-- `none` where it cannot be opened. A read of a byte is an `Option`: `none` is a read out of range.
-- A sample is its 16-bit pattern.
pub mod Total
pub mod Canonical
mod Tests
use vox_orchestra.Prelude.{
  ℕ, zero, suc, ◌+◌, ◌-◌, ◌*◌, ◌/◌, ◌%◌, ◌^◌, Bool, true, false, not, ◌&&◌, ◌||◌, Option, none,
  some, List, [], ◌∷◌, ◌++◌, ltb, leb, ◌==◌, if◌then◌else◌, length, get_elem?, Bytes, bytes_eq,
  codes, utf8, to_string,
}
use vox_orchestra.Prelude.Checked.{◌>>=◌}

pub record WavInfo : Type 0 where
  pub sample_rate : ℕ
  pub channels : ℕ
  pub bits : ℕ
  pub samples : List ℕ

pub record WavReadResult : Type 0 where
  pub ok : Bool
  pub error : Bytes
  pub info : WavInfo

-- The bytes of a number do not overlap, so `|` is a sum.
unfoldable pub le16 : Bytes → ℕ → Option ℕ
le16 b off = do x ← get_elem? b off; y ← get_elem? b (off + 1); some (x + 256 * y)

unfoldable pub le32 : Bytes → ℕ → Option ℕ
le32 b off = do
  x ← get_elem? b off
  y ← get_elem? b (off + 1)
  z ← get_elem? b (off + 2)
  w ← get_elem? b (off + 3)
  some (x + 256 * y + 65536 * z + 16777216 * w)

-- `strncmp` with a tag of four bytes.
unfoldable pub tag_is : Bytes → ℕ → Bytes → Option Bool
tag_is b off tag = do
  x ← get_elem? b off
  y ← get_elem? b (off + 1)
  z ← get_elem? b (off + 2)
  w ← get_elem? b (off + 3)
  some (bytes_eq (x ∷ y ∷ z ∷ w ∷ []) tag)

-- What a chunk decides: an error, the next chunk, or the place of the samples.
pub data Next : Type 0 where
  fail : Bytes → WavInfo → Next
  go_on : Bool → WavInfo → Next
  found : ℕ → ℕ → WavInfo → Next

-- The checks of a format, once its fields are read.
check_format : WavInfo → Next
check_format info =
    if not (info.bits == 16)
    then fail (utf8 "仅支持 16-bit 采样，实际 " ++ to_string info.bits) info
    else if info.channels == 0 || info.sample_rate == 0
    then fail (utf8 "fmt 块声道数或采样率为 0") info
    else go_on true info

read_format : Bytes → ℕ → WavInfo → Option Next
unfolding le16 le32 check_format
read_format b off info = do
  format ← le16 b off
  if not (format == 1)
      then some (fail (utf8 "仅支持未压缩 PCM（format=1），实际 " ++ to_string format) info)
      else (do
        channels ← le16 b (off + 2)
        sample_rate ← le32 b (off + 4)
        bits ← le16 b (off + 14)
        some (
            check_format
              (record info { channels = channels; sample_rate = sample_rate; bits = bits })))

fmt_chunk : Bytes → ℕ → ℕ → Bool → WavInfo → Option Next
unfolding read_format
fmt_chunk b off len have_fmt info =
    if have_fmt
    then some (fail (utf8 "存在多个 fmt 块") info)
    else if ltb len 16
    then some (fail (utf8 "fmt 块长度不足（<16 字节）") info)
    else read_format b off info

data_chunk : ℕ → ℕ → Bool → WavInfo → Next
data_chunk off len have_fmt info =
    if have_fmt then found off len info else fail (utf8 "data 块出现在 fmt 块之前") info

-- One chunk, which begins at `pos` and is within the file.
chunk : Bytes → ℕ → ℕ → Bool → WavInfo → Option Next
unfolding tag_is fmt_chunk data_chunk
chunk b pos len have_fmt info = do
  is_fmt ← tag_is b pos (codes "fmt ")
  is_data ← tag_is b pos (codes "data")
  if is_fmt
      then fmt_chunk b (pos + 8) len have_fmt info
      else if is_data
      then some (data_chunk (pos + 8) len have_fmt info)
      else some (go_on have_fmt info)

-- What follows the loop where no samples were found.
ended : Bool → WavInfo → Next
ended have_fmt info = fail (if have_fmt then utf8 "缺少 data 块" else utf8 "缺少 fmt 块") info

-- The loop over the chunks.
scan : ℕ → Bytes → ℕ → Bool → WavInfo → Option Next
unfolding le32 chunk ended
scan zero b pos have_fmt info = none
scan (suc fuel) b pos have_fmt info = elim (leb (pos + 8) (length b)) [
  | false ↦ some (ended have_fmt info)
  | true ↦ do
    len ← le32 b (pos + 4)
    elim (ltb (length b) (pos + 8 + len)) [
      | true ↦ some (fail (utf8 "块长度超出文件范围（文件可能被截断）") info)
      | false ↦ do
        next ← chunk b pos len have_fmt info
        elim next [
          | go_on have_fmt' info' ↦ scan fuel b (pos + 8 + len + len % 2) have_fmt' info'
          | other ↦ some other
        ]
    ]
]

-- `count` samples from `off` on.
unfoldable pub read_samples : ℕ → Bytes → ℕ → Option (List ℕ)
unfolding le16
read_samples zero b off = some []
read_samples (suc count) b off = do
  sample ← le16 b off
  rest ← read_samples count b (off + 2)
  some (sample ∷ rest)

unfoldable pub failed : Bytes → WavInfo → WavReadResult
failed error info = record { ok = false; error = error; info = info }

abbrev pub no_info : WavInfo
no_info = record { sample_rate = 0; channels = 0; bits = 0; samples = [] }

-- What follows the loop.
result_of : Bytes → Next → Option WavReadResult
unfolding read_samples failed
result_of b (fail error info) = some (failed error info)
result_of b (go_on have_fmt info) = none
result_of b (found off len info) = do
  samples ← read_samples ((len - len % 2) / 2) b off
  some (record { ok = true; error = []; info = record info { samples = samples } })

parse_riff : Bytes → Option WavReadResult
unfolding tag_is scan result_of failed
parse_riff b = do
  is_riff ← tag_is b 0 (codes "RIFF")
  is_wave ← tag_is b 8 (codes "WAVE")
  if not is_riff
      then some (failed (utf8 "不是 RIFF 文件") no_info)
      else if not is_wave
      then some (failed (utf8 "RIFF 文件不是 WAVE 格式") no_info)
      else (do next ← scan (suc (length b)) b 12 false no_info; result_of b next)

-- `WavReader::read` of a file that has this path.
unfoldable pub read : Bytes → Option Bytes → Option WavReadResult
unfolding parse_riff failed
read path none = some (failed (utf8 "无法打开文件: " ++ path) no_info)
read path (some b) =
    if ltb (length b) 12 then some (failed (utf8 "文件过短（不足 RIFF 头 12 字节）") no_info) else parse_riff b
