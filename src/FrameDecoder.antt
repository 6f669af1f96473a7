-- ===== src/FrameDecoder.antt =====
-- The NDJSON decoder of libs/network/include/voxorchestra/network/frame_decoder.hpp and
-- libs/network/src/frame_decoder.cpp. The `while (true)` loop takes fuel: each round takes at
-- least a newline out of the buffer, so one round more than the buffer's length is enough.
pub mod Scan
pub mod Chunks
pub mod Wire
mod Tests
use vox_orchestra.Prelude.{
  ℕ, zero, suc, ◌+◌, Option, none, some, List, [], ◌∷◌, ◌++◌, ◌==◌, ltb, if◌then◌else◌, length,
  take, drop, Bytes,
}

pub data FrameResult : Type 0 where
  ok oversized : FrameResult

pub record Decoder : Type 0 where
  pub max_frame_bytes : ℕ
  pub buffer : Bytes

-- The decoder, the result, and the caller's vector of frames.
abbrev pub Fed : Type 0
Fed = Decoder × FrameResult × List Bytes

unfoldable pub new : ℕ → Decoder
new n = record { max_frame_bytes = n; buffer = [] }

abbrev pub default_max : ℕ
default_max = 1048576

-- `std::string::find(char)`.
find_byte : ℕ → Bytes → Option ℕ
find_byte b [] = none
find_byte b (c ∷ cs) =
    if c == b then some 0 else elim (find_byte b cs) [ none ↦ none | some i ↦ some (suc i) ]

-- One `'\r'` at the end of a line is dropped.
unfoldable pub strip_cr : Bytes → Bytes
strip_cr [] = []
strip_cr (c ∷ []) = if c == b'\r' then [] else c ∷ []
strip_cr (c ∷ d ∷ cs) = c ∷ strip_cr (d ∷ cs)

unfoldable pub reset : Decoder → Decoder
reset d = record d { buffer = [] }

unfoldable pub partial_size : Decoder → ℕ
partial_size d = length d.buffer

-- An empty frame is skipped.
pub push_frame : Bytes → List Bytes → List Bytes
push_frame [] frames = frames
push_frame (c ∷ cs) frames = frames ++ (c ∷ cs) ∷ []

feed_loop : ℕ → Decoder → List Bytes → Option Fed
unfolding find_byte strip_cr reset push_frame
feed_loop zero d frames = none
feed_loop (suc fuel) d frames = elim (find_byte b'\n' d.buffer) [
  | none ↦
      if ltb d.max_frame_bytes (length d.buffer)
      then some (reset d, oversized, frames)
      else some (d, ok, frames)
  | some nl ↦
      let frame = strip_cr (take nl d.buffer) in
      let rest =
        feed_loop fuel (record d { buffer = drop (nl + 1) d.buffer }) (push_frame frame frames) in
      if ltb d.max_frame_bytes (length frame) then some (reset d, oversized, frames) else rest
]

unfoldable pub feed : Decoder → Bytes → List Bytes → Option Fed
unfolding feed_loop
feed d chunk frames =
    let d' = record d { buffer = d.buffer ++ chunk } in feed_loop (suc (length d'.buffer)) d' frames
