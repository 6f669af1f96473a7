-- ===== src/FrameDecoder/Tests.antt =====
-- The decoder at concrete inputs.
use vox_orchestra.Prelude.{◌≡◌, refl, some, List, [], ◌∷◌, ◌++◌, Bytes, codes, arith, All}
use vox_orchestra.FrameDecoder.{ok, oversized, Decoder, Fed, new, feed}
use vox_orchestra.FrameDecoder.Chunks.{IsValid, IsFrame, feed-IsValid, feed-append}
use vox_orchestra.FrameDecoder.Wire.{IsSendable, feed_all, join, wire, feed_all-wire}

abbrev small : Decoder
small = record { max_frame_bytes = 8; buffer = codes "{\"a" }

small-IsValid : IsValid small
small-IsValid = omega arith

two_frames :
    feed (new 8) (codes "{}\r\n\n[1]\n{\"") []
    ≡ some (record { max_frame_bytes = 8; buffer = codes "{\"" }, ok, codes "{}" ∷ codes "[1]" ∷ [])
unfolding feed new
two_frames = refl

too_long : feed (new 2) (codes "abc\n") [] ≡ some (new 2, oversized, [])
unfolding feed new
too_long = refl

feed-IsValid_example :
    (r : Fed) × (feed small (codes "\":1}\n{") [] ≡ some r)
    × IsValid r.0
    × (r.0.max_frame_bytes ≡ 8)
    × All (IsFrame 8) r.2
feed-IsValid_example = feed-IsValid small (codes "\":1}\n{") [] small-IsValid tt

feed-append_example :
    feed small (codes "\":" ++ codes "1}\n") []
    ≡ feed (record { max_frame_bytes = 8; buffer = codes "{\"a\":" }) (codes "1}\n") []
unfolding feed
feed-append_example =
    feed-append small (record { max_frame_bytes = 8; buffer = codes "{\"a\":" }) (codes "\":")
      (codes "1}\n") [] [] small-IsValid refl

abbrev frames : List Bytes
frames = codes "{}" ∷ codes "[1]" ∷ []

frames-IsSendable : All (IsSendable 3) frames
frames-IsSendable = (
  record {
    whole = record { not_empty = λ e. cc; one_line = omega arith; fits = omega arith };
    no_cr = omega arith;
  },
  (
    record {
      whole = record { not_empty = λ e. cc; one_line = omega arith; fits = omega arith };
      no_cr = omega arith;
    },
    tt,
  ),
)

feed_all-wire_example :
    feed_all (new 3) (codes "{" ∷ codes "}\n[1" ∷ codes "]\n" ∷ []) [] ≡ some (new 3, ok, frames)
unfolding join wire
feed_all-wire_example =
    feed_all-wire 3 frames (codes "{" ∷ codes "}\n[1" ∷ codes "]\n" ∷ []) frames-IsSendable refl
