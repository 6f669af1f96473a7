-- ===== src/FrameDecoder/Chunks.antt =====
-- What one call of `feed` guarantees, and when the boundaries of the calls do not matter.
use vox_orchestra.Prelude.{
  ℕ, ◌≤◌, ◌≡◌, ◌≢◌, sym, ap, ◌∙◌, subst, some, List, [], ◌∷◌, ◌++◌, length, Bytes, All, All-append,
  arith,
}
use vox_orchestra.FrameDecoder.{ok, Decoder, Fed, strip_cr, push_frame, feed}
use vox_orchestra.FrameDecoder.Scan.{IsLine, scan, snoc-IsLine, feed-scan}

-- A frame that may be handed out.
pub record IsFrame (max : ℕ) (frame : Bytes) : Type 0 where
  pub not_empty : frame ≢ []
  pub one_line : IsLine frame
  pub fits : length frame ≤ max

-- A decoder between two calls.
pub record IsValid (d : Decoder) : Type 0 where
  pub unfinished : IsLine d.buffer
  pub fits : length d.buffer ≤ d.max_frame_bytes

strip_cr-IsLine : (line : Bytes) → IsLine line → IsLine (strip_cr line)
unfolding strip_cr
strip_cr-IsLine [] h = tt
strip_cr-IsLine (c ∷ []) h = ground arith
strip_cr-IsLine (c ∷ d ∷ cs) h = (h.0, strip_cr-IsLine (d ∷ cs) h.1)

pub length-strip_cr-le : (line : Bytes) → length (strip_cr line) ≤ length line
unfolding strip_cr
length-strip_cr-le [] = omega arith
length-strip_cr-le (c ∷ []) = ground arith
length-strip_cr-le (c ∷ d ∷ cs) = omega (arith, length-strip_cr-le (d ∷ cs))

push_frame-IsFrame :
    (max : ℕ) (frame : Bytes) (frames : List Bytes)
    → IsLine frame
    → length frame ≤ max
    → All (IsFrame max) frames
    → All (IsFrame max) (push_frame frame frames)
unfolding push_frame
push_frame-IsFrame max [] frames l f h = h
push_frame-IsFrame max (c ∷ cs) frames l f h =
    All-append (IsFrame max) frames ((c ∷ cs) ∷ []) h
      (record { not_empty = λ e. cc; one_line = l; fits = f }, tt)

pub scan-IsValid :
    (max : ℕ) (line chunk : Bytes) (frames : List Bytes)
    → IsLine line
    → IsValid (scan max line chunk frames).0
      × ((scan max line chunk frames).0.max_frame_bytes ≡ max)
unfolding scan
scan-IsValid max line [] frames l = ground arith
scan-IsValid max line (c ∷ cs) frames l = ground (
  arith,
  scan-IsValid max [] cs (push_frame (strip_cr line) frames) tt,
  scan-IsValid max (line ++ c ∷ []) cs frames,
  snoc-IsLine line c l,
)

scan-IsFrame :
    (max : ℕ) (line chunk : Bytes) (frames : List Bytes)
    → IsLine line
    → All (IsFrame max) frames
    → All (IsFrame max) (scan max line chunk frames).2
unfolding scan
scan-IsFrame max line [] frames l h = ground arith
scan-IsFrame max line (c ∷ cs) frames l h = ground (
  arith,
  scan-IsFrame max [] cs (push_frame (strip_cr line) frames) tt,
  scan-IsFrame max (line ++ c ∷ []) cs frames,
  snoc-IsLine line c l,
  push_frame-IsFrame max (strip_cr line) frames (strip_cr-IsLine line l),
)

-- `feed` always returns; it keeps the decoder valid and its limit as it was, and every frame that
-- it adds is not empty, holds no newline and is within the limit.
pub feed-IsValid :
    (d : Decoder) (chunk : Bytes) (frames : List Bytes)
    → IsValid d
    → All (IsFrame d.max_frame_bytes) frames
    → (r : Fed) × (feed d chunk frames ≡ some r)
      × IsValid r.0
      × (r.0.max_frame_bytes ≡ d.max_frame_bytes)
      × All (IsFrame d.max_frame_bytes) r.2
feed-IsValid d chunk frames v h =
    let (valid, same) = scan-IsValid d.max_frame_bytes d.buffer chunk frames v.unfinished in
    (
      scan d.max_frame_bytes d.buffer chunk frames,
      feed-scan d chunk frames v.unfinished,
      valid,
      same,
      scan-IsFrame d.max_frame_bytes d.buffer chunk frames v.unfinished h,
    )

pub scan-append :
    (max : ℕ) (line a b : Bytes) (frames : List Bytes)
    → (scan max line a frames).1 ≡ ok
    → scan max line (a ++ b) frames
      ≡ scan max (scan max line a frames).0.buffer b (scan max line a frames).2
unfolding scan
scan-append max line [] b frames e = ground arith
scan-append max line (c ∷ a) b frames e = ground (
  arith,
  scan-append max [] a b (push_frame (strip_cr line) frames),
  scan-append max (line ++ c ∷ []) a b frames,
)

-- If a first call reports no oversized frame, a second call goes on as if the two chunks had come
-- in one call.
pub feed-append :
    (d e : Decoder) (a b : Bytes) (frames more : List Bytes)
    → IsValid d
    → feed d a frames ≡ some (e, ok, more)
    → feed d (a ++ b) frames ≡ feed e b more
feed-append d e a b frames more v h =
    feed-scan d (a ++ b) frames v.unfinished
    ∙ ap some (scan-append d.max_frame_bytes d.buffer a b frames (ap (λ r. r.1) same))
    ∙ sym (
        subst (λ (r : Fed). feed r.0 b r.2 ≡ some (scan d.max_frame_bytes first.0.buffer b first.2))
          same second)
  where
    first : Fed
    first = scan d.max_frame_bytes d.buffer a frames

    same : first ≡ (e, ok, more)
    same = cc (feed-scan d a frames v.unfinished)

    valid : IsValid first.0 × (first.0.max_frame_bytes ≡ d.max_frame_bytes)
    valid = scan-IsValid d.max_frame_bytes d.buffer a frames v.unfinished

    second : feed first.0 b first.2 ≡ some (scan d.max_frame_bytes first.0.buffer b first.2)
    second =
        feed-scan first.0 b first.2 valid.0.unfinished
        ∙ ap (λ m. some (scan m first.0.buffer b first.2)) valid.1
