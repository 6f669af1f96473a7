-- ===== src/FrameDecoder/Scan.antt =====
-- The decoder as a machine over single bytes, and the proof that `feed` is that machine.
use vox_orchestra.Prelude.{
  ℕ, zero, suc, ◌≤◌, ◌<◌, ◌≡◌, ◌≢◌, refl, ap, true, none, some, List, [], ◌∷◌, ◌++◌, ◌==◌, ltb,
  if◌then◌else◌, length, length-append, take, drop, Bytes, All, All-append, append-nil,
  append_assoc, arith, Bool-cases, inl, inr,
}
use native.Mathlib.Numerals.{add-one}
use vox_orchestra.FrameDecoder.{
  ok, oversized, Decoder, Fed, find_byte, strip_cr, push_frame, feed_loop, feed,
}

-- No byte of an unfinished line is a newline.
abbrev pub IsLine : Bytes → Type 0
IsLine = All (λ c. c ≢ b'\n')

-- `line` is what has been read of the current line.
unfoldable pub scan : ℕ → Bytes → Bytes → List Bytes → Fed
scan max line [] frames =
    if ltb max (length line)
    then (record { max_frame_bytes = max; buffer = [] }, oversized, frames)
    else (record { max_frame_bytes = max; buffer = line }, ok, frames)
scan max line (c ∷ cs) frames =
    let next_line = scan max [] cs (push_frame (strip_cr line) frames) in
    let same_line = scan max (line ++ c ∷ []) cs frames in
    if c == b'\n'
    then (if ltb max (length (strip_cr line))
        then (record { max_frame_bytes = max; buffer = [] }, oversized, frames)
        else next_line)
    else same_line

find_byte_line : (line : Bytes) → IsLine line → find_byte b'\n' line ≡ none
unfolding find_byte
find_byte_line [] h = refl
find_byte_line (c ∷ cs) h = ground (arith, find_byte_line cs h.1)

find_byte_end :
    (line rest : Bytes) (c : ℕ)
    → IsLine line
    → (c == b'\n') ≡ true
    → find_byte b'\n' (line ++ c ∷ rest) ≡ some (length line)
unfolding find_byte
find_byte_end [] rest c h e = rw e refl
find_byte_end (d ∷ cs) rest c h e = ground (arith, find_byte_end cs rest c h.1 e)

take_line : (line rest : Bytes) → take (length line) (line ++ rest) ≡ line
take_line [] rest = refl
take_line (c ∷ cs) rest = ap (◌∷◌ c) (take_line cs rest)

drop_line : (line rest : Bytes) (c : ℕ) → drop (suc (length line)) (line ++ c ∷ rest) ≡ rest
drop_line [] rest c = refl
drop_line (d ∷ cs) rest c = drop_line cs rest c

pub snoc-IsLine : (line : Bytes) (c : ℕ) → IsLine line → c ≢ b'\n' → IsLine (line ++ c ∷ [])
snoc-IsLine line c h n = All-append (λ c. c ≢ b'\n') line (c ∷ []) h (n, tt)

-- One round of the loop, when the rounds after it are the machine's.
round-scan :
    (fuel max : ℕ) (line rest : Bytes) (frames : List Bytes)
    → IsLine line
    → length rest ≤ fuel
    → ((r : Bytes) (fs : List Bytes)
        → length r < length rest
        → feed_loop fuel (record { max_frame_bytes = max; buffer = r }) fs
          ≡ some (scan max [] r fs))
    → feed_loop (suc fuel) (record { max_frame_bytes = max; buffer = line ++ rest }) frames
      ≡ some (scan max line rest frames)
unfolding feed_loop scan
round-scan fuel max line [] frames h enough later =
    rw (append-nil line) (rw (find_byte_line line h, feed_loop) (ground arith))
round-scan fuel max line (c ∷ rest) frames h enough later = elim (Bool-cases (c == b'\n')) [
  | inl e ↦
      rw (find_byte_end line rest c h e, e, feed_loop)
        (rw (take_line line (c ∷ rest), add-one, drop_line line rest c)
          (rw (later rest (push_frame (strip_cr line) frames) (omega arith)) (ground arith)))
  | inr e ↦
      rw (e, ← append_assoc line (c ∷ []) rest)
        (round-scan fuel max (line ++ c ∷ []) rest frames (snoc-IsLine line c h (ground arith))
          (omega arith) (λ r fs l. later r fs (omega arith)))
]

loop-scan :
    (fuel max : ℕ) (line rest : Bytes) (frames : List Bytes)
    → IsLine line
    → length rest < fuel
    → feed_loop fuel (record { max_frame_bytes = max; buffer = line ++ rest }) frames
      ≡ some (scan max line rest frames)
loop-scan zero max line rest frames h enough = elim enough [ ]
loop-scan (suc fuel) max line rest frames h enough =
    round-scan fuel max line rest frames h (omega arith)
      (λ r fs l. loop-scan fuel max [] r fs tt (omega arith))

-- If the buffer holds no newline, `feed` returns, whatever it is given, and gives what the
-- machine gives.
pub feed-scan :
    (d : Decoder) (chunk : Bytes) (frames : List Bytes)
    → IsLine d.buffer
    → feed d chunk frames ≡ some (scan d.max_frame_bytes d.buffer chunk frames)
unfolding feed
feed-scan d chunk frames h =
    loop-scan (suc (length (d.buffer ++ chunk))) d.max_frame_bytes d.buffer chunk frames h
      (omega (arith, length-append d.buffer chunk))
