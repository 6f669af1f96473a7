-- ===== src/FrameDecoder/Wire.antt =====
-- Frames written one to a line are read back, however the stream is cut into chunks; and the one
-- place where a cut matters, between the `'\r'` and the `'\n'` of a line of full length.
use vox_orchestra.Prelude.{
  ℕ, suc, ◌+◌, ◌≤◌, ◌≡◌, ◌≢◌, refl, sym, ap, ◌∙◌, subst, false, Option, none, some, List, [], ◌∷◌,
  ◌++◌, ◌==◌, ltb, if◌then◌else◌, length, length-append, Bytes, All, append-nil, append_assoc,
  arith, Bool-cases, inl, inr,
}
use vox_orchestra.FrameDecoder.{ok, oversized, Decoder, Fed, new, strip_cr, push_frame, feed}
use vox_orchestra.FrameDecoder.Scan.{IsLine, scan, snoc-IsLine, feed-scan}
use vox_orchestra.FrameDecoder.Chunks.{
  IsFrame, IsValid, length-strip_cr-le, scan-append, scan-IsValid,
}

-- The chunks that one connection reads, fed in order; the first oversized frame ends it.
unfoldable pub feed_all : Decoder → List Bytes → List Bytes → Option Fed
feed_all d [] frames = some (d, ok, frames)
feed_all d (c ∷ cs) frames = elim (feed d c frames) [
  | none ↦ none
  | some (e, r, more) ↦ elim r [ ok ↦ feed_all e cs more | oversized ↦ some (e, oversized, more) ]
]

unfoldable pub join : List Bytes → Bytes
join [] = []
join (c ∷ cs) = c ++ join cs

-- Each frame on a line of its own.
unfoldable pub wire : List Bytes → Bytes
wire [] = []
wire (f ∷ fs) = f ++ b'\n' ∷ wire fs

-- No line of `rest`, behind `n` bytes already read of its first, ever exceeds the limit.
abbrev Fits : ℕ → ℕ → Bytes → Type 0
Fits max n [] = n ≤ max
Fits max n (c ∷ cs) = (n ≤ max) × (if c == b'\n' then Fits max 0 cs else Fits max (suc n) cs)

Fits-le : (max n : ℕ) (cs : Bytes) → Fits max n cs → n ≤ max
Fits-le max n [] h = h
Fits-le max n (c ∷ cs) h = h.0

length-snoc : (line : Bytes) (c : ℕ) → length (line ++ c ∷ []) ≡ suc (length line)
length-snoc line c = omega (arith, length-append line (c ∷ []))

scan-Fits :
    (max : ℕ) (line a b : Bytes) (frames : List Bytes)
    → Fits max (length line) (a ++ b)
    → ((scan max line a frames).1 ≡ ok) × Fits max (length (scan max line a frames).0.buffer) b
unfolding scan
scan-Fits max line [] b frames h = ground (arith, Fits-le max (length line) b h)
scan-Fits max line (c ∷ a) b frames h = elim (Bool-cases (c == b'\n')) [
  | inl e ↦
      let short : ltb max (length (strip_cr line)) ≡ false =
        ground (arith, length-strip_cr-le line) in
      rw (e, short) (scan-Fits max [] a b (push_frame (strip_cr line) frames) (rw e at h.1))
  | inr e ↦ rw e (scan-Fits max (line ++ c ∷ []) a b frames (rw length-snoc (rw e at h.1)))
]

feed_all-scan :
    (d : Decoder) (chunks : List Bytes) (frames : List Bytes)
    → IsLine d.buffer
    → Fits d.max_frame_bytes (length d.buffer) (join chunks)
    → feed_all d chunks frames ≡ some (scan d.max_frame_bytes d.buffer (join chunks) frames)
unfolding feed_all join scan
feed_all-scan d [] frames l h = ground arith
feed_all-scan d (c ∷ cs) frames l h =
    rw (feed-scan d c frames l, feed_all)
      (rw (this.0, scan-append d.max_frame_bytes d.buffer c (join cs) frames this.0)
        (subst (λ m. feed_all next.0 cs next.2 ≡ some (scan m next.0.buffer (join cs) next.2))
          keeps.1
          (feed_all-scan next.0 cs next.2 keeps.0.unfinished
            (subst (λ m. Fits m (length next.0.buffer) (join cs)) (sym keeps.1) this.1))))
  where
    next : Fed
    next = scan d.max_frame_bytes d.buffer c frames

    this : (next.1 ≡ ok) × Fits d.max_frame_bytes (length next.0.buffer) (join cs)
    this = scan-Fits d.max_frame_bytes d.buffer c (join cs) frames h

    keeps : IsValid next.0 × (next.0.max_frame_bytes ≡ d.max_frame_bytes)
    keeps = scan-IsValid d.max_frame_bytes d.buffer c frames l

-- The frame ends in `'\r'`.
abbrev pub EndsCr : Bytes → Type 0
EndsCr [] = ⊥
EndsCr (c ∷ []) = c ≡ b'\r'
EndsCr (c ∷ d ∷ cs) = EndsCr (d ∷ cs)

-- A frame that a sender may put on a line of its own.
pub record IsSendable (max : ℕ) (frame : Bytes) : Type 0 where
  pub whole : IsFrame max frame
  pub no_cr : ¬ EndsCr frame

strip_cr_nothing : (frame : Bytes) → ¬ EndsCr frame → strip_cr frame ≡ frame
unfolding strip_cr
strip_cr_nothing [] h = refl
strip_cr_nothing (c ∷ []) h = ground arith
strip_cr_nothing (c ∷ d ∷ cs) h = ap (◌∷◌ c) (strip_cr_nothing (d ∷ cs) h)

strip_cr_one : (frame : Bytes) → strip_cr (frame ++ b'\r' ∷ []) ≡ frame
unfolding strip_cr
strip_cr_one [] = refl
strip_cr_one (c ∷ []) = refl
strip_cr_one (c ∷ d ∷ cs) = ap (◌∷◌ c) (strip_cr_one (d ∷ cs))

push_frame_lem :
    (frame : Bytes) (frames : List Bytes)
    → frame ≢ []
    → push_frame frame frames ≡ frames ++ frame ∷ []
unfolding push_frame
push_frame_lem [] frames h = absurd (h refl)
push_frame_lem (c ∷ cs) frames h = refl

-- The machine reads on to the end of the line.
scan_line :
    (max : ℕ) (line more rest : Bytes) (frames : List Bytes)
    → IsLine more
    → scan max line (more ++ rest) frames ≡ scan max (line ++ more) rest frames
unfolding scan
scan_line max line [] rest frames h = rw append-nil
scan_line max line (c ∷ cs) rest frames h =
    ground (arith, scan_line max (line ++ c ∷ []) cs rest frames h.1, append_assoc line (c ∷ []) cs)

scan-wire :
    (max : ℕ) (fs frames : List Bytes)
    → All (IsSendable max) fs
    → scan max [] (wire fs) frames
      ≡ (record { max_frame_bytes = max; buffer = [] }, ok, frames ++ fs)
unfolding scan wire
scan-wire max [] frames h = ground (arith, append-nil frames)
scan-wire max (f ∷ fs) frames h =
    scan_line max [] f (b'\n' ∷ wire fs) frames h.0.whole.one_line
    ∙ rw (strip_cr_nothing f h.0.no_cr, push_frame_lem f frames h.0.whole.not_empty)
        (ground (
          arith,
          h.0.whole.fits,
          scan-wire max fs (frames ++ f ∷ []) h.1,
          append_assoc frames (f ∷ []) fs,
        ))

line-Fits :
    (max n : ℕ) (f rest : Bytes)
    → IsLine f
    → n + length f ≤ max
    → Fits max 0 rest
    → Fits max n (f ++ b'\n' ∷ rest)
line-Fits max n [] rest l h r = (omega arith, r)
line-Fits max n (c ∷ cs) rest l h r =
    let inside : (c == b'\n') ≡ false = ground arith in
    (omega arith, rw inside (line-Fits max (suc n) cs rest l.1 (omega arith) r))

wire-Fits : (max : ℕ) (fs : List Bytes) → All (IsSendable max) fs → Fits max 0 (wire fs)
unfolding wire
wire-Fits max [] h = omega arith
wire-Fits max (f ∷ fs) h =
    line-Fits max 0 f (wire fs) h.0.whole.one_line (omega (arith, h.0.whole.fits))
      (wire-Fits max fs h.1)

-- Frames that are not empty, hold no newline, do not end in `'\r'` and are within the limit, sent
-- one to a line, are read back as they were, however the stream is cut into chunks, and nothing
-- stays behind in the decoder.
pub feed_all-wire :
    (max : ℕ) (fs chunks : List Bytes)
    → All (IsSendable max) fs
    → join chunks ≡ wire fs
    → feed_all (new max) chunks [] ≡ some (new max, ok, fs)
unfolding new
feed_all-wire max fs chunks h e =
    feed_all-scan (new max) chunks [] tt (rw e (wire-Fits max fs h)) ∙ rw (e, scan-wire max fs [] h)

-- A line that ends in `"\r\n"` and whose frame has just the length of the limit is accepted in one
-- chunk, and is refused as oversized if a chunk ends behind its `'\r'`.
pub feed_crlf_cut :
    (frame : Bytes)
    → frame ≢ []
    → IsLine frame
    → (feed (new (length frame)) (frame ++ b'\r' ∷ b'\n' ∷ []) []
        ≡ some (new (length frame), ok, frame ∷ []))
      × (feed (new (length frame)) (frame ++ b'\r' ∷ []) []
          ≡ some (new (length frame), oversized, []))
unfolding new scan
feed_crlf_cut frame ne l = (
  feed-scan (new (length frame)) _ [] tt
      ∙ ap some (
          rw (← append_assoc frame (b'\r' ∷ []) (b'\n' ∷ [])) (
            scan_line (length frame) [] (frame ++ b'\r' ∷ []) (b'\n' ∷ []) [] line
            ∙ rw (strip_cr_one frame, push_frame_lem frame [] ne) (ground arith))),
  feed-scan (new (length frame)) _ [] tt
      ∙ ap some (
          subst (λ x. scan (length frame) [] x [] ≡ (new (length frame), oversized, []))
            (append-nil (frame ++ b'\r' ∷ []))
            (scan_line (length frame) [] (frame ++ b'\r' ∷ []) [] [] line
              ∙ ground (arith, length-snoc frame b'\r'))),
)
  where
    line : IsLine (frame ++ b'\r' ∷ [])
    line = snoc-IsLine frame b'\r' l (λ e. omega arith)
