-- ===== src/AsrNode/Counts.antt =====
-- The two forms in which a session asks its ASR node, at a node with the fake recogniser.
use vox_orchestra.Prelude.{
  ℕ, ◌+◌, ◌-◌, ◌*◌, ◌/◌, ◌%◌, ◌^◌, ◌<◌, ◌≤◌, ◌≡◌, ◌≢◌, refl, sym, ap, ◌∙◌, Bool, true, false,
  Option, none, some, List, [], ◌∷◌, ◌++◌, length, length-append, leb, ◌==◌, Bytes, bytes_eq, codes,
  to_string, arith, All, read_decimal, read_decimal-to_string, to_string-digits, IsDigit,
}
use vox_orchestra.Base64.{encode}
use vox_orchestra.FakeAudioSink.{pcm_bytes}
use vox_orchestra.FakeAudioSink.RoundTrip.{length-pcm_bytes}
use vox_orchestra.SessionPipeline.{BackendEvent}
use vox_orchestra.Rag.Router.{starts_with}
use vox_orchestra.NetBackends.{Recogniser, feed_audio, pcm_prefix}
use vox_orchestra.AsrNode.{
  Node, Pause, is_blank, is_digit, digits_value, frame_count, frames_for, run_mock_frames, run_mock,
  run_bytes, infer,
}
use vox_orchestra.AsrNode.Uplink.{pcm_bytes_any, words_back, infer-encode}

digits_value-read : (bs : Bytes) (v : ℕ) → All IsDigit bs → digits_value bs v ≡ read_decimal v bs
unfolding digits_value read_decimal is_digit
digits_value-read [] v h = refl
digits_value-read (c ∷ cs) v h =
    let low : leb b'0' c ≡ true = ground arith in
    let high : leb c b'9' ≡ true = ground arith in
    rw (low, high) (digits_value-read cs (v * 10 + (c - b'0')) h.1)

count_of_digits :
    (bs : Bytes) (n : ℕ)
    → All IsDigit bs
    → read_decimal 0 bs ≡ n
    → 0 < n
    → n < 2 ^ 31
    → frame_count bs ≡ n
unfolding frame_count is_blank read_decimal
count_of_digits [] n h e pos small = absurd (omega arith)
count_of_digits (c ∷ cs) n h e pos small =
    let blank : is_blank c ≡ false = ground arith in
    let unsigned : (c == b'+') ≡ false = ground arith in
    let value : digits_value (c ∷ cs) 0 ≡ n = digits_value-read (c ∷ cs) 0 h ∙ e in
    let some_frames : (n == 0) ≡ false = ground arith in
    let fits : leb (2 ^ 31) n ≡ false = ground arith in
    rw (blank, unsigned, value, some_frames, fits) refl

frame_count-to_string : (n : ℕ) → 0 < n → n < 2 ^ 31 → frame_count (to_string n) ≡ n
frame_count-to_string n =
    count_of_digits (to_string n) n (to_string-digits n) (read_decimal-to_string n)

no_prefix : (bs : Bytes) → All IsDigit bs → starts_with pcm_prefix bs ≡ false
unfolding starts_with pcm_prefix
no_prefix [] h = refl
no_prefix (c ∷ cs) h = ground arith

frames_for-whole :
    (xs : List ℕ) (n k : ℕ) → length xs ≡ n * 320 + k → 0 < k → k ≤ 320 → frames_for xs ≡ n + 1
unfolding frames_for
frames_for-whole xs n k e pos small =
    let whole : (length xs + 320 - 1) / 320 ≡ n + 1 = omega (arith, e) in
    let any : (n + 1 == 0) ≡ false = ground arith in rw (whole, any) refl

module _ {S : Type 0} (asr : S → List ℕ → Bool → S × List BackendEvent) (begin : S) (at : ℕ → Pause)
    (deadline : ℕ) where
  run_bytes-mock :
      (node : Node) (xs : List ℕ)
      → xs ≢ []
      → All (λ x. x < 65536) xs
      → bytes_eq node.backend_name (codes "sherpa_onnx") ≡ false
      → run_bytes asr begin at deadline node (pcm_bytes xs)
        ≡ run_mock_frames asr begin at deadline (frames_for xs)
  unfolding run_bytes
  run_bytes-mock node xs ne h named =
      let even : length (pcm_bytes xs) % 2 ≡ 0 = omega (arith, length-pcm_bytes xs) in
      rw (run_bytes, pcm_bytes_any xs ne, even, named)
        (ap (λ ys. run_mock_frames asr begin at deadline (frames_for ys)) (words_back xs h))

  infer-to_string :
      (node : Node) (files : Bytes → Option Bytes) (n : ℕ)
      → 0 < n
      → n < 2 ^ 31
      → bytes_eq node.backend_name (codes "sherpa_onnx") ≡ false
      → infer asr begin at deadline node files (to_string n)
        ≡ run_mock_frames asr begin at deadline n
  unfolding infer run_mock
  infer-to_string node files n pos small named =
      rw
        (
          infer,
          no_prefix (to_string n) (to_string-digits n),
          named,
          run_mock,
          frame_count-to_string n pos small,
        )
        refl

  -- A node with the fake recogniser answers both forms of the last call of `feed_audio` alike, the
  -- samples of the audio uplink and the number of frames: where each frame before the last had 320
  -- samples of 16 bits, the last has 1 to 320, and the number of frames is one of type int.
  pub infer-feed_audio_mock :
      (node : Node) (files : Bytes → Option Bytes) (a : Recogniser) (pcm : List ℕ)
      (payload count : Bytes)
      → length a.samples ≡ a.frame_count * 320
      → 0 < length pcm
      → length pcm ≤ 320
      → a.frame_count + 1 < 2 ^ 31
      → All (λ x. x < 65536) (a.samples ++ pcm)
      → bytes_eq node.backend_name (codes "sherpa_onnx") ≡ false
      → (feed_audio true pcm true a).1 ≡ some payload
      → (feed_audio false pcm true a).1 ≡ some count
      → infer asr begin at deadline node files payload
        ≡ infer asr begin at deadline node files count
  unfolding feed_audio
  infer-feed_audio_mock node files a pcm payload count full any one small h named e f =
      let xs = a.samples ++ pcm in
      let n = a.frame_count + 1 in
      let sent : pcm_prefix ++ encode (pcm_bytes xs) ≡ payload =
        ap (λ o. elim o [ none ↦ payload | some p ↦ p ]) e in
      let counted : to_string n ≡ count = ap (λ o. elim o [ none ↦ count | some p ↦ p ]) f in
      let total : length xs ≡ a.frame_count * 320 + length pcm =
        omega (arith, length-append a.samples pcm, full) in
      let ne : xs ≢ [] = λ z. absurd (omega (arith, ap length z, total, any)) in
      ap (infer asr begin at deadline node files) (sym sent)
      ∙ infer-encode asr begin at deadline node files xs
      ∙ run_bytes-mock node xs ne h named
      ∙ ap (run_mock_frames asr begin at deadline)
          (frames_for-whole xs a.frame_count (length pcm) total any one)
      ∙ sym (infer-to_string node files n (omega arith) small named)
      ∙ ap (infer asr begin at deadline node files) counted
