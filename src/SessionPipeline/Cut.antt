-- ===== src/SessionPipeline/Cut.antt =====
-- The frames that the recogniser is fed with.
use vox_orchestra.Prelude.{
  ℕ, zero, suc, ◌≤◌, ◌<◌, ◌≡◌, refl, sym, ap, ◌∙◌, Bool, true, false, List, [], ◌∷◌, ◌++◌, leb,
  length, take, drop, length-take, length-drop, take-append-drop, arith,
}
use vox_orchestra.FakeAudioSink.{frame_samples}
use vox_orchestra.SessionPipeline.Listen.{cut_frames, frames_of}

unfoldable pub samples_of : List (List ℕ × Bool) → List ℕ
samples_of [] = []
samples_of (f ∷ fs) = f.0 ++ samples_of fs

abbrev pub is_nil : {A : Type 0} → List A → Bool
is_nil [] = true
is_nil (x ∷ xs) = false

-- A frame has samples, 320 at most, and says that it is the last where no other follows.
abbrev pub AreFrames : List (List ℕ × Bool) → Type 0
AreFrames [] = Unit
AreFrames (f ∷ fs) =
    (0 < length f.0) × (length f.0 ≤ frame_samples) × (f.1 ≡ is_nil fs) × AreFrames fs

is_nil-drop : (n : ℕ) (xs : List ℕ) → is_nil (drop n xs) ≡ leb (length xs) n
is_nil-drop zero [] = refl
is_nil-drop zero (x ∷ xs) = ground arith
is_nil-drop (suc n) [] = ground arith
is_nil-drop (suc n) (x ∷ xs) = is_nil-drop n xs ∙ ground arith

is_nil-cut_frames :
    (fuel : ℕ) (xs : List ℕ) → length xs ≤ fuel → is_nil (cut_frames fuel xs) ≡ is_nil xs
unfolding cut_frames
is_nil-cut_frames zero [] h = refl
is_nil-cut_frames zero (x ∷ xs) h = absurd (omega (arith, h))
is_nil-cut_frames (suc fuel) [] h = refl
is_nil-cut_frames (suc fuel) (x ∷ xs) h = refl

cut_frames_lem :
    (fuel : ℕ) (xs : List ℕ)
    → length xs ≤ fuel
    → (samples_of (cut_frames fuel xs) ≡ xs) × AreFrames (cut_frames fuel xs)
unfolding cut_frames samples_of
cut_frames_lem zero [] h = (refl, tt)
cut_frames_lem zero (x ∷ xs) h = absurd (omega (arith, h))
cut_frames_lem (suc fuel) [] h = (refl, tt)
cut_frames_lem (suc fuel) (x ∷ xs) h =
    let all = x ∷ xs in
    let rest = drop frame_samples all in
    let short : length rest ≤ fuel = omega (arith, length-drop frame_samples all) in
    let (whole, frames) = cut_frames_lem fuel rest short in
    (
      ap (λ r. take frame_samples all ++ r) whole ∙ take-append-drop frame_samples all,
      (
        omega (arith, length-take frame_samples all),
        omega (arith, length-take frame_samples all),
        sym (is_nil-drop frame_samples all) ∙ sym (is_nil-cut_frames fuel rest short),
        frames,
      ),
    )

-- The frames that the recogniser is fed with hold all samples of the input, in order; each has at
-- least one sample and at most 320, and the last frame, and no other, is marked as the last.
pub frames_of_lem :
    (samples : List ℕ) → (samples_of (frames_of samples) ≡ samples) × AreFrames (frames_of samples)
unfolding frames_of
frames_of_lem samples = cut_frames_lem (length samples) samples (omega arith)
