-- ===== src/Rag/CodePoints.antt =====
-- The code points that the loops of the text normalizer see, and the round trip of a code point.
use vox_orchestra.Prelude.{
  ℕ, zero, suc, ◌+◌, ◌*◌, ◌/◌, ◌%◌, ◌≤◌, ◌<◌, ◌≡◌, ◌⊎◌, inl, inr, refl, ◌∙◌, true, some, List, [],
  ◌∷◌, ◌++◌, Bytes, arith,
}
use vox_orchestra.Rag.Normalizer.{
  is_continuation, continue, sequence, decode_utf8, utf8_of, fold_width, scan,
}

unfoldable pub code_points : ℕ → Bytes → List ℕ
unfolding decode_utf8 fold_width
code_points zero text = []
code_points (suc n) [] = []
code_points (suc n) (b ∷ bs) = let (c, rest) = decode_utf8 b bs in fold_width c ∷ code_points n rest

unfoldable pub fold_left {ℓ} : {S : Type ℓ} → (ℕ → S → S) → S → List ℕ → S
fold_left f s [] = s
fold_left f s (c ∷ cs) = fold_left f (f c s) cs

pub scan_lem {ℓ} :
    {S : Type ℓ} (body : ℕ → S → S) (n : ℕ) (text : Bytes) (s : S)
    → scan body n text s ≡ fold_left body s (code_points n text)
unfolding scan code_points fold_left
scan_lem body zero text s = refl
scan_lem body (suc n) [] s = refl
scan_lem body (suc n) (b ∷ bs) s = scan_lem body n (decode_utf8 b bs).1 _

pub fold_left-append {ℓ} :
    {S : Type ℓ} (f : ℕ → S → S) (s : S) (cs ds : List ℕ)
    → fold_left f s (cs ++ ds) ≡ fold_left f (fold_left f s cs) ds
unfolding fold_left
fold_left-append f s [] ds = refl
fold_left-append f s (c ∷ cs) ds = fold_left-append f (f c s) cs ds

-- A code point of ASCII or of the basic block of CJK.
abbrev pub IsPlain : ℕ → Type 0
IsPlain c = (c < 128) ⊎ ((19968 ≤ c) × (c < 40960))

unfoldable pub following : ℕ → ℕ
following x = 128 + x % 64

following-is_continuation : (x : ℕ) → is_continuation (following x) ≡ true
unfolding is_continuation following
following-is_continuation x = ground arith

following_low : (x : ℕ) → following x % 64 ≡ x % 64
unfolding following
following_low x = omega arith

continue-two :
    (cp x y : ℕ) (rest : Bytes)
    → continue 2 cp (following x ∷ following y ∷ rest)
      ≡ some ((cp * 64 + x % 64) * 64 + y % 64, rest)
unfolding continue
continue-two cp x y rest =
    rw (following-is_continuation x, following-is_continuation y, following_low x, following_low y)
      refl

sequence-two :
    (lead x y c : ℕ) (rest : Bytes)
    → (lead % 16 * 64 + x % 64) * 64 + y % 64 ≡ c
    → sequence lead 2 (lead % 16) (following x ∷ following y ∷ rest) ≡ (c, rest)
unfolding sequence
sequence-two lead x y c rest e = rw (continue-two (lead % 16) x y rest, e) (ground arith)

decode_utf8-three :
    (lead : ℕ) (bs : Bytes)
    → 224 ≤ lead
    → lead < 240
    → decode_utf8 lead bs ≡ sequence lead 2 (lead % 16) bs
unfolding decode_utf8
decode_utf8-three lead bs low high = ground arith

-- The code point at the head of a text that begins with it.
pub decode_utf8-utf8_of :
    (c : ℕ) (rest : Bytes)
    → IsPlain c
    → (b : ℕ) × (bs : Bytes) × (utf8_of c ++ rest ≡ b ∷ bs) × (decode_utf8 b bs ≡ (c, rest))
unfolding utf8_of decode_utf8
decode_utf8-utf8_of c rest (inl h) = (c, rest, ground arith, ground arith)
decode_utf8-utf8_of c rest (inr (low, high)) = (
  224 + c / 4096,
  following (c / 64) ∷ following c ∷ rest,
  unfold following in ground arith,
  decode_utf8-three (224 + c / 4096) _ (omega arith) (omega arith)
      ∙ sequence-two (224 + c / 4096) (c / 64) c c rest (omega arith),
)
