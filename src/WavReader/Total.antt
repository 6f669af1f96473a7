-- ===== src/WavReader/Total.antt =====
-- The reader ends on every file, and never reads out of range.
use vox_orchestra.Prelude.{
  ℕ, zero, suc, ◌+◌, ◌-◌, ◌*◌, ◌/◌, ◌%◌, ◌≤◌, ◌<◌, ◌≡◌, refl, Bool, true, false, Option, none, some,
  List, [], ◌∷◌, not, ltb, leb, ◌==◌, if◌then◌else◌, length, get_elem?, Bytes, codes, arith,
  Bool-cases, inl, inr, ◌||◌,
}
use vox_orchestra.Prelude.Checked.{
  ◌>>=◌, Ensures, Returns, >>=-Ensures, >>=-Ensures_of, Ensures-some,
}
use vox_orchestra.WavReader.{
  WavInfo, WavReadResult, le16, le32, tag_is, Next, fail, go_on, found, check_format, read_format,
  fmt_chunk, data_chunk, chunk, ended, scan, read_samples, result_of, parse_riff, read, no_info,
}

get_elem?-Returns : {A : Type 0} (xs : List A) (i : ℕ) → i < length xs → Returns (get_elem? xs i)
get_elem?-Returns [] i h = elim h [ ]
get_elem?-Returns (x ∷ xs) zero h = tt
get_elem?-Returns (x ∷ xs) (suc i) h = get_elem?-Returns xs i (omega arith)

le16-Returns : (b : Bytes) (off : ℕ) → off + 2 ≤ length b → Returns (le16 b off)
unfolding le16
le16-Returns b off h =
    >>=-Ensures _ _ _ (get_elem?-Returns b off (omega arith))
      (λ x _. >>=-Ensures _ _ _ (get_elem?-Returns b (off + 1) (omega arith)) (λ y _. tt))

-- Four bytes, whatever is made of them.
four-Returns :
    {A : Type 0} (b : Bytes) (off : ℕ) (f : ℕ → ℕ → ℕ → ℕ → A)
    → off + 4 ≤ length b
    → Returns (do
      x ← get_elem? b off
      y ← get_elem? b (off + 1)
      z ← get_elem? b (off + 2)
      w ← get_elem? b (off + 3)
      some (f x y z w))
four-Returns b off f h = >>=-Ensures _ _ _ (get_elem?-Returns b off (omega arith)) (λ x _.
    >>=-Ensures _ _ _ (get_elem?-Returns b (off + 1) (omega arith)) (λ y _.
      >>=-Ensures _ _ _ (get_elem?-Returns b (off + 2) (omega arith))
        (λ z _. >>=-Ensures _ _ _ (get_elem?-Returns b (off + 3) (omega arith)) (λ w _. tt))))

le32-Returns : (b : Bytes) (off : ℕ) → off + 4 ≤ length b → Returns (le32 b off)
unfolding le32
le32-Returns b off h = four-Returns b off _ h

tag_is-Returns :
    (b : Bytes) (off : ℕ) (tag : Bytes) → off + 4 ≤ length b → Returns (tag_is b off tag)
unfolding tag_is
tag_is-Returns b off tag h = four-Returns b off _ h

if-Ensures :
    {A : Type 0} (P : A → Type 0) (t : Bool) (m n : Option A)
    → (t ≡ true → Ensures P m)
    → (t ≡ false → Ensures P n)
    → Ensures P (if t then m else n)
if-Ensures P true m n y z = y refl
if-Ensures P false m n y z = z refl

elim-Ensures :
    {A : Type 0} (P : A → Type 0) (t : Bool) (m n : Option A)
    → (t ≡ false → Ensures P m)
    → (t ≡ true → Ensures P n)
    → Ensures P (elim t [ false ↦ m | true ↦ n ])
elim-Ensures P true m n y z = z refl
elim-Ensures P false m n y z = y refl

-- The place of the samples is within the file.
abbrev FitsIn : Bytes → Next → Type 0
FitsIn b (fail error info) = Unit
FitsIn b (go_on have_fmt info) = Unit
FitsIn b (found off len info) = off + len ≤ length b

check_format-FitsIn : (b : Bytes) (info : WavInfo) → FitsIn b (check_format info)
unfolding check_format
check_format-FitsIn b info = elim (Bool-cases (not (info.bits == 16))) [
  | inl e ↦ rw e tt
  | inr e ↦ rw e (elim (Bool-cases (info.channels == 0 || info.sample_rate == 0)) [
    | inl z ↦ rw z tt
    | inr z ↦ rw z tt
  ])
]

read_format-FitsIn :
    (b : Bytes) (off : ℕ) (info : WavInfo)
    → off + 16 ≤ length b
    → Ensures (FitsIn b) (read_format b off info)
unfolding read_format
read_format-FitsIn b off info h = >>=-Ensures _ _ _ (le16-Returns b off (omega arith)) (λ format _.
    if-Ensures (FitsIn b) (not (format == 1)) _ _ (λ _. tt)
      (λ _. >>=-Ensures _ _ _ (le16-Returns b (off + 2) (omega arith)) (λ channels _.
        >>=-Ensures _ _ _ (le32-Returns b (off + 4) (omega arith)) (λ sample_rate _.
          >>=-Ensures _ _ _ (le16-Returns b (off + 14) (omega arith)) (λ bits _.
            check_format-FitsIn b
              (record info { channels = channels; sample_rate = sample_rate; bits = bits }))))))

fmt_chunk-FitsIn :
    (b : Bytes) (off len : ℕ) (have_fmt : Bool) (info : WavInfo)
    → off + len ≤ length b
    → Ensures (FitsIn b) (fmt_chunk b off len have_fmt info)
unfolding fmt_chunk
fmt_chunk-FitsIn b off len have_fmt info h =
    if-Ensures (FitsIn b) have_fmt _ _ (λ _. tt)
      (λ _.
        if-Ensures (FitsIn b) (ltb len 16) _ _ (λ _. tt)
          (λ long. read_format-FitsIn b off info (ground arith)))

data_chunk-FitsIn :
    (b : Bytes) (off len : ℕ) (have_fmt : Bool) (info : WavInfo)
    → off + len ≤ length b
    → FitsIn b (data_chunk off len have_fmt info)
unfolding data_chunk
data_chunk-FitsIn b off len true info h = h
data_chunk-FitsIn b off len false info h = tt

chunk-FitsIn :
    (b : Bytes) (pos len : ℕ) (have_fmt : Bool) (info : WavInfo)
    → pos + 8 + len ≤ length b
    → Ensures (FitsIn b) (chunk b pos len have_fmt info)
unfolding chunk
chunk-FitsIn b pos len have_fmt info h =
    >>=-Ensures _ _ _ (tag_is-Returns b pos (codes "fmt ") (omega arith)) (λ is_fmt _.
      >>=-Ensures _ _ _ (tag_is-Returns b pos (codes "data") (omega arith)) (λ is_data _.
        if-Ensures (FitsIn b) is_fmt _ _ (λ _. fmt_chunk-FitsIn b (pos + 8) len have_fmt info h)
          (λ _.
            if-Ensures (FitsIn b) is_data _ _
              (λ _. data_chunk-FitsIn b (pos + 8) len have_fmt info h) (λ _. tt))))

-- The loop ends with an error or with the samples' place: each round moves on by eight bytes.
abbrev Ends : Bytes → Next → Type 0
Ends b (go_on have_fmt info) = ⊥
Ends b (fail error info) = Unit
Ends b (found off len info) = off + len ≤ length b

next-Ends :
    (b : Bytes) (fuel pos : ℕ)
    → ((f : Bool) (i : WavInfo) → Ensures (Ends b) (scan fuel b pos f i))
    → (n : Next) → FitsIn b n
    → Ensures (Ends b) (elim n [ go_on f i ↦ scan fuel b pos f i | other ↦ some other ])
next-Ends b fuel pos later (fail error info) h = tt
next-Ends b fuel pos later (go_on f i) h = later f i
next-Ends b fuel pos later (found off len info) h = h

scan-Ends :
    (fuel : ℕ) (b : Bytes) (pos : ℕ) (have_fmt : Bool) (info : WavInfo)
    → length b < pos + fuel
    → 0 < fuel
    → Ensures (Ends b) (scan fuel b pos have_fmt info)
unfolding scan ended
scan-Ends zero b pos have_fmt info h p = elim p [ ]
scan-Ends (suc fuel) b pos have_fmt info h p =
    elim-Ensures (Ends b) (leb (pos + 8) (length b)) _ _ (λ _. tt)
      (λ within.
        >>=-Ensures (Ends b) (le32 b (pos + 4)) _ (le32-Returns b (pos + 4) (ground arith))
          (λ len _.
            elim-Ensures (Ends b) (ltb (length b) (pos + 8 + len)) _ _
              (λ fits.
                >>=-Ensures_of (FitsIn b) (Ends b) (chunk b pos len have_fmt info) _
                  (chunk-FitsIn b pos len have_fmt info (ground arith))
                  (next-Ends b fuel (pos + 8 + len + len % 2) (λ f i.
                    scan-Ends fuel b (pos + 8 + len + len % 2) f i (ground arith) (ground arith))))
              (λ _. tt)))

read_samples-Returns :
    (count : ℕ) (b : Bytes) (off : ℕ)
    → off + 2 * count ≤ length b
    → Returns (read_samples count b off)
unfolding read_samples
read_samples-Returns zero b off h = tt
read_samples-Returns (suc count) b off h =
    >>=-Ensures _ _ _ (le16-Returns b off (omega arith)) (λ sample _.
      >>=-Ensures _ _ _ (read_samples-Returns count b (off + 2) (omega arith)) (λ rest _. tt))

result_of-Returns : (b : Bytes) (n : Next) → Ends b n → Returns (result_of b n)
unfolding result_of
result_of-Returns b (fail error info) h = tt
result_of-Returns b (go_on have_fmt info) h = absurd h
result_of-Returns b (found off len info) h =
    >>=-Ensures _ _ _ (read_samples-Returns ((len - len % 2) / 2) b off (omega arith))
      (λ samples _. tt)

parse_riff-Returns : (b : Bytes) → 12 ≤ length b → Returns (parse_riff b)
unfolding parse_riff
parse_riff-Returns b h =
    >>=-Ensures _ _ _ (tag_is-Returns b 0 (codes "RIFF") (omega arith)) (λ is_riff _.
      >>=-Ensures _ _ _ (tag_is-Returns b 8 (codes "WAVE") (omega arith)) (λ is_wave _.
        if-Ensures (λ _. Unit) (not is_riff) _ _ (λ _. tt)
          (λ _.
            if-Ensures (λ _. Unit) (not is_wave) _ _ (λ _. tt)
              (λ _.
                >>=-Ensures_of (Ends b) (λ _. Unit) _ _
                  (scan-Ends (suc (length b)) b 12 false no_info (omega arith) (omega arith))
                  (λ n e. result_of-Returns b n e)))))

-- On every file the reader ends with a result: its loop ends within one round more than the file has
-- bytes, and no byte is read that the file does not have.
pub read-Returns :
    (path : Bytes) (file : Option Bytes) → (r : WavReadResult) × (read path file ≡ some r)
unfolding read
read-Returns path none = (_, refl)
read-Returns path (some b) =
    let r =
      Ensures-some (λ _. Unit) _
        (if-Ensures (λ _. Unit) (ltb (length b) 12) _ (parse_riff b) (λ _. tt)
          (λ long. parse_riff-Returns b (ground arith))) in
    (r.0, r.1)
