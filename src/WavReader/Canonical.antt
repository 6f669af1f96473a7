-- ===== src/WavReader/Canonical.antt =====
-- Files with the usual header of 44 bytes: a `fmt ` chunk of 16 bytes, then the samples.
use vox_orchestra.Prelude.{
  ℕ, suc, ◌+◌, ◌-◌, ◌*◌, ◌/◌, ◌%◌, ◌≤◌, ◌≡◌, ◌≢◌, refl, ap, ◌∙◌, Bool, true, false, some, List, [],
  ◌∷◌, ◌++◌, ltb, leb, length, Bytes, bytes_eq, codes, arith,
}
use vox_orchestra.WavReader.{
  WavInfo, no_info, le16, le32, tag_is, go_on, found, check_format, read_format, fmt_chunk,
  data_chunk, chunk, scan, read_samples, result_of, parse_riff, read,
}

-- The fields whose values do not matter are `s`, `x` and `y`; `r` is the rate, `d` the length.
unfoldable pub canonical : (s r x : ℕ × ℕ × ℕ × ℕ) (y : ℕ × ℕ) (d : ℕ × ℕ × ℕ × ℕ) → Bytes → Bytes
canonical s r x y d body =
    codes "RIFF"
    ++ (s.0 ∷ s.1 ∷ s.2 ∷ s.3 ∷ []
        ++ (codes "WAVEfmt "
            ++ (16 ∷ 0 ∷ 0 ∷ 0 ∷ 1 ∷ 0 ∷ 1 ∷ 0 ∷ r.0 ∷ r.1 ∷ r.2 ∷ r.3 ∷ []
                ++ (x.0 ∷ x.1 ∷ x.2 ∷ x.3 ∷ y.0 ∷ y.1 ∷ 16 ∷ 0 ∷ []
                    ++ (codes "data" ++ (d.0 ∷ d.1 ∷ d.2 ∷ d.3 ∷ [] ++ body))))))

abbrev pub le32_of : ℕ × ℕ × ℕ × ℕ → ℕ
le32_of q = q.0 + 256 * q.1 + 65536 * q.2 + 16777216 * q.3

abbrev pub info_at : ℕ → WavInfo
info_at rate = record { sample_rate = rate; channels = 1; bits = 16; samples = [] }

-- One round of the loop, by what its chunk decides.
scan_on :
    (fuel : ℕ) (b : Bytes) (pos len : ℕ) (f f' : Bool) (i i' : WavInfo)
    → leb (pos + 8) (length b) ≡ true
    → le32 b (pos + 4) ≡ some len
    → ltb (length b) (pos + 8 + len) ≡ false
    → chunk b pos len f i ≡ some (go_on f' i')
    → scan (suc fuel) b pos f i ≡ scan fuel b (pos + 8 + len + len % 2) f' i'
unfolding scan
scan_on fuel b pos len f f' i i' within e fits c = ground arith

scan_found :
    (fuel : ℕ) (b : Bytes) (pos len off n : ℕ) (f : Bool) (i i' : WavInfo)
    → leb (pos + 8) (length b) ≡ true
    → le32 b (pos + 4) ≡ some len
    → ltb (length b) (pos + 8 + len) ≡ false
    → chunk b pos len f i ≡ some (found off n i')
    → scan (suc fuel) b pos f i ≡ some (found off n i')
unfolding scan
scan_found fuel b pos len off n f i i' within e fits c = ground arith

module _ (s r x : ℕ × ℕ × ℕ × ℕ) (y : ℕ × ℕ) (d : ℕ × ℕ × ℕ × ℕ) (body : Bytes) where
  abbrev b : Bytes
  b = canonical s r x y d body

  length-canonical : length b ≡ 44 + length body
  unfolding canonical
  length-canonical = omega arith

  fmt_chunk_lem :
      le32_of r ≢ 0 → chunk b 12 16 false no_info ≡ some (go_on true (info_at (le32_of r)))
  unfolding chunk canonical tag_is bytes_eq fmt_chunk read_format le16 le32 check_format
  fmt_chunk_lem h = ground arith

  data_chunk_lem :
      (info : WavInfo) → chunk b 36 (le32_of d) true info ≡ some (found 44 (le32_of d) info)
  unfolding chunk canonical tag_is bytes_eq data_chunk
  data_chunk_lem info = refl

  fmt_len : le32 b 16 ≡ some 16
  unfolding le32 canonical
  fmt_len = refl

  data_len : le32 b 40 ≡ some (le32_of d)
  unfolding le32 canonical
  data_len = refl

  scan_canonical :
      (fuel : ℕ)
      → le32_of r ≢ 0
      → le32_of d ≤ length body
      → scan (suc (suc fuel)) b 12 false no_info ≡ some (found 44 (le32_of d) (info_at (le32_of r)))
  scan_canonical fuel h fits =
      scan_on (suc fuel) b 12 16 false true no_info (info_at (le32_of r))
        (ground (arith, length-canonical)) fmt_len (ground (arith, length-canonical))
        (fmt_chunk_lem h)
      ∙ scan_found fuel b 36 (le32_of d) 44 (le32_of d) true (info_at (le32_of r))
          (info_at (le32_of r)) (ground (arith, length-canonical)) data_len
          (ground (arith, length-canonical)) (data_chunk_lem (info_at (le32_of r)))

  tags : (tag_is b 0 (codes "RIFF") ≡ some true) × (tag_is b 8 (codes "WAVE") ≡ some true)
  unfolding tag_is canonical bytes_eq
  tags = (refl, refl)

  scan_whole :
      le32_of r ≢ 0
      → le32_of d ≤ length body
      → scan (suc (length b)) b 12 false no_info ≡ some (found 44 (le32_of d) (info_at (le32_of r)))
  scan_whole h fits =
      let rounds : suc (length b) ≡ suc (suc (43 + length body)) =
        omega (arith, length-canonical) in
      ap (λ n. scan n b 12 false no_info) rounds ∙ scan_canonical (43 + length body) h fits

  parse_canonical :
      {samples : List ℕ}
      → le32_of r ≢ 0
      → le32_of d ≤ length body
      → read_samples ((le32_of d - le32_of d % 2) / 2) b 44 ≡ some samples
      → parse_riff b
        ≡ some (record {
          ok = true;
          error = [];
          info = record (info_at (le32_of r)) { samples = samples };
        })
  unfolding parse_riff result_of
  parse_canonical h fits e = ground (arith, tags.0, tags.1, scan_whole h fits)

  pub read-canonical :
      (path : Bytes) {samples : List ℕ}
      → le32_of r ≢ 0
      → le32_of d ≤ length body
      → read_samples ((le32_of d - le32_of d % 2) / 2) b 44 ≡ some samples
      → read path (some b)
        ≡ some (record {
          ok = true;
          error = [];
          info = record (info_at (le32_of r)) { samples = samples };
        })
  unfolding read
  read-canonical path h fits e =
      let long : ltb (length b) 12 ≡ false = ground (arith, length-canonical) in
      rw long (parse_canonical h fits e)
