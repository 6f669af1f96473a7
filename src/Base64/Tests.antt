-- ===== src/Base64/Tests.antt =====
-- Base64 at concrete inputs.
use vox_orchestra.Prelude.{◌≡◌, refl, none, some, [], ◌∷◌, codes, arith}
use vox_orchestra.Base64.{encode, decode}
use vox_orchestra.Base64.RoundTrip.{decode-encode}

encode_test : encode (codes "light w") ≡ codes "bGlnaHQgdw=="
unfolding encode
encode_test = refl

decode_bad : decode (codes "bG*") ≡ none
unfolding decode
decode_bad = refl

decode-encode_example : decode (encode (255 ∷ 0 ∷ 7 ∷ 128 ∷ [])) ≡ some (255 ∷ 0 ∷ 7 ∷ 128 ∷ [])
decode-encode_example =
    decode-encode (255 ∷ 0 ∷ 7 ∷ 128 ∷ [])
      (omega arith, (omega arith, (omega arith, (omega arith, tt))))
