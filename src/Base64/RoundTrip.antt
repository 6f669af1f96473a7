-- ===== src/Base64/RoundTrip.antt =====
-- What is encoded is decoded to the same bytes.
use vox_orchestra.Prelude.{
  ℕ, ◌/◌, ◌%◌, ◌<◌, ◌≡◌, refl, ap, ap₂, ◌∙◌, some, [], ◌∷◌, All, Bytes, arith,
}
use vox_orchestra.Base64.{char_of, triple, encode, shifted, with_byte, decode_loop, decode}
use vox_orchestra.Base64.Quads.{
  first_byte, second_byte, third_byte, first_lem, second_lem, third_lem,
}

abbrev pub IsByte : ℕ → Type 0
IsByte b = b < 256

-- A group of one byte, of two, and of three in front of others.
one_back : (a x : ℕ) → IsByte x → decode_loop (encode (x ∷ [])) a 0 ≡ some (x ∷ [])
unfolding encode decode_loop
one_back a x hx =
    let t = triple x 0 0 in
    first_byte (t / 262144) (t / 4096) (b'=' ∷ b'=' ∷ []) a
    ∙ ap (λ b. some (b ∷ [])) (first_lem a x 0 0 hx (omega arith) (omega arith))

two_back :
    (a x y : ℕ) → IsByte x → IsByte y → decode_loop (encode (x ∷ y ∷ [])) a 0 ≡ some (x ∷ y ∷ [])
unfolding encode decode_loop
two_back a x y hx hy =
    let t = triple x y 0 in
    let a1 = shifted a (t / 262144 % 64) in
    first_byte (t / 262144) (t / 4096) (char_of (t / 64) ∷ b'=' ∷ []) a
    ∙ ap (with_byte (shifted a1 (t / 4096 % 64) / 16 % 256))
        (second_byte (t / 64) (b'=' ∷ []) (shifted a1 (t / 4096 % 64)))
    ∙ ap₂ (λ b c. some (b ∷ c ∷ [])) (first_lem a x y 0 hx hy (omega arith))
        (second_lem a1 x y 0 hx hy (omega arith))

three_back :
    (a x y z : ℕ) (cs : Bytes)
    → IsByte x
    → IsByte y
    → IsByte z
    → let t = triple x y z in
      let a' =
        shifted
          (shifted (shifted (shifted a (t / 262144 % 64)) (t / 4096 % 64)) (t / 64 % 64))
          (t % 64) in
      decode_loop
        (char_of (t / 262144) ∷ char_of (t / 4096) ∷ char_of (t / 64) ∷ char_of t ∷ cs)
        a
        0
      ≡ with_byte x (with_byte y (with_byte z (decode_loop cs a' 0)))
three_back a x y z cs hx hy hz =
    let t = triple x y z in
    let a1 = shifted a (t / 262144 % 64) in
    let a2 = shifted a1 (t / 4096 % 64) in
    let a3 = shifted a2 (t / 64 % 64) in
    let a4 = shifted a3 (t % 64) in
    first_byte (t / 262144) (t / 4096) (char_of (t / 64) ∷ char_of t ∷ cs) a
    ∙ ap (with_byte (a2 / 16 % 256)) (
        second_byte (t / 64) (char_of t ∷ cs) a2
        ∙ ap (with_byte (a3 / 4 % 256)) (third_byte t cs a3))
    ∙ ap (λ b. with_byte b (with_byte (a3 / 4 % 256) (with_byte (a4 % 256) (decode_loop cs a4 0))))
        (first_lem a x y z hx hy hz)
    ∙ ap₂ (λ b c. with_byte x (with_byte b (with_byte c (decode_loop cs a4 0))))
        (second_lem a1 x y z hx hy hz) (third_lem a2 x y z hx hy hz)

decode_loop-encode : (bs : Bytes) (a : ℕ) → All IsByte bs → decode_loop (encode bs) a 0 ≡ some bs
unfolding encode decode_loop
decode_loop-encode [] a h = refl
decode_loop-encode (x ∷ []) a h = one_back a x h.0
decode_loop-encode (x ∷ y ∷ []) a h = two_back a x y h.0 h.1.0
decode_loop-encode (x ∷ y ∷ z ∷ rest) a h =
    let t = triple x y z in
    let a' =
      shifted (shifted (shifted (shifted a (t / 262144 % 64)) (t / 4096 % 64)) (t / 64 % 64))
        (t % 64) in
    three_back a x y z (encode rest) h.0 h.1.0 h.1.1.0
    ∙ ap (λ o. with_byte x (with_byte y (with_byte z o))) (decode_loop-encode rest a' h.1.1.1)

-- The code of any bytes is decoded to those bytes, whatever their number and so however often the
-- accumulator has overflowed.
pub decode-encode : (bs : Bytes) → All IsByte bs → decode (encode bs) ≡ some bs
unfolding decode
decode-encode bs h = decode_loop-encode bs 0 h
