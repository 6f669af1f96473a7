-- ===== src/Base64/Quads.antt =====
-- Four characters and the three bytes that they stand for.
use vox_orchestra.Prelude.{
  ℕ, zero, suc, ◌+◌, ◌-◌, ◌/◌, ◌%◌, ◌^◌, ◌<◌, ◌≡◌, refl, sym, ap, ◌∙◌, Bool, true, false, not, ◌&&◌,
  none, some, ◌∷◌, leb, ◌==◌, get_or, Bytes, arith, Bool-cases, inl, inr,
}
use mathlib.Core.Bool.{true≢false}
use vox_orchestra.Base64.{
  base64_chars, base64_char_value, char_of, triple, shifted, with_byte, decode_loop,
}

-- A test that holds at all numbers below a bound.
all_below : ℕ → (ℕ → Bool) → Bool
all_below zero t = true
all_below (suc n) t = t n && all_below n t

and_true : (a b : Bool) → (a && b) ≡ true → (a ≡ true) × (b ≡ true)
and_true true b h = (refl, h)
and_true false b h = absurd (true≢false (sym h))

all_below_at : (n : ℕ) (t : ℕ → Bool) (k : ℕ) → all_below n t ≡ true → k < n → t k ≡ true
unfolding all_below
all_below_at zero t k h l = elim l [ ]
all_below_at (suc n) t k h l =
    let (here, below) = and_true (t n) (all_below n t) h in
    elim (Bool-cases (k == n)) [
      | inl e ↦ ap t (ground arith) ∙ here
      | inr e ↦ all_below_at n t k below (ground arith)
    ]

-- The table is read back, and has no padding sign.
reads : ℕ → Bool
reads v = elim (base64_char_value (get_or base64_chars v 0)) [
  | none ↦ false
  | some u ↦ u == v && not (get_or base64_chars v 0 == b'=')
]

table_reads : all_below 64 reads ≡ true
unfolding all_below reads base64_char_value
table_reads = refl

reads_lem :
    (v : ℕ)
    → reads v ≡ true
    → (base64_char_value (get_or base64_chars v 0) ≡ some v)
      × ((get_or base64_chars v 0 == b'=') ≡ false)
unfolding reads
reads_lem v h = ground arith

char_of_lem :
    (n : ℕ) → (base64_char_value (char_of n) ≡ some (n % 64)) × ((char_of n == b'=') ≡ false)
unfolding char_of
char_of_lem n = reads_lem (n % 64) (all_below_at 64 reads (n % 64) table_reads (omega arith))

-- One character, by the number of bits that stand in the accumulator.
no_byte :
    (c v : ℕ) (cs : Bytes) (accum bits : ℕ)
    → (c == b'=') ≡ false
    → base64_char_value c ≡ some v
    → leb 8 (bits + 6) ≡ false
    → decode_loop (c ∷ cs) accum bits ≡ decode_loop cs (shifted accum v) (bits + 6)
unfolding decode_loop
no_byte c v cs accum bits plain value few = rw (decode_loop, plain, value, few) refl

a_byte :
    (c v : ℕ) (cs : Bytes) (accum bits : ℕ)
    → (c == b'=') ≡ false
    → base64_char_value c ≡ some v
    → leb 8 (bits + 6) ≡ true
    → decode_loop (c ∷ cs) accum bits
      ≡ with_byte
          (shifted accum v / 2 ^ (bits + 6 - 8) % 256)
          (decode_loop cs (shifted accum v) (bits + 6 - 8))
unfolding decode_loop
a_byte c v cs accum bits plain value many = rw (decode_loop, plain, value, many) refl

-- The first two characters of a group give its first byte.
pub first_byte :
    (m n : ℕ) (cs : Bytes) (accum : ℕ)
    → let a = shifted (shifted accum (m % 64)) (n % 64) in
      decode_loop (char_of m ∷ char_of n ∷ cs) accum 0
      ≡ with_byte (a / 16 % 256) (decode_loop cs a 4)
first_byte m n cs accum =
    let (value, plain) = char_of_lem m in
    let (value', plain') = char_of_lem n in
    no_byte (char_of m) (m % 64) (char_of n ∷ cs) accum 0 plain value refl
    ∙ a_byte (char_of n) (n % 64) cs (shifted accum (m % 64)) 6 plain' value' refl

pub second_byte :
    (n : ℕ) (cs : Bytes) (accum : ℕ)
    → let a = shifted accum (n % 64) in
      decode_loop (char_of n ∷ cs) accum 4 ≡ with_byte (a / 4 % 256) (decode_loop cs a 2)
second_byte n cs accum =
    let (value, plain) = char_of_lem n in a_byte (char_of n) (n % 64) cs accum 4 plain value refl

pub third_byte :
    (n : ℕ) (cs : Bytes) (accum : ℕ)
    → let a = shifted accum (n % 64) in
      decode_loop (char_of n ∷ cs) accum 2 ≡ with_byte (a % 256) (decode_loop cs a 0)
third_byte n cs accum =
    let (value, plain) = char_of_lem n in
    a_byte (char_of n) (n % 64) cs accum 2 plain value refl
    ∙ ap (λ b. with_byte b (decode_loop cs (shifted accum (n % 64)) 0)) (omega arith)

-- What the shifts make of a group, whatever the accumulator held.
pub first_lem :
    (a x y z : ℕ)
    → x < 256
    → y < 256
    → z < 256
    → shifted (shifted a (triple x y z / 262144 % 64)) (triple x y z / 4096 % 64) / 16 % 256 ≡ x
first_lem a x y z hx hy hz = omega arith

pub second_lem :
    (a x y z : ℕ)
    → x < 256
    → y < 256
    → z < 256
    → shifted (shifted a (triple x y z / 4096 % 64)) (triple x y z / 64 % 64) / 4 % 256 ≡ y
second_lem a x y z hx hy hz = omega arith

pub third_lem :
    (a x y z : ℕ)
    → x < 256
    → y < 256
    → z < 256
    → shifted (shifted a (triple x y z / 64 % 64)) (triple x y z % 64) % 256 ≡ z
third_lem a x y z hx hy hz = omega arith
