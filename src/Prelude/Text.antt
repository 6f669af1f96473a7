-- ===== src/Prelude/Text.antt =====
-- Byte strings (`std::string`), their equality, and `std::to_string`.
use Prim.Native.Nat.{ℕ, zero, suc, ◌+◌, ◌-◌, ◌*◌, ◌/◌, ◌%◌, ◌<◌}
use Prim.Native.Char.{code}
use Prim.Native.String.{String}
use mathlib.Core.Path.{◌≡◌, refl, sym, ap, ◌∙◌}
use mathlib.Core.Logic.{◌↔◌, inl, inr}
use mathlib.Core.Bool.{Bool, true, false, ◌&&◌}
use mathlib.Core.List.{List, [], ◌∷◌, ◌++◌}
use native.Mathlib.Omega.{arith}
use vox_orchestra.Prelude.Lists.{All}
use vox_orchestra.Prelude.Tests.{◌==◌, if◌then◌else◌, ltb, ltb→lt, Bool-cases}

abbrev pub Bytes : Type 0
Bytes = List ℕ

-- The code points of a text; its bytes, if it is ASCII.
abbrev pub codes : String → Bytes
codes String.[] = []
codes (String.◌∷◌ c s) = code c ∷ codes s

-- One code point in UTF-8.
utf8_char : ℕ → Bytes
utf8_char c =
    if ltb c 128
    then c ∷ []
    else if ltb c 2048
    then (192 + c / 64) ∷ (128 + c % 64) ∷ []
    else if ltb c 65536
    then (224 + c / 4096) ∷ (128 + c / 64 % 64) ∷ (128 + c % 64) ∷ []
    else (240 + c / 262144) ∷ (128 + c / 4096 % 64) ∷ (128 + c / 64 % 64) ∷ (128 + c % 64) ∷ []

-- The bytes of a literal of the source, which is in UTF-8.
unfoldable pub utf8 : String → Bytes
unfolding utf8_char
utf8 String.[] = []
utf8 (String.◌∷◌ c s) = utf8_char (code c) ++ utf8 s

unfoldable pub bytes_eq : Bytes → Bytes → Bool
bytes_eq [] [] = true
bytes_eq (x ∷ xs) (y ∷ ys) = x == y && bytes_eq xs ys
bytes_eq _ _ = false

pub bytes_eq_iff : (a b : Bytes) → (bytes_eq a b ≡ true) ↔ (a ≡ b)
unfolding bytes_eq
bytes_eq_iff (x ∷ a) (y ∷ b) = ground (arith, bytes_eq_iff a b)
bytes_eq_iff _ _ = ground arith

-- The decimal digits of `n` in front of `rest`; one round for each digit.
decimal_onto : ℕ → ℕ → Bytes → Bytes
decimal_onto zero n rest = rest
decimal_onto (suc f) n rest = elim (ltb n 10) [
  | true ↦ (b'0' + n % 10) ∷ rest
  | false ↦ decimal_onto f (n / 10) ((b'0' + n % 10) ∷ rest)
]

unfoldable pub to_string : ℕ → Bytes
unfolding decimal_onto
to_string n = decimal_onto (suc n) n []

-- The number that digits stand for, behind a number already read.
unfoldable pub read_decimal : ℕ → Bytes → ℕ
read_decimal v [] = v
read_decimal v (c ∷ cs) = read_decimal (v * 10 + (c - b'0')) cs

read_decimal-decimal_onto :
    (f n : ℕ) (rest : Bytes) → n < f → read_decimal 0 (decimal_onto f n rest) ≡ read_decimal n rest
unfolding read_decimal decimal_onto
read_decimal-decimal_onto zero n rest h = elim h [ ]
read_decimal-decimal_onto (suc f) n rest h = elim (Bool-cases (ltb n 10)) [
  | inl e ↦ rw (e, read_decimal) (ap (λ v. read_decimal v rest) (omega (arith, ltb→lt n 10 e)))
  | inr e ↦
      rw (e, read_decimal)
        (read_decimal-decimal_onto f (n / 10) _ (ground arith)
          ∙ ap (λ v. read_decimal v rest) (omega arith))
]

pub read_decimal-to_string : (n : ℕ) → read_decimal 0 (to_string n) ≡ n
unfolding to_string read_decimal
read_decimal-to_string n = read_decimal-decimal_onto (suc n) n [] (omega arith)

abbrev pub IsDigit : ℕ → Type 0
IsDigit c = (47 < c) × (c < 58)

decimal_onto-digits :
    (f n : ℕ) (rest : Bytes) → All IsDigit rest → All IsDigit (decimal_onto f n rest)
unfolding decimal_onto
decimal_onto-digits zero n rest h = h
decimal_onto-digits (suc f) n rest h =
    let d : IsDigit (b'0' + n % 10) = (omega arith, omega arith) in
    elim (Bool-cases (ltb n 10)) [
      | inl e ↦ rw (All, e) (d, h)
      | inr e ↦ rw (All, e) (decimal_onto-digits f (n / 10) _ (d, h))
    ]

pub to_string-digits : (n : ℕ) → All IsDigit (to_string n)
unfolding to_string
to_string-digits n = decimal_onto-digits (suc n) n [] tt

-- Different numbers have different texts.
pub to_string-injective : (a b : ℕ) → to_string a ≡ to_string b → a ≡ b
unfolding to_string read_decimal
to_string-injective a b h =
    sym (read_decimal-to_string a) ∙ ap (read_decimal 0) h ∙ read_decimal-to_string b

pub bytes_eq_refl : (a : Bytes) → bytes_eq a a ≡ true
unfolding bytes_eq
bytes_eq_refl [] = refl
bytes_eq_refl (x ∷ a) = ground (arith, bytes_eq_refl a)
