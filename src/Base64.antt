-- ===== src/Base64.antt =====
-- Base64: libs/common/include/voxorchestra/common/base64.hpp. The accumulator is an `int` of 32 bits,
-- kept as its bit pattern; only its low bits are read, where a shift of either kind agrees.
pub mod Quads
pub mod RoundTrip
mod Tests
use vox_orchestra.Prelude.{
  ℕ, ◌+◌, ◌-◌, ◌*◌, ◌/◌, ◌%◌, ◌^◌, Bool, true, false, ◌&&◌, Option, none, some, List, [], ◌∷◌, leb,
  ◌==◌, if◌then◌else◌, get_or, Bytes, codes,
}

abbrev pub base64_chars : Bytes
base64_chars = codes "ABCDEFGHIJKLMNOPQRSTUVWXYZabcdefghijklmnopqrstuvwxyz0123456789+/"

abbrev between : ℕ → ℕ → ℕ → Bool
between a c z = leb a c && leb c z

-- `none` stands for -1.
unfoldable pub base64_char_value : ℕ → Option ℕ
base64_char_value c =
    if between b'A' c b'Z'
    then some (c - b'A')
    else if between b'a' c b'z'
    then some (c - b'a' + 26)
    else if between b'0' c b'9'
    then some (c - b'0' + 52)
    else if c == b'+'
    then some 62
    else if c == b'/'
    then some 63
    else none

-- The character of six bits.
unfoldable pub char_of : ℕ → ℕ
char_of v = get_or base64_chars (v % 64) 0

-- The bytes do not overlap, so `|` is a sum.
abbrev pub triple : ℕ → ℕ → ℕ → ℕ
triple x y z = x * 65536 + y * 256 + z

unfoldable pub encode : Bytes → Bytes
unfolding char_of
encode [] = []
encode (x ∷ []) = char_of (triple x 0 0 / 262144) ∷ char_of (triple x 0 0 / 4096) ∷ b'=' ∷ b'=' ∷ []
encode (x ∷ y ∷ []) =
    char_of (triple x y 0 / 262144)
    ∷ char_of (triple x y 0 / 4096)
    ∷ char_of (triple x y 0 / 64)
    ∷ b'='
    ∷ []
encode (x ∷ y ∷ z ∷ rest) =
    let t = triple x y z in
    char_of (t / 262144) ∷ char_of (t / 4096) ∷ char_of (t / 64) ∷ char_of t ∷ encode rest

abbrev pub shifted : ℕ → ℕ → ℕ
shifted accum v = (accum * 64 + v) % 2 ^ 32

abbrev pub with_byte : ℕ → Option Bytes → Option Bytes
with_byte b none = none
with_byte b (some bs) = some (b ∷ bs)

-- `none` is the exception.
unfoldable pub decode_loop : Bytes → ℕ → ℕ → Option Bytes
unfolding base64_char_value
decode_loop [] accum bits = some []
decode_loop (c ∷ cs) accum bits = elim (c == b'=') [
  | true ↦ some []
  | false ↦ elim (base64_char_value c) [
    | none ↦ none
    | some v ↦
        let accum' = shifted accum v in
        elim (leb 8 (bits + 6)) [
          | true ↦
              with_byte (accum' / 2 ^ (bits + 6 - 8) % 256) (decode_loop cs accum' (bits + 6 - 8))
          | false ↦ decode_loop cs accum' (bits + 6)
        ]
  ]
]

unfoldable pub decode : Bytes → Option Bytes
unfolding decode_loop
decode s = decode_loop s 0 0
