-- ===== src/Rag/Normalizer.antt =====
-- The text normalizer: libs/rag/src/text_normalizer.cpp and
-- libs/rag/include/voxorchestra/rag/text_normalizer.hpp. A text is what is left of it from `pos` on, and
-- the masks and shifts on a byte are quotients and remainders of it, for values below 256.
use vox_orchestra.Prelude.{
  ℕ, zero, suc, ◌+◌, ◌-◌, ◌*◌, ◌/◌, ◌%◌, Bool, false, not, ◌&&◌, ◌||◌, Option, none, some, List, [],
  ◌∷◌, ◌++◌, ltb, leb, ◌==◌, if◌then◌else◌, length, Bytes,
}
use vox_orchestra.SessionPipeline.{is_empty}

unfoldable pub is_cjk : ℕ → Bool
is_cjk c = leb 19968 c && leb c 40959

-- `(b & 0xC0) == 0x80`.
unfoldable pub is_continuation : ℕ → Bool
is_continuation b = b / 64 == 2

-- The loop over the continuation bytes; `none` where one is not valid.
unfoldable pub continue : ℕ → ℕ → Bytes → Option (ℕ × Bytes)
unfolding is_continuation
continue zero cp bs = some (cp, bs)
continue (suc n) cp [] = none
continue (suc n) cp (b ∷ bs) =
    let rest = continue n (cp * 64 + b % 64) bs in if is_continuation b then rest else none

-- A lead byte that announces `extra` bytes more, before the bytes `bs`.
unfoldable pub sequence : ℕ → ℕ → ℕ → Bytes → ℕ × Bytes
unfolding continue
sequence lead extra cp bs =
    if ltb (length bs) extra
    then (0, [])
    else elim (continue extra cp bs) [ none ↦ (lead, bs) | some found ↦ found ]

-- The code point at the head of a text, and the text behind it.
unfoldable pub decode_utf8 : ℕ → Bytes → ℕ × Bytes
unfolding sequence
decode_utf8 lead bs =
    if ltb lead 128
    then (lead, bs)
    else if lead / 32 == 6
    then sequence lead 1 (lead % 32) bs
    else if lead / 16 == 14
    then sequence lead 2 (lead % 16) bs
    else if lead / 8 == 30
    then sequence lead 3 (lead % 8) bs
    else (lead, bs)

-- What `append_utf8` appends.
unfoldable pub utf8_of : ℕ → Bytes
utf8_of cp =
    if ltb cp 128
    then cp ∷ []
    else if ltb cp 2048
    then (192 + cp / 64) ∷ (128 + cp % 64) ∷ []
    else if ltb cp 65536
    then (224 + cp / 4096) ∷ (128 + cp / 64 % 64) ∷ (128 + cp % 64) ∷ []
    else (240 + cp / 262144) ∷ (128 + cp / 4096 % 64) ∷ (128 + cp / 64 % 64) ∷ (128 + cp % 64) ∷ []

unfoldable pub fold_width : ℕ → ℕ
fold_width c = if leb 65281 c && leb c 65374 then c - 65248 else if c == 12288 then 32 else c

unfoldable pub is_space : ℕ → Bool
is_space c = c == 32 || c == 9 || c == 10 || c == 13

-- `std::isalnum` and `std::tolower` of the "C" locale, for values below 128.
unfoldable pub is_alnum : ℕ → Bool
is_alnum c = (leb b'0' c && leb c b'9') || (leb b'A' c && leb c b'Z') || (leb b'a' c && leb c b'z')

unfoldable pub to_lower : ℕ → ℕ
to_lower c = if leb b'A' c && leb c b'Z' then c + 32 else c

unfoldable pub is_token_char : ℕ → Bool
unfolding is_alnum is_cjk
is_token_char c = if ltb c 128 then is_alnum c else is_cjk c

unfoldable pub folded : ℕ → ℕ
unfolding to_lower
folded c = if ltb c 128 then to_lower c else c

-- `while (pos < text.size())`, with the body as an argument. Each round takes a byte at least.
unfoldable pub scan {ℓ} : {S : Type ℓ} → (ℕ → S → S) → ℕ → Bytes → S → S
unfolding decode_utf8 fold_width
scan body zero text s = s
scan body (suc n) [] s = s
scan body (suc n) (b ∷ bs) s =
    let (c, rest) = decode_utf8 b bs in scan body n rest (body (fold_width c) s)

-- The body of the loop of `normalize_text`, on `out` and `pending_space`.
unfoldable pub take_char : ℕ → Bytes × Bool → Bytes × Bool
unfolding is_space is_token_char folded utf8_of is_empty
take_char c (out, pending_space) =
    if is_space c
    then (out, pending_space || not (is_empty out))
    else if not (is_token_char c)
    then (out, pending_space)
    else ((if pending_space then out ++ b' ' ∷ [] else out) ++ utf8_of (folded c), false)

unfoldable pub normalize_text : Bytes → Bytes
unfolding scan take_char
normalize_text text = (scan take_char (length text) text ([], false)).0

-- The run of letters and digits becomes a token.
unfoldable pub flush : List Bytes × Bytes → List Bytes × Bytes
flush (tokens, []) = (tokens, [])
flush (tokens, c ∷ run) = (tokens ++ (c ∷ run) ∷ [], [])

-- The body of the loop of `tokenize`, on `tokens` and `ascii_run`.
unfoldable pub split_char : ℕ → List Bytes × Bytes → List Bytes × Bytes
unfolding flush is_alnum to_lower is_cjk utf8_of
split_char c (tokens, run) =
    if ltb c 128
    then (if is_alnum c then (tokens, run ++ to_lower c ∷ []) else flush (tokens, run))
    else if is_cjk c
    then ((flush (tokens, run)).0 ++ utf8_of c ∷ [], [])
    else flush (tokens, run)

unfoldable pub tokenize : Bytes → List Bytes
unfolding scan split_char flush
tokenize text = (flush (scan split_char (length text) text ([], []))).0
