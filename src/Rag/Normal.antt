-- ===== src/Rag/Normal.antt =====
-- A text that is normalized is left as it is by the text normalizer.
use vox_orchestra.Prelude.{
  ℕ, zero, suc, ◌≤◌, ◌≡◌, inl, inr, refl, sym, ap, ◌∙◌, Bool, true, false, not, ◌||◌, List, [], ◌∷◌,
  ◌++◌, append-nil, append_assoc, ltb, if◌then◌else◌, length, length-append, Bytes, Bool-cases,
  arith, All, All-append,
}
use vox_orchestra.SessionPipeline.{is_empty}
use vox_orchestra.Rag.Normalizer.{
  is_cjk, utf8_of, fold_width, is_space, is_alnum, is_token_char, to_lower, folded, take_char,
  normalize_text,
}
use vox_orchestra.Rag.CodePoints.{
  IsPlain, code_points, fold_left, scan_lem, fold_left-append, decode_utf8-utf8_of,
}

unfoldable pub encode : List ℕ → Bytes
unfolding utf8_of
encode [] = []
encode (c ∷ cs) = utf8_of c ++ encode cs

pub encode-append : (cs ds : List ℕ) → encode (cs ++ ds) ≡ encode cs ++ encode ds
unfolding encode
encode-append [] ds = refl
encode-append (c ∷ cs) ds =
    ap (λ t. utf8_of c ++ t) (encode-append cs ds)
    ∙ sym (append_assoc (utf8_of c) (encode cs) (encode ds))

fold_width-plain : (c : ℕ) → IsPlain c → fold_width c ≡ c
unfolding fold_width
fold_width-plain c (inl h) = ground arith
fold_width-plain c (inr (low, high)) = ground arith

utf8_of_pos : (c : ℕ) → 1 ≤ length (utf8_of c)
unfolding utf8_of
utf8_of_pos c = ground arith

-- The text of plain code points is read as these code points.
pub code_points-encode :
    (n : ℕ) (ds : List ℕ) → All IsPlain ds → length (encode ds) ≤ n → code_points n (encode ds) ≡ ds
unfolding code_points encode
code_points-encode zero [] h enough = refl
code_points-encode (suc n) [] h enough = refl
code_points-encode zero (d ∷ ds) h enough =
    let (b, bs, e, f) = decode_utf8-utf8_of d (encode ds) h.0 in
    absurd (omega (arith, enough, ap length e))
code_points-encode (suc n) (d ∷ ds) h enough =
    let (b, bs, e, f) = decode_utf8-utf8_of d (encode ds) h.0 in
    ap (code_points (suc n)) e
    ∙ rw (f, fold_width-plain d h.0)
        (ap (λ t. d ∷ t)
          (code_points-encode n ds h.1
            (omega (arith, enough, utf8_of_pos d, length-append (utf8_of d) (encode ds)))))

-- The body of the loop, on code points.
unfoldable pub take_point : ℕ → List ℕ × Bool → List ℕ × Bool
unfolding is_space is_token_char folded is_empty
take_point c (ds, pending_space) =
    if is_space c
    then (ds, pending_space || not (is_empty ds))
    else if not (is_token_char c)
    then (ds, pending_space)
    else ((if pending_space then ds ++ b' ' ∷ [] else ds) ++ folded c ∷ [], false)

abbrev pub encoded : List ℕ × Bool → Bytes × Bool
encoded (ds, pending_space) = (encode ds, pending_space)

is_empty-encode : (ds : List ℕ) → is_empty (encode ds) ≡ is_empty ds
unfolding encode is_empty utf8_of
is_empty-encode [] = refl
is_empty-encode (d ∷ ds) = ground arith

encode_end : (ds : List ℕ) (c : ℕ) → encode (ds ++ c ∷ []) ≡ encode ds ++ utf8_of c
unfolding encode
encode_end ds c = encode-append ds (c ∷ []) ∙ ap (λ t. encode ds ++ t) (append-nil (utf8_of c))

encode_blank : (ds : List ℕ) → encode (ds ++ b' ' ∷ []) ≡ encode ds ++ b' ' ∷ []
unfolding utf8_of
encode_blank ds = encode_end ds b' '

token_end :
    (p : Bool) (ds : List ℕ) (c : ℕ)
    → (if p then encode ds ++ b' ' ∷ [] else encode ds) ++ utf8_of c
      ≡ encode ((if p then ds ++ b' ' ∷ [] else ds) ++ c ∷ [])
token_end true ds c =
    ap (λ t. t ++ utf8_of c) (sym (encode_blank ds)) ∙ sym (encode_end (ds ++ b' ' ∷ []) c)
token_end false ds c = sym (encode_end ds c)

take_char-encoded : (c : ℕ) (s : List ℕ × Bool) → take_char c (encoded s) ≡ encoded (take_point c s)
unfolding take_char take_point
take_char-encoded c (ds, p) = elim (Bool-cases (is_space c)) [
  | inl e ↦ rw (take_char, take_point, e, is_empty-encode ds) refl
  | inr e ↦ elim (Bool-cases (is_token_char c)) [
    | inr f ↦ rw (take_char, take_point, e, f) refl
    | inl f ↦ rw (take_char, take_point, e, f) (ap (λ t. (t, false)) (token_end p ds (folded c)))
  ]
]

fold_left-encoded :
    (cs : List ℕ) (s : List ℕ × Bool)
    → fold_left take_char (encoded s) cs ≡ encoded (fold_left take_point s cs)
unfolding fold_left
fold_left-encoded [] s = refl
fold_left-encoded (c ∷ cs) s =
    ap (λ t. fold_left take_char t cs) (take_char-encoded c s)
    ∙ fold_left-encoded cs (take_point c s)

folded-IsPlain : (c : ℕ) → is_token_char c ≡ true → IsPlain (folded c)
unfolding is_token_char folded is_alnum is_cjk to_lower
folded-IsPlain c h = elim (Bool-cases (ltb c 128)) [
  | inl e ↦ inl (ground arith)
  | inr e ↦ inr (ground arith)
]

folded-is_token_char : (c : ℕ) → is_token_char c ≡ true → is_token_char (folded c) ≡ true
unfolding is_token_char folded is_alnum is_cjk to_lower
folded-is_token_char c h = ground arith

folded-is_space : (c : ℕ) → is_token_char c ≡ true → is_space (folded c) ≡ false
unfolding is_token_char folded is_alnum is_cjk to_lower is_space
folded-is_space c h = ground arith

folded-folded : (c : ℕ) → is_token_char c ≡ true → folded (folded c) ≡ folded c
unfolding is_token_char folded is_alnum is_cjk to_lower
folded-folded c h = ground arith

-- What the loop keeps: the code points so far are plain, and the loop makes them of themselves.
record IsNormal (s : List ℕ × Bool) : Type 0 where
  plain : All IsPlain s.0
  same : fold_left take_point ([], false) s.0 ≡ (s.0, false)
  filled : s.1 ≡ true → is_empty s.0 ≡ false

take_blank : (ds : List ℕ) → is_empty ds ≡ false → take_point b' ' (ds, false) ≡ (ds, true)
unfolding take_point is_space
take_blank ds h = ground arith

take_token :
    (c : ℕ) (ds : List ℕ) (p : Bool)
    → is_token_char c ≡ true
    → take_point (folded c) (ds, p) ≡ ((if p then ds ++ b' ' ∷ [] else ds) ++ folded c ∷ [], false)
unfolding take_point
take_token c ds p h =
    rw (take_point, folded-is_space c h, folded-is_token_char c h, folded-folded c h) refl

is_empty-append : (ds : List ℕ) (c : ℕ) → is_empty (ds ++ c ∷ []) ≡ false
unfolding is_empty
is_empty-append [] c = refl
is_empty-append (d ∷ ds) c = refl

token-IsNormal :
    (c : ℕ) (ds : List ℕ) (p : Bool)
    → is_token_char c ≡ true
    → IsNormal (ds, p)
    → IsNormal ((if p then ds ++ b' ' ∷ [] else ds) ++ folded c ∷ [], false)
unfolding fold_left
token-IsNormal c ds false h v = record {
  plain = All-append IsPlain ds (folded c ∷ []) v.plain (folded-IsPlain c h, tt);
  same =
      fold_left-append take_point ([], false) ds (folded c ∷ [])
      ∙ rw v.same (take_token c ds false h);
  filled = λ e. absurd (cc e);
}
token-IsNormal c ds true h v = record {
  plain =
      All-append IsPlain (ds ++ b' ' ∷ []) (folded c ∷ [])
        (All-append IsPlain ds (b' ' ∷ []) v.plain (inl (omega arith), tt))
        (folded-IsPlain c h, tt);
  same =
      fold_left-append take_point ([], false) (ds ++ b' ' ∷ []) (folded c ∷ [])
      ∙ rw (fold_left-append take_point ([], false) ds (b' ' ∷ []), v.same)
          (ap (take_point (folded c)) (take_blank ds (v.filled refl)) ∙ take_token c ds true h);
  filled = λ e. absurd (cc e);
}

filled_or :
    (p : Bool) (ds : List ℕ)
    → (p ≡ true → is_empty ds ≡ false)
    → (p || not (is_empty ds)) ≡ true
    → is_empty ds ≡ false
filled_or true ds h e = h refl
filled_or false ds h e = ground arith

take_point-IsNormal : (c : ℕ) (s : List ℕ × Bool) → IsNormal s → IsNormal (take_point c s)
unfolding take_point
take_point-IsNormal c (ds, p) v = elim (Bool-cases (is_space c)) [
  | inl e ↦
      rw (take_point, e)
        (record { plain = v.plain; same = v.same; filled = filled_or p ds v.filled })
  | inr e ↦ elim (Bool-cases (is_token_char c)) [
    | inr f ↦ rw (take_point, e, f) v
    | inl f ↦ rw (take_point, e, f) (token-IsNormal c ds p f v)
  ]
]

fold_left-IsNormal :
    (cs : List ℕ) (s : List ℕ × Bool) → IsNormal s → IsNormal (fold_left take_point s cs)
unfolding fold_left
fold_left-IsNormal [] s v = v
fold_left-IsNormal (c ∷ cs) s v = fold_left-IsNormal cs (take_point c s) (take_point-IsNormal c s v)

-- The code points of a normalized text.
unfoldable pub points_of : Bytes → List ℕ
unfolding code_points fold_left take_point
points_of text = (fold_left take_point ([], false) (code_points (length text) text)).0

pub normalize_text-encode : (text : Bytes) → normalize_text text ≡ encode (points_of text)
unfolding normalize_text points_of encode
normalize_text-encode text =
    ap (λ s. s.0)
      (scan_lem take_char (length text) text ([], false)
        ∙ fold_left-encoded (code_points (length text) text) ([], false))

points_of-IsNormal : (text : Bytes) → IsNormal (points_of text, false)
unfolding points_of fold_left
points_of-IsNormal text =
    let v =
      fold_left-IsNormal (code_points (length text) text) ([], false)
        (record { plain = tt; same = refl; filled = λ e. absurd (cc e) }) in
    record { plain = v.plain; same = v.same; filled = λ e. absurd (cc e) }

points_of-encode : (text : Bytes) → points_of (encode (points_of text)) ≡ points_of text
unfolding points_of
points_of-encode text =
    let v = points_of-IsNormal text in
    ap (λ cs. (fold_left take_point ([], false) cs).0)
      (code_points-encode (length (encode (points_of text))) (points_of text) v.plain (omega arith))
    ∙ ap (λ s. s.0) v.same

-- To normalize a text twice is to normalize it once, whatever bytes the text has.
pub normalize_text_twice :
    (text : Bytes) → normalize_text (normalize_text text) ≡ normalize_text text
normalize_text_twice text =
    ap normalize_text (normalize_text-encode text)
    ∙ normalize_text-encode (encode (points_of text))
    ∙ ap encode (points_of-encode text)
    ∙ sym (normalize_text-encode text)
