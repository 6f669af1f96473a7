-- ===== src/Rag/Tokens.antt =====
-- The tokens of a text hold the letters of the normalized text, in order.
use vox_orchestra.Prelude.{
  ℕ, ◌≡◌, inl, inr, refl, sym, ap, ap₂, ◌∙◌, Bool, true, false, List, [], ◌∷◌, ◌++◌, append-nil,
  append_assoc, ltb, ◌==◌, if◌then◌else◌, length, Bytes, Bool-cases, arith,
}
use vox_orchestra.Rag.Normalizer.{
  is_cjk, utf8_of, is_space, is_alnum, is_token_char, to_lower, folded, scan, take_char,
  normalize_text, flush, split_char, tokenize,
}
use vox_orchestra.Rag.CodePoints.{code_points, fold_left, scan_lem}

unfoldable pub concat : List Bytes → Bytes
concat [] = []
concat (t ∷ ts) = t ++ concat ts

concat-append : (ts us : List Bytes) → concat (ts ++ us) ≡ concat ts ++ concat us
unfolding concat
concat-append [] us = refl
concat-append (t ∷ ts) us =
    ap (λ x. t ++ x) (concat-append ts us) ∙ sym (append_assoc t (concat ts) (concat us))

concat_end : (ts : List Bytes) (t : Bytes) → concat (ts ++ t ∷ []) ≡ concat ts ++ t
unfolding concat
concat_end ts t = concat-append ts (t ∷ []) ∙ ap (λ x. concat ts ++ x) (append-nil t)

-- The text without its blanks.
unfoldable pub unblanked : Bytes → Bytes
unblanked [] = []
unblanked (b ∷ bs) = let rest = unblanked bs in if b == b' ' then rest else b ∷ rest

unblanked-append : (xs ys : Bytes) → unblanked (xs ++ ys) ≡ unblanked xs ++ unblanked ys
unfolding unblanked
unblanked-append [] ys = refl
unblanked-append (x ∷ xs) ys = elim (Bool-cases (x == b' ')) [
  | inl e ↦ rw e (unblanked-append xs ys)
  | inr e ↦ rw e (ap (λ t. x ∷ t) (unblanked-append xs ys))
]

-- What the loop of `tokenize` has gathered.
gathered : List Bytes × Bytes → Bytes
gathered (tokens, run) = concat tokens ++ run

gathered-flush : (s : List Bytes × Bytes) → gathered (flush s) ≡ gathered s
unfolding gathered flush
gathered-flush (tokens, []) = refl
gathered-flush (tokens, c ∷ run) =
    append-nil (concat (tokens ++ (c ∷ run) ∷ [])) ∙ concat_end tokens (c ∷ run)

flush_run : (s : List Bytes × Bytes) → (flush s).1 ≡ []
unfolding flush
flush_run (tokens, []) = refl
flush_run (tokens, c ∷ run) = refl

concat-flush : (s : List Bytes × Bytes) → concat (flush s).0 ≡ gathered s
unfolding gathered
concat-flush s =
    sym (append-nil (concat (flush s).0))
    ∙ ap (λ r. concat (flush s).0 ++ r) (sym (flush_run s))
    ∙ gathered-flush s

-- The letter that a character gives, if it gives one.
letter : ℕ → Bytes
letter c = if is_token_char c then utf8_of (folded c) else []

unblanked-letter :
    (c : ℕ) → is_token_char c ≡ true → unblanked (utf8_of (folded c)) ≡ utf8_of (folded c)
unfolding unblanked utf8_of folded is_token_char is_alnum is_cjk to_lower
unblanked-letter c h = ground arith

space_apart : (c : ℕ) → is_space c ≡ true → is_token_char c ≡ false
unfolding is_space is_token_char is_alnum is_cjk
space_apart c h = ground arith

unblanked_pending :
    (p : Bool) (out : Bytes) → unblanked (if p then out ++ b' ' ∷ [] else out) ≡ unblanked out
unfolding unblanked
unblanked_pending true out = unblanked-append out (b' ' ∷ []) ∙ append-nil (unblanked out)
unblanked_pending false out = refl

take_char-letter :
    (c : ℕ) (s : Bytes × Bool) → unblanked (take_char c s).0 ≡ unblanked s.0 ++ letter c
unfolding take_char letter
take_char-letter c (out, p) = elim (Bool-cases (is_space c)) [
  | inl e ↦ rw (take_char, e, space_apart c e) (sym (append-nil (unblanked out)))
  | inr e ↦ elim (Bool-cases (is_token_char c)) [
    | inr f ↦ rw (take_char, e, f) (sym (append-nil (unblanked out)))
    | inl f ↦
        rw (take_char, e, f)
          (unblanked-append (if p then out ++ b' ' ∷ [] else out) (utf8_of (folded c))
            ∙ ap₂ (λ x y. x ++ y) (unblanked_pending p out) (unblanked-letter c f))
  ]
]

letter_alnum : (c : ℕ) → ltb c 128 ≡ true → is_alnum c ≡ true → letter c ≡ to_lower c ∷ []
unfolding letter is_token_char folded utf8_of to_lower is_alnum
letter_alnum c e f = ground arith

letter_cjk : (c : ℕ) → ltb c 128 ≡ false → is_cjk c ≡ true → letter c ≡ utf8_of c
unfolding letter is_token_char folded
letter_cjk c e f = rw (letter, is_token_char, folded, e, f) refl

no_letter : (c : ℕ) → (if ltb c 128 then is_alnum c else is_cjk c) ≡ false → letter c ≡ []
unfolding letter is_token_char
no_letter c e = rw (letter, is_token_char, e) refl

flush-letter :
    (c : ℕ) (s : List Bytes × Bytes)
    → (if ltb c 128 then is_alnum c else is_cjk c) ≡ false
    → gathered (flush s) ≡ gathered s ++ letter c
flush-letter c s e =
    gathered-flush s
    ∙ sym (append-nil (gathered s))
    ∙ ap (λ t. gathered s ++ t) (sym (no_letter c e))

split_cjk :
    (c : ℕ) (s : List Bytes × Bytes)
    → ltb c 128 ≡ false
    → is_cjk c ≡ true
    → split_char c s ≡ ((flush s).0 ++ utf8_of c ∷ [], [])
unfolding split_char
split_cjk c (tokens, run) e f = rw (split_char, e, f) refl

split_char-letter :
    (c : ℕ) (s : List Bytes × Bytes) → gathered (split_char c s) ≡ gathered s ++ letter c
unfolding split_char gathered
split_char-letter c (tokens, run) = elim (Bool-cases (ltb c 128)) [
  | inl e ↦ elim (Bool-cases (is_alnum c)) [
    | inl f ↦
        rw (split_char, e, f)
          (sym (append_assoc (concat tokens) run (to_lower c ∷ []))
            ∙ ap (λ t. (concat tokens ++ run) ++ t) (sym (letter_alnum c e f)))
    | inr f ↦ rw (split_char, e, f) (flush-letter c (tokens, run) (rw (e, f) refl))
  ]
  | inr e ↦ elim (Bool-cases (is_cjk c)) [
    | inl f ↦
        ap gathered (split_cjk c (tokens, run) e f)
        ∙ (append-nil (concat ((flush (tokens, run)).0 ++ utf8_of c ∷ []))
            ∙ concat_end (flush (tokens, run)).0 (utf8_of c)
            ∙ ap₂ (λ x y. x ++ y) (concat-flush (tokens, run)) (sym (letter_cjk c e f)))
    | inr f ↦ rw (split_char, e, f) (flush-letter c (tokens, run) (rw (e, f) refl))
  ]
]

letters_agree :
    (cs : List ℕ) (s : List Bytes × Bytes) (t : Bytes × Bool)
    → gathered s ≡ unblanked t.0
    → gathered (fold_left split_char s cs) ≡ unblanked (fold_left take_char t cs).0
unfolding fold_left
letters_agree [] s t e = e
letters_agree (c ∷ cs) s t e =
    letters_agree cs (split_char c s) (take_char c t)
      (split_char-letter c s ∙ ap (λ x. x ++ letter c) e ∙ sym (take_char-letter c t))

-- The tokens of a text, one behind the other, are the normalized text without its blanks, whatever
-- bytes the text has: `tokenize` and `normalize_text` keep the same characters.
pub concat-tokenize : (text : Bytes) → concat (tokenize text) ≡ unblanked (normalize_text text)
unfolding tokenize normalize_text unblanked gathered concat
concat-tokenize text =
    let points = code_points (length text) text in
    concat-flush (scan split_char (length text) text ([], []))
    ∙ ap gathered (scan_lem split_char (length text) text ([], []))
    ∙ letters_agree points ([], []) ([], false) refl
    ∙ ap (λ s. unblanked s.0) (sym (scan_lem take_char (length text) text ([], false)))
