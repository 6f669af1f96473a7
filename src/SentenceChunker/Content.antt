-- ===== src/SentenceChunker/Content.antt =====
-- What the splitter keeps of a text: all that is spoken, in order, cut into sentences.
use vox_orchestra.Prelude.{
  ℕ, ◌≡◌, ◌≢◌, ◌⊎◌, refl, sym, ap, ◌∙◌, true, false, ◌||◌, List, [], ◌∷◌, ◌++◌, ◌==◌, if◌then◌else◌,
  Bytes, All, All-append, append-nil, append_assoc, arith, Bool-cases, inl, inr, map, subst,
}
use vox_orchestra.SentenceChunker.{
  Chunker, Progress, is_cjk_terminator, finish, on_terminator, on_byte, feed_loop,
}

-- A byte that belongs to a sentence.
abbrev pub IsPlain : ℕ → Type 0
IsPlain c = (c ≢ b'!') × (c ≢ b'?') × (c ≢ b';') × (c ≢ b'\n') × (c ≢ b'\r')

abbrev spoken_byte : ℕ → Bytes
spoken_byte c =
    if c == b'!' || c == b'?' || c == b';' || c == b'\n' || c == b'\r' then [] else c ∷ []

-- A text without its marks and line ends.
unfoldable pub spoken : Bytes → Bytes
unfolding is_cjk_terminator
spoken [] = []
spoken (c ∷ []) = spoken_byte c
spoken (c ∷ d ∷ []) = spoken_byte c ++ spoken_byte d
spoken (c ∷ d ∷ e ∷ cs) =
    let mark = spoken cs in
    let byte = spoken_byte c ++ spoken (d ∷ e ∷ cs) in
    if is_cjk_terminator c d e then mark else byte

-- What may end a sentence; the empty mark is a line end.
pub data IsMark : Bytes → Type 0 where
  line_end : IsMark []
  ascii : (c : ℕ) → (c == b'!' || c == b'?' || c == b';') ≡ true → IsMark (c ∷ [])
  cjk : (c d e : ℕ) → is_cjk_terminator c d e ≡ true → IsMark (c ∷ d ∷ e ∷ [])

pub record Sentence : Type 0 where
  pub body : Bytes
  pub mark : Bytes

abbrev pub text_of : Sentence → Bytes
text_of s = s.body ++ s.mark

pub record IsSentence (s : Sentence) : Type 0 where
  pub not_empty : s.body ≢ []
  pub plain : All IsPlain s.body
  pub marked : IsMark s.mark

abbrev pub bodies : List Sentence → Bytes
bodies [] = []
bodies (s ∷ ss) = s.body ++ bodies ss

pub bodies-append : (xs ys : List Sentence) → bodies (xs ++ ys) ≡ bodies xs ++ bodies ys
bodies-append [] ys = refl
bodies-append (x ∷ xs) ys = rw (bodies-append xs ys) (sym (append_assoc x.body _ _))

pub map_text-append :
    (xs ys : List Sentence) → map text_of (xs ++ ys) ≡ map text_of xs ++ map text_of ys
map_text-append [] ys = refl
map_text-append (x ∷ xs) ys = ap (◌∷◌ (text_of x)) (map_text-append xs ys)

-- The sentences handed out and the unfinished one hold `said`, in order and in whole.
pub record IsCut (said : Bytes) (p : Progress) : Type 0 where
  pub parts : List Sentence
  pub texts : p.1 ≡ map text_of parts
  pub kept : bodies parts ++ p.0.cur ≡ said
  pub sound : All IsSentence parts
  pub plain_rest : All IsPlain p.0.cur
  pub settled : p.0.split_pending ≡ true → p.0.cur ≡ []

finish-IsCut :
    (said : Bytes) (xs mark : Bytes) (k : Chunker) (out : List Bytes)
    → k.cur ≡ xs
    → IsMark mark
    → IsCut said (k, out)
    → IsCut said (finish xs mark (k, out))
unfolding finish
finish-IsCut said [] mark k out e m h = h
finish-IsCut said (c ∷ cs) mark k out e m h = record {
  parts = h.parts ++ this ∷ [];
  texts = rw (map_text-append h.parts (this ∷ []), h.texts) refl;
  kept =
      append-nil (bodies (h.parts ++ this ∷ []))
      ∙ bodies-append h.parts (this ∷ [])
      ∙ ap (◌++◌ (bodies h.parts)) (append-nil (c ∷ cs) ∙ sym e)
      ∙ h.kept;
  sound =
      All-append IsSentence h.parts (this ∷ []) h.sound (
        record { not_empty = λ z. cc; plain = subst (All IsPlain) e h.plain_rest; marked = m },
        tt,
      );
  plain_rest = tt;
  settled = λ _. refl;
}
  where
    this : Sentence
    this = record { body = c ∷ cs; mark = mark }

on_terminator-IsCut :
    (said mark : Bytes) (p : Progress)
    → IsMark mark
    → IsCut said p
    → IsCut said (on_terminator mark p)
unfolding on_terminator
on_terminator-IsCut said mark (k, out) m h = elim (Bool-cases k.split_pending) [
  | inl e ↦ simp e h
  | inr e ↦ simp e (finish-IsCut said k.cur mark k out refl m h)
]

add_byte-IsCut :
    (said : Bytes) (c : ℕ) (k : Chunker) (out : List Bytes)
    → IsPlain c
    → IsCut said (k, out)
    → IsCut (said ++ c ∷ []) (record { cur = k.cur ++ c ∷ []; split_pending = false }, out)
add_byte-IsCut said c k out n h = record {
  parts = h.parts;
  texts = h.texts;
  kept = sym (append_assoc (bodies h.parts) k.cur (c ∷ [])) ∙ ap (λ x. x ++ c ∷ []) h.kept;
  sound = h.sound;
  plain_rest = All-append IsPlain k.cur (c ∷ []) h.plain_rest (n, tt);
  settled = λ z. cc;
}

byte_cases : (c : ℕ) → (c ≡ b'!') ⊎ (c ≡ b'?') ⊎ (c ≡ b';') ⊎ (c ≡ b'\n') ⊎ (c ≡ b'\r') ⊎ IsPlain c
byte_cases c = ground arith

spoken_plain : (c : ℕ) → IsPlain c → spoken_byte c ≡ c ∷ []
spoken_plain c h = ground arith

on_byte_plain :
    (c : ℕ) (k : Chunker) (out : List Bytes)
    → IsPlain c
    → on_byte c (k, out) ≡ (record { cur = k.cur ++ c ∷ []; split_pending = false }, out)
unfolding on_byte
on_byte_plain c k out h = ground arith

-- A byte that ends a sentence, or is skipped.
silent-IsCut :
    (said : Bytes) (b : ℕ) (p : Progress) {c : ℕ}
    → c ≡ b
    → spoken_byte b ≡ []
    → IsCut said (on_byte b p)
    → IsCut (said ++ spoken_byte c) (on_byte c p)
silent-IsCut said b p e s h = rw (e, s, append-nil) h

on_byte-IsCut :
    (said : Bytes) (c : ℕ) (p : Progress)
    → IsCut said p
    → IsCut (said ++ spoken_byte c) (on_byte c p)
unfolding on_byte
on_byte-IsCut said c (k, out) h = elim (byte_cases c) [
  | inl e ↦
      silent-IsCut said b'!' (k, out) e refl
        (on_terminator-IsCut said (b'!' ∷ []) (k, out) (ascii b'!' refl) h)
  | inr (inl e) ↦
      silent-IsCut said b'?' (k, out) e refl
        (on_terminator-IsCut said (b'?' ∷ []) (k, out) (ascii b'?' refl) h)
  | inr (inr (inl e)) ↦
      silent-IsCut said b';' (k, out) e refl
        (on_terminator-IsCut said (b';' ∷ []) (k, out) (ascii b';' refl) h)
  | inr (inr (inr (inl e))) ↦
      silent-IsCut said b'\n' (k, out) e refl (on_terminator-IsCut said [] (k, out) line_end h)
  | inr (inr (inr (inr (inl e)))) ↦ silent-IsCut said b'\r' (k, out) e refl h
  | inr (inr (inr (inr (inr n)))) ↦
      rw (spoken_plain c n, on_byte_plain c k out n) (add_byte-IsCut said c k out n h)
]

pub feed_loop-IsCut :
    (text said : Bytes) (p : Progress)
    → IsCut said p
    → IsCut (said ++ spoken text) (feed_loop text p)
unfolding spoken feed_loop
feed_loop-IsCut [] said p h = rw append-nil h
feed_loop-IsCut (c ∷ []) said p h = on_byte-IsCut said c p h
feed_loop-IsCut (c ∷ d ∷ []) said p h =
    rw (← append_assoc said (spoken_byte c) (spoken_byte d))
      (on_byte-IsCut (said ++ spoken_byte c) d (on_byte c p) (on_byte-IsCut said c p h))
feed_loop-IsCut (c ∷ d ∷ e ∷ cs) said p h = elim (Bool-cases (is_cjk_terminator c d e)) [
  | inl m ↦ rw m (feed_loop-IsCut cs said _ (on_terminator-IsCut said _ p (cjk c d e m) h))
  | inr m ↦
      rw (m, ← append_assoc said (spoken_byte c) (spoken (d ∷ e ∷ cs)))
        (feed_loop-IsCut (d ∷ e ∷ cs) _ _ (on_byte-IsCut said c p h))
]
