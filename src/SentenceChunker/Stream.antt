-- ===== src/SentenceChunker/Stream.antt =====
-- The splitter over a stream of texts, as the session drives it: a `feed` for each token, and a
-- `flush` at the end.
use vox_orchestra.Prelude.{
  ℕ, ◌≤◌, ◌<◌, ◌≡◌, ◌⊎◌, refl, sym, ap, ◌∙◌, true, false, List, [], ◌∷◌, ◌++◌, Bytes, All,
  All-append, append-nil, append_assoc, arith, Bool-cases, inl, inr, map,
}
use vox_orchestra.SentenceChunker.{
  Chunker, Progress, is_cjk_terminator, finish, on_terminator, on_byte, feed_loop, feed, flush,
  rest_of,
}
use vox_orchestra.SentenceChunker.Content.{
  IsPlain, spoken, Sentence, text_of, IsSentence, bodies, bodies-append, map_text-append, IsCut,
  feed_loop-IsCut, line_end,
}

-- All sentences of a stream.
unfoldable pub speak : List Bytes → Chunker → List Bytes
speak [] k = (flush k).1
speak (t ∷ ts) k = (feed t k).1 ++ speak ts (feed t k).0

unfoldable pub all_spoken : List Bytes → Bytes
all_spoken [] = []
all_spoken (t ∷ ts) = spoken t ++ all_spoken ts

pub record IsReady (k : Chunker) : Type 0 where
  pub plain : All IsPlain k.cur
  pub settled : k.split_pending ≡ true → k.cur ≡ []

-- The sentences `out` hold what is spoken in `said`, in order and in whole.
pub record AreSentences (said : Bytes) (out : List Bytes) : Type 0 where
  pub parts : List Sentence
  pub texts : out ≡ map text_of parts
  pub kept : bodies parts ≡ said
  pub sound : All IsSentence parts

one-AreSentences : (said : Bytes) → All IsPlain said → AreSentences said (rest_of said)
unfolding rest_of
one-AreSentences [] h = record { parts = []; texts = refl; kept = refl; sound = tt }
one-AreSentences (c ∷ cs) h = record {
  parts = record { body = c ∷ cs; mark = [] } ∷ [];
  texts = rw append-nil;
  kept = append-nil (c ∷ cs);
  sound = (record { not_empty = λ e. cc; plain = h; marked = line_end }, tt);
}

flush-AreSentences : (k : Chunker) → IsReady k → AreSentences k.cur (flush k).1
unfolding flush
flush-AreSentences k r = elim (Bool-cases k.split_pending) [
  | inl e ↦ rw (r.settled e) (simp e (one-AreSentences [] tt))
  | inr e ↦ simp e (one-AreSentences k.cur r.plain)
]

feed-IsCut : (text : Bytes) (k : Chunker) → IsReady k → IsCut (k.cur ++ spoken text) (feed text k)
unfolding feed
feed-IsCut text k r =
    feed_loop-IsCut text k.cur (k, [])
      (record {
        parts = [];
        texts = refl;
        kept = refl;
        sound = tt;
        plain_rest = r.plain;
        settled = r.settled;
      })

join-AreSentences :
    (said rest : Bytes) (p : Progress) (more : List Bytes)
    → IsCut said p
    → AreSentences (p.0.cur ++ rest) more
    → AreSentences (said ++ rest) (p.1 ++ more)
join-AreSentences said rest p more h m = record {
  parts = h.parts ++ m.parts;
  texts = rw (map_text-append h.parts m.parts, h.texts, m.texts);
  kept =
      bodies-append h.parts m.parts
      ∙ ap (◌++◌ (bodies h.parts)) m.kept
      ∙ sym (append_assoc (bodies h.parts) p.0.cur rest)
      ∙ ap (λ x. x ++ rest) h.kept;
  sound = All-append IsSentence h.parts m.parts h.sound m.sound;
}

-- From a chunker that is ready, the sentences of a whole stream hold, in order and in whole, what
-- it had begun and what the stream says; each begins with content, has none of the marks of one byte
-- and no line end inside, and ends in one mark at most. (Whether a mark of three
-- bytes stands inside is not said.)
pub speak-AreSentences :
    (ts : List Bytes) (k : Chunker) → IsReady k → AreSentences (k.cur ++ all_spoken ts) (speak ts k)
unfolding speak all_spoken
speak-AreSentences [] k r = rw append-nil (flush-AreSentences k r)
speak-AreSentences (t ∷ ts) k r =
    let cut = feed-IsCut t k r in
    rw (← append_assoc k.cur (spoken t) (all_spoken ts)) (
      join-AreSentences (k.cur ++ spoken t) (all_spoken ts) (feed t k) _ cut
        (speak-AreSentences ts _ (record { plain = cut.plain_rest; settled = cut.settled })))

-- The text begins with a whole character of UTF-8: not with a continuation byte.
abbrev pub StartsChar : Bytes → Type 0
StartsChar [] = Unit
StartsChar (c ∷ _) = (c < 0x80) ⊎ (0xC0 ≤ c)

no_mark_in : (c d e : ℕ) → (d < 0x80) ⊎ (0xC0 ≤ d) → is_cjk_terminator c d e ≡ false
unfolding is_cjk_terminator
no_mark_in c d e h = ground arith

no_mark_at : (c d e : ℕ) → (e < 0x80) ⊎ (0xC0 ≤ e) → is_cjk_terminator c d e ≡ false
unfolding is_cjk_terminator
no_mark_at c d e h = ground arith

feed_loop-append :
    (a b : Bytes) (p : Progress) → StartsChar b → feed_loop (a ++ b) p ≡ feed_loop b (feed_loop a p)
unfolding feed_loop
feed_loop-append [] b p h = refl
feed_loop-append (c ∷ []) [] p h = refl
feed_loop-append (c ∷ []) (d ∷ []) p h = refl
feed_loop-append (c ∷ []) (d ∷ e ∷ b) p h = rw (no_mark_in c d e h)
feed_loop-append (c ∷ d ∷ []) [] p h = refl
feed_loop-append (c ∷ d ∷ []) (e ∷ b) p h =
    rw (no_mark_at c d e h) (feed_loop-append (d ∷ []) (e ∷ b) (on_byte c p) h)
feed_loop-append (c ∷ d ∷ e ∷ a) b p h = elim (Bool-cases (is_cjk_terminator c d e)) [
  | inl m ↦ rw m (feed_loop-append a b _ h)
  | inr m ↦ rw m (feed_loop-append (d ∷ e ∷ a) b (on_byte c p) h)
]

-- Sentences handed out before stand in front.
before : List Bytes → Progress → Progress
before xs (k, out) = (k, xs ++ out)

finish-before :
    (cur mark : Bytes) (xs : List Bytes) (k : Chunker) (out : List Bytes)
    → finish cur mark (k, xs ++ out) ≡ before xs (finish cur mark (k, out))
unfolding finish before
finish-before [] mark xs k out = refl
finish-before (c ∷ cs) mark xs k out = rw append_assoc

on_terminator-before :
    (mark : Bytes) (xs : List Bytes) (p : Progress)
    → on_terminator mark (before xs p) ≡ before xs (on_terminator mark p)
unfolding on_terminator before
on_terminator-before mark xs (k, out) = elim (Bool-cases k.split_pending) [
  | inl e ↦ simp e
  | inr e ↦ simp e (finish-before k.cur mark xs k out)
]

on_byte-before :
    (c : ℕ) (xs : List Bytes) (p : Progress) → on_byte c (before xs p) ≡ before xs (on_byte c p)
unfolding on_byte before
on_byte-before c xs (k, out) =
    ground (arith, finish-before k.cur [] xs k out, finish-before k.cur (c ∷ []) xs k out)

feed_loop-before :
    (text : Bytes) (xs : List Bytes) (p : Progress)
    → feed_loop text (before xs p) ≡ before xs (feed_loop text p)
unfolding feed_loop
feed_loop-before [] xs p = refl
feed_loop-before (c ∷ []) xs p = on_byte-before c xs p
feed_loop-before (c ∷ d ∷ []) xs p =
    ap (on_byte d) (on_byte-before c xs p) ∙ on_byte-before d xs (on_byte c p)
feed_loop-before (c ∷ d ∷ e ∷ cs) xs p = elim (Bool-cases (is_cjk_terminator c d e)) [
  | inl m ↦ rw m (ap (feed_loop cs) (on_terminator-before _ xs p) ∙ feed_loop-before cs xs _)
  | inr m ↦ rw m (
      ap (feed_loop (d ∷ e ∷ cs)) (on_byte-before c xs p)
      ∙ feed_loop-before (d ∷ e ∷ cs) xs (on_byte c p))
]

-- A text whose second part begins with a whole character may come in two calls.
feed-append :
    (a b : Bytes) (k : Chunker)
    → StartsChar b
    → feed (a ++ b) k ≡ before (feed a k).1 (feed b (feed a k).0)
unfolding feed
feed-append a b k h =
    feed_loop-append a b (k, []) h
    ∙ ap (feed_loop b) pad
    ∙ feed_loop-before b (feed_loop a (k, [])).1 ((feed_loop a (k, [])).0, [])
  where
    pad : feed_loop a (k, []) ≡ before (feed_loop a (k, [])).1 ((feed_loop a (k, [])).0, [])
    pad = unfold before in rw append-nil

unfoldable pub join : List Bytes → Bytes
join [] = []
join (t ∷ ts) = t ++ join ts

StartsChar-append : (a b : Bytes) → StartsChar a → StartsChar b → StartsChar (a ++ b)
StartsChar-append [] b ha hb = hb
StartsChar-append (c ∷ cs) b ha hb = ha

join-StartsChar : (ts : List Bytes) → All StartsChar ts → StartsChar (join ts)
unfolding join
join-StartsChar [] h = tt
join-StartsChar (t ∷ ts) h = StartsChar-append t (join ts) h.0 (join-StartsChar ts h.1)

-- If each text of a stream begins with a whole character, the sentences are those of the whole
-- stream taken as one text.
pub speak-join :
    (ts : List Bytes) (k : Chunker) → All StartsChar ts → speak ts k ≡ speak (join ts ∷ []) k
unfolding speak join
speak-join [] k h = unfold feed in refl
speak-join (t ∷ ts) k h =
    ap (◌++◌ (feed t k).1) (speak-join ts (feed t k).0 h.1)
    ∙ rw (feed-append t (join ts) k (join-StartsChar ts h.1)) (unfold before in rw append_assoc)

-- A three-byte mark that is cut behind its first byte ends no sentence; whole, it ends one.
pub feed_cut_mark :
    (x c d e : ℕ) (cur : Bytes)
    → is_cjk_terminator c d e ≡ true
    → let k : Chunker = record { cur = x ∷ cur; split_pending = false } in
      ((feed (c ∷ d ∷ e ∷ []) k).1 ≡ ((x ∷ cur) ++ c ∷ d ∷ e ∷ []) ∷ [])
      × ((feed (d ∷ e ∷ []) (feed (c ∷ []) k).0).1 ≡ [])
unfolding feed is_cjk_terminator
feed_cut_mark x c d e cur h = ground arith
