-- ===== src/Rag/Router.antt =====
-- The router: libs/rag/src/router.cpp and libs/rag/include/voxorchestra/rag/router.hpp. What the index
-- ranks, `top_k`, is a parameter, and so are the scores with their comparison, which are of type
-- double.
use vox_orchestra.Prelude.{
  ℕ, Bool, true, false, ◌||◌, Option, none, some, List, [], ◌∷◌, ◌++◌, ◌==◌, if◌then◌else◌,
  get_elem?, Bytes, codes, utf8,
}
use vox_orchestra.SessionPipeline.{RouteLevel, l0, l1, l2, l3}
use vox_orchestra.Rag.Normalizer.{normalize_text}
use vox_orchestra.Rag.Store.{Entry}

-- Scores: 0.0 and `>=`.
pub record Scores : Type 1 where
  pub Score : Type 0
  pub zero_score : Score
  pub at_least : Score → Score → Bool

pub record Hit (S : Type 0) : Type 0 where
  pub doc_index : ℕ
  pub score : S

pub record Chunk (S : Type 0) : Type 0 where
  pub id : Bytes
  pub text : Bytes
  pub score : S

pub record Config (S : Type 0) : Type 0 where
  pub l0_keywords : List Bytes
  pub direct_threshold : S
  pub context_threshold : S
  pub top_k : ℕ

pub record RouteDecision (S : Type 0) : Type 0 where
  pub level : RouteLevel
  pub query : Bytes
  pub chunks : List (Chunk S)
  pub top1_score : S
  pub answer : Bytes
  pub prompt : Bytes

unfoldable pub starts_with : Bytes → Bytes → Bool
starts_with [] s = true
starts_with (c ∷ cs) [] = false
starts_with (c ∷ cs) (d ∷ ds) = let rest = starts_with cs ds in if c == d then rest else false

-- `s.find(word) != npos`.
unfoldable pub occurs : Bytes → Bytes → Bool
unfolding starts_with
occurs word [] = starts_with word []
occurs word (c ∷ cs) = starts_with word (c ∷ cs) || occurs word cs

unfoldable pub is_urgent : List Bytes → Bytes → Bool
unfolding occurs normalize_text
is_urgent [] normalized = false
is_urgent (kw ∷ kws) normalized = occurs (normalize_text kw) normalized || is_urgent kws normalized

module _ (S : Scores) where
  -- A hit that names no entry is left out.
  unfoldable pub make_chunks : List Entry → List (Hit S.Score) → List (Chunk S.Score)
  make_chunks entries [] = []
  make_chunks entries (h ∷ hs) =
      let rest = make_chunks entries hs in
      elim (get_elem? entries h.doc_index) [
        | none ↦ rest
        | some e ↦ record { id = e.id; text = e.text; score = h.score } ∷ rest
      ]

  unfoldable pub top1_of : List (Hit S.Score) → S.Score
  top1_of [] = S.zero_score
  top1_of (h ∷ hs) = h.score

  unfoldable pub context_of : List (Chunk S.Score) → Bytes
  context_of [] = []
  context_of (c ∷ cs) = codes "- " ++ (c.text ++ (b'\n' ∷ context_of cs))

  unfoldable pub instruction : Bytes
  unfolding utf8
  instruction = b'\n' ∷ b'\n' ∷ utf8 "请依据上面的参考知识回答，不要编造参考知识之外的内容。"

  -- `decision.chunks.front()`: `none` where there is no first chunk, which C++ does not define.
  unfoldable pub direct : RouteDecision S.Score → Option (RouteDecision S.Score)
  direct d = elim d.chunks [ [] ↦ none | c ∷ cs ↦ some (record d { level = l1; answer = c.text }) ]

  unfoldable pub by_score : Config S.Score → RouteDecision S.Score → Option (RouteDecision S.Score)
  unfolding direct context_of instruction
  by_score c d =
      if S.at_least d.top1_score c.direct_threshold
      then direct d
      else if S.at_least d.top1_score c.context_threshold
      then some (record d { level = l2; prompt = context_of d.chunks ++ (d.query ++ instruction) })
      else some (record d { level = l3; prompt = d.query })

  unfoldable pub decision_of : Bytes → RouteDecision S.Score
  decision_of normalized = record {
    level = l3;
    query = normalized;
    chunks = [];
    top1_score = S.zero_score;
    answer = [];
    prompt = [];
  }

  unfoldable pub route :
      (Bytes → ℕ → List (Hit S.Score))
      → List Entry
      → Config S.Score
      → Bytes
      → Option (RouteDecision S.Score)
  unfolding normalize_text is_urgent decision_of by_score make_chunks top1_of utf8
  route top_k entries c query =
      let normalized = normalize_text query in
      if is_urgent c.l0_keywords normalized
      then some (record (decision_of normalized) { level = l0; answer = utf8 "已停止当前播放，随时待命" })
      else (let hits = top_k normalized c.top_k in
          by_score c (record (decision_of normalized) {
            chunks = make_chunks entries hits;
            top1_score = top1_of hits;
          }))
