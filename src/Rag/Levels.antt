-- ===== src/Rag/Levels.antt =====
-- The level that the router chooses, and that it always chooses one.
use vox_orchestra.Prelude.{
  ℕ, ◌<◌, map, append_assoc, ◌∙◌, codes, ◌≡◌, ◌⊎◌, inl, inr, refl, sym, ap, subst, true, false,
  some, List, [], ◌∷◌, ◌++◌, length, utf8, get_elem?, get_elem?-some, Bytes, Bool-cases, List-cases,
  All,
}
use vox_orchestra.SessionPipeline.{l0, l1, l2, l3}
use vox_orchestra.Rag.Normalizer.{normalize_text}
use vox_orchestra.Rag.Store.{Entry}
use vox_orchestra.SentenceChunker.Stream.{join}
use vox_orchestra.Rag.Occurs.{IsUrgent, is_urgent-IsUrgent, not-IsUrgent}
use vox_orchestra.Rag.Router.{
  Scores, Hit, Chunk, Config, RouteDecision, is_urgent, make_chunks, top1_of, context_of,
  instruction, direct, by_score, decision_of, route,
}

module _ (S : Scores) (entries : List Entry) (c : Config S.Score) where
  -- The chunk of a hit, by the entry that the hit names.
  abbrev pub ChunkOf : Hit S.Score → Chunk S.Score → Type 0
  ChunkOf h k =
      (e : Entry) × (get_elem? entries h.doc_index ≡ some e)
      × (k.id ≡ e.id)
      × (k.text ≡ e.text)
      × (k.score ≡ h.score)

  abbrev pub AreChunksOf : List (Hit S.Score) → List (Chunk S.Score) → Type 0
  AreChunksOf [] [] = Unit
  AreChunksOf [] (k ∷ ks) = ⊥
  AreChunksOf (h ∷ hs) [] = ⊥
  AreChunksOf (h ∷ hs) (k ∷ ks) = ChunkOf h k × AreChunksOf hs ks

  make_chunks-AreChunksOf :
      (hits : List (Hit S.Score))
      → All (λ h. h.doc_index < length entries) hits
      → AreChunksOf hits (make_chunks S entries hits)
  unfolding make_chunks
  make_chunks-AreChunksOf [] v = tt
  make_chunks-AreChunksOf (h ∷ hs) v =
      let (e, f) = get_elem?-some entries h.doc_index v.0 in
      let chunk : Chunk S.Score = record { id = e.id; text = e.text; score = h.score } in
      let g : make_chunks S entries (h ∷ hs) ≡ chunk ∷ make_chunks S entries hs =
        rw (make_chunks, f) refl in
      subst (AreChunksOf (h ∷ hs)) (sym g)
        ((e, f, refl, refl, refl), make_chunks-AreChunksOf hs v.1)

  -- The score of the first hit, or 0.0.
  abbrev pub IsTopScore : List (Hit S.Score) → S.Score → Type 0
  IsTopScore [] x = x ≡ S.zero_score
  IsTopScore (h ∷ hs) x = x ≡ h.score

  -- The prompt: a line for each chunk, the query, and the instruction.
  abbrev pub prompt_of : List (Chunk S.Score) → Bytes → Bytes
  prompt_of ks q =
      join (map (λ k. codes "- " ++ (k.text ++ b'\n' ∷ [])) ks)
      ++ (q ++ utf8 "\n\n请依据上面的参考知识回答，不要编造参考知识之外的内容。")

  -- What the decision is, by the scores of the hits.
  abbrev pub Scored : List (Hit S.Score) → RouteDecision S.Score → Type 0
  Scored hits d =
      AreChunksOf hits d.chunks
      × IsTopScore hits d.top1_score
      × (((S.at_least d.top1_score c.direct_threshold ≡ true)
            × (d.level ≡ l1)
            × (d.prompt ≡ [])
            × ((k : Chunk S.Score) × (ks : List (Chunk S.Score)) × (d.chunks ≡ k ∷ ks)
                × (d.answer ≡ k.text)))
          ⊎ ((S.at_least d.top1_score c.direct_threshold ≡ false)
              × (S.at_least d.top1_score c.context_threshold ≡ true)
              × (d.level ≡ l2)
              × (d.answer ≡ [])
              × (d.prompt ≡ prompt_of d.chunks d.query))
          ⊎ ((S.at_least d.top1_score c.direct_threshold ≡ false)
              × (S.at_least d.top1_score c.context_threshold ≡ false)
              × (d.level ≡ l3)
              × (d.answer ≡ [])
              × (d.prompt ≡ d.query)))

  top1_of-IsTopScore : (hits : List (Hit S.Score)) → IsTopScore hits (top1_of S hits)
  unfolding top1_of
  top1_of-IsTopScore [] = refl
  top1_of-IsTopScore (h ∷ hs) = refl

  lines_lem :
      (ks : List (Chunk S.Score))
      → context_of S ks ≡ join (map (λ k. codes "- " ++ (k.text ++ b'\n' ∷ [])) ks)
  unfolding context_of join
  lines_lem [] = refl
  lines_lem (k ∷ ks) =
      ap (λ t. codes "- " ++ (k.text ++ (b'\n' ∷ t))) (lines_lem ks)
      ∙ ap (λ t. codes "- " ++ t) (sym (append_assoc k.text (b'\n' ∷ []) _))

  context_lem :
      (ks : List (Chunk S.Score)) (q : Bytes)
      → context_of S ks ++ (q ++ instruction S) ≡ prompt_of ks q
  unfolding instruction utf8
  context_lem ks q = ap (λ t. t ++ (q ++ instruction S)) (lines_lem ks)

  no_direct :
      (hits : List (Hit S.Score))
      → S.at_least S.zero_score c.direct_threshold ≡ false
      → S.at_least (top1_of S hits) c.direct_threshold ≡ true
      → AreChunksOf hits []
      → ⊥
  unfolding top1_of
  no_direct [] positive e v = cc (positive, e)
  no_direct (h ∷ hs) positive e v = v

  by_score-Scored :
      (hits : List (Hit S.Score)) (q : Bytes)
      → S.at_least S.zero_score c.direct_threshold ≡ false
      → All (λ h. h.doc_index < length entries) hits
      → let d0 : RouteDecision S.Score = record (decision_of S q) {
        chunks = make_chunks S entries hits;
        top1_score = top1_of S hits;
      } in
        (d : RouteDecision S.Score) × (by_score S c d0 ≡ some d) × (d.query ≡ q) × Scored hits d
  unfolding by_score direct decision_of
  by_score-Scored hits q positive v =
      let chunked = make_chunks-AreChunksOf hits v in
      let d0 : RouteDecision S.Score = record (decision_of S q) {
        chunks = make_chunks S entries hits;
        top1_score = top1_of S hits;
      } in
      elim (Bool-cases (S.at_least (top1_of S hits) c.direct_threshold)) [
        | inl e ↦ elim (List-cases (make_chunks S entries hits)) [
          | inl f ↦ absurd (no_direct hits positive e (subst (AreChunksOf hits) f chunked))
          | inr (k, ks, f) ↦ (
            record d0 { level = l1; answer = k.text; chunks = k ∷ ks },
            rw (by_score, e, direct, f)
                (ap (λ x. some (record d0 { level = l1; answer = k.text; chunks = x })) f),
            refl,
            (
              subst (AreChunksOf hits) f chunked,
              top1_of-IsTopScore hits,
              inl (e, refl, refl, (k, ks, refl, refl)),
            ),
          )
        ]
        | inr e ↦ elim (Bool-cases (S.at_least (top1_of S hits) c.context_threshold)) [
          | inl f ↦ (
            record d0 { level = l2; prompt = context_of S d0.chunks ++ (q ++ instruction S) },
            rw (by_score, e, f) refl,
            refl,
            (
              chunked,
              top1_of-IsTopScore hits,
              inr (inl (e, f, refl, refl, context_lem d0.chunks q)),
            ),
          )
          | inr f ↦ (
            record d0 { level = l3; prompt = q },
            rw (by_score, e, f) refl,
            refl,
            (chunked, top1_of-IsTopScore hits, inr (inr (e, f, refl, refl, refl))),
          )
        ]
      ]

module _ (S : Scores) where
  -- The router always decides, where the threshold of a direct answer is above 0.0 and the index
  -- ranks entries that exist. The level is L0, with a fixed answer, no chunks and no prompt, just where a
  -- normalized keyword stands somewhere in the normalized query. If not, the chunks are the entries of
  -- the hits, in their order and with their scores, and the level is by the score of the first hit
  -- (0.0 without one): L1 with the text of the first chunk as answer and no prompt; L2 with no answer
  -- and as prompt a line for each chunk, the query and the instruction; or L3 with no answer and the
  -- normalized query as prompt.
  pub route_decides :
      (top_k : Bytes → ℕ → List (Hit S.Score)) (entries : List Entry) (c : Config S.Score)
      (query : Bytes)
      → S.at_least S.zero_score c.direct_threshold ≡ false
      → All (λ h. h.doc_index < length entries) (top_k (normalize_text query) c.top_k)
      → (d : RouteDecision S.Score) × (route S top_k entries c query ≡ some d)
        × (d.query ≡ normalize_text query)
        × ((IsUrgent c.l0_keywords (normalize_text query)
              × (d.level ≡ l0)
              × (d.answer ≡ utf8 "已停止当前播放，随时待命")
              × (d.chunks ≡ [])
              × (d.prompt ≡ []))
            ⊎ ((¬ IsUrgent c.l0_keywords (normalize_text query))
                × Scored S entries c (top_k (normalize_text query) c.top_k) d))
  unfolding route decision_of
  route_decides top_k entries c query positive v =
      let q = normalize_text query in
      elim (Bool-cases (is_urgent c.l0_keywords q)) [
        | inl e ↦ (
          record (decision_of S q) { level = l0; answer = utf8 "已停止当前播放，随时待命" },
          rw (route, e) refl,
          refl,
          inl (is_urgent-IsUrgent c.l0_keywords q e, refl, refl, refl, refl),
        )
        | inr e ↦
            let (d, decided, same, scored) =
              by_score-Scored S entries c (top_k q c.top_k) q positive v in
            (d, rw (route, e) decided, same, inr (not-IsUrgent c.l0_keywords q e, scored))
      ]
