-- ===== src/Rag/Tests.antt =====
-- The retrieval at concrete inputs.
use vox_orchestra.Prelude.{
  ℕ, refl, ◌≡◌, ◌⊎◌, true, some, List, [], ◌∷◌, ◌++◌, leb, Bytes, codes, utf8, to_string, arith,
}
use vox_orchestra.Prelude.Fallible.{returns}
use vox_orchestra.Protocol.Trees.{
  node, field, stop, string_leaf, write, parse_tree, leaf, is_node, member_of, is_text, string_of,
  trees,
}
use vox_orchestra.SessionPipeline.{l0}
use vox_orchestra.Rag.Normalizer.{normalize_text, tokenize}
use vox_orchestra.Rag.Store.{Entry, load}
use vox_orchestra.Rag.Ids.{AreDistinct, load-AreDistinct}
use vox_orchestra.Rag.Router.{Scores, Hit, Config, RouteDecision, is_urgent, route}
use vox_orchestra.Rag.Occurs.{IsUrgent}
use vox_orchestra.Rag.Levels.{Scored, route_decides}
use vox_orchestra.Rag.Normal.{normalize_text_twice}
use vox_orchestra.Rag.Tokens.{concat, unblanked, concat-tokenize}

-- Full-width letters, a comma, blanks at both ends, and CJK.
normalize_text_test : normalize_text (utf8 " Ｈi，  你好 ") ≡ utf8 "hi 你好"
unfolding normalize_text utf8
normalize_text_test = refl

-- A hyphen separates two tokens, but not in the normalized text.
tokenize_test : tokenize (codes "Real-time") ≡ codes "real" ∷ codes "time" ∷ []
unfolding tokenize
tokenize_test = refl

merged_test : tokenize (normalize_text (codes "Real-time")) ≡ codes "realtime" ∷ []
unfolding tokenize normalize_text
merged_test = refl

normalize_text_twice_example :
    normalize_text (normalize_text (codes "Ab, c")) ≡ normalize_text (codes "Ab, c")
normalize_text_twice_example = normalize_text_twice (codes "Ab, c")

concat-tokenize_example :
    concat (tokenize (codes "Ab, c")) ≡ unblanked (normalize_text (codes "Ab, c"))
concat-tokenize_example = concat-tokenize (codes "Ab, c")

knowledge : Bytes
knowledge =
    codes "# two"
    ++ (b'\n'
        ∷ (write (node (field (codes "text") (string_leaf (codes "one")) stop)) ++ b'\n' ∷ []))

abbrev base : List Entry
base = record { id = codes "k1"; text = codes "one" } ∷ []

load_test : load trees (codes "f") (some knowledge) ≡ returns base
unfolding load knowledge write parse_tree leaf is_node member_of is_text string_of to_string
load_test = refl

load-AreDistinct_example : AreDistinct base
load-AreDistinct_example = load-AreDistinct trees (codes "f") knowledge load_test

-- Scores in natural numbers.
abbrev scores : Scores
scores = record { Score = ℕ; zero_score = 0; at_least = λ a b. leb b a }

abbrev config : Config ℕ
config = record {
  l0_keywords = codes "Stop!" ∷ [];
  direct_threshold = 4;
  context_threshold = 2;
  top_k = 2;
}

abbrev ranks : Bytes → ℕ → List (Hit ℕ)
ranks q k = record { doc_index = 0; score = 3 } ∷ []

urgent_test : is_urgent (codes "Stop!" ∷ []) (codes "please stop") ≡ true
unfolding is_urgent
urgent_test = refl

-- A keyword of marks alone is in every text.
any_urgent_test : is_urgent (codes "!!" ∷ []) (codes "tell me") ≡ true
unfolding is_urgent
any_urgent_test = refl

route_decides_example :
    (d : RouteDecision ℕ) × (route scores ranks base config (codes "Why?") ≡ some d)
    × (d.query ≡ normalize_text (codes "Why?"))
    × ((IsUrgent config.l0_keywords (normalize_text (codes "Why?"))
          × (d.level ≡ l0)
          × (d.answer ≡ utf8 "已停止当前播放，随时待命")
          × (d.chunks ≡ [])
          × (d.prompt ≡ []))
        ⊎ ((¬ IsUrgent config.l0_keywords (normalize_text (codes "Why?")))
            × Scored scores base config (ranks (normalize_text (codes "Why?")) 2) d))
route_decides_example = route_decides scores ranks base config (codes "Why?") refl (omega arith, tt)
