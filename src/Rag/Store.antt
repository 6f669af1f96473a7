-- ===== src/Rag/Store.antt =====
-- The knowledge base: libs/rag/src/knowledge_store.cpp and
-- libs/rag/include/voxorchestra/rag/knowledge_store.hpp. The bytes of the file are an argument, and an
-- exception is its `what()`.
use vox_orchestra.Prelude.{
  ℕ, ◌+◌, Bool, true, false, not, ◌||◌, Option, none, some, List, [], ◌∷◌, ◌++◌, ◌==◌,
  if◌then◌else◌, Bytes, bytes_eq, codes, utf8, to_string,
}
use vox_orchestra.Prelude.Fallible.{Result, returns, throws, ◌>>=◌}
use vox_orchestra.Protocol.{Json}
use vox_orchestra.SessionPipeline.{is_empty}

pub record Entry : Type 0 where
  pub id : Bytes
  pub text : Bytes

-- The locals of the loop.
pub record Loading : Type 0 where
  pub line_no : ℕ
  pub entry_no : ℕ
  pub seen_ids : List Bytes
  pub entries : List Entry

-- The rounds of `std::getline`: a last line that does not end is one, unless it is empty.
unfoldable pub lines_loop : Bytes → Bytes → List Bytes
unfolding is_empty
lines_loop line [] = if is_empty line then [] else line ∷ []
lines_loop line (b ∷ bs) = elim (b == b'\n') [
  | true ↦ line ∷ lines_loop [] bs
  | false ↦ lines_loop (line ++ b ∷ []) bs
]

unfoldable pub is_comment : Bytes → Bool
is_comment [] = false
is_comment (b ∷ bs) = b == b'#'

unfoldable pub has : Bytes → List Bytes → Bool
unfolding bytes_eq
has id [] = false
has id (x ∷ xs) = bytes_eq x id || has id xs

unfoldable pub failed : Bytes → Loading → Bytes → Bytes
failed path s reason = path ++ (b':' ∷ (to_string s.line_no ++ reason))

module _ (j : Json) where
  -- A member that is a string.
  unfoldable pub string_member : Bytes → j.Value → Option j.Value
  string_member key obj = elim (j.member key obj) [
    | none ↦ none
    | some v ↦ if j.is_string v then some v else none
  ]

  unfoldable pub id_of : j.Value → Loading → Result Bytes Bytes
  unfolding string_member
  id_of obj s = elim (string_member (codes "id") obj) [
    | none ↦ returns (b'k' ∷ to_string s.entry_no)
    | some v ↦ j.get_string v
  ]

  unfoldable pub insert : Bytes → Bytes → Bytes → Loading → Result Bytes Loading
  unfolding has failed
  insert path id text s =
      if has id s.seen_ids
      then throws (failed path s (utf8 " id 重复: " ++ id))
      else returns (record s {
        seen_ids = id ∷ s.seen_ids;
        entries = s.entries ++ record { id = id; text = text } ∷ [];
      })

  unfoldable pub take_object : Bytes → j.Value → Loading → Result Bytes Loading
  unfolding string_member id_of insert failed
  take_object path obj s =
      if not (j.is_object obj)
      then throws (failed path s (utf8 " 必须为 JSON 对象"))
      else elim (string_member (codes "text") obj) [
        | none ↦ throws (failed path s (utf8 " 缺少字符串字段 text"))
        | some v ↦ id_of obj s >>= λ id. j.get_string v >>= λ text. insert path id text s
      ]

  unfoldable pub take_entry : Bytes → Bytes → Loading → Result Bytes Loading
  unfolding take_object failed
  take_entry path line s = elim (j.parse line) [
    | throws what ↦ throws (failed path s (utf8 " JSON 解析失败"))
    | returns obj ↦ take_object path obj s
  ]

  -- One round of the loop.
  unfoldable pub take_line : Bytes → Bytes → Loading → Result Bytes Loading
  unfolding take_entry is_empty is_comment
  take_line path line s =
      let s' : Loading = record s { line_no = s.line_no + 1 } in
      if is_empty line || is_comment line
      then returns s'
      else take_entry path line (record s' { entry_no = s.entry_no + 1 })

  unfoldable pub take_lines : Bytes → List Bytes → Loading → Result Bytes Loading
  unfolding take_line
  take_lines path [] s = returns s
  take_lines path (line ∷ rest) s = take_line path line s >>= λ s'. take_lines path rest s'

  unfoldable pub load : Bytes → Option Bytes → Result Bytes (List Entry)
  unfolding take_lines lines_loop
  load path none = throws (utf8 "无法读取知识库文件: " ++ path)
  load path (some content) =
      take_lines path (lines_loop [] content)
        (record { line_no = 0; entry_no = 0; seen_ids = []; entries = [] })
      >>= λ s. returns s.entries
