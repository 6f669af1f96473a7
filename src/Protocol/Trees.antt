-- ===== src/Protocol/Trees.antt =====
-- A small JSON library for the tests: trees, and their prefix notation as text.
use vox_orchestra.Prelude.{
  ℕ, suc, zero, ◌==◌, ◌≡◌, refl, Bool, true, false, Option, none, some, List, [], ◌∷◌, ◌++◌, length,
  take, drop, Bytes, bytes_eq, codes, find, arith, if◌then◌else◌,
}
use vox_orchestra.Prelude.Int.{ℤ, pos, negsuc}
use vox_orchestra.Prelude.Fallible.{Result, returns, throws}
use vox_orchestra.Protocol.{Json}
use vox_orchestra.Protocol.Codec.{IsJson}

mutual
  pub data Tree : Type 0 where
    int_leaf : ℤ → Tree
    string_leaf : Bytes → Tree
    bool_leaf : Bool → Tree
    node : Fields → Tree

  pub data Fields : Type 0 where
    stop : Fields
    field : Bytes → Tree → Fields → Fields

unfoldable pub fields_of : List (Bytes × Tree) → Fields
fields_of [] = stop
fields_of ((k, t) ∷ fs) = field k t (fields_of fs)

unfoldable pub lookup : Bytes → Fields → Option Tree
lookup k stop = none
lookup k (field i t fs) = if bytes_eq i k then some t else lookup k fs

unfoldable pub member_of : Bytes → Tree → Option Tree
unfolding lookup
member_of k (node fs) = lookup k fs
member_of k _ = none

unfoldable pub is_node : Tree → Bool
is_node (node fs) = true
is_node _ = false

unfoldable pub is_text : Tree → Bool
is_text (string_leaf s) = true
is_text _ = false

unfoldable pub int_of : Tree → Result Bytes ℤ
int_of (int_leaf n) = returns n
int_of _ = throws (codes "not a number")

unfoldable pub string_of : Tree → Result Bytes Bytes
string_of (string_leaf s) = returns s
string_of _ = throws (codes "not a string")

unfoldable pub bool_of : Tree → Result Bytes Bool
bool_of (bool_leaf b) = returns b
bool_of _ = throws (codes "not a bool")

lookup-fields_of : (k : Bytes) (fs : List (Bytes × Tree)) → lookup k (fields_of fs) ≡ find k fs
unfolding lookup fields_of find
lookup-fields_of k [] = refl
lookup-fields_of k ((i, t) ∷ fs) = ground (arith, lookup-fields_of k fs)

-- The text: each part behind a mark, and each list behind its length.
unfoldable mutual
  pub write : Tree → Bytes
  write (int_leaf (pos n)) = 0 ∷ n ∷ []
  write (int_leaf (negsuc n)) = 1 ∷ n ∷ []
  write (string_leaf s) = 2 ∷ length s ∷ s
  write (bool_leaf true) = 3 ∷ []
  write (bool_leaf false) = 4 ∷ []
  write (node fs) = 5 ∷ write_fields fs

  pub write_fields : Fields → Bytes
  write_fields stop = 0 ∷ []
  write_fields (field k t fs) = 1 ∷ length k ∷ (k ++ (write t ++ write_fields fs))

unfoldable pub leaf : ℕ → Bytes → Option (Tree × Bytes)
leaf t [] = none
leaf t (n ∷ cs) =
    if t == 0
    then some (int_leaf (pos n), cs)
    else if t == 1
    then some (int_leaf (negsuc n), cs)
    else some (string_leaf (take n cs), drop n cs)

unfoldable mutual
  pub read : ℕ → Bytes → Option (Tree × Bytes)
  read zero cs = none
  read (suc f) [] = none
  read (suc f) (t ∷ cs) = elim (t == 5) [
    | true ↦ elim (read_rest f cs) [ none ↦ none | some r ↦ some (node r.0, r.1) ]
    | false ↦
        if t == 3
        then some (bool_leaf true, cs)
        else if t == 4
        then some (bool_leaf false, cs)
        else leaf t cs
  ]

  pub read_rest : ℕ → Bytes → Option (Fields × Bytes)
  read_rest zero cs = none
  read_rest (suc f) [] = none
  read_rest (suc f) (t ∷ []) = some (stop, [])
  read_rest (suc f) (t ∷ n ∷ cs) = elim (t == 0) [
    | true ↦ some (stop, n ∷ cs)
    | false ↦ elim (read f (drop n cs)) [
      | none ↦ none
      | some r ↦ elim (read_rest f r.1) [
        | none ↦ none
        | some q ↦ some (field (take n cs) r.0 q.0, q.1)
      ]
    ]
  ]

unfoldable pub parse_tree : Bytes → Result Bytes Tree
unfolding read
parse_tree cs = elim (read (length cs) cs) [ none ↦ throws (codes "syntax") | some r ↦ returns r.0 ]

abbrev pub trees : Json
trees = record {
  Value = Tree;
  parse = parse_tree;
  dump = write;
  object = λ fs. node (fields_of fs);
  is_object = is_node;
  is_string = is_text;
  member = member_of;
  of_int = int_leaf;
  of_string = string_leaf;
  of_bool = bool_leaf;
  get_int = int_of;
  get_int64 = int_of;
  get_string = string_of;
  get_bool = bool_of;
}

pub trees-IsJson : IsJson trees
unfolding is_node member_of int_of string_of bool_of
trees-IsJson = record {
  objects = λ fs. refl;
  members = λ k fs. lookup-fields_of k fs;
  ints = λ n h. refl;
  ints64 = λ n h. refl;
  strings = λ s. refl;
  bools = λ b. refl;
}
