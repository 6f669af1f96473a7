-- ===== src/Prelude/Table.antt =====
-- `std::unordered_map<std::string, V>` as an association list; its order is never observed.
use mathlib.Core.Path.{◌≡◌, refl}
use mathlib.Core.Bool.{Bool, true, false}
use mathlib.Core.Option.{Option, none, some}
use mathlib.Core.List.{List, [], ◌∷◌}
use Prim.Native.Nat.{suc, ◌≤◌}
use native.Mathlib.Omega.{arith}
use vox_orchestra.Prelude.Tests.{if◌then◌else◌}
use vox_orchestra.Prelude.Lists.{length}
use vox_orchestra.Prelude.Text.{Bytes, bytes_eq, bytes_eq_iff}

abbrev pub Dict {ℓ} : Type ℓ → Type ℓ
Dict V = List (Bytes × V)

module _ {ℓ} {V : Type ℓ} where
  unfoldable pub find : Bytes → Dict V → Option V
  unfolding bytes_eq
  find k [] = none
  find k ((j, v) ∷ m) = if bytes_eq j k then some v else find k m

  unfoldable pub contains : Bytes → Dict V → Bool
  unfolding find
  contains k m = elim (find k m) [ none ↦ false | some _ ↦ true ]

  -- `erase(key)`.
  unfoldable pub erase : Bytes → Dict V → Dict V
  unfolding bytes_eq
  erase k [] = []
  erase k ((j, v) ∷ m) = if bytes_eq j k then erase k m else (j, v) ∷ erase k m

  -- `emplace(key, v)`: a key that is there keeps its value.
  unfoldable pub emplace : Bytes → V → Dict V → Dict V
  unfolding find
  emplace k v m = elim (find k m) [ none ↦ (k, v) ∷ m | some _ ↦ m ]

  -- `m[key] = v`.
  unfoldable pub assign : Bytes → V → Dict V → Dict V
  unfolding erase
  assign k v m = (k, v) ∷ erase k m

  pub find-erase :
      (k j : Bytes) (m : Dict V) → find j (erase k m) ≡ (if bytes_eq k j then none else find j m)
  unfolding find erase
  find-erase k j [] = ground arith
  find-erase k j ((i, v) ∷ m) =
      ground (arith, find-erase k j m, bytes_eq_iff i k, bytes_eq_iff i j, bytes_eq_iff k j)

  pub find-emplace :
      (k j : Bytes) (v : V) (m : Dict V)
      → find k m ≡ none
      → find j (emplace k v m) ≡ (if bytes_eq k j then some v else find j m)
  unfolding find emplace
  find-emplace k j v m e = ground arith

  pub emplace_taken :
      (k : Bytes) (v : V) (m : Dict V) {w : V} → find k m ≡ some w → emplace k v m ≡ m
  unfolding emplace find
  emplace_taken k v m e = ground arith

  pub find-assign :
      (k j : Bytes) (v : V) (m : Dict V)
      → find j (assign k v m) ≡ (if bytes_eq k j then some v else find j m)
  unfolding find assign
  find-assign k j v m = ground (arith, find-erase k j m, bytes_eq_iff k j)

  -- The keys are distinct.
  abbrev pub IsKeyed : Dict V → Type ℓ
  IsKeyed [] = Unit
  IsKeyed ((k, v) ∷ m) = (find k m ≡ none) × IsKeyed m

  pub erase-IsKeyed : (k : Bytes) (m : Dict V) → IsKeyed m → IsKeyed (erase k m)
  unfolding erase
  erase-IsKeyed k [] h = tt
  erase-IsKeyed k ((j, v) ∷ m) h = ground (arith, erase-IsKeyed k m h.1, find-erase k j m)

  erase_missing : (k : Bytes) (m : Dict V) → find k m ≡ none → erase k m ≡ m
  unfolding erase find
  erase_missing k [] e = refl
  erase_missing k ((j, v) ∷ m) e = ground (arith, erase_missing k m)

  -- Erasing a key that is there takes one entry out.
  pub length-erase :
      (k : Bytes) (m : Dict V)
      → IsKeyed m
      → length m ≡ (if contains k m then suc (length (erase k m)) else length (erase k m))
  unfolding erase contains
  length-erase k [] h = refl
  length-erase k ((j, v) ∷ m) h =
      ground (arith, length-erase k m h.1, erase_missing k m, bytes_eq_iff j k)

  pub length-erase-le : (k : Bytes) (m : Dict V) → length (erase k m) ≤ length m
  unfolding erase
  length-erase-le k [] = omega arith
  length-erase-le k ((j, v) ∷ m) = ground (arith, length-erase-le k m)

  pub contains-erase :
      (k j : Bytes) (m : Dict V)
      → contains j (erase k m) ≡ (if bytes_eq k j then false else contains j m)
  unfolding contains
  contains-erase k j m = ground (arith, find-erase k j m)

  pub contains-emplace :
      (k j : Bytes) (v : V) (m : Dict V)
      → contains j (emplace k v m) ≡ (if bytes_eq k j then true else contains j m)
  unfolding contains emplace find
  contains-emplace k j v m = ground (arith, bytes_eq_iff k j)
