-- ===== src/TaskRegistry/Fresh.antt =====
-- A work id is never handed out twice, also not after its task was released.
use vox_orchestra.Prelude.{
  ℕ, suc, ◌+◌, ◌≤◌, ◌<◌, ◌≡◌, ◌≢◌, refl, ◌∙◌, ◌⊎◌, inl, inr, List, [], ◌∷◌, length, Bytes, arith,
  All, to_string-injective,
}
use vox_orchestra.TaskRegistry.{Registry, work_id, allocate, release, size_mod}

pub data Call : Type 0 where
  allocates : Call
  releases : Bytes → Call

-- The ids that the calls hand out, a failed call left aside.
pub given : Bytes → List Bytes → List Bytes
given [] rest = rest
given (c ∷ cs) rest = (c ∷ cs) ∷ rest

unfoldable pub issued : List Call → Registry → List Bytes
unfolding given
issued [] r = []
issued (allocates ∷ cs) r = given (allocate r).1 (issued cs (allocate r).0)
issued (releases id ∷ cs) r = issued cs (release id r).0

abbrev pub IsDistinct : List Bytes → Type 0
IsDistinct [] = Unit
IsDistinct (x ∷ xs) = All (λ y. x ≢ y) xs × IsDistinct xs

-- The id of a number from `n` on.
abbrev IsLater : ℕ → Bytes → Type 0
IsLater n id = (k : ℕ) × (n ≤ k) × (id ≡ work_id k)

work_id-injective : (a b : ℕ) → work_id a ≡ work_id b → a ≡ b
unfolding work_id
work_id-injective a b h = to_string-injective a b (cc)

IsLater-mono : (m n : ℕ) (xs : List Bytes) → m ≤ n → All (IsLater n) xs → All (IsLater m) xs
IsLater-mono m n [] h a = tt
IsLater-mono m n (x ∷ xs) h a = ((a.0.0, omega arith, a.0.2), IsLater-mono m n xs h a.1)

IsLater-ne : (n : ℕ) (xs : List Bytes) → All (IsLater (suc n)) xs → All (λ y. work_id n ≢ y) xs
IsLater-ne n [] a = tt
IsLater-ne n (x ∷ xs) a =
    (λ e. absurd (omega (arith, work_id-injective n a.0.0 (e ∙ a.0.2))), IsLater-ne n xs a.1)

given_nothing : (rest : List Bytes) → given [] rest ≡ rest
unfolding given
given_nothing rest = refl

given-work_id : (n : ℕ) (rest : List Bytes) → given (work_id n) rest ≡ work_id n ∷ rest
unfolding given work_id
given-work_id n rest = refl

-- A successful `allocate`.
abbrev Grants : Registry → Type 0
Grants r = ((allocate r).1 ≡ work_id r.next_seq) × ((allocate r).0.next_seq ≡ r.next_seq + 1)

allocate_cases : (r : Registry) → r.next_seq + 1 < size_mod → (allocate r ≡ (r, [])) ⊎ Grants r
unfolding allocate
allocate_cases r h = ground arith

abbrev AllFresh : List Call → Registry → Type 0
AllFresh cs r = All (IsLater r.next_seq) (issued cs r) × IsDistinct (issued cs r)

issued-AllFresh :
    (cs : List Call) (r : Registry) → r.next_seq + length cs < size_mod → AllFresh cs r
unfolding issued release
issued-AllFresh [] r h = (tt, tt)
issued-AllFresh (releases id ∷ cs) r h = issued-AllFresh cs (release id r).0 (omega arith)
issued-AllFresh (allocates ∷ cs) r h = elim (allocate_cases r (omega arith)) [
  | inl e ↦ rw (e, given_nothing) (issued-AllFresh cs r (omega arith))
  | inr (id, seq) ↦
      let (later, apart) = issued-AllFresh cs (allocate r).0 (omega arith) in
      let later' = rw seq at later in
      rw (id, given-work_id r.next_seq (issued cs (allocate r).0))
        (
          (
            (r.next_seq, omega arith, refl),
            IsLater-mono r.next_seq (r.next_seq + 1) _ (omega arith) later',
          ),
          (
            IsLater-ne r.next_seq _
                (IsLater-mono (suc r.next_seq) (r.next_seq + 1) _ (omega arith) later'),
            apart,
          ),
        )
]

-- While the counter does not wrap, the ids that any calls hand out are pairwise different, whatever
-- was released between them.
pub issued-IsDistinct :
    (cs : List Call) (r : Registry) → r.next_seq + length cs < size_mod → IsDistinct (issued cs r)
issued-IsDistinct cs r h = (issued-AllFresh cs r h).1
