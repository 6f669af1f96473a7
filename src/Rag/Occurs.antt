-- ===== src/Rag/Occurs.antt =====
-- What `find` in a text and the test for urgent keywords come to.
use vox_orchestra.Prelude.{
  ◌≡◌, ◌⊎◌, inl, inr, refl, ap, ◌∙◌, true, false, List, [], ◌∷◌, ◌++◌, Bytes, Bool-cases, arith,
  ◌==◌,
}
use vox_orchestra.Rag.Normalizer.{normalize_text}
use vox_orchestra.Rag.Router.{starts_with, occurs, is_urgent}

-- The word stands somewhere in the text.
abbrev pub IsIn : Bytes → Bytes → Type 0
IsIn word s = (u : Bytes) × (v : Bytes) × (s ≡ u ++ (word ++ v))

-- One of the keywords, normalized, stands in the text.
abbrev pub IsUrgent : List Bytes → Bytes → Type 0
IsUrgent [] s = ⊥
IsUrgent (kw ∷ kws) s = IsIn (normalize_text kw) s ⊎ IsUrgent kws s

starts_with-split : (word s : Bytes) → starts_with word s ≡ true → (v : Bytes) × (s ≡ word ++ v)
unfolding starts_with
starts_with-split [] s h = (s, refl)
starts_with-split (c ∷ cs) [] h = absurd (cc h)
starts_with-split (c ∷ cs) (d ∷ ds) h = elim (Bool-cases (c == d)) [
  | inl e ↦
      let (v, f) = starts_with-split cs ds (rw e at h) in
      let same : d ≡ c = ground (arith, e) in (v, ap (λ x. x ∷ ds) same ∙ ap (λ t. c ∷ t) f)
  | inr e ↦ absurd (cc (rw e at h))
]

starts_with_front : (word v : Bytes) → starts_with word (word ++ v) ≡ true
unfolding starts_with
starts_with_front [] v = refl
starts_with_front (c ∷ cs) v =
    let same : (c == c) ≡ true = ground arith in rw same (starts_with_front cs v)

occurs-split : (word s : Bytes) → occurs word s ≡ true → IsIn word s
unfolding occurs
occurs-split word [] h = let (v, f) = starts_with-split word [] h in ([], v, f)
occurs-split word (c ∷ cs) h = elim (Bool-cases (starts_with word (c ∷ cs))) [
  | inl e ↦ let (v, f) = starts_with-split word (c ∷ cs) e in ([], v, f)
  | inr e ↦ let (u, v, f) = occurs-split word cs (rw e at h) in (c ∷ u, v, ap (λ t. c ∷ t) f)
]

occurs_first : (word s : Bytes) → starts_with word s ≡ true → occurs word s ≡ true
unfolding occurs
occurs_first word [] h = h
occurs_first word (c ∷ cs) h = rw h refl

occurs_at : (u word v : Bytes) → occurs word (u ++ (word ++ v)) ≡ true
unfolding occurs
occurs_at [] word v = occurs_first word (word ++ v) (starts_with_front word v)
occurs_at (c ∷ u) word v = elim (Bool-cases (starts_with word (c ∷ (u ++ (word ++ v))))) [
  | inl e ↦ rw e refl
  | inr e ↦ rw e (occurs_at u word v)
]

pub is_urgent-IsUrgent : (kws : List Bytes) (s : Bytes) → is_urgent kws s ≡ true → IsUrgent kws s
unfolding is_urgent
is_urgent-IsUrgent [] s h = absurd (cc h)
is_urgent-IsUrgent (kw ∷ kws) s h = elim (Bool-cases (occurs (normalize_text kw) s)) [
  | inl e ↦ inl (occurs-split (normalize_text kw) s e)
  | inr e ↦ inr (is_urgent-IsUrgent kws s (rw e at h))
]

pub not-IsUrgent : (kws : List Bytes) (s : Bytes) → is_urgent kws s ≡ false → ¬ IsUrgent kws s
unfolding is_urgent
not-IsUrgent [] s h u = u
not-IsUrgent (kw ∷ kws) s h u = elim (Bool-cases (occurs (normalize_text kw) s)) [
  | inl e ↦ absurd (cc (rw e at h))
  | inr e ↦ elim u [
    | inl (x, y, f) ↦
        let found : occurs (normalize_text kw) s ≡ true =
          ap (occurs (normalize_text kw)) f ∙ occurs_at x (normalize_text kw) y in
        cc (e, found)
    | inr w ↦ not-IsUrgent kws s (rw e at h) w
  ]
]
