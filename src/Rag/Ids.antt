-- ===== src/Rag/Ids.antt =====
-- The ids of the knowledge base are distinct.
use vox_orchestra.Prelude.{
  ℕ, ◌≡◌, ◌≢◌, ◌⊎◌, inl, inr, refl, sym, ap, ◌∙◌, subst, true, false, ◌||◌, some, List, [], ◌∷◌,
  ◌++◌, ◌==◌, ltb, ==_iff, length, get_elem?, get_elem?-append, Bytes, bytes_eq_iff, codes,
  Bool-cases, Option-cases, arith,
}
use vox_orchestra.Prelude.Fallible.{Result, returns, throws, ◌>>=◌, Result-cases, returns-injective}
use vox_orchestra.Protocol.{Json}
use vox_orchestra.SessionPipeline.{is_empty}
use vox_orchestra.Rag.Store.{
  Entry, Loading, lines_loop, is_comment, has, string_member, string_member, id_of, insert,
  take_object, take_entry, take_line, take_lines, load,
}

-- No two entries have the same id.
abbrev pub AreDistinct : List Entry → Type 0
AreDistinct es =
    (a b : ℕ) (x y : Entry)
    → get_elem? es a ≡ some x
    → get_elem? es b ≡ some y
    → x.id ≡ y.id
    → a ≡ b

-- What the loop keeps.
record IsSound (s : Loading) : Type 0 where
  seen : (a : ℕ) (x : Entry) → get_elem? s.entries a ≡ some x → has x.id s.seen_ids ≡ true
  apart : AreDistinct s.entries

-- An element of a list with one more at its end.
end_cases :
    (es : List Entry) (e : Entry) (a : ℕ) (x : Entry)
    → get_elem? (es ++ e ∷ []) a ≡ some x
    → (get_elem? es a ≡ some x) ⊎ ((a ≡ length es) × (e ≡ x))
end_cases es e a x h = elim (Bool-cases (ltb a (length es))) [
  | inl l ↦ inl (ground (arith, get_elem?-append es e a))
  | inr l ↦ elim (Bool-cases (a == length es)) [
    | inl q ↦ inr ((==_iff a (length es)).0 q, ground (arith, get_elem?-append es e a))
    | inr q ↦ absurd (ground (arith, get_elem?-append es e a))
  ]
]

new_id :
    (id : Bytes) (s : Loading) (a : ℕ) (x : Entry)
    → IsSound s
    → has id s.seen_ids ≡ false
    → get_elem? s.entries a ≡ some x
    → x.id ≢ id
new_id id s a x v e f g = cc (v.seen a x f, ap (λ i. has i s.seen_ids) g, e)

insert-IsSound :
    (j : Json) (path id text : Bytes) (s : Loading) {s' : Loading}
    → insert j path id text s ≡ returns s'
    → IsSound s
    → IsSound s'
unfolding insert has
insert-IsSound j path id text s h v = elim (Bool-cases (has id s.seen_ids)) [
  | inl e ↦ absurd (cc (rw (insert, e) at h))
  | inr e ↦ subst IsSound (returns-injective refl (rw (insert, e) at h)) (record {
    seen = λ a x f. elim (end_cases s.entries _ a x f) [
      | inl g ↦ ground (arith, v.seen a x g)
      | inr (_, g) ↦ ground (arith, (bytes_eq_iff id x.id).1 (ap (λ m. m.id) g))
    ];
    apart = λ a b x y f g same. elim (end_cases s.entries _ a x f) [
      | inl f' ↦ elim (end_cases s.entries _ b y g) [
        | inl g' ↦ v.apart a b x y f' g' same
        | inr (_, g') ↦ absurd (new_id id s a x v e f' (same ∙ sym (ap (λ m. m.id) g')))
      ]
      | inr (p, f') ↦ elim (end_cases s.entries _ b y g) [
        | inl g' ↦ absurd (new_id id s b y v e g' (sym same ∙ sym (ap (λ m. m.id) f')))
        | inr (q, _) ↦ p ∙ sym q
      ]
    ];
  })
]

bind-returns :
    {E A B : Type 0} (r : Result E A) (f : A → Result E B) {b : B}
    → (r >>= f) ≡ returns b
    → (a : A) × (r ≡ returns a) × (f a ≡ returns b)
bind-returns (returns a) f h = (a, refl, h)
bind-returns (throws e) f h = absurd (cc h)

module _ (j : Json) (path : Bytes) where
  take_object-IsSound :
      (obj : j.Value) (s : Loading) {s' : Loading}
      → take_object j path obj s ≡ returns s'
      → IsSound s
      → IsSound s'
  unfolding take_object
  take_object-IsSound obj s h v = elim (Bool-cases (j.is_object obj)) [
    | inr e ↦ absurd (cc (rw (take_object, e) at h))
    | inl e ↦ elim (Option-cases (string_member j (codes "text") obj)) [
      | inr (t, f) ↦
          let (id, g, h') =
            bind-returns (id_of j obj s) (λ id. j.get_string t >>= λ text. insert j path id text s)
              (rw (take_object, e, f) at h) in
          let (text, g', h'') =
            bind-returns (j.get_string t) (λ text. insert j path id text s) h' in
          insert-IsSound j path id text s h'' v
      | inl f ↦ absurd (cc (rw (take_object, e, f) at h))
    ]
  ]

  take_entry-IsSound :
      (line : Bytes) (s : Loading) {s' : Loading}
      → take_entry j path line s ≡ returns s'
      → IsSound s
      → IsSound s'
  unfolding take_entry
  take_entry-IsSound line s h v = elim (Result-cases (j.parse line)) [
    | inr (t, e) ↦ absurd (cc (rw (take_entry, e) at h))
    | inl (obj, e) ↦ take_object-IsSound obj s (rw (take_entry, e) at h) v
  ]

  take_line-IsSound :
      (line : Bytes) (s : Loading) {s' : Loading}
      → take_line j path line s ≡ returns s'
      → IsSound s
      → IsSound s'
  unfolding take_line
  take_line-IsSound line s h v = elim (Bool-cases (is_empty line || is_comment line)) [
    | inl e ↦
        subst IsSound (returns-injective refl (rw (take_line, e) at h))
          (record { seen = v.seen; apart = v.apart })
    | inr e ↦
        take_entry-IsSound line _ (rw (take_line, e) at h)
          (record { seen = v.seen; apart = v.apart })
  ]

  take_lines-IsSound :
      (lines : List Bytes) (s : Loading) {s' : Loading}
      → take_lines j path lines s ≡ returns s'
      → IsSound s
      → IsSound s'
  unfolding take_lines
  take_lines-IsSound [] s h v = subst IsSound (returns-injective refl h) v
  take_lines-IsSound (line ∷ rest) s h v =
      let (s1, e, f) = bind-returns (take_line j path line s) (λ t. take_lines j path rest t) h in
      take_lines-IsSound rest s1 f (take_line-IsSound line s e v)

  -- Where the knowledge base loads, no two of its entries have the same id, also not where one id is
  -- written in the file and the other is made from the number of an entry.
  pub load-AreDistinct :
      (content : Bytes) {es : List Entry} → load j path (some content) ≡ returns es → AreDistinct es
  unfolding load
  load-AreDistinct content h =
      let start : Loading = record { line_no = 0; entry_no = 0; seen_ids = []; entries = [] } in
      let (s, e, f) =
        bind-returns (take_lines j path (lines_loop [] content) start) (λ s. returns s.entries) h in
      let nothing : IsSound start = record {
        seen = λ a x g. absurd (cc g);
        apart = λ a b x y g g' same. absurd (cc g);
      } in
      subst AreDistinct (returns-injective refl f)
        (take_lines-IsSound (lines_loop [] content) start e nothing).apart
