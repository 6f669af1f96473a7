-- ===== src/SessionNode/Valid.antt =====
-- The session node's table points into its store, and a session has one worker at most, which has
-- marked it busy.
use vox_orchestra.Prelude.{
  ℕ, ◌+◌, ◌≤◌, ◌≡◌, ◌⊎◌, inl, inr, refl, sym, ap, ◌∙◌, subst, true, false, Option, none, some, List,
  [], ◌∷◌, ◌++◌, ◌==◌, ==_iff, if◌then◌else◌, length, get_elem?, set, get_elem?-set,
  get_elem?-append, lt-length_of_get_elem?, Bytes, bytes_eq, bytes_eq_iff, find, find-assign,
  find-erase, erase, Bool-cases, Option-cases, arith,
}
use vox_orchestra.SessionNode.{Session, Worker, Node, new, new_session, add_session, put}
use vox_orchestra.SessionNode.Requests.{hire, cancel_session, take_out, say}
use vox_orchestra.SessionNode.Handled.{
  Handled, answers, adds, cancels, takes_out, marks, starts, IsStored,
}

-- The workers of the session at an address.
unfoldable pub working : ℕ → List Worker → ℕ
working a [] = 0
working a (k ∷ ks) = (if k.session == a then 1 else 0) + working a ks

unfoldable pub busy_bit : Option Session → ℕ
busy_bit none = 0
busy_bit (some s) = if s.busy then 1 else 0

abbrev pub IsSingle : Node → Type 0
IsSingle n = (a : ℕ) → working a n.workers ≤ busy_bit (get_elem? n.store a)

pub record IsValid (n : Node) : Type 0 where
  pub stored : IsStored n
  pub apart :
      (id id' : Bytes) (a : ℕ)
      → find id n.sessions ≡ some a
      → find id' n.sessions ≡ some a
      → id ≡ id'
  pub single : IsSingle n

pub new-IsValid : IsValid new
unfolding new find working busy_bit
new-IsValid = record {
  stored = λ id a e. absurd (cc e);
  apart = λ id id' a e. absurd (cc e);
  single = λ a. omega arith;
}

pub working-append :
    (a : ℕ) (ks : List Worker) (k : Worker)
    → working a (ks ++ k ∷ []) ≡ working a ks + (if k.session == a then 1 else 0)
unfolding working
working-append a [] k = omega arith
working-append a (x ∷ xs) k = omega (arith, working-append a xs k)

pub get_elem?-put :
    (a b : ℕ) (s s' : Session) (n : Node)
    → get_elem? n.store a ≡ some s
    → get_elem? (set n.store a s') b ≡ (if a == b then some s' else get_elem? n.store b)
get_elem?-put a b s s' n at_a = get_elem?-set n.store a b s' (lt-length_of_get_elem? n.store a at_a)

-- The node stays valid where a session is overwritten and the workers change at that session only,
-- if its new flag covers them.
pub write-IsValid :
    (a : ℕ) (s s' : Session) (ks : List Worker) (n : Node)
    → get_elem? n.store a ≡ some s
    → ((b : ℕ) → (a == b) ≡ false → working b ks ≡ working b n.workers)
    → working a ks ≤ busy_bit (some s')
    → IsValid n
    → IsValid (record n { store = set n.store a s'; workers = ks })
write-IsValid a s s' ks n at_a elsewhere covers v = record {
  stored = λ id b e. elim (Bool-cases (a == b)) [
    | inl f ↦ (s', get_elem?-put a b s s' n at_a ∙ rw f refl)
    | inr f ↦ let (t, g) = v.stored id b e in (t, get_elem?-put a b s s' n at_a ∙ rw f g)
  ];
  apart = v.apart;
  single = λ b. elim (Bool-cases (a == b)) [
    | inl f ↦
        rw (get_elem?-put a b s s' n at_a, f)
          (subst (λ c. working c ks ≤ busy_bit (some s')) ((==_iff a b).0 f) covers)
    | inr f ↦ rw (get_elem?-put a b s s' n at_a, f) (omega (arith, elsewhere b f, v.single b))
  ];
}

pub put-IsValid :
    (a : ℕ) (s s' : Session) (n : Node)
    → get_elem? n.store a ≡ some s
    → s'.busy ≡ s.busy
    → IsValid n
    → IsValid (put a s' n)
unfolding put busy_bit
put-IsValid a s s' n at_a same v =
    write-IsValid a s s' n.workers n at_a (λ b e. refl)
      (rw same (subst (λ o. working a n.workers ≤ busy_bit o) at_a (v.single a))) v

say-IsValid : (i text : Bytes) (n : Node) → IsValid n → IsValid (say i text n)
unfolding say
say-IsValid i text n v = record { stored = v.stored; apart = v.apart; single = v.single }

find_of_erase :
    (id x : Bytes) (a : ℕ) (n : Node)
    → find x (erase id n.sessions) ≡ some a
    → find x n.sessions ≡ some a
find_of_erase id x a n e = ground (arith, find-erase id x n.sessions, e)

take_out-IsValid : (id : Bytes) (n : Node) → IsValid n → IsValid (take_out id n)
unfolding take_out
take_out-IsValid id n v = record {
  stored = λ x a e. v.stored x a (find_of_erase id x a n e);
  apart = λ x y a e f. v.apart x y a (find_of_erase id x a n e) (find_of_erase id y a n f);
  single = v.single;
}

-- The entry of a name behind the addition of a session is the new one or an old one.
find-add_session :
    (id x : Bytes) (a : ℕ) (n : Node)
    → find x (add_session id n).sessions ≡ some a
    → ((id ≡ x) × (a ≡ length n.store)) ⊎ (find x n.sessions ≡ some a)
unfolding add_session
find-add_session id x a n e = elim (Bool-cases (bytes_eq id x)) [
  | inl f ↦
      inl ((bytes_eq_iff id x).0 f, ground (arith, find-assign id x (length n.store) n.sessions))
  | inr f ↦ inr (ground (arith, find-assign id x (length n.store) n.sessions))
]

pub old_session :
    (id : Bytes) (a : ℕ) (s : Session) (n : Node)
    → get_elem? n.store a ≡ some s
    → get_elem? (add_session id n).store a ≡ some s
unfolding add_session
old_session id a s n e =
    get_elem?-append n.store new_session a ∙ ground (arith, lt-length_of_get_elem? n.store a e)

pub newest_session :
    (id : Bytes) (n : Node) → get_elem? (add_session id n).store (length n.store) ≡ some new_session
unfolding add_session
newest_session id n = get_elem?-append n.store new_session (length n.store) ∙ ground arith

fresh_address : (x : Bytes) (n : Node) → IsStored n → ¬ (find x n.sessions ≡ some (length n.store))
fresh_address x n v e =
    let (s, f) = v x (length n.store) e in
    absurd (omega (arith, lt-length_of_get_elem? n.store (length n.store) f))

pub add_session-IsValid : (id : Bytes) (n : Node) → IsValid n → IsValid (add_session id n)
unfolding busy_bit add_session
add_session-IsValid id n v = record {
  stored = λ x a e. elim (find-add_session id x a n e) [
    | inl (_, f) ↦ (
      new_session,
      subst (λ b. get_elem? (add_session id n).store b ≡ some new_session) (sym f)
          (newest_session id n),
    )
    | inr f ↦ let (s, g) = v.stored x a f in (s, old_session id a s n g)
  ];
  apart = λ x y a e f. elim (find-add_session id x a n e) [
    | inl (p, q) ↦ elim (find-add_session id y a n f) [
      | inl (p', _) ↦ sym p ∙ p'
      | inr g ↦ absurd (fresh_address y n v.stored (g ∙ ap some q))
    ]
    | inr g ↦ elim (find-add_session id y a n f) [
      | inl (_, q) ↦ absurd (fresh_address x n v.stored (g ∙ ap some q))
      | inr g' ↦ v.apart x y a g g'
    ]
  ];
  single = λ a. elim (Option-cases (get_elem? n.store a)) [
    | inl e ↦
        let none_at : working a n.workers ≤ 0 =
          subst (λ o. working a n.workers ≤ busy_bit o) e (v.single a) in
        omega (arith, none_at)
    | inr (s, e) ↦
        subst (λ o. working a n.workers ≤ busy_bit o) (e ∙ sym (old_session id a s n e))
          (v.single a)
  ];
}

pub no_worker :
    (a : ℕ) (s : Session) (n : Node)
    → get_elem? n.store a ≡ some s
    → s.busy ≡ false
    → IsSingle n
    → working a n.workers ≤ 0
unfolding busy_bit
no_worker a s n at_a idle v =
    let covered : working a n.workers ≤ busy_bit (some s) =
      subst (λ o. working a n.workers ≤ busy_bit o) at_a (v a) in
    rw idle at covered

pub Handled-IsValid : {i : Bytes} {n n' : Node} → Handled i n n' → IsValid n → IsValid n'
unfolding busy_bit hire put take_out
Handled-IsValid {i} {n} (answers text) v = say-IsValid i text n v
Handled-IsValid {i} {n} (adds id text e) v =
    say-IsValid i text (add_session id n) (add_session-IsValid id n v)
Handled-IsValid {i} {n} (cancels a s text e) v =
    unfold cancel_session in say-IsValid i text _ (put-IsValid a s _ n e refl v)
Handled-IsValid {i} {n} (takes_out id a s text e) v =
    unfold cancel_session in
    say-IsValid i text _ (put-IsValid a s _ (take_out id n) e refl (take_out-IsValid id n v))
Handled-IsValid {i} {n} (marks a s text e idle) v = say-IsValid i text _ (
    write-IsValid a s (record s { busy = true }) n.workers n e (λ b f. refl)
      (omega (arith, no_worker a s n e idle v.single)) v)
Handled-IsValid {i} {n} (starts k s e idle named) v =
    write-IsValid k.session s (record s { busy = true }) (n.workers ++ k ∷ []) n e
      (λ b f. working-append b n.workers k ∙ ground (arith, f))
      (rw (working-append k.session n.workers k, (==_iff k.session k.session).1 refl)
        (omega (arith, no_worker k.session s n e idle v.single)))
      v
