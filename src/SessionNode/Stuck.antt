-- ===== src/SessionNode/Stuck.antt =====
-- A session that is busy and has no worker stays so: the steps of apps/session_node/session_node.cpp
-- free a session only where its worker ends.
use vox_orchestra.Prelude.{
  ℕ, ◌≡◌, inl, inr, refl, sym, ap, ◌∙◌, subst, Bool, true, false, Option, none, some, List, [], ◌∷◌,
  ◌==◌, ==_iff, if◌then◌else◌, get_elem?, Bytes, Bool-cases, Option-cases, List-cases, arith, All,
}
use vox_orchestra.Prelude.Fallible.{returns, Result-cases, returns-injective}
use vox_orchestra.Protocol.{Json}
use vox_orchestra.SessionPipeline.{Pipeline}
use vox_orchestra.SessionNode.{Setting, Session, Worker, Message, Node, add_session, put}
use vox_orchestra.SessionNode.Requests.{say, hire, take_out, cancel_session}
use vox_orchestra.SessionNode.Handled.{
  Handled, answers, adds, cancels, takes_out, marks, starts, handle_request-Handled,
}
use vox_orchestra.SessionNode.Steps.{
  Ending, deliver, has_reply, remove, advance, handle_if_any, serve_once, end_worker, Step, serves,
  moves, ends, closes, step, run,
}
use vox_orchestra.SessionNode.Valid.{working, IsValid, get_elem?-put, old_session, working-append}
use vox_orchestra.SessionNode.Invariant.{
  Ended, ended, run_inference-Ended, session_at, remove_count, step-IsValid,
}
use vox_orchestra.SessionNode.Accounts.{IsServing}

abbrev one_if : Bool → ℕ
one_if t = if t then 1 else 0

-- A session that is busy for no worker.
pub record IsStuck (a : ℕ) (n : Node) : Type 0 where
  pub held : Session
  pub there : get_elem? n.store a ≡ some held
  pub marked : held.busy ≡ true
  pub alone : working a n.workers ≡ 0

-- A session that is overwritten stays stuck where its flag is left.
put-IsStuck :
    (a b : ℕ) (s s' : Session) (n : Node)
    → get_elem? n.store b ≡ some s
    → (s.busy ≡ true → s'.busy ≡ true)
    → IsStuck a n
    → IsStuck a (put b s' n)
unfolding put
put-IsStuck a b s s' n e same v = elim (Bool-cases (b == a)) [
  | inl f ↦ record {
    held = s';
    there = get_elem?-put b a s s' n e ∙ rw f refl;
    marked = same (
        cc (
          sym e ∙ subst (λ c. get_elem? n.store c ≡ some v.held) (sym ((==_iff b a).0 f)) v.there,
          v.marked,
        ));
    alone = v.alone;
  }
  | inr f ↦ record {
    held = v.held;
    there = get_elem?-put b a s s' n e ∙ rw f v.there;
    marked = v.marked;
    alone = v.alone;
  }
]

-- A step that leaves the store and the workers.
pub same-IsStuck :
    (a : ℕ) (n n' : Node) → n'.store ≡ n.store → n'.workers ≡ n.workers → IsStuck a n → IsStuck a n'
same-IsStuck a n n' e f v = record {
  held = v.held;
  there = ap (λ m. get_elem? m a) e ∙ v.there;
  marked = v.marked;
  alone = ap (working a) f ∙ v.alone;
}

-- The session that a step finds at another flag is another one.
idle_elsewhere :
    (a b : ℕ) (s : Session) (n : Node)
    → get_elem? n.store b ≡ some s
    → s.busy ≡ false
    → IsStuck a n
    → (b == a) ≡ false
idle_elsewhere a b s n e idle v = elim (Bool-cases (b == a)) [
  | inr f ↦ f
  | inl f ↦
      let found = subst (λ c. get_elem? n.store c ≡ some v.held) (sym ((==_iff b a).0 f)) v.there in
      cc (sym e ∙ found, idle, v.marked)
]

Handled-IsStuck : (a : ℕ) {i : Bytes} {n n' : Node} → Handled i n n' → IsStuck a n → IsStuck a n'
unfolding say hire put
Handled-IsStuck a {i} {n} (answers text) v = same-IsStuck a n (say i text n) refl refl v
Handled-IsStuck a {i} {n} (adds id text e) v =
    unfold add_session in
    record {
      held = v.held;
      there = old_session id a v.held n v.there;
      marked = v.marked;
      alone = v.alone;
    }
Handled-IsStuck a {i} {n} (cancels b s text e) v =
    unfold cancel_session in
    same-IsStuck a _ (say i text _) refl refl (put-IsStuck a b s _ n e (λ f. f) v)
Handled-IsStuck a {i} {n} (takes_out id b s text e) v =
    unfold cancel_session take_out in
    same-IsStuck a _ (say i text _) refl refl (put-IsStuck a b s _ n e (λ f. f) v)
Handled-IsStuck a {i} {n} (marks b s text e idle) v =
    same-IsStuck a _ (say i text _) refl refl
      (put-IsStuck a b s (record s { busy = true }) n e (λ f. refl) v)
Handled-IsStuck a {i} {n} (starts k s e idle named) v =
    let u = put-IsStuck a k.session s (record s { busy = true }) n e (λ f. refl) v in
    record {
      held = u.held;
      there = u.there;
      marked = u.marked;
      alone =
          working-append a n.workers k
          ∙ omega (arith, v.alone, ap one_if (idle_elsewhere a k.session s n e idle v));
    }

deliver-IsStuck : (a : ℕ) (b : Bool) (n : Node) → IsStuck a n → IsStuck a (deliver b n)
unfolding deliver
deliver-IsStuck a false n v = v
deliver-IsStuck a true n v = elim (List-cases n.replies) [
  | inl e ↦ rw (deliver, e) (same-IsStuck a n _ refl refl v)
  | inr (m, ms, e) ↦ rw (deliver, e) (same-IsStuck a n _ refl refl v)
]

advance-IsStuck :
    (a b : ℕ) (f : Pipeline → Pipeline) (n : Node) → IsStuck a n → IsStuck a (advance b f n)
unfolding advance
advance-IsStuck a b f n v = elim (Option-cases (get_elem? n.store b)) [
  | inl e ↦ rw (advance, e) v
  | inr (s, e) ↦ rw (advance, e) (put-IsStuck a b s _ n e (λ g. g) v)
]

-- A worker that ends has another session.
Ended-IsStuck :
    (a i : ℕ) (k : Worker) (n : Node) {n' : Node}
    → get_elem? n.workers i ≡ some k
    → Ended k (record n { workers = remove i n.workers }) n'
    → IsStuck a n
    → IsStuck a n'
Ended-IsStuck a i k n e (ended s s' text f idle) v = elim (Bool-cases (k.session == a)) [
  | inl g ↦ absurd (omega (arith, v.alone, remove_count a i k n.workers e, ap one_if g))
  | inr g ↦ record {
    held = v.held;
    there = get_elem?-put k.session a s s' n f ∙ rw g v.there;
    marked = v.marked;
    alone = omega (arith, v.alone, remove_count a i k n.workers e, ap one_if g);
  }
]

module _ (j : Json) (w : Setting j) (a : ℕ) where
  handle_if_any-IsStuck :
      (request : Option Message) (n : Node) {n' : Node}
      → handle_if_any j w request n ≡ returns n'
      → IsValid n
      → IsStuck a n
      → IsStuck a n'
  unfolding handle_if_any
  handle_if_any-IsStuck none n h v u = subst (IsStuck a) (returns-injective refl h) u
  handle_if_any-IsStuck (some m) n h v u =
      Handled-IsStuck a (handle_request-Handled j w m.identity m.text n v.stored h) u

  serve_once-IsStuck :
      (request : Option Message) (n : Node) {n' : Node}
      → serve_once j w request n ≡ returns n'
      → IsValid n
      → IsStuck a n
      → IsStuck a n'
  unfolding serve_once
  serve_once-IsStuck request n h v u = elim (Bool-cases n.closed) [
    | inl e ↦
        subst (IsStuck a) (returns-injective refl (rw (serve_once, e) at h))
          (same-IsStuck a n _ refl refl u)
    | inr e ↦ elim (Result-cases (handle_if_any j w request n)) [
      | inr (t, f) ↦ absurd (cc (rw (serve_once, f, e) at h))
      | inl (n1, f) ↦
          subst (IsStuck a) (returns-injective refl (rw (serve_once, f, e) at h))
            (deliver-IsStuck a (has_reply n) n1 (handle_if_any-IsStuck request n f v u))
    ]
  ]

  end_worker-IsStuck :
      (i : ℕ) (ending : Ending) (n : Node) {n' : Node}
      → end_worker j w i ending n ≡ returns n'
      → IsValid n
      → IsStuck a n
      → IsStuck a n'
  unfolding end_worker
  end_worker-IsStuck i ending n h v u = elim (Option-cases (get_elem? n.workers i)) [
    | inl e ↦ subst (IsStuck a) (returns-injective refl (rw (end_worker, e) at h)) u
    | inr (k, e) ↦
        let (s, f) = session_at i k n e v in
        Ended-IsStuck a i k n e
          (run_inference-Ended j ending k (record n { workers = remove i n.workers }) s f
            (rw (end_worker, e) at h))
          u
  ]

  step-IsStuck :
      (x : Step) (n : Node) {n' : Node}
      → step j w x n ≡ returns n'
      → IsServing x
      → IsValid n
      → IsStuck a n
      → IsStuck a n'
  unfolding step
  step-IsStuck (serves request) n h o v u = serve_once-IsStuck request n h v u
  step-IsStuck (moves b f) n h o v u =
      subst (IsStuck a) (returns-injective refl h) (advance-IsStuck a b f n u)
  step-IsStuck (ends i ending) n h o v u = end_worker-IsStuck i ending n h v u
  step-IsStuck (closes endings) n h o v u = absurd o

  pub run-IsStuck :
      (xs : List Step) (n : Node) {n' : Node}
      → run j w xs n ≡ returns n'
      → All IsServing xs
      → IsValid n
      → IsStuck a n
      → IsStuck a n'
  unfolding run
  run-IsStuck [] n h o v u = subst (IsStuck a) (returns-injective refl h) u
  run-IsStuck (x ∷ xs) n h o v u = elim (Result-cases (step j w x n)) [
    | inr (t, f) ↦ absurd (cc (rw (run, f) at h))
    | inl (n1, f) ↦
        run-IsStuck xs n1 (rw (run, f) at h) o.1 (step-IsValid j w x n f v)
          (step-IsStuck x n f o.0 v u)
  ]
