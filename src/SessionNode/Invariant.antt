-- ===== src/SessionNode/Invariant.antt =====
-- Every step of the session node keeps it valid.
use vox_orchestra.Prelude.{
  ℕ, zero, suc, ◌+◌, ◌≤◌, ◌≡◌, inl, inr, refl, sym, ◌∙◌, subst, Bool, true, false, Option, none,
  some, List, [], ◌∷◌, ◌++◌, ◌==◌, ==_iff, if◌then◌else◌, get_elem?, set, Bytes, find, Bool-cases,
  Option-cases, List-cases, arith,
}
use vox_orchestra.Prelude.Fallible.{returns, Result-cases, returns-injective}
use vox_orchestra.Protocol.{Json, to_json}
use vox_orchestra.SessionPipeline.{Pipeline}
use vox_orchestra.SessionNode.{Setting, Session, Worker, Message, Node, put}
use vox_orchestra.SessionNode.Handled.{handle_request-Handled}
use vox_orchestra.SessionNode.Steps.{
  Ending, reply_of, store_result, push_reply, run_inference, deliver, has_reply, remove, advance,
  join, cancel_all, close, handle_if_any, serve_once, end_worker, Step, serves, moves, ends, closes,
  step, run,
}
use vox_orchestra.SessionNode.Valid.{
  working, busy_bit, IsValid, write-IsValid, put-IsValid, Handled-IsValid,
}

-- The end of a worker that has its session in the store.
pub data Ended (k : Worker) (n : Node) : Node → Type 0 where
  ended :
      (s s' : Session) (text : Bytes)
      → get_elem? n.store k.session ≡ some s
      → s'.busy ≡ false
      → Ended k n (record n {
        store = set n.store k.session s';
        replies = n.replies ++ record { identity = k.identity; text = text } ∷ [];
      })

module _ (j : Json) where
  pub run_inference-Ended :
      (ending : Ending) (k : Worker) (n : Node) (s : Session) {n' : Node}
      → get_elem? n.store k.session ≡ some s
      → run_inference j ending k n ≡ returns n'
      → Ended k n n'
  unfolding run_inference push_reply store_result put
  run_inference-Ended ending k n s {n'} e h =
      let out = ending s.pipeline in
      let pushed : push_reply j k out.1 (store_result k s out n) ≡ returns n' = ground (arith, e) in
      elim (Result-cases (to_json j (reply_of j k out.1))) [
        | inr (t, f) ↦ absurd (cc (rw (push_reply, f) at pushed))
        | inl (text, f) ↦
            subst (Ended k n) (returns-injective refl (rw (push_reply, f) at pushed))
              (ended s _ text e refl)
      ]

pub remove_count :
    (a i : ℕ) (k : Worker) (ks : List Worker)
    → get_elem? ks i ≡ some k
    → working a ks ≡ (if k.session == a then 1 else 0) + working a (remove i ks)
unfolding working remove
remove_count a i k [] e = absurd (cc e)
remove_count a zero k (x ∷ ks) e = ground (arith, e)
remove_count a (suc i) k (x ∷ ks) e = omega (arith, remove_count a i k ks e)

pub own_count :
    (i : ℕ) (k : Worker) (ks : List Worker)
    → get_elem? ks i ≡ some k
    → working k.session ks ≡ suc (working k.session (remove i ks))
own_count i k ks e =
    remove_count k.session i k ks e ∙ rw ((==_iff k.session k.session).1 refl) (omega arith)

bit_le_one : (o : Option Session) → busy_bit o ≤ 1
unfolding busy_bit
bit_le_one none = omega arith
bit_le_one (some s) = ground arith

deliver-IsValid : (b : Bool) (n : Node) → IsValid n → IsValid (deliver b n)
unfolding deliver
deliver-IsValid false n v = v
deliver-IsValid true n v = elim (List-cases n.replies) [
  | inl e ↦ rw (deliver, e) v
  | inr (m, ms, e) ↦
      rw (deliver, e) (record { stored = v.stored; apart = v.apart; single = v.single })
]

advance-IsValid : (a : ℕ) (f : Pipeline → Pipeline) (n : Node) → IsValid n → IsValid (advance a f n)
unfolding advance
advance-IsValid a f n v = elim (Option-cases (get_elem? n.store a)) [
  | inl e ↦ rw (advance, e) v
  | inr (s, e) ↦ rw (advance, e) (put-IsValid a s _ n e refl v)
]

closed-IsValid : (n : Node) → IsValid (record n { workers = []; replies = []; sessions = [] })
unfolding working busy_bit find
closed-IsValid n = record {
  stored = λ id a e. absurd (cc e);
  apart = λ id id' a e. absurd (cc e);
  single = λ a. omega arith;
}

-- The session of a worker is in the store.
pub session_at :
    (i : ℕ) (k : Worker) (n : Node)
    → get_elem? n.workers i ≡ some k
    → IsValid n
    → (s : Session) × (get_elem? n.store k.session ≡ some s)
unfolding busy_bit
session_at i k n e v = elim (Option-cases (get_elem? n.store k.session)) [
  | inr found ↦ found
  | inl f ↦
      let none_at : working k.session n.workers ≤ 0 =
        subst (λ o. working k.session n.workers ≤ busy_bit o) f (v.single k.session) in
      absurd (omega (arith, none_at, own_count i k n.workers e))
]

Ended-IsValid :
    (i : ℕ) (k : Worker) (n : Node) {n' : Node}
    → get_elem? n.workers i ≡ some k
    → IsValid n
    → Ended k (record n { workers = remove i n.workers }) n'
    → IsValid n'
unfolding busy_bit
Ended-IsValid i k n e v (ended s s' text f idle) =
    let w =
      write-IsValid k.session s s' (remove i n.workers) n f
        (λ b g. sym (remove_count b i k n.workers e ∙ ground (arith, g)))
        (omega (
          arith,
          own_count i k n.workers e,
          v.single k.session,
          bit_le_one (get_elem? n.store k.session),
        ))
        v in
    record { stored = w.stored; apart = w.apart; single = w.single }

module _ (j : Json) (w : Setting j) where
  pub handle_if_any-IsValid :
      (request : Option Message) (n : Node) {n' : Node}
      → handle_if_any j w request n ≡ returns n'
      → IsValid n
      → IsValid n'
  unfolding handle_if_any
  handle_if_any-IsValid none n h v = subst IsValid (returns-injective refl h) v
  handle_if_any-IsValid (some m) n h v =
      Handled-IsValid (handle_request-Handled j w m.identity m.text n v.stored h) v

  serve_once-IsValid :
      (request : Option Message) (n : Node) {n' : Node}
      → serve_once j w request n ≡ returns n'
      → IsValid n
      → IsValid n'
  unfolding serve_once
  serve_once-IsValid request n h v = elim (Bool-cases n.closed) [
    | inl e ↦
        subst IsValid (returns-injective refl (rw (serve_once, e) at h))
          (record { stored = v.stored; apart = v.apart; single = v.single })
    | inr e ↦ elim (Result-cases (handle_if_any j w request n)) [
      | inr (t, f) ↦ absurd (cc (rw (serve_once, f, e) at h))
      | inl (n1, f) ↦
          subst IsValid (returns-injective refl (rw (serve_once, f, e) at h))
            (deliver-IsValid (has_reply n) n1 (handle_if_any-IsValid request n f v))
    ]
  ]

  end_worker-IsValid :
      (i : ℕ) (ending : Ending) (n : Node) {n' : Node}
      → end_worker j w i ending n ≡ returns n'
      → IsValid n
      → IsValid n'
  unfolding end_worker
  end_worker-IsValid i ending n h v = elim (Option-cases (get_elem? n.workers i)) [
    | inl e ↦ subst IsValid (returns-injective refl (rw (end_worker, e) at h)) v
    | inr (k, e) ↦
        let (s, f) = session_at i k n e v in
        Ended-IsValid i k n e v (
          run_inference-Ended j ending k (record n { workers = remove i n.workers }) s f
            (rw (end_worker, e) at h))
  ]

  close-IsValid :
      (endings : Worker → Ending) (n : Node) {n' : Node}
      → close j endings n ≡ returns n'
      → IsValid n
      → IsValid n'
  unfolding close
  close-IsValid endings n h v = elim (Bool-cases n.closed) [
    | inl e ↦
        subst IsValid (returns-injective refl (rw (close, e) at h))
          (record { stored = v.stored; apart = v.apart; single = v.single })
    | inr e ↦
        let joined =
          join j endings n.workers (cancel_all n.sessions (record n { closed = true })) in
        elim (Result-cases joined) [
          | inr (t, f) ↦ absurd (cc (rw (close, e, f) at h))
          | inl (n1, f) ↦
              subst IsValid (returns-injective refl (rw (close, e, f) at h)) (closed-IsValid n1)
        ]
  ]

  pub step-IsValid :
      (x : Step) (n : Node) {n' : Node} → step j w x n ≡ returns n' → IsValid n → IsValid n'
  unfolding step
  step-IsValid (serves request) n h v = serve_once-IsValid request n h v
  step-IsValid (moves a f) n h v =
      subst IsValid (returns-injective refl h) (advance-IsValid a f n v)
  step-IsValid (ends i ending) n h v = end_worker-IsValid i ending n h v
  step-IsValid (closes endings) n h v = close-IsValid endings n h v

  -- From the start on, whatever the clients ask, the pipelines do and the order of the threads is:
  -- the table points into the store, no session has two names, and a session has at most one worker,
  -- and only while it is marked busy.
  pub run-IsValid :
      (xs : List Step) (n : Node) {n' : Node} → run j w xs n ≡ returns n' → IsValid n → IsValid n'
  unfolding run
  run-IsValid [] n h v = subst IsValid (returns-injective refl h) v
  run-IsValid (x ∷ xs) n h v = elim (Result-cases (step j w x n)) [
    | inr (t, f) ↦ absurd (cc (rw (run, f) at h))
    | inl (n1, f) ↦ run-IsValid xs n1 (rw (run, f) at h) (step-IsValid x n f v)
  ]
