-- ===== src/SessionNode/Accounts.antt =====
-- Every request that the session node takes is answered once, or its worker still runs.
use vox_orchestra.Prelude.{
  ℕ, zero, suc, ◌+◌, ◌≡◌, inl, inr, refl, sym, ap, ◌∙◌, Bool, true, false, Option, none, some, List,
  [], ◌∷◌, ◌++◌, if◌then◌else◌, get_elem?, Bytes, bytes_eq, Option-cases, List-cases, arith, All,
}
use vox_orchestra.Prelude.Fallible.{returns, Result-cases, returns-injective}
use vox_orchestra.Protocol.{Json}
use vox_orchestra.SessionPipeline.{Pipeline}
use vox_orchestra.SessionNode.{Setting, Worker, Message, Node, add_session, put}
use vox_orchestra.SessionNode.Requests.{say, hire, take_out, cancel_session}
use vox_orchestra.SessionNode.Handled.{
  Handled, answers, adds, cancels, takes_out, marks, starts, handle_request-Handled,
}
use vox_orchestra.SessionNode.Steps.{
  Ending, deliver, has_reply, remove, advance, handle_if_any, serve_once, end_worker, Step, serves,
  moves, ends, closes, step, run,
}
use vox_orchestra.SessionNode.Valid.{IsValid}
use vox_orchestra.SessionNode.Invariant.{
  Ended, ended, run_inference-Ended, session_at, step-IsValid,
}

abbrev pub one_for : Bytes → Bytes → ℕ
one_for i identity = if bytes_eq identity i then 1 else 0

unfoldable pub addressed : Bytes → List Message → ℕ
addressed i [] = 0
addressed i (m ∷ ms) = one_for i m.identity + addressed i ms

unfoldable pub awaited : Bytes → List Worker → ℕ
awaited i [] = 0
awaited i (k ∷ ks) = one_for i k.identity + awaited i ks

-- The answers that the client has been sent, those on their way, and those that a worker will give.
unfoldable pub due : Bytes → Node → ℕ
unfolding addressed awaited
due i n = addressed i n.sent + addressed i n.replies + awaited i n.workers

unfoldable pub asked : Bytes → List Step → ℕ
asked i [] = 0
asked i (serves (some m) ∷ xs) = one_for i m.identity + asked i xs
asked i (_ ∷ xs) = asked i xs

-- The step is no call of `close`.
abbrev pub IsServing : Step → Type 0
IsServing (closes endings) = ⊥
IsServing _ = Unit

module _ (i : Bytes) where
  addressed-append :
      (ms : List Message) (m : Message)
      → addressed i (ms ++ m ∷ []) ≡ addressed i ms + one_for i m.identity
  unfolding addressed
  addressed-append [] m = omega arith
  addressed-append (x ∷ xs) m = omega (arith, addressed-append xs m)

  awaited-append :
      (ks : List Worker) (k : Worker)
      → awaited i (ks ++ k ∷ []) ≡ awaited i ks + one_for i k.identity
  unfolding awaited
  awaited-append [] k = omega arith
  awaited-append (x ∷ xs) k = omega (arith, awaited-append xs k)

  awaited-remove :
      (at : ℕ) (k : Worker) (ks : List Worker)
      → get_elem? ks at ≡ some k
      → awaited i ks ≡ one_for i k.identity + awaited i (remove at ks)
  unfolding awaited remove
  awaited-remove at k [] e = absurd (cc e)
  awaited-remove zero k (x ∷ ks) e = ground (arith, e)
  awaited-remove (suc at) k (x ∷ ks) e = omega (arith, awaited-remove at k ks e)

  Handled-due :
      {c : Bytes} {n n' : Node}
      → Handled c n n'
      → (due i n' ≡ due i n + one_for i c) × (n'.closed ≡ n.closed)
  unfolding due say add_session cancel_session put take_out hire
  Handled-due {c} {n} (answers text) = (omega (arith, addressed-append n.sent _), refl)
  Handled-due {c} {n} (adds id text e) = (omega (arith, addressed-append n.sent _), refl)
  Handled-due {c} {n} (cancels a s text e) = (omega (arith, addressed-append n.sent _), refl)
  Handled-due {c} {n} (takes_out id a s text e) = (omega (arith, addressed-append n.sent _), refl)
  Handled-due {c} {n} (marks a s text e idle) = (omega (arith, addressed-append n.sent _), refl)
  Handled-due {c} {n} (starts k s e idle named) =
      (omega (arith, awaited-append n.workers k, ap (one_for i) named), refl)

  deliver-due :
      (b : Bool) (n : Node) → (due i (deliver b n) ≡ due i n) × ((deliver b n).closed ≡ n.closed)
  unfolding due deliver addressed
  deliver-due false n = (refl, refl)
  deliver-due true n = elim (List-cases n.replies) [
    | inl e ↦ rw (deliver, e) (omega (arith, ap (addressed i) e), refl)
    | inr (m, ms, e) ↦
        rw (deliver, e) (omega (arith, addressed-append n.sent m, ap (addressed i) e), refl)
  ]

  advance-due :
      (a : ℕ) (f : Pipeline → Pipeline) (n : Node)
      → (due i (advance a f n) ≡ due i n) × ((advance a f n).closed ≡ n.closed)
  unfolding due advance put
  advance-due a f n = elim (Option-cases (get_elem? n.store a)) [
    | inl e ↦ rw (advance, e) (refl, refl)
    | inr (s, e) ↦ rw (advance, e) (refl, refl)
  ]

  Ended-due :
      (at : ℕ) (k : Worker) (n : Node) {n' : Node}
      → get_elem? n.workers at ≡ some k
      → Ended k (record n { workers = remove at n.workers }) n'
      → (due i n' ≡ due i n) × (n'.closed ≡ n.closed)
  unfolding due
  Ended-due at k n e (ended s s' text f idle) =
      (omega (arith, awaited-remove at k n.workers e, addressed-append n.replies _), refl)

module _ (j : Json) (w : Setting j) (i : Bytes) where
  handle_if_any-due :
      (request : Option Message) (n : Node) {n' : Node}
      → handle_if_any j w request n ≡ returns n'
      → IsValid n
      → (due i n' ≡ due i n + asked i (serves request ∷ [])) × (n'.closed ≡ n.closed)
  unfolding handle_if_any asked
  handle_if_any-due none n h v =
      let e = returns-injective refl h in
      (omega (arith, ap (due i) (sym e)), ap (λ m. m.closed) (sym e))
  handle_if_any-due (some m) n h v =
      let (counted, open_still) =
        Handled-due i (handle_request-Handled j w m.identity m.text n v.stored h) in
      (omega (arith, counted), open_still)

  serve_once-due :
      (request : Option Message) (n : Node) {n' : Node}
      → serve_once j w request n ≡ returns n'
      → IsValid n
      → n.closed ≡ false
      → (due i n' ≡ due i n + asked i (serves request ∷ [])) × (n'.closed ≡ n.closed)
  unfolding serve_once
  serve_once-due request n {n'} h v e = elim (Result-cases (handle_if_any j w request n)) [
    | inr (t, f) ↦ absurd (cc (rw (serve_once, f, e) at h))
    | inl (n1, f) ↦
        let (counted, same) = handle_if_any-due request n f v in
        let (kept, same') = deliver-due i (has_reply n) n1 in
        let e' = returns-injective {b = n'} refl (rw (serve_once, f, e) at h) in
        (ap (due i) (sym e') ∙ kept ∙ counted, ap (λ m. m.closed) (sym e') ∙ same' ∙ same)
  ]

  end_worker-due :
      (at : ℕ) (ending : Ending) (n : Node) {n' : Node}
      → end_worker j w at ending n ≡ returns n'
      → IsValid n
      → (due i n' ≡ due i n) × (n'.closed ≡ n.closed)
  unfolding end_worker
  end_worker-due at ending n {n'} h v = elim (Option-cases (get_elem? n.workers at)) [
    | inl e ↦
        let e' = returns-injective {b = n'} refl (rw (end_worker, e) at h) in
        (ap (due i) (sym e'), ap (λ m. m.closed) (sym e'))
    | inr (k, e) ↦
        let (s, f) = session_at at k n e v in
        Ended-due i at k n e (
          run_inference-Ended j ending k (record n { workers = remove at n.workers }) s f
            (rw (end_worker, e) at h))
  ]

  step-due :
      (x : Step) (n : Node) {n' : Node}
      → step j w x n ≡ returns n'
      → IsServing x
      → IsValid n
      → n.closed ≡ false
      → (due i n' ≡ due i n + asked i (x ∷ [])) × (n'.closed ≡ n.closed)
  unfolding step asked
  step-due (serves request) n h o v e = serve_once-due request n h v e
  step-due (moves a f) n h o v e =
      let e' = returns-injective refl h in
      let (kept, same) = advance-due i a f n in
      (omega (arith, ap (due i) (sym e') ∙ kept), ap (λ m. m.closed) (sym e') ∙ same)
  step-due (ends at ending) n h o v e =
      let (kept, same) = end_worker-due at ending n h v in (omega (arith, kept), same)
  step-due (closes endings) n h o v e = absurd o

  asked-cons : (x : Step) (xs : List Step) → asked i (x ∷ xs) ≡ asked i (x ∷ []) + asked i xs
  unfolding asked
  asked-cons (serves none) xs = omega arith
  asked-cons (serves (some m)) xs = omega arith
  asked-cons (moves a f) xs = omega arith
  asked-cons (ends at ending) xs = omega arith
  asked-cons (closes endings) xs = omega arith

  -- As long as the node is not closed and no exception ends it, each client is owed one answer for
  -- each of its requests: the answers it was sent, those in the pipe and the workers that will give
  -- one are, together, as many as before and one more for each of its requests. None is lost and
  -- none is doubled, whatever the requests are and in whatever order the threads run.
  pub run-due :
      (xs : List Step) (n : Node) {n' : Node}
      → run j w xs n ≡ returns n'
      → All IsServing xs
      → IsValid n
      → n.closed ≡ false
      → due i n' ≡ due i n + asked i xs
  unfolding run asked
  run-due [] n h o v e = omega (arith, ap (due i) (returns-injective refl h))
  run-due (x ∷ xs) n h o v e = elim (Result-cases (step j w x n)) [
    | inr (t, f) ↦ absurd (cc (rw (run, f) at h))
    | inl (n1, f) ↦
        let (counted, same) = step-due x n f o.0 v e in
        omega (
          arith,
          run-due xs n1 (rw (run, f) at h) o.1 (step-IsValid j w x n f v) (same ∙ e),
          counted,
          asked-cons x xs,
        )
  ]
