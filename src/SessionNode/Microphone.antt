-- ===== src/SessionNode/Microphone.antt =====
-- A request for the microphone in a build that has none leaves the session busy:
-- apps/session_node/session_node.cpp, the `#else` branch of the mode "alsa".
use vox_orchestra.Prelude.{
  ℕ, ◌≡◌, refl, sym, ◌∙◌, subst, true, false, none, some, List, ==_iff, get_elem?, Bytes, utf8,
  find, arith, All,
}
use vox_orchestra.Prelude.Int.{pos}
use vox_orchestra.Prelude.Fallible.{returns}
use vox_orchestra.Protocol.{Json, Envelope, inference_type}
use vox_orchestra.Protocol.Parse.{from_json}
use vox_orchestra.SessionNode.{Setting, Session, Node, put}
use vox_orchestra.SessionNode.Requests.{
  say, refuse, read_input, start_worker, with_session, infer, switch, handle_request,
}
use vox_orchestra.SessionNode.Handled.{handle_request-Handled, refuse_said}
use vox_orchestra.SessionNode.Steps.{Step, run}
use vox_orchestra.SessionNode.Valid.{working, IsValid, get_elem?-put, no_worker, Handled-IsValid}
use vox_orchestra.SessionNode.Accounts.{IsServing}
use vox_orchestra.SessionNode.Stuck.{IsStuck, same-IsStuck, run-IsStuck}

-- The text is a request to infer, of the session at an address of the table.
pub record Infers (j : Json) (text : Bytes) (a : ℕ) (n : Node) : Type 0 where
  pub request : Envelope j.Value
  pub reads : from_json j text ≡ returns request
  pub kind : request.type ≡ inference_type
  pub entry : find request.work_id n.sessions ≡ some a

module _ (j : Json) (w : Setting j) where
  -- A request to infer does what `infer` does with the session.
  infers :
      (identity text : Bytes) (a : ℕ) (s : Session) (n : Node) (q : Infers j text a n)
      → get_elem? n.store a ≡ some s
      → handle_request j w identity text n ≡ infer j w identity q.request a s n
  unfolding handle_request switch with_session
  infers identity text a s n q e =
      rw (handle_request, q.reads, q.kind, switch, with_session, q.entry, e) refl

  alsa-IsStuck :
      (identity text : Bytes) (a : ℕ) (s : Session) (n : Node) (q : Infers j text a n) {n' : Node}
      → IsValid n
      → get_elem? n.store a ≡ some s
      → s.busy ≡ false
      → read_input j w q.request.payload ≡ returns none
      → handle_request j w identity text n ≡ returns n'
      → IsStuck a n'
  unfolding infer start_worker say
  alsa-IsStuck identity text a s n q {n'} v e idle alsa h =
      let begun : infer j w identity q.request a s n ≡ returns n' =
        sym (infers identity text a s n q e) ∙ h in
      let marked = put a (record s { busy = true }) n in
      let (said, f) =
        refuse_said j w identity q.request (pos 3) (utf8 "当前构建未启用 ALSA 录音（需硬件后端构建，--record-device）")
          marked {n' = n'} (rw (infer, alsa, idle, start_worker) at begun) in
      subst (IsStuck a) f (
        same-IsStuck a marked _ refl refl (
          unfold put in
          record {
            held = record s { busy = true };
            there =
                get_elem?-put a a s (record s { busy = true }) n e ∙ rw ((==_iff a a).1 refl) refl;
            marked = refl;
            alone = omega (arith, no_worker a s n e idle v.single);
          }))

  -- In the build without ALSA, a request to infer in the mode "alsa" leaves an idle session busy
  -- for ever: after any further steps but `close`, each request to infer that still finds the session
  -- is refused as busy, and changes nothing else, although no worker runs.
  pub alsa_sticks :
      (identity text : Bytes) (a : ℕ) (s : Session) (n : Node) (q : Infers j text a n)
      {n1 n2 : Node}
      → IsValid n
      → get_elem? n.store a ≡ some s
      → s.busy ≡ false
      → read_input j w q.request.payload ≡ returns none
      → handle_request j w identity text n ≡ returns n1
      → (xs : List Step) → run j w xs n1 ≡ returns n2
      → All IsServing xs
      → (identity' text' : Bytes) (q' : Infers j text' a n2)
      → (working a n2.workers ≡ 0)
        × (handle_request j w identity' text' n2
            ≡ refuse j w identity' q'.request (pos 3) (utf8 "会话忙碌（单流）") n2)
  unfolding infer
  alsa_sticks identity text a s n q v e idle alsa h xs ran o identity' text' q' =
      let after = Handled-IsValid (handle_request-Handled j w identity text n v.stored h) v in
      let stuck =
        run-IsStuck j w a xs _ ran o after (alsa-IsStuck identity text a s n q v e idle alsa h) in
      (
        stuck.alone,
        infers identity' text' a stuck.held _ q' stuck.there ∙ rw (infer, stuck.marked) refl,
      )
