-- ===== src/TaskChannel/Flight.antt =====
-- A request in flight: one at a time, and nothing that other threads call loses it or revives a
-- task that was ended.
use vox_orchestra.Prelude.{
  ℕ, ◌+◌, ◌%◌, ◌^◌, ◌≡◌, ◌≢◌, ◌⊎◌, refl, ap, ◌∙◌, Bool, true, false, if◌then◌else◌, Option, some,
  none, List, [], ◌∷◌, Bytes, arith,
}
use vox_orchestra.Prelude.Int.{ℤ}
use vox_orchestra.TaskChannel.Lifecycle.{run_terminated}
use vox_orchestra.TaskChannel.{
  begin_in, ready, busy, terminated, ok, cancelled, Backend, stopped, BackendResult, Channel, begin,
  finish, cancel, exit, Call, setups, begins, cancels, exits, answer, run, deadline_of, inference,
  done, timed_out, timeout, Error,
}

-- The request is in flight, or the task was ended, and the backend told so.
abbrev IsHeld : Bytes → Channel → Type 0
IsHeld request c =
    ((c.state ≡ busy) × (c.in_flight ≡ request)) ⊎ ((c.state ≡ terminated) × (c.cancel_flag ≡ true))

-- What no other thread can change while a request is in flight.
pub record IsFlying (request : Bytes) (start c : Channel) : Type 0 where
  pub held : IsHeld request c
  pub count : c.inference_count ≡ start.inference_count
  pub payload : c.setup_payload ≡ start.setup_payload
  pub id : c.work_id ≡ start.work_id

answer-IsFlying :
    (x : Call) (request : Bytes) (start c : Channel)
    → IsFlying request start c
    → IsFlying request start (answer x c).0
unfolding answer
answer-IsFlying (setups p) request start c h = ground arith
answer-IsFlying _ request start c h = ground arith

run-IsFlying :
    (xs : List Call) (request : Bytes) (start c : Channel)
    → IsFlying request start c
    → IsFlying request start (run xs c)
unfolding run
run-IsFlying [] request start c h = h
run-IsFlying (x ∷ xs) request start c h =
    run-IsFlying xs request start _ (answer-IsFlying x request start c h)

-- The flag, once set, stays set until the next request begins.
answer_flag :
    (x : Call) (request : Bytes) (start c : Channel)
    → IsFlying request start c
    → c.cancel_flag ≡ true
    → (answer x c).0.cancel_flag ≡ true
unfolding answer
answer_flag (setups p) request start c h f = ground arith
answer_flag _ request start c h f = ground arith

run_flag :
    (xs : List Call) (request : Bytes) (start c : Channel)
    → IsFlying request start c
    → c.cancel_flag ≡ true
    → (run xs c).cancel_flag ≡ true
unfolding run
run_flag [] request start c h f = f
run_flag (x ∷ xs) request start c h f =
    run_flag xs request start _ (answer-IsFlying x request start c h)
      (answer_flag x request start c h f)

-- One of the calls is a `cancel` or an `exit`.
abbrev pub AsksStop : List Call → Type 0
AsksStop [] = ⊥
AsksStop (cancels ∷ xs) = Unit
AsksStop (exits ∷ xs) = Unit
AsksStop (setups _ ∷ xs) = AsksStop xs
AsksStop (begins _ ∷ xs) = AsksStop xs

cancel_sets_flag :
    (request : Bytes) (start c : Channel)
    → IsFlying request start c
    → (cancel c).0.cancel_flag ≡ true
unfolding cancel
cancel_sets_flag request start c h = ground arith

exit_sets_flag :
    (request : Bytes) (start c : Channel) → IsFlying request start c → (exit c).0.cancel_flag ≡ true
unfolding exit
exit_sets_flag request start c h = ground arith

run_asked :
    (xs : List Call) (request : Bytes) (start c : Channel)
    → IsFlying request start c
    → AsksStop xs
    → (run xs c).cancel_flag ≡ true
unfolding run
run_asked [] request start c h a = absurd a
run_asked (cancels ∷ xs) request start c h a =
    run_flag xs request start _ (answer-IsFlying cancels request start c h)
      (unfold answer in cancel_sets_flag request start c h)
run_asked (exits ∷ xs) request start c h a =
    run_flag xs request start _ (answer-IsFlying exits request start c h)
      (unfold answer in exit_sets_flag request start c h)
run_asked (setups p ∷ xs) request start c h a =
    run_asked xs request start _ (answer-IsFlying (setups p) request start c h) a
run_asked (begins r ∷ xs) request start c h a =
    run_asked xs request start _ (answer-IsFlying (begins r) request start c h) a

begin-IsFlying :
    (request : Bytes) (c : Channel) → c.state ≡ ready → IsFlying request c (begin request c).0
unfolding begin
begin-IsFlying request c e = ground arith

-- One of the calls is an `exit`.
unfoldable pub ends : List Call → Bool
ends [] = false
ends (exits ∷ xs) = true
ends (setups _ ∷ xs) = ends xs
ends (begins _ ∷ xs) = ends xs
ends (cancels ∷ xs) = ends xs

answer_busy :
    (x : Call) (c : Channel)
    → c.state ≡ busy
    → (answer x c).0.state ≡ (if ends (x ∷ []) then terminated else busy)
unfolding answer ends
answer_busy (setups p) c e = ground arith
answer_busy _ c e = ground arith

-- A channel that is busy stays so, unless it is ended.
run_busy :
    (xs : List Call) (c : Channel)
    → c.state ≡ busy
    → (run xs c).state ≡ (if ends xs then terminated else busy)
unfolding run ends
run_busy [] c e = e
run_busy (exits ∷ xs) c e =
    ap (λ d. d.state) (run_terminated xs _ (answer_busy exits c e)) ∙ answer_busy exits c e
run_busy (setups p ∷ xs) c e = run_busy xs _ (answer_busy (setups p) c e)
run_busy (begins r ∷ xs) c e = run_busy xs _ (answer_busy (begins r) c e)
run_busy (cancels ∷ xs) c e = run_busy xs _ (answer_busy cancels c e)

begin_busy : (request : Bytes) (c : Channel) → c.state ≡ ready → (begin request c).0.state ≡ busy
unfolding begin
begin_busy request c e = ground arith

-- How `inference` leaves a channel that was ready.
pub record IsBack (ended : Bool) (start c : Channel) : Type 0 where
  pub state : c.state ≡ (if ended then terminated else ready)
  pub cleared : (ended ≡ true) ⊎ (c.in_flight ≡ [])
  pub count : c.inference_count ≡ (start.inference_count + 1) % 2 ^ 64
  pub payload : c.setup_payload ≡ start.setup_payload

finish-IsBack :
    (r : BackendResult) (ended : Bool) (request : Bytes) (start c : Channel)
    → IsFlying request start c
    → c.state ≡ (if ended then terminated else busy)
    → IsBack ended start (finish r c).0
unfolding finish
finish-IsBack r true request start c h e = ground arith
finish-IsBack r false request start c h e = ground arith

abbrev pub seen : Bytes → List Call → Channel → Channel
seen request others c = run others (begin request c).0

inference_ready_eq :
    (infer : Backend) (request payload : Bytes) (now : ℕ) (limit : ℤ) (others : List Call)
    (c : Channel)
    → c.state ≡ ready
    → inference infer request payload now limit others c ≡ (
        let c' = seen request others c in
        finish (infer payload (deadline_of now limit) c'.cancel_flag) c')
unfolding inference begin
inference_ready_eq infer request payload now limit others c e = rw (e, begin_in)

-- What the caller is told of the backend's result: success with the text, or the way it failed, with
-- none.
abbrev pub Told : BackendResult → Error → Option Bytes → Type 0
Told r e text =
    ((r.code ≡ done) × (e ≡ ok) × (text ≡ some r.text))
    ⊎ ((r.code ≡ timed_out) × (e ≡ timeout) × (text ≡ none))
    ⊎ ((r.code ≡ stopped) × (e ≡ cancelled) × (text ≡ none))

finish-Told : (r : BackendResult) (c : Channel) → let out = finish r c in Told r out.1 out.2
unfolding finish
finish-Told r c = ground arith

-- On a channel that is ready, whatever others call meanwhile, `inference` answers by the backend's
-- result, where the backend returns one: `ok` with its text on success, `timeout` or `cancelled`
-- with no text where it ran out of time or was stopped. It counts the call, and leaves the channel
-- ready with nothing in flight, or ended where one of the calls was an `exit`.
pub inference_ready :
    (infer : Backend) (request payload : Bytes) (now : ℕ) (limit : ℤ) (others : List Call)
    (c : Channel)
    → c.state ≡ ready
    → let out = inference infer request payload now limit others c in
      let flag = (seen request others c).cancel_flag in
      let r = infer payload (deadline_of now limit) flag in
      IsBack (ends others) c out.0 × Told r out.1 out.2
inference_ready infer request payload now limit others c e =
    rw (inference_ready_eq infer request payload now limit others c e) (
      finish-IsBack _ (ends others) request c (seen request others c)
          (run-IsFlying others request c _ (begin-IsFlying request c e))
          (run_busy others _ (begin_busy request c e)),
      finish-Told _ (seen request others c),
    )

-- A channel that is not ready refuses, writes nothing and stays as it is.
pub inference_refused :
    (infer : Backend) (request payload : Bytes) (now : ℕ) (limit : ℤ) (others : List Call)
    (c : Channel)
    → c.state ≢ ready
    → let out = inference infer request payload now limit others c in
      (out.0 ≡ c) × (out.1 ≢ ok) × (out.2 ≡ none)
unfolding inference
inference_refused infer request payload now limit others c e = ground arith

-- With a backend that gives up once the flag is set, a `cancel` or an `exit` during the call makes
-- it return `cancelled`, and with no text.
pub inference_asked :
    (infer : Backend) (request payload : Bytes) (now : ℕ) (limit : ℤ) (others : List Call)
    (c : Channel)
    → ((p : Bytes) (d : ℕ) → (infer p d true).code ≡ stopped)
    → c.state ≡ ready
    → AsksStop others
    → let out = inference infer request payload now limit others c in
      (out.1 ≡ cancelled) × (out.2 ≡ none)
inference_asked infer request payload now limit others c obeys e a =
    let flag = run_asked others request c _ (begin-IsFlying request c e) a in
    rw (inference_ready_eq infer request payload now limit others c e)
      (unfold finish in rw (flag, obeys payload (deadline_of now limit)) (refl, refl))
