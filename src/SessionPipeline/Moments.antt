-- ===== src/SessionPipeline/Moments.antt =====
-- What a moment can and cannot change.
use mathlib.Core.Bool.{true≢false}
use vox_orchestra.Prelude.{
  ◌≡◌, ◌⊎◌, inl, inr, refl, sym, ◌∙◌, true, false, List, [], ◌∷◌, arith, Bool-cases,
}
use vox_orchestra.SessionState.{idle, cancelling, cancel, cancel_complete, dispatch}
use vox_orchestra.SessionPipeline.{
  Pipeline, send, Moment, Outside, raises, notifies, sleep, meet, raise, notify, happen, Job,
  timed_out,
}
use vox_orchestra.SessionPipeline.Late.{happen-cancelled}

-- The machine is where `cancel_complete` makes it idle.
abbrev Settling : Pipeline → Type 0
Settling p = (p.machine.state ≡ idle) ⊎ (p.machine.state ≡ cancelling)

send-cancel-Settling : (p : Pipeline) → Settling (send cancel p)
unfolding send dispatch
send-cancel-Settling p = ground arith

meet-Settling : (os : List Outside) (p : Pipeline) → Settling p → Settling (meet os p)
unfolding meet raise notify
meet-Settling [] p h = h
meet-Settling (raises ∷ os) p h = meet-Settling os (raise p) h
meet-Settling (notifies ∷ os) p h = meet-Settling os (notify p) (send-cancel-Settling p)

completed : (p : Pipeline) → Settling p → (send cancel_complete p).machine.state ≡ idle
unfolding send dispatch
completed p h = ground arith

pub settled :
    (m : Moment) (p : Pipeline)
    → (send cancel_complete (happen m (send cancel p))).machine.state ≡ idle
unfolding happen sleep
settled m p =
    completed (meet m.others (sleep m.passes (send cancel p)))
      (meet-Settling m.others _ (send-cancel-Settling p))

meet-clock : (os : List Outside) (p : Pipeline) → (meet os p).clock ≡ p.clock
unfolding meet raise notify send
meet-clock [] p = refl
meet-clock (raises ∷ os) p = meet-clock os (raise p)
meet-clock (notifies ∷ os) p = meet-clock os (notify p)

happen-timed_out :
    (j : Job) (m : Moment) (p : Pipeline) → timed_out j p ≡ true → timed_out j (happen m p) ≡ true
unfolding timed_out happen sleep
happen-timed_out j m p h = ground (arith, meet-clock m.others (sleep m.passes p))

pub not_timed_out :
    (j : Job) (m : Moment) (p : Pipeline) → timed_out j (happen m p) ≡ false → timed_out j p ≡ false
not_timed_out j m p t = elim (Bool-cases (timed_out j p)) [
  | inl h ↦ absurd (true≢false (sym (happen-timed_out j m p h) ∙ t))
  | inr h ↦ h
]

not_cancelled : (m : Moment) (p : Pipeline) → (happen m p).cancelled ≡ false → p.cancelled ≡ false
not_cancelled m p t = elim (Bool-cases p.cancelled) [
  | inl h ↦ absurd (true≢false (sym (happen-cancelled m p h) ∙ t))
  | inr h ↦ h
]

-- What could stop the run earlier would stop it now.
pub happen-before :
    (j : Job) (m : Moment) (p : Pipeline)
    → (happen m p).cancelled ≡ false
    → timed_out j (happen m p) ≡ false
    → (p.cancelled ≡ false) × (timed_out j p ≡ false)
happen-before j m p c t = (not_cancelled m p c, not_timed_out j m p t)
