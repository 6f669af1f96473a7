-- ===== src/SessionState/Table.antt =====
-- The transition table of the comment in session_state_machine.hpp, as a relation, and what `dispatch`
-- does of it. The comment has two rows for a cancel in the idle state, one to cancelling and one
-- that stays, of which the code makes the second.
use vox_orchestra.Prelude.{◌≡◌, ◌≢◌, ◌⊎◌, inl, inr, refl, true, false, arith}
use vox_orchestra.SessionState.{
  State, idle, listening, routing, thinking, speaking, cancelling, Event, audio_start, asr_final,
  route_l0_l1, route_l2_l3, llm_done, tts_done, cancel, cancel_complete, Machine, Outcome, go, stay,
  refuse, next, dispatch,
}

pub data Legal : State → Event → State → Type 0 where
  starts : Legal idle audio_start listening
  recognised : Legal listening asr_final routing
  answered : Legal routing route_l0_l1 speaking
  asked : Legal routing route_l2_l3 thinking
  generated : Legal thinking llm_done speaking
  spoken : Legal speaking tts_done idle
  cancelled_idle : Legal idle cancel cancelling
  kept_idle : Legal idle cancel idle
  cancelled_listening : Legal listening cancel cancelling
  cancelled_routing : Legal routing cancel cancelling
  cancelled_thinking : Legal thinking cancel cancelling
  cancelled_speaking : Legal speaking cancel cancelling
  cleaned : Legal cancelling cancel_complete idle

-- Of the two rows for a cancel in the idle state, the one that stays.
abbrev pub Resolved : State → Event → State → Type 0
Resolved s e t = (s ≢ idle) ⊎ (e ≢ cancel) ⊎ (t ≡ idle)

-- The event is accepted, and the table has the step that was made.
abbrev pub Accepts : Event → Machine → Type 0
Accepts e m =
    let t = (dispatch e m).1.state in
    ((dispatch e m).0 ≡ true) × Legal m.state e t × Resolved m.state e t

-- It is refused, the machine is as it was, and the table has no step.
abbrev pub Refuses : Event → Machine → Type 0
Refuses e m =
    ((dispatch e m).0 ≡ false) × ((dispatch e m).1 ≡ m) × ((t : State) → ¬ Legal m.state e t)

-- A step other than the idle state's empty one changes the state.
abbrev pub Sound : State → Event → Outcome → Type 0
Sound s e (go t) = Legal s e t × Resolved s e t × (s ≢ t)
Sound s e stay = Legal s e s × Resolved s e s
Sound s e refuse = Unit

pub next-Sound : (s : State) (e : Event) → Sound s e (next s e)
unfolding next
next-Sound idle audio_start = (starts, inr (inl (λ e. cc)), λ e. cc)
next-Sound idle cancel = (kept_idle, inr (inr refl))
next-Sound listening asr_final = (recognised, inl (λ e. cc), λ e. cc)
next-Sound listening cancel = (cancelled_listening, inl (λ e. cc), λ e. cc)
next-Sound routing route_l0_l1 = (answered, inl (λ e. cc), λ e. cc)
next-Sound routing route_l2_l3 = (asked, inl (λ e. cc), λ e. cc)
next-Sound routing cancel = (cancelled_routing, inl (λ e. cc), λ e. cc)
next-Sound thinking llm_done = (generated, inl (λ e. cc), λ e. cc)
next-Sound thinking cancel = (cancelled_thinking, inl (λ e. cc), λ e. cc)
next-Sound speaking tts_done = (spoken, inl (λ e. cc), λ e. cc)
next-Sound speaking cancel = (cancelled_speaking, inl (λ e. cc), λ e. cc)
next-Sound cancelling cancel_complete = (cleaned, inl (λ e. cc), λ e. cc)
next-Sound _ _ = tt

not_refused : {s : State} {e : Event} {t : State} → Legal s e t → next s e ≡ refuse → ⊥
unfolding next
not_refused starts h = cc
not_refused recognised h = cc
not_refused answered h = cc
not_refused asked h = cc
not_refused generated h = cc
not_refused spoken h = cc
not_refused cancelled_idle h = cc
not_refused kept_idle h = cc
not_refused cancelled_listening h = cc
not_refused cancelled_routing h = cc
not_refused cancelled_thinking h = cc
not_refused cancelled_speaking h = cc
not_refused cleaned h = cc

dispatch_as :
    (e : Event) (m : Machine) (o : Outcome)
    → next m.state e ≡ o
    → Sound m.state e o
    → Accepts e m ⊎ Refuses e m
unfolding dispatch
dispatch_as e m (go t) h l = inl (rw (h, dispatch) (refl, l.0, l.1))
dispatch_as e m stay h l = inl (rw (h, dispatch) (refl, l.0, l.1))
dispatch_as e m refuse h l = inr (rw (h, dispatch) (refl, refl, λ t w. not_refused w h))

-- `dispatch` accepts an event just where the table of the header has a step for it, and makes such a
-- step; else it reports failure and leaves the state and the trace as they were. The table has one
-- step for a state and an event, except for a cancel in the idle state, which it sends both to
-- cancelling and to idle: there the state stays idle.
pub dispatch-Legal : (e : Event) (m : Machine) → Accepts e m ⊎ Refuses e m
dispatch-Legal e m = dispatch_as e m (next m.state e) refl (next-Sound m.state e)

-- From every state, the two events that a failed or cancelled run sends end in the idle state.
pub dispatch-cancel :
    (m : Machine) → (dispatch cancel_complete (dispatch cancel m).1).1.state ≡ idle
unfolding dispatch
dispatch-cancel m = ground arith
