-- ===== src/SessionState/Trace.antt =====
-- The trace is the path that the machine has taken since it was last reset.
use vox_orchestra.Prelude.{◌≡◌, ◌≢◌, refl, List, [], ◌∷◌, ◌++◌, Bytes}
use vox_orchestra.SessionState.{
  State, idle, Event, Machine, Outcome, go, stay, refuse, next, label, new, dispatch, reset,
}
use vox_orchestra.SessionState.Table.{Legal, Sound, next-Sound}

-- A path of steps of the table, none of them the idle state's empty one, with the lines that name them.
pub data PathTo : State → List Bytes → Type 0 where
  start : PathTo idle []
  step :
      {s t : State} {lines : List Bytes} (e : Event)
      → PathTo s lines
      → Legal s e t
      → s ≢ t
      → PathTo t (lines ++ label s e t ∷ [])

path_as :
    (e : Event) (m : Machine) (o : Outcome)
    → next m.state e ≡ o
    → Sound m.state e o
    → PathTo m.state m.trace
    → PathTo (dispatch e m).1.state (dispatch e m).1.trace
unfolding dispatch
path_as e m (go t) h l p = rw (h, dispatch) (step e p l.0 l.2)
path_as e m stay h l p = rw (h, dispatch) p
path_as e m refuse h l p = rw (h, dispatch) p

pub data Call : Type 0 where
  dispatches : Event → Call
  resets : Call

unfoldable pub run : List Call → Machine → Machine
run [] m = m
run (dispatches e ∷ cs) m = run cs (dispatch e m).1
run (resets ∷ cs) m = run cs (reset m)

run-PathTo :
    (cs : List Call) (m : Machine)
    → PathTo m.state m.trace
    → PathTo (run cs m).state (run cs m).trace
unfolding run reset
run-PathTo [] m p = p
run-PathTo (dispatches e ∷ cs) m p =
    run-PathTo cs _ (path_as e m (next m.state e) refl (next-Sound m.state e) p)
run-PathTo (resets ∷ cs) m p = run-PathTo cs (reset m) start

-- After any calls, the trace of a new machine names, line by line, a path of steps of the table
-- from the idle state to the state that the machine is in; each step changes the state.
pub run_new-PathTo : (cs : List Call) → PathTo (run cs new).state (run cs new).trace
unfolding new
run_new-PathTo cs = run-PathTo cs new start
