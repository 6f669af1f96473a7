-- ===== src/TaskRuntime/Tests.antt =====
-- The table of tasks at concrete inputs.
use vox_orchestra.Prelude.{
  contains, emplace, find, ℕ, ◌≡◌, ◌≢◌, refl, some, [], ◌∷◌, Bytes, codes, bytes_eq, bytes_eq_iff,
  sym, ap, none, List, arith,
}
use vox_orchestra.Prelude.Int.{pos}
use vox_orchestra.TaskRegistry.{work_id}
use vox_orchestra.TaskRegistry
use vox_orchestra.TaskChannel.{Backend, done, ready, Error, ok, not_exist}
use vox_orchestra.TaskChannel
use vox_orchestra.TaskRuntime.{
  Runtime, new, setup_with, inference, taskinfo, is_alive, setups, setups_with, cancels, exits, run,
}
use vox_orchestra.TaskRuntime.Valid.{IsValid, new-IsValid, run-IsValid}
use vox_orchestra.TaskRuntime.Isolation.{Occurrence, calls, finishes, run_all, run_isolated}

abbrev echoes : ℕ → Backend
echoes a p d asked = record { code = done; text = p }

abbrev w0 : Bytes
w0 = codes "w-0"

abbrev w7 : Bytes
w7 = codes "w-7"

w0-ne-w7 : w0 ≢ w7
unfolding bytes_eq
w0-ne-w7 e = cc (sym ((bytes_eq_iff w0 w7).1 e))

-- Two tasks that another process named.
abbrev started : Runtime
started = run (setups_with w0 (codes "a") ∷ setups_with w7 (codes "b") ∷ []) (new 4)

started-IsValid : IsValid started
started-IsValid = run-IsValid _ (new 4) (new-IsValid 4)

-- The task was ended during its inference, which still returns its text.
ended_meanwhile :
    (inference echoes w0 (codes "r") (codes "hi") 0 (pos 9) (exits w0 ∷ []) started).2
    ≡ some (codes "hi")
unfolding inference run new setup_with contains emplace find TaskRegistry.new TaskChannel.begin
    TaskChannel.exit TaskChannel.finish
ended_meanwhile = refl

abbrev others : List Occurrence
others =
    calls (cancels w0)
    ∷ finishes 0 (λ c. record { code = done; text = [] })
    ∷ calls (exits w0)
    ∷ calls (setups (codes "d"))
    ∷ []

run_isolated_example : taskinfo w7 (run_all others started) ≡ taskinfo w7 started
unfolding run new setup_with contains emplace find bytes_eq TaskRegistry.new is_alive
run_isolated_example = run_isolated others w7 started started-IsValid refl (
  w0-ne-w7,
  (
    λ e. absurd (omega (arith, ap {B = ℕ} (λ o. elim o [ none ↦ 0 | some a ↦ a ]) e)),
    (w0-ne-w7, (λ e. e, tt)),
  ),
)
