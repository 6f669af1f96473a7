-- ===== src/BoundedQueue/Tests.antt =====
-- The queue at concrete inputs.
use vox_orchestra.Prelude.{ℕ, ◌≡◌, refl, true, List, [], ◌∷◌, ◌++◌}
use vox_orchestra.BoundedQueue.{
  full, Queue, Op, push_op, pop_op, clear_op, close_op, new, try_push, try_pop, run, pop_timeout,
}
use vox_orchestra.BoundedQueue.Fifo.{all_accepted, all_removed, run-in_order, run_closed}
use vox_orchestra.BoundedQueue.Waiting.{pop_moment, pop_timeout-try_pop}

abbrev ops : List (Op ℕ)
ops = push_op 5 ∷ push_op 6 ∷ push_op 7 ∷ pop_op ∷ clear_op ∷ push_op 8 ∷ []

abbrev two : Queue ℕ
two = run (push_op 1 ∷ push_op 2 ∷ []) (new 2)

abbrev shut : Queue ℕ
shut = run (push_op 1 ∷ push_op 2 ∷ close_op ∷ []) (new 2)

peak_after_ops : (run ops (new 2)).peak ≡ 2
unfolding run new
peak_after_ops = refl

refused_when_full : (try_push 9 two).1 ≡ full
unfolding try_push run new
refused_when_full = refl

run-in_order_example :
    two.items ++ all_accepted ops two ≡ all_removed ops two ++ (run ops two).items
run-in_order_example = run-in_order ops two

run_closed_example : (all_accepted ops shut ≡ []) × ((run ops shut).is_closed ≡ true)
unfolding run new
run_closed_example = run_closed ops shut refl

pop_timeout-try_pop_example :
    pop_timeout {A = ℕ} (push_op 4 ∷ []) (new 3) ≡ try_pop (pop_moment (push_op 4 ∷ []) (new 3))
pop_timeout-try_pop_example = pop_timeout-try_pop (push_op 4 ∷ []) (new 3)
