-- ===== src/TaskChannel/Tests.antt =====
-- A channel at concrete inputs.
use vox_orchestra.Prelude.{◌≡◌, ◌≢◌, refl, none, some, List, [], ◌∷◌, if◌then◌else◌, codes}
use vox_orchestra.Prelude.Int.{pos}
use vox_orchestra.TaskChannel.{
  ok, done, stopped, Backend, Channel, new, setup, Call, begins, cancels, deadline_of, inference,
}
use vox_orchestra.TaskChannel.Flight.{IsBack, Told, ends, seen, inference_ready, inference_refused}

-- Gives the payload back, or stops where it is asked to.
abbrev echo : Backend
echo p d asked = record { code = if asked then stopped else done; text = p }

abbrev up : Channel
up = (setup (codes "cfg") (new (codes "w-3"))).0

abbrev others : List Call
others = begins (codes "r-2") ∷ cancels ∷ []

answered : (inference echo (codes "r-1") (codes "hi") 100 (pos 0) [] up).2 ≡ some (codes "hi")
unfolding inference setup new
answered = refl

inference_ready_example :
    let out = inference echo (codes "r-1") (codes "hi") 100 (pos 0) others up in
    let flag = (seen (codes "r-1") others up).cancel_flag in
    let r = echo (codes "hi") (deadline_of 100 (pos 0)) flag in
    IsBack (ends others) up out.0 × Told r out.1 out.2
unfolding setup new
inference_ready_example = inference_ready echo (codes "r-1") (codes "hi") 100 (pos 0) others up refl

inference_refused_example :
    let out = inference echo (codes "r-1") (codes "hi") 100 (pos 0) others (new (codes "w-3")) in
    (out.0 ≡ new (codes "w-3")) × (out.1 ≢ ok) × (out.2 ≡ none)
unfolding new
inference_refused_example =
    inference_refused echo (codes "r-1") (codes "hi") 100 (pos 0) others (new (codes "w-3"))
      (λ e. cc)
