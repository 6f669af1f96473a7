-- ===== src/TaskRegistry/Tests.antt =====
-- The registry at concrete inputs.
use vox_orchestra.Prelude.{◌≡◌, refl, List, [], ◌∷◌, codes, arith, emplace, erase, to_string}
use vox_orchestra.TaskRegistry.{Registry, new, allocate, release}
use vox_orchestra.TaskRegistry.Fresh.{
  Call, allocates, releases, issued, IsDistinct, issued-IsDistinct,
}

-- The first id is w-0.
first_id : (allocate (new 0)).1 ≡ codes "w-0"
unfolding allocate new to_string
first_id = refl

abbrev one : Registry
one = (allocate (new 1)).0

full_now : (allocate one).1 ≡ []
unfolding allocate new emplace
full_now = refl

abbrev calls : List Call
calls = allocates ∷ releases (codes "w-0") ∷ allocates ∷ allocates ∷ []

issued-calls : issued calls (new 2) ≡ codes "w-0" ∷ codes "w-1" ∷ codes "w-2" ∷ []
unfolding issued allocate release new emplace erase to_string
issued-calls = refl

issued-IsDistinct_example : IsDistinct (issued calls (new 2))
unfolding new
issued-IsDistinct_example = issued-IsDistinct calls (new 2) (omega arith)
