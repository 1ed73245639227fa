-- ===== src/Coordinator/Job/Grant/Carve.antt =====
-- The piece of keyspace that `JobManager::Grant` (src/coordinator/job.cpp) carves from one job.
use p2p_gpu.Base.{
  ℕ, suc, ◌+◌, ◌-◌, ◌*◌, ◌%◌, min, ◌&&◌, Option, none, some, List, [], ◌∷◌, ◌++◌, ltb, ◌==◌,
  if◌then◌else◌, u64_mod, get_or, set,
}
use p2p_gpu.Protocol.Ids.{TaskId}
use p2p_gpu.Coordinator.Job.{RenderConfig, Job, remaining_units}

pub record Piece : Type 0 where
  pub start_unit : ℕ
  pub unit_count : ℕ
  pub tile : Option ℕ

-- The samples per tile, where the job is scheduled by tiles.
abbrev pub tile_budget : Option RenderConfig → List ℕ → Option ℕ
tile_budget none granted = none
tile_budget (some r) [] = none
tile_budget (some r) (g ∷ gs) = if r.samples_per_tile == 0 then none else some r.samples_per_tile

unfoldable pub by_tile : Job → Option ℕ
by_tile j = tile_budget j.render j.tile_granted

-- The least-granted tile with budget left; ties keep the lowest index.
unfoldable pub least_granted : List ℕ → ℕ → ℕ → ℕ → Option ℕ → Option ℕ
least_granted [] budget i fewest found = found
least_granted (g ∷ gs) budget i fewest found =
    let better = ltb g budget && ltb g fewest in
    least_granted gs budget (suc i) (if better then g else fewest)
      (if better then some i else found)

unfoldable pub tile_start : ℕ → List ℕ → Option ℕ → Option (ℕ × Option ℕ)
tile_start budget granted none = none
tile_start budget granted (some i) = some ((i * budget + get_or granted i 0) % u64_mod, some i)

-- Where the next piece of the job begins.
unfoldable pub start_of : Job → Option ℕ → Option (ℕ × Option ℕ)
unfolding least_granted tile_start
start_of j none = some (j.next_unit, none)
start_of j (some budget) =
    tile_start budget j.tile_granted (least_granted j.tile_granted budget 0 (u64_mod - 1) none)

-- Never past the end of the job, never across a group boundary.
unfoldable pub piece_size : Job → ℕ → ℕ → ℕ
unfolding remaining_units
piece_size j units start =
    let capped = min units (remaining_units j) in
    if j.units_per_group == 0
    then capped
    else min capped (j.units_per_group - start % j.units_per_group)

unfoldable pub piece_at : Job → ℕ → Option (ℕ × Option ℕ) → Option Piece
unfolding piece_size
piece_at j units none = none
piece_at j units (some (start, tile)) =
    if piece_size j units start == 0
    then none
    else some (record { start_unit = start; unit_count = piece_size j units start; tile = tile })

unfoldable pub carve_piece : Job → ℕ → Option Piece
unfolding by_tile piece_at start_of
carve_piece j units = piece_at j units (start_of j (by_tile j))

abbrev pub add_granted : List ℕ → Option ℕ → ℕ → List ℕ
add_granted granted none n = granted
add_granted granted (some i) n = set granted i ((get_or granted i 0 + n) % u64_mod)

-- The job once a piece has gone to a task.
unfoldable pub booked : Job → Piece → TaskId → Job
booked j p id = record j {
  tile_granted = add_granted j.tile_granted p.tile p.unit_count;
  next_unit = (j.next_unit + p.unit_count) % u64_mod;
  tasks = j.tasks ++ id ∷ [];
}
