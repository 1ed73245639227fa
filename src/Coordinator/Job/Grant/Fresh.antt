-- ===== src/Coordinator/Job/Grant/Fresh.antt =====
-- What a series of calls of `JobManager::Grant` (src/coordinator/job.cpp) hands out of one job's keyspace.
use p2p_gpu.Base.{
  ℕ, ◌+◌, ◌≤◌, ◌<◌, ◌≡◌, Option, none, some, List, [], ◌∷◌, ◌==◌, if◌then◌else◌, lookup, insert,
}
use p2p_gpu.Protocol.Ids.{WorkerId, TaskId, JobId, id_key}
use p2p_gpu.Coordinator.Job.{Task, Job, JobManager}
use p2p_gpu.Coordinator.Affinity.{AssetId}
use p2p_gpu.Coordinator.Job.Grant.Carve.{Piece, by_tile, carve_piece, booked}
use p2p_gpu.Coordinator.Job.Grant.Keyspace.{IsWithin}
use p2p_gpu.Coordinator.Job.Grant.{grant}

-- What one call does to the jobs: nothing, or it books a piece of one of them on the task that it returns.
data Booking (jobs : List (JobId × Job)) : JobManager × Option Task → Type 0 where
  nothing : (m : JobManager) (o : Option Task) → m.jobs ≡ jobs → Booking jobs (m, o)
  carved :
      (m : JobManager) (t : Task) (k : JobId) (j : Job) (units : ℕ) (p : Piece) (id : TaskId)
      → lookup k jobs ≡ some j
      → carve_piece j units ≡ some p
      → m.jobs ≡ insert k (booked j p id) jobs
      → t.job ≡ k
      → t.start_unit ≡ p.start_unit
      → t.unit_count ≡ p.unit_count
      → Booking jobs (m, some t)

-- A lease request, and a series of them.
pub record Request : Type 0 where
  pub worker : WorkerId
  pub now_ms : ℕ
  pub lease_ms : ℕ
  pub units : ℕ
  pub cached : List AssetId

abbrev pub answer : Request → JobManager → JobManager × Option Task
answer q m = grant q.worker q.now_ms q.lease_ms q.units q.cached m

unfoldable pub after_all : List Request → JobManager → JobManager
after_all [] m = m
after_all (q ∷ qs) m = after_all qs (answer q m).0

abbrev pub cursor_of : Option Job → ℕ
cursor_of none = 0
cursor_of (some j) = j.next_unit

abbrev pub and_task : Option Task → List Task → List Task
and_task none ts = ts
and_task (some t) ts = t ∷ ts

-- The tasks of the calls that moved the cursor of a job.
unfoldable pub fresh_of : JobId → List Request → JobManager → List Task
fresh_of job [] m = []
fresh_of job (q ∷ qs) m =
    let rest = fresh_of job qs (answer q m).0 in
    if cursor_of (lookup job (answer q m).0.jobs) == cursor_of (lookup job m.jobs)
    then rest
    else and_task (answer q m).1 rest

-- The tasks are of a job and lie between two bounds, and each begins where the one before ends.
abbrev pub Consecutive : JobId → ℕ → List Task → ℕ → Type 0
Consecutive job from [] to = from ≡ to
Consecutive job from (t ∷ ts) to =
    (t.job ≡ job)
    × (t.start_unit ≡ from)
    × (0 < t.unit_count)
    × Consecutive job (from + t.unit_count) ts to

-- A job without tiles, within its bounds, of a given size.
pub record IsPlain (total : ℕ) (j : Job) : Type 0 where
  pub within : IsWithin j
  pub no_tiles : by_tile j ≡ none
  pub size : j.total_units ≡ total

-- What one call does to one job: its cursor stays, or the task begins there and ends where it is now.
data Step (job : JobId) (total : ℕ) (j : Job) : JobManager × Option Task → Type 0 where
  stays : (m : JobManager) (o : Option Task) → lookup job m.jobs ≡ some j → Step job total j (m, o)
  advances :
      (m : JobManager) (t : Task) (k : Job)
      → lookup job m.jobs ≡ some k
      → IsPlain total k
      → t.job ≡ job
      → t.start_unit ≡ j.next_unit
      → 0 < t.unit_count
      → k.next_unit ≡ j.next_unit + t.unit_count
      → Step job total j (m, some t)

-- The tasks fill a job from a unit on up to where its cursor is in the end.
abbrev pub Fills : JobId → ℕ → ℕ → List Task → JobManager → Type 0
Fills job total from ts m =
    (k : Job) × (lookup job m.jobs ≡ some k)
    × Consecutive job from ts k.next_unit
    × (k.next_unit ≤ total)
