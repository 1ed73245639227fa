-- ===== src/Coordinator/Job/Recover.antt =====
-- Creating a job, and taking over what a restart has read back from disk (src/coordinator/job.cpp).
pub mod Adoption
use p2p_gpu.Base.{
  ℕ, String, Bool, true, false, Option, none, some, List, [], ◌∷◌, ◌++◌, if◌then◌else◌, lookup,
  insert, emplace,
}
use p2p_gpu.Coordinator.Job.{Task, Job, JobManager, mark_job_dirty, bump_id, minted}
use p2p_gpu.Protocol.Ids.{TaskId, JobId, nil, id_key}
use p2p_gpu.Coordinator.TaskState.{TaskState, queued, leased, validating}
use p2p_gpu.Coordinator.Job.Queries.{clear_dirty}

abbrev pub new_job : JobId → String → ℕ → ℕ → ℕ → Job
new_job id kernel_id total_units seed units_per_group = record {
  id = id;
  kernel_id = kernel_id;
  seed = seed;
  total_units = total_units;
  next_unit = 0;
  units_per_group = units_per_group;
  input_ref = none;
  render = none;
  tile_granted = [];
  tasks = [];
}

unfoldable pub create_job : String → ℕ → ℕ → ℕ → JobManager → JobManager × JobId
create_job kernel_id total_units seed units_per_group m =
    let id = minted m in
    (
      mark_job_dirty id (record (bump_id m) {
        jobs = emplace id (new_job id kernel_id total_units seed units_per_group) m.jobs;
      }),
      id,
    )

unfoldable pub adopt_jobs : List Job → List (JobId × Job) → List (JobId × Job)
adopt_jobs [] js = js
adopt_jobs (j ∷ rest) js = adopt_jobs rest (emplace j.id (record j { tasks = [] }) js)

-- Was the task's worker talking to the process that died?
abbrev pub was_in_flight : TaskState → Bool
was_in_flight leased = true
was_in_flight validating = true
was_in_flight _ = false

unfoldable pub recovered : Task → Task
recovered t = record t {
  state = if was_in_flight t.state then queued else t.state;
  holder = nil;
  lease_expires_at_ms = 0;
}

abbrev pub with_task : TaskId → JobId → Option Job → List (JobId × Job) → List (JobId × Job)
with_task id job_id none js = js
with_task id job_id (some j) js = insert job_id (record j { tasks = j.tasks ++ id ∷ [] }) js

unfoldable pub adopt_task : Task → JobManager → JobManager
unfolding recovered
adopt_task t m = record m {
  queue = if was_in_flight t.state then m.queue ++ t.id ∷ [] else m.queue;
  jobs = with_task t.id t.job (lookup t.job m.jobs) m.jobs;
  tasks = emplace t.id (recovered t) m.tasks;
}

unfoldable pub adopt_tasks : List Task → JobManager → JobManager
unfolding adopt_task
adopt_tasks [] m = m
adopt_tasks (t ∷ ts) m = adopt_tasks ts (adopt_task t m)

unfoldable pub adopt_recovered : List Job → List Task → ℕ → JobManager → JobManager
unfolding adopt_jobs adopt_tasks
adopt_recovered js ts next_id m =
    adopt_tasks ts (record (clear_dirty m) {
      jobs = adopt_jobs js [];
      tasks = [];
      queue = [];
      next_id = next_id;
    })
