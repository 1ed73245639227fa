-- ===== src/Coordinator/Job/Speculate.antt =====
-- Speculative replicas, their cancellation, and tasks over a known range (src/coordinator/job.cpp).
-- The comparison of a completion fraction with the threshold, two doubles in the source, is an
-- argument: `below n d` tells whether n / d is below the threshold.
pub mod Cancel
use p2p_gpu.Base.{
  ℕ, ◌+◌, ◌%◌, Bool, false, not, ◌&&◌, ◌||◌, Option, none, some, List, [], ◌∷◌, ◌++◌, ltb, ◌==◌,
  if◌then◌else◌, u64_mod, any_of, erase_all, lookup, insert, emplace,
}
use p2p_gpu.Coordinator.Job.{
  Task, Job, keyspace_exhausted, JobManager, mark_task_dirty, put_task, apply, without_lease,
  deadline, bump_id, minted,
}
use p2p_gpu.Protocol.Ids.{WorkerId, TaskId, JobId, nil, id_eq, id_key}
use p2p_gpu.Protocol.Errors.{Result, ok, err, has_value}
use p2p_gpu.Protocol.Invariants.{check_replica_assignment}
use p2p_gpu.Coordinator.TaskState.{TaskEvent, is_terminal}
use p2p_gpu.Coordinator.Job.Queries.{is_leased, completion_fraction}
use p2p_gpu.Coordinator.Job.Grant.{or_else, born}

-- Is a task a replica of this one that has not ended?
abbrev pub live_replica : TaskId → Option Task → Bool
unfolding is_terminal
live_replica id none = false
live_replica id (some c) = id_eq c.replica_of id && not (is_terminal c.state)

unfoldable pub has_live_replica : TaskId → List TaskId → JobManager → Bool
unfolding live_replica
has_live_replica id ids m = any_of (λ t. live_replica id (lookup t m.tasks)) ids

-- May a task be raced by this worker?
unfoldable pub may_race : WorkerId → TaskId → Task → List TaskId → JobManager → Bool
unfolding has_live_replica check_replica_assignment
may_race worker id t ids m =
    is_leased t.state
    && id_eq t.replica_of nil
    && not (id_eq t.holder worker)
    && has_value (check_replica_assignment t.prior_workers worker)
    && not (has_live_replica id ids m)

-- The replica enters the job's list and the table.
unfoldable pub issue_replica_of :
    JobId → Job → TaskId → Task → WorkerId → ℕ → JobManager → JobManager × Option Task
issue_replica_of job_id j id t worker expires m =
    let new = minted m in
    let replica = born new job_id id t.start_unit t.unit_count worker expires in
    (
      mark_task_dirty new (record (bump_id m) {
        jobs = insert job_id (record j { tasks = j.tasks ++ new ∷ [] }) m.jobs;
        tasks = emplace new replica m.tasks;
      }),
      some replica,
    )

-- The loop over one job's tasks; `ids` is the whole list, which the search for replicas reads.
unfoldable pub race_task :
    JobId
    → Job
    → TaskId
    → Option Task
    → WorkerId
    → ℕ
    → JobManager
    → Option (JobManager × Option Task)
unfolding may_race issue_replica_of
race_task job_id j id none worker expires m = none
race_task job_id j id (some t) worker expires m =
    if may_race worker id t j.tasks m
    then some (issue_replica_of job_id j id t worker expires m)
    else none

abbrev pub or_next :
    Option (JobManager × Option Task) → (JobManager × Option Task) → JobManager × Option Task
or_next none rest = rest
or_next (some r) rest = r

unfoldable pub race_over :
    JobId → Job → List TaskId → WorkerId → ℕ → JobManager → JobManager × Option Task
unfolding race_task
race_over job_id j [] worker expires m = (m, none)
race_over job_id j (id ∷ ids) worker expires m =
    let rest = race_over job_id j ids worker expires m in
    or_next (race_task job_id j id (lookup id m.tasks) worker expires m) rest

module _ (below : ℕ → ℕ → Bool) where
  -- Too early to speculate on a job?
  abbrev pub too_early : JobId → Job → JobManager → Bool
  unfolding completion_fraction keyspace_exhausted
  too_early job_id j m =
      let (done, whole) = completion_fraction job_id m in
      not (keyspace_exhausted j) || below done whole

  unfoldable pub speculate_over :
      List (JobId × Job) → WorkerId → ℕ → JobManager → JobManager × Option Task
  unfolding race_over too_early
  speculate_over [] worker expires m = (m, none)
  speculate_over ((job_id, j) ∷ js) worker expires m =
      or_else
        (if too_early job_id j m then (m, none) else race_over job_id j j.tasks worker expires m)
        (λ m'. speculate_over js worker expires m')

  unfoldable pub issue_speculative : WorkerId → ℕ → ℕ → JobManager → JobManager × Option Task
  unfolding speculate_over
  issue_speculative worker now_ms lease_ms m =
      speculate_over m.jobs worker (deadline now_ms lease_ms) m

pub record Revocation : Type 0 where
  pub task : TaskId
  pub holder : WorkerId
  pub wasted_units : ℕ

-- The original that a task's family goes back to.
unfoldable pub root_of : TaskId → Task → TaskId
root_of id t = if id_eq t.replica_of nil then id else t.replica_of

-- A sibling of the winner that is still alive.
unfoldable pub is_live_sibling : TaskId → TaskId → TaskId → Task → Bool
unfolding is_terminal
is_live_sibling winner root id t =
    not (id_eq id winner) && (id_eq id root || id_eq t.replica_of root) && not (is_terminal t.state)

unfoldable pub cancelled_task :
    TaskId → JobManager × Result Task → JobManager × List Revocation → JobManager × List Revocation
cancelled_task id (m', err e) acc = acc
cancelled_task id (m', ok t) (m, out) = (
  record (put_task id (without_lease t) m') {
    wasted_units = (m'.wasted_units + t.unit_count) % u64_mod;
    queue = erase_all id m'.queue;
  },
  out ++ record { task = id; holder = t.holder; wasted_units = t.unit_count } ∷ [],
)

unfoldable pub cancel_entry :
    TaskId
    → TaskId
    → TaskId
    → Option Task
    → JobManager × List Revocation
    → JobManager × List Revocation
unfolding is_live_sibling cancelled_task apply
cancel_entry winner root id none acc = acc
cancel_entry winner root id (some t) acc =
    if is_live_sibling winner root id t
    then cancelled_task id (apply id t TaskEvent.cancel acc.0) acc
    else acc

unfoldable pub cancel_over :
    TaskId → TaskId → List TaskId → JobManager × List Revocation → JobManager × List Revocation
unfolding cancel_entry
cancel_over winner root [] acc = acc
cancel_over winner root (id ∷ ids) acc =
    cancel_over winner root ids (cancel_entry winner root id (lookup id acc.0.tasks) acc)

unfoldable pub cancel_family :
    TaskId → Task → Option Job → JobManager → JobManager × List Revocation
unfolding cancel_over root_of
cancel_family id t none m = (m, [])
cancel_family id t (some j) m = cancel_over id (root_of id t) j.tasks (m, [])

unfoldable pub cancel_siblings : TaskId → Option Task → JobManager → JobManager × List Revocation
unfolding cancel_family
cancel_siblings id none m = (m, [])
cancel_siblings id (some t) m = cancel_family id t (lookup t.job m.jobs) m

unfoldable pub cancel_siblings_of : TaskId → JobManager → JobManager × List Revocation
unfolding cancel_siblings
cancel_siblings_of id m = cancel_siblings id (lookup id m.tasks) m

-- `IssueKnownRange`: the first job that the range fits, the sum taken in 64 bits.
unfoldable pub first_owner : List (JobId × Job) → ℕ → ℕ → Option JobId
first_owner [] start count = none
first_owner ((id, j) ∷ js) start count =
    if ltb j.total_units ((start + count) % u64_mod) then first_owner js start count else some id

unfoldable pub known_range_in :
    Option JobId → WorkerId → ℕ → ℕ → ℕ → JobManager → JobManager × Option Task
known_range_in none worker expires start count m = (m, none)
known_range_in (some job_id) worker expires start count m =
    let t = born (minted m) job_id nil start count worker expires in
    (
      mark_task_dirty (minted m) (record (bump_id m) { tasks = emplace (minted m) t m.tasks }),
      some t,
    )

unfoldable pub issue_known_range : WorkerId → ℕ → ℕ → ℕ → ℕ → JobManager → JobManager × Option Task
unfolding first_owner known_range_in
issue_known_range worker now_ms lease_ms start count m =
    if count == 0
    then (m, none)
    else known_range_in (first_owner m.jobs start count) worker (deadline now_ms lease_ms) start
        count m
