-- ===== src/Coordinator/Job/Lease.antt =====
-- Operations on a task that exists (src/coordinator/job.cpp): authorization, submission, renewal,
-- partial results, expiry, release, validation outcomes, replicas.
use p2p_gpu.Base.{
  ℕ, ◌+◌, String, Bool, false, not, ◌&&◌, Option, none, some, List, [], ◌∷◌, ◌++◌, leb,
  if◌then◌else◌, lookup, insert, remove,
}
use p2p_gpu.Protocol.Ids.{WorkerId, TaskId, nil, id_key}
use p2p_gpu.Protocol.Errors.{
  lease_not_held, internal, Error, make_error, Result, ok, err, Status, fail_if,
}
use p2p_gpu.Protocol.Invariants.{check_lease_held}
use p2p_gpu.Coordinator.TaskState.{
  TaskEvent, renew, lease_expired, release, accept, disagreement, issue_replica, reject,
}
use p2p_gpu.Coordinator.Job.{
  Submission, Task, PartialResult, JobManager, M, ◌>>=◌, ◌>>◌, modify, mark_task_dirty, put_task,
  push_queue, find_task, unknown_task, apply, without_lease, deadline,
}
use p2p_gpu.Coordinator.Job.Queries.{is_leased, is_held_by, held_by}

-- A check that reads the state and leaves it alone.
abbrev pub check_only : Status → M (Unit {0})
check_only s m = (m, s)

abbrev pub lease_not_held_error : String → Error
lease_not_held_error = make_error lease_not_held

-- The tests of `CheckLease` on the task that was found.
unfoldable pub lease_status : WorkerId → TaskId → Option Task → Status
unfolding is_held_by check_lease_held
lease_status worker id none = err (lease_not_held_error "unknown task")
lease_status worker id (some t) =
    if not (is_held_by worker t)
    then err (lease_not_held_error "worker does not hold the lease on this task")
    else check_lease_held (t.id ∷ []) id

unfoldable pub check_lease : WorkerId → TaskId → JobManager → Status
unfolding lease_status
check_lease worker id m = lease_status worker id (lookup id m.tasks)

abbrev pub authorize : WorkerId → TaskId → M (Unit {0})
unfolding check_lease
authorize worker id m = check_only (check_lease worker id m) m

-- `tasks_.find(id)->second` after `CheckLease` has proved that the task exists.
abbrev pub the_task : TaskId → M Task
the_task id = find_task id unknown_task

unfoldable pub submit : WorkerId → TaskId → M (Unit {0})
unfolding check_lease apply
submit worker id = do
  authorize worker id
  t ← the_task id
  t' ← apply id t TaskEvent.submit
  modify (put_task id (record t' { prior_workers = t'.prior_workers ++ worker ∷ []; holder = nil }))

unfoldable pub renew_lease : WorkerId → TaskId → ℕ → ℕ → M (Unit {0})
unfolding check_lease apply
renew_lease worker id now_ms lease_ms = do
  authorize worker id
  t ← the_task id
  t' ← apply id t renew
  modify (put_task id (record t' { lease_expires_at_ms = deadline now_ms lease_ms }))

-- Is a partial result no newer than the one held?
abbrev pub is_stale : ℕ → Option PartialResult → Bool
is_stale sequence none = false
is_stale sequence (some p) = leb sequence p.sequence

unfoldable pub record_partial : WorkerId → TaskId → ℕ → ℕ → List ℕ → ℕ → ℕ → M (Unit {0})
unfolding check_lease renew_lease
record_partial worker id sequence units_done payload now_ms lease_ms = do
  authorize worker id
  λ m.
      check_only
        (fail_if (is_stale sequence (lookup id m.partials))
          (make_error internal "partial result is not newer than the one held"))
        m
  renew_lease worker id now_ms lease_ms
  modify λ m. record m {
    partials =
        insert id
          (record {
            worker = worker;
            sequence = sequence;
            units_done = units_done;
            payload = payload;
            received_at_ms = now_ms;
          })
          m.partials;
  }

unfoldable pub requeue : TaskId → TaskEvent → M (Unit {0})
unfolding apply
requeue id why = do
  t ← find_task id unknown_task
  t' ← apply id t why
  modify λ m. push_queue t'.id (put_task id (without_lease t') m)

unfoldable pub finish : TaskId → Bool → M (Unit {0})
unfolding apply
finish id accepts = do
  t ← find_task id unknown_task
  t' ← apply id t (if accepts then accept else reject)
  modify λ m. record (put_task id (record t' { submissions = [] }) m) {
    partials = remove id m.partials;
  }

abbrev pub push_submission : TaskId → Submission → Option Task → JobManager → JobManager
push_submission id s none m = m
push_submission id s (some t) m =
    mark_task_dirty id (put_task id (record t { submissions = t.submissions ++ s ∷ [] }) m)

unfoldable pub record_submission : TaskId → WorkerId → ℕ → List ℕ → JobManager → JobManager
record_submission id worker checksum payload m =
    push_submission id (record { worker = worker; checksum = checksum; payload = payload })
      (lookup id m.tasks) m

unfoldable pub request_replica : TaskId → M (Unit {0})
unfolding apply
request_replica id = do
  t ← find_task id unknown_task
  t' ← apply id t disagreement
  t'' ← apply id t' issue_replica
  modify λ m. push_queue t''.id (put_task id (without_lease t'') m)

unfoldable pub restart_validation : TaskId → M (Unit {0})
unfolding apply
restart_validation id = do
  t ← find_task id unknown_task
  t' ← apply id t disagreement
  t'' ← apply id t' issue_replica
  modify λ m. push_queue t''.id (put_task id (without_lease (record t'' { submissions = [] })) m)

pub record Expiry : Type 0 where
  pub task : TaskId
  pub holder : WorkerId
  pub unit_count : ℕ

-- `task.state == Leased` and its deadline has come.
unfoldable pub is_overdue : ℕ → Task → Bool
is_overdue now_ms t = is_leased t.state && leb t.lease_expires_at_ms now_ms

-- One round of the sweep, on an entry whose lease has run out; a refused transition leaves it alone.
unfoldable pub swept :
    TaskId → JobManager × Result Task → JobManager × List Expiry → JobManager × List Expiry
swept id (m', err e) (m, expired) = (m, expired)
swept id (m', ok t) (m, expired) = (
  push_queue id (put_task id (without_lease t) m'),
  expired ++ record { task = id; holder = t.holder; unit_count = t.unit_count } ∷ [],
)

unfoldable pub sweep_entry : ℕ → TaskId → Task → JobManager × List Expiry → JobManager × List Expiry
unfolding is_overdue apply swept
sweep_entry now_ms id t (m, expired) =
    if not (is_overdue now_ms t)
    then (m, expired)
    else swept id (apply id t lease_expired m) (m, expired)

-- The loop over the table; its rounds write only to the entry that they stand at.
unfoldable pub sweep_over :
    ℕ → List (TaskId × Task) → JobManager × List Expiry → JobManager × List Expiry
unfolding sweep_entry
sweep_over now_ms [] acc = acc
sweep_over now_ms ((id, t) ∷ ts) acc = sweep_over now_ms ts (sweep_entry now_ms id t acc)

unfoldable pub sweep_expired_leases : ℕ → JobManager → JobManager × List Expiry
unfolding sweep_over
sweep_expired_leases now_ms m = sweep_over now_ms m.tasks (m, [])

abbrev pub count_ok : JobManager × Status → ℕ → JobManager × ℕ
count_ok (m, ok _) n = (m, n + 1)
count_ok (m, err _) n = (m, n)

unfoldable pub release_each : List TaskId → JobManager × ℕ → JobManager × ℕ
unfolding requeue
release_each [] acc = acc
release_each (id ∷ ids) acc = release_each ids (count_ok (requeue id release acc.0) acc.1)

unfoldable pub release_all_held_by : WorkerId → JobManager → JobManager × ℕ
unfolding release_each held_by
release_all_held_by worker m = release_each (held_by worker m) (m, 0)
