-- ===== src/Coordinator/Job/Grant.antt =====
-- `JobManager::Grant` of src/coordinator/job.cpp: queued work first, then a piece of fresh keyspace.
pub mod Carve
pub mod Scan
pub mod Choice
pub mod Keyspace
pub mod Fresh
pub mod Tiles
use p2p_gpu.Base.{
  ℕ, ◌+◌, ◌%◌, Bool, true, false, not, ◌&&◌, ◌||◌, Option, none, some, List, [], ◌∷◌, map, ◌==◌,
  if◌then◌else◌, u64_mod, length, get_elem?, erase_at, keep_if, range', lookup, insert, emplace,
}
use p2p_gpu.Coordinator.Job.{
  Task, Job, keyspace_exhausted, JobManager, mark_task_dirty, mark_job_dirty, put_task, apply,
  deadline, bump_id, minted,
}
use p2p_gpu.Protocol.Ids.{WorkerId, TaskId, JobId, nil, id_key}
use p2p_gpu.Protocol.Errors.{Result, ok, err, has_value}
use p2p_gpu.Protocol.Invariants.{check_replica_assignment}
use p2p_gpu.Coordinator.Affinity.{AssetId, has_asset, wants_cached, prefer_cached}
use p2p_gpu.Coordinator.TaskState.{leased, TaskEvent}
use p2p_gpu.Coordinator.Job.Grant.Carve.{Piece, carve_piece, booked}

-- The asset that a queue entry needs, if its task and its job are known.
abbrev pub input_of : Option Job → Option AssetId
input_of none = none
input_of (some j) = j.input_ref

abbrev pub need_of : Option Task → JobManager → Option AssetId
need_of none m = none
need_of (some t) m = input_of (lookup t.job m.jobs)

unfoldable pub needs_of : List TaskId → JobManager → List (Option AssetId)
needs_of ids m = map (λ id. need_of (lookup id m.tasks) m) ids

abbrev pub is_not : ℕ → ℕ → Bool
is_not p i = not (i == p)

-- The preferred index first, then the others in queue order.
unfoldable pub scan_order : Option ℕ → ℕ → List ℕ
scan_order none n = range' 0 n
scan_order (some p) n = p ∷ keep_if (is_not p) (range' 0 n)

-- One round of the scan: the queue entry at an index, if its task may go to this worker.
unfoldable pub granted :
    TaskId → ℕ → WorkerId → ℕ → JobManager × Result Task → JobManager → JobManager × Option Task
granted id index worker expires (m', err e) m = (m, none)
granted id index worker expires (m', ok t) m =
    let t' = record t { holder = worker; lease_expires_at_ms = expires } in
    (record (put_task id t' m') { queue = erase_at m'.queue index }, some t')

unfoldable pub try_task :
    TaskId → ℕ → WorkerId → ℕ → Option Task → JobManager → JobManager × Option Task
unfolding check_replica_assignment apply granted
try_task id index worker expires none m = (m, none)
try_task id index worker expires (some t) m =
    if not (has_value (check_replica_assignment t.prior_workers worker))
    then (m, none)
    else granted id index worker expires (apply id t TaskEvent.grant m) m

unfoldable pub try_entry : Option TaskId → ℕ → WorkerId → ℕ → JobManager → JobManager × Option Task
unfolding try_task
try_entry none index worker expires m = (m, none)
try_entry (some id) index worker expires m = try_task id index worker expires (lookup id m.tasks) m

abbrev pub or_else :
    JobManager × Option Task → (JobManager → JobManager × Option Task) → JobManager × Option Task
or_else (m, some t) rest = (m, some t)
or_else (m, none) rest = rest m

unfoldable pub scan_queue : List ℕ → WorkerId → ℕ → JobManager → JobManager × Option Task
unfolding try_entry
scan_queue [] worker expires m = (m, none)
scan_queue (i ∷ order) worker expires m =
    or_else (try_entry (get_elem? m.queue i) i worker expires m)
      (λ m'. scan_queue order worker expires m')

-- A task that is born leased.
abbrev pub born : TaskId → JobId → TaskId → ℕ → ℕ → WorkerId → ℕ → Task
born id job replica_of start count worker expires = record {
  id = id;
  job = job;
  state = leased;
  start_unit = start;
  unit_count = count;
  holder = worker;
  lease_expires_at_ms = expires;
  replica_of = replica_of;
  submissions = [];
  prior_workers = [];
}

-- Grants of tasks that need an asset, and those among them whose worker held it.
abbrev pub count_grant : Option AssetId → List AssetId → JobManager → JobManager
count_grant none cached m = m
count_grant (some a) cached m = record m {
  asset_grants = (m.asset_grants + 1) % u64_mod;
  asset_grants_hit =
      if has_asset cached a then (m.asset_grants_hit + 1) % u64_mod else m.asset_grants_hit;
}

-- The piece is booked on the job, and the task that covers it enters the table.
unfoldable pub book :
    JobId
    → Job
    → Piece
    → WorkerId
    → ℕ
    → List AssetId
    → TaskId
    → JobManager
    → JobManager × Option Task
unfolding has_asset
book job_id j p worker expires cached id m =
    let t = born id job_id nil p.start_unit p.unit_count worker expires in
    let m' = count_grant j.input_ref cached (
      mark_task_dirty id
        (mark_job_dirty job_id (record m { jobs = insert job_id (booked j p id) m.jobs }))) in
    (record m' { tasks = emplace id t m'.tasks }, some t)

-- One round over the jobs. The identifier is used up also where nothing is left to carve.
unfoldable pub carve_piece_into :
    JobId → Job → Option Piece → WorkerId → ℕ → List AssetId → JobManager → JobManager × Option Task
unfolding book
carve_piece_into job_id j none worker expires cached m = (bump_id m, none)
carve_piece_into job_id j (some p) worker expires cached m =
    book job_id j p worker expires cached (minted m) (bump_id m)

unfoldable pub carve_job :
    Bool → JobId → Job → WorkerId → ℕ → ℕ → List AssetId → JobManager → JobManager × Option Task
unfolding carve_piece_into keyspace_exhausted wants_cached carve_piece
carve_job affinity_pass job_id j worker expires units cached m =
    if affinity_pass && not (wants_cached j.input_ref cached) || keyspace_exhausted j
    then (m, none)
    else carve_piece_into job_id j (carve_piece j units) worker expires cached m

-- The loop over the jobs, which changes only the entry that it leaves at.
unfoldable pub carve_over :
    Bool
    → List (JobId × Job)
    → WorkerId
    → ℕ
    → ℕ
    → List AssetId
    → JobManager
    → JobManager × Option Task
unfolding carve_job
carve_over affinity_pass [] worker expires units cached m = (m, none)
carve_over affinity_pass ((job_id, j) ∷ js) worker expires units cached m =
    or_else (carve_job affinity_pass job_id j worker expires units cached m)
      (λ m'. carve_over affinity_pass js worker expires units cached m')

abbrev pub is_empty : List AssetId → Bool
is_empty [] = true
is_empty (a ∷ rest) = false

-- The first pass considers only jobs whose asset the worker holds, the second all of them.
unfoldable pub carve_fresh : WorkerId → ℕ → ℕ → List AssetId → JobManager → JobManager × Option Task
unfolding carve_over
carve_fresh worker expires units cached m =
    if units == 0
    then (m, none)
    else or_else
        (if is_empty cached
          then (m, none)
          else carve_over true m.jobs worker expires units cached m)
        (λ m'. carve_over false m'.jobs worker expires units cached m')

unfoldable pub grant : WorkerId → ℕ → ℕ → ℕ → List AssetId → JobManager → JobManager × Option Task
unfolding scan_queue carve_fresh needs_of scan_order prefer_cached
grant worker now_ms lease_ms units cached m =
    let preferred = prefer_cached (needs_of m.queue m) cached in
    or_else (scan_queue (scan_order preferred (length m.queue)) worker (deadline now_ms lease_ms) m)
      (λ m'. carve_fresh worker (deadline now_ms lease_ms) units cached m')
