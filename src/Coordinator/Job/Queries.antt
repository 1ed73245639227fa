-- ===== src/Coordinator/Job/Queries.antt =====
-- The reading side of the job manager (src/coordinator/job.cpp): lookups, counts, completion, the
-- dirty rows, and the telemetry counters.
use p2p_gpu.Base.{
  ℕ, ◌+◌, ◌/◌, ◌%◌, Bool, true, false, not, ◌&&◌, Option, none, some, List, [], ◌∷◌, ltb, ◌==◌,
  if◌then◌else◌, u64_mod, length, get_or, set, all_of, Eq, lookup,
}
use p2p_gpu.Protocol.Ids.{WorkerId, TaskId, JobId, nil, id_eq, id_key}
use p2p_gpu.Coordinator.TaskState.{
  TaskState, queued, leased, validating, needs_replica, accepted, rejected, cancelled, is_terminal,
}
use p2p_gpu.Coordinator.Job.{
  Task, Job, keyspace_exhausted, remaining_units, PartialResult, AssetSourceCounts, JobManager,
}

unfoldable pub find : TaskId → JobManager → Option Task
find id m = lookup id m.tasks

unfoldable pub find_job : JobId → JobManager → Option Job
find_job id m = lookup id m.jobs

unfoldable pub latest_partial : TaskId → JobManager → Option PartialResult
latest_partial id m = lookup id m.partials

-- The enumerators in declaration order, as `static_cast<std::size_t>` numbers them.
unfoldable pub state_index : TaskState → ℕ
state_index queued = 0
state_index leased = 1
state_index validating = 2
state_index needs_replica = 3
state_index accepted = 4
state_index rejected = 5
state_index cancelled = 6

-- `++out[index]`, where the index is in range.
abbrev pub bump_at : List ℕ → ℕ → List ℕ
bump_at out i = set out i (get_or out i 0 + 1)

unfoldable pub count_states : List (TaskId × Task) → List ℕ → List ℕ
unfolding state_index
count_states [] out = out
count_states ((id, t) ∷ ts) out =
    count_states ts
      (if ltb (state_index t.state) (length out) then bump_at out (state_index t.state) else out)

unfoldable pub count_by_state : JobManager → List ℕ
unfolding count_states
count_by_state m = count_states m.tasks (0 ∷ 0 ∷ 0 ∷ 0 ∷ 0 ∷ 0 ∷ 0 ∷ [])

-- Sums over all jobs, in 64 bits.
unfoldable pub sum_units : (Job → ℕ) → List (JobId × Job) → ℕ → ℕ
sum_units f [] total = total
sum_units f ((id, j) ∷ js) total = sum_units f js ((total + f j) % u64_mod)

unfoldable pub total_units_of_jobs : JobManager → ℕ
unfolding sum_units
total_units_of_jobs m = sum_units (λ j. j.total_units) m.jobs 0

unfoldable pub remaining_units_of_jobs : JobManager → ℕ
unfolding sum_units remaining_units
remaining_units_of_jobs m = sum_units remaining_units m.jobs 0

-- The rows that a flush would write.
unfoldable pub rows {ℓ κ} : {K : Type ℓ} {V : Type κ} ⦃e : Eq K⦄ → List K → List (K × V) → List V
rows [] m = []
rows (k ∷ ks) m = elim (lookup k m) [ none ↦ rows ks m | some v ↦ v ∷ rows ks m ]

abbrev pub dirty_jobs_of : JobManager → List Job
unfolding rows
dirty_jobs_of m = rows m.dirty_jobs m.jobs

abbrev pub dirty_tasks_of : JobManager → List Task
unfolding rows
dirty_tasks_of m = rows m.dirty_tasks m.tasks

abbrev pub clear_dirty : JobManager → JobManager
clear_dirty m = record m { dirty_jobs = []; dirty_tasks = [] }

abbrev pub is_leased : TaskState → Bool
is_leased leased = true
is_leased _ = false

-- `task.state == Leased && task.holder == worker`.
unfoldable pub is_held_by : WorkerId → Task → Bool
is_held_by worker t = is_leased t.state && id_eq t.holder worker

unfoldable pub held_in : WorkerId → List (TaskId × Task) → List TaskId
unfolding is_held_by
held_in worker [] = []
held_in worker ((id, t) ∷ ts) =
    if is_held_by worker t then id ∷ held_in worker ts else held_in worker ts

unfoldable pub held_by : WorkerId → JobManager → List TaskId
unfolding held_in
held_by worker m = held_in worker m.tasks

unfoldable pub is_done : Option Task → Bool
unfolding is_terminal
is_done none = false
is_done (some t) = is_terminal t.state

unfoldable pub tasks_done : List TaskId → JobManager → Bool
unfolding is_done
tasks_done ids m = all_of (λ id. is_done (lookup id m.tasks)) ids

unfoldable pub job_done : Option Job → JobManager → Bool
unfolding tasks_done keyspace_exhausted
job_done none m = false
job_done (some j) m = if not (keyspace_exhausted j) then false else tasks_done j.tasks m

unfoldable pub job_complete : JobId → JobManager → Bool
unfolding job_done
job_complete id m = job_done (lookup id m.jobs) m

unfoldable pub all_jobs_complete : List (JobId × Job) → JobManager → Bool
unfolding job_complete
all_jobs_complete [] m = true
all_jobs_complete ((id, j) ∷ js) m = job_complete id m && all_jobs_complete js m

unfoldable pub all_complete : JobManager → Bool
unfolding all_jobs_complete
all_complete m = elim m.jobs [ [] ↦ false | entry ∷ js ↦ all_jobs_complete (entry ∷ js) m ]

-- The units of a job's accepted originals, and the fraction that they make of the whole as a
-- numerator and a denominator; 0.0 is 0 over 1.
abbrev pub is_accepted : TaskState → Bool
is_accepted accepted = true
is_accepted _ = false

abbrev pub done_part : Option Task → ℕ
done_part none = 0
done_part (some t) = if is_accepted t.state && id_eq t.replica_of nil then t.unit_count else 0

unfoldable pub units_done_in : List TaskId → JobManager → ℕ → ℕ
units_done_in [] m done = done
units_done_in (id ∷ ids) m done =
    units_done_in ids m ((done + done_part (lookup id m.tasks)) % u64_mod)

unfoldable pub fraction_of : Option Job → JobManager → ℕ × ℕ
unfolding units_done_in
fraction_of none m = (0, 1)
fraction_of (some j) m =
    if j.total_units == 0 then (0, 1) else (units_done_in j.tasks m 0, j.total_units)

unfoldable pub completion_fraction : JobId → JobManager → ℕ × ℕ
unfolding fraction_of
completion_fraction id m = fraction_of (lookup id m.jobs) m

-- `PeekNextJob`: the job of the first queued task that is known, else the first with keyspace left.
unfoldable pub peek_fresh : List (JobId × Job) → Option Job
unfolding keyspace_exhausted
peek_fresh [] = none
peek_fresh ((id, j) ∷ js) = if not (keyspace_exhausted j) then some j else peek_fresh js

unfoldable pub peek_queue : List TaskId → JobManager → Option Job
unfolding peek_fresh
peek_queue [] m = peek_fresh m.jobs
peek_queue (id ∷ ids) m = elim (lookup id m.tasks) [
  | none ↦ peek_queue ids m
  | some t ↦ lookup t.job m.jobs
]

unfoldable pub peek_next_job : JobManager → Option Job
unfolding peek_queue
peek_next_job m = peek_queue m.queue m

-- `AssetSource` of protocol/p2pgpu.fbs.
pub data AssetSource : Type 0 where
  from_none from_cache from_peer from_coordinator : AssetSource

abbrev pub count_source : AssetSource → AssetSourceCounts → AssetSourceCounts
count_source from_none c = record c { none_count = (c.none_count + 1) % u64_mod }
count_source from_cache c = record c { cached = (c.cached + 1) % u64_mod }
count_source from_peer c = record c { peer = (c.peer + 1) % u64_mod }
count_source from_coordinator c = record c { coordinator = (c.coordinator + 1) % u64_mod }

unfoldable pub record_asset_source : AssetSource → JobManager → JobManager
record_asset_source s m = record m { asset_sources = count_source s m.asset_sources }

abbrev pub add_if : Bool → ℕ → ℕ
add_if b n = if b then (n + 1) % u64_mod else n

-- The bits of `gathered`: 1 host, 2 server-reflexive, 4 relay.
unfoldable pub record_ice_outcome : ℕ → ℕ → Bool → JobManager → JobManager
record_ice_outcome gathered attempts connected m = if attempts == 0 then m else record m {
  ice_counts = record {
    fetches_with_peer_attempt = (m.ice_counts.fetches_with_peer_attempt + 1) % u64_mod;
    peer_connected = add_if connected m.ice_counts.peer_connected;
    host_gathered = add_if (not (gathered % 2 == 0)) m.ice_counts.host_gathered;
    srflx_gathered = add_if (not (gathered / 2 % 2 == 0)) m.ice_counts.srflx_gathered;
    relay_gathered = add_if (not (gathered / 4 % 2 == 0)) m.ice_counts.relay_gathered;
  };
}
