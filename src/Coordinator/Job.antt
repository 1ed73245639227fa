-- ===== src/Coordinator/Job.antt =====
-- The job manager's data (include/p2pgpu/coordinator/job.hpp) and the parts of src/coordinator/job.cpp
-- that all operations share: the dirty marks, `Apply`, and the queries.
pub mod Queries
pub mod Lease
pub mod Grant
pub mod Speculate
pub mod Recover
pub mod Calls
pub mod Cases
pub mod Changes
pub mod Sweep
pub mod Authority
pub mod Release
mod Examples
use p2p_gpu.Base.{
  ℕ, ◌+◌, ◌-◌, ◌%◌, String, Bool, Option, none, some, List, [], ◌∷◌, ◌++◌, leb, if◌then◌else◌,
  u64_mod, set_insert, lookup, insert,
}
use p2p_gpu.Protocol.Ids.{TaggedId, WorkerId, TaskId, JobId, nil, id_key}
use p2p_gpu.Protocol.Errors.{internal, Error, make_error, Result, ok, err}
use p2p_gpu.Coordinator.Affinity.{AssetId}
use p2p_gpu.Coordinator.TaskState.{TaskState, TaskEvent, advance}

pub record Submission : Type 0 where
  pub worker : WorkerId
  pub checksum : ℕ
  pub payload : List ℕ

pub record Task : Type 0 where
  pub id : TaskId
  pub job : JobId
  pub state : TaskState
  pub start_unit : ℕ
  pub unit_count : ℕ
  pub holder : WorkerId
  pub lease_expires_at_ms : ℕ
  pub replica_of : TaskId
  pub submissions : List Submission
  pub prior_workers : List WorkerId

-- The image cut into tiles; its geometry is modelled in Composite.
pub record TileGrid : Type 0 where
  pub image_w : ℕ
  pub image_h : ℕ
  pub tile_w : ℕ
  pub tile_h : ℕ

-- The camera's vectors are kept as the bit patterns of their floats. The scene that a development
-- build may attach is left out.
pub record RenderConfig : Type 0 where
  pub grid : TileGrid
  pub samples_per_tile : ℕ
  pub cam_origin : List ℕ
  pub cam_lower_left : List ℕ
  pub cam_horizontal : List ℕ
  pub cam_vertical : List ℕ
  pub max_bounces : ℕ
  pub rr_start_bounce : ℕ
  pub node_count : ℕ
  pub prim_count : ℕ
  pub material_count : ℕ

pub record Job : Type 0 where
  pub id : JobId
  pub kernel_id : String
  pub seed : ℕ
  pub total_units : ℕ
  pub next_unit : ℕ
  pub units_per_group : ℕ
  pub input_ref : Option AssetId
  pub render : Option RenderConfig
  pub tile_granted : List ℕ
  pub tasks : List TaskId

unfoldable pub keyspace_exhausted : Job → Bool
keyspace_exhausted j = leb j.total_units j.next_unit

unfoldable pub remaining_units : Job → ℕ
unfolding keyspace_exhausted
remaining_units j = if keyspace_exhausted j then 0 else j.total_units - j.next_unit

pub record PartialResult : Type 0 where
  pub worker : WorkerId
  pub sequence : ℕ
  pub units_done : ℕ
  pub payload : List ℕ
  pub received_at_ms : ℕ

pub record AssetSourceCounts : Type 0 where
  pub none_count : ℕ
  pub cached : ℕ
  pub peer : ℕ
  pub coordinator : ℕ

pub record IceCounts : Type 0 where
  pub fetches_with_peer_attempt : ℕ
  pub peer_connected : ℕ
  pub host_gathered : ℕ
  pub srflx_gathered : ℕ
  pub relay_gathered : ℕ

-- The fields of the class `JobManager`.
pub record JobManager : Type 0 where
  pub partials : List (TaskId × PartialResult)
  pub asset_sources : AssetSourceCounts
  pub ice_counts : IceCounts
  pub asset_grants : ℕ
  pub asset_grants_hit : ℕ
  pub dirty_tasks : List TaskId
  pub dirty_jobs : List JobId
  pub tasks : List (TaskId × Task)
  pub jobs : List (JobId × Job)
  pub queue : List TaskId
  pub next_id : ℕ
  pub wasted_units : ℕ

abbrev pub init : JobManager
init = record {
  partials = [];
  asset_sources = record { none_count = 0; cached = 0; peer = 0; coordinator = 0 };
  ice_counts = record {
    fetches_with_peer_attempt = 0;
    peer_connected = 0;
    host_gathered = 0;
    srflx_gathered = 0;
    relay_gathered = 0;
  };
  asset_grants = 0;
  asset_grants_hit = 0;
  dirty_tasks = [];
  dirty_jobs = [];
  tasks = [];
  jobs = [];
  queue = [];
  next_id = 1;
  wasted_units = 0;
}

-- A member function that may fail: on an error the state is what had been written by then.
abbrev pub M : Type 0 → Type 0
M A = JobManager → JobManager × Result A

abbrev pub and_then : {A B : Type 0} → JobManager × Result A → (A → M B) → JobManager × Result B
and_then (m, ok a) f = f a m
and_then (m, err e) f = (m, err e)

infixl 5 ◌>>=◌ ◌>>◌
abbrev pub ◌>>=◌ : {A B : Type 0} → M A → (A → M B) → M B
◌>>=◌ p f m = and_then (p m) f

abbrev pub ◌>>◌ : {B : Type 0} → M (Unit {0}) → M B → M B
p >> q = p >>= λ _. q

-- A change of the state that does not fail, and a failure.
abbrev pub modify : (JobManager → JobManager) → M (Unit {0})
modify f m = (f m, ok tt)

abbrev pub return : {A : Type 0} → A → M A
return a m = (m, ok a)

abbrev pub fail : {A : Type 0} → Error → M A
fail e m = (m, err e)

-- `MarkTaskDirty` and `MarkJobDirty`.
abbrev pub mark_task_dirty : TaskId → JobManager → JobManager
mark_task_dirty id m = record m { dirty_tasks = set_insert id m.dirty_tasks }

abbrev pub mark_job_dirty : JobId → JobManager → JobManager
mark_job_dirty id m = record m { dirty_jobs = set_insert id m.dirty_jobs }

-- A write through a `Task&` that stands for the entry of `id`.
abbrev pub put_task : TaskId → Task → JobManager → JobManager
put_task id t m = record m { tasks = insert id t m.tasks }

abbrev pub push_queue : TaskId → JobManager → JobManager
push_queue id m = record m { queue = m.queue ++ id ∷ [] }

-- `tasks_.find(id)`, with the error that the caller gives for a missing task.
abbrev or_fail : Option Task → Error → M Task
or_fail none e = fail e
or_fail (some t) e = return t

abbrev pub find_task : TaskId → Error → M Task
find_task id e m = or_fail (lookup id m.tasks) e m

abbrev pub unknown_task : Error
unknown_task = make_error internal "unknown task"

-- `Apply`: one transition of the task that stands at `id`, written back and marked dirty.
pub applied : TaskId → Task → Result TaskState → M Task
applied id t (err e) m = (m, err e)
applied id t (ok next) m =
    let t' = record t { state = next } in (mark_task_dirty t.id (put_task id t' m), ok t')

unfoldable pub apply : TaskId → Task → TaskEvent → M Task
unfolding applied advance
apply id t ev = applied id t (advance t.state ev)

-- The end of every operation that gives a task up: no holder, no deadline.
abbrev pub without_lease : Task → Task
without_lease t = record t { holder = nil; lease_expires_at_ms = 0 }

-- `now_ms + lease_ms`, in 64 bits.
abbrev pub deadline : ℕ → ℕ → ℕ
deadline now_ms lease_ms = (now_ms + lease_ms) % u64_mod

-- `next_id_++`, in 64 bits.
abbrev pub bump_id : JobManager → JobManager
bump_id m = record m { next_id = (m.next_id + 1) % u64_mod }

abbrev pub minted : {T : Type 0} → JobManager → TaggedId T
minted m = record { hi = 0; lo = m.next_id }
