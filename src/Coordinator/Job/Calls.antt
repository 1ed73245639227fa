-- ===== src/Coordinator/Job/Calls.antt =====
-- The calls that the coordinator makes of `JobManager` (include/p2pgpu/coordinator/job.hpp), and what a
-- sequence of them does. The session layer releases a task with no event but `Release`, and
-- src/coordinator/main.cpp writes to a job through `MutableJob`.
pub mod Runs
pub mod Made
use p2p_gpu.Base.{ℕ, String, Bool, Option, none, some, List, [], ◌∷◌, lookup, insert}
use p2p_gpu.Protocol.Ids.{WorkerId, TaskId, JobId, id_key}
use p2p_gpu.Coordinator.Affinity.{AssetId}
use p2p_gpu.Coordinator.Job.{Job, JobManager}
use p2p_gpu.Coordinator.TaskState.{release}
use p2p_gpu.Coordinator.Job.Queries.{
  clear_dirty, AssetSource, record_asset_source, record_ice_outcome,
}
use p2p_gpu.Coordinator.Job.Lease.{
  submit, renew_lease, record_partial, requeue, finish, record_submission, request_replica,
  restart_validation, sweep_expired_leases, release_all_held_by,
}
use p2p_gpu.Coordinator.Job.Grant.{grant}
use p2p_gpu.Coordinator.Job.Speculate.{issue_speculative, cancel_siblings_of, issue_known_range}
use p2p_gpu.Coordinator.Job.Recover.{create_job}

pub data Call : Type 0 where
  to_create_job : String → ℕ → ℕ → ℕ → Call
  to_write_job : JobId → Job → Call
  to_grant : WorkerId → ℕ → ℕ → ℕ → List AssetId → Call
  to_submit : WorkerId → TaskId → Call
  to_renew_lease : WorkerId → TaskId → ℕ → ℕ → Call
  to_record_partial : WorkerId → TaskId → ℕ → ℕ → List ℕ → ℕ → ℕ → Call
  to_record_asset_source : AssetSource → Call
  to_record_ice_outcome : ℕ → ℕ → Bool → Call
  to_sweep : ℕ → Call
  to_release : TaskId → Call
  to_release_all : WorkerId → Call
  to_finish : TaskId → Bool → Call
  to_record_submission : TaskId → WorkerId → ℕ → List ℕ → Call
  to_request_replica : TaskId → Call
  to_restart_validation : TaskId → Call
  to_issue_known_range : WorkerId → ℕ → ℕ → ℕ → ℕ → Call
  to_issue_speculative : WorkerId → ℕ → ℕ → Call
  to_cancel_siblings : TaskId → Call
  to_clear_dirty : Call

-- A write through the pointer that `MutableJob` returns, which is null for an unknown job.
abbrev pub write_job : JobId → Job → Option Job → JobManager → JobManager
write_job id j none m = m
write_job id j (some old) m = record m { jobs = insert id j m.jobs }

module _ (below : ℕ → ℕ → Bool) where
  unfoldable pub perform : Call → JobManager → JobManager
  perform (to_create_job kernel units seed group) m = (create_job kernel units seed group m).0
  perform (to_write_job id j) m = write_job id j (lookup id m.jobs) m
  perform (to_grant w now lease units cached) m = (grant w now lease units cached m).0
  perform (to_submit w id) m = (submit w id m).0
  perform (to_renew_lease w id now lease) m = (renew_lease w id now lease m).0
  perform (to_record_partial w id sequence done payload now lease) m =
      (record_partial w id sequence done payload now lease m).0
  perform (to_record_asset_source s) m = record_asset_source s m
  perform (to_record_ice_outcome gathered attempts connected) m =
      record_ice_outcome gathered attempts connected m
  perform (to_sweep now) m = (sweep_expired_leases now m).0
  perform (to_release id) m = (requeue id release m).0
  perform (to_release_all w) m = (release_all_held_by w m).0
  perform (to_finish id accepts) m = (finish id accepts m).0
  perform (to_record_submission id w checksum payload) m = record_submission id w checksum payload m
  perform (to_request_replica id) m = (request_replica id m).0
  perform (to_restart_validation id) m = (restart_validation id m).0
  perform (to_issue_known_range w now lease start count) m =
      (issue_known_range w now lease start count m).0
  perform (to_issue_speculative w now lease) m = (issue_speculative below w now lease m).0
  perform (to_cancel_siblings id) m = (cancel_siblings_of id m).0
  perform to_clear_dirty m = clear_dirty m

  unfoldable pub run : List Call → JobManager → JobManager
  unfolding perform
  run [] m = m
  run (c ∷ cs) m = run cs (perform c m)
