-- ===== src/Coordinator/Job/Calls/Runs.antt =====
-- What every sequence of calls of `JobManager` (src/coordinator/job.cpp) keeps true.
use p2p_gpu.Base.{
  ℕ, ◌<◌, ◌≡◌, refl, sym, subst, ◌≢◌, ◌⊎◌, inl, inr, Bool, true, false, Option, none, some, List,
  [], ◌∷◌, ◌==◌, Bool-cases, length, lookup, keys, AllEntries, AllEntries-lookup, Distinct,
}
use p2p_gpu.Protocol.Ids.{TaskId, nil, id_key}
use p2p_gpu.Coordinator.Job.{Task, Job, JobManager, init}
use p2p_gpu.Coordinator.TaskState.{leased, accepted, release, is_terminal}
use p2p_gpu.Coordinator.TaskState.Proofs.{Steps-terminal, TaskState-discrete}
use p2p_gpu.Coordinator.Job.Queries.{record_asset_source, record_ice_outcome}
use p2p_gpu.Coordinator.Job.Recover.{create_job}
use p2p_gpu.Coordinator.Job.Changes.{
  IsSound, TaskStep, Change, same, both, Change-lookup, IsEntry, Change-IsEntry, Change-Distinct,
}
use p2p_gpu.Coordinator.Job.Changes.Single.{
  Changes, requeue-Change, submit-Change, renew_lease-Change, finish-Change,
  record_submission-Change, record_partial-Change, request_replica-Change,
  restart_validation-Change,
}
use p2p_gpu.Coordinator.Job.Changes.Whole.{
  release_all_held_by-Change, sweep_expired_leases-Change, cancel_siblings_of-Change,
}
use p2p_gpu.Coordinator.Job.Changes.Granting.{
  grant-Change, issue_speculative-Change, issue_known_range-Change,
}
use p2p_gpu.Coordinator.Job.Calls.{
  Call, to_create_job, to_write_job, to_grant, to_submit, to_renew_lease, to_record_partial,
  to_record_asset_source, to_record_ice_outcome, to_sweep, to_release, to_release_all, to_finish,
  to_record_submission, to_request_replica, to_restart_validation, to_issue_known_range,
  to_issue_speculative, to_cancel_siblings, to_clear_dirty, write_job, perform, run,
}

-- The table is a map, each task stands under its own identifier, a task that is not leased has no
-- holder, and a task past submission has a worker on record.
pub record IsValid (m : JobManager) : Type 0 where
  pub distinct : Distinct (keys m.tasks)
  pub entries : AllEntries IsEntry m.tasks

unchanged : (m m' : JobManager) → m'.tasks ≡ m.tasks → Changes m m'
unchanged m m' e = subst (Change m.tasks) (sym e) same

module _ (below : ℕ → ℕ → Bool) where
  perform-Change : (c : Call) (m : JobManager) → IsValid m → Changes m (perform below c m)
  unfolding perform record_ice_outcome
  perform-Change (to_create_job kernel units seed group) m v = unfold create_job in same
  perform-Change (to_write_job id j) m v = written (lookup id m.jobs)
    where
      written : (old : Option Job) → Changes m (write_job id j old m)
      written none = same
      written (some old) = same
  perform-Change (to_grant w now lease units cached) m v = grant-Change w now lease units cached m
  perform-Change (to_submit w id) m v = submit-Change w id m
  perform-Change (to_renew_lease w id now lease) m v = renew_lease-Change w id now lease m
  perform-Change (to_record_partial w id sequence done payload now lease) m v =
      record_partial-Change w id sequence done payload now lease m
  perform-Change (to_record_asset_source s) m v = unfold record_asset_source in same
  perform-Change (to_record_ice_outcome gathered attempts connected) m v =
      unchanged m (record_ice_outcome gathered attempts connected m)
        (counted (Bool-cases (attempts == 0)))
    where
      counted :
          (attempts == 0 ≡ true) ⊎ (attempts == 0 ≡ false)
          → (record_ice_outcome gathered attempts connected m).tasks ≡ m.tasks
      counted (inl e) = rw (e, record_ice_outcome) refl
      counted (inr e) = rw (e, record_ice_outcome) refl
  perform-Change (to_sweep now) m v = sweep_expired_leases-Change now m v.distinct
  perform-Change (to_release id) m v = requeue-Change id release m (λ e. cc)
  perform-Change (to_release_all w) m v = release_all_held_by-Change w m
  perform-Change (to_finish id accepts) m v = finish-Change id accepts m
  perform-Change (to_record_submission id w checksum payload) m v =
      record_submission-Change id w checksum payload m
  perform-Change (to_request_replica id) m v = request_replica-Change id m
  perform-Change (to_restart_validation id) m v = restart_validation-Change id m
  perform-Change (to_issue_known_range w now lease start count) m v =
      issue_known_range-Change w now lease start count m
  perform-Change (to_issue_speculative w now lease) m v =
      issue_speculative-Change below w now lease m
  perform-Change (to_cancel_siblings id) m v = cancel_siblings_of-Change id m
  perform-Change to_clear_dirty m v = same

  perform-IsValid : (c : Call) (m : JobManager) → IsValid m → IsValid (perform below c m)
  perform-IsValid c m v = record {
    distinct = Change-Distinct (perform-Change c m v) v.distinct;
    entries = Change-IsEntry (perform-Change c m v) v.entries;
  }

  run-Change : (cs : List Call) (m : JobManager) → IsValid m → Changes m (run below cs m)
  unfolding run
  run-Change [] m v = same
  run-Change (c ∷ cs) m v =
      both (perform-Change c m v) (run-Change cs (perform below c m) (perform-IsValid c m v))

  -- Every sequence of calls keeps a valid manager valid.
  pub run-IsValid : (cs : List Call) (m : JobManager) → IsValid m → IsValid (run below cs m)
  unfolding run
  run-IsValid [] m v = v
  run-IsValid (c ∷ cs) m v = run-IsValid cs (perform below c m) (perform-IsValid c m v)

  -- No sequence of calls from a valid manager loses a task, and the task that stands there
  -- afterwards is the same one: the identifier, the job, the range and the origin are as before, the
  -- workers on its record are still on it, and its state has been reached by transitions alone.
  pub run-keeps_tasks :
      (cs : List Call) (m : JobManager) (id : TaskId) (t : Task)
      → IsValid m
      → lookup id m.tasks ≡ some t
      → (u : Task) × (lookup id (run below cs m).tasks ≡ some u) × TaskStep t u
  run-keeps_tasks cs m id t v e = Change-lookup id t (run-Change cs m v) e

  -- A task that has been accepted, rejected or cancelled has the same state after every sequence of
  -- calls from a valid manager.
  pub run-keeps_terminal :
      (cs : List Call) (m : JobManager) (id : TaskId) (t : Task)
      → IsValid m
      → lookup id m.tasks ≡ some t
      → is_terminal t.state ≡ true
      → (u : Task) × (lookup id (run below cs m).tasks ≡ some u) × (u.state ≡ t.state)
  run-keeps_terminal cs m id t v e h =
      let (u, q, s) = run-keeps_tasks cs m id t v e in (u, q, Steps-terminal h s.moves)

  -- After every sequence of calls from a fresh manager, a task that stands in the table stands under
  -- its own identifier; if it is not leased it has no holder; and if it is accepted then a worker is
  -- on its record as having computed it.
  pub run-init :
      (cs : List Call) (id : TaskId) (t : Task)
      → lookup id (run below cs init).tasks ≡ some t
      → (t.id ≡ id)
        × ((t.state ≡ leased) ⊎ (t.holder ≡ nil))
        × ((t.state ≢ accepted) ⊎ (0 < length t.prior_workers))
  run-init cs id t e =
      let v = run-IsValid cs init (record { distinct = tt; entries = tt }) in
      let (own, s) = AllEntries-lookup IsEntry id _ t v.entries e in
      (
        own,
        held s (TaskState-discrete t.state leased),
        done s (TaskState-discrete t.state accepted),
      )
    where
      held : IsSound t → Dec (t.state ≡ leased) → (t.state ≡ leased) ⊎ (t.holder ≡ nil)
      held s (yes e) = inl e
      held s (no n) = inr (s.unheld n)

      done :
          IsSound t → Dec (t.state ≡ accepted) → (t.state ≢ accepted) ⊎ (0 < length t.prior_workers)
      done s (yes e) = inr (s.credited (rw e refl))
      done s (no n) = inl n
