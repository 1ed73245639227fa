-- ===== src/Coordinator/Job/Grant/Scan.antt =====
-- How the scan of the queue in `JobManager::Grant` (src/coordinator/job.cpp) can end.
use p2p_gpu.Base.{
  ℕ, ◌≡◌, refl, sym, subst, inl, inr, Bool, true, Option, none, some, List, ◌∷◌, arith, Bool-cases,
  Option-cases, get_elem?, erase_at, lookup,
}
use p2p_gpu.Coordinator.Job.{Task, JobManager, put_task}
use p2p_gpu.Protocol.Ids.{WorkerId, TaskId, id_key}
use p2p_gpu.Protocol.Errors.{ok, has_value}
use p2p_gpu.Protocol.Invariants.{check_replica_assignment}
use p2p_gpu.Coordinator.TaskState.{TaskState, queued, leased, TaskEvent, advance}
use p2p_gpu.Coordinator.Job.Cases.{Result-cases, moved, apply-ok, apply-err}
use p2p_gpu.Coordinator.Job.Grant.{granted, try_task, try_entry, or_else, scan_queue}

pub queued_grants : (s : TaskState) → s ≡ queued → advance s TaskEvent.grant ≡ ok leased
unfolding advance
queued_grants s e = ground arith

only_queued : (s u : TaskState) → advance s TaskEvent.grant ≡ ok u → (s ≡ queued) × (u ≡ leased)
unfolding advance
only_queued s u e = ground arith

-- May the worker have the task, as far as its record goes?
abbrev pub is_fresh_for : WorkerId → Task → Bool
is_fresh_for worker t = has_value (check_replica_assignment t.prior_workers worker)

abbrev pub with_holder : Task → WorkerId → ℕ → Task
with_holder t worker expires = record t {
  state = leased;
  holder = worker;
  lease_expires_at_ms = expires;
}

-- The manager after a task of the queue has gone to a worker.
abbrev pub handed_out : TaskId → Task → ℕ → WorkerId → ℕ → JobManager → JobManager
handed_out id t index worker expires m =
    record (put_task id (with_holder t worker expires) (moved id t leased m)) {
      queue = erase_at m.queue index;
    }

module _ {ℓ} (P : JobManager × Option Task → Type ℓ) where
  -- A round hands out the task of its entry, which is queued and fresh for the worker, or changes
  -- nothing.
  pub try_entry_cases :
      (entry : Option TaskId) (index : ℕ) (worker : WorkerId) (expires : ℕ) (m : JobManager)
      → P (m, none)
      → ((id : TaskId) (t : Task)
          → lookup id m.tasks ≡ some t
          → t.state ≡ queued
          → is_fresh_for worker t ≡ true
          → P (handed_out id t index worker expires m, some (with_holder t worker expires)))
      → P (try_entry entry index worker expires m)
  unfolding try_entry
  try_entry_cases none index worker expires m kept given = kept
  try_entry_cases (some id) index worker expires m kept given =
      elim (Option-cases (lookup id m.tasks)) [
        | inl e ↦ rw (e, try_task) kept
        | inr (t, e) ↦ elim (Bool-cases (is_fresh_for worker t)) [
          | inr stale ↦ rw (e, stale, try_task) kept
          | inl fresh ↦ elim (Result-cases (advance t.state TaskEvent.grant)) [
            | inr (x, a) ↦
                rw (e, fresh, try_task)
                  (subst (λ r. P (granted id index worker expires r m))
                    (sym (apply-err id t TaskEvent.grant m x a)) kept)
            | inl (s, a) ↦
                let (q, l) = only_queued t.state s a in
                rw (e, fresh, try_task)
                  (subst (λ r. P (granted id index worker expires r m))
                    (sym (apply-ok id t TaskEvent.grant m leased (queued_grants t.state q)))
                    (given id t e q fresh))
          ]
        ]
      ]

pub scan_queue-cons :
    (i : ℕ) (order : List ℕ) (worker : WorkerId) (expires : ℕ) (m : JobManager)
    → scan_queue (i ∷ order) worker expires m
      ≡ or_else
          (try_entry (get_elem? m.queue i) i worker expires m)
          (λ m'. scan_queue order worker expires m')
unfolding scan_queue
scan_queue-cons i order worker expires m = refl
