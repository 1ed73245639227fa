-- ===== src/Coordinator/Job/Cases.antt =====
-- How a member function that looks a task up and moves it can end.
use p2p_gpu.Base.{◌≡◌, refl, ◌⊎◌, inl, inr, none, some, Option-cases, lookup}
use p2p_gpu.Coordinator.Job.{
  Task, JobManager, M, and_then, mark_task_dirty, put_task, find_task, applied, apply,
}
use p2p_gpu.Protocol.Ids.{TaskId, id_key}
use p2p_gpu.Protocol.Errors.{Error, Result, ok, err, Status}
use p2p_gpu.Coordinator.TaskState.{TaskState, TaskEvent, advance}

pub Result-cases {ℓ} :
    {A : Type ℓ} (r : Result A) → ((a : A) × (r ≡ ok a)) ⊎ ((x : Error) × (r ≡ err x))
Result-cases (ok a) = inl (a, refl)
Result-cases (err x) = inr (x, refl)

-- The state and the task after a transition.
abbrev pub moved : TaskId → Task → TaskState → JobManager → JobManager
moved id t s m = mark_task_dirty t.id (put_task id (record t { state = s }) m)

module _ (id : TaskId) (t : Task) (ev : TaskEvent) (m : JobManager) where
  pub apply-ok :
      (s : TaskState)
      → advance t.state ev ≡ ok s
      → apply id t ev m ≡ (moved id t s m, ok (record t { state = s }))
  unfolding apply
  apply-ok s q = rw (q, applied)

  pub apply-err : (x : Error) → advance t.state ev ≡ err x → apply id t ev m ≡ (m, err x)
  unfolding apply
  apply-err x q = rw (q, applied)

module _ {ℓ} {B : Type 0} (P : JobManager × Result B → Type ℓ) where
  pub find_cases :
      (id : TaskId) (e : Error) (k : Task → M B) (m : JobManager)
      → (lookup id m.tasks ≡ none → P (m, err e))
      → ((t : Task) → lookup id m.tasks ≡ some t → P (k t m))
      → P (and_then (find_task id e m) k)
  find_cases id e k m missing found = elim (Option-cases (lookup id m.tasks)) [
    | inl q ↦ rw q (missing q)
    | inr (t, q) ↦ rw q (found t q)
  ]

  pub apply_cases :
      (id : TaskId) (t : Task) (ev : TaskEvent) (k : Task → M B) (m : JobManager)
      → ((x : Error) → advance t.state ev ≡ err x → P (m, err x))
      → ((s : TaskState)
          → advance t.state ev ≡ ok s
          → P (k (record t { state = s }) (moved id t s m)))
      → P (and_then (apply id t ev m) k)
  unfolding apply
  apply_cases id t ev k m refused done = elim (Result-cases (advance t.state ev)) [
    | inl (s, q) ↦ rw (q, applied) (done s q)
    | inr (x, q) ↦ rw (q, applied) (refused x q)
  ]

  -- After a check the state is the same, and the check has passed or its error is returned.
  pub check_cases :
      (s : Status) (k : Unit {0} → M B) (m : JobManager)
      → ((x : Error) → s ≡ err x → P (m, err x))
      → (s ≡ ok tt → P (k tt m))
      → P (and_then (m, s) k)
  check_cases (ok tt) k m refused passed = passed refl
  check_cases (err x) k m refused passed = refused x refl
