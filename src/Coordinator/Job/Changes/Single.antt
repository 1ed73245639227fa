-- ===== src/Coordinator/Job/Changes/Single.antt =====
-- The operations on one task are changes of the table.
use p2p_gpu.Base.{
  ℕ, ◌≡◌, refl, ◌≢◌, inl, inr, Bool, true, List, [], ◌∷◌, ◌++◌, arith, if◌then◌else◌, Option-cases,
  length-snoc, contains-append, lookup,
}
use p2p_gpu.Coordinator.Job.{
  Submission, Task, JobManager, M, and_then, unknown_task, without_lease, deadline,
}
use p2p_gpu.Protocol.Ids.{WorkerId, TaskId, nil, id_key}
use p2p_gpu.Protocol.Errors.{Error, Result, ok, err, Status}
use p2p_gpu.Coordinator.TaskState.{
  TaskState, queued, leased, validating, TaskEvent, renew, accept, disagreement, issue_replica,
  reject, advance,
}
use p2p_gpu.Coordinator.TaskState.Proofs.{here, step}
use p2p_gpu.Coordinator.Job.Lease.{
  check_lease, submit, renew_lease, record_partial, requeue, finish, record_submission,
  request_replica, restart_validation,
}
use p2p_gpu.Coordinator.Job.Cases.{find_cases, apply_cases, check_cases}
use p2p_gpu.Coordinator.Job.Changes.{
  is_judged, TaskStep, Change, same, write, both, write_over, write_over_twice, judged_born,
}

-- How the sources of a transition carry soundness over.
judged_source :
    (s u : TaskState) (ev : TaskEvent)
    → advance s ev ≡ ok u
    → ev ≢ TaskEvent.submit
    → is_judged u ≡ true
    → is_judged s ≡ true
unfolding advance
judged_source s u ev e n j = ground arith

-- A transition by any event but a submission, after which the task is held by nobody.
pub released_step :
    (t : Task) (u : TaskState) (ev : TaskEvent) (answers : List Submission)
    → advance t.state ev ≡ ok u
    → ev ≢ TaskEvent.submit
    → TaskStep t (record (without_lease t) { state = u; submissions = answers })
released_step t u ev answers e n = record {
  moves = step u ev e here;
  same_id = refl;
  same_job = refl;
  same_start = refl;
  same_count = refl;
  same_origin = refl;
  recorded = λ w h. h;
  sound = λ s. record {
    unheld = λ _. refl;
    credited = λ j. s.credited (judged_source t.state u ev e n j);
  };
}

abbrev pub Changes : JobManager → JobManager → Type 0
Changes m m' = Change m.tasks m'.tasks

pub requeue-Change :
    (id : TaskId) (why : TaskEvent) (m : JobManager)
    → why ≢ TaskEvent.submit
    → Changes m (requeue id why m).0
unfolding requeue
requeue-Change id why m n =
    find_cases (λ r. Changes m r.0) id unknown_task _ m (λ _. same)
      λ t e.
        apply_cases (λ r. Changes m r.0) id t why _ m (λ _ _. same)
          λ s a. write_over m.tasks id t _ _ e (released_step t s why t.submissions a n)

submitted_step :
    (t : Task) (u : TaskState) (worker : WorkerId)
    → advance t.state TaskEvent.submit ≡ ok u
    → TaskStep t
        (record t { state = u; prior_workers = t.prior_workers ++ worker ∷ []; holder = nil })
submitted_step t u worker e = record {
  moves = step u TaskEvent.submit e here;
  same_id = refl;
  same_job = refl;
  same_start = refl;
  same_count = refl;
  same_origin = refl;
  recorded = λ w h. contains-append t.prior_workers (worker ∷ []) w h;
  sound = λ s. record { unheld = λ _. refl; credited = λ j. length-snoc t.prior_workers worker };
}

renew_stays : (s u : TaskState) → advance s renew ≡ ok u → (s ≡ leased) × (u ≡ leased)
unfolding advance
renew_stays s u e = ground arith

renewed_step :
    (t : Task) (u : TaskState) (expires : ℕ)
    → advance t.state renew ≡ ok u
    → TaskStep t (record t { state = u; lease_expires_at_ms = expires })
renewed_step t u expires e =
    let (was, now) = renew_stays t.state u e in
    record {
      moves = step u renew e here;
      same_id = refl;
      same_job = refl;
      same_start = refl;
      same_count = refl;
      same_origin = refl;
      recorded = λ w h. h;
      sound = λ s. record {
        unheld = λ n. absurd (n now);
        credited = λ j. absurd (judged_born u now j);
      };
    }

-- The verdict events come from validation, where nobody holds the task.
verdict_source :
    (s u : TaskState) (accepts : Bool)
    → advance s (if accepts then accept else reject) ≡ ok u
    → s ≡ validating
unfolding advance
verdict_source s u accepts e = ground arith

validating_unleased : (s : TaskState) → s ≡ validating → (s ≢ leased) × (is_judged s ≡ true)
validating_unleased s e = ground arith

verdict_step :
    (t : Task) (u : TaskState) (accepts : Bool)
    → advance t.state (if accepts then accept else reject) ≡ ok u
    → TaskStep t (record t { state = u; submissions = [] })
verdict_step t u accepts e =
    let (unleased, judged) = validating_unleased t.state (verdict_source t.state u accepts e) in
    record {
      moves = step u _ e here;
      same_id = refl;
      same_job = refl;
      same_start = refl;
      same_count = refl;
      same_origin = refl;
      recorded = λ w h. h;
      sound = λ s. record { unheld = λ _. s.unheld unleased; credited = λ _. s.credited judged };
    }

pub answered_step :
    (t : Task) (answers : List Submission) → TaskStep t (record t { submissions = answers })
answered_step t answers = record {
  moves = here;
  same_id = refl;
  same_job = refl;
  same_start = refl;
  same_count = refl;
  same_origin = refl;
  recorded = λ w h. h;
  sound = λ s. record { unheld = s.unheld; credited = s.credited };
}

pub submit-Change :
    (worker : WorkerId) (id : TaskId) (m : JobManager) → Changes m (submit worker id m).0
unfolding submit
submit-Change worker id m =
    check_cases P (check_lease worker id m) _ m (λ _ _. same)
      λ _.
        find_cases P id unknown_task _ m (λ _. same)
          λ t e.
            apply_cases P id t TaskEvent.submit _ m (λ _ _. same)
              λ s a. write_over m.tasks id t _ _ e (submitted_step t s worker a)
  where
    P : JobManager × Status → Type 0
    P r = Changes m r.0

pub renew_lease-Change :
    (worker : WorkerId) (id : TaskId) (now_ms lease_ms : ℕ) (m : JobManager)
    → Changes m (renew_lease worker id now_ms lease_ms m).0
unfolding renew_lease
renew_lease-Change worker id now_ms lease_ms m =
    check_cases P (check_lease worker id m) _ m (λ _ _. same)
      λ _.
        find_cases P id unknown_task _ m (λ _. same)
          λ t e.
            apply_cases P id t renew _ m (λ _ _. same)
              λ s a. write_over m.tasks id t _ _ e (renewed_step t s (deadline now_ms lease_ms) a)
  where
    P : JobManager × Status → Type 0
    P r = Changes m r.0

pub finish-Change :
    (id : TaskId) (accepts : Bool) (m : JobManager) → Changes m (finish id accepts m).0
unfolding finish
finish-Change id accepts m =
    find_cases (λ r. Changes m r.0) id unknown_task _ m (λ _. same)
      λ t e.
        apply_cases (λ r. Changes m r.0) id t _ _ m (λ _ _. same)
          λ s a. write_over m.tasks id t _ _ e (verdict_step t s accepts a)

pub record_submission-Change :
    (id : TaskId) (worker : WorkerId) (checksum : ℕ) (payload : List ℕ) (m : JobManager)
    → Changes m (record_submission id worker checksum payload m)
unfolding record_submission
record_submission-Change id worker checksum payload m = elim (Option-cases (lookup id m.tasks)) [
  | inl e ↦ rw (e, record_submission) same
  | inr (t, e) ↦ rw (e, record_submission) (write m.tasks id t _ e (answered_step t _))
]

-- Two actions in a row.
pub and_then-Change :
    {A B : Type 0} (m : JobManager) (r : JobManager × Result A) (k : A → M B)
    → Changes m r.0
    → ((a : A) (m' : JobManager) → Changes m' (k a m').0)
    → Changes m (and_then r k).0
and_then-Change m (m', ok a) k c d = both c (d a m')
and_then-Change m (m', err x) k c d = c

-- The partial result enters its own map, after the lease has been renewed.
pub record_partial-Change :
    (worker : WorkerId) (id : TaskId) (sequence units_done : ℕ) (payload : List ℕ)
    (now_ms lease_ms : ℕ) (m : JobManager)
    → Changes m (record_partial worker id sequence units_done payload now_ms lease_ms m).0
unfolding record_partial
record_partial-Change worker id sequence units_done payload now_ms lease_ms m =
    and_then-Change m (m, check_lease worker id m) _ same
      λ _ m₁.
        and_then-Change m₁ (m₁, _) _ same
          λ _ m₂.
            and_then-Change m₂ (renew_lease worker id now_ms lease_ms m₂) _
              (renew_lease-Change worker id now_ms lease_ms m₂) λ _ m₃. same

-- From validation a disagreement and the issue of a replica lead back to the queue.
replica_path :
    (s u v : TaskState)
    → advance s disagreement ≡ ok u
    → advance u issue_replica ≡ ok v
    → v ≡ queued
unfolding advance
replica_path s u v p q = ground arith

no_replica :
    (s u : TaskState) (x : Error) → advance s disagreement ≡ ok u → advance u issue_replica ≢ err x
unfolding advance
no_replica s u x p q = ground arith

not_judged_queued : (s : TaskState) → s ≡ queued → is_judged s ≡ true → ⊥
not_judged_queued s e j = ground arith

replica_step :
    (t : Task) (u v : TaskState) (answers : List Submission)
    → advance t.state disagreement ≡ ok u
    → advance u issue_replica ≡ ok v
    → TaskStep t (record (without_lease t) { state = v; submissions = answers })
replica_step t u v answers p q = record {
  moves = step u disagreement p (step v issue_replica q here);
  same_id = refl;
  same_job = refl;
  same_start = refl;
  same_count = refl;
  same_origin = refl;
  recorded = λ w h. h;
  sound = λ s. record {
    unheld = λ _. refl;
    credited = λ j. absurd (not_judged_queued v (replica_path t.state u v p q) j);
  };
}

pub request_replica-Change : (id : TaskId) (m : JobManager) → Changes m (request_replica id m).0
unfolding request_replica
request_replica-Change id m =
    find_cases P id unknown_task _ m (λ _. same)
      λ t e.
        apply_cases P id t disagreement _ m (λ _ _. same)
          λ u p.
            apply_cases P id (record t { state = u }) issue_replica _ _
              (λ x q. absurd (no_replica t.state u x p q))
              λ v q. write_over_twice m.tasks id t _ _ _ e (replica_step t u v t.submissions p q)
  where
    P : JobManager × Status → Type 0
    P r = Changes m r.0

pub restart_validation-Change :
    (id : TaskId) (m : JobManager) → Changes m (restart_validation id m).0
unfolding restart_validation
restart_validation-Change id m =
    find_cases P id unknown_task _ m (λ _. same)
      λ t e.
        apply_cases P id t disagreement _ m (λ _ _. same)
          λ u p.
            apply_cases P id (record t { state = u }) issue_replica _ _
              (λ x q. absurd (no_replica t.state u x p q))
              λ v q. write_over_twice m.tasks id t _ _ _ e (replica_step t u v [] p q)
  where
    P : JobManager × Status → Type 0
    P r = Changes m r.0
