-- ===== src/Coordinator/Job/Changes/Whole.antt =====
-- The operations that go through the table, the queue or the jobs are changes of the table.
use p2p_gpu.Base.{
  ℕ, ◌≡◌, refl, sym, subst, inl, inr, true, Option, none, some, List, [], ◌∷◌, arith, Bool-cases,
  Option-cases, lookup, keys, Distinct, Found, Found-self,
}
use p2p_gpu.Coordinator.Job.{Task, Job, JobManager, apply}
use p2p_gpu.Protocol.Ids.{WorkerId, TaskId, id_key}
use p2p_gpu.Protocol.Errors.{ok, err, Status}
use p2p_gpu.Coordinator.TaskState.{queued, TaskEvent, lease_expired, release, advance}
use p2p_gpu.Coordinator.Job.Queries.{held_by}
use p2p_gpu.Coordinator.Job.Lease.{
  requeue, Expiry, is_overdue, sweep_over, sweep_expired_leases, count_ok, release_each,
  release_all_held_by,
}
use p2p_gpu.Coordinator.Job.Changes.{Tasks, Change, same, both, write_over}
use p2p_gpu.Coordinator.Job.Changes.Single.{released_step, Changes, requeue-Change}
use p2p_gpu.Coordinator.Job.Sweep.{lapsed, sweep_over-due, sweep_over-fresh, lapsed-Found}
use p2p_gpu.Coordinator.Job.Speculate.{
  Revocation, root_of, is_live_sibling, cancelled_task, cancel_entry, cancel_over, cancel_family,
  cancel_siblings, cancel_siblings_of,
}
use p2p_gpu.Coordinator.Job.Cases.{Result-cases, apply-ok, apply-err}

-- Releasing every task of a list.
release_each-Change :
    (ids : List TaskId) (acc : JobManager × ℕ) → Changes acc.0 (release_each ids acc).0
unfolding release_each
release_each-Change [] acc = same
release_each-Change (id ∷ ids) (m, n) = both (requeue-Change id release m (λ e. cc)) (
    subst (λ x. Change x (release_each ids (count_ok (requeue id release m) n)).0.tasks)
      (counted (requeue id release m) n)
      (release_each-Change ids (count_ok (requeue id release m) n)))
  where
    counted : (r : JobManager × Status) (k : ℕ) → (count_ok r k).0.tasks ≡ r.0.tasks
    counted (m', ok _) k = refl
    counted (m', err _) k = refl

pub release_all_held_by-Change :
    (worker : WorkerId) (m : JobManager) → Changes m (release_all_held_by worker m).0
unfolding release_all_held_by
release_all_held_by-Change worker m = release_each-Change (held_by worker m) (m, 0)

overdue_expires :
    (now_ms : ℕ) (t : Task) → is_overdue now_ms t ≡ true → advance t.state lease_expired ≡ ok queued
unfolding is_overdue advance
overdue_expires now_ms t due = ground arith

-- The rounds of the sweep write to one entry each, so the rest of the table is as the sweep found it.
sweep_over-Change :
    (now_ms : ℕ) (ts : Tasks) (m : JobManager) (out : List Expiry)
    → Distinct (keys ts)
    → Found m.tasks ts
    → Changes m (sweep_over now_ms ts (m, out)).0
sweep_over-Change now_ms [] m out d f = unfold sweep_over in same
sweep_over-Change now_ms ((id, t) ∷ ts) m out d f = elim (Bool-cases (is_overdue now_ms t)) [
  | inl due ↦
      subst (λ r. Changes m r.0) (sym (sweep_over-due now_ms id t ts m out due))
        (both
          (write_over m.tasks id t _ _ f.0 (
            released_step t queued lease_expired t.submissions (overdue_expires now_ms t due)
              (λ q. cc)))
          (sweep_over-Change now_ms ts (lapsed id t m) _ d.1
            (lapsed-Found now_ms id t m ts d.0 f.1)))
  | inr fresh ↦
      subst (λ r. Changes m r.0) (sym (sweep_over-fresh now_ms id t ts m out fresh))
        (sweep_over-Change now_ms ts m out d.1 f.1)
]

pub sweep_expired_leases-Change :
    (now_ms : ℕ) (m : JobManager)
    → Distinct (keys m.tasks)
    → Changes m (sweep_expired_leases now_ms m).0
unfolding sweep_expired_leases
sweep_expired_leases-Change now_ms m d =
    sweep_over-Change now_ms m.tasks m [] d (Found-self m.tasks d)

cancelled_sibling-Change :
    (id : TaskId) (t : Task) (acc : JobManager × List Revocation)
    → lookup id acc.0.tasks ≡ some t
    → Changes acc.0 (cancelled_task id (apply id t TaskEvent.cancel acc.0) acc).0
cancelled_sibling-Change id t (m, out) e = elim (Result-cases (advance t.state TaskEvent.cancel)) [
  | inl (s, a) ↦
      subst (λ r. Changes m (cancelled_task id r (m, out)).0)
        (sym (apply-ok id t TaskEvent.cancel m s a))
        (unfold cancelled_task in
          write_over m.tasks id t _ _ e
            (released_step t s TaskEvent.cancel t.submissions a (λ q. cc)))
  | inr (x, a) ↦
      subst (λ r. Changes m (cancelled_task id r (m, out)).0)
        (sym (apply-err id t TaskEvent.cancel m x a)) (unfold cancelled_task in same)
]

cancel_entry-Change :
    (winner root id : TaskId) (acc : JobManager × List Revocation)
    → Changes acc.0 (cancel_entry winner root id (lookup id acc.0.tasks) acc).0
unfolding cancel_entry
cancel_entry-Change winner root id acc = elim (Option-cases (lookup id acc.0.tasks)) [
  | inl e ↦ rw e same
  | inr (t, e) ↦ elim (Bool-cases (is_live_sibling winner root id t)) [
    | inl live ↦ rw (e, live) (cancelled_sibling-Change id t acc e)
    | inr kept ↦ rw (e, kept) same
  ]
]

cancel_over-Change :
    (winner root : TaskId) (ids : List TaskId) (acc : JobManager × List Revocation)
    → Changes acc.0 (cancel_over winner root ids acc).0
unfolding cancel_over
cancel_over-Change winner root [] acc = same
cancel_over-Change winner root (id ∷ ids) acc =
    both (cancel_entry-Change winner root id acc)
      (cancel_over-Change winner root ids (cancel_entry winner root id (lookup id acc.0.tasks) acc))

-- The search for the family may fail, and then nothing changes.
cancel_siblings-Change :
    (id : TaskId) (t : Option Task) (m : JobManager) → Changes m (cancel_siblings id t m).0
unfolding cancel_siblings
cancel_siblings-Change id none m = same
cancel_siblings-Change id (some t) m = family (lookup t.job m.jobs)
  where
    family : (j : Option Job) → Changes m (cancel_family id t j m).0
    family none = unfold cancel_family in same
    family (some j) = unfold cancel_family in cancel_over-Change id (root_of id t) j.tasks (m, [])

pub cancel_siblings_of-Change :
    (id : TaskId) (m : JobManager) → Changes m (cancel_siblings_of id m).0
unfolding cancel_siblings_of
cancel_siblings_of-Change id m = cancel_siblings-Change id (lookup id m.tasks) m
