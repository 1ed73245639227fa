-- ===== src/Coordinator/Session/Returning.antt =====
-- What a worker may do with a lease through the messages `Release` and `Progress`
-- (src/coordinator/session.cpp).
use mathlib.Core.Option.{some-injective}
use p2p_gpu.Base.{
  ◌≡◌, refl, sym, ap, subst, ◌∙◌, ◌⊎◌, inl, inr, true, false, some, lookup, AllEntries-lookup,
}
use p2p_gpu.Protocol.Ids.{WorkerId, TaskId, nil, id_key}
use p2p_gpu.Protocol.Errors.{lease_not_held, ok}
use p2p_gpu.Coordinator.TaskState.{queued, leased, TaskEvent, advance}
use p2p_gpu.Coordinator.Job.{
  Task, JobManager, M, and_then, modify, put_task, push_queue, apply, without_lease, deadline,
}
use p2p_gpu.Coordinator.Job.Lease.{requeue}
use p2p_gpu.Coordinator.Job.Cases.{moved, apply-ok}
use p2p_gpu.Coordinator.Job.Calls.Runs.{IsValid}
use p2p_gpu.Coordinator.Job.Authority.{holds, check_lease_lem, holder_task, renew_lease_lem}
use p2p_gpu.Coordinator.Session.{State, with_jobs, renewed, on_progress, requeued, on_release}
use p2p_gpu.Coordinator.Session.Messages.{silence, non_fatal}
use p2p_gpu.Coordinator.Job.Changes.{IsEntry}

-- A leased task goes back to the end of the queue without a holder.
abbrev pub given_back : TaskId → Task → JobManager → JobManager
given_back id t m = push_queue id (
    put_task id (record t { state = queued; holder = nil; lease_expires_at_ms = 0 })
      (moved id t queued m))

requeue-leased :
    (id : TaskId) (t : Task) (m : JobManager)
    → lookup id m.tasks ≡ some t
    → t.state ≡ leased
    → t.id ≡ id
    → requeue id TaskEvent.release m ≡ (given_back id t m, ok tt)
unfolding requeue apply
requeue-leased id t m e q own =
    subst
      (λ i.
        requeue id TaskEvent.release m
        ≡ (push_queue i (put_task id back (moved id t queued m)), ok tt))
      own (found ∙ ap (λ r. and_then r put_back) (apply-ok id t TaskEvent.release m queued moves))
  where
    back : Task
    back = record t { state = queued; holder = nil; lease_expires_at_ms = 0 }

    put_back : Task → M (Unit {0})
    put_back u = modify λ n. push_queue u.id (put_task id (without_lease u) n)

    moves : advance t.state TaskEvent.release ≡ ok queued
    moves = unfold advance in rw q refl

    found : requeue id TaskEvent.release m ≡ and_then (apply id t TaskEvent.release m) put_back
    found = unfold requeue apply in rw e refl

module _ {D : Type 0} (id : TaskId) (s : State D) where
  -- The two answers to a `Release`, and to a `Progress` that asks for a renewal.
  abbrev pub IsOwn : Type 0
  IsOwn =
      ((holds s.session.worker_id id s.shared.jobs ≡ true)
        × (t : Task) × (lookup id s.shared.jobs.tasks ≡ some t)
        × (on_release (some id) s ≡ (with_jobs (given_back id t s.shared.jobs) s, silence))
        × (on_progress (some id) true s ≡ (
          with_jobs
              (put_task id
                (record t {
                  state = leased;
                  lease_expires_at_ms = deadline s.session.now_ms s.session.lease_ms;
                })
                (moved id t leased s.shared.jobs))
              s,
          silence,
        )))
      ⊎ ((holds s.session.worker_id id s.shared.jobs ≡ false)
          × (on_release (some id) s ≡ (s, non_fatal lease_not_held "no lease on that task"))
          × (on_progress (some id) true s ≡ (s, non_fatal lease_not_held "no lease on that task")))

  -- In a valid manager a connection can give a task back, or have its lease renewed, when its worker holds
  -- the lease, and not otherwise. With the lease, a `Release` puts the task at the end of the queue without
  -- a holder, and a `Progress` that asks for it writes the new deadline; both mark the task as changed,
  -- touch nothing else and are answered with silence. Without the lease both change nothing, and the
  -- answer is LeaseNotHeld.
  pub on_release-IsOwn : IsValid s.shared.jobs → IsOwn
  unfolding on_release on_progress
  on_release-IsOwn v = elim (renew_lease_lem worker id m s.session.now_ms s.session.lease_ms v) [
    | inr (h, (x, untouched, code)) ↦
        let (y, refused, _) = (check_lease_lem worker id m v).1 h in
        inr (h, rw refused refl, ap (λ r. renewed r s) untouched)
    | inl (h, t, e, renews) ↦
        let (u, e', is_leased) = holder_task worker id m h in
        let same_task : u ≡ t = some-injective u t (sym e' ∙ e) in
        let own = (AllEntries-lookup IsEntry id m.tasks t v.entries e).0 in
        let back =
          requeue-leased id t m e (subst (λ (x : Task). x.state ≡ leased) same_task is_leased)
            own in
        inl (
          h,
          t,
          e,
          rw ((check_lease_lem worker id m v).0 h) (ap (λ r. requeued r s) back),
          ap (λ r. renewed r s) renews,
        )
  ]
    where
      worker : WorkerId
      worker = s.session.worker_id

      m : JobManager
      m = s.shared.jobs
