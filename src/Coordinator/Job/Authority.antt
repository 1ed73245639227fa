-- ===== src/Coordinator/Job/Authority.antt =====
-- Who may act on a task (`JobManager::CheckLease`, src/coordinator/job.cpp), and what the three
-- operations that ask it do on each branch.
use p2p_gpu.Base.{
  ℕ, ◌≡◌, refl, sym, ap, subst, ◌∙◌, ◌≢◌, ◌⊎◌, inl, inr, Bool, true, false, Option, none, some,
  List, [], ◌∷◌, ◌++◌, arith, Bool-cases, Option-cases, lookup, insert, lookup-insert_self,
  AllEntries-lookup,
}
use p2p_gpu.Protocol.Ids.{WorkerId, TaskId, nil, id_eq_iff, id_key}
use p2p_gpu.Protocol.Errors.{
  ErrorCode, lease_not_held, internal, Error, make_error, Result, ok, err, Status, fail_if,
}
use p2p_gpu.Protocol.Invariants.{check_lease_held}
use p2p_gpu.Coordinator.Job.{
  Task, PartialResult, JobManager, M, and_then, ◌>>=◌, modify, put_task, apply, deadline,
}
use p2p_gpu.Coordinator.Job.Queries.{is_held_by}
use p2p_gpu.Coordinator.Job.Lease.{
  check_only, lease_status, check_lease, authorize, the_task, submit, renew_lease, is_stale,
  record_partial,
}
use p2p_gpu.Coordinator.Job.Changes.{IsEntry}
use p2p_gpu.Coordinator.Job.Calls.Runs.{IsValid}
use p2p_gpu.Coordinator.TaskState.{TaskState, leased, validating, TaskEvent, renew, advance}
use p2p_gpu.Coordinator.Job.Cases.{moved, apply-ok}

abbrev pub holds_entry : WorkerId → Option Task → Bool
holds_entry worker none = false
holds_entry worker (some t) = is_held_by worker t

-- Does the worker hold the lease on the task?
abbrev pub holds : WorkerId → TaskId → JobManager → Bool
holds worker id m = holds_entry worker (lookup id m.tasks)

abbrev pub IsRefused : {A : Type 0} → ErrorCode → JobManager → JobManager × Result A → Type 0
IsRefused code m r = (x : Error) × (r ≡ (m, err x)) × (x.code ≡ code)

module _ (worker : WorkerId) (id : TaskId) (m : JobManager) where
  -- The lease check passes exactly when the worker holds the lease on the task, and otherwise it
  -- answers LeaseNotHeld.
  pub check_lease_lem :
      IsValid m
      → (holds worker id m ≡ true → check_lease worker id m ≡ ok tt)
        × (holds worker id m ≡ false
            → (x : Error) × (check_lease worker id m ≡ err x) × (x.code ≡ lease_not_held))
  unfolding check_lease lease_status
  check_lease_lem v = elim (Option-cases (lookup id m.tasks)) [
    | inl e ↦ rw (e, lease_status) (λ h. cc, λ h. (_, refl, refl))
    | inr (t, e) ↦ elim (Bool-cases (is_held_by worker t)) [
      | inl held ↦
          let own = (AllEntries-lookup IsEntry id m.tasks t v.entries e).0 in
          rw (e, held, lease_status) (λ h. own_lease t own, λ h. cc)
      | inr other ↦ rw (e, other, lease_status) (λ h. cc, λ h. (_, refl, refl))
    ]
  ]
    where
      own_lease : (t : Task) → t.id ≡ id → check_lease_held (t.id ∷ []) id ≡ ok tt
      own_lease t own = unfold check_lease_held in ground (arith, id_eq_iff t.id id)

  refused :
      {B : Type 0} (k : Unit {0} → M B)
      → IsValid m
      → holds worker id m ≡ false
      → IsRefused lease_not_held m (and_then (authorize worker id m) k)
  unfolding check_lease
  refused k v h = let (x, e, c) = (check_lease_lem v).1 h in (x, ap (λ s. and_then (m, s) k) e, c)

  pub holder_task :
      holds worker id m ≡ true → (t : Task) × (lookup id m.tasks ≡ some t) × (t.state ≡ leased)
  holder_task h = elim (Option-cases (lookup id m.tasks)) [
    | inl e ↦ absurd (nobody (subst (λ o. holds_entry worker o ≡ true) e h))
    | inr (t, e) ↦ (t, e, held_leased t (subst (λ o. holds_entry worker o ≡ true) e h))
  ]
    where
      nobody : false ≢ true
      nobody e = cc

      held_leased : (t : Task) → is_held_by worker t ≡ true → t.state ≡ leased
      held_leased t h = unfold is_held_by in ground arith

  -- With the lease in hand, the check passes, the task is found, and the transition is made.
  carried_out :
      (ev : TaskEvent) (s : TaskState) (after : Task → M (Unit {0})) (t : Task)
      → IsValid m
      → holds worker id m ≡ true
      → lookup id m.tasks ≡ some t
      → t.state ≡ leased
      → advance leased ev ≡ ok s
      → and_then (authorize worker id m) (λ _. the_task id >>= λ t. apply id t ev >>= after)
        ≡ after (record t { state = s }) (moved id t s m)
  unfolding check_lease apply
  carried_out ev s after t v h e q a =
      ap (λ r. and_then (m, r) (λ _. the_task id >>= λ t. apply id t ev >>= after))
        ((check_lease_lem v).0 h)
      ∙ found
      ∙ ap (λ r. and_then r after) (apply-ok id t ev m s (ap (λ x. advance x ev) q ∙ a))
    where
      found :
          and_then (the_task id m) (λ t. apply id t ev >>= after) ≡ and_then (apply id t ev m) after
      found = unfold apply in rw e refl

  -- In a valid manager a result is accepted from a worker that holds the lease, and from no other:
  -- with the lease the call succeeds, the task goes to validation without a holder and the worker
  -- enters its record; without it nothing changes and the answer is LeaseNotHeld.
  pub submit_lem :
      IsValid m
      → ((holds worker id m ≡ true)
          × (t : Task) × (lookup id m.tasks ≡ some t)
          × (submit worker id m ≡ (
            put_task id
                (record t {
                  state = validating;
                  prior_workers = t.prior_workers ++ worker ∷ [];
                  holder = nil;
                })
                (moved id t validating m),
            ok tt,
          )))
        ⊎ ((holds worker id m ≡ false) × IsRefused lease_not_held m (submit worker id m))
  unfolding submit
  submit_lem v = elim (Bool-cases (holds worker id m)) [
    | inl h ↦
        let (t, e, q) = holder_task h in
        inl (h, t, e, carried_out TaskEvent.submit validating _ t v h e q (unfold advance in refl))
    | inr h ↦ inr (h, refused _ v h)
  ]

  renewed :
      (now_ms lease_ms : ℕ)
      → IsValid m
      → holds worker id m ≡ true
      → (t : Task) × (lookup id m.tasks ≡ some t)
        × (renew_lease worker id now_ms lease_ms m ≡ (
          put_task id
              (record t { state = leased; lease_expires_at_ms = deadline now_ms lease_ms })
              (moved id t leased m),
          ok tt,
        ))
  unfolding renew_lease
  renewed now_ms lease_ms v h =
      let (t, e, q) = holder_task h in
      (t, e, carried_out renew leased _ t v h e q (unfold advance in refl))

  -- In a valid manager a lease is renewed for the worker that holds it, and for no other: with the
  -- lease the call succeeds and writes the new deadline; without it nothing changes and the answer is
  -- LeaseNotHeld.
  pub renew_lease_lem :
      (now_ms lease_ms : ℕ)
      → IsValid m
      → ((holds worker id m ≡ true)
          × (t : Task) × (lookup id m.tasks ≡ some t)
          × (renew_lease worker id now_ms lease_ms m ≡ (
            put_task id
                (record t { state = leased; lease_expires_at_ms = deadline now_ms lease_ms })
                (moved id t leased m),
            ok tt,
          )))
        ⊎ ((holds worker id m ≡ false)
            × IsRefused lease_not_held m (renew_lease worker id now_ms lease_ms m))
  unfolding renew_lease
  renew_lease_lem now_ms lease_ms v = elim (Bool-cases (holds worker id m)) [
    | inl h ↦ let (t, e, q) = renewed now_ms lease_ms v h in inl (h, t, e, q)
    | inr h ↦ inr (h, refused _ v h)
  ]

  passes :
      {B : Type 0} (k : Unit {0} → M B)
      → IsValid m
      → holds worker id m ≡ true
      → and_then (authorize worker id m) k ≡ k tt m
  unfolding check_lease
  passes k v h = ap (λ s. and_then (m, s) k) ((check_lease_lem v).0 h)

  open_gate :
      {B : Type 0} (b : Bool) (x : Error) (k : Unit {0} → M B)
      → b ≡ false
      → and_then (check_only (fail_if b x) m) k ≡ k tt m
  open_gate b x k e = ap (λ c. and_then (check_only (fail_if c x) m) k) e

  shut_gate :
      {B : Type 0} (b : Bool) (x : Error) (k : Unit {0} → M B)
      → b ≡ true
      → and_then (check_only (fail_if b x) m) k ≡ (m, err x)
  shut_gate b x k e = ap (λ c. and_then (check_only (fail_if c x) m) k) e

  -- In a valid manager a partial result counts when the worker holds the lease and its sequence
  -- number is above that of the one on record. Then the call succeeds, it is on record afterwards with
  -- its worker, number, units, payload and time while those of other tasks stay, and the tasks are
  -- those after a renewal of the lease. With the lease but an old number nothing changes and the
  -- call fails; without the lease nothing changes and the answer is LeaseNotHeld.
  pub record_partial_lem :
      (sequence units_done : ℕ) (payload : List ℕ) (now_ms lease_ms : ℕ)
      → IsValid m
      → ((holds worker id m ≡ true)
          × (is_stale sequence (lookup id m.partials) ≡ false)
          × ((record_partial worker id sequence units_done payload now_ms lease_ms m).0.partials
              ≡ insert id
                  (record {
                    worker = worker;
                    sequence = sequence;
                    units_done = units_done;
                    payload = payload;
                    received_at_ms = now_ms;
                  })
                  m.partials)
          × (lookup id
                (record_partial worker id sequence units_done payload now_ms lease_ms m).0.partials
              ≡ some (record {
                worker = worker;
                sequence = sequence;
                units_done = units_done;
                payload = payload;
                received_at_ms = now_ms;
              }))
          × ((record_partial worker id sequence units_done payload now_ms lease_ms m).0.tasks
              ≡ (renew_lease worker id now_ms lease_ms m).0.tasks)
          × ((record_partial worker id sequence units_done payload now_ms lease_ms m).1 ≡ ok tt))
        ⊎ ((holds worker id m ≡ true)
            × (is_stale sequence (lookup id m.partials) ≡ true)
            × IsRefused internal m
                (record_partial worker id sequence units_done payload now_ms lease_ms m))
        ⊎ ((holds worker id m ≡ false)
            × IsRefused lease_not_held m
                (record_partial worker id sequence units_done payload now_ms lease_ms m))
  unfolding record_partial
  record_partial_lem sequence units_done payload now_ms lease_ms v =
      elim (Bool-cases (holds worker id m)) [
        | inr h ↦ inr (inr (h, refused _ v h))
        | inl h ↦ elim (Bool-cases (is_stale sequence (lookup id m.partials))) [
          | inl stale ↦
              inr (inl (h, stale, (not_newer, passes _ v h ∙ shut_gate _ _ _ stale, refl)))
          | inr fresh ↦
              let (t, e, q) = renewed now_ms lease_ms v h in
              let (stored_at, at, rest, passed) =
                subst Stored
                  (sym (passes _ v h ∙ open_gate _ _ _ fresh ∙ ap (λ r. and_then r stored) q))
                  (
                    refl,
                    lookup-insert_self id newest m.partials,
                    sym (ap (λ r. r.0.tasks) q),
                    refl,
                  ) in
              inl (h, fresh, stored_at, at, rest, passed)
        ]
      ]
    where
      not_newer : Error
      not_newer = make_error internal "partial result is not newer than the one held"

      newest : PartialResult
      newest = record {
        worker = worker;
        sequence = sequence;
        units_done = units_done;
        payload = payload;
        received_at_ms = now_ms;
      }

      stored : Unit {0} → M (Unit {0})
      stored _ = modify λ n. record n { partials = insert id newest n.partials }

      Stored : JobManager × Status → Type 0
      Stored r =
          (r.0.partials ≡ insert id newest m.partials)
          × (lookup id r.0.partials ≡ some newest)
          × (r.0.tasks ≡ (renew_lease worker id now_ms lease_ms m).0.tasks)
          × (r.1 ≡ ok tt)
