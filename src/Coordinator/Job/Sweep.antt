-- ===== src/Coordinator/Job/Sweep.antt =====
-- The expiry sweep (src/coordinator/job.cpp, `SweepExpiredLeases`): what one round does, and what the
-- loop over the table comes to.
use mathlib.Core.Option
use mathlib.Core.List.{append-nil, append_assoc}
use p2p_gpu.Base.{
  ℕ, ◌≡◌, refl, sym, ap, subst, ◌∙◌, inl, inr, true, false, Option, some, List, [], ◌∷◌, ◌++◌,
  arith, if◌then◌else◌, Bool-cases, contains, lookup, lookup-insert, keys, Distinct, Found,
  insert-Found, Found-self, lookup-none_of_keys,
}
use p2p_gpu.Coordinator.Job.{Task, JobManager, put_task, push_queue, without_lease}
use p2p_gpu.Protocol.Ids.{TaskId, id_eq_iff, id_key}
use p2p_gpu.Protocol.Errors.{ok}
use p2p_gpu.Coordinator.TaskState.{TaskState, queued, leased, lease_expired, advance}
use p2p_gpu.Coordinator.Job.Lease.{
  Expiry, is_overdue, swept, sweep_entry, sweep_over, sweep_expired_leases,
}
use p2p_gpu.Coordinator.Job.Cases.{moved, apply-ok}
use p2p_gpu.Coordinator.Job.Changes.{Tasks}

-- The task that a lapsed lease leaves behind.
abbrev pub expired_task : Task → Task
expired_task t = record (without_lease t) { state = queued }

abbrev pub expiry_of : TaskId → Task → Expiry
expiry_of id t = record { task = id; holder = t.holder; unit_count = t.unit_count }

-- The manager after a round on an entry whose lease has lapsed.
abbrev pub lapsed : TaskId → Task → JobManager → JobManager
lapsed id t m = push_queue id (put_task id (expired_task t) (moved id t queued m))

overdue_leased : (now_ms : ℕ) (t : Task) → is_overdue now_ms t ≡ true → t.state ≡ leased
unfolding is_overdue
overdue_leased now_ms t h = ground arith

expires : (s : TaskState) → s ≡ leased → advance s lease_expired ≡ ok queued
unfolding advance
expires s e = ground arith

pub sweep_entry-due :
    (now_ms : ℕ) (id : TaskId) (t : Task) (m : JobManager) (out : List Expiry)
    → is_overdue now_ms t ≡ true
    → sweep_entry now_ms id t (m, out) ≡ (lapsed id t m, out ++ expiry_of id t ∷ [])
unfolding sweep_entry
sweep_entry-due now_ms id t m out due =
    rw (due, sweep_entry)
      (subst (λ r. swept id r (m, out) ≡ (lapsed id t m, out ++ expiry_of id t ∷ []))
        (sym (apply-ok id t lease_expired m queued (expires t.state (overdue_leased now_ms t due))))
        refl)

pub sweep_entry-fresh :
    (now_ms : ℕ) (id : TaskId) (t : Task) (m : JobManager) (out : List Expiry)
    → is_overdue now_ms t ≡ false
    → sweep_entry now_ms id t (m, out) ≡ (m, out)
unfolding sweep_entry
sweep_entry-fresh now_ms id t m out fresh = rw (fresh, sweep_entry)

module _ (now_ms : ℕ) (id : TaskId) (t : Task) (ts : Tasks) (m : JobManager)
    (out : List Expiry) where
  pub sweep_over-due :
      is_overdue now_ms t ≡ true
      → sweep_over now_ms ((id, t) ∷ ts) (m, out)
        ≡ sweep_over now_ms ts (lapsed id t m, out ++ expiry_of id t ∷ [])
  unfolding sweep_over
  sweep_over-due due = ap (sweep_over now_ms ts) (sweep_entry-due now_ms id t m out due)

  pub sweep_over-fresh :
      is_overdue now_ms t ≡ false
      → sweep_over now_ms ((id, t) ∷ ts) (m, out) ≡ sweep_over now_ms ts (m, out)
  unfolding sweep_over
  sweep_over-fresh fresh = ap (sweep_over now_ms ts) (sweep_entry-fresh now_ms id t m out fresh)

-- The sweep as a map over the entries, and the identifiers of those that have lapsed.
abbrev pub swept_task : ℕ → Task → Task
swept_task now_ms t = if is_overdue now_ms t then expired_task t else t

unfoldable pub overdue_in : ℕ → Tasks → List TaskId
overdue_in now_ms [] = []
overdue_in now_ms ((id, t) ∷ ts) =
    if is_overdue now_ms t then id ∷ overdue_in now_ms ts else overdue_in now_ms ts

module _ (now_ms : ℕ) where
  sweep_over-nil : (acc : JobManager × List Expiry) → sweep_over now_ms [] acc ≡ acc
  unfolding sweep_over
  sweep_over-nil acc = refl

  pub lapsed-Found :
      (id : TaskId) (t : Task) (m : JobManager) (ts : Tasks)
      → contains (keys ts) id ≡ false
      → Found m.tasks ts
      → Found (lapsed id t m).tasks ts
  lapsed-Found id t m ts h f = insert-Found id _ _ ts h (insert-Found id _ m.tasks ts h f)

  -- The queue gains the lapsed tasks in table order.
  pub sweep_over-queue :
      (ts : Tasks) (m : JobManager) (out : List Expiry)
      → (sweep_over now_ms ts (m, out)).0.queue ≡ m.queue ++ overdue_in now_ms ts
  unfolding overdue_in
  sweep_over-queue [] m out = rw (sweep_over-nil (m, out), append-nil)
  sweep_over-queue ((id, t) ∷ ts) m out = elim (Bool-cases (is_overdue now_ms t)) [
    | inl due ↦
        rw (sweep_over-due now_ms id t ts m out due, due)
          (sweep_over-queue ts (lapsed id t m) _ ∙ append_assoc m.queue (id ∷ []) _)
    | inr fresh ↦
        rw (sweep_over-fresh now_ms id t ts m out fresh, fresh) (sweep_over-queue ts m out)
  ]

  abbrev outcome : Tasks → JobManager → TaskId → Option Task
  outcome ts m id =
      if contains (keys ts) id
      then Option.map (swept_task now_ms) (lookup id m.tasks)
      else lookup id m.tasks

  outcome-due :
      (id k : TaskId) (t : Task) (ts : Tasks) (m : JobManager)
      → is_overdue now_ms t ≡ true
      → contains (keys ts) k ≡ false
      → lookup k m.tasks ≡ some t
      → outcome ts (lapsed k t m) id ≡ outcome ((k, t) ∷ ts) m id
  outcome-due id k t ts m due h e =
      rw (lookup-insert k id (expired_task t) (moved k t queued m).tasks) (
        rw (lookup-insert k id (record t { state = queued }) m.tasks)
          (ground (arith, id_eq_iff k id)))

  outcome-fresh :
      (id k : TaskId) (t : Task) (ts : Tasks) (m : JobManager)
      → is_overdue now_ms t ≡ false
      → contains (keys ts) k ≡ false
      → lookup k m.tasks ≡ some t
      → outcome ts m id ≡ outcome ((k, t) ∷ ts) m id
  outcome-fresh id k t ts m fresh h e = ground (arith, id_eq_iff k id)

  -- Every task that was there is there, lapsed if its deadline has come and otherwise as it was.
  pub sweep_over-lookup :
      (ts : Tasks) (m : JobManager) (out : List Expiry) (id : TaskId)
      → Distinct (keys ts)
      → Found m.tasks ts
      → lookup id (sweep_over now_ms ts (m, out)).0.tasks ≡ outcome ts m id
  sweep_over-lookup [] m out id d f = rw (sweep_over-nil (m, out))
  sweep_over-lookup ((k, t) ∷ ts) m out id d f = elim (Bool-cases (is_overdue now_ms t)) [
    | inl due ↦
        ap (λ r. lookup id r.0.tasks) (sweep_over-due now_ms k t ts m out due)
        ∙ sweep_over-lookup ts (lapsed k t m) (out ++ expiry_of k t ∷ []) id d.1
            (lapsed-Found k t m ts d.0 f.1)
        ∙ outcome-due id k t ts m due d.0 f.0
    | inr fresh ↦
        ap (λ r. lookup id r.0.tasks) (sweep_over-fresh now_ms k t ts m out fresh)
        ∙ sweep_over-lookup ts m out id d.1 f.1
        ∙ outcome-fresh id k t ts m fresh d.0 f.0
  ]

  unfoldable pub expiries : Tasks → List Expiry
  expiries [] = []
  expiries ((id, t) ∷ ts) =
      if is_overdue now_ms t then expiry_of id t ∷ expiries ts else expiries ts

  sweep_over-expiries :
      (ts : Tasks) (m : JobManager) (out : List Expiry)
      → (sweep_over now_ms ts (m, out)).1 ≡ out ++ expiries ts
  unfolding expiries
  sweep_over-expiries [] m out = rw (sweep_over-nil (m, out), append-nil)
  sweep_over-expiries ((id, t) ∷ ts) m out = elim (Bool-cases (is_overdue now_ms t)) [
    | inl due ↦
        rw (sweep_over-due now_ms id t ts m out due, due)
          (sweep_over-expiries ts (lapsed id t m) _ ∙ append_assoc out (expiry_of id t ∷ []) _)
    | inr fresh ↦
        rw (sweep_over-fresh now_ms id t ts m out fresh, fresh) (sweep_over-expiries ts m out)
  ]

  -- The sweep returns exactly the leased tasks whose deadline has come to the queue, in table order and
  -- with a report for each, and it leaves every other task as it was.
  pub sweep_expired_leases_lem :
      (m : JobManager)
      → Distinct (keys m.tasks)
      → let (m', out) = sweep_expired_leases now_ms m in
        ((id : TaskId) → lookup id m'.tasks ≡ Option.map (swept_task now_ms) (lookup id m.tasks))
        × (m'.queue ≡ m.queue ++ overdue_in now_ms m.tasks)
        × (out ≡ expiries m.tasks)
  unfolding sweep_expired_leases
  sweep_expired_leases_lem m d = (
    λ id.
        sweep_over-lookup m.tasks m [] id d (Found-self m.tasks d)
        ∙ ground (arith, lookup-none_of_keys id m.tasks),
    sweep_over-queue m.tasks m [],
    sweep_over-expiries m.tasks m [],
  )
