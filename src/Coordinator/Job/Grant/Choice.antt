-- ===== src/Coordinator/Job/Grant/Choice.antt =====
-- What `JobManager::Grant` (src/coordinator/job.cpp) promises of the task that it returns, and when it
-- must return one.
use mathlib.Core.Option.{some-injective}
use p2p_gpu.Base.{
  ℕ, zero, suc, ◌+◌, ◌≤◌, ◌<◌, ◌≡◌, refl, sym, ap, subst, ◌∙◌, ◌≢◌, inl, inr, Bool, true, false,
  not, ◌&&◌, ◌||◌, Option, none, some, List, [], ◌∷◌, arith, ◌==◌, if◌then◌else◌, ==_iff,
  Bool-cases, Option-cases, is_some, length, get_elem?, any_of, keep_if, range', nat_eq, contains,
  lookup,
}
use p2p_gpu.Protocol.Ids.{WorkerId, TaskId, JobId, id_eq, id_key}
use p2p_gpu.Protocol.Invariants.{check_replica_assignment}
use p2p_gpu.Coordinator.Job.{Task, Job, keyspace_exhausted, JobManager, deadline}
use p2p_gpu.Coordinator.Affinity.{AssetId, wants_cached, prefer_cached}
use p2p_gpu.Coordinator.TaskState.{queued, leased, TaskEvent}
use p2p_gpu.Coordinator.Job.Cases.{apply-ok}
use p2p_gpu.Coordinator.Job.Grant.{
  needs_of, is_not, scan_order, granted, try_task, try_entry, or_else, scan_queue, book,
  carve_piece_into, carve_job, carve_over, is_empty, carve_fresh, grant,
}
use p2p_gpu.Coordinator.Job.Grant.Carve.{Piece, carve_piece}
use p2p_gpu.Coordinator.Job.Grant.Scan.{
  queued_grants, is_fresh_for, try_entry_cases, scan_queue-cons,
}

any_of-contains : (ws : List WorkerId) (w : WorkerId) → any_of (λ v. id_eq v w) ws ≡ contains ws w
any_of-contains [] w = refl
any_of-contains (v ∷ ws) w = ap (λ b. id_eq v w || b) (any_of-contains ws w)

pub not_prior :
    (worker : WorkerId) (t : Task)
    → is_fresh_for worker t ≡ true
    → contains t.prior_workers worker ≡ false
unfolding check_replica_assignment
not_prior worker t fresh = ground (arith, any_of-contains t.prior_workers worker)

-- A lease that may be given.
abbrev pub IsLease : WorkerId → ℕ → Task → Type 0
IsLease worker expires t =
    (t.state ≡ leased)
    × (t.holder ≡ worker)
    × (t.lease_expires_at_ms ≡ expires)
    × (contains t.prior_workers worker ≡ false)

abbrev pub Leases : WorkerId → ℕ → Option Task → Type 0
Leases worker expires o = (t : Task) → o ≡ some t → IsLease worker expires t

module _ (worker : WorkerId) (expires : ℕ) where
  nothing : Leases worker expires none
  nothing t e = cc

  born-Leases : (t : Task) → IsLease worker expires t → Leases worker expires (some t)
  born-Leases t h u e = subst (IsLease worker expires) (some-injective t u e) h

  or_else-Leases :
      (r : JobManager × Option Task) (rest : JobManager → JobManager × Option Task)
      → Leases worker expires r.1
      → ((m : JobManager) → Leases worker expires (rest m).1)
      → Leases worker expires (or_else r rest).1
  or_else-Leases (m, some t) rest h k = h
  or_else-Leases (m, none) rest h k = k m

  branch-Leases :
      (b : Bool) (r s : JobManager × Option Task)
      → Leases worker expires r.1
      → Leases worker expires s.1
      → Leases worker expires (if b then r else s).1
  branch-Leases true r s h k = h
  branch-Leases false r s h k = k

  try_entry-Leases :
      (entry : Option TaskId) (index : ℕ) (m : JobManager)
      → Leases worker expires (try_entry entry index worker expires m).1
  try_entry-Leases entry index m =
      try_entry_cases (λ r. Leases worker expires r.1) entry index worker expires m nothing
        λ id t e q fresh. born-Leases _ (refl, refl, refl, not_prior worker t fresh)

  scan_queue-Leases :
      (order : List ℕ) (m : JobManager)
      → Leases worker expires (scan_queue order worker expires m).1
  scan_queue-Leases [] m = unfold scan_queue in nothing
  scan_queue-Leases (i ∷ order) m =
      subst (λ r. Leases worker expires r.1) (sym (scan_queue-cons i order worker expires m))
        (or_else-Leases (try_entry (get_elem? m.queue i) i worker expires m)
          (λ m'. scan_queue order worker expires m') (try_entry-Leases (get_elem? m.queue i) i m)
          (scan_queue-Leases order))

  carve_piece_into-Leases :
      (job_id : JobId) (j : Job) (p : Option Piece) (cached : List AssetId) (m : JobManager)
      → Leases worker expires (carve_piece_into job_id j p worker expires cached m).1
  unfolding carve_piece_into book
  carve_piece_into-Leases job_id j none cached m = nothing
  carve_piece_into-Leases job_id j (some p) cached m = born-Leases _ (refl, refl, refl, refl)

  carve_over-Leases :
      (pass : Bool) (js : List (JobId × Job)) (units : ℕ) (cached : List AssetId) (m : JobManager)
      → Leases worker expires (carve_over pass js worker expires units cached m).1
  unfolding carve_over carve_job
  carve_over-Leases pass [] units cached m = nothing
  carve_over-Leases pass ((job_id, j) ∷ js) units cached m =
      or_else-Leases (carve_job pass job_id j worker expires units cached m)
        (λ m'. carve_over pass js worker expires units cached m')
        (branch-Leases (pass && not (wants_cached j.input_ref cached) || keyspace_exhausted j)
          (m, none) _ nothing (carve_piece_into-Leases job_id j (carve_piece j units) cached m))
        (carve_over-Leases pass js units cached)

  carve_fresh-Leases :
      (units : ℕ) (cached : List AssetId) (m : JobManager)
      → Leases worker expires (carve_fresh worker expires units cached m).1
  unfolding carve_fresh
  carve_fresh-Leases units cached m =
      branch-Leases (units == 0) (m, none) (or_else first second) nothing
        (or_else-Leases first second
          (branch-Leases (is_empty cached) (m, none) _ nothing
            (carve_over-Leases true m.jobs units cached m))
          (λ m'. carve_over-Leases false m'.jobs units cached m'))
    where
      first : JobManager × Option Task
      first =
          if is_empty cached
          then (m, none)
          else carve_over true m.jobs worker expires units cached m

      second : JobManager → JobManager × Option Task
      second m' = carve_over false m'.jobs worker expires units cached m'

-- A task that `grant` returns is leased to the worker that asked, until the deadline, and the worker
-- is not among those that have computed it.
pub grant-IsLease :
    (worker : WorkerId) (now_ms lease_ms units : ℕ) (cached : List AssetId) (m : JobManager)
    (t : Task)
    → (grant worker now_ms lease_ms units cached m).1 ≡ some t
    → IsLease worker (deadline now_ms lease_ms) t
unfolding grant
grant-IsLease worker now_ms lease_ms units cached m =
    or_else-Leases worker (deadline now_ms lease_ms)
      (scan_queue order worker (deadline now_ms lease_ms) m)
      (λ m'. carve_fresh worker (deadline now_ms lease_ms) units cached m')
      (scan_queue-Leases worker (deadline now_ms lease_ms) order m)
      (carve_fresh-Leases worker (deadline now_ms lease_ms) units cached)
  where
    order : List ℕ
    order = scan_order (prefer_cached (needs_of m.queue m) cached) (length m.queue)

-- A round that hands nothing out leaves the state alone.
idle_round :
    (entry : Option TaskId) (index : ℕ) (worker : WorkerId) (expires : ℕ) (m : JobManager)
    → (try_entry entry index worker expires m).1 ≡ none
    → (try_entry entry index worker expires m).0 ≡ m
idle_round entry index worker expires m =
    try_entry_cases (λ r. r.1 ≡ none → r.0 ≡ m) entry index worker expires m (λ e. refl)
      λ id t e q fresh h. cc

-- The round at a queued task that the worker has not computed hands it out.
eager_round :
    (id : TaskId) (t : Task) (index : ℕ) (worker : WorkerId) (expires : ℕ) (m : JobManager)
    → lookup id m.tasks ≡ some t
    → t.state ≡ queued
    → is_fresh_for worker t ≡ true
    → is_some (try_entry (some id) index worker expires m).1 ≡ true
unfolding try_entry
eager_round id t index worker expires m e q fresh =
    rw (e, fresh, try_task)
      (subst (λ r. is_some (granted id index worker expires r m).1 ≡ true)
        (sym (apply-ok id t TaskEvent.grant m leased (queued_grants t.state q)))
        (unfold granted in refl))

off : false ≢ true
off e = cc

scan_finds :
    (id : TaskId) (t : Task) (i : ℕ) (order : List ℕ) (worker : WorkerId) (expires : ℕ)
    (m : JobManager)
    → get_elem? m.queue i ≡ some id
    → lookup id m.tasks ≡ some t
    → t.state ≡ queued
    → is_fresh_for worker t ≡ true
    → contains order i ≡ true
    → is_some (scan_queue order worker expires m).1 ≡ true
scan_finds id t i [] worker expires m g e q fresh h = absurd (off h)
scan_finds id t i (k ∷ order) worker expires m g e q fresh h =
    subst (λ r. is_some r.1 ≡ true) (sym (scan_queue-cons k order worker expires m))
      (elim (Option-cases (try_entry (get_elem? m.queue k) k worker expires m).1) [
        | inr (u, s) ↦ found _ _ u s
        | inl s ↦
            skipped _ _ s (idle_round (get_elem? m.queue k) k worker expires m s)
              (elim (Bool-cases (k == i)) [
                | inl hit ↦ absurd (
                    off (
                      sym (ap is_some s)
                      ∙ subst
                          (λ n.
                            is_some (try_entry (get_elem? m.queue n) n worker expires m).1 ≡ true)
                          (sym ((==_iff k i).0 hit))
                          (rw g (eager_round id t i worker expires m e q fresh))))
                | inr miss ↦ scan_finds id t i order worker expires m g e q fresh (ground arith)
              ])
      ])
  where
    found :
        (r : JobManager × Option Task) (rest : JobManager → JobManager × Option Task) (u : Task)
        → r.1 ≡ some u
        → is_some (or_else r rest).1 ≡ true
    found (m', some v) rest u s = refl
    found (m', none) rest u s = cc

    skipped :
        (r : JobManager × Option Task) (rest : JobManager → JobManager × Option Task)
        → r.1 ≡ none
        → r.0 ≡ m
        → is_some (rest m).1 ≡ true
        → is_some (or_else r rest).1 ≡ true
    skipped (m', some v) rest s k h = cc
    skipped (m', none) rest s k h = subst (λ n. is_some (rest n).1 ≡ true) (sym k) h

contains-range' : (n a i : ℕ) → a ≤ i → i < a + n → contains (range' a n) i ≡ true
contains-range' zero a i lo hi = absurd (omega arith)
contains-range' (suc n) a i lo hi = elim (Bool-cases (a == i)) [
  | inl hit ↦ rw hit refl
  | inr miss ↦ rw miss (contains-range' n (suc a) i (grind (arith, ==_iff a i)) (omega arith))
]

contains-keep_if :
    (p i : ℕ) (is : List ℕ)
    → (p == i) ≡ false
    → contains is i ≡ true
    → contains (keep_if (is_not p) is) i ≡ true
contains-keep_if p i [] d h = h
contains-keep_if p i (k ∷ is) d h = ground (arith, contains-keep_if p i is d)

scan_order-all :
    (preferred : Option ℕ) (n i : ℕ) → i < n → contains (scan_order preferred n) i ≡ true
unfolding scan_order
scan_order-all none n i h = contains-range' n 0 i (omega arith) (omega arith)
scan_order-all (some p) n i h = elim (Bool-cases (p == i)) [
  | inl hit ↦ rw hit refl
  | inr miss ↦
      rw miss
        (contains-keep_if p i (range' 0 n) miss (contains-range' n 0 i (omega arith) (omega arith)))
]

get_elem?-lt : {A : Type 0} (xs : List A) (i : ℕ) (a : A) → get_elem? xs i ≡ some a → i < length xs
get_elem?-lt [] i a e = cc
get_elem?-lt (x ∷ xs) zero a e = omega arith
get_elem?-lt (x ∷ xs) (suc i) a e = grind (arith, get_elem?-lt xs i a e)

fresh_of_not_prior :
    (worker : WorkerId) (t : Task)
    → contains t.prior_workers worker ≡ false
    → is_fresh_for worker t ≡ true
unfolding check_replica_assignment
fresh_of_not_prior worker t h = ground (arith, any_of-contains t.prior_workers worker)

keeps_found :
    (r : JobManager × Option Task) (rest : JobManager → JobManager × Option Task)
    → is_some r.1 ≡ true
    → is_some (or_else r rest).1 ≡ true
keeps_found (m, some t) rest h = refl
keeps_found (m, none) rest h = cc

-- While a task waits in the queue that the worker has not computed, a worker that asks is given a
-- task, whatever it has cached and however few units it asks for.
pub grant_progress :
    (worker : WorkerId) (now_ms lease_ms units : ℕ) (cached : List AssetId) (m : JobManager) (i : ℕ)
    (id : TaskId) (t : Task)
    → get_elem? m.queue i ≡ some id
    → lookup id m.tasks ≡ some t
    → t.state ≡ queued
    → contains t.prior_workers worker ≡ false
    → is_some (grant worker now_ms lease_ms units cached m).1 ≡ true
unfolding grant
grant_progress worker now_ms lease_ms units cached m i id t g e q h =
    keeps_found (scan_queue order worker (deadline now_ms lease_ms) m) _ (
      scan_finds id t i order worker (deadline now_ms lease_ms) m g e q
        (fresh_of_not_prior worker t h)
        (scan_order-all (prefer_cached (needs_of m.queue m) cached) (length m.queue) i
          (get_elem?-lt m.queue i id g)))
  where
    order : List ℕ
    order = scan_order (prefer_cached (needs_of m.queue m) cached) (length m.queue)
