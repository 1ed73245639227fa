-- ===== src/Coordinator/Job/Changes/Granting.antt =====
-- Granting, carving, speculation and known ranges are changes of the table: a queued task is granted
-- again, or a task is born leased.
use p2p_gpu.Base.{
  ℕ, ◌≡◌, refl, sym, subst, inl, inr, Bool, true, false, not, ◌&&◌, ◌||◌, Option, none, some, List,
  [], ◌∷◌, arith, ◌==◌, if◌then◌else◌, Bool-cases, length, get_elem?, lookup, insert, emplace,
}
use p2p_gpu.Coordinator.Job.{
  Task, Job, keyspace_exhausted, JobManager, mark_task_dirty, mark_job_dirty, deadline, bump_id,
  minted,
}
use p2p_gpu.Protocol.Ids.{WorkerId, TaskId, JobId, nil, id_key}
use p2p_gpu.Protocol.Errors.{ok}
use p2p_gpu.Coordinator.TaskState.{TaskState, leased, TaskEvent, advance}
use p2p_gpu.Coordinator.Job.Changes.{TaskStep, Change, same, birth, both, write_over, judged_born}
use p2p_gpu.Coordinator.Job.Changes.Single.{Changes}
use p2p_gpu.Coordinator.TaskState.Proofs.{here, step}
use p2p_gpu.Coordinator.Job.Grant.{
  needs_of, scan_order, try_entry, or_else, scan_queue, born, count_grant, book, carve_piece_into,
  carve_job, carve_over, is_empty, carve_fresh, grant,
}
use p2p_gpu.Coordinator.Job.Grant.Scan.{queued_grants, try_entry_cases, scan_queue-cons}
use p2p_gpu.Coordinator.Affinity.{AssetId, wants_cached, prefer_cached}
use p2p_gpu.Coordinator.Job.Grant.Carve.{Piece, carve_piece, booked}
use p2p_gpu.Coordinator.Job.Speculate.{
  may_race, issue_replica_of, race_task, or_next, race_over, too_early, speculate_over,
  issue_speculative, first_owner, known_range_in, issue_known_range,
}

-- A task that is granted again.
granted_step :
    (t : Task) (u : TaskState) (worker : WorkerId) (expires : ℕ)
    → advance t.state TaskEvent.grant ≡ ok u
    → TaskStep t (record t { state = u; holder = worker; lease_expires_at_ms = expires })
granted_step t u worker expires e = record {
  moves = step u TaskEvent.grant e here;
  same_id = refl;
  same_job = refl;
  same_start = refl;
  same_count = refl;
  same_origin = refl;
  recorded = λ w h. h;
  sound = λ s. record {
    unheld = λ n. absurd (n (grants_lease t.state u e));
    credited = λ j. absurd (judged_born u (grants_lease t.state u e) j);
  };
}
  where
    grants_lease : (s v : TaskState) → advance s TaskEvent.grant ≡ ok v → v ≡ leased
    grants_lease s v q = unfold advance in ground arith

abbrev Gives : JobManager → JobManager × Option Task → Type 0
Gives m r = Changes m r.0

try_entry-Change :
    (entry : Option TaskId) (index : ℕ) (worker : WorkerId) (expires : ℕ) (m : JobManager)
    → Gives m (try_entry entry index worker expires m)
try_entry-Change entry index worker expires m =
    try_entry_cases (Gives m) entry index worker expires m same λ id t e q fresh.
      write_over m.tasks id t _ _ e (granted_step t leased worker expires (queued_grants t.state q))

or_else-Change :
    (m : JobManager) (r : JobManager × Option Task) (rest : JobManager → JobManager × Option Task)
    → Gives m r
    → ((m' : JobManager) → Gives m' (rest m'))
    → Gives m (or_else r rest)
or_else-Change m (m', some t) rest c d = c
or_else-Change m (m', none) rest c d = both c (d m')

scan_queue-Change :
    (order : List ℕ) (worker : WorkerId) (expires : ℕ) (m : JobManager)
    → Gives m (scan_queue order worker expires m)
scan_queue-Change [] worker expires m = unfold scan_queue in same
scan_queue-Change (i ∷ order) worker expires m =
    subst (Gives m) (sym (scan_queue-cons i order worker expires m)) (
      or_else-Change m (try_entry (get_elem? m.queue i) i worker expires m) _
        (try_entry-Change (get_elem? m.queue i) i worker expires m)
        (scan_queue-Change order worker expires))

-- The task that a carved piece is given to is born leased.
book-Change :
    (job_id : JobId) (j : Job) (p : Piece) (worker : WorkerId) (expires : ℕ) (cached : List AssetId)
    (id : TaskId) (m : JobManager)
    → Gives m (book job_id j p worker expires cached id m)
unfolding book
book-Change job_id j p worker expires cached id m =
    subst (λ ts. Change m.tasks (emplace id t ts)) (sym (counted j.input_ref (marked m)))
      (birth m.tasks id t (record { own_id = refl; born_leased = refl }))
  where
    t : Task
    t = born id job_id nil p.start_unit p.unit_count worker expires

    marked : JobManager → JobManager
    marked n =
        mark_task_dirty id
          (mark_job_dirty job_id (record n { jobs = insert job_id (booked j p id) n.jobs }))

    counted : (a : Option AssetId) (n : JobManager) → (count_grant a cached n).tasks ≡ n.tasks
    counted none n = refl
    counted (some a) n = refl

branches :
    (m : JobManager) (b : Bool) (r s : JobManager × Option Task)
    → Gives m r
    → Gives m s
    → Gives m (if b then r else s)
branches m true r s c d = c
branches m false r s c d = d

carve_piece_into-Change :
    (job_id : JobId) (j : Job) (p : Option Piece) (worker : WorkerId) (expires : ℕ)
    (cached : List AssetId) (m : JobManager)
    → Gives m (carve_piece_into job_id j p worker expires cached m)
carve_piece_into-Change job_id j none worker expires cached m = unfold carve_piece_into in same
carve_piece_into-Change job_id j (some p) worker expires cached m =
    unfold carve_piece_into in book-Change job_id j p worker expires cached (minted m) (bump_id m)

carve_job-Change :
    (pass : Bool) (job_id : JobId) (j : Job) (worker : WorkerId) (expires units : ℕ)
    (cached : List AssetId) (m : JobManager)
    → Gives m (carve_job pass job_id j worker expires units cached m)
unfolding carve_job
carve_job-Change pass job_id j worker expires units cached m =
    branches m (pass && not (wants_cached j.input_ref cached) || keyspace_exhausted j) (m, none)
      (carve_piece_into job_id j (carve_piece j units) worker expires cached m) same
      (carve_piece_into-Change job_id j (carve_piece j units) worker expires cached m)

carve_over-Change :
    (pass : Bool) (js : List (JobId × Job)) (worker : WorkerId) (expires units : ℕ)
    (cached : List AssetId) (m : JobManager)
    → Gives m (carve_over pass js worker expires units cached m)
unfolding carve_over
carve_over-Change pass [] worker expires units cached m = same
carve_over-Change pass ((job_id, j) ∷ js) worker expires units cached m =
    or_else-Change m (carve_job pass job_id j worker expires units cached m) _
      (carve_job-Change pass job_id j worker expires units cached m)
      (carve_over-Change pass js worker expires units cached)

carve_fresh-Change :
    (worker : WorkerId) (expires units : ℕ) (cached : List AssetId) (m : JobManager)
    → Gives m (carve_fresh worker expires units cached m)
unfolding carve_fresh
carve_fresh-Change worker expires units cached m =
    branches m (units == 0) (m, none) (or_else first second) same
      (or_else-Change m first second
        (branches m (is_empty cached) (m, none) _ same
          (carve_over-Change true m.jobs worker expires units cached m))
        (λ m'. carve_over-Change false m'.jobs worker expires units cached m'))
  where
    first : JobManager × Option Task
    first =
        if is_empty cached then (m, none) else carve_over true m.jobs worker expires units cached m

    second : JobManager → JobManager × Option Task
    second m' = carve_over false m'.jobs worker expires units cached m'

pub grant-Change :
    (worker : WorkerId) (now_ms lease_ms units : ℕ) (cached : List AssetId) (m : JobManager)
    → Gives m (grant worker now_ms lease_ms units cached m)
unfolding grant
grant-Change worker now_ms lease_ms units cached m =
    or_else-Change m (scan_queue order worker (deadline now_ms lease_ms) m)
      (λ m'. carve_fresh worker (deadline now_ms lease_ms) units cached m')
      (scan_queue-Change order worker (deadline now_ms lease_ms) m)
      (carve_fresh-Change worker (deadline now_ms lease_ms) units cached)
  where
    order : List ℕ
    order = scan_order (prefer_cached (needs_of m.queue m) cached) (length m.queue)

race_task-Change :
    (job_id : JobId) (j : Job) (id : TaskId) (t : Option Task) (worker : WorkerId) (expires : ℕ)
    (m : JobManager) (rest : JobManager × Option Task)
    → Gives m rest
    → Gives m (or_next (race_task job_id j id t worker expires m) rest)
unfolding race_task
race_task-Change job_id j id none worker expires m rest c = c
race_task-Change job_id j id (some t) worker expires m rest c =
    elim (Bool-cases (may_race worker id t j.tasks m)) [
      | inl races ↦
          rw (races, issue_replica_of)
            (birth m.tasks (minted m) _ (record { own_id = refl; born_leased = refl }))
      | inr kept ↦ rw kept c
    ]

race_over-Change :
    (job_id : JobId) (j : Job) (ids : List TaskId) (worker : WorkerId) (expires : ℕ)
    (m : JobManager)
    → Gives m (race_over job_id j ids worker expires m)
unfolding race_over
race_over-Change job_id j [] worker expires m = same
race_over-Change job_id j (id ∷ ids) worker expires m =
    race_task-Change job_id j id (lookup id m.tasks) worker expires m _
      (race_over-Change job_id j ids worker expires m)

module _ (below : ℕ → ℕ → Bool) where
  speculate_over-Change :
      (js : List (JobId × Job)) (worker : WorkerId) (expires : ℕ) (m : JobManager)
      → Gives m (speculate_over below js worker expires m)
  unfolding speculate_over
  speculate_over-Change [] worker expires m = same
  speculate_over-Change ((job_id, j) ∷ js) worker expires m =
      or_else-Change m
        (if too_early below job_id j m
          then (m, none)
          else race_over job_id j j.tasks worker expires m)
        (λ m'. speculate_over below js worker expires m')
        (branches m (too_early below job_id j m) (m, none) _ same
          (race_over-Change job_id j j.tasks worker expires m))
        (speculate_over-Change js worker expires)

  pub issue_speculative-Change :
      (worker : WorkerId) (now_ms lease_ms : ℕ) (m : JobManager)
      → Gives m (issue_speculative below worker now_ms lease_ms m)
  unfolding issue_speculative
  issue_speculative-Change worker now_ms lease_ms m = speculate_over-Change m.jobs worker _ m

known_range_in-Change :
    (owner : Option JobId) (worker : WorkerId) (expires start count : ℕ) (m : JobManager)
    → Gives m (known_range_in owner worker expires start count m)
unfolding known_range_in
known_range_in-Change none worker expires start count m = same
known_range_in-Change (some j) worker expires start count m =
    birth m.tasks (minted m) _ (record { own_id = refl; born_leased = refl })

pub issue_known_range-Change :
    (worker : WorkerId) (now_ms lease_ms start count : ℕ) (m : JobManager)
    → Gives m (issue_known_range worker now_ms lease_ms start count m)
unfolding issue_known_range
issue_known_range-Change worker now_ms lease_ms start count m =
    branches m (count == 0) (m, none) _ same
      (known_range_in-Change (first_owner m.jobs start count) worker (deadline now_ms lease_ms)
        start count m)
