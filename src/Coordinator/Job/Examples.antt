-- ===== src/Coordinator/Job/Examples.antt =====
-- The job manager's theorems at concrete managers.
use mathlib.Core.Option
use p2p_gpu.Base.{
  ℕ, ◌+◌, ◌<◌, ◌≡◌, refl, ◌≢◌, ◌⊎◌, true, false, some, List, [], ◌∷◌, ◌++◌, arith, is_some, length,
  get_or, lookup, insert, remove, emplace, AllEntries,
}
use p2p_gpu.Protocol.Ids.{WorkerId, TaskId, nil, id_eq, id_key}
use p2p_gpu.Protocol.Errors.{lease_not_held, internal, ok}
use p2p_gpu.Coordinator.Job.{Task, Job, PartialResult, JobManager, init, put_task}
use p2p_gpu.Coordinator.TaskState.{queued, leased, validating, accepted, is_terminal}
use p2p_gpu.Coordinator.Job.Queries.{is_held_by}
use p2p_gpu.Coordinator.Job.Lease.{
  submit, renew_lease, is_stale, record_partial, finish, sweep_expired_leases, release_all_held_by,
}
use p2p_gpu.Coordinator.Job.Grant.{grant}
use p2p_gpu.Coordinator.Job.Grant.Choice.{IsLease, grant-IsLease, grant_progress}
use p2p_gpu.Coordinator.Job.Calls.{
  Call, to_create_job, to_grant, to_submit, to_sweep, to_release_all, to_finish, run,
}
use p2p_gpu.Coordinator.Job.Calls.Runs.{IsValid, run-keeps_tasks, run-keeps_terminal, run-init}
use p2p_gpu.Coordinator.Job.Changes.{TaskStep}
use p2p_gpu.Coordinator.Job.Sweep.{swept_task, overdue_in, expiries, sweep_expired_leases_lem}
use p2p_gpu.Coordinator.Job.Authority.{holds, IsRefused, submit_lem, record_partial_lem}
use p2p_gpu.Coordinator.Job.Release.{release_all_held_by-none_held}
use p2p_gpu.Coordinator.Job.Recover.{new_job, create_job, adopt_recovered}
use p2p_gpu.Coordinator.Job.Cases.{moved}
use p2p_gpu.Coordinator.Job.Recover.Adoption.{IsIdle, adopt_recovered_lem}
use p2p_gpu.Coordinator.Job.Grant.Carve.{by_tile, carve_piece, booked}
use p2p_gpu.Coordinator.Job.Grant.Fresh.{Request, fresh_of}
use p2p_gpu.Coordinator.Job.Grant.Tiles.{IsInTile, carve_piece-IsInTile}
use p2p_gpu.Coordinator.Job.Speculate.{cancel_siblings_of}
use p2p_gpu.Coordinator.Job.Speculate.Cancel.{cancelled_form, IsRival, cancel_siblings_of_lem}
use p2p_gpu.Coordinator.Samples.{
  alice, bob, first_task, first_job, never, leased_task, busy, busy-IsValid,
}

-- The same task, which has been accepted.
abbrev accepted_task : Task
accepted_task = record leased_task {
  state = accepted;
  holder = nil;
  lease_expires_at_ms = 0;
  prior_workers = alice ∷ [];
}

abbrev settled : JobManager
settled = record init { tasks = (first_task, accepted_task) ∷ []; next_id = 3 }

settled-IsValid : IsValid settled
settled-IsValid = record {
  distinct = (refl, tt);
  entries = ((refl, record { unheld = λ n. refl; credited = λ j. omega arith }), tt);
}

-- The task waits in the queue, after alice has computed it.
abbrev waiting_task : Task
waiting_task = record leased_task {
  state = queued;
  holder = nil;
  lease_expires_at_ms = 0;
  prior_workers = alice ∷ [];
}

abbrev waiting : JobManager
waiting = record init {
  tasks = (first_task, waiting_task) ∷ [];
  queue = first_task ∷ [];
  next_id = 3;
}

abbrev day : List Call
day =
    to_create_job "prime-count" 1000 7 0
    ∷ to_grant alice 0 5000 100 []
    ∷ to_submit alice first_task
    ∷ to_finish first_task true
    ∷ []

abbrev done_task : Task
done_task = record accepted_task { lease_expires_at_ms = 5000 }

run-init_example :
    (done_task.id ≡ first_task)
    × ((done_task.state ≡ leased) ⊎ (done_task.holder ≡ nil))
    × ((done_task.state ≢ accepted) ⊎ (0 < length done_task.prior_workers))
unfolding run create_job grant submit finish lookup insert emplace id_eq remove
run-init_example = run-init never day first_task done_task refl

run-keeps_tasks_example :
    (u : Task) × (lookup first_task
        (run never (to_submit alice first_task ∷ to_sweep 9000 ∷ []) busy).tasks
      ≡ some u)
    × TaskStep leased_task u
unfolding lookup id_eq
run-keeps_tasks_example =
    run-keeps_tasks never (to_submit alice first_task ∷ to_sweep 9000 ∷ []) busy first_task
      leased_task busy-IsValid refl

run-keeps_terminal_example :
    (u : Task) × (lookup first_task
        (run never (to_sweep 9000 ∷ to_release_all alice ∷ []) settled).tasks
      ≡ some u)
    × (u.state ≡ accepted)
unfolding lookup id_eq is_terminal
run-keeps_terminal_example =
    run-keeps_terminal never (to_sweep 9000 ∷ to_release_all alice ∷ []) settled first_task
      accepted_task settled-IsValid refl refl

sweep_expired_leases_lem_example :
    ((id : TaskId)
      → lookup id (sweep_expired_leases 6000 busy).0.tasks
        ≡ Option.map (swept_task 6000) (lookup id busy.tasks))
    × ((sweep_expired_leases 6000 busy).0.queue ≡ [] ++ overdue_in 6000 busy.tasks)
    × ((sweep_expired_leases 6000 busy).1 ≡ expiries 6000 busy.tasks)
sweep_expired_leases_lem_example = sweep_expired_leases_lem 6000 busy (refl, tt)

submit_lem_example :
    ((holds alice first_task busy ≡ true)
      × (t : Task) × (lookup first_task busy.tasks ≡ some t)
      × (submit alice first_task busy ≡ (
        put_task first_task
            (record t {
              state = validating;
              prior_workers = t.prior_workers ++ alice ∷ [];
              holder = nil;
            })
            (moved first_task t validating busy),
        ok tt,
      )))
    ⊎ ((holds alice first_task busy ≡ false)
        × IsRefused lease_not_held busy (submit alice first_task busy))
submit_lem_example = submit_lem alice first_task busy busy-IsValid

grant-IsLease_example :
    IsLease bob 5100
      (record waiting_task { state = leased; holder = bob; lease_expires_at_ms = 5100 })
unfolding grant lookup insert id_eq
grant-IsLease_example = grant-IsLease bob 100 5000 50 [] waiting _ refl

-- Alice has computed the task, bob has not.
grant_progress_example : is_some (grant bob 100 5000 0 [] waiting).1 ≡ true
unfolding lookup id_eq
grant_progress_example =
    grant_progress bob 100 5000 0 [] waiting 0 first_task waiting_task refl refl refl refl

release_all_held_by-none_held_example :
    is_held_by alice (record leased_task { state = queued; holder = nil; lease_expires_at_ms = 0 })
    ≡ false
unfolding release_all_held_by lookup insert id_eq
release_all_held_by-none_held_example = release_all_held_by-none_held alice busy first_task _ refl

abbrev fourth : PartialResult
fourth = record {
  worker = alice;
  sequence = 4;
  units_done = 40;
  payload = 1 ∷ [];
  received_at_ms = 100;
}

record_partial_lem_example :
    ((holds alice first_task busy ≡ true)
      × (is_stale 4 (lookup first_task busy.partials) ≡ false)
      × ((record_partial alice first_task 4 40 (1 ∷ []) 100 5000 busy).0.partials
          ≡ insert first_task fourth busy.partials)
      × (lookup first_task (record_partial alice first_task 4 40 (1 ∷ []) 100 5000 busy).0.partials
          ≡ some fourth)
      × ((record_partial alice first_task 4 40 (1 ∷ []) 100 5000 busy).0.tasks
          ≡ (renew_lease alice first_task 100 5000 busy).0.tasks)
      × ((record_partial alice first_task 4 40 (1 ∷ []) 100 5000 busy).1 ≡ ok tt))
    ⊎ ((holds alice first_task busy ≡ true)
        × (is_stale 4 (lookup first_task busy.partials) ≡ true)
        × IsRefused internal busy (record_partial alice first_task 4 40 (1 ∷ []) 100 5000 busy))
    ⊎ ((holds alice first_task busy ≡ false)
        × IsRefused lease_not_held busy
            (record_partial alice first_task 4 40 (1 ∷ []) 100 5000 busy))
record_partial_lem_example =
    record_partial_lem alice first_task busy 4 40 (1 ∷ []) 100 5000 busy-IsValid

adopt_recovered_lem_example :
    AllEntries IsIdle (adopt_recovered [] (leased_task ∷ waiting_task ∷ []) 3 init).tasks
    × ((adopt_recovered [] (leased_task ∷ waiting_task ∷ []) 3 init).queue ≡ first_task ∷ [])
adopt_recovered_lem_example = adopt_recovered_lem [] (leased_task ∷ waiting_task ∷ []) 3 init

-- A job of 100 units, of which alice asks for 60 and bob for as many.
abbrev plain_job : Job
plain_job = new_job first_job "prime-count" 100 7 0

abbrev plain_manager : JobManager
plain_manager = record init { jobs = (first_job, plain_job) ∷ [] }

abbrev asks : WorkerId → Request
asks worker = record { worker = worker; now_ms = 100; lease_ms = 5000; units = 60; cached = [] }

abbrev two_requests : List Request
two_requests = asks alice ∷ asks bob ∷ []

abbrev spans : List Task → List (ℕ × ℕ)
spans [] = []
spans (t ∷ ts) = (t.start_unit, t.unit_count) ∷ spans ts

two_pieces : spans (fresh_of first_job two_requests plain_manager) ≡ (0, 60) ∷ (60, 40) ∷ []
unfolding fresh_of grant lookup insert id_eq booked
two_pieces = refl

-- Three tiles of ten samples; the second has the fewest.
abbrev tiled_job : Job
tiled_job = record plain_job {
  total_units = 30;
  next_unit = 21;
  units_per_group = 10;
  tile_granted = 10 ∷ 4 ∷ 7 ∷ [];
  render = some (record {
    grid = record { image_w = 96; image_h = 32; tile_w = 32; tile_h = 32 };
    samples_per_tile = 10;
    cam_origin = [];
    cam_lower_left = [];
    cam_horizontal = [];
    cam_vertical = [];
    max_bounces = 4;
    rr_start_bounce = 3;
    node_count = 0;
    prim_count = 0;
    material_count = 0;
  });
}

carve_piece-IsInTile_example :
    (k : ℕ) × IsInTile tiled_job 10 (record { start_unit = 14; unit_count = 5; tile = some 1 }) k
    × (get_or
          (booked tiled_job
            (record { start_unit = 14; unit_count = 5; tile = some 1 })
            first_task).tile_granted
          k
          0
        ≡ get_or tiled_job.tile_granted k 0 + 5)
unfolding by_tile carve_piece
carve_piece-IsInTile_example =
    carve_piece-IsInTile tiled_job 5 10 (record { start_unit = 14; unit_count = 5; tile = some 1 })
      first_task (record { fits = omega arith; bounded = omega arith }) refl refl (omega arith) refl

-- Bob's replica has been accepted while alice still holds the original.
abbrev replica_id : TaskId
replica_id = record { hi = 0; lo = 3 }

abbrev replica_task : Task
replica_task = record leased_task {
  id = replica_id;
  replica_of = first_task;
  state = accepted;
  holder = nil;
  prior_workers = bob ∷ [];
}

abbrev raced_job : Job
raced_job = record plain_job { next_unit = 100; tasks = first_task ∷ replica_id ∷ [] }

abbrev raced : JobManager
raced = record init {
  tasks = (first_task, leased_task) ∷ (replica_id, replica_task) ∷ [];
  jobs = (first_job, raced_job) ∷ [];
  next_id = 4;
}

cancel_siblings_of_lem_example :
    (IsRival replica_id replica_task raced_job first_task leased_task
      × (leased_task.state ≢ queued)
      × (lookup first_task (cancel_siblings_of replica_id raced).0.tasks
          ≡ some (cancelled_form leased_task)))
    ⊎ (((¬ IsRival replica_id replica_task raced_job first_task leased_task)
          ⊎ (leased_task.state ≡ queued))
        × (lookup first_task (cancel_siblings_of replica_id raced).0.tasks ≡ some leased_task))
unfolding lookup id_eq
cancel_siblings_of_lem_example =
    cancel_siblings_of_lem replica_id first_task replica_task leased_task raced_job raced refl refl
      refl
