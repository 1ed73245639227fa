-- ===== src/Coordinator/Job/Recover/Adoption.antt =====
-- What `JobManager::AdoptRecovered` (src/coordinator/job.cpp) leaves after a restart.
use mathlib.Core.List.{append-nil, append_assoc}
use p2p_gpu.Base.{
  ℕ, ◌≡◌, refl, sym, ◌∙◌, Bool, true, false, List, [], ◌∷◌, ◌++◌, arith, if◌then◌else◌, AllEntries,
  emplace-AllEntries,
}
use p2p_gpu.Protocol.Ids.{TaskId, nil, id_key}
use p2p_gpu.Coordinator.Job.{Task, Job, JobManager}
use p2p_gpu.Coordinator.TaskState.{TaskState, queued}
use p2p_gpu.Coordinator.Job.Recover.{
  was_in_flight, recovered, adopt_task, adopt_tasks, adopt_recovered,
}

-- The identifiers of the tasks that were in flight.
abbrev pub in_flight_ids : List Task → List TaskId
in_flight_ids [] = []
in_flight_ids (t ∷ ts) = if was_in_flight t.state then t.id ∷ in_flight_ids ts else in_flight_ids ts

adopt_tasks-queue :
    (ts : List Task) (m : JobManager) → (adopt_tasks ts m).queue ≡ m.queue ++ in_flight_ids ts
unfolding adopt_tasks adopt_task
adopt_tasks-queue [] m = sym (append-nil m.queue)
adopt_tasks-queue (t ∷ ts) m =
    adopt_tasks-queue ts (adopt_task t m) ∙ queued_next (was_in_flight t.state)
  where
    queued_next :
        (b : Bool)
        → (if b then m.queue ++ t.id ∷ [] else m.queue) ++ in_flight_ids ts
          ≡ m.queue ++ (if b then t.id ∷ in_flight_ids ts else in_flight_ids ts)
    queued_next true = append_assoc m.queue (t.id ∷ []) (in_flight_ids ts)
    queued_next false = refl

-- Nobody works on a task that has been read back.
pub record IsIdle (id : TaskId) (t : Task) : Type 0 where
  pub own_id : t.id ≡ id
  pub unheld : t.holder ≡ nil
  pub no_deadline : t.lease_expires_at_ms ≡ 0
  pub at_rest : was_in_flight t.state ≡ false

recovered-IsIdle : (t : Task) → IsIdle t.id (recovered t)
unfolding recovered
recovered-IsIdle t = record {
  own_id = refl;
  unheld = refl;
  no_deadline = refl;
  at_rest = rests t.state;
}
  where
    rests : (s : TaskState) → was_in_flight (if was_in_flight s then queued else s) ≡ false
    rests s = ground arith

adopt_tasks-AllEntries :
    (ts : List Task) (m : JobManager)
    → AllEntries IsIdle m.tasks
    → AllEntries IsIdle (adopt_tasks ts m).tasks
unfolding adopt_tasks adopt_task
adopt_tasks-AllEntries [] m h = h
adopt_tasks-AllEntries (t ∷ ts) m h =
    adopt_tasks-AllEntries ts (adopt_task t m)
      (emplace-AllEntries IsIdle t.id (recovered t) m.tasks (recovered-IsIdle t) h)

-- After a restart no task is leased or in validation, none has a holder or a deadline, and each stands
-- under its own identifier. The queue holds the tasks that were in flight, in their order, and no
-- others: a task that was read back as queued is not in it.
pub adopt_recovered_lem :
    (js : List Job) (ts : List Task) (next_id : ℕ) (m : JobManager)
    → AllEntries IsIdle (adopt_recovered js ts next_id m).tasks
      × ((adopt_recovered js ts next_id m).queue ≡ in_flight_ids ts)
unfolding adopt_recovered
adopt_recovered_lem js ts next_id m = (adopt_tasks-AllEntries ts _ tt, adopt_tasks-queue ts _)
