-- ===== src/Coordinator/Session/Validation.antt =====
-- The judgement of a submission (`Session::OnResultHeader` of src/coordinator/session.cpp, from the
-- submission's recording on): the quorum's verdict, credit and charge, the pool of known answers, the
-- image, the end of the task, and the bookkeeping of the winner.
use p2p_gpu.Base.{
  ℕ, ◌+◌, ◌-◌, ◌/◌, ◌%◌, String, Bool, true, false, not, ◌&&◌, Option, none, some, List, [], ◌∷◌,
  ◌++◌, ltb, leb, ◌==◌, if◌then◌else◌, u64_mod, u32_mod, length, erase_all,
}
use p2p_gpu.Protocol.Ids.{WorkerId, TaskId, id_key}
use p2p_gpu.Protocol.Errors.{internal, ok, err, Status}
use p2p_gpu.Coordinator.Job.{Submission, Task, RenderConfig, Job, JobManager}
use p2p_gpu.Coordinator.Job.Queries.{find, find_job}
use p2p_gpu.Coordinator.Job.Lease.{finish, record_submission, request_replica, restart_validation}
use p2p_gpu.Coordinator.Job.Speculate.{Revocation, cancel_siblings_of}
use p2p_gpu.Coordinator.Sizer.{update_correction}
use p2p_gpu.Coordinator.Quorum.{
  QuorumConfig, QuorumAction, accept, need_more_replicas, inconclusive, QuorumResult, decide,
}
use p2p_gpu.Coordinator.Quorum.Required.{required_agreement_for}
use p2p_gpu.Coordinator.Reputation.{
  ReputationTable, record_accepted, record_rejected, maybe_blacklist,
}
use p2p_gpu.Coordinator.SpotCheck.{SpotCheckPool, remember}
use p2p_gpu.Coordinator.Fleet.{WorkerRecord, Fleet, adjust, record_completion}
use p2p_gpu.Coordinator.Kernels.{KernelSpec, find_kernel, is_exact}
use p2p_gpu.Coordinator.Compositor.{Compositor, accept_tile}
use p2p_gpu.Coordinator.Session.Messages.{Reaction, silence, non_fatal}
use p2p_gpu.Coordinator.Session.{ReferenceStats, Env, State, with_jobs, with_fleet, adjust_self}

module _ {D : Type 0} (env : Env D) where
  -- The job and the kernel of a task, where all three are known.
  abbrev pub kernel_for : Option Job → Option (Job × KernelSpec D)
  kernel_for none = none
  kernel_for (some j) = elim (find_kernel j.kernel_id env.kernels) [
    | none ↦ none
    | some spec ↦ some (j, spec)
  ]

  unfoldable pub work_of : TaskId → JobManager → Option (Task × Job × KernelSpec D)
  work_of id m = elim (find id m) [
    | none ↦ none
    | some t ↦ elim (kernel_for (find_job t.job m)) [
      | none ↦ none
      | some (j, spec) ↦ some (t, j, spec)
    ]
  ]

  -- 3.11: credit for the agreeing, a charge and perhaps a blacklisting for the dissenting.
  unfoldable pub credit : List WorkerId → ReputationTable D → ReputationTable D
  credit [] table = table
  credit (w ∷ ws) table = credit ws (record_accepted env.doubles env.reputation_config w table)

  unfoldable pub charge : D → ℕ → List WorkerId → ReputationTable D → ReputationTable D
  charge severity now_ms [] table = table
  charge severity now_ms (w ∷ ws) table =
      charge severity now_ms ws
        (maybe_blacklist env.doubles env.reputation_config w now_ms
          (record_rejected env.doubles env.reputation_config w severity false table)).0

  abbrev pub settle : QuorumResult → ℕ → Option (ReputationTable D) → Option (ReputationTable D)
  settle q now_ms none = none
  settle q now_ms (some table) =
      some (charge (env.severity q) now_ms q.dissenting (credit q.agreeing table))

  -- Was the accepted answer right? Counted only in a development run.
  abbrev pub zero_stats : ReferenceStats
  zero_stats = record {
    checked = 0;
    matched = 0;
    mismatched = 0;
    unsupported = 0;
    accepted_checked = 0;
    accepted_wrong = 0;
  }

  abbrev pub is_wrong : KernelSpec D → Option (Task × Job × KernelSpec D) → List ℕ → Bool
  is_wrong spec none payload = false
  is_wrong spec (some (t, j, _)) payload = not (env.check_reference spec j t payload zero_stats).1

  abbrev pub audit :
      KernelSpec D
      → Option (Task × Job × KernelSpec D)
      → List ℕ
      → Option ReferenceStats
      → Option ReferenceStats
  audit spec work payload none = none
  audit spec work payload (some stats) = some (record stats {
    accepted_checked = (stats.accepted_checked + 1) % u64_mod;
    accepted_wrong =
        if is_wrong spec work payload
        then (stats.accepted_wrong + 1) % u64_mod
        else stats.accepted_wrong;
  })

  -- A range whose answer at least two workers agreed on becomes a known one.
  abbrev pub remembered :
      QuorumResult → ℕ → Option Task → Option SpotCheckPool → Option SpotCheckPool
  remembered q checksum (some t) (some pool) =
      some (
        if leb 2 (length q.agreeing)
        then remember t.start_unit t.unit_count checksum pool
        else pool)
  remembered q checksum _ pool = pool

  abbrev pub composed_at : Option RenderConfig → Task → List ℕ → Compositor D → Compositor D
  composed_at none t payload c = c
  composed_at (some r) t payload c =
      if r.samples_per_tile == 0
      then c
      else (accept_tile env.doubles env.float_of (t.start_unit / r.samples_per_tile % u32_mod)
          payload c).0

  abbrev pub composed :
      Option (Task × Job × KernelSpec D) → List ℕ → Option (Compositor D) → Option (Compositor D)
  composed (some (t, j, spec)) payload (some c) = some (composed_at j.render t payload c)
  composed _ payload c = c

  -- What an accepted verdict does before the task is finished.
  unfoldable pub accepted_effects :
      TaskId → KernelSpec D → QuorumResult → ℕ → List ℕ → State D → State D
  accepted_effects id spec q checksum payload s =
      let work = work_of id s.shared.jobs in
      record s {
        shared = record s.shared {
          reputation = settle q s.session.now_ms s.shared.reputation;
          reference_stats = audit spec work payload s.shared.reference_stats;
          spot_checks = remembered q checksum (find id s.shared.jobs) s.shared.spot_checks;
          compositor = composed work payload s.shared.compositor;
        };
      }

  -- The revokes of the losers, each queued on its holder's record.
  unfoldable pub queue_revokes : List Revocation → Fleet D → Fleet D
  queue_revokes [] fleet = fleet
  queue_revokes (r ∷ rs) fleet =
      queue_revokes rs (
        adjust r.holder (λ w. record w { pending_revokes = w.pending_revokes ++ r.task ∷ [] })
          fleet)

  -- 2.13: the prediction corrected by what was observed, on the coordinator's clock.
  abbrev pub units_of : Option Task → ℕ
  units_of none = 0
  units_of (some t) = t.unit_count

  abbrev pub observed : Option Task → D → D → D
  observed none actual total = total
  observed (some t) actual total = env.doubles.plus total actual

  abbrev pub corrected : ℕ → Option Task → WorkerRecord D → WorkerRecord D
  corrected now_ms task w =
      let actual = env.doubles.of_nat ((now_ms + (u64_mod - w.granted_at_ms)) % u64_mod) in
      if not (env.doubles.is_positive w.predicted_ms && ltb 0 w.granted_at_ms)
      then w
      else record w {
        correction = update_correction env.doubles w.correction w.predicted_ms actual;
        predicted_ms = env.doubles.zero_d;
        first_result_ms = if w.first_result_ms == 0 then now_ms else w.first_result_ms;
        units_completed = (w.units_completed + units_of task) % u64_mod;
        observed_ms_total = observed task actual w.observed_ms_total;
      }

  -- First result wins: the siblings are cancelled, and the winner's record is brought up to date.
  unfoldable pub conclude : TaskId → State D → State D × Reaction D
  conclude id s =
      let (m, revocations) = cancel_siblings_of id s.shared.jobs in
      let fleet =
        record_completion s.session.worker_id (queue_revokes revocations s.shared.fleet) in
      let s' =
        adjust_self (corrected s.session.now_ms (find id m)) (with_fleet fleet (with_jobs m s)) in
      (
        record s' { session = record s'.session { completed = s'.session.completed ++ id ∷ [] } },
        silence,
      )

  abbrev pub concluded_if : TaskId → JobManager × Status → State D → State D × Reaction D
  concluded_if id (m, ok _) s = conclude id (with_jobs m s)
  concluded_if id (m, err e) s = (with_jobs m s, non_fatal internal "task could not be finalised")

  -- The task goes out again, and the result is no longer in flight.
  abbrev pub landed : TaskId → String → JobManager × Status → State D → State D × Reaction D
  landed id message (m, err e) s = (with_jobs m s, non_fatal internal message)
  landed id message (m, ok _) s =
      let s' = with_jobs m s in
      (
        record s' {
          session = record s'.session {
            in_flight_results = erase_all id s'.session.in_flight_results;
          };
        },
        silence,
      )

  abbrev pub act_on :
      TaskId
      → KernelSpec D
      → QuorumResult
      → QuorumAction
      → ℕ
      → List ℕ
      → State D
      → State D × Reaction D
  act_on id spec q need_more_replicas checksum payload s =
      landed id "could not issue replica" (request_replica id s.shared.jobs) s
  act_on id spec q inconclusive checksum payload s =
      landed id "could not restart validation" (restart_validation id s.shared.jobs) s
  act_on id spec q accept checksum payload s =
      concluded_if id (finish id true s.shared.jobs) (accepted_effects id spec q checksum payload s)

  -- How much agreement this worker's result needs.
  abbrev pub required : QuorumConfig → WorkerId → ℕ → Option (ReputationTable D) → QuorumConfig
  required q worker now_ms none = q
  required q worker now_ms (some table) = record q {
    required_agreement =
        required_agreement_for env.doubles env.reputation_config q table worker now_ms;
  }

  abbrev pub submissions_of : Option Task → List Submission
  submissions_of none = []
  submissions_of (some t) = t.submissions

  abbrev pub verdict : TaskId → KernelSpec D → State D → QuorumResult
  verdict id spec s =
      decide (is_exact spec.determinism) (env.compare spec)
        (required s.session.quorum s.session.worker_id s.session.now_ms s.shared.reputation)
        (submissions_of (find id s.shared.jobs))

  -- The payload is kept only where a hash cannot tell whether two answers are close.
  abbrev pub retained : KernelSpec D → List ℕ → List ℕ
  retained spec payload = if is_exact spec.determinism then [] else payload

  unfoldable pub validate :
      TaskId → ℕ → List ℕ → Option (Task × Job × KernelSpec D) → State D → State D × Reaction D
  validate id checksum payload none s = (s, non_fatal internal "kernel missing for task")
  validate id checksum payload (some (t, j, spec)) s =
      let s' =
        with_jobs
          (record_submission id s.session.worker_id checksum (retained spec payload) s.shared.jobs)
          s in
      let q = verdict id spec s' in act_on id spec q q.action checksum payload s'
