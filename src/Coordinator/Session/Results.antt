-- ===== src/Coordinator/Session/Results.antt =====
-- `Session::OnResultHeader` of src/coordinator/session.cpp: the checks of a result before its task moves,
-- partial results, and what a submission leaves behind. The judgement is Session/Validation.
use p2p_gpu.Base.{
  ℕ, bit_or, Bool, true, false, not, ◌||◌, Option, none, some, List, [], ◌∷◌, ◌++◌, leb, ◌==◌,
  if◌then◌else◌, length, contains,
}
use p2p_gpu.Protocol.Ids.{WorkerId, TaskId, id_key}
use p2p_gpu.Protocol.Errors.{
  malformed_message, orphan_payload, checksum_mismatch, lease_not_held, ok, err, Status, has_value,
}
use p2p_gpu.Protocol.Invariants.{
  check_single_in_flight_result, check_payload_checksum, check_payload_length,
}
use p2p_gpu.Coordinator.Affinity.{AssetId, has_asset}
use p2p_gpu.Coordinator.Job.{Task, Job, JobManager}
use p2p_gpu.Coordinator.Job.Queries.{find, find_job, record_asset_source, record_ice_outcome}
use p2p_gpu.Coordinator.Job.Lease.{check_lease, submit, record_partial, requeue}
use p2p_gpu.Coordinator.TaskState.{TaskEvent}
use p2p_gpu.Coordinator.Reputation.{
  ReputationTable, record_accepted, record_rejected, maybe_blacklist,
}
use p2p_gpu.Coordinator.SpotCheck.{SpotCheckPool, expected_for, forget}
use p2p_gpu.Coordinator.Fleet.{WorkerRecord}
use p2p_gpu.Coordinator.Kernels.{KernelSpec}
use p2p_gpu.Coordinator.Session.Messages.{TaskStats, ResultHeader, Reaction, silence, non_fatal}
use p2p_gpu.Coordinator.Session.{ReferenceStats, Env, State, with_jobs, adjust_self}
use p2p_gpu.Coordinator.Session.Validation.{work_of, validate}

module _ {D : Type 0} (env : Env D) where
  -- 6.11, 6.15: the worker's statistics, recorded and never acted on.
  unfoldable pub record_stats : Option TaskStats → State D → State D
  record_stats none s = s
  record_stats (some stats) s =
      adjust_self (λ w. record w { ice_gathered = bit_or w.ice_gathered stats.ice_gathered })
        (with_jobs
          (record_ice_outcome stats.ice_gathered stats.peer_attempts stats.peer_connected
            (record_asset_source stats.asset_source s.shared.jobs))
          s)

  -- 6.13: a result proves that the worker holds the task's input.
  abbrev pub input_of_work : Option Task → JobManager → Option AssetId
  input_of_work none m = none
  input_of_work (some t) m = elim (find_job t.job m) [ none ↦ none | some j ↦ j.input_ref ]

  abbrev pub holding : AssetId → WorkerRecord D → WorkerRecord D
  holding asset w =
      if has_asset w.cached_assets asset
      then w
      else record w { cached_assets = w.cached_assets ++ asset ∷ [] }

  abbrev pub proven : Option AssetId → State D → State D
  proven none s = s
  proven (some asset) s = adjust_self (holding asset) s

  unfoldable pub prove_asset : TaskId → State D → State D
  prove_asset id s = proven (input_of_work (find id s.shared.jobs) s.shared.jobs) s

  -- 1.26: the check of a development run, which only counts.
  abbrev pub checked_stats :
      Option (Task × Job × KernelSpec D) → List ℕ → Option ReferenceStats → Option ReferenceStats
  checked_stats (some (t, j, spec)) payload (some stats) =
      some (env.check_reference spec j t payload stats).0
  checked_stats _ payload stats = stats

  unfoldable pub reference_check : TaskId → List ℕ → State D → State D
  reference_check id payload s = record s {
    shared = record s.shared {
      reference_stats =
          checked_stats (work_of env id s.shared.jobs) payload s.shared.reference_stats;
    };
  }

  -- 3.9: the answer of a probe is known. The severity of a wrong one is 4, doubled by the table.
  abbrev pub convict : WorkerId → ℕ → ReputationTable D → ReputationTable D
  convict worker now_ms table =
      (maybe_blacklist env.doubles env.reputation_config worker now_ms (
        record_rejected env.doubles env.reputation_config worker (env.doubles.of_nat 4) true
          table)).0

  abbrev pub judged_probe :
      Bool → WorkerId → ℕ → Option (ReputationTable D) → Option (ReputationTable D)
  judged_probe correct worker now_ms none = none
  judged_probe correct worker now_ms (some table) = some (
      if correct
      then record_accepted env.doubles env.reputation_config worker table
      else convict worker now_ms table)

  abbrev pub answer_probe : TaskId → ℕ → Option ℕ → SpotCheckPool → State D → State D
  answer_probe id checksum none pool s = s
  answer_probe id checksum (some expected) pool s = record s {
    shared = record s.shared {
      spot_checks = some (forget id pool);
      reputation =
          judged_probe (checksum == expected) s.session.worker_id s.session.now_ms
            s.shared.reputation;
    };
  }

  abbrev pub probe_result : TaskId → ℕ → Option SpotCheckPool → State D → State D
  probe_result id checksum none s = s
  probe_result id checksum (some pool) s = answer_probe id checksum (expected_for id pool) pool s

  unfoldable pub spot_check_result : TaskId → ℕ → State D → State D
  spot_check_result id checksum s = probe_result id checksum s.shared.spot_checks s

  -- From the accepted submission on.
  unfoldable pub submitted : TaskId → ResultHeader → List ℕ → State D → State D × Reaction D
  submitted id h payload s =
      let s' =
        spot_check_result id h.checksum
          (reference_check id payload (prove_asset id (record_stats h.stats s))) in
      validate env id h.checksum payload (work_of env id s'.shared.jobs) s'

  abbrev pub submitted_if :
      TaskId → ResultHeader → List ℕ → JobManager × Status → State D → State D × Reaction D
  submitted_if id h payload (m, ok _) s = submitted id h payload (with_jobs m s)
  submitted_if id h payload (m, err e) s =
      (with_jobs m s, non_fatal lease_not_held "no lease on that task")

  -- 5.13: does the result cover its task? No count of units means that it does.
  abbrev pub covers : ℕ → Option Task → Bool
  covers units_done none = false
  covers units_done (some t) = leb t.unit_count units_done

  abbrev pub is_complete : ℕ → Option Task → Bool
  is_complete units_done task = units_done == 0 || covers units_done task

  -- A result whose bytes are known to be readable: a partial one is kept, a complete one submitted.
  unfoldable pub readable : TaskId → ResultHeader → List ℕ → State D → State D × Reaction D
  readable id h payload s =
      if not (is_complete h.units_done (find id s.shared.jobs))
      then (
        with_jobs
            (record_partial s.session.worker_id id h.sequence h.units_done payload s.session.now_ms
              s.session.lease_ms s.shared.jobs).0
            s,
        silence,
      )
      else submitted_if id h payload (submit s.session.worker_id id s.shared.jobs) s

  -- The checks, in the order in which the source makes them.
  unfoldable pub receive_result : TaskId → ResultHeader → List ℕ → State D → State D × Reaction D
  receive_result id h payload s =
      if contains s.session.completed id
      then (s, silence)
      else if not
          (has_value (check_single_in_flight_result (contains s.session.in_flight_results id)))
      then (s, non_fatal orphan_payload "result already in flight")
      else if not (has_value (check_payload_length h.payload_bytes (length payload)))
      then (s, non_fatal malformed_message "payload_bytes disagrees with the payload")
      else if not (has_value (check_lease s.session.worker_id id s.shared.jobs))
      then (s, non_fatal lease_not_held "no lease on that task")
      else if not (has_value (check_payload_checksum h.checksum (env.checksum_of payload)))
      then (
        with_jobs (requeue id TaskEvent.release s.shared.jobs).0 s,
        non_fatal checksum_mismatch "payload checksum mismatch",
      )
      else readable id h payload s

  abbrev pub result_for : Option TaskId → ResultHeader → List ℕ → State D → State D × Reaction D
  result_for none h payload s = (s, non_fatal malformed_message "ResultHeader has no task_id")
  result_for (some id) h payload s = receive_result id h payload s

  unfoldable pub on_result_header : ResultHeader → List ℕ → State D → State D × Reaction D
  on_result_header h payload s = result_for h.task_id h payload s
