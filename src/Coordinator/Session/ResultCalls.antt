-- ===== src/Coordinator/Session/ResultCalls.antt =====
-- Every change that a result (src/coordinator/session.cpp) makes to the job manager is a sequence of the
-- manager's calls.
use p2p_gpu.Base.{
  ℕ, String, ◌≡◌, refl, ap, subst, inl, true, not, Option, none, some, List, [], both_branches,
  length, contains, erase_all,
}
use p2p_gpu.Protocol.Ids.{TaskId, id_key}
use p2p_gpu.Protocol.Errors.{ok, err, Status, has_value}
use p2p_gpu.Coordinator.Affinity.{AssetId}
use p2p_gpu.Coordinator.Job.{Task, Job, JobManager}
use p2p_gpu.Coordinator.Job.Queries.{find}
use p2p_gpu.Coordinator.Job.Lease.{check_lease, submit, finish}
use p2p_gpu.Coordinator.Job.Calls.{
  to_submit, to_record_partial, to_record_asset_source, to_record_ice_outcome, to_release,
  to_finish, to_record_submission, to_request_replica, to_restart_validation, to_cancel_siblings,
  perform,
}
use p2p_gpu.Coordinator.Job.Calls.Made.{Made, no_call, call, one_call}
use p2p_gpu.Coordinator.Quorum.{QuorumAction, need_more_replicas, inconclusive, QuorumResult}
use p2p_gpu.Coordinator.SpotCheck.{SpotCheckPool, expected_for}
use p2p_gpu.Coordinator.Kernels.{KernelSpec}
use p2p_gpu.Coordinator.Session.Messages.{TaskStats, ResultHeader, Reaction}
use p2p_gpu.Coordinator.Session.LeasingCalls.{Advances, steady, Keeps, ByCalls, still, also, doing}
use p2p_gpu.Coordinator.Session.Validation.{
  work_of, accepted_effects, conclude, concluded_if, landed, act_on, retained, validate,
}
use p2p_gpu.Coordinator.Session.Results.{
  record_stats, input_of_work, proven, prove_asset, reference_check, answer_probe, probe_result,
  spot_check_result, submitted, submitted_if, is_complete, readable, receive_result, result_for,
  on_result_header,
}
use p2p_gpu.Coordinator.Session.{Env, Session, State, with_jobs}
use p2p_gpu.Protocol.Invariants.{
  check_single_in_flight_result, check_payload_checksum, check_payload_length,
}

module _ {D : Type 0} (env : Env D) where
  conclude-Keeps : (id : TaskId) (s : State D) → Keeps env s (conclude env id s).0
  unfolding conclude perform
  conclude-Keeps id s = record {
    made = one_call (to_cancel_siblings id);
    session = record { identity = inl (refl, refl); abuse = refl; idle = λ e. e };
  }

  concluded_if-Keeps :
      (before : State D) (id : TaskId) (r : JobManager × Status) (s : State D)
      → Made env.below before.shared.jobs r.0
      → s.session ≡ before.session
      → Keeps env before (concluded_if env id r s).0
  concluded_if-Keeps before id (m, ok u) s h e =
      also (record { made = h; session = same e }) (conclude-Keeps id (with_jobs m s))
    where
      same : s.session ≡ before.session → Advances before.session s.session
      same e = subst (λ (a : Session). Advances a s.session) e steady
  concluded_if-Keeps before id (m, err x) s h e = record { made = h; session = same e }
    where
      same : s.session ≡ before.session → Advances before.session s.session
      same e = subst (λ (a : Session). Advances a s.session) e steady

  landed-Keeps :
      (id : TaskId) (message : String) (r : JobManager × Status) (s : State D)
      → Made env.below s.shared.jobs r.0
      → Keeps env s (landed env id message r s).0
  landed-Keeps id message (m, ok u) s h = record {
    made = h;
    session = record {
      identity = inl (refl, refl);
      abuse = refl;
      idle = λ (e : s.session.in_flight_results ≡ []). ap (erase_all id) e;
    };
  }
  landed-Keeps id message (m, err e) s h = doing h

  act_on-Keeps :
      (id : TaskId) (spec : KernelSpec D) (q : QuorumResult) (action : QuorumAction) (checksum : ℕ)
      (payload : List ℕ) (s : State D)
      → Keeps env s (act_on env id spec q action checksum payload s).0
  unfolding perform
  act_on-Keeps id spec q need_more_replicas checksum payload s =
      landed-Keeps id _ _ s (one_call (to_request_replica id))
  act_on-Keeps id spec q inconclusive checksum payload s =
      landed-Keeps id _ _ s (one_call (to_restart_validation id))
  act_on-Keeps id spec q QuorumAction.accept checksum payload s =
      concluded_if-Keeps s id (finish id true s.shared.jobs)
        (accepted_effects env id spec q checksum payload s) (one_call (to_finish id true))
        (unfold accepted_effects in refl)

  validate-Keeps :
      (id : TaskId) (checksum : ℕ) (payload : List ℕ) (work : Option (Task × Job × KernelSpec D))
      (s : State D)
      → Keeps env s (validate env id checksum payload work s).0
  unfolding validate perform
  validate-Keeps id checksum payload none s = doing no_call
  validate-Keeps id checksum payload (some (t, j, spec)) s =
      also
        (doing (
          one_call
            (to_record_submission id s.session.worker_id checksum (retained env spec payload))))
        (act_on-Keeps id spec _ _ checksum payload _)

  record_stats-Keeps :
      (stats : Option TaskStats) (s : State D) → Keeps env s (record_stats env stats s)
  unfolding record_stats perform
  record_stats-Keeps none s = doing no_call
  record_stats-Keeps (some stats) s = doing (
      call (one_call (to_record_asset_source stats.asset_source))
        (to_record_ice_outcome stats.ice_gathered stats.peer_attempts stats.peer_connected))

  proven-Keeps : (asset : Option AssetId) (s : State D) → Keeps env s (proven env asset s)
  proven-Keeps none s = doing no_call
  proven-Keeps (some asset) s = doing no_call

  answer_probe-Keeps :
      (id : TaskId) (checksum : ℕ) (expected : Option ℕ) (pool : SpotCheckPool) (s : State D)
      → Keeps env s (answer_probe env id checksum expected pool s)
  answer_probe-Keeps id checksum none pool s = doing no_call
  answer_probe-Keeps id checksum (some expected) pool s = doing no_call

  probe_result-Keeps :
      (id : TaskId) (checksum : ℕ) (pool : Option SpotCheckPool) (s : State D)
      → Keeps env s (probe_result env id checksum pool s)
  probe_result-Keeps id checksum none s = doing no_call
  probe_result-Keeps id checksum (some pool) s =
      answer_probe-Keeps id checksum (expected_for id pool) pool s

  prove_asset-Keeps : (id : TaskId) (s : State D) → Keeps env s (prove_asset env id s)
  unfolding prove_asset
  prove_asset-Keeps id s = proven-Keeps (input_of_work env (find id s.shared.jobs) s.shared.jobs) s

  reference_check-Keeps :
      (id : TaskId) (payload : List ℕ) (s : State D)
      → Keeps env s (reference_check env id payload s)
  unfolding reference_check
  reference_check-Keeps id payload s = doing no_call

  spot_check_result-Keeps :
      (id : TaskId) (checksum : ℕ) (s : State D) → Keeps env s (spot_check_result env id checksum s)
  unfolding spot_check_result
  spot_check_result-Keeps id checksum s = probe_result-Keeps id checksum s.shared.spot_checks s

  submitted-Keeps :
      (id : TaskId) (h : ResultHeader) (payload : List ℕ) (s : State D)
      → Keeps env s (submitted env id h payload s).0
  unfolding submitted
  submitted-Keeps id h payload s =
      let recorded = record_stats env h.stats s in
      let proved = prove_asset env id recorded in
      let checked = reference_check env id payload proved in
      let probed = spot_check_result env id h.checksum checked in
      also (record_stats-Keeps h.stats s) (
        also (prove_asset-Keeps id recorded) (
          also (reference_check-Keeps id payload proved) (
            also (spot_check_result-Keeps id h.checksum checked)
              (validate-Keeps id h.checksum payload (work_of env id probed.shared.jobs) probed))))

  submitted_if-Keeps :
      (id : TaskId) (h : ResultHeader) (payload : List ℕ) (r : JobManager × Status) (s : State D)
      → Made env.below s.shared.jobs r.0
      → Keeps env s (submitted_if env id h payload r s).0
  submitted_if-Keeps id h payload (m, ok u) s k =
      also (doing k) (submitted-Keeps id h payload (with_jobs m s))
  submitted_if-Keeps id h payload (m, err e) s k = doing k

  readable-Keeps :
      (id : TaskId) (h : ResultHeader) (payload : List ℕ) (s : State D)
      → Keeps env s (readable env id h payload s).0
  unfolding readable perform
  readable-Keeps id h payload s =
      both_branches (λ (r : State D × Reaction D). Keeps env s r.0)
        (not (is_complete env h.units_done (find id s.shared.jobs)))
        (doing (
          one_call (
            to_record_partial s.session.worker_id id h.sequence h.units_done payload
              s.session.now_ms s.session.lease_ms)))
        (submitted_if-Keeps id h payload (submit s.session.worker_id id s.shared.jobs) s
          (one_call (to_submit s.session.worker_id id)))

  receive_result-ByCalls :
      (id : TaskId) (h : ResultHeader) (payload : List ℕ) (s : State D)
      → ByCalls env s (receive_result env id h payload s)
  unfolding receive_result perform
  receive_result-ByCalls id h payload s =
      both_branches (ByCalls env s) (contains s.session.completed id) (record { made = still })
        (both_branches (ByCalls env s)
          (not
            (has_value (check_single_in_flight_result (contains s.session.in_flight_results id))))
          (record { made = still })
          (both_branches (ByCalls env s)
            (not (has_value (check_payload_length h.payload_bytes (length payload))))
            (record { made = still })
            (both_branches (ByCalls env s)
              (not (has_value (check_lease s.session.worker_id id s.shared.jobs)))
              (record { made = still })
              (both_branches (ByCalls env s)
                (not (has_value (check_payload_checksum h.checksum (env.checksum_of payload))))
                (record { made = doing (one_call (to_release id)) })
                (record { made = readable-Keeps id h payload s })))))

  result_for-Keeps :
      (id : Option TaskId) (h : ResultHeader) (payload : List ℕ) (s : State D)
      → Keeps env s (result_for env id h payload s).0
  result_for-Keeps none h payload s = doing no_call
  result_for-Keeps (some id) h payload s = (receive_result-ByCalls id h payload s).made

  pub on_result_header-Keeps :
      (h : ResultHeader) (payload : List ℕ) (s : State D)
      → Keeps env s (on_result_header env h payload s).0
  unfolding on_result_header
  on_result_header-Keeps h payload s = result_for-Keeps h.task_id h payload s
