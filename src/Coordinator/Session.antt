-- ===== src/Coordinator/Session.antt =====
-- A connection's protocol handling (src/coordinator/session.cpp, include/p2pgpu/coordinator/session.hpp):
-- the state, and the handlers of the small messages. The objects that all sessions share through
-- pointers are `Shared`, a null pointer is `none`. Logging and the event log are left out.
pub mod Messages
pub mod Authority
pub mod LeasingCalls
pub mod ResultCalls
pub mod Returning
pub mod MessageCalls
pub mod Dispatch
pub mod Results
pub mod Validation
pub mod Leasing
pub mod AssetServing
pub mod Handshake
use p2p_gpu.Base.{
  ℕ, ◌+◌, ◌*◌, ◌%◌, String, Bool, false, not, ◌&&◌, Option, none, some, List, [], ◌∷◌, map, ltb,
  if◌then◌else◌, u32_mod, length, lookup,
}
use p2p_gpu.Protocol.Ids.{WorkerId, TaskId, id_eq, id_key}
use p2p_gpu.Protocol.Errors.{
  ErrorCode, malformed_message, lease_not_held, internal, ok, err, Status, has_value,
}
use p2p_gpu.Coordinator.Job.{Task, Job, JobManager}
use p2p_gpu.Coordinator.Job.Queries.{held_by}
use p2p_gpu.Coordinator.Job.Lease.{
  check_lease, renew_lease, requeue, release_each, release_all_held_by,
}
use p2p_gpu.Coordinator.TaskState.{TaskEvent}
use p2p_gpu.Coordinator.Doubles.{DoubleOps}
use p2p_gpu.Coordinator.Quorum.{QuorumConfig, QuorumResult, Comparison}
use p2p_gpu.Coordinator.Reputation.{ReputationConfig, ReputationTable, score}
use p2p_gpu.Coordinator.SpotCheck.{SpotCheckPool}
use p2p_gpu.Coordinator.Fleet.{WorkerRecord, Fleet, leave, adjust}
use p2p_gpu.Coordinator.Assets.{AssetStore}
use p2p_gpu.Coordinator.Kernels.{KernelSpec, KernelRegistry}
use p2p_gpu.Coordinator.Compositor.{Compositor}
use p2p_gpu.Coordinator.Session.Messages.{
  throttle, Outbound, revoke, signal_from, Reaction, silence, non_fatal,
}

pub record ReferenceStats : Type 0 where
  pub checked : ℕ
  pub matched : ℕ
  pub mismatched : ℕ
  pub unsupported : ℕ
  pub accepted_checked : ℕ
  pub accepted_wrong : ℕ

pub record SpotCheckConfig (D : Type 0) : Type 0 where
  pub proven_at : D
  pub rate_unproven : D
  pub rate_trusted : D

-- What a session reads and never writes: the configuration, the kernels, the assets, and the functions
-- that the model takes as they are. `checksum_of` is BLAKE3-64; `compare` judges two payloads of a
-- kernel that is not exact; `severity` is `SeverityFromDeviation` of a verdict's deviations;
-- `check_reference` is `CheckAgainstReference`; `below` is the test of the completion fraction.
pub record Env (D : Type 0) : Type 0 where
  pub doubles : DoubleOps D
  pub float_of : ℕ → D
  pub reputation_config : ReputationConfig D
  pub spot_check_config : SpotCheckConfig D
  pub kernels : KernelRegistry D
  pub assets : Option AssetStore
  pub checksum_of : List ℕ → ℕ
  pub compare : KernelSpec D → List ℕ → List ℕ → Comparison
  pub severity : QuorumResult → D
  pub check_reference : KernelSpec D → Job → Task → List ℕ → ReferenceStats → ReferenceStats × Bool
  pub below : ℕ → ℕ → Bool

pub record Shared (D : Type 0) : Type 0 where
  pub jobs : JobManager
  pub fleet : Fleet D
  pub reputation : Option (ReputationTable D)
  pub spot_checks : Option SpotCheckPool
  pub compositor : Option (Compositor D)
  pub reference_stats : Option ReferenceStats
  pub asset_served : Option ℕ

-- The fields of the class `Session` but its pointers.
pub record Session : Type 0 where
  pub now_ms : ℕ
  pub conn_id : ℕ
  pub lease_ms : ℕ
  pub has_relay : Bool
  pub ice_servers : List String
  pub disable_p2p : Bool
  pub signals_this_window : ℕ
  pub quorum : QuorumConfig
  pub abusive : Bool
  pub speculation : Bool
  pub handshaked : Bool
  pub worker_id : WorkerId
  pub completed : List TaskId
  pub in_flight_results : List TaskId

pub record State (D : Type 0) : Type 0 where
  pub shared : Shared D
  pub session : Session

-- `kMaxSignalBytes` of include/p2pgpu/protocol/limits.hpp.
abbrev pub max_signal_bytes : ℕ
max_signal_bytes = 16 * 1024

abbrev pub max_signals_per_window : ℕ
max_signals_per_window = 64

module _ {D : Type 0} where
  abbrev pub with_jobs : JobManager → State D → State D
  with_jobs m s = record s { shared = record s.shared { jobs = m } }

  abbrev pub with_fleet : Fleet D → State D → State D
  with_fleet fleet s = record s { shared = record s.shared { fleet = fleet } }

  -- A write to the record of the session's own worker.
  abbrev pub adjust_self : (WorkerRecord D → WorkerRecord D) → State D → State D
  adjust_self change s = with_fleet (adjust s.session.worker_id change s.shared.fleet) s

  -- The reaction to an operation of the job manager: silence, or the error that the handler names.
  abbrev pub answer : Status → ErrorCode → String → Reaction D
  answer (ok _) code message = silence
  answer (err e) code message = non_fatal code message

  -- `DrainRevokes`: the frames, and the record with none left.
  abbrev pub revokes_of : Option (WorkerRecord D) → List (Outbound D)
  revokes_of none = []
  revokes_of (some r) = map revoke r.pending_revokes

  unfoldable pub drain_revokes : State D → State D × List (Outbound D)
  drain_revokes s = (
    adjust_self (λ r. record r { pending_revokes = [] }) s,
    revokes_of (lookup s.session.worker_id s.shared.fleet),
  )

  unfoldable pub on_throttle : DoubleOps D → D → State D → State D × Reaction D
  on_throttle f level s =
      (adjust_self (λ r. record r { throttle = f.clamp level f.zero_d f.one_d }) s, silence)

  -- `kMaxBenchmarkScore`.
  abbrev pub max_benchmark_score : DoubleOps D → D
  max_benchmark_score f = f.of_nat 1_000_000_000_000_000

  abbrev pub score_known :
      DoubleOps D → D → Option (WorkerRecord D) → State D → State D × Reaction D
  score_known f score none s = (s, silence)
  score_known f score (some r) s =
      if not (f.is_positive score && f.is_finite score)
      then (s, non_fatal malformed_message "unusable benchmark score")
      else (
        adjust_self (λ w. record w { score_ops_per_sec = f.min_d score (max_benchmark_score f) }) s,
        silence,
      )

  unfoldable pub on_benchmark_result : DoubleOps D → D → State D → State D × Reaction D
  on_benchmark_result f score s = score_known f score (lookup s.session.worker_id s.shared.fleet) s

  abbrev pub renewed : JobManager × Status → State D → State D × Reaction D
  renewed (m, status) s = (with_jobs m s, answer status lease_not_held "no lease on that task")

  unfoldable pub on_progress : Option TaskId → Bool → State D → State D × Reaction D
  on_progress none request_renew s = (s, non_fatal malformed_message "Progress has no task_id")
  on_progress (some id) request_renew s =
      if not request_renew
      then (s, silence)
      else renewed
          (renew_lease s.session.worker_id id s.session.now_ms s.session.lease_ms s.shared.jobs) s

  abbrev pub requeued : JobManager × Status → State D → State D × Reaction D
  requeued (m, status) s = (with_jobs m s, answer status internal "could not requeue")

  unfoldable pub on_release : Option TaskId → State D → State D × Reaction D
  on_release none s = (s, non_fatal malformed_message "Release has no task_id")
  on_release (some id) s =
      if not (has_value (check_lease s.session.worker_id id s.shared.jobs))
      then (s, non_fatal lease_not_held "no lease on that task")
      else requeued (requeue id TaskEvent.release s.shared.jobs) s

  unfoldable pub on_goodbye : State D → State D × Reaction D
  on_goodbye s =
      let m = (release_all_held_by s.session.worker_id s.shared.jobs).0 in
      (with_fleet (leave s.session.worker_id s.shared.fleet) (with_jobs m s), silence)

  -- The tasks that are held when the connection drops go back one by one; a refusal is only logged.
  unfoldable pub on_disconnect : State D → State D
  on_disconnect s =
      if not s.session.handshaked
      then s
      else let m =
          (release_each (held_by s.session.worker_id s.shared.jobs) (s.shared.jobs, 0)).0 in
        with_fleet (leave s.session.worker_id s.shared.fleet) (with_jobs m s)

  -- `OnSignal` after its rate limit: the payload is bounded and passed on, never read.
  abbrev pub relay_signal : Option WorkerId → Option (List ℕ) → State D → Reaction D
  relay_signal (some target) (some payload) s =
      if ltb max_signal_bytes (length payload)
      then non_fatal malformed_message "signal payload too large"
      else if id_eq target s.session.worker_id
      then non_fatal malformed_message "cannot signal yourself"
      else record {
        replies = [];
        relayed =
            if s.session.has_relay
            then (target, signal_from s.session.worker_id payload) ∷ []
            else [];
        close = false;
      }
  relay_signal _ _ s = non_fatal malformed_message "Signal without a peer or payload"

  unfoldable pub on_signal : Option WorkerId → Option (List ℕ) → State D → State D × Reaction D
  on_signal peer payload s =
      let n = (s.session.signals_this_window + 1) % u32_mod in
      (
        record s { session = record s.session { signals_this_window = n } },
        if ltb max_signals_per_window n
            then non_fatal malformed_message "signalling rate limit"
            else relay_signal peer payload s,
      )
