-- ===== src/Coordinator/Session/Leasing.antt =====
-- `Session::OnLeaseRequest` of src/coordinator/session.cpp: who gets work, and one round of the loop
-- that hands it out.
use p2p_gpu.Base.{
  ℕ, zero, suc, ◌*◌, ◌/◌, ◌%◌, min, max, Bool, true, false, not, ◌||◌, Option, none, some, List, [],
  ◌∷◌, ◌++◌, ◌==◌, if◌then◌else◌, u64_mod, u32_mod, length, lookup,
}
use p2p_gpu.Protocol.Ids.{WorkerId, id_key}
use p2p_gpu.Protocol.Errors.{Result, ok, err}
use p2p_gpu.Coordinator.Affinity.{AssetId, has_asset}
use p2p_gpu.Coordinator.Job.{Task, RenderConfig, Job, remaining_units, JobManager}
use p2p_gpu.Coordinator.Job.Queries.{find_job, peek_next_job}
use p2p_gpu.Coordinator.Job.Lease.{requeue}
use p2p_gpu.Coordinator.Job.Grant.{grant}
use p2p_gpu.Coordinator.Job.Speculate.{issue_speculative, issue_known_range}
use p2p_gpu.Coordinator.TaskState.{TaskEvent}
use p2p_gpu.Coordinator.Composite.{Tile, tile_at}
use p2p_gpu.Coordinator.Doubles.{ratio}
use p2p_gpu.Coordinator.Sizer.{SizingInputs, compute_task_size}
use p2p_gpu.Coordinator.Reputation.{ReputationTable, score, score_of, is_blacklisted}
use p2p_gpu.Coordinator.SpotCheck.{SpotCheckPool, Pick, maybe, mark_issued}
use p2p_gpu.Coordinator.Fleet.{WorkerRecord, peers_holding}
use p2p_gpu.Coordinator.Assets.{hex_of, Hash32, hash_of, adopt_cached_assets}
use p2p_gpu.Coordinator.Kernels.{KernelSpec, find_kernel}
use p2p_gpu.Coordinator.Params.{shr, build_params}
use p2p_gpu.Coordinator.Session.Messages.{
  Envelope, Outbound, task_grant, peer_list, Reaction, replying, silence,
}
use p2p_gpu.Coordinator.Session.AssetServing.{find_in}
use p2p_gpu.Coordinator.Session.{Env, State, with_jobs, adjust_self}

-- `kTargetTaskMs`, and `kMaxPeersPerList`.
abbrev pub target_task_ms : ℕ
target_task_ms = 2000

abbrev pub max_peers_per_list : ℕ
max_peers_per_list = 8

module _ {D : Type 0} (env : Env D) where
  -- `flop_per_unit` as a double, 1 where the kernel is unknown or says nothing.
  abbrev pub ops_per_unit : Option (KernelSpec D) → D
  ops_per_unit none = env.doubles.one_d
  ops_per_unit (some spec) =
      if spec.flop_per_unit == 0 then env.doubles.one_d else env.doubles.of_nat spec.flop_per_unit

  abbrev pub floor_of : Option (KernelSpec D) → ℕ
  floor_of none = 0
  floor_of (some spec) = spec.r5_min_units

  abbrev pub sizing : WorkerRecord D → Job → ℕ → SizingInputs D
  sizing rec j lease_ms =
      let spec = find_kernel j.kernel_id env.kernels in
      record {
        score = env.doubles.over rec.score_ops_per_sec (ops_per_unit spec);
        correction = rec.correction;
        throttle = rec.throttle;
        target_ms = target_task_ms;
        lease_ms = lease_ms;
        r5_min_units = floor_of spec;
        remaining_units = remaining_units j;
        cold_start = rec.tasks_completed == 0;
      }

  -- The grant of the round, none where no job is left to peek at.
  unfoldable pub fresh_for : WorkerRecord D → Option Job → State D → JobManager × Option Task
  fresh_for rec none s = (s.shared.jobs, none)
  fresh_for rec (some j) s =
      grant s.session.worker_id s.session.now_ms s.session.lease_ms
        (compute_task_size env.doubles (sizing rec j s.session.lease_ms)) rec.cached_assets
        s.shared.jobs

  -- `spot_checks_->Maybe(score, roll, h >> 16)`.
  abbrev pub spot_hash : Task → ℕ
  spot_hash t = (t.id.lo * 2_654_435_761) % u64_mod

  abbrev pub pick_for : Task → D → SpotCheckPool → Option Pick
  pick_for t score pool =
      let roll = ratio env.doubles (spot_hash t % 10_000) 10_000 in
      maybe (env.doubles.at_least score env.spot_check_config.proven_at)
        (λ proven. env.doubles.at_least roll (
          if proven
          then env.spot_check_config.rate_trusted
          else env.spot_check_config.rate_unproven))
        (shr (spot_hash t) 16) pool

  abbrev pub with_pool : SpotCheckPool → State D → State D
  with_pool pool s = record s { shared = record s.shared { spot_checks = some pool } }

  -- The probe replaces the task, which goes back to the queue.
  abbrev pub probed :
      Task → Pick → SpotCheckPool → JobManager × Option Task → State D → State D × Option Task
  probed t pick pool (m, none) s = (with_jobs m s, some t)
  probed t pick pool (m, some probe) s = (
    with_pool (mark_issued probe.id pick.expected_checksum pool)
        (with_jobs (requeue t.id TaskEvent.release m).0 s),
    some probe,
  )

  abbrev pub try_probe : Task → Option Pick → SpotCheckPool → State D → State D × Option Task
  try_probe t none pool s = (s, some t)
  try_probe t (some pick) pool s =
      probed t pick pool
        (issue_known_range s.session.worker_id s.session.now_ms s.session.lease_ms pick.start_unit
          pick.unit_count s.shared.jobs)
        s

  unfoldable pub spot_check_round :
      Option Task
      → Option SpotCheckPool
      → Option (ReputationTable D)
      → State D
      → State D × Option Task
  spot_check_round (some t) (some pool) (some reputation) s =
      try_probe t
        (pick_for t (score_of env.doubles env.reputation_config s.session.worker_id reputation)
          pool)
        pool s
  spot_check_round task _ _ s = (s, task)

  -- Nothing left to carve: a replica of somebody's task, where speculation is on.
  unfoldable pub speculative_round : State D × Option Task → State D × Option Task
  speculative_round (s, some t) = (s, some t)
  speculative_round (s, none) =
      if not s.session.speculation
      then (s, none)
      else let (m, task) =
          issue_speculative env.below s.session.worker_id s.session.now_ms s.session.lease_ms
            s.shared.jobs in
        (with_jobs m s, task)

  -- The task of one round.
  unfoldable pub pick_task : WorkerRecord D → State D → State D × Option Task
  pick_task rec s =
      let (m, task) = fresh_for rec (peek_next_job s.shared.jobs) s in
      speculative_round
        (spot_check_round task s.shared.spot_checks s.shared.reputation (with_jobs m s))

  -- The output's size: that of the tile for a render task, else the manifest's.
  abbrev pub tile_bytes : Option Tile → ℕ → ℕ
  tile_bytes none manifest = manifest
  tile_bytes (some tile) manifest = (tile.w * tile.h * 16) % u32_mod

  abbrev pub output_bytes_of : KernelSpec D → Option RenderConfig → Task → ℕ
  output_bytes_of spec none t = spec.output_bytes
  output_bytes_of spec (some r) t =
      tile_bytes (tile_at r.grid (t.start_unit / r.samples_per_tile % u32_mod)) spec.output_bytes

  -- `input_ref` with the asset's length, 0 where the store does not have it.
  abbrev pub length_or_zero : Option (List ℕ) → ℕ
  length_or_zero none = 0
  length_or_zero (some blob) = length blob

  abbrev pub input_of_grant : Option AssetId → Option (Hash32 × ℕ)
  input_of_grant none = none
  input_of_grant (some asset) =
      some (hash_of asset, length_or_zero (find_in env.assets (hex_of asset)))

  abbrev pub envelope : KernelSpec D → Job → Task → List ℕ → ℕ → Envelope
  envelope spec j t params lease_ms = record {
    task_id = t.id;
    job_id = t.job;
    kernel_id = spec.id;
    seed = j.seed;
    params = params;
    input_ref = input_of_grant j.input_ref;
    start_unit = t.start_unit;
    work_units = t.unit_count;
    output_bytes = output_bytes_of spec j.render t;
    lease_ms = lease_ms;
  }

  abbrev pub listed : List WorkerId → List (Outbound D)
  listed [] = []
  listed (p ∷ peers) = peer_list (p ∷ peers) ∷ []

  -- The peers that hold the asset, if the worker lacks it.
  abbrev pub peers_for : WorkerRecord D → Option AssetId → State D → List (Outbound D)
  peers_for rec none s = []
  peers_for rec (some asset) s =
      if s.session.disable_p2p || has_asset rec.cached_assets asset
      then []
      else listed (peers_holding asset s.session.worker_id max_peers_per_list s.shared.fleet)

  -- What is remembered of a grant.
  abbrev pub predicted : WorkerRecord D → KernelSpec D → Task → ℕ → WorkerRecord D → WorkerRecord D
  predicted rec spec t now_ms w = record w {
    predicted_ms =
        env.doubles.over
          (env.doubles.times (env.doubles.of_nat 1000) (env.doubles.of_nat t.unit_count))
          (env.doubles.over rec.score_ops_per_sec (ops_per_unit (some spec)));
    granted_at_ms = now_ms;
    first_grant_ms = if w.first_grant_ms == 0 then now_ms else w.first_grant_ms;
  }

  abbrev pub give_back : Task → State D → State D × Option (List (Outbound D))
  give_back t s = (with_jobs (requeue t.id TaskEvent.release s.shared.jobs).0 s, none)

  abbrev pub send_grant :
      WorkerRecord D
      → KernelSpec D
      → Job
      → Task
      → Result (List ℕ)
      → State D
      → State D × Option (List (Outbound D))
  send_grant rec spec j t (err e) s = give_back t s
  send_grant rec spec j t (ok params) s = (
    adjust_self (predicted rec spec t s.session.now_ms) s,
    some (
        peers_for rec j.input_ref s
        ++ task_grant (envelope spec j t params s.session.lease_ms) ∷ []),
  )

  abbrev pub kernel_of : Option Job → Option (Job × KernelSpec D)
  kernel_of none = none
  kernel_of (some j) = elim (find_kernel j.kernel_id env.kernels) [
    | none ↦ none
    | some spec ↦ some (j, spec)
  ]

  abbrev pub with_kernel :
      WorkerRecord D
      → Task
      → Option (Job × KernelSpec D)
      → State D
      → State D × Option (List (Outbound D))
  with_kernel rec t none s = give_back t s
  with_kernel rec t (some (j, spec)) s = send_grant rec spec j t (build_params spec j t) s

  -- The rest of a round; `none` is the `break`.
  unfoldable pub deliver :
      WorkerRecord D → State D × Option Task → State D × Option (List (Outbound D))
  deliver rec (s, none) = (s, none)
  deliver rec (s, some t) = with_kernel rec t (kernel_of (find_job t.job s.shared.jobs)) s

  abbrev pub continued :
      State D × Option (List (Outbound D))
      → (State D → State D × List (Outbound D))
      → State D × List (Outbound D)
  continued (s, none) rest = (s, [])
  continued (s, some out) rest = let (s', more) = rest s in (s', out ++ more)

  -- The loop, with the rounds that are left.
  unfoldable pub grant_rounds : ℕ → WorkerRecord D → State D → State D × List (Outbound D)
  grant_rounds zero rec s = (s, [])
  grant_rounds (suc n) rec s =
      continued (deliver rec (pick_task rec s)) (λ s'. grant_rounds n rec s')

  -- The blacklist's answer; looking lets a cooldown that is over end.
  abbrev pub checked_blacklist : Option (ReputationTable D) → State D → State D × Bool
  checked_blacklist none s = (s, false)
  checked_blacklist (some reputation) s =
      let (table, refused) =
        is_blacklisted env.doubles env.reputation_config s.session.worker_id s.session.now_ms
          reputation in
      (record s { shared = record s.shared { reputation = some table } }, refused)

  abbrev pub granted_unless : ℕ → WorkerRecord D → State D × Bool → State D × Reaction D
  granted_unless want rec (s, true) = (s, silence)
  granted_unless want rec (s, false) = let (s', out) = grant_rounds want rec s in (s', replying out)

  abbrev pub lease_for : ℕ → Option (WorkerRecord D) → State D → State D × Reaction D
  lease_for want none s = (s, silence)
  lease_for want (some rec) s =
      if not (env.doubles.is_positive rec.score_ops_per_sec)
      then (s, silence)
      else if s.session.abusive
      then (s, silence)
      else granted_unless want rec (checked_blacklist s.shared.reputation s)

  unfoldable pub on_lease_request : ℕ → Option (List (List ℕ)) → State D → State D × Reaction D
  on_lease_request max_tasks cached s =
      let s' = adjust_self (λ r. record r { cached_assets = adopt_cached_assets cached }) s in
      lease_for (min (max max_tasks 1) 4) (lookup s.session.worker_id s'.shared.fleet) s'
