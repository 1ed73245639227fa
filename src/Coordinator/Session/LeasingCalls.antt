-- ===== src/Coordinator/Session/LeasingCalls.antt =====
-- Every change that a lease request (src/coordinator/session.cpp) makes to the job manager is a sequence
-- of the manager's calls, and the connection keeps its identity.
use p2p_gpu.Base.{
  ℕ, zero, suc, min, max, ◌≡◌, refl, sym, ◌∙◌, ◌⊎◌, inl, inr, Bool, true, false, not, Option, none,
  some, List, [], both_branches, lookup,
}
use p2p_gpu.Protocol.Errors.{Result, ok, err}
use p2p_gpu.Coordinator.Job.{Task, Job, JobManager}
use p2p_gpu.Coordinator.Job.Queries.{find_job, peek_next_job}
use p2p_gpu.Coordinator.Job.Calls.{
  to_grant, to_release, to_issue_known_range, to_issue_speculative, perform,
}
use p2p_gpu.Coordinator.Job.Calls.Made.{Made, no_call, call, one_call, and_more}
use p2p_gpu.Coordinator.Sizer.{compute_task_size}
use p2p_gpu.Coordinator.Reputation.{ReputationTable}
use p2p_gpu.Coordinator.SpotCheck.{SpotCheckPool, Pick}
use p2p_gpu.Coordinator.Fleet.{WorkerRecord}
use p2p_gpu.Coordinator.Kernels.{KernelSpec}
use p2p_gpu.Coordinator.Params.{build_params}
use p2p_gpu.Coordinator.Session.Messages.{Outbound, Reaction}
use p2p_gpu.Coordinator.Session.Leasing.{
  sizing, fresh_for, probed, try_probe, spot_check_round, speculative_round, pick_task, give_back,
  send_grant, kernel_of, with_kernel, deliver, continued, grant_rounds, checked_blacklist,
  granted_unless, lease_for, on_lease_request,
}
use p2p_gpu.Coordinator.Session.{Env, Shared, Session, State, with_jobs, adjust_self}
use p2p_gpu.Coordinator.Assets.{adopt_cached_assets}
use p2p_gpu.Protocol.Ids.{id_key}

-- What messages leave of a session: the worker stays the same from the handshake on, the mark of abuse
-- is not touched, and no result comes into flight.
pub record Advances (a b : Session) : Type 0 where
  pub identity :
      ((b.worker_id ≡ a.worker_id) × (b.handshaked ≡ a.handshaked))
      ⊎ ((a.handshaked ≡ false) × (b.handshaked ≡ true))
  pub abuse : b.abusive ≡ a.abusive
  pub idle : a.in_flight_results ≡ [] → b.in_flight_results ≡ []

pub steady : {a : Session} → Advances a a
steady = record { identity = inl (refl, refl); abuse = refl; idle = λ e. e }

Advances-trans : {a b c : Session} → Advances a b → Advances b c → Advances a c
Advances-trans {a} {b} {c} h k = record {
  identity = joined h.identity k.identity;
  abuse = k.abuse ∙ h.abuse;
  idle = λ e. k.idle (h.idle e);
}
  where
    joined :
        ((b.worker_id ≡ a.worker_id) × (b.handshaked ≡ a.handshaked))
          ⊎ ((a.handshaked ≡ false) × (b.handshaked ≡ true))
        → ((c.worker_id ≡ b.worker_id) × (c.handshaked ≡ b.handshaked))
          ⊎ ((b.handshaked ≡ false) × (c.handshaked ≡ true))
        → ((c.worker_id ≡ a.worker_id) × (c.handshaked ≡ a.handshaked))
          ⊎ ((a.handshaked ≡ false) × (c.handshaked ≡ true))
    joined (inl p) (inl q) = inl (q.0 ∙ p.0, q.1 ∙ p.1)
    joined (inl p) (inr q) = inr (sym p.1 ∙ q.0, q.1)
    joined (inr p) (inl q) = inr (p.0, q.1 ∙ p.1)
    joined (inr p) (inr q) = inr (p.0, q.1)

module _ {D : Type 0} (env : Env D) where
  -- What a handler leaves: a job manager made by calls, and a session that has advanced.
  pub record Keeps (s s' : State D) : Type 0 where
    pub made : Made env.below s.shared.jobs s'.shared.jobs
    pub session : Advances s.session s'.session

  -- The same of a handler's answer, kept whole for the case splits.
  pub record ByCalls (s : State D) (r : State D × Reaction D) : Type 0 where
    pub made : Keeps s r.0

module _ {D : Type 0} {env : Env D} where
  pub still : {s : State D} → Keeps env s s
  still = record { made = no_call; session = steady }

  pub also : {s s' s'' : State D} → Keeps env s s' → Keeps env s' s'' → Keeps env s s''
  also h k = record { made = and_more h.made k.made; session = Advances-trans h.session k.session }

  -- A change of the shared objects alone.
  pub doing :
      {s : State D} {shared : Shared D}
      → Made env.below s.shared.jobs shared.jobs
      → Keeps env s (record { shared = shared; session = s.session })
  doing h = record { made = h; session = steady }

module _ {D : Type 0} (env : Env D) where
  released : (t : Task) (s : State D) → Keeps env s (give_back env t s).0
  unfolding perform
  released t s = doing (one_call (to_release t.id))

  fresh_for-Made :
      (rec : WorkerRecord D) (next : Option Job) (s : State D)
      → Made env.below s.shared.jobs (fresh_for env rec next s).0
  unfolding fresh_for perform
  fresh_for-Made rec none s = no_call
  fresh_for-Made rec (some j) s = one_call (
      to_grant s.session.worker_id s.session.now_ms s.session.lease_ms
        (compute_task_size env.doubles (sizing env rec j s.session.lease_ms)) rec.cached_assets)

  probed-Keeps :
      (t : Task) (pick : Pick) (pool : SpotCheckPool) (r : JobManager × Option Task) (s : State D)
      → Made env.below s.shared.jobs r.0
      → Keeps env s (probed env t pick pool r s).0
  unfolding perform
  probed-Keeps t pick pool (m, none) s h = doing h
  probed-Keeps t pick pool (m, some probe) s h = doing (call h (to_release t.id))

  try_probe-Keeps :
      (t : Task) (pick : Option Pick) (pool : SpotCheckPool) (s : State D)
      → Keeps env s (try_probe env t pick pool s).0
  unfolding perform
  try_probe-Keeps t none pool s = (doing no_call)
  try_probe-Keeps t (some pick) pool s = probed-Keeps t pick pool _ s (
      one_call (
        to_issue_known_range s.session.worker_id s.session.now_ms s.session.lease_ms pick.start_unit
          pick.unit_count))

  spot_check_round-Keeps :
      (task : Option Task) (pool : Option SpotCheckPool) (table : Option (ReputationTable D))
      (s : State D)
      → Keeps env s (spot_check_round env task pool table s).0
  unfolding spot_check_round
  spot_check_round-Keeps none pool table s = (doing no_call)
  spot_check_round-Keeps (some t) none table s = (doing no_call)
  spot_check_round-Keeps (some t) (some pool) none s = (doing no_call)
  spot_check_round-Keeps (some t) (some pool) (some table) s = try_probe-Keeps t _ pool s

  speculative_round-Keeps :
      (s : State D) (r : State D × Option Task)
      → Keeps env s r.0
      → Keeps env s (speculative_round env r).0
  unfolding speculative_round perform
  speculative_round-Keeps s (s', some t) h = h
  speculative_round-Keeps s (s', none) h =
      both_branches (λ (r : State D × Option Task). Keeps env s r.0) (not s'.session.speculation) h
        (also h (
          doing (
            one_call
              (to_issue_speculative s'.session.worker_id s'.session.now_ms s'.session.lease_ms))))

  pick_task-Keeps : (rec : WorkerRecord D) (s : State D) → Keeps env s (pick_task env rec s).0
  unfolding pick_task
  pick_task-Keeps rec s =
      let fresh = fresh_for env rec (peek_next_job s.shared.jobs) s in
      speculative_round-Keeps s _ (
        also {s' = with_jobs fresh.0 s} (doing (fresh_for-Made rec (peek_next_job s.shared.jobs) s))
          (spot_check_round-Keeps fresh.1 s.shared.spot_checks s.shared.reputation
            (with_jobs fresh.0 s)))

  send_grant-Keeps :
      (rec : WorkerRecord D) (spec : KernelSpec D) (j : Job) (t : Task) (params : Result (List ℕ))
      (s : State D)
      → Keeps env s (send_grant env rec spec j t params s).0
  send_grant-Keeps rec spec j t (err e) s = released t s
  send_grant-Keeps rec spec j t (ok params) s = (doing no_call)

  with_kernel-Keeps :
      (rec : WorkerRecord D) (t : Task) (work : Option (Job × KernelSpec D)) (s : State D)
      → Keeps env s (with_kernel env rec t work s).0
  with_kernel-Keeps rec t none s = released t s
  with_kernel-Keeps rec t (some (j, spec)) s =
      send_grant-Keeps rec spec j t (build_params spec j t) s

  deliver-Keeps :
      (s : State D) (rec : WorkerRecord D) (r : State D × Option Task)
      → Keeps env s r.0
      → Keeps env s (deliver env rec r).0
  unfolding deliver
  deliver-Keeps s rec (s', none) h = h
  deliver-Keeps s rec (s', some t) h =
      also h (with_kernel-Keeps rec t (kernel_of env (find_job t.job s'.shared.jobs)) s')

  continued-Keeps :
      (s : State D) (r : State D × Option (List (Outbound D)))
      (rest : State D → State D × List (Outbound D))
      → Keeps env s r.0
      → ((s' : State D) → Keeps env s' (rest s').0)
      → Keeps env s (continued env r rest).0
  continued-Keeps s (s', none) rest h k = h
  continued-Keeps s (s', some out) rest h k = also h (k s')

  grant_rounds-Keeps :
      (n : ℕ) (rec : WorkerRecord D) (s : State D) → Keeps env s (grant_rounds env n rec s).0
  unfolding grant_rounds
  grant_rounds-Keeps zero rec s = (doing no_call)
  grant_rounds-Keeps (suc n) rec s =
      continued-Keeps s (deliver env rec (pick_task env rec s)) (λ s'. grant_rounds env n rec s')
        (deliver-Keeps s rec (pick_task env rec s) (pick_task-Keeps rec s))
        (λ s'. grant_rounds-Keeps n rec s')

  granted_unless-Keeps :
      (want : ℕ) (rec : WorkerRecord D) (s : State D) (r : State D × Bool)
      → Keeps env s r.0
      → Keeps env s (granted_unless env want rec r).0
  granted_unless-Keeps want rec s (s', true) h = h
  granted_unless-Keeps want rec s (s', false) h = also h (grant_rounds-Keeps want rec s')

  checked_blacklist-Keeps :
      (table : Option (ReputationTable D)) (s : State D)
      → Keeps env s (checked_blacklist env table s).0
  checked_blacklist-Keeps none s = (doing no_call)
  checked_blacklist-Keeps (some table) s = (doing no_call)

  lease_for-Keeps :
      (want : ℕ) (rec : Option (WorkerRecord D)) (s : State D)
      → Keeps env s (lease_for env want rec s).0
  lease_for-Keeps want none s = (doing no_call)
  lease_for-Keeps want (some rec) s =
      both_branches (λ (r : State D × Reaction D). Keeps env s r.0)
        (not (env.doubles.is_positive rec.score_ops_per_sec)) (doing no_call)
        (both_branches (λ (r : State D × Reaction D). Keeps env s r.0) s.session.abusive
          (doing no_call)
          (granted_unless-Keeps want rec s _ (checked_blacklist-Keeps s.shared.reputation s)))

  pub on_lease_request-Keeps :
      (n : ℕ) (cached : Option (List (List ℕ))) (s : State D)
      → Keeps env s (on_lease_request env n cached s).0
  unfolding on_lease_request
  on_lease_request-Keeps n cached s =
      let s' = adjust_self (λ r. record r { cached_assets = adopt_cached_assets cached }) s in
      also {s' = s'} (doing no_call)
        (lease_for-Keeps (min (max n 1) 4) (lookup s.session.worker_id s'.shared.fleet) s')
