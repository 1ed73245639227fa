-- ===== src/Coordinator/Session/Authority.antt =====
-- Who may change what through a session (src/coordinator/session.cpp): a result needs the lease on its
-- task, and a worker that is excluded gets no work.
use p2p_gpu.Base.{
  ℕ, min, max, ◌≡◌, refl, sym, subst, ◌⊎◌, inl, inr, true, false, not, Option, none, some, List,
  true_of_not, both_branches, by_cases, length, nat_eq, contains,
}
use p2p_gpu.Protocol.Ids.{TaskId, id_key}
use p2p_gpu.Protocol.Errors.{has_value}
use p2p_gpu.Protocol.Invariants.{
  check_single_in_flight_result, check_payload_checksum, check_payload_length,
}
use p2p_gpu.Coordinator.Job.Lease.{check_lease, requeue}
use p2p_gpu.Coordinator.TaskState.{TaskEvent}
use p2p_gpu.Coordinator.Fleet.{WorkerRecord}
use p2p_gpu.Coordinator.Reputation.{ReputationTable, is_blacklisted}
use p2p_gpu.Coordinator.Session.{Env, State, with_jobs}
use p2p_gpu.Coordinator.Session.Messages.{ResultHeader, Reaction, silence}
use p2p_gpu.Coordinator.Session.Results.{receive_result, result_for, on_result_header}
use p2p_gpu.Coordinator.Session.Leasing.{
  checked_blacklist, granted_unless, lease_for, on_lease_request,
}

module _ {D : Type 0} (env : Env D) where
  -- The state after a result for a task, as far as the checks before the submission decide it.
  abbrev pub IsGuarded : TaskId → ResultHeader → List ℕ → State D → State D → Type 0
  IsGuarded id h payload s s' =
      (s' ≡ s)
      ⊎ ((contains s.session.completed id ≡ false)
          × (has_value (check_payload_length h.payload_bytes (length payload)) ≡ true)
          × (has_value (check_lease s.session.worker_id id s.shared.jobs) ≡ true)
          × ((has_value (check_payload_checksum h.checksum (env.checksum_of payload)) ≡ true)
              ⊎ (s' ≡ with_jobs (requeue id TaskEvent.release s.shared.jobs).0 s)))

  receive_result-IsGuarded :
      (id : TaskId) (h : ResultHeader) (payload : List ℕ) (s : State D)
      → IsGuarded id h payload s (receive_result env id h payload s).0
  unfolding receive_result
  receive_result-IsGuarded id h payload s =
      by_cases (λ (r : State D × Reaction D). IsGuarded id h payload s r.0)
        (contains s.session.completed id) (λ _. inl refl)
        (λ fresh.
          both_branches (λ (r : State D × Reaction D). IsGuarded id h payload s r.0)
            (not
              (has_value (check_single_in_flight_result (contains s.session.in_flight_results id))))
            (inl refl)
            (by_cases (λ (r : State D × Reaction D). IsGuarded id h payload s r.0)
              (not (has_value (check_payload_length h.payload_bytes (length payload))))
              (λ _. inl refl)
              (λ whole.
                by_cases (λ (r : State D × Reaction D). IsGuarded id h payload s r.0)
                  (not (has_value (check_lease s.session.worker_id id s.shared.jobs)))
                  (λ _. inl refl)
                  (λ held.
                    by_cases (λ (r : State D × Reaction D). IsGuarded id h payload s r.0)
                      (not
                        (has_value (check_payload_checksum h.checksum (env.checksum_of payload))))
                      (λ _. inr (fresh, true_of_not _ whole, true_of_not _ held, inr refl))
                      (λ sound. inr (
                        fresh,
                        true_of_not _ whole,
                        true_of_not _ held,
                        inl (true_of_not _ sound),
                      ))))))

  -- A result changes nothing at all unless it is for a task that this connection has not completed yet,
  -- its payload has the length that its header says, and the worker holds the lease on the task; and if
  -- the payload does not have the checksum that the header says, all that happens is that the task goes
  -- back to the queue.
  pub on_result_header-IsGuarded :
      (id : TaskId) (h : ResultHeader) (payload : List ℕ) (s : State D)
      → h.task_id ≡ some id
      → IsGuarded id h payload s (on_result_header env h payload s).0
  unfolding on_result_header
  on_result_header-IsGuarded id h payload s e =
      subst (λ o. IsGuarded id h payload s (result_for env o h payload s).0) (sym e)
        (receive_result-IsGuarded id h payload s)

  -- The connection is marked for abuse, or the worker is blacklisted now.
  abbrev pub IsExcluded : State D → Type 0
  IsExcluded s =
      (s.session.abusive ≡ true)
      ⊎ ((table : ReputationTable D) × (s.shared.reputation ≡ some table)
          × ((is_blacklisted env.doubles env.reputation_config s.session.worker_id s.session.now_ms
                table).1
              ≡ true))

  -- Nothing is sent, and the job manager is as it was.
  abbrev pub IsTurnedAway : State D → State D × Reaction D → Type 0
  IsTurnedAway s r = (r.0.shared.jobs ≡ s.shared.jobs) × (r.1 ≡ silence)

  granted_unless-IsTurnedAway :
      (want : ℕ) (rec : WorkerRecord D) (s : State D) (table : ReputationTable D)
      → (is_blacklisted env.doubles env.reputation_config s.session.worker_id s.session.now_ms
          table).1
        ≡ true
      → IsTurnedAway s (granted_unless env want rec (checked_blacklist env (some table) s))
  granted_unless-IsTurnedAway want rec s table bad = rw bad (refl, refl)

  lease_for-IsTurnedAway :
      (want : ℕ) (rec : Option (WorkerRecord D)) (s : State D)
      → IsExcluded s
      → IsTurnedAway s (lease_for env want rec s)
  lease_for-IsTurnedAway want none s h = (refl, refl)
  lease_for-IsTurnedAway want (some rec) s (inl abusive) =
      both_branches (IsTurnedAway s) (not (env.doubles.is_positive rec.score_ops_per_sec))
        (refl, refl) (rw abusive (refl, refl))
  lease_for-IsTurnedAway want (some rec) s (inr (table, e, bad)) =
      both_branches (IsTurnedAway s) (not (env.doubles.is_positive rec.score_ops_per_sec))
        (refl, refl)
        (both_branches (IsTurnedAway s) s.session.abusive (refl, refl)
          (rw e (granted_unless-IsTurnedAway want rec s table bad)))

  -- A lease request of a worker that is blacklisted, or of a connection that is marked for abuse, is
  -- answered with silence, and the job manager is not touched.
  pub on_lease_request-IsTurnedAway :
      (n : ℕ) (cached : Option (List (List ℕ))) (s : State D)
      → IsExcluded s
      → IsTurnedAway s (on_lease_request env n cached s)
  unfolding on_lease_request
  on_lease_request-IsTurnedAway n cached s h = lease_for-IsTurnedAway (min (max n 1) 4) _ _ h
