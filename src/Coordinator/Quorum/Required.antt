-- ===== src/Coordinator/Quorum/Required.antt =====
-- How many answers must agree, given a worker's record (`RequiredAgreementFor` of
-- src/coordinator/quorum.cpp).
use p2p_gpu.Base.{ℕ, Bool, false, ◌||◌, Option, none, some, ltb, if◌then◌else◌, lookup}
use p2p_gpu.Coordinator.Doubles.{DoubleOps}
use p2p_gpu.Protocol.Ids.{WorkerId, id_key}
use p2p_gpu.Coordinator.Quorum.{no_policy, fixed_2x, adaptive, QuorumConfig}
use p2p_gpu.Coordinator.Reputation.{ReputationConfig, Reputation, ReputationTable, score_of}

-- Is the worker one that has just stopped being trusted?
abbrev pub in_doubt : {D : Type 0} → ℕ → Option (Reputation D) → Bool
in_doubt now_ms none = false
in_doubt now_ms (some r) = r.on_probation || ltb now_ms r.blacklisted_until_ms

module _ {D : Type 0} (f : DoubleOps D) (rep : ReputationConfig D) where
  abbrev pub adaptive_agreement : QuorumConfig → ReputationTable D → WorkerId → ℕ → ℕ
  adaptive_agreement cfg t worker now_ms =
      if in_doubt now_ms (lookup worker t.workers)
      then cfg.max_replicas
      else if f.at_least (score_of f rep worker t) rep.trusted_at
      then 1
      else cfg.required_agreement

  unfoldable pub required_agreement_for : QuorumConfig → ReputationTable D → WorkerId → ℕ → ℕ
  unfolding score_of
  required_agreement_for cfg t worker now_ms = elim cfg.policy [
    | no_policy ↦ 1
    | fixed_2x ↦ cfg.required_agreement
    | adaptive ↦ adaptive_agreement cfg t worker now_ms
  ]
