-- ===== src/Coordinator/Quorum.antt =====
-- The decision over the submissions of one task (src/coordinator/quorum.cpp,
-- include/p2pgpu/coordinator/quorum.hpp). The comparator of non-exact kernels is an argument, since it
-- works on floats: `compare a b` is the verdict on two payloads with the largest difference in units of
-- the last place. The relative difference, a double, and the text of `detail` are left out.
pub mod Clusters
pub mod Members
pub mod Verdicts
pub mod Required
mod Examples
use p2p_gpu.Base.{
  ℕ, suc, ◌-◌, ◌*◌, ◌%◌, max, Bool, true, false, Option, none, some, List, [], ◌∷◌, ◌++◌, map, ltb,
  leb, ◌==◌, if◌then◌else◌, u32_mod, length, get_or, erase_at,
}
use p2p_gpu.Protocol.Ids.{WorkerId}
use p2p_gpu.Coordinator.Job.{Submission}

pub data ReplicationPolicy : Type 0 where
  no_policy fixed_2x adaptive : ReplicationPolicy

pub record QuorumConfig : Type 0 where
  pub policy : ReplicationPolicy
  pub required_agreement : ℕ
  pub max_replicas : ℕ

pub data QuorumAction : Type 0 where
  accept need_more_replicas inconclusive : QuorumAction

pub record QuorumResult : Type 0 where
  pub action : QuorumAction
  pub agreeing : List WorkerId
  pub dissenting : List WorkerId
  pub agreeing_max_ulp : ℕ
  pub dissent_max_ulp : ℕ

-- A result with nothing filled in but the action.
abbrev pub bare : QuorumAction → QuorumResult
bare a = record {
  action = a;
  agreeing = [];
  dissenting = [];
  agreeing_max_ulp = 0;
  dissent_max_ulp = 0;
}

pub data Verdict : Type 0 where
  match mismatch unsupported : Verdict

pub record Comparison : Type 0 where
  pub verdict : Verdict
  pub max_ulp_diff : ℕ

pub record Agreement : Type 0 where
  pub agree : Bool
  pub max_ulp : ℕ

-- Submissions that all agree, with the largest difference seen among them. The source keeps indices
-- into the submissions; a cluster of the model keeps the submissions.
pub record Cluster : Type 0 where
  pub members : List Submission
  pub ulp : ℕ

abbrev pub is_match : Verdict → Bool
is_match match = true
is_match _ = false

abbrev pub workers : List Submission → List WorkerId
workers subs = map (λ s. s.worker) subs

-- The index of the first of the largest clusters.
unfoldable pub largest : List Cluster → ℕ → ℕ → ℕ → ℕ
largest [] i best best_size = best
largest (c ∷ cs) i best best_size =
    let more = ltb best_size (length c.members) in
    largest cs (suc i) (if more then i else best) (if more then length c.members else best_size)

abbrev pub best_index : List Cluster → ℕ
best_index [] = 0
best_index (c ∷ cs) = largest cs 1 0 (length c.members)

abbrev pub no_cluster : Cluster
no_cluster = record { members = []; ulp = 0 }

abbrev pub best_of : List Cluster → Cluster
best_of cs = get_or cs (best_index cs) no_cluster

abbrev pub losers : List Cluster → List Cluster
losers cs = erase_at cs (best_index cs)

abbrev pub members_of : List Cluster → List Submission
members_of [] = []
members_of (c ∷ cs) = c.members ++ members_of cs

abbrev pub first_of : List Submission → List ℕ
first_of [] = []
first_of (s ∷ rest) = s.payload

abbrev pub is_none : ReplicationPolicy → Bool
is_none no_policy = true
is_none _ = false

-- `exact` tells whether the kernel's determinism class is Exact.
module _ (exact : Bool) (compare : List ℕ → List ℕ → Comparison) where
  unfoldable pub agrees : Submission → Submission → Agreement
  agrees a b = if exact then record { agree = a.checksum == b.checksum; max_ulp = 0 } else record {
    agree = is_match (compare a.payload b.payload).verdict;
    max_ulp = (compare a.payload b.payload).max_ulp_diff;
  }

  -- The loop over a cluster's members: the cluster's difference with the newcomer, if it agrees with
  -- each of them.
  unfoldable pub fit : Submission → List Submission → ℕ → Option ℕ
  unfolding agrees
  fit s [] worst = some worst
  fit s (x ∷ xs) worst =
      let rest = fit s xs (max worst (agrees s x).max_ulp) in
      if (agrees s x).agree then rest else none

  abbrev pub joined : Submission → Cluster → Option ℕ → List Cluster → List Cluster → List Cluster
  joined s c none cs placed = c ∷ placed
  joined s c (some worst) cs placed = record { members = c.members ++ s ∷ []; ulp = worst } ∷ cs

  -- The first cluster that takes the newcomer, or a new one at the end.
  unfoldable pub place : Submission → List Cluster → List Cluster
  unfolding fit
  place s [] = record { members = s ∷ []; ulp = 0 } ∷ []
  place s (c ∷ cs) = joined s c (fit s c.members c.ulp) cs (place s cs)

  unfoldable pub clusters : List Submission → List Cluster → List Cluster
  unfolding place
  clusters [] cs = cs
  clusters (s ∷ subs) cs = clusters subs (place s cs)

  -- How far the losers are from the winner; a hash knows no distance.
  unfoldable pub dissent : List Submission → List ℕ → ℕ → ℕ
  dissent [] winner worst = worst
  dissent (s ∷ subs) winner worst =
      dissent subs winner
        (if exact then u32_mod - 1 else max worst (compare s.payload winner).max_ulp_diff)

  unfoldable pub accepted_by : List Cluster → QuorumResult
  unfolding dissent largest
  accepted_by cs = record {
    action = accept;
    agreeing = workers (best_of cs).members;
    dissenting = workers (members_of (losers cs));
    agreeing_max_ulp = (best_of cs).ulp;
    dissent_max_ulp = dissent (members_of (losers cs)) (first_of (best_of cs).members) 0;
  }

  unfoldable pub judge : QuorumConfig → ℕ → List Cluster → QuorumResult
  unfolding accepted_by largest
  judge cfg count cs =
      let best_size = length (best_of cs).members in
      if leb cfg.required_agreement best_size
      then accepted_by cs
      else if ltb (count % u32_mod) cfg.max_replicas
      then bare need_more_replicas
      else if ltb count (best_size * 2)
      then accepted_by cs
      else bare inconclusive

  unfoldable pub decide : QuorumConfig → List Submission → QuorumResult
  unfolding judge clusters
  decide cfg [] = bare need_more_replicas
  decide cfg (s ∷ subs) =
      if is_none cfg.policy
      then record (bare accept) { agreeing = s.worker ∷ [] }
      else judge cfg (length (s ∷ subs)) (clusters (s ∷ subs) [])
