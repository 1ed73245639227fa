-- ===== src/Coordinator/Quorum/Examples.antt =====
-- The theorems on verdicts at concrete submissions of an exact kernel.
use p2p_gpu.Base.{ℕ, ◌*◌, ◌%◌, ◌≤◌, ◌<◌, ◌≡◌, refl, ◌⊎◌, true, List, [], ◌∷◌, arith, u32_mod, All}
use p2p_gpu.Coordinator.Job.{Submission}
use p2p_gpu.Coordinator.Quorum.{
  fixed_2x, QuorumConfig, accept, need_more_replicas, inconclusive, match, Comparison, workers,
  agrees, clusters, decide,
}
use p2p_gpu.Coordinator.Quorum.Clusters.{size}
use p2p_gpu.Coordinator.Quorum.Verdicts.{
  IsBacking, decide-accept, decide-undecided, decide-unanimous,
}

abbrev by : ℕ → ℕ → Submission
by worker checksum = record {
  worker = record { hi = 0; lo = worker };
  checksum = checksum;
  payload = [];
}

abbrev equal_bytes : List ℕ → List ℕ → Comparison
equal_bytes a b = record { verdict = match; max_ulp_diff = 0 }

abbrev two_of_three : QuorumConfig
two_of_three = record { policy = fixed_2x; required_agreement = 2; max_replicas = 3 }

-- Two of three workers give the answer 7.
decide-accept_example :
    (group : List Submission) × (rest : List Submission) × IsBacking true equal_bytes two_of_three
      (by 1 7 ∷ by 2 8 ∷ by 3 7 ∷ [])
      (decide true equal_bytes two_of_three (by 1 7 ∷ by 2 8 ∷ by 3 7 ∷ []))
      group
      rest
unfolding decide
decide-accept_example =
    decide-accept true equal_bytes two_of_three (by 1 7) (by 2 8 ∷ by 3 7 ∷ []) refl refl

three_answers :
    (decide true equal_bytes two_of_three (by 1 7 ∷ by 2 8 ∷ by 3 9 ∷ [])).action ≡ inconclusive
unfolding decide
three_answers = refl

decide-undecided_example :
    ((decide true equal_bytes two_of_three (by 1 7 ∷ by 2 8 ∷ [])).action ≡ accept)
    ⊎ (((decide true equal_bytes two_of_three (by 1 7 ∷ by 2 8 ∷ [])).action ≡ need_more_replicas)
        × (2 % u32_mod < 3)
        × All (λ c. size c < 2) (clusters true equal_bytes (by 1 7 ∷ by 2 8 ∷ []) []))
    ⊎ (((decide true equal_bytes two_of_three (by 1 7 ∷ by 2 8 ∷ [])).action ≡ inconclusive)
        × (3 ≤ 2 % u32_mod)
        × All
            (λ c. (size c < 2) × (size c * 2 ≤ 2))
            (clusters true equal_bytes (by 1 7 ∷ by 2 8 ∷ []) []))
decide-undecided_example =
    decide-undecided true equal_bytes two_of_three (by 1 7) (by 2 8 ∷ []) refl

decide-unanimous_example :
    ((decide true equal_bytes two_of_three (by 1 7 ∷ by 2 7 ∷ [])).action ≡ accept)
    × ((decide true equal_bytes two_of_three (by 1 7 ∷ by 2 7 ∷ [])).agreeing
        ≡ workers (by 1 7 ∷ by 2 7 ∷ []))
    × ((decide true equal_bytes two_of_three (by 1 7 ∷ by 2 7 ∷ [])).dissenting ≡ [])
unfolding agrees
decide-unanimous_example =
    decide-unanimous true equal_bytes two_of_three (by 1 7) (by 2 7 ∷ []) refl
      ((refl, tt), (tt, tt)) (omega arith)
