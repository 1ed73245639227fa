-- ===== src/Coordinator/Quorum/Verdicts.antt =====
-- What a verdict of `Decide` (src/coordinator/quorum.cpp) means.
use mathlib.Core.List.{Perm, append-nil, append_assoc}
use mathlib.Core.List.Perm
use p2p_gpu.Base.{
  ℕ, zero, suc, ◌+◌, ◌*◌, ◌%◌, ◌≤◌, ◌<◌, max, ◌≡◌, refl, sym, ap, subst, ◌∙◌, ◌⊎◌, inl, inr, Bool,
  false, some, List, [], ◌∷◌, ◌++◌, arith, ltb, leb, ltb→lt, leb→le, le→leb, Bool-cases, u32_mod,
  length, get_or, All,
}
use p2p_gpu.Coordinator.Job.{Submission}
use p2p_gpu.Coordinator.Quorum.{
  QuorumConfig, accept, need_more_replicas, inconclusive, QuorumResult, bare, Comparison, Cluster,
  workers, best_index, no_cluster, best_of, losers, members_of, is_none, agrees, fit, joined, place,
  clusters, accepted_by, judge, decide,
}
use p2p_gpu.Coordinator.Quorum.Members.{clusters-members, erase_at-Perm}
use p2p_gpu.Coordinator.Quorum.Clusters.{
  Agree, IsClique, clusters-AllCliques, clusters-count, size, AtMost, best_index_lem,
  erase_at-count,
}

length-workers : (subs : List Submission) → length (workers subs) ≡ length subs
length-workers [] = refl
length-workers (s ∷ subs) = ap suc (length-workers subs)

All-get_or :
    (P : Cluster → Type 0) (cs : List Cluster) (i : ℕ)
    → i < length cs
    → All P cs
    → P (get_or cs i no_cluster)
All-get_or P [] i lt h = absurd (omega arith)
All-get_or P (c ∷ cs) zero lt h = h.0
All-get_or P (c ∷ cs) (suc i) lt h = All-get_or P cs i (omega arith) h.1

All-mono :
    {P Q : Cluster → Type 0} (cs : List Cluster) → ((c : Cluster) → P c → Q c) → All P cs → All Q cs
All-mono [] f h = tt
All-mono (c ∷ cs) f h = (f c h.0, All-mono cs f h.1)

is_empty-clusters : (cs : List Cluster) → 0 < length (members_of cs) → 0 < length cs
is_empty-clusters [] h = h
is_empty-clusters (c ∷ cs) h = omega arith

best_lem :
    (cs : List Cluster)
    → 0 < length cs
    → (best_index cs < length cs) × AtMost (size (best_of cs)) cs
best_lem [] h = absurd (omega arith)
best_lem (c ∷ cs) h = best_index_lem c cs

-- The four ways in which the tests of `Decide` can end.
module _ (exact : Bool) (compare : List ℕ → List ℕ → Comparison) where
  judge_cases {ℓ} :
      (P : QuorumResult → Type ℓ) (cfg : QuorumConfig) (n : ℕ) (cs : List Cluster)
      → (cfg.required_agreement ≤ size (best_of cs) → P (accepted_by exact compare cs))
      → (size (best_of cs) < cfg.required_agreement
          → n % u32_mod < cfg.max_replicas
          → P (bare need_more_replicas))
      → (cfg.max_replicas ≤ n % u32_mod
          → n < size (best_of cs) * 2
          → P (accepted_by exact compare cs))
      → (size (best_of cs) < cfg.required_agreement
          → cfg.max_replicas ≤ n % u32_mod
          → size (best_of cs) * 2 ≤ n
          → P (bare inconclusive))
      → P (judge exact compare cfg n cs)
  unfolding judge
  judge_cases P cfg n cs enough more majority split =
      elim (Bool-cases (leb cfg.required_agreement (size (best_of cs)))) [
        | inl a ↦ rw a (enough (leb→le _ _ a))
        | inr a ↦ elim (Bool-cases (ltb (n % u32_mod) cfg.max_replicas)) [
          | inl b ↦ rw (a, b) (more (ground arith) (ltb→lt _ _ b))
          | inr b ↦ elim (Bool-cases (ltb n (size (best_of cs) * 2))) [
            | inl c ↦ rw (a, b, c) (majority (ground arith) (ltb→lt _ _ c))
            | inr c ↦ rw (a, b, c) (split (ground arith) (ground arith) (ground arith))
          ]
        ]
      ]

  -- A group that an acceptance rests on, and those who gave other answers.
  pub record IsBacking (cfg : QuorumConfig) (subs : List Submission) (r : QuorumResult)
      (group rest : List Submission) : Type 0 where
    pub parted : Perm (group ++ rest) subs
    pub credited : r.agreeing ≡ workers group
    pub outvoted : r.dissenting ≡ workers rest
    pub unanimous : IsClique exact compare group
    pub strong :
        (cfg.required_agreement ≤ length group)
        ⊎ ((cfg.max_replicas ≤ length subs % u32_mod) × (length subs < length group * 2))
    pub everyone : length r.agreeing + length r.dissenting ≡ length subs

  accepted_by-IsBacking :
      (cfg : QuorumConfig) (subs : List Submission)
      → 0 < length subs
      → (cfg.required_agreement ≤ size (best_of (clusters exact compare subs [])))
        ⊎ ((cfg.max_replicas ≤ length subs % u32_mod)
            × (length subs < size (best_of (clusters exact compare subs [])) * 2))
      → (group : List Submission) × (rest : List Submission) × IsBacking cfg subs
          (accepted_by exact compare (clusters exact compare subs []))
          group
          rest
  unfolding accepted_by
  accepted_by-IsBacking cfg subs h strong = (
    (best_of cs).members,
    members_of (losers cs),
    record {
      parted =
          Perm.trans (erase_at-Perm cs (best_index cs) (best_lem cs filled).0)
            (clusters-members exact compare subs);
      credited = refl;
      outvoted = refl;
      unanimous =
          All-get_or (λ c. IsClique exact compare c.members) cs (best_index cs)
            (best_lem cs filled).0 (clusters-AllCliques exact compare subs [] tt);
      strong = strong;
      everyone = grind (
        arith,
        length-workers (best_of cs).members,
        length-workers (members_of (losers cs)),
        erase_at-count cs (best_index cs) (best_lem cs filled).0,
        clusters-count exact compare subs [],
      );
    },
  )
    where
      cs : List Cluster
      cs = clusters exact compare subs []

      filled : 0 < length cs
      filled = is_empty-clusters cs (omega (arith, clusters-count exact compare subs []))

  -- Where validation is on, `decide` judges the clusters of a task's submissions.
  decides :
      (cfg : QuorumConfig) (s : Submission) (subs : List Submission)
      → is_none cfg.policy ≡ false
      → decide exact compare cfg (s ∷ subs)
        ≡ judge exact compare cfg (length (s ∷ subs)) (clusters exact compare (s ∷ subs) [])
  unfolding decide
  decides cfg s subs e = rw e refl

  -- With validation on, a result is accepted only when the submissions part into two, up to order: a
  -- group of which each agrees with every other, and that is either as large as the policy asks, or,
  -- once no more replicas are allowed, more than half of the submissions; and the rest. The workers of
  -- the group are reported as agreeing, those of the rest as dissenting.
  pub decide-accept :
      (cfg : QuorumConfig) (s : Submission) (subs : List Submission)
      → is_none cfg.policy ≡ false
      → (decide exact compare cfg (s ∷ subs)).action ≡ accept
      → (group : List Submission) × (rest : List Submission) × IsBacking cfg
          (s ∷ subs)
          (decide exact compare cfg (s ∷ subs))
          group
          rest
  decide-accept cfg s subs e =
      subst (λ r. r.action ≡ accept → Backed r) (sym (decides cfg s subs e))
        (judge_cases (λ r. r.action ≡ accept → Backed r) cfg n
          (clusters exact compare (s ∷ subs) [])
          (λ enough a. accepted_by-IsBacking cfg (s ∷ subs) (omega arith) (inl enough))
          (λ few room a. cc)
          (λ full majority a.
            accepted_by-IsBacking cfg (s ∷ subs) (omega arith) (inr (full, majority)))
          (λ few full split a. cc))
    where
      Backed : QuorumResult → Type 0
      Backed r =
          (group : List Submission) × (rest : List Submission) × IsBacking cfg (s ∷ subs) r group
            rest

      n : ℕ
      n = length (s ∷ subs)

  -- With validation on, `decide` either accepts; or asks for another replica, while more are allowed
  -- and no cluster is as large as the policy asks; or calls the task inconclusive, when no more are
  -- allowed and no cluster is as large as the policy asks or holds a strict majority of the answers.
  pub decide-undecided :
      (cfg : QuorumConfig) (s : Submission) (subs : List Submission)
      → is_none cfg.policy ≡ false
      → ((decide exact compare cfg (s ∷ subs)).action ≡ accept)
        ⊎ (((decide exact compare cfg (s ∷ subs)).action ≡ need_more_replicas)
            × (length (s ∷ subs) % u32_mod < cfg.max_replicas)
            × All (λ c. size c < cfg.required_agreement) (clusters exact compare (s ∷ subs) []))
        ⊎ (((decide exact compare cfg (s ∷ subs)).action ≡ inconclusive)
            × (cfg.max_replicas ≤ length (s ∷ subs) % u32_mod)
            × All
                (λ c. (size c < cfg.required_agreement) × (size c * 2 ≤ length (s ∷ subs)))
                (clusters exact compare (s ∷ subs) []))
  unfolding accepted_by
  decide-undecided cfg s subs e = subst P (sym (decides cfg s subs e)) (
      judge_cases P cfg n cs (λ enough. inl refl)
        (λ few room.
          inr (inl (refl, room, All-mono cs (λ c h. omega arith) (best_lem cs filled).1)))
        (λ full majority. inl refl)
        (λ few full split. inr (
          inr
            (refl, full, All-mono cs (λ c h. (omega arith, omega arith)) (best_lem cs filled).1))))
    where
      n : ℕ
      n = length (s ∷ subs)

      cs : List Cluster
      cs = clusters exact compare (s ∷ subs) []

      P : QuorumResult → Type 0
      P r =
          (r.action ≡ accept)
          ⊎ ((r.action ≡ need_more_replicas)
              × (n % u32_mod < cfg.max_replicas)
              × All (λ c. size c < cfg.required_agreement) cs)
          ⊎ ((r.action ≡ inconclusive)
              × (cfg.max_replicas ≤ n % u32_mod)
              × All (λ c. (size c < cfg.required_agreement) × (size c * 2 ≤ n)) cs)

      filled : 0 < length cs
      filled = is_empty-clusters cs (omega (arith, clusters-count exact compare (s ∷ subs) []))

  fit-one :
      (s : Submission) (xs : List Submission) (w : ℕ)
      → All (λ x. Agree exact compare s x) xs
      → (v : ℕ) × (fit exact compare s xs w ≡ some v)
  unfolding fit
  fit-one s [] w h = (w, refl)
  fit-one s (x ∷ xs) w h =
      let (v, e) = fit-one s xs (max w (agrees exact compare s x).max_ulp) h.1 in (v, rw h.0 e)

  -- Submissions that all agree make one cluster.
  clusters-one :
      (subs seen : List Submission) (w : ℕ)
      → IsClique exact compare (seen ++ subs)
      → (v : ℕ) × (clusters exact compare subs (record { members = seen; ulp = w } ∷ [])
          ≡ record { members = seen ++ subs; ulp = v } ∷ [])
  unfolding clusters place
  clusters-one [] seen w h =
      (w, ap (λ l. record { members = l; ulp = w } ∷ []) (sym (append-nil seen)))
  clusters-one (s ∷ subs) seen w h =
      let (v, e) = fit-one s seen w (agrees_all seen h) in
      let (u, q) =
        clusters-one subs (seen ++ s ∷ []) v
          (subst (IsClique exact compare) (sym (append_assoc seen (s ∷ []) subs)) h) in
      (
        u,
        ap
              (λ o. clusters exact compare subs (
                joined exact compare s (record { members = seen; ulp = w }) o []
                  (place exact compare s [])))
              e
            ∙ q
            ∙ ap (λ l. record { members = l; ulp = u } ∷ []) (append_assoc seen (s ∷ []) subs),
      )
    where
      agrees_all :
          (xs : List Submission)
          → IsClique exact compare (xs ++ s ∷ subs)
          → All (λ x. Agree exact compare s x) xs
      agrees_all [] c = tt
      agrees_all (x ∷ xs) c = (first xs c.0, agrees_all xs c.1)
        where
          first :
              (ys : List Submission)
              → All (λ y. Agree exact compare y x) (ys ++ s ∷ subs)
              → Agree exact compare s x
          first [] a = a.0
          first (y ∷ ys) a = first ys a.1

  -- With validation on, submissions that all agree with each other are accepted as soon as there are
  -- as many as the policy asks for, and nobody is reported as dissenting.
  pub decide-unanimous :
      (cfg : QuorumConfig) (s : Submission) (subs : List Submission)
      → is_none cfg.policy ≡ false
      → IsClique exact compare (s ∷ subs)
      → cfg.required_agreement ≤ length (s ∷ subs)
      → ((decide exact compare cfg (s ∷ subs)).action ≡ accept)
        × ((decide exact compare cfg (s ∷ subs)).agreeing ≡ workers (s ∷ subs))
        × ((decide exact compare cfg (s ∷ subs)).dissenting ≡ [])
  decide-unanimous cfg s subs e clique enough =
      let (v, q) = clusters-one subs (s ∷ []) 0 clique in
      subst P
        (sym (decides cfg s subs e ∙ ap (judge exact compare cfg (length (s ∷ subs))) (whole v q)))
        (unfold judge in
          rw (le→leb cfg.required_agreement (length (s ∷ subs)) enough) (refl, refl, refl))
    where
      P : QuorumResult → Type 0
      P r = (r.action ≡ accept) × (r.agreeing ≡ workers (s ∷ subs)) × (r.dissenting ≡ [])

      whole :
          (v : ℕ)
          → clusters exact compare subs (record { members = s ∷ []; ulp = 0 } ∷ [])
            ≡ record { members = s ∷ subs; ulp = v } ∷ []
          → clusters exact compare (s ∷ subs) [] ≡ record { members = s ∷ subs; ulp = v } ∷ []
      whole v q = unfold clusters in q
