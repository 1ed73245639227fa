-- ===== src/Coordinator/Quorum/Members.antt =====
-- Where the submissions go in the clusters of `Decide` (src/coordinator/quorum.cpp): none is lost, and none
-- is counted twice.
use mathlib.Core.List.{Perm, append-nil, append_assoc, perm_middle}
use mathlib.Core.List.Perm
use p2p_gpu.Base.{
  ℕ, zero, suc, ◌<◌, sym, subst, inl, inr, Bool, List, [], ◌∷◌, ◌++◌, arith, Option-cases, length,
  get_or, erase_at,
}
use p2p_gpu.Coordinator.Job.{Submission}
use p2p_gpu.Coordinator.Quorum.{Comparison, Cluster, no_cluster, members_of, fit, place, clusters}

module _ (exact : Bool) (compare : List ℕ → List ℕ → Comparison) where
  place-Perm :
      (s : Submission) (cs : List Cluster)
      → Perm (members_of (place exact compare s cs)) (s ∷ members_of cs)
  unfolding place
  place-Perm s [] = Perm.refl (s ∷ [])
  place-Perm s (c ∷ cs) = elim (Option-cases (fit exact compare s c.members c.ulp)) [
    | inl e ↦ rw e (
        Perm.trans (Perm.append_left c.members (place-Perm s cs))
          (perm_middle c.members (members_of cs)))
    | inr (w, e) ↦ rw e (
        subst (λ l. Perm l (s ∷ (c.members ++ members_of cs)))
          (sym (append_assoc c.members (s ∷ []) (members_of cs)))
          (perm_middle c.members (members_of cs)))
  ]

  clusters-Perm :
      (subs : List Submission) (cs : List Cluster)
      → Perm (members_of (clusters exact compare subs cs)) (subs ++ members_of cs)
  unfolding clusters
  clusters-Perm [] cs = Perm.refl (members_of cs)
  clusters-Perm (s ∷ subs) cs =
      Perm.trans (clusters-Perm subs (place exact compare s cs))
        (Perm.trans (Perm.append_left subs (place-Perm s cs)) (perm_middle subs (members_of cs)))

  pub clusters-members :
      (subs : List Submission) → Perm (members_of (clusters exact compare subs [])) subs
  clusters-members subs =
      subst (λ l. Perm (members_of (clusters exact compare subs [])) l) (append-nil subs)
        (clusters-Perm subs [])

-- A list in front of two others can go behind the first.
front_swap : (xs ys zs : List Submission) → Perm (xs ++ (ys ++ zs)) (ys ++ (xs ++ zs))
front_swap [] ys zs = Perm.refl (ys ++ zs)
front_swap (x ∷ xs) ys zs =
    Perm.trans (Perm.cons x (front_swap xs ys zs)) (Perm.symm (perm_middle ys (xs ++ zs)))

-- A cluster that is taken out, in front of the others.
pub erase_at-Perm :
    (cs : List Cluster) (i : ℕ)
    → i < length cs
    → Perm ((get_or cs i no_cluster).members ++ members_of (erase_at cs i)) (members_of cs)
erase_at-Perm [] i h = absurd (omega arith)
erase_at-Perm (c ∷ cs) zero h = Perm.refl (c.members ++ members_of cs)
erase_at-Perm (c ∷ cs) (suc i) h =
    Perm.trans (front_swap (get_or cs i no_cluster).members c.members (members_of (erase_at cs i)))
      (Perm.append_left c.members (erase_at-Perm cs i (omega arith)))
