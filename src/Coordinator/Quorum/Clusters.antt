-- ===== src/Coordinator/Quorum/Clusters.antt =====
-- What the clusters of `Decide` (src/coordinator/quorum.cpp) are.
use p2p_gpu.Base.{
  ℕ, zero, suc, ◌+◌, ◌≤◌, ◌<◌, ◌≡◌, refl, sym, subst, ◌∙◌, ◌⊎◌, inl, inr, Bool, true, false, Option,
  none, some, List, [], ◌∷◌, ◌++◌, arith, ltb, if◌then◌else◌, ltb→lt, Bool-cases, Option-cases,
  length, get_or, erase_at, All, length-append, All-append,
}
use p2p_gpu.Coordinator.Job.{Submission}
use p2p_gpu.Coordinator.Quorum.{
  Comparison, Cluster, largest, best_index, no_cluster, best_of, members_of, agrees, fit, place,
  clusters,
}

module _ (exact : Bool) (compare : List ℕ → List ℕ → Comparison) where
  abbrev pub Agree : Submission → Submission → Type 0
  Agree a b = (agrees exact compare a b).agree ≡ true

  -- Each submission agrees with every one before it.
  abbrev pub IsClique : List Submission → Type 0
  IsClique [] = Unit
  IsClique (s ∷ subs) = All (λ x. Agree x s) subs × IsClique subs

  snoc-IsClique :
      (xs : List Submission) (s : Submission)
      → IsClique xs
      → All (λ x. Agree s x) xs
      → IsClique (xs ++ s ∷ [])
  snoc-IsClique [] s c a = (tt, tt)
  snoc-IsClique (x ∷ xs) s c a =
      (All-append (λ y. Agree y x) xs (s ∷ []) c.0 (a.0, tt), snoc-IsClique xs s c.1 a.1)

  pub fit-Agree :
      (s : Submission) (xs : List Submission) (w v : ℕ)
      → fit exact compare s xs w ≡ some v
      → All (λ x. Agree s x) xs
  unfolding fit
  fit-Agree s [] w v e = tt
  fit-Agree s (x ∷ xs) w v e =
      let (a, r) = both_pass (agrees exact compare s x).agree _ e in (a, fit-Agree s xs _ v r)
    where
      both_pass :
          (b : Bool) (rest : Option ℕ)
          → (if b then rest else none) ≡ some v
          → (b ≡ true) × (rest ≡ some v)
      both_pass b rest q = ground arith

  abbrev pub AllCliques : List Cluster → Type 0
  AllCliques cs = All (λ c. IsClique c.members) cs

  place-AllCliques :
      (s : Submission) (cs : List Cluster) → AllCliques cs → AllCliques (place exact compare s cs)
  unfolding place
  place-AllCliques s [] h = ((tt, tt), tt)
  place-AllCliques s (c ∷ cs) h = elim (Option-cases (fit exact compare s c.members c.ulp)) [
    | inl e ↦ rw e (h.0, place-AllCliques s cs h.1)
    | inr (w, e) ↦ rw e (snoc-IsClique c.members s h.0 (fit-Agree s c.members c.ulp w e), h.1)
  ]

  pub clusters-AllCliques :
      (subs : List Submission) (cs : List Cluster)
      → AllCliques cs
      → AllCliques (clusters exact compare subs cs)
  unfolding clusters
  clusters-AllCliques [] cs h = h
  clusters-AllCliques (s ∷ subs) cs h =
      clusters-AllCliques subs (place exact compare s cs) (place-AllCliques s cs h)

  place-count :
      (s : Submission) (cs : List Cluster)
      → length (members_of (place exact compare s cs)) ≡ suc (length (members_of cs))
  unfolding place
  place-count s [] = refl
  place-count s (c ∷ cs) = elim (Option-cases (fit exact compare s c.members c.ulp)) [
    | inl e ↦ rw e (
        grind (
          arith,
          length-append c.members (members_of (place exact compare s cs)),
          length-append c.members (members_of cs),
          place-count s cs,
        ))
    | inr (w, e) ↦ rw e (
        grind (
          arith,
          length-append (c.members ++ s ∷ []) (members_of cs),
          length-append c.members (s ∷ []),
          length-append c.members (members_of cs),
        ))
  ]

  pub clusters-count :
      (subs : List Submission) (cs : List Cluster)
      → length (members_of (clusters exact compare subs cs)) ≡ length subs + length (members_of cs)
  unfolding clusters
  clusters-count [] cs = omega arith
  clusters-count (s ∷ subs) cs =
      grind (arith, clusters-count subs (place exact compare s cs), place-count s cs)

abbrev pub size : Cluster → ℕ
size c = length c.members

abbrev pub AtMost : ℕ → List Cluster → Type 0
AtMost n cs = All (λ c. size c ≤ n) cs

-- Where the loop ends: at the index that it began with, or at a larger cluster.
largest_lem :
    (cs : List Cluster) (i best best_size : ℕ)
    → ((largest cs i best best_size ≡ best) × AtMost best_size cs)
      ⊎ ((k : ℕ) × (k < length cs)
          × (largest cs i best best_size ≡ i + k)
          × (best_size < size (get_or cs k no_cluster))
          × AtMost (size (get_or cs k no_cluster)) cs)
unfolding largest
largest_lem [] i best best_size = inl (refl, tt)
largest_lem (c ∷ cs) i best best_size = elim (Bool-cases (ltb best_size (size c))) [
  | inl more ↦ elim (largest_lem cs (suc i) i (size c)) [
    | inl (e, h) ↦
        rw more
          (inr (0, omega arith, omega (arith, e), ltb→lt best_size (size c) more, (omega arith, h)))
    | inr (k, lt, e, up, h) ↦ rw more (
        inr (
          suc k,
          omega arith,
          omega (arith, e),
          omega (arith, ltb→lt best_size (size c) more),
          (omega arith, h),
        ))
  ]
  | inr kept ↦ elim (largest_lem cs (suc i) best best_size) [
    | inl (e, h) ↦ rw kept (inl (e, (not_more kept, h)))
    | inr (k, lt, e, up, h) ↦
        rw kept (inr (suc k, omega arith, omega (arith, e), up, (omega (arith, not_more kept), h)))
  ]
]
  where
    not_more : ltb best_size (size c) ≡ false → size c ≤ best_size
    not_more h = ground arith

-- The index that `Decide` chooses is that of a largest cluster.
pub best_index_lem :
    (c : Cluster) (cs : List Cluster)
    → (best_index (c ∷ cs) < length (c ∷ cs)) × AtMost (size (best_of (c ∷ cs))) (c ∷ cs)
best_index_lem c cs = elim (largest_lem cs 1 0 (size c)) [
  | inl (e, h) ↦ subst P (sym e) (omega arith, (omega arith, h))
  | inr (k, lt, e, up, h) ↦ subst P (next k ∙ sym e) (omega arith, (omega arith, h))
]
  where
    P : ℕ → Type 0
    P n = (n < length (c ∷ cs)) × AtMost (size (get_or (c ∷ cs) n no_cluster)) (c ∷ cs)

    next : (k : ℕ) → suc k ≡ 1 + k
    next k = omega arith

pub erase_at-count :
    (cs : List Cluster) (i : ℕ)
    → i < length cs
    → size (get_or cs i no_cluster) + length (members_of (erase_at cs i)) ≡ length (members_of cs)
erase_at-count [] i h = absurd (omega arith)
erase_at-count (c ∷ cs) zero h = grind (arith, length-append c.members (members_of cs))
erase_at-count (c ∷ cs) (suc i) h = grind (
  arith,
  length-append c.members (members_of cs),
  length-append c.members (members_of (erase_at cs i)),
  erase_at-count cs i (omega arith),
)
