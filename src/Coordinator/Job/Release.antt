-- ===== src/Coordinator/Job/Release.antt =====
-- What `JobManager::ReleaseAllHeldBy` (src/coordinator/job.cpp) leaves behind when a worker goes.
use mathlib.Core.Option.{some-injective}
use p2p_gpu.Base.{
  ℕ, ◌≡◌, refl, sym, ap, subst, ◌∙◌, ◌≢◌, ◌⊎◌, inl, inr, Bool, true, false, ◌||◌, none, some, List,
  [], ◌∷◌, arith, if◌then◌else◌, Bool-cases, contains, lookup, insert, lookup-insert,
}
use p2p_gpu.Protocol.Ids.{WorkerId, TaskId, id_eq, id_eq_iff, id_key}
use p2p_gpu.Protocol.Errors.{Error, ok, err, Status}
use p2p_gpu.Coordinator.Job.{Task, JobManager, unknown_task}
use p2p_gpu.Coordinator.TaskState.{TaskState, leased, release, advance}
use p2p_gpu.Coordinator.Job.Queries.{is_held_by, held_in, held_by}
use p2p_gpu.Coordinator.Job.Lease.{requeue, count_ok, release_each, release_all_held_by}
use p2p_gpu.Coordinator.Job.Cases.{find_cases, apply_cases}

held_leased : (worker : WorkerId) (t : Task) → is_held_by worker t ≡ true → t.state ≡ leased
unfolding is_held_by
held_leased worker t h = ground arith

-- Each task that the worker holds is in the list.
abbrev Covers : WorkerId → List TaskId → JobManager → Type 0
Covers worker ids m =
    (j : TaskId) (t : Task)
    → lookup j m.tasks ≡ some t
    → is_held_by worker t ≡ true
    → contains ids j ≡ true

refuses_release : (s : TaskState) (x : Error) → advance s release ≡ err x → s ≢ leased
unfolding advance
refuses_release s x e = ground arith

releases_to : (s u : TaskState) → advance s release ≡ ok u → u ≢ leased
unfolding advance
releases_to s u e = ground arith

overwritten :
    (id j : TaskId) (v w u : Task) (ts : List (TaskId × Task))
    → lookup j (insert id v (insert id w ts)) ≡ some u
    → (u ≡ v) ⊎ ((id_eq id j ≡ false) × (lookup j ts ≡ some u))
overwritten id j v w u ts q = elim (Bool-cases (id_eq id j)) [
  | inl hit ↦ inl (some-injective u v (sym q ∙ lookup-insert id j v (insert id w ts) ∙ rw hit refl))
  | inr miss ↦ inr (
    miss,
    sym (lookup-insert id j v (insert id w ts) ∙ rw miss (lookup-insert id j w ts ∙ rw miss refl))
        ∙ q,
  )
]

module _ (worker : WorkerId) where
  -- A release takes its task out of the list.
  requeue-Covers :
      (id : TaskId) (ids : List TaskId) (m : JobManager)
      → Covers worker (id ∷ ids) m
      → Covers worker ids (requeue id release m).0
  unfolding requeue
  requeue-Covers id ids m c =
      find_cases (λ r. Covers worker ids r.0) id unknown_task _ m
        (λ e j t q h.
          past j (c j t q h) λ hit. absurd (missing (sym e ∙ ap (λ k. lookup k m.tasks) hit ∙ q)))
        λ t e.
          apply_cases (λ r. Covers worker ids r.0) id t release _ m
            (λ x a j u q h. past j (c j u q h) λ hit. absurd (
              refuses_release t.state x a (
                ap (λ z. z.state) (some-injective t u (sym e ∙ ap (λ k. lookup k m.tasks) hit ∙ q))
                ∙ held_leased worker u h)))
            λ s a j u q h. elim (overwritten id j _ _ u m.tasks q) [
              | inl new ↦
                  absurd
                    (releases_to t.state s a (sym (ap (λ z. z.state) new) ∙ held_leased worker u h))
              | inr (miss, old) ↦ past_other (id_eq id j) (contains ids j) miss (c j u old h)
            ]
    where
      missing : {t : Task} → none ≢ some t
      missing e = cc

      past :
          (j : TaskId)
          → (id_eq id j || contains ids j) ≡ true
          → (id ≡ j → contains ids j ≡ true)
          → contains ids j ≡ true
      past j h k = elim (Bool-cases (id_eq id j)) [
        | inl hit ↦ k ((id_eq_iff id j).0 hit)
        | inr miss ↦ ground arith
      ]

      past_other : (a b : Bool) → a ≡ false → (a || b) ≡ true → b ≡ true
      past_other a b e h = ground arith

  release_each-Covers :
      (ids : List TaskId) (acc : JobManager × ℕ)
      → Covers worker ids acc.0
      → Covers worker [] (release_each ids acc).0
  unfolding release_each
  release_each-Covers [] acc c = c
  release_each-Covers (id ∷ ids) (m, n) c =
      release_each-Covers ids (count_ok (requeue id release m) n)
        (counted (requeue id release m) n (requeue-Covers id ids m c))
    where
      counted :
          (r : JobManager × Status) (k : ℕ)
          → Covers worker ids r.0
          → Covers worker ids (count_ok r k).0
      counted (m', ok _) k h = h
      counted (m', err _) k h = h

  held_in-Covers :
      (ts : List (TaskId × Task)) (j : TaskId) (t : Task)
      → lookup j ts ≡ some t
      → is_held_by worker t ≡ true
      → contains (held_in worker ts) j ≡ true
  unfolding held_in lookup
  held_in-Covers [] j t e h = cc
  held_in-Covers ((k, u) ∷ ts) j t e h = elim (Bool-cases (id_eq k j)) [
    | inl hit ↦
        rw (subst (λ x. is_held_by worker x ≡ true) (some-injective t u (sym e ∙ rw hit refl)) h)
          (rw hit refl)
    | inr miss ↦ later (is_held_by worker u) (held_in-Covers ts j t (sym (rw miss refl) ∙ e) h)
  ]
    where
      later :
          (b : Bool)
          → contains (held_in worker ts) j ≡ true
          → contains (if b then k ∷ held_in worker ts else held_in worker ts) j ≡ true
      later b c = ground arith

  -- After a worker's leases have been released it holds no lease on any task.
  pub release_all_held_by-none_held :
      (m : JobManager) (j : TaskId) (t : Task)
      → lookup j (release_all_held_by worker m).0.tasks ≡ some t
      → is_held_by worker t ≡ false
  unfolding release_all_held_by
  release_all_held_by-none_held m j t e = elim (Bool-cases (is_held_by worker t)) [
    | inr free ↦ free
    | inl held ↦ absurd (
        nobody (
          release_each-Covers (held_by worker m) (m, 0)
            (λ i u q h. unfold held_by in held_in-Covers m.tasks i u q h) j t e held))
  ]
    where
      nobody : false ≢ true
      nobody e = cc
