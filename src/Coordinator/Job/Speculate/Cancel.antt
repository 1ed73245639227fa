-- ===== src/Coordinator/Job/Speculate/Cancel.antt =====
-- What `JobManager::CancelSiblingsOf` (src/coordinator/job.cpp) does to the tasks that raced the winner.
use mathlib.Core.Option.{some-injective}
use p2p_gpu.Coordinator.TaskState.Proofs.{TaskState-discrete}
use p2p_gpu.Base.{
  ◌≡◌, refl, sym, ap, subst, ◌∙◌, ◌≢◌, ◌⊎◌, inl, inr, true, false, some, List, [], ◌∷◌, arith,
  if◌then◌else◌, Bool-cases, Option-cases, contains, lookup, insert, lookup-insert,
}
use p2p_gpu.Protocol.Ids.{TaskId, id_eq, id_eq_iff, id_key}
use p2p_gpu.Protocol.Errors.{Error, ok, err}
use p2p_gpu.Coordinator.Job.{Task, Job, JobManager, without_lease}
use p2p_gpu.Coordinator.TaskState.{TaskState, queued, cancelled, TaskEvent, is_terminal, advance}
use p2p_gpu.Coordinator.Job.Cases.{Result-cases, apply-ok, apply-err}
use p2p_gpu.Coordinator.Job.Speculate.{
  Revocation, root_of, is_live_sibling, cancelled_task, cancel_entry, cancel_over, cancel_family,
  cancel_siblings, cancel_siblings_of,
}

-- The task after its cancellation.
abbrev pub cancelled_form : Task → Task
cancelled_form t = record (without_lease t) { state = cancelled }

abbrev Acc : Type 0
Acc = JobManager × List Revocation

cancels :
    (s : TaskState) → is_terminal s ≡ false → s ≢ queued → advance s TaskEvent.cancel ≡ ok cancelled
unfolding is_terminal advance
cancels s e n = ground arith

refuses_queued : (s u : TaskState) → s ≡ queued → advance s TaskEvent.cancel ≢ ok u
unfolding advance
refuses_queued s u e q = ground arith

lookup-twice :
    (i k : TaskId) (v w : Task) (ts : List (TaskId × Task))
    → lookup k (insert i v (insert i w ts)) ≡ (if id_eq i k then some v else lookup k ts)
lookup-twice i k v w ts = elim (Bool-cases (id_eq i k)) [
  | inl hit ↦ rw hit (lookup-insert i k v (insert i w ts) ∙ rw hit refl)
  | inr miss ↦
      rw miss
        (lookup-insert i k v (insert i w ts) ∙ rw miss (lookup-insert i k w ts ∙ rw miss refl))
]

module _ (winner root : TaskId) where
  -- One round on a task that is there: it is cancelled, or nothing changes.
  entry_cases {ℓ} :
      (P : Acc → Type ℓ) (i : TaskId) (t : Task) (acc : Acc)
      → (is_live_sibling winner root i t ≡ false → P acc)
      → (t.state ≡ queued → P acc)
      → (is_live_sibling winner root i t ≡ true
          → t.state ≢ queued
          → (m : JobManager) (out : List Revocation)
          → m.tasks
            ≡ insert i (cancelled_form t) (insert i (record t { state = cancelled }) acc.0.tasks)
          → P (m, out))
      → P (cancel_entry winner root i (some t) acc)
  unfolding cancel_entry
  entry_cases P i t (m, out) dead waits gone = elim (Bool-cases (is_live_sibling winner root i t)) [
    | inr e ↦ rw e (dead e)
    | inl live ↦ rw live (elim (Result-cases (advance t.state TaskEvent.cancel)) [
      | inr (x, a) ↦
          subst (λ r. P (cancelled_task i r (m, out))) (sym (apply-err i t TaskEvent.cancel m x a))
            (unfold cancelled_task in refused x a)
      | inl (s, a) ↦
          subst (λ r. P (cancelled_task i r (m, out))) (sym (apply-ok i t TaskEvent.cancel m s a))
            (unfold cancelled_task in
              gone live (λ q. refuses_queued t.state s q a) _ _ (written s (sole s a)))
    ])
  ]
    where
      sole : (s : TaskState) → advance t.state TaskEvent.cancel ≡ ok s → s ≡ cancelled
      sole s a = unfold advance in ground arith

      written :
          (s : TaskState)
          → s ≡ cancelled
          → insert i
              (record (without_lease t) { state = s })
              (insert i (record t { state = s }) m.tasks)
            ≡ insert i (cancelled_form t) (insert i (record t { state = cancelled }) m.tasks)
      written s e =
          ap
            (λ s.
              insert i (record (without_lease t) { state = s })
                (insert i (record t { state = s }) m.tasks))
            e

      refused : (x : Error) → advance t.state TaskEvent.cancel ≡ err x → P (m, out)
      refused x a = elim (Bool-cases (is_terminal t.state)) [
        | inl over ↦ dead (unfold is_live_sibling in ground arith)
        | inr alive ↦ waits (unfold is_terminal advance in ground arith)
      ]

  -- A task that no round cancels: it waits in the queue, or is not a live sibling of the winner.
  abbrev Stays : TaskId → Task → Type 0
  Stays k t = is_live_sibling winner root k t ≡ true → t.state ≢ queued → ⊥

  entry_keeps :
      (i k : TaskId) (t : Task) (acc : Acc)
      → Stays k t
      → lookup k acc.0.tasks ≡ some t
      → lookup k (cancel_entry winner root i (lookup i acc.0.tasks) acc).0.tasks ≡ some t
  entry_keeps i k t acc st e = elim (Option-cases (lookup i acc.0.tasks)) [
    | inl q ↦ rw q (unfold cancel_entry in e)
    | inr (u, q) ↦ rw q (
        entry_cases (λ a. lookup k a.0.tasks ≡ some t) i u acc (λ d. e) (λ w. e)
          (λ live busy m out w.
            ap (lookup k) w ∙ lookup-twice i k _ _ acc.0.tasks ∙ elim (Bool-cases (id_eq i k)) [
              | inr miss ↦ rw miss e
              | inl hit ↦ absurd (same u q live busy hit)
            ]))
  ]
    where
      same :
          (u : Task)
          → lookup i acc.0.tasks ≡ some u
          → is_live_sibling winner root i u ≡ true
          → u.state ≢ queued
          → id_eq i k ≡ true
          → ⊥
      same u q live busy hit =
          let at = (id_eq_iff i k).0 hit in
          let tu = some-injective u t (sym q ∙ ap (λ x. lookup x acc.0.tasks) at ∙ e) in
          st
            (subst (λ x. is_live_sibling winner root k x ≡ true) tu
              (subst (λ x. is_live_sibling winner root x u ≡ true) at live))
            (subst (λ x. x.state ≢ queued) tu busy)

  over_keeps :
      (ids : List TaskId) (k : TaskId) (t : Task) (acc : Acc)
      → Stays k t
      → lookup k acc.0.tasks ≡ some t
      → lookup k (cancel_over winner root ids acc).0.tasks ≡ some t
  unfolding cancel_over
  over_keeps [] k t acc st e = e
  over_keeps (i ∷ ids) k t acc st e =
      over_keeps ids k t (cancel_entry winner root i (lookup i acc.0.tasks) acc) st
        (entry_keeps i k t acc st e)

  -- A round on another task.
  entry_other :
      (i k : TaskId) (t : Task) (acc : Acc)
      → id_eq i k ≡ false
      → lookup k acc.0.tasks ≡ some t
      → lookup k (cancel_entry winner root i (lookup i acc.0.tasks) acc).0.tasks ≡ some t
  entry_other i k t acc miss e = elim (Option-cases (lookup i acc.0.tasks)) [
    | inl q ↦ rw q (unfold cancel_entry in e)
    | inr (u, q) ↦ rw q (
        entry_cases (λ a. lookup k a.0.tasks ≡ some t) i u acc (λ d. e) (λ w. e)
          (λ l b m out w. ap (lookup k) w ∙ lookup-twice i k _ _ acc.0.tasks ∙ rw miss e))
  ]

  over_absent :
      (ids : List TaskId) (k : TaskId) (t : Task) (acc : Acc)
      → contains ids k ≡ false
      → lookup k acc.0.tasks ≡ some t
      → lookup k (cancel_over winner root ids acc).0.tasks ≡ some t
  unfolding cancel_over
  over_absent [] k t acc c e = e
  over_absent (i ∷ ids) k t acc c e =
      over_absent ids k t (cancel_entry winner root i (lookup i acc.0.tasks) acc) (ground arith)
        (entry_other i k t acc (ground arith) e)

  -- At the task itself, or past another one.
  entry_at :
      (i k : TaskId) (t : Task) (acc : Acc)
      → is_live_sibling winner root k t ≡ true
      → t.state ≢ queued
      → lookup k acc.0.tasks ≡ some t
      → lookup k (cancel_entry winner root i (lookup i acc.0.tasks) acc).0.tasks
        ≡ (if id_eq i k then some (cancelled_form t) else some t)
  entry_at i k t acc live busy e = elim (Bool-cases (id_eq i k)) [
    | inr miss ↦ rw miss (entry_other i k t acc miss e)
    | inl hit ↦ rw hit (
        subst (λ o. lookup k (cancel_entry winner root i o acc).0.tasks ≡ some (cancelled_form t))
          (sym (ap (λ x. lookup x acc.0.tasks) ((id_eq_iff i k).0 hit) ∙ e))
          (entry_cases (λ a. lookup k a.0.tasks ≡ some (cancelled_form t)) i t acc
            (λ d. absurd (
              clash (
                sym live
                ∙ ap (λ x. is_live_sibling winner root x t) (sym ((id_eq_iff i k).0 hit))
                ∙ d)))
            (λ w. absurd (busy w))
            (λ l b m out w. ap (lookup k) w ∙ lookup-twice i k _ _ acc.0.tasks ∙ rw hit refl)))
  ]
    where
      clash : true ≢ false
      clash q = cc

  cancelled_Stays : (k : TaskId) (t : Task) → Stays k (cancelled_form t)
  cancelled_Stays k t live busy = over (unfold is_live_sibling is_terminal in ground arith)
    where
      over : ⊥ → ⊥
      over x = x

  over_cancels :
      (ids : List TaskId) (k : TaskId) (t : Task) (acc : Acc)
      → contains ids k ≡ true
      → is_live_sibling winner root k t ≡ true
      → t.state ≢ queued
      → lookup k acc.0.tasks ≡ some t
      → lookup k (cancel_over winner root ids acc).0.tasks ≡ some (cancelled_form t)
  unfolding cancel_over
  over_cancels [] k t acc c live busy e = cc
  over_cancels (i ∷ ids) k t acc c live busy e = elim (Bool-cases (id_eq i k)) [
    | inl hit ↦
        over_keeps ids k (cancelled_form t) (cancel_entry winner root i (lookup i acc.0.tasks) acc)
          (cancelled_Stays k t) (entry_at i k t acc live busy e ∙ rw hit refl)
    | inr miss ↦
        over_cancels ids k t (cancel_entry winner root i (lookup i acc.0.tasks) acc) (later miss)
          live busy (entry_at i k t acc live busy e ∙ rw miss refl)
  ]
    where
      later : id_eq i k ≡ false → contains ids k ≡ true
      later m = ground arith

-- The members of a winner's family that are still alive.
abbrev pub IsRival : TaskId → Task → Job → TaskId → Task → Type 0
IsRival id w j k t = (contains j.tasks k ≡ true) × (is_live_sibling id (root_of id w) k t ≡ true)

-- When a task with a known job has won, each live member of its family on the job's list is cancelled
-- and held by nobody afterwards, unless it waits in the queue: then it is left as it is. Every other
-- task, the winner included, is left as it is.
pub cancel_siblings_of_lem :
    (id k : TaskId) (w t : Task) (j : Job) (m : JobManager)
    → lookup id m.tasks ≡ some w
    → lookup w.job m.jobs ≡ some j
    → lookup k m.tasks ≡ some t
    → (IsRival id w j k t
        × (t.state ≢ queued)
        × (lookup k (cancel_siblings_of id m).0.tasks ≡ some (cancelled_form t)))
      ⊎ (((¬ IsRival id w j k t) ⊎ (t.state ≡ queued))
          × (lookup k (cancel_siblings_of id m).0.tasks ≡ some t))
cancel_siblings_of_lem id k w t j m ew ej et =
    subst After (sym reduces) (elim (Bool-cases (contains j.tasks k)) [
      | inr c ↦
          inr (inl (λ r. off (sym c ∙ r.0)), over_absent id (root_of id w) j.tasks k t (m, []) c et)
      | inl c ↦ elim (Bool-cases (is_live_sibling id (root_of id w) k t)) [
        | inr d ↦ inr (
          inl (λ r. off (sym d ∙ r.1)),
          over_keeps id (root_of id w) j.tasks k t (m, []) (λ l b. off (sym d ∙ l)) et,
        )
        | inl live ↦ elim (TaskState-discrete t.state queued) [
          | yes q ↦ inr (inr q, over_keeps id (root_of id w) j.tasks k t (m, []) (λ l b. b q) et)
          | no busy ↦
              inl
                ((c, live), busy, over_cancels id (root_of id w) j.tasks k t (m, []) c live busy et)
        ]
      ]
    ])
  where
    off : false ≢ true
    off q = cc

    After : JobManager × List Revocation → Type 0
    After r =
        (IsRival id w j k t × (t.state ≢ queued) × (lookup k r.0.tasks ≡ some (cancelled_form t)))
        ⊎ (((¬ IsRival id w j k t) ⊎ (t.state ≡ queued)) × (lookup k r.0.tasks ≡ some t))

    reduces : cancel_siblings_of id m ≡ cancel_over id (root_of id w) j.tasks (m, [])
    reduces =
        unfold cancel_siblings_of cancel_siblings cancel_family in
        ap (λ o. cancel_siblings id o m) ew ∙ ap (λ o. cancel_family id w o m) ej
