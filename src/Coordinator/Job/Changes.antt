-- ===== src/Coordinator/Job/Changes.antt =====
-- The one way in which the table of tasks changes: an entry is written by a step of its task, or a
-- task is born leased. Every operation is shown to be such a change, so what holds of the steps holds
-- of the whole manager.
pub mod Single
pub mod Whole
pub mod Granting
use mathlib.Core.Option.{some-injective}
use p2p_gpu.Base.{
  ◌<◌, ◌≡◌, refl, sym, ap, subst, ◌∙◌, ◌≢◌, inl, inr, Bool, true, false, some, List, arith,
  Bool-cases, length, contains, lookup, insert, emplace, lookup-insert, keys, AllEntries,
  insert-AllEntries, AllEntries-lookup, insert-insert, lookup-emplace, emplace-AllEntries, Distinct,
  insert-Distinct, emplace-Distinct,
}
use p2p_gpu.Coordinator.Job.{Task}
use p2p_gpu.Protocol.Ids.{WorkerId, TaskId, nil, id_eq, id_eq_iff, id_key}
use p2p_gpu.Coordinator.TaskState.{TaskState, leased, validating, needs_replica, accepted, rejected}
use p2p_gpu.Coordinator.TaskState.Proofs.{Steps, here, Steps-trans}

-- States that a task reaches only after a worker has submitted a result for it.
abbrev pub is_judged : TaskState → Bool
is_judged validating = true
is_judged needs_replica = true
is_judged accepted = true
is_judged rejected = true
is_judged _ = false

-- A task that nobody has leased has no holder, and a judged one has a worker on record.
pub record IsSound (t : Task) : Type 0 where
  pub unheld : t.state ≢ leased → t.holder ≡ nil
  pub credited : is_judged t.state ≡ true → 0 < length t.prior_workers

-- What one operation may do to a task.
pub record TaskStep (t u : Task) : Type 0 where
  pub moves : Steps t.state u.state
  pub same_id : u.id ≡ t.id
  pub same_job : u.job ≡ t.job
  pub same_start : u.start_unit ≡ t.start_unit
  pub same_count : u.unit_count ≡ t.unit_count
  pub same_origin : u.replica_of ≡ t.replica_of
  pub recorded :
      (w : WorkerId) → contains t.prior_workers w ≡ true → contains u.prior_workers w ≡ true
  pub sound : IsSound t → IsSound u

pub TaskStep-refl : (t : Task) → TaskStep t t
TaskStep-refl t = record {
  moves = here;
  same_id = refl;
  same_job = refl;
  same_start = refl;
  same_count = refl;
  same_origin = refl;
  recorded = λ w h. h;
  sound = λ s. s;
}

pub TaskStep-trans : (t u v : Task) → TaskStep t u → TaskStep u v → TaskStep t v
TaskStep-trans t u v p q = record {
  moves = Steps-trans p.moves q.moves;
  same_id = q.same_id ∙ p.same_id;
  same_job = q.same_job ∙ p.same_job;
  same_start = q.same_start ∙ p.same_start;
  same_count = q.same_count ∙ p.same_count;
  same_origin = q.same_origin ∙ p.same_origin;
  recorded = λ w h. q.recorded w (p.recorded w h);
  sound = λ s. q.sound (p.sound s);
}

pub record IsBorn (id : TaskId) (t : Task) : Type 0 where
  pub own_id : t.id ≡ id
  pub born_leased : t.state ≡ leased

abbrev pub Tasks : Type 0
Tasks = List (TaskId × Task)

pub data Change : Tasks → Tasks → Type 0 where
  same : {ts : Tasks} → Change ts ts
  write :
      (ts : Tasks) (id : TaskId) (t u : Task)
      → lookup id ts ≡ some t
      → TaskStep t u
      → Change ts (insert id u ts)
  birth : (ts : Tasks) (id : TaskId) (t : Task) → IsBorn id t → Change ts (emplace id t ts)
  both : {ts us vs : Tasks} → Change ts us → Change us vs → Change ts vs

-- An intermediate value that is written over is not seen.
pub write_over :
    (ts : Tasks) (id : TaskId) (t u v : Task)
    → lookup id ts ≡ some t
    → TaskStep t v
    → Change ts (insert id v (insert id u ts))
write_over ts id t u v e s = subst (Change ts) (sym (insert-insert id v u ts)) (write ts id t v e s)

pub write_over_twice :
    (ts : Tasks) (id : TaskId) (t u v w : Task)
    → lookup id ts ≡ some t
    → TaskStep t w
    → Change ts (insert id w (insert id v (insert id u ts)))
write_over_twice ts id t u v w e s =
    subst (Change ts) (sym (insert-insert id w v (insert id u ts))) (write_over ts id t u w e s)

-- A task that is there stays there, and has only made steps.
pub Change-lookup :
    {ts us : Tasks} (id : TaskId) (t : Task)
    → Change ts us
    → lookup id ts ≡ some t
    → (u : Task) × (lookup id us ≡ some u) × TaskStep t u
Change-lookup id t same e = (t, e, TaskStep-refl t)
Change-lookup id t (write ts k a b q s) e = elim (Bool-cases (id_eq k id)) [
  | inl hit ↦ (
    b,
    lookup-insert k id b ts ∙ rw hit,
    subst (λ x. TaskStep x b)
        (some-injective a t (sym q ∙ ap (λ x. lookup x ts) ((id_eq_iff k id).0 hit) ∙ e)) s,
  )
  | inr miss ↦ (t, lookup-insert k id b ts ∙ rw miss e, TaskStep-refl t)
]
Change-lookup id t (birth ts k b h) e =
    (t, ground (arith, lookup-emplace k id b ts, id_eq_iff k id), TaskStep-refl t)
Change-lookup id t (both c d) e =
    let (u, q, s) = Change-lookup id t c e in
    let (v, r, s') = Change-lookup id u d q in (v, r, TaskStep-trans t u v s s')

-- Every entry stands under its own identifier and is sound.
abbrev pub IsEntry : TaskId → Task → Type 0
IsEntry id t = (t.id ≡ id) × IsSound t

pub judged_born : (s : TaskState) → s ≡ leased → is_judged s ≡ true → ⊥
judged_born s e j = ground arith

pub Change-IsEntry : {ts us : Tasks} → Change ts us → AllEntries IsEntry ts → AllEntries IsEntry us
Change-IsEntry same h = h
Change-IsEntry (write ts k a b q s) h =
    let (own, sound) = AllEntries-lookup IsEntry k ts a h q in
    insert-AllEntries IsEntry k b ts (s.same_id ∙ own, s.sound sound) h
Change-IsEntry (birth ts k b p) h =
    emplace-AllEntries IsEntry k b ts
      (
        p.own_id,
        record {
          unheld = λ n. absurd (n p.born_leased);
          credited = λ j. absurd (judged_born b.state p.born_leased j);
        },
      )
      h
Change-IsEntry (both c d) h = Change-IsEntry d (Change-IsEntry c h)

pub Change-Distinct : {ts us : Tasks} → Change ts us → Distinct (keys ts) → Distinct (keys us)
Change-Distinct same d = d
Change-Distinct (write ts k a b q s) d = insert-Distinct k b ts d
Change-Distinct (birth ts k b p) d = emplace-Distinct k b ts d
Change-Distinct (both c d) e = Change-Distinct d (Change-Distinct c e)
