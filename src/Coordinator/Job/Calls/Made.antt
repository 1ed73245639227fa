-- ===== src/Coordinator/Job/Calls/Made.antt =====
-- Managers that calls of `JobManager` lead to (src/coordinator/job.cpp), as a relation.
use p2p_gpu.Base.{ℕ, ◌≡◌, refl, sym, ap, ◌∙◌, Bool, List, [], ◌∷◌, ◌++◌}
use p2p_gpu.Coordinator.Job.{JobManager}
use p2p_gpu.Coordinator.Job.Calls.{Call, perform, run}

-- The second manager is the first after some calls.
pub data Made (below : ℕ → ℕ → Bool) (m : JobManager) : JobManager → Type 0 where
  no_call : Made below m m
  call : {m' : JobManager} → Made below m m' → (c : Call) → Made below m (perform below c m')

run-snoc :
    (below : ℕ → ℕ → Bool) (cs : List Call) (c : Call) (m : JobManager)
    → run below (cs ++ c ∷ []) m ≡ perform below c (run below cs m)
unfolding run
run-snoc below [] c m = refl
run-snoc below (d ∷ cs) c m = run-snoc below cs c (perform below d m)

module _ {below : ℕ → ℕ → Bool} where
  pub one_call : {m : JobManager} (c : Call) → Made below m (perform below c m)
  one_call c = call no_call c

  pub and_more : {m m' m'' : JobManager} → Made below m m' → Made below m' m'' → Made below m m''
  and_more h no_call = h
  and_more h (call k c) = call (and_more h k) c

  -- Such a manager is the result of a run.
  pub run_of_Made : {m m' : JobManager} → Made below m m' → (cs : List Call) × (m' ≡ run below cs m)
  run_of_Made {m} no_call = ([], unfold run in refl)
  run_of_Made {m} (call h c) =
      let (cs, e) = run_of_Made h in
      (cs ++ c ∷ [], ap (perform below c) e ∙ sym (run-snoc below cs c m))
