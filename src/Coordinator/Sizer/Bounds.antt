-- ===== src/Coordinator/Sizer/Bounds.antt =====
-- How large a task can be (src/coordinator/sizer.cpp).
use p2p_gpu.Base.{◌≤◌, min, ◌≡◌, refl, ◌⊎◌, inl, inr, true, false, arith, ◌==◌, Bool-cases}
use p2p_gpu.Coordinator.Doubles.{DoubleOps}
use p2p_gpu.Coordinator.Sizer.{
  SizingInputs, max_units_per_task, is_usable, is_zero, compute_task_size,
}

-- A task size is never above what remains of the job and never above what the params block can hold. It
-- is 0, or it is at least the kernel's floor as far as these two limits let it; and it is 0 for a score
-- that is not a positive finite number and for a worker whose user has paused it.
pub compute_task_size_bounds :
    {D : Type 0} (f : DoubleOps D) (i : SizingInputs D)
    → (compute_task_size f i ≤ i.remaining_units)
      × (compute_task_size f i ≤ max_units_per_task)
      × ((compute_task_size f i ≡ 0)
          ⊎ (min (min i.r5_min_units max_units_per_task) i.remaining_units ≤ compute_task_size f i))
      × ((is_usable f i.score ≡ true) ⊎ (compute_task_size f i ≡ 0))
      × ((is_zero f (f.clamp i.throttle f.zero_d f.one_d) ≡ false) ⊎ (compute_task_size f i ≡ 0))
unfolding compute_task_size
compute_task_size_bounds f i = elim (Bool-cases (i.remaining_units == 0)) [
  | inl none_left ↦ rw none_left (omega arith, omega arith, inl refl, inr refl, inr refl)
  | inr some_left ↦ rw some_left (elim (Bool-cases (is_usable f i.score)) [
    | inr unusable ↦ rw unusable (omega arith, omega arith, inl refl, inr refl, inr refl)
    | inl usable ↦ rw usable (elim (Bool-cases (is_zero f (f.clamp i.throttle f.zero_d f.one_d))) [
      | inl paused ↦ rw paused (omega arith, omega arith, inl refl, inr refl, inr refl)
      | inr running ↦ rw running (omega arith, omega arith, inr (omega arith), inl refl, inl refl)
    ])
  ])
]
