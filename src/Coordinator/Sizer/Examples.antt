-- ===== src/Coordinator/Sizer/Examples.antt =====
-- Task sizes at concrete inputs.
use p2p_gpu.Base.{ℕ, ◌≤◌, min, ◌≡◌, refl, ◌⊎◌, true, false}
use p2p_gpu.Coordinator.Samples.{hundredths}
use p2p_gpu.Coordinator.Sizer.{
  SizingInputs, max_units_per_task, is_usable, is_zero, compute_task_size,
}
use p2p_gpu.Coordinator.Sizer.Bounds.{compute_task_size_bounds}

-- Forty units a second, over two seconds.
abbrev steady_worker : SizingInputs ℕ
steady_worker = record {
  score = 4000;
  correction = 100;
  throttle = 100;
  target_ms = 2000;
  lease_ms = 30000;
  r5_min_units = 16;
  remaining_units = 1000;
  cold_start = false;
}

steady_size : compute_task_size hundredths steady_worker ≡ 80
unfolding compute_task_size
steady_size = refl

-- The kernel's floor wins over a slow first task, the rest of the job over both.
first_size :
    compute_task_size hundredths (record steady_worker { score = 400; cold_start = true }) ≡ 16
unfolding compute_task_size
first_size = refl

last_size : compute_task_size hundredths (record steady_worker { remaining_units = 5 }) ≡ 5
unfolding compute_task_size
last_size = refl

compute_task_size_bounds_example :
    (compute_task_size hundredths steady_worker ≤ 1000)
    × (compute_task_size hundredths steady_worker ≤ max_units_per_task)
    × ((compute_task_size hundredths steady_worker ≡ 0)
        ⊎ (min (min 16 max_units_per_task) 1000 ≤ compute_task_size hundredths steady_worker))
    × ((is_usable hundredths 4000 ≡ true) ⊎ (compute_task_size hundredths steady_worker ≡ 0))
    × ((is_zero hundredths (hundredths.clamp 100 0 100) ≡ false)
        ⊎ (compute_task_size hundredths steady_worker ≡ 0))
compute_task_size_bounds_example = compute_task_size_bounds hundredths steady_worker
