-- ===== src/Coordinator/Sizer.antt =====
-- Adaptive task sizing (src/coordinator/sizer.cpp, include/p2pgpu/coordinator/sizer.hpp).
pub mod Examples
pub mod Bounds
use p2p_gpu.Base.{ℕ, min, max, Bool, not, ◌&&◌, ◌||◌, ◌==◌, if◌then◌else◌}
use p2p_gpu.Coordinator.Doubles.{DoubleOps, ratio}

pub record SizingInputs (D : Type 0) : Type 0 where
  pub score : D
  pub correction : D
  pub throttle : D
  pub target_ms : ℕ
  pub lease_ms : ℕ
  pub r5_min_units : ℕ
  pub remaining_units : ℕ
  pub cold_start : Bool

-- `kProbeDivisor`.
abbrev pub probe_divisor : ℕ
probe_divisor = 8

-- `kMaxUnitsPerTask`.
abbrev pub max_units_per_task : ℕ
max_units_per_task = 4_294_967_295

module _ {D : Type 0} (f : DoubleOps D) where
  -- `x > 0.0 && std::isfinite(x)`.
  abbrev pub is_usable : D → Bool
  is_usable x = f.is_positive x && f.is_finite x

  -- `throttle == 0.0` after the clamp.
  abbrev pub is_zero : D → Bool
  is_zero x = f.at_least x f.zero_d && f.at_least f.zero_d x

  abbrev pub min_correction : D
  min_correction = ratio f 1 10

  abbrev pub max_correction : D
  max_correction = f.of_nat 1000

  -- `seconds * score * throttle / (correction * probe)`.
  abbrev pub units_in : D → SizingInputs D → D → D → D → D
  units_in seconds i throttle correction probe =
      f.over (f.times (f.times seconds i.score) throttle) (f.times correction probe)

  abbrev pub seconds_of : ℕ → D
  seconds_of ms = f.over (f.of_nat ms) (f.of_nat 1000)

  -- The size that the speed suggests, at least one unit: within the target and within half the lease.
  abbrev pub speed_units : SizingInputs D → D → D → D → ℕ
  speed_units i throttle correction probe =
      let units =
        f.min_d (units_in (seconds_of i.target_ms) i throttle correction probe)
          (units_in (f.times (seconds_of i.lease_ms) (ratio f 1 2)) i throttle correction probe) in
      f.truncate
        (if not (f.at_least units f.one_d) || not (f.is_finite units) then f.one_d else units)

  abbrev pub sized : SizingInputs D → D → ℕ
  sized i throttle =
      let correction = if is_usable i.correction then i.correction else f.one_d in
      let probe = if i.cold_start then f.of_nat probe_divisor else f.one_d in
      min (min (max (speed_units i throttle correction probe) i.r5_min_units) max_units_per_task)
        i.remaining_units

  unfoldable pub compute_task_size : SizingInputs D → ℕ
  compute_task_size i =
      if i.remaining_units == 0
      then 0
      else if not (is_usable i.score)
      then 0
      else if is_zero (f.clamp i.throttle f.zero_d f.one_d)
      then 0
      else sized i (f.clamp i.throttle f.zero_d f.one_d)

  -- `UpdateCorrection` with its default `alpha`.
  unfoldable pub update_correction : D → D → D → D
  update_correction current predicted_ms actual_ms =
      if not (is_usable predicted_ms && is_usable actual_ms)
      then current
      else let clamped = f.clamp (f.over actual_ms predicted_ms) min_correction max_correction in
        let a = f.clamp (ratio f 3 10) f.zero_d f.one_d in
        f.clamp (f.plus (f.times (f.minus f.one_d a) current) (f.times a clamped)) min_correction
          max_correction
