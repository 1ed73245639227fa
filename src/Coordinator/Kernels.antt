-- ===== src/Coordinator/Kernels.antt =====
-- The kernels that the coordinator knows (include/p2pgpu/coordinator/kernel_registry.hpp). Reading the
-- manifest is left out; the tolerances are doubles here, and a kernel's source is not kept.
use p2p_gpu.Base.{ℕ, String, Bool, true, false, Option, List, string_eq, lookup}

pub data Determinism : Type 0 where
  exact tolerant statistical : Determinism

pub record KernelSpec (D : Type 0) : Type 0 where
  pub id : String
  pub entry_point : String
  pub workgroup_size : List ℕ
  pub determinism : Determinism
  pub rel_eps : D
  pub abs_eps : D
  pub output_bytes : ℕ
  pub param_layout : String
  pub accumulates : Bool
  pub min_iterations : ℕ
  pub flop_per_unit : ℕ
  pub r5_min_units : ℕ

abbrev pub KernelRegistry : Type 0 → Type 0
KernelRegistry D = List (String × KernelSpec D)

unfoldable pub find_kernel : {D : Type 0} → String → KernelRegistry D → Option (KernelSpec D)
find_kernel id kernels = lookup id kernels

-- `determinism != Determinism::Exact`.
abbrev pub is_exact : Determinism → Bool
is_exact exact = true
is_exact _ = false
