-- ===== src/Coordinator/Doubles.antt =====
-- What the coordinator's code uses of `double`: constants, arithmetic, comparisons and the conversions
-- from and to a 64-bit integer. `ratio n d` is the literal n/d, since the division of two integers that
-- a double holds is correctly rounded.
use p2p_gpu.Base.{ℕ, Bool}

pub record DoubleOps (D : Type 0) : Type 0 where
  pub zero_d : D
  pub one_d : D
  pub two_d : D
  pub plus : D → D → D
  pub minus : D → D → D
  pub times : D → D → D
  pub over : D → D → D
  pub min_d : D → D → D
  pub max_d : D → D → D
  pub clamp : D → D → D → D
  pub is_positive : D → Bool
  pub at_least : D → D → Bool
  pub is_finite : D → Bool
  pub of_nat : ℕ → D
  pub truncate : D → ℕ

abbrev pub ratio : {D : Type 0} → DoubleOps D → ℕ → ℕ → D
ratio f n d = f.over (f.of_nat n) (f.of_nat d)
