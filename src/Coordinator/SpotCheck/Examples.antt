-- ===== src/Coordinator/SpotCheck/Examples.antt =====
-- The pool's theorems at a concrete pool.
use p2p_gpu.Base.{arith}
use p2p_gpu.Coordinator.SpotCheck.{empty_pool, remember}
use p2p_gpu.Coordinator.SpotCheck.Pool.{IsSoundPool, remember-IsSoundPool}

empty_sound : IsSoundPool empty_pool
empty_sound = record { small = omega arith; unique = tt; real = tt }

remember-IsSoundPool_example : IsSoundPool (remember 100 50 7 empty_pool)
remember-IsSoundPool_example = remember-IsSoundPool 100 50 7 empty_pool empty_sound
