-- ===== src/Coordinator/Samples.antt =====
-- Data for the examples: doubles in hundredths, two workers, and a job manager with a leased task.
use p2p_gpu.Base.{
  ℕ, ◌+◌, ◌-◌, ◌*◌, ◌/◌, min, max, refl, ◌≢◌, Bool, true, false, [], ◌∷◌, ltb, leb, nat_eq,
}
use p2p_gpu.Protocol.Ids.{WorkerId, TaskId, JobId, nil}
use p2p_gpu.Coordinator.Doubles.{DoubleOps}
use p2p_gpu.Coordinator.Job.{Task, JobManager, init}
use p2p_gpu.Coordinator.TaskState.{leased}
use p2p_gpu.Coordinator.Reputation.{ReputationConfig}
use p2p_gpu.Coordinator.Job.Calls.Runs.{IsValid}

abbrev pub hundredths : DoubleOps ℕ
hundredths = record {
  zero_d = 0;
  one_d = 100;
  two_d = 200;
  plus = λ a b. a + b;
  times = λ a b. a * b / 100;
  over = λ a b. a * 100 / b;
  clamp = λ a low high. max low (min a high);
  is_positive = ltb 0;
  at_least = λ a b. leb b a;
  minus = ◌-◌;
  min_d = min;
  max_d = max;
  is_finite = λ a. true;
  of_nat = λ n. n * 100;
  truncate = λ a. a / 100;
}

abbrev pub reputation_config : ReputationConfig ℕ
reputation_config = record {
  alpha0 = 200;
  beta0 = 200;
  blacklist_below = 30;
  cooldown_ms = 300000;
  trusted_at = 90;
  max_penalty = 400;
}

abbrev pub alice : WorkerId
alice = record { hi = 0; lo = 11 }

abbrev pub bob : WorkerId
bob = record { hi = 0; lo = 12 }

abbrev pub first_task : TaskId
first_task = record { hi = 0; lo = 2 }

abbrev pub first_job : JobId
first_job = record { hi = 0; lo = 1 }

-- No job is far enough along to be raced.
abbrev pub never : ℕ → ℕ → Bool
never n d = true

-- A task that alice has leased until 5000 ms.
abbrev pub leased_task : Task
leased_task = record {
  id = first_task;
  job = first_job;
  state = leased;
  start_unit = 0;
  unit_count = 100;
  holder = alice;
  lease_expires_at_ms = 5000;
  replica_of = nil;
  submissions = [];
  prior_workers = [];
}

abbrev pub busy : JobManager
busy = record init { tasks = (first_task, leased_task) ∷ []; next_id = 3 }

pub busy-IsValid : IsValid busy
busy-IsValid = record {
  distinct = (refl, tt);
  entries =
      ((refl, record { unheld = λ n. absurd (n refl); credited = λ j. absurd (not_judged j) }), tt);
}
  where
    not_judged : false ≢ true
    not_judged e = cc
