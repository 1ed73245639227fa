-- ===== src/Coordinator/TaskState.antt =====
-- The task lifecycle (include/p2pgpu/coordinator/task_state.hpp).
pub mod Proofs
use p2p_gpu.Base.{Bool, true, false}
use p2p_gpu.Protocol.Errors.{internal, make_error, Result, ok, err}

pub data TaskState : Type 0 where
  queued leased validating needs_replica accepted rejected cancelled : TaskState

pub data TaskEvent : Type 0 where
  grant renew submit lease_expired release accept disagreement issue_replica reject cancel :
      TaskEvent

unfoldable pub is_terminal : TaskState → Bool
is_terminal accepted = true
is_terminal rejected = true
is_terminal cancelled = true
is_terminal _ = false

-- Every pair that is not an edge of the diagram ends here.
abbrev illegal : Result TaskState
illegal = err (make_error internal "illegal task state transition")

-- The two nested switches of `Advance`; the last clause stands for the arms that are illegal.
unfoldable pub advance : TaskState → TaskEvent → Result TaskState
advance queued grant = ok leased
advance leased renew = ok leased
advance leased submit = ok validating
advance leased lease_expired = ok queued
advance leased release = ok queued
advance leased cancel = ok cancelled
advance validating accept = ok accepted
advance validating reject = ok rejected
advance validating disagreement = ok needs_replica
advance validating cancel = ok cancelled
advance needs_replica issue_replica = ok queued
advance needs_replica cancel = ok cancelled
advance _ _ = illegal
