-- ===== src/Coordinator/TaskState/Proofs.antt =====
-- What the state machine guarantees.
use p2p_gpu.Base.{◌≡◌, refl, subst, ◌≢◌, ◌↔◌, ◌⊎◌, true, false, arith}
use p2p_gpu.Protocol.Errors.{ok, has_value}
use p2p_gpu.Coordinator.TaskState.{
  TaskState, queued, leased, validating, needs_replica, accepted, rejected, cancelled, TaskEvent,
  grant, submit, accept, reject, cancel, is_terminal, advance,
}

-- A run of the machine.
pub data Steps : TaskState → TaskState → Type 0 where
  here : {s : TaskState} → Steps s s
  step :
      {s u : TaskState} (t : TaskState) (e : TaskEvent) → advance s e ≡ ok t → Steps t u → Steps s u

pub Steps-trans : {s t u : TaskState} → Steps s t → Steps t u → Steps s u
Steps-trans here q = q
Steps-trans (step t e p r) q = step t e p (Steps-trans r q)

-- A terminal state refuses every event, and no other state does.
pub is_terminal_iff :
    (s : TaskState) → (is_terminal s ≡ true) ↔ ((e : TaskEvent) → has_value (advance s e) ≡ false)
unfolding is_terminal advance
is_terminal_iff queued = (λ h. cc, λ h. cc (h grant))
is_terminal_iff leased = (λ h. cc, λ h. cc (h submit))
is_terminal_iff validating = (λ h. cc, λ h. cc (h accept))
is_terminal_iff needs_replica = (λ h. cc, λ h. cc (h cancel))
is_terminal_iff accepted = (λ h e. ground arith, λ h. refl)
is_terminal_iff rejected = (λ h e. ground arith, λ h. refl)
is_terminal_iff cancelled = (λ h e. ground arith, λ h. refl)

not_from_terminal : (s t : TaskState) (e : TaskEvent) → is_terminal s ≡ true → advance s e ≢ ok t
unfolding is_terminal advance
not_from_terminal s t e h p = ground arith

-- A task that has reached a terminal state stays there.
pub Steps-terminal : {s t : TaskState} → is_terminal s ≡ true → Steps s t → t ≡ s
Steps-terminal h here = refl
Steps-terminal h (step t e p r) = absurd (not_from_terminal _ t e h p)

-- Only a task that waits in the queue can be leased anew, and only its holder's submission brings a
-- leased task to validation; acceptance and rejection come from validation alone.
pub advance_sources :
    (s t : TaskState) (e : TaskEvent)
    → advance s e ≡ ok t
    → (t ≡ leased → (s ≡ queued) ⊎ (s ≡ leased))
      × (t ≡ validating → (s ≡ leased) × (e ≡ submit))
      × (t ≡ accepted → (s ≡ validating) × (e ≡ accept))
      × (t ≡ rejected → (s ≡ validating) × (e ≡ reject))
unfolding advance
advance_sources s t e p = ground arith

pub TaskState-discrete : Discrete TaskState
TaskState-discrete = hlevel

validating_of_accept :
    (s t : TaskState) (e : TaskEvent) → advance s e ≡ ok t → t ≡ accepted → s ≡ validating
unfolding advance
validating_of_accept s t e p q = ground arith

-- A task that is accepted has been through validation.
pub Steps-validated :
    {s u : TaskState} → Steps s u → u ≡ accepted → s ≢ accepted → Steps s validating
Steps-validated here q h = absurd (h q)
Steps-validated {s = s} (step t e p r) q h = elim (TaskState-discrete t accepted) [
  | yes done ↦ subst (Steps s) (validating_of_accept s t e p done) here
  | no more ↦ step t e p (Steps-validated r q more)
]
