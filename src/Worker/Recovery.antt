-- ===== src/Worker/Recovery.antt =====
-- The recovery of a lost device (src/worker-core/recovery.cpp, include/p2pgpu/worker/recovery.hpp). The
-- platform is a parameter: `acquire n` tells whether the n-th call of `AcquireDevice` in a recovery
-- answers with a device. What the host sees is the sequence of effects.
pub mod Schedule
mod Examples
use p2p_gpu.Base.{
  ℕ, zero, suc, ◌+◌, ◌-◌, ◌*◌, ◌%◌, ◌^◌, Bool, true, false, not, ◌&&◌, List, [], ◌∷◌, ◌++◌,
  if◌then◌else◌, u32_mod,
}

-- The callbacks and the waits, in the order in which they happen.
pub data Effect : Type 0 where
  released_device lease_release ready unrecoverable_announced listens stops_listening : Effect
  sleeps : ℕ → Effect

pub record DeviceSession : Type 0 where
  pub has_device : Bool
  pub recoveries : ℕ
  pub is_healthy : Bool
  pub unrecoverable : Bool
  pub fail_recovery : Bool

abbrev pub fresh_session : DeviceSession
fresh_session = record {
  has_device = false;
  recoveries = 0;
  is_healthy = false;
  unrecoverable = false;
  fail_recovery = false;
}

-- `kMaxRecoveryAttempts` and `kFirstBackoffMs`.
abbrev pub max_recovery_attempts : ℕ
max_recovery_attempts = 6

abbrev pub first_backoff_ms : ℕ
first_backoff_ms = 100

-- `healthy()`: the flag, and a context with a device in it.
abbrev pub healthy : DeviceSession → Bool
healthy s = s.is_healthy && s.has_device

-- `kFirstBackoffMs << (attempt - 1)`, in 32 bits.
unfoldable pub backoff_ms : ℕ → ℕ
backoff_ms attempt = (first_backoff_ms * 2 ^ (attempt - 1)) % u32_mod

-- What a step leaves: the session, whether it succeeded, and its effects in order.
abbrev pub Outcome : Type 0
Outcome = DeviceSession × Bool × List Effect

abbrev pub after : List Effect → Outcome → Outcome
after effects (s, b, rest) = (s, b, effects ++ rest)

-- `Start`, given whether `AcquireDevice` answers with a device.
unfoldable pub start : Bool → DeviceSession → Outcome
start acquired s =
    if acquired
    then (record s { has_device = true; is_healthy = true }, true, listens ∷ [])
    else (record s { is_healthy = false }, false, [])

unfoldable pub stop : DeviceSession → Outcome
stop s = (
  record s { has_device = false; is_healthy = false },
  true,
  stops_listening ∷ released_device ∷ [],
)

-- The session after the device has come back, and after the last attempt has failed.
abbrev pub restored : DeviceSession → DeviceSession
restored s = record s {
  has_device = true;
  is_healthy = true;
  recoveries = (s.recoveries + 1) % u32_mod;
}

abbrev pub lost : DeviceSession → DeviceSession
lost s = record s { is_healthy = false }

module _ (acquire : ℕ → Bool) where
  -- Does an attempt of the recovery succeed? The test hook comes first.
  abbrev pub acquires : DeviceSession → ℕ → Bool
  acquires s attempt = not s.fail_recovery && acquire attempt

  -- The loop of `Recover`: the attempts that are left, and the number of the next one.
  unfoldable pub attempts : ℕ → ℕ → DeviceSession → Outcome
  unfolding backoff_ms
  attempts zero attempt s = (lost s, false, [])
  attempts (suc left) attempt s =
      let rest = attempts left (suc attempt) s in
      if acquires s attempt
      then (restored s, true, listens ∷ ready ∷ [])
      else after (sleeps (backoff_ms attempt) ∷ []) rest

  unfoldable pub recover : DeviceSession → Outcome
  unfolding attempts
  recover s =
      after (released_device ∷ [])
        (attempts max_recovery_attempts 1 (record s { has_device = false }))

  -- The end of `HandleLost`.
  abbrev pub conclude : Outcome → Outcome
  conclude (s, true, effects) = (s, true, effects)
  conclude (s, false, effects) =
      (record s { unrecoverable = true }, false, effects ++ unrecoverable_announced ∷ [])

  -- A second call while a loss is handled finds the session unhealthy and does nothing.
  unfoldable pub handle_lost : DeviceSession → Outcome
  unfolding recover
  handle_lost s =
      if not s.is_healthy
      then (s, false, [])
      else after (lease_release ∷ []) (conclude (recover (record s { is_healthy = false })))

  unfoldable pub simulate_genuine_loss_for_test : DeviceSession → Outcome
  unfolding handle_lost
  simulate_genuine_loss_for_test s = if not s.has_device then (s, false, []) else handle_lost s

-- The device is destroyed and the flag cleared; the context keeps its pointer.
unfoldable pub force_loss_for_test : DeviceSession → DeviceSession
force_loss_for_test s = if not s.has_device then s else record s { is_healthy = false }
