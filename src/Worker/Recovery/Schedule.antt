-- ===== src/Worker/Recovery/Schedule.antt =====
-- What a lost device leads to (src/worker-core/recovery.cpp): the order of the effects, the number of
-- the attempts and the waits between them.
use p2p_gpu.Base.{
  ℕ, zero, suc, ◌+◌, ◌%◌, ◌<◌, ◌≡◌, refl, ap, subst, ◌⊎◌, inl, inr, Bool, true, false, List, [],
  ◌∷◌, ◌++◌, arith, Bool-cases, u32_mod, All, range', nat_eq,
}
use p2p_gpu.Worker.Recovery.{
  Effect, released_device, lease_release, ready, unrecoverable_announced, listens, sleeps,
  DeviceSession, backoff_ms, Outcome, after, restored, lost, acquires, attempts, recover, conclude,
  handle_lost,
}

-- The waits of a number of failed attempts.
abbrev pub waits : ℕ → ℕ → List Effect
waits attempt zero = []
waits attempt (suc n) = sleeps (backoff_ms attempt) ∷ waits (suc attempt) n

module _ (acquire : ℕ → Bool) where
  abbrev pub Fails : DeviceSession → List ℕ → Type 0
  Fails s ks = All (λ k. acquires acquire s k ≡ false) ks

  -- Either the attempt after some failures succeeds, or all of them fail.
  abbrev pub Ends : ℕ → ℕ → DeviceSession → Outcome → Type 0
  Ends left attempt s r =
      ((n : ℕ) × (n < left)
        × Fails s (range' attempt n)
        × (acquires acquire s (attempt + n) ≡ true)
        × (r ≡ (restored s, true, waits attempt n ++ listens ∷ ready ∷ [])))
      ⊎ (Fails s (range' attempt left) × (r ≡ (lost s, false, waits attempt left)))

  attempts-Ends :
      (left attempt : ℕ) (s : DeviceSession) → Ends left attempt s (attempts acquire left attempt s)
  unfolding attempts
  attempts-Ends zero attempt s = inr (tt, refl)
  attempts-Ends (suc left) attempt s = elim (Bool-cases (acquires acquire s attempt)) [
    | inl works ↦ inl (
      0,
      omega arith,
      tt,
      subst (λ k. acquires acquire s k ≡ true) (plus_zero attempt) works,
      rw works refl,
    )
    | inr fails ↦ elim (attempts-Ends left (suc attempt) s) [
      | inl (n, lt, f, works, e) ↦ inl (
        suc n,
        omega arith,
        (fails, f),
        subst (λ k. acquires acquire s k ≡ true) (plus_suc attempt n) works,
        rw fails (ap (after (sleeps (backoff_ms attempt) ∷ [])) e),
      )
      | inr (f, e) ↦ inr ((fails, f), rw fails (ap (after (sleeps (backoff_ms attempt) ∷ [])) e))
    ]
  ]
    where
      plus_zero : (k : ℕ) → k ≡ k + 0
      plus_zero k = omega arith

      plus_suc : (k n : ℕ) → suc k + n ≡ k + suc n
      plus_suc k n = omega arith

  -- The loss of the device of a healthy session. The leases are given back first and the device is
  -- released; then up to six attempts follow, with waits of 100, 200, 400, 800, 1600 and 3200 ms after
  -- those that fail. Either an attempt succeeds: the session is healthy with a device, one recovery
  -- more is counted, and the last effects are the new callback and the report that the worker is
  -- ready. Or all six fail: the session is unhealthy and unrecoverable, and the last effect says so.
  pub handle_lost_lem :
      (s : DeviceSession)
      → s.is_healthy ≡ true
      → ((n : ℕ) × (n < 6)
          × Fails s (range' 1 n)
          × (acquires acquire s (1 + n) ≡ true)
          × (handle_lost acquire s ≡ (
            record s {
              has_device = true;
              is_healthy = true;
              recoveries = (s.recoveries + 1) % u32_mod;
            },
            true,
            lease_release ∷ released_device ∷ waits 1 n ++ listens ∷ ready ∷ [],
          )))
        ⊎ (Fails s (range' 1 6)
            × (handle_lost acquire s ≡ (
              record s { has_device = false; is_healthy = false; unrecoverable = true },
              false,
              lease_release
                  ∷ released_device
                  ∷ sleeps 100
                  ∷ sleeps 200
                  ∷ sleeps 400
                  ∷ sleeps 800
                  ∷ sleeps 1600
                  ∷ sleeps 3200
                  ∷ unrecoverable_announced
                  ∷ [],
            )))
  unfolding handle_lost recover backoff_ms
  handle_lost_lem s h =
      elim (attempts-Ends 6 1 (record s { has_device = false; is_healthy = false })) [
        | inl (n, lt, f, works, e) ↦ inl (
          n,
          lt,
          f,
          works,
          rw h (
              ap
                (λ r.
                  after (lease_release ∷ []) (conclude acquire (after (released_device ∷ []) r)))
                e),
        )
        | inr (f, e) ↦ inr (
          f,
          rw h (
              ap
                (λ r.
                  after (lease_release ∷ []) (conclude acquire (after (released_device ∷ []) r)))
                e),
        )
      ]
