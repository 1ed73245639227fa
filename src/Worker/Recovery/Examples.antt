-- ===== src/Worker/Recovery/Examples.antt =====
-- A device that comes back at the third attempt.
use p2p_gpu.Base.{ℕ, ◌+◌, ◌<◌, ◌≡◌, refl, ◌⊎◌, Bool, true, false, [], ◌∷◌, ◌++◌, ◌==◌, range'}
use p2p_gpu.Worker.Recovery.{
  released_device, lease_release, ready, unrecoverable_announced, listens, sleeps, DeviceSession,
  fresh_session, restored, acquires, handle_lost,
}
use p2p_gpu.Worker.Recovery.Schedule.{waits, Fails, handle_lost_lem}

abbrev third : ℕ → Bool
third k = k == 3

abbrev running : DeviceSession
running = record fresh_session { has_device = true; is_healthy = true }

third_attempt :
    (handle_lost third running).2
    ≡ lease_release ∷ released_device ∷ sleeps 100 ∷ sleeps 200 ∷ listens ∷ ready ∷ []
unfolding handle_lost
third_attempt = refl

handle_lost_lem_example :
    ((n : ℕ) × (n < 6)
      × Fails third running (range' 1 n)
      × (acquires third running (1 + n) ≡ true)
      × (handle_lost third running ≡ (
        restored running,
        true,
        lease_release ∷ released_device ∷ waits 1 n ++ listens ∷ ready ∷ [],
      )))
    ⊎ (Fails third running (range' 1 6)
        × (handle_lost third running ≡ (
          record running { has_device = false; is_healthy = false; unrecoverable = true },
          false,
          lease_release
              ∷ released_device
              ∷ sleeps 100
              ∷ sleeps 200
              ∷ sleeps 400
              ∷ sleeps 800
              ∷ sleeps 1600
              ∷ sleeps 3200
              ∷ unrecoverable_announced
              ∷ [],
        )))
handle_lost_lem_example = handle_lost_lem third running refl
