-- ===== src/Coordinator/Reputation/Blacklist.antt =====
-- The life of a blacklisting (src/coordinator/reputation.cpp): the window in which a worker is refused,
-- and the distrust in which it comes back.
use p2p_gpu.Base.{
  ℕ, ◌+◌, ◌%◌, ◌<◌, ◌≡◌, refl, sym, ap, subst, ◌∙◌, ◌≢◌, inl, inr, Bool, true, false, ◌||◌, arith,
  ltb, ◌==◌, Bool-cases, u64_mod, lookup, lookup-insert_self,
}
use p2p_gpu.Coordinator.Doubles.{DoubleOps}
use p2p_gpu.Protocol.Ids.{WorkerId, id_key}
use p2p_gpu.Coordinator.Reputation.{
  ReputationConfig, Reputation, ReputationTable, score, entry_of, put, maybe_blacklist,
  is_blacklisted,
}
use p2p_gpu.Coordinator.Quorum.{adaptive, QuorumConfig}
use p2p_gpu.Coordinator.Quorum.Required.{in_doubt, required_agreement_for}

module _ {D : Type 0} (f : DoubleOps D) (cfg : ReputationConfig D) (id : WorkerId) where
  -- What a write through `Mutable` leaves is what the next look-up finds.
  entry_of-put :
      (r : Reputation D) (t : ReputationTable D) → entry_of f cfg id (put f cfg id r t) ≡ r
  unfolding entry_of
  entry_of-put r t = rw (lookup-insert_self id r t.workers) refl

  until_of :
      (now_ms : ℕ) (t : ReputationTable D)
      → (maybe_blacklist f cfg id now_ms t).1 ≡ true
      → (entry_of f cfg id (maybe_blacklist f cfg id now_ms t).0).blacklisted_until_ms
        ≡ (now_ms + cfg.cooldown_ms) % u64_mod
  unfolding maybe_blacklist
  until_of now_ms t h =
      elim (Bool-cases (
        ltb now_ms (entry_of f cfg id t).blacklisted_until_ms
        || f.at_least (score f cfg (entry_of f cfg id t)) cfg.blacklist_below)) [
          | inl kept ↦ absurd (off (sym (rw kept refl) ∙ h))
          | inr low ↦ rw low (ap (λ r. r.blacklisted_until_ms) (entry_of-put _ t))
        ]
    where
      off : false ≢ true
      off q = cc

  -- A check answers by the time that the entry holds.
  is_blacklisted_lem :
      (later : ℕ) (t : ReputationTable D)
      → (is_blacklisted f cfg id later t).1 ≡ ltb later (entry_of f cfg id t).blacklisted_until_ms
  unfolding is_blacklisted
  is_blacklisted_lem later t =
      let u = (entry_of f cfg id t).blacklisted_until_ms in
      elim (Bool-cases (u == 0)) [
        | inl z ↦ rw z (never later u z)
        | inr nz ↦ rw nz (elim (Bool-cases (ltb later u)) [
          | inl early ↦ rw early refl
          | inr served ↦ rw served refl
        ])
      ]
    where
      never : (a u : ℕ) → (u == 0) ≡ true → false ≡ ltb a u
      never a u z = ground arith

  -- After a check of an entry that has a time, the worker is in doubt.
  in_doubt_after :
      (later : ℕ) (t : ReputationTable D)
      → 0 < (entry_of f cfg id t).blacklisted_until_ms
      → in_doubt later (lookup id (is_blacklisted f cfg id later t).0.workers) ≡ true
  unfolding is_blacklisted
  in_doubt_after later t pos =
      let u = (entry_of f cfg id t).blacklisted_until_ms in
      rw (nonzero u pos) (elim (Bool-cases (ltb later u)) [
        | inl early ↦
            rw early
              (rw (lookup-insert_self id (entry_of f cfg id t) t.workers) (rw early (or_true _)))
        | inr served ↦ rw served (rw (lookup-insert_self id _ t.workers) refl)
      ])
    where
      nonzero : (u : ℕ) → 0 < u → (u == 0) ≡ false
      nonzero u h = ground arith

      or_true : (b : Bool) → (b || true) ≡ true
      or_true b = ground arith

-- A worker that `MaybeBlacklist` blacklists at `now_ms`, where the sum of `now_ms` and the cooldown
-- fits 64 bits, is refused by the next `IsBlacklisted` at exactly the times before that sum.
pub maybe_blacklist-window :
    {D : Type 0} (f : DoubleOps D) (cfg : ReputationConfig D) (id : WorkerId) (now_ms later : ℕ)
    (t : ReputationTable D)
    → (maybe_blacklist f cfg id now_ms t).1 ≡ true
    → now_ms + cfg.cooldown_ms < u64_mod
    → (is_blacklisted f cfg id later (maybe_blacklist f cfg id now_ms t).0).1
      ≡ ltb later (now_ms + cfg.cooldown_ms)
maybe_blacklist-window f cfg id now_ms later t low fits =
    is_blacklisted_lem f cfg id later _
    ∙ ap (ltb later) (until_of f cfg id now_ms t low ∙ fit _ fits)
  where
    fit : (n : ℕ) → n < u64_mod → n % u64_mod ≡ n
    fit n h = omega arith

-- A worker that has just been blacklisted, and whose next admission is decided by `IsBlacklisted` at
-- any later time, within the cooldown or after it, is replicated at the cap under the adaptive policy,
-- whatever its score. The end of the cooldown is neither 0 nor above 64 bits.
pub maybe_blacklist-distrust :
    {D : Type 0} (f : DoubleOps D) (cfg : ReputationConfig D) (id : WorkerId) (now_ms later : ℕ)
    (t : ReputationTable D) (q : QuorumConfig)
    → q.policy ≡ adaptive
    → (maybe_blacklist f cfg id now_ms t).1 ≡ true
    → 0 < now_ms + cfg.cooldown_ms
    → now_ms + cfg.cooldown_ms < u64_mod
    → required_agreement_for f cfg q
        (is_blacklisted f cfg id later (maybe_blacklist f cfg id now_ms t).0).0
        id
        later
      ≡ q.max_replicas
unfolding required_agreement_for
maybe_blacklist-distrust f cfg id now_ms later t q policy low ends fits = rw policy (
    rw
      (in_doubt_after f cfg id later (maybe_blacklist f cfg id now_ms t).0
        (subst (λ u. 0 < u) (sym (until_of f cfg id now_ms t low)) (fit _ ends fits)))
      refl)
  where
    fit : (n : ℕ) → 0 < n → n < u64_mod → 0 < n % u64_mod
    fit n p h = omega arith
