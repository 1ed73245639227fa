-- ===== src/Coordinator/Reputation.antt =====
-- The record of each worker's answers (src/coordinator/reputation.cpp,
-- include/p2pgpu/coordinator/reputation.hpp). The operations on doubles are a parameter; tokens are
-- kept by their text, and `MintToken` is given the text that the random device yields. The severity of
-- a deviation, a formula on doubles, is left out.
pub mod Blacklist
pub mod Examples
pub mod Tokens
use p2p_gpu.Base.{
  ℕ, ◌+◌, ◌%◌, Bool, true, false, not, ◌&&◌, ◌||◌, Option, none, some, List, [], ◌∷◌, ltb, ◌==◌,
  if◌then◌else◌, u64_mod, u32_mod, bytes_key, lookup, insert, remove,
}
use p2p_gpu.Coordinator.Doubles.{DoubleOps}
use p2p_gpu.Protocol.Ids.{WorkerId, id_key}

pub record ReputationConfig (D : Type 0) : Type 0 where
  pub alpha0 : D
  pub beta0 : D
  pub blacklist_below : D
  pub cooldown_ms : ℕ
  pub trusted_at : D
  pub max_penalty : D

pub record Reputation (D : Type 0) : Type 0 where
  pub alpha : D
  pub beta : D
  pub accepted_count : ℕ
  pub rejected_count : ℕ
  pub spot_check_failures : ℕ
  pub blacklisted_until_ms : ℕ
  pub on_probation : Bool

pub record ReputationTable (D : Type 0) : Type 0 where
  pub workers : List (WorkerId × Reputation D)
  pub by_token : List (List ℕ × WorkerId)
  pub tokens : List (WorkerId × List ℕ)

module _ {D : Type 0} (f : DoubleOps D) (cfg : ReputationConfig D) where
  -- `Reputation::score`.
  unfoldable pub score : Reputation D → D
  score r = let n = f.plus r.alpha r.beta in if f.is_positive n then f.over r.alpha n else f.zero_d

  abbrev pub prior : Reputation D
  prior = record {
    alpha = cfg.alpha0;
    beta = cfg.beta0;
    accepted_count = 0;
    rejected_count = 0;
    spot_check_failures = 0;
    blacklisted_until_ms = 0;
    on_probation = false;
  }

  abbrev pub entry_or_prior : Option (Reputation D) → Reputation D
  entry_or_prior none = prior
  entry_or_prior (some r) = r

  -- `Mutable`: the entry, which is created where it is missing; a write through it is `put`.
  unfoldable pub entry_of : WorkerId → ReputationTable D → Reputation D
  entry_of id t = entry_or_prior (lookup id t.workers)

  abbrev pub put : WorkerId → Reputation D → ReputationTable D → ReputationTable D
  put id r t = record t { workers = insert id r t.workers }

  abbrev pub score_or_prior : Option (Reputation D) → D
  score_or_prior none = f.over cfg.alpha0 (f.plus cfg.alpha0 cfg.beta0)
  score_or_prior (some r) = score r

  unfoldable pub score_of : WorkerId → ReputationTable D → D
  unfolding score
  score_of id t = score_or_prior (lookup id t.workers)

  unfoldable pub record_accepted : WorkerId → ReputationTable D → ReputationTable D
  unfolding entry_of score
  record_accepted id t =
      let r = record (entry_of id t) {
        accepted_count = ((entry_of id t).accepted_count + 1) % u32_mod;
        alpha = f.plus (entry_of id t).alpha f.one_d;
      } in
      put id
        (record r { on_probation = r.on_probation && not (f.at_least (score r) cfg.trusted_at) }) t

  unfoldable pub record_rejected : WorkerId → D → Bool → ReputationTable D → ReputationTable D
  unfolding entry_of
  record_rejected id severity spot_check t =
      let r = entry_of id t in
      put id
        (record r {
          rejected_count = (r.rejected_count + 1) % u32_mod;
          spot_check_failures =
              if spot_check then (r.spot_check_failures + 1) % u32_mod else r.spot_check_failures;
          beta = f.plus r.beta (
              f.clamp (if spot_check then f.times severity f.two_d else severity) f.zero_d
                cfg.max_penalty);
        })
        t

  unfoldable pub maybe_blacklist : WorkerId → ℕ → ReputationTable D → ReputationTable D × Bool
  unfolding entry_of score
  maybe_blacklist id now_ms t =
      let r = entry_of id t in
      if ltb now_ms r.blacklisted_until_ms || f.at_least (score r) cfg.blacklist_below
      then (put id r t, false)
      else (
        put id (record r { blacklisted_until_ms = (now_ms + cfg.cooldown_ms) % u64_mod }) t,
        true,
      )

  unfoldable pub is_blacklisted : WorkerId → ℕ → ReputationTable D → ReputationTable D × Bool
  unfolding entry_of
  is_blacklisted id now_ms t =
      let r = entry_of id t in
      if r.blacklisted_until_ms == 0
      then (put id r t, false)
      else if ltb now_ms r.blacklisted_until_ms
      then (put id r t, true)
      else (put id (record r { blacklisted_until_ms = 0; on_probation = true }) t, false)

abbrev pub without_token : Option (List ℕ) → List (List ℕ × WorkerId) → List (List ℕ × WorkerId)
without_token none m = m
without_token (some old) m = remove old m

module _ {D : Type 0} where
  unfoldable pub mint_token : WorkerId → List ℕ → ReputationTable D → ReputationTable D
  mint_token id token t = record t {
    by_token = insert token id (without_token (lookup id t.tokens) t.by_token);
    tokens = insert id token t.tokens;
  }

  unfoldable pub resolve_token : List ℕ → ReputationTable D → Option WorkerId
  resolve_token [] t = none
  resolve_token (c ∷ token) t = lookup (c ∷ token) t.by_token

  unfoldable pub adopt : WorkerId → Reputation D → List ℕ → ReputationTable D → ReputationTable D
  adopt id r [] t = record t { workers = insert id r t.workers }
  adopt id r (c ∷ token) t = record t {
    workers = insert id r t.workers;
    by_token = insert (c ∷ token) id t.by_token;
    tokens = insert id (c ∷ token) t.tokens;
  }
