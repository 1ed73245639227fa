-- ===== src/Coordinator/Reputation/Examples.antt =====
-- The theorems on reputation at a concrete table, with scores in hundredths.
use p2p_gpu.Base.{
  ℕ, ◌≡◌, refl, true, false, none, some, [], ◌∷◌, arith, bytes_eq, bytes_key, lookup,
}
use p2p_gpu.Protocol.Ids.{WorkerId, id_eq, id_key}
use p2p_gpu.Coordinator.Quorum.{adaptive, QuorumConfig}
use p2p_gpu.Coordinator.Quorum.Required.{required_agreement_for}
use p2p_gpu.Coordinator.Reputation.{
  Reputation, ReputationTable, score, entry_of, maybe_blacklist, is_blacklisted, mint_token,
  resolve_token,
}
use p2p_gpu.Coordinator.Reputation.Tokens.{mint_token-revokes}
use p2p_gpu.Coordinator.Reputation.Blacklist.{maybe_blacklist-window, maybe_blacklist-distrust}
use p2p_gpu.Coordinator.Samples.{hundredths, reputation_config}

abbrev liar : WorkerId
liar = record { hi = 0; lo = 7 }

-- A record with a score of 20 hundredths.
abbrev caught : Reputation ℕ
caught = record {
  alpha = 200;
  beta = 800;
  accepted_count = 0;
  rejected_count = 3;
  spot_check_failures = 1;
  blacklisted_until_ms = 0;
  on_probation = false;
}

abbrev table : ReputationTable ℕ
table = record {
  workers = (liar, caught) ∷ [];
  by_token = (1 ∷ 2 ∷ [], liar) ∷ [];
  tokens = (liar, 1 ∷ 2 ∷ []) ∷ [];
}

low : (maybe_blacklist hundredths reputation_config liar 1000 table).1 ≡ true
unfolding maybe_blacklist entry_of score lookup id_eq
low = refl

abbrev policy : QuorumConfig
policy = record { policy = adaptive; required_agreement = 2; max_replicas = 3 }

maybe_blacklist-window_example :
    (is_blacklisted hundredths reputation_config liar 250000
      (maybe_blacklist hundredths reputation_config liar 1000 table).0).1
    ≡ true
maybe_blacklist-window_example =
    maybe_blacklist-window hundredths reputation_config liar 1000 250000 table low (omega arith)

maybe_blacklist-distrust_example :
    required_agreement_for hundredths reputation_config policy
      (is_blacklisted hundredths reputation_config liar 400000
        (maybe_blacklist hundredths reputation_config liar 1000 table).0).0
      liar
      400000
    ≡ 3
maybe_blacklist-distrust_example =
    maybe_blacklist-distrust hundredths reputation_config liar 1000 400000 table policy refl low
      (omega arith) (omega arith)

mint_token-revokes_example :
    (resolve_token (5 ∷ 6 ∷ []) (mint_token liar (5 ∷ 6 ∷ []) table) ≡ some liar)
    × (resolve_token (1 ∷ 2 ∷ []) (mint_token liar (5 ∷ 6 ∷ []) table) ≡ none)
unfolding lookup id_eq bytes_eq
mint_token-revokes_example =
    mint_token-revokes liar 5 (6 ∷ []) (1 ∷ 2 ∷ []) table (refl, tt) refl refl
