-- ===== src/Coordinator/Fleet/Examples.antt =====
-- A list of peers in a concrete fleet.
use p2p_gpu.Base.{ℕ, ◌≤◌, ◌≡◌, refl, [], ◌∷◌, length, All, bytes_eq}
use p2p_gpu.Coordinator.Samples.{hundredths, alice, bob}
use p2p_gpu.Coordinator.Fleet.{Fleet, newcomer, peers_holding}
use p2p_gpu.Coordinator.Fleet.Peers.{IsHolder, IsAscending, peers_holding_lem}
use p2p_gpu.Coordinator.Affinity.{AssetId, has_asset}
use p2p_gpu.Protocol.Ids.{WorkerId, id_eq}

abbrev scene : AssetId
scene = 7 ∷ 7 ∷ []

abbrev carol : WorkerId
carol = record { hi = 0; lo = 13 }

-- All three have the scene, in no order.
abbrev owners : Fleet ℕ
owners =
    (carol, record (newcomer hundredths carol 3 0) { cached_assets = scene ∷ [] })
    ∷ (alice, record (newcomer hundredths alice 1 0) { cached_assets = scene ∷ [] })
    ∷ (bob, record (newcomer hundredths bob 2 0) { cached_assets = scene ∷ [] })
    ∷ []

peers_of_alice : peers_holding scene alice 8 owners ≡ bob ∷ carol ∷ []
unfolding peers_holding id_eq has_asset bytes_eq
peers_of_alice = refl

peers_holding_lem_example :
    (length (peers_holding scene alice 1 owners) ≤ 1)
    × All (IsHolder scene alice owners) (peers_holding scene alice 1 owners)
    × IsAscending (peers_holding scene alice 1 owners)
peers_holding_lem_example = peers_holding_lem scene alice 1 owners
