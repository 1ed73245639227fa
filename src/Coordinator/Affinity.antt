-- ===== src/Coordinator/Affinity.antt =====
-- Cache affinity (src/coordinator/affinity.cpp, include/p2pgpu/coordinator/affinity.hpp). An asset is
-- known by its 32-byte content hash.
use p2p_gpu.Base.{
  ℕ, suc, Bool, false, ◌||◌, Option, none, some, List, [], ◌∷◌, if◌then◌else◌, bytes_eq,
}

abbrev pub AssetId : Type 0
AssetId = List ℕ

unfoldable pub has_asset : List AssetId → AssetId → Bool
has_asset [] want = false
has_asset (have ∷ cached) want = bytes_eq have want || has_asset cached want

-- Does a queue entry need an asset that the worker holds?
unfoldable pub wants_cached : Option AssetId → List AssetId → Bool
wants_cached none cached = false
wants_cached (some a) cached = has_asset cached a

-- The loop of `PreferCached` from index i on.
unfoldable pub first_match : List (Option AssetId) → List AssetId → ℕ → Option ℕ
first_match [] cached i = none
first_match (need ∷ needs) cached i =
    let rest = first_match needs cached (suc i) in if wants_cached need cached then some i else rest

unfoldable pub prefer_cached : List (Option AssetId) → List AssetId → Option ℕ
unfolding first_match wants_cached has_asset
prefer_cached needs [] = none
prefer_cached needs (c ∷ cached) = first_match needs (c ∷ cached) 0
