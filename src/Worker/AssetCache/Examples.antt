-- ===== src/Worker/AssetCache/Examples.antt =====
-- The cache at a concrete hash and fetcher.
use p2p_gpu.Base.{
  ℕ, ◌+◌, ◌≤◌, ◌≡◌, refl, false, Option, none, some, List, [], ◌∷◌, arith, bytes_eq, bytes_key,
  lookup, remove, keys, Distinct,
}
use p2p_gpu.Worker.AssetCache.{Address, AssetCache, new_cache, cached, oldest_from, evict, get}
use p2p_gpu.Worker.AssetCache.Eviction.{total, IsCounted, evict_lem}
use p2p_gpu.Worker.AssetCache.Integrity.{new_cache-IsIntact, Serves, get-Serves}

-- A hash that is the identity, and a fetcher that answers with three bytes.
abbrev plain : List ℕ → Address
plain bytes = bytes

abbrev three_bytes : Option (Address → Option (List ℕ))
three_bytes = some (λ address. some (1 ∷ 2 ∷ 3 ∷ []))

get-Serves_example :
    Serves plain three_bytes
      (1 ∷ 2 ∷ 3 ∷ [])
      (get plain three_bytes (1 ∷ 2 ∷ 3 ∷ []) (new_cache 100))
get-Serves_example =
    get-Serves plain three_bytes (1 ∷ 2 ∷ 3 ∷ []) (new_cache 100)
      (new_cache-IsIntact plain 100 (omega arith))

-- Bytes that do not hash to the address are not served.
wrong_bytes : (get plain three_bytes (9 ∷ []) (new_cache 100)).1 ≡ none
unfolding get lookup bytes_eq
wrong_bytes = refl

-- Two entries that fill a budget of five bytes: three more bytes need the older one's room.
abbrev full_cache : AssetCache
full_cache = record (new_cache 5) {
  entries =
      (7 ∷ [], record { bytes = 1 ∷ 2 ∷ 3 ∷ []; inserted_at = 0 })
      ∷ (8 ∷ [], record { bytes = 4 ∷ 5 ∷ []; inserted_at = 1 })
      ∷ [];
  resident = 5;
  tick = 2;
}

no_key_twice : Distinct (keys full_cache.entries)
unfolding bytes_eq
no_key_twice = let last : (false ≡ false) × Unit = (refl, tt) in (refl, last)

evict_lem_example :
    IsCounted (evict 2 3 full_cache)
    × (total (evict 2 3 full_cache).entries + 3 ≤ 5)
    × ((evict 2 3 full_cache).max_bytes ≡ 5)
evict_lem_example =
    evict_lem 2 3 full_cache (omega arith)
      (record { counted = refl; within = omega arith; distinct = no_key_twice }) (omega arith)
      (omega arith)

-- The older entry is gone, and the other stays.
oldest_evicted : cached (evict 2 3 full_cache) ≡ (8 ∷ []) ∷ []
unfolding evict remove oldest_from bytes_eq
oldest_evicted = refl
