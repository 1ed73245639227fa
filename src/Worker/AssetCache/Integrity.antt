-- ===== src/Worker/AssetCache/Integrity.antt =====
-- What `AssetCache::Get` (src/worker-core/asset_cache.cpp) guarantees of the bytes that it returns and
-- of the cache that it leaves.
use p2p_gpu.Base.{
  ℕ, ◌+◌, ◌*◌, ◌≤◌, ◌<◌, ◌≡◌, refl, inl, inr, false, Option, none, some, List, arith, ltb,
  Bool-cases, Option-cases, u64_mod, length, bytes_eq, bytes_eq_iff, bytes_key, lookup, emplace,
  AllEntries, AllEntries-lookup, emplace-AllEntries, emplace-Distinct,
}
use p2p_gpu.Worker.AssetCache.{
  Address, Entry, AssetCache, new_cache, evict_until_room_for, store, admit, fetch_from, take_in,
  get,
}
use p2p_gpu.Worker.AssetCache.Eviction.{
  total, remove-AllEntries, IsCounted, InRange, evict_lem, evict_keeps, remove-lookup-none,
  total-emplace,
}

module _ (blake3_hex : List ℕ → Address) where
  -- Every entry stands under the hash of its bytes, and the byte count is exact and within the budget.
  pub record IsIntact (c : AssetCache) : Type 0 where
    pub named : AllEntries (λ a e. blake3_hex e.bytes ≡ a) c.entries
    pub sized : IsCounted c
    pub in_range : InRange c

  pub new_cache-IsIntact :
      (max_bytes : ℕ) → max_bytes * 2 < u64_mod → IsIntact (new_cache max_bytes)
  new_cache-IsIntact max_bytes h = record {
    named = tt;
    sized = record { counted = refl; within = omega arith; distinct = tt };
    in_range = h;
  }

  module _ (fetch : Option (Address → Option (List ℕ))) where
    -- What a call may end with: nothing, or bytes that hash to the address.
    abbrev pub Genuine : Address → Option (List ℕ) → Type 0
    Genuine address none = Unit
    Genuine address (some bytes) = blake3_hex bytes ≡ address

    abbrev pub Serves : Address → AssetCache × Option (List ℕ) → Type 0
    Serves address r = IsIntact r.0 × Genuine address r.1

    nothing : (address : Address) (c : AssetCache) → IsIntact c → Serves address (c, none)
    nothing address c s = (s, tt)

    store-Serves :
        (address : Address) (bytes : List ℕ) (c : AssetCache)
        → IsIntact c
        → lookup address c.entries ≡ none
        → blake3_hex bytes ≡ address
        → length bytes ≤ c.max_bytes
        → Serves address
            (store blake3_hex fetch address bytes (evict_until_room_for (length bytes) c))
    store-Serves address bytes c s miss q h =
        let (sized, fits, budget) =
          evict_lem (length c.entries) (length bytes) c s.in_range s.sized (omega arith) h in
        (
          record {
            named =
                emplace-AllEntries (λ a e. blake3_hex e.bytes ≡ a) address entry
                  (evict_until_room_for (length bytes) c).entries q
                  (evict_keeps (AllEntries (λ a e. blake3_hex e.bytes ≡ a)) (length c.entries)
                    (length bytes) c (remove-AllEntries (λ a e. blake3_hex e.bytes ≡ a)) s.named);
            sized = record {
              counted = omega (arith, added, sized.counted, fits, s.in_range);
              within = omega (arith, added, fits, budget);
              distinct =
                  emplace-Distinct address entry (evict_until_room_for (length bytes) c).entries
                    sized.distinct;
            };
            in_range = omega (arith, budget, s.in_range);
          },
          q,
        )
      where
        entry : Entry
        entry = record { bytes = bytes; inserted_at = (evict_until_room_for (length bytes) c).tick }

        added :
            total (emplace address entry (evict_until_room_for (length bytes) c).entries)
            ≡ total (evict_until_room_for (length bytes) c).entries + length bytes
        added = total-emplace address entry (evict_until_room_for (length bytes) c).entries (
            evict_keeps (λ es. lookup address es ≡ none) (length c.entries) (length bytes) c
              (λ a es. remove-lookup-none a address es) miss)

    admit-Serves :
        (address : Address) (bytes : List ℕ) (c : AssetCache)
        → IsIntact c
        → lookup address c.entries ≡ none
        → Serves address (admit blake3_hex fetch address bytes c)
    unfolding admit
    admit-Serves address bytes c s miss = elim (Bool-cases (bytes_eq (blake3_hex bytes) address)) [
      | inr wrong ↦ rw wrong (
          nothing address _ (record {
            named = s.named;
            sized = record {
              counted = s.sized.counted;
              within = s.sized.within;
              distinct = s.sized.distinct;
            };
            in_range = s.in_range;
          }))
      | inl right ↦ elim (Bool-cases (ltb c.max_bytes (length bytes))) [
        | inl large ↦ rw (right, large) (nothing address c s)
        | inr fits ↦
            rw (right, fits)
              (store-Serves address bytes c s miss
                ((bytes_eq_iff (blake3_hex bytes) address).0 right)
                (at_most (length bytes) c.max_bytes fits))
      ]
    ]
      where
        at_most : (a b : ℕ) → ltb b a ≡ false → a ≤ b
        at_most a b h = ground arith

    -- From an intact cache whose budget is below 2^63, whatever the fetcher answers, `get` leaves an
    -- intact cache: every entry stands under the hash of its bytes, the byte count is the sum of the
    -- sizes, and that is within the budget. The bytes that it returns hash to the address asked for.
    pub get-Serves :
        (address : Address) (c : AssetCache)
        → IsIntact c
        → Serves address (get blake3_hex fetch address c)
    unfolding get
    get-Serves address c s = elim (Option-cases (lookup address c.entries)) [
      | inr (e, hit) ↦
          rw (hit, get)
            (s, AllEntries-lookup (λ a e. blake3_hex e.bytes ≡ a) address c.entries e s.named hit)
      | inl miss ↦ rw (miss, get) (taken (fetch_from blake3_hex fetch fetch address) miss)
    ]
      where
        taken :
            (o : Option (List ℕ))
            → lookup address c.entries ≡ none
            → Serves address (take_in blake3_hex fetch address o c)
        taken none miss = nothing address c s
        taken (some bytes) miss = admit-Serves address bytes c s miss
