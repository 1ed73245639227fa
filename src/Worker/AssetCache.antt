-- ===== src/Worker/AssetCache.antt =====
-- The worker's content-addressed cache (src/worker-core/asset_cache.cpp,
-- include/p2pgpu/worker/asset_cache.hpp). The hash is a parameter (BLAKE3 is a library of its own), and
-- so is the fetcher, which the host injects. An address is its text as a list of bytes. The map is in
-- the order of insertion, where the source's is sorted by address.
pub mod Eviction
pub mod Integrity
mod Examples
use p2p_gpu.Base.{
  ℕ, zero, suc, ◌+◌, ◌-◌, ◌%◌, Bool, not, ◌&&◌, Option, none, some, List, [], ◌∷◌, ltb, ◌==◌,
  if◌then◌else◌, is_some, u64_mod, u32_mod, length, bytes_eq, bytes_key, lookup, remove, emplace,
  keys,
}

abbrev pub Address : Type 0
Address = List ℕ

pub record Entry : Type 0 where
  pub bytes : List ℕ
  pub inserted_at : ℕ

pub record AssetCache : Type 0 where
  pub max_bytes : ℕ
  pub resident : ℕ
  pub rejected : ℕ
  pub tick : ℕ
  pub entries : List (Address × Entry)

abbrev pub new_cache : ℕ → AssetCache
new_cache max_bytes = record {
  max_bytes = max_bytes;
  resident = 0;
  rejected = 0;
  tick = 0;
  entries = [];
}

abbrev pub has : Address → AssetCache → Bool
has address c = is_some (lookup address c.entries)

abbrev pub cached : AssetCache → List Address
cached c = keys c.entries

abbrev pub clear : AssetCache → AssetCache
clear c = record c { entries = []; resident = 0 }

-- The loop that looks for the entry with the least tick; the first of equals stays.
unfoldable pub oldest_from : Address × Entry → List (Address × Entry) → Address × Entry
oldest_from best [] = best
oldest_from best (e ∷ es) =
    oldest_from (if ltb e.1.inserted_at best.1.inserted_at then e else best) es

-- One round of the eviction: the oldest entry goes.
unfoldable pub evict_from : List (Address × Entry) → AssetCache → AssetCache
unfolding oldest_from
evict_from [] c = c
evict_from (e ∷ es) c =
    let out = oldest_from e (e ∷ es) in
    record c {
      resident = (c.resident + (u64_mod - length out.1.bytes)) % u64_mod;
      entries = remove out.0 c.entries;
    }

abbrev pub evict_oldest : AssetCache → AssetCache
evict_oldest c = evict_from c.entries c

abbrev pub is_full : ℕ → AssetCache → Bool
is_full incoming c = ltb c.max_bytes ((c.resident + incoming) % u64_mod)

abbrev pub is_vacant : AssetCache → Bool
is_vacant c = length c.entries == 0

-- `EvictUntilRoomFor`, with a round of fuel for each entry.
unfoldable pub evict : ℕ → ℕ → AssetCache → AssetCache
unfolding evict_from
evict zero incoming c = c
evict (suc fuel) incoming c =
    let rest = evict fuel incoming (evict_oldest c) in
    if is_full incoming c && not (is_vacant c) then rest else c

abbrev pub evict_until_room_for : ℕ → AssetCache → AssetCache
evict_until_room_for incoming c = evict (length c.entries) incoming c

module _ (blake3_hex : List ℕ → Address) (fetch : Option (Address → Option (List ℕ))) where
  abbrev pub store : Address → List ℕ → AssetCache → AssetCache × Option (List ℕ)
  store address bytes c = (
    record c {
      entries = emplace address (record { bytes = bytes; inserted_at = c.tick }) c.entries;
      tick = (c.tick + 1) % u64_mod;
      resident = (c.resident + length bytes) % u64_mod;
    },
    some bytes,
  )

  -- The checks on what was fetched.
  unfoldable pub admit : Address → List ℕ → AssetCache → AssetCache × Option (List ℕ)
  unfolding evict
  admit address bytes c =
      if not (bytes_eq (blake3_hex bytes) address)
      then (record c { rejected = (c.rejected + 1) % u32_mod }, none)
      else if ltb c.max_bytes (length bytes)
      then (c, none)
      else store address bytes (evict_until_room_for (length bytes) c)

  abbrev pub fetch_from : Option (Address → Option (List ℕ)) → Address → Option (List ℕ)
  fetch_from none address = none
  fetch_from (some f) address = f address

  abbrev pub take_in : Address → Option (List ℕ) → AssetCache → AssetCache × Option (List ℕ)
  take_in address none c = (c, none)
  take_in address (some bytes) c = admit address bytes c

  unfoldable pub get : Address → AssetCache → AssetCache × Option (List ℕ)
  unfolding admit
  get address c = elim (lookup address c.entries) [
    | some e ↦ (c, some e.bytes)
    | none ↦ take_in address (fetch_from fetch address) c
  ]
