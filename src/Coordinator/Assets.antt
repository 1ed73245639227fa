-- ===== src/Coordinator/Assets.antt =====
-- The content-addressed store of bulk inputs (src/coordinator/assets.cpp,
-- include/p2pgpu/coordinator/assets.hpp), and the three places that convert an asset's identity:
-- `AdoptCachedAssets`, the grant and `OnAssetRequest` of src/coordinator/session.cpp. An address is the
-- list of its characters' codes; the content address of a blob, a BLAKE3 hash, is an argument.
pub mod Examples
pub mod Addresses
use p2p_gpu.Base.{
  bytes_key, ℕ, zero, suc, ◌+◌, ◌-◌, ◌*◌, ◌/◌, ◌%◌, Bool, ◌&&◌, ◌||◌, Option, none, some, List, [],
  ◌∷◌, ◌++◌, ltb, leb, ◌==◌, if◌then◌else◌, u64_mod, length, take, drop, all_of, lookup, emplace,
}
use p2p_gpu.Coordinator.Affinity.{AssetId}

pub record AssetStore : Type 0 where
  pub blobs : List (List ℕ × List ℕ)
  pub total_bytes : ℕ
  pub bytes_served : ℕ

-- A digit or a lower-case hexadecimal letter.
abbrev pub is_hex_char : ℕ → Bool
is_hex_char c = leb b'0' c && leb c b'9' || leb b'a' c && leb c b'f'

unfoldable pub is_well_formed_address : List ℕ → Bool
is_well_formed_address hash = length hash == 64 && all_of is_hex_char hash

unfoldable pub find_asset : List ℕ → AssetStore → Option (List ℕ)
unfolding is_well_formed_address
find_asset hash s = if is_well_formed_address hash then lookup hash s.blobs else none

abbrev pub counted : Option (List ℕ) → List ℕ → AssetStore → AssetStore
counted (some old) bytes s = s
counted none bytes s = record s { total_bytes = (s.total_bytes + length bytes) % u64_mod }

-- `Put`, which keeps a blob that is already there.
unfoldable pub put_asset : (List ℕ → List ℕ) → List ℕ → AssetStore → AssetStore
put_asset content_address bytes s =
    let address = content_address bytes in
    record (counted (lookup address s.blobs) bytes s) { blobs = emplace address bytes s.blobs }

unfoldable pub record_served : ℕ → AssetStore → AssetStore
record_served bytes s = record s { bytes_served = (s.bytes_served + bytes) % u64_mod }

-- `kHex[v]`.
abbrev pub hex_digit : ℕ → ℕ
hex_digit v = if ltb v 10 then b'0' + v else b'a' + (v - 10)

-- The grant's address of an asset: two digits for each byte, the high half first.
unfoldable pub hex_of : List ℕ → List ℕ
hex_of [] = []
hex_of (b ∷ bytes) = hex_digit (b / 16) ∷ hex_digit (b % 16) ∷ hex_of bytes

-- The lambda `nibble`.
abbrev pub nibble : ℕ → ℕ
nibble c = if leb c b'9' then c - b'0' else c - b'a' + 10

-- The bytes of a well-formed address.
unfoldable pub bytes_of_hex : List ℕ → List ℕ
bytes_of_hex (h ∷ l ∷ hex) = (nibble h * 16 + nibble l) ∷ bytes_of_hex hex
bytes_of_hex _ = []

-- Eight bytes as a lane of `Hash32`, the lowest byte first.
unfoldable pub lane_of : List ℕ → ℕ
lane_of [] = 0
lane_of (b ∷ bytes) = b + 256 * lane_of bytes

pub record Hash32 : Type 0 where
  pub a : ℕ
  pub b : ℕ
  pub c : ℕ
  pub d : ℕ

unfoldable pub hash_of : AssetId → Hash32
unfolding lane_of
hash_of id = record {
  a = lane_of (take 8 id);
  b = lane_of (take 8 (drop 8 id));
  c = lane_of (take 8 (drop 16 id));
  d = lane_of (take 8 (drop 24 id));
}

-- The bytes of a lane, the lowest first, as many as are asked for.
unfoldable pub lane_bytes : ℕ → ℕ → List ℕ
lane_bytes zero lane = []
lane_bytes (suc n) lane = (lane % 256) ∷ lane_bytes n (lane / 256)

-- `OnAssetRequest`'s address of a hash.
unfoldable pub address_of : Hash32 → List ℕ
unfolding hex_of lane_bytes
address_of h =
    hex_of (lane_bytes 8 h.a ++ (lane_bytes 8 h.b ++ (lane_bytes 8 h.c ++ lane_bytes 8 h.d)))

abbrev pub max_advertised_assets : ℕ
max_advertised_assets = 32

-- The loop of `AdoptCachedAssets`: a malformed entry is dropped.
unfoldable pub adopted_assets : List (List ℕ) → List AssetId
unfolding is_well_formed_address bytes_of_hex
adopted_assets [] = []
adopted_assets (hex ∷ entries) =
    if is_well_formed_address hex
    then bytes_of_hex hex ∷ adopted_assets entries
    else adopted_assets entries

-- `AdoptCachedAssets`: what replaces the record's list; at most 32 entries are read.
unfoldable pub adopt_cached_assets : Option (List (List ℕ)) → List AssetId
unfolding adopted_assets
adopt_cached_assets none = []
adopt_cached_assets (some advertised) = adopted_assets (take max_advertised_assets advertised)
