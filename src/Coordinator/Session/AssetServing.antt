-- ===== src/Coordinator/Session/AssetServing.antt =====
-- `Session::OnAssetRequest` of src/coordinator/session.cpp.
use p2p_gpu.Base.{
  ℕ, zero, suc, ◌+◌, ◌-◌, ◌/◌, ◌%◌, min, ◌||◌, Option, none, some, List, [], ◌∷◌, map, ltb, leb,
  ◌==◌, if◌then◌else◌, u64_mod, u32_mod, length, take, drop,
}
use p2p_gpu.Protocol.Errors.{malformed_message}
use p2p_gpu.Protocol.Limits.{chunk_bytes}
use p2p_gpu.Protocol.Invariants.{chunk_offset}
use p2p_gpu.Coordinator.Assets.{AssetStore, find_asset, Hash32, address_of}
use p2p_gpu.Coordinator.Session.Messages.{asset_miss, asset_chunk, Reaction, replying, non_fatal}
use p2p_gpu.Coordinator.Session.{State}

abbrev pub max_chunks_per_request : ℕ
max_chunks_per_request = 64

-- `total_chunks`, rounded up.
unfoldable pub total_chunks : List ℕ → ℕ
total_chunks blob = (length blob + chunk_bytes - 1) / chunk_bytes

-- The bytes of a chunk that begins at an offset of the blob.
abbrev pub chunk_at : ℕ → List ℕ → List ℕ
chunk_at offset blob = take chunk_bytes (drop offset blob)

-- A round of the loop, which breaks at an offset that is too large.
abbrev pub served_from : ℕ → List ℕ → List (ℕ × List ℕ) → Option ℕ → List (ℕ × List ℕ)
served_from i blob rest none = []
served_from i blob rest (some offset) =
    if leb (length blob) offset then [] else (i, chunk_at offset blob) ∷ rest

-- The chunks of n rounds from i on, each with its index.
unfoldable pub chunks_from : ℕ → ℕ → List ℕ → List (ℕ × List ℕ)
chunks_from zero i blob = []
chunks_from (suc n) i blob = served_from i blob (chunks_from n (suc i) blob) (chunk_offset i)

unfoldable pub bytes_in : List (ℕ × List ℕ) → ℕ
bytes_in [] = 0
bytes_in ((i, bytes) ∷ chunks) = length bytes + bytes_in chunks

abbrev pub find_in : Option AssetStore → List ℕ → Option (List ℕ)
find_in none address = none
find_in (some assets) address = find_asset address assets

abbrev pub tally : ℕ → Option ℕ → Option ℕ
tally bytes none = none
tally bytes (some served) = some ((served + bytes) % u64_mod)

module _ {D : Type 0} where
  -- The range that was asked for, cut to what there is and to the request's limit.
  abbrev pub served : Hash32 → ℕ → ℕ → List ℕ → State D → State D × Reaction D
  served h from chunk_to blob s =
      let to = min chunk_to (total_chunks blob) in
      let end = min to ((from + max_chunks_per_request) % u32_mod) in
      let chunks = chunks_from (end - from) from blob in
      if leb to from then (s, replying (asset_miss h ∷ [])) else (
        record s {
          shared = record s.shared { asset_served = tally (bytes_in chunks) s.shared.asset_served };
        },
        replying (map (λ (i, bytes). asset_chunk h i (total_chunks blob) bytes) chunks),
      )

  abbrev pub serve_blob : Hash32 → ℕ → ℕ → Option (List ℕ) → State D → State D × Reaction D
  serve_blob h from chunk_to none s = (s, replying (asset_miss h ∷ []))
  serve_blob h from chunk_to (some blob) s =
      if total_chunks blob == 0 || ltb (u32_mod - 1) (total_chunks blob)
      then (s, replying (asset_miss h ∷ []))
      else served h from chunk_to blob s

  unfoldable pub on_asset_request :
      Option AssetStore → Option Hash32 → ℕ → ℕ → State D → State D × Reaction D
  on_asset_request assets none from chunk_to s =
      (s, non_fatal malformed_message "AssetRequest has no hash")
  on_asset_request assets (some h) from chunk_to s =
      serve_blob h from chunk_to (find_in assets (address_of h)) s
