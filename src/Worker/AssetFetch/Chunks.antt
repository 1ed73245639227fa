-- ===== src/Worker/AssetFetch/Chunks.antt =====
-- A chunk arrives, an asset is missed, a fetch ends (`RequestAssetChunks`, `HandleAssetChunk`,
-- `HandleAssetMiss`, `FinishAssetFetch` and `RejectBytesAndRetry`, src/worker-core/task_loop.cpp).
use p2p_gpu.Base.{
  ℕ, suc, ◌+◌, ◌-◌, ◌*◌, ◌/◌, ◌%◌, min, Bool, true, false, not, ◌||◌, Option, none, some, List, [],
  ◌∷◌, ◌++◌, map, ltb, ◌==◌, if◌then◌else◌, u32_mod, length, get_or, set, take, drop, keep_if,
  nat_eq, bytes_eq, bytes_key, replicate,
}
use p2p_gpu.Protocol.Limits.{chunk_bytes, max_asset_bytes}
use p2p_gpu.Protocol.Errors.{has_value}
use p2p_gpu.Protocol.Invariants.{chunk_offset, check_asset_chunk}
use p2p_gpu.Coordinator.Job.Queries.{from_peer, from_coordinator}
use p2p_gpu.Worker.AssetFetch.{
  PendingTask, AssetFetch, Scene, Loop, Effect, release_task, request_batch, send_asset_request,
  without_peer, try_next_peer, abandon_asset_fetch,
}

-- The index of the first chunk that is not there, counted from i.
unfoldable pub first_missing : ℕ → List Bool → Option ℕ
first_missing i [] = none
first_missing i (false ∷ have) = some i
first_missing i (true ∷ have) = first_missing (suc i) have

abbrev pub request_from : AssetFetch → Option ℕ → List Effect
request_from f none = []
request_from f (some i) =
    send_asset_request f.address i (min f.total ((i + request_batch) % u32_mod))

unfoldable pub request_chunks : AssetFetch → List Effect
request_chunks f = request_from f (first_missing 0 f.have)

-- The first chunk settles how many there are, from the coordinator's size alone; `none` abandons.
abbrev pub expected_chunks : ℕ → ℕ
expected_chunks n = (n + chunk_bytes - 1) / chunk_bytes

unfoldable pub sized_by : ℕ → AssetFetch → Option AssetFetch
sized_by total f =
    if not (f.total == 0)
    then some f
    else if f.expected_bytes == 0 || ltb max_asset_bytes f.expected_bytes
    then none
    else if not (total == expected_chunks f.expected_bytes)
    then none
    else some (record f {
      total = expected_chunks f.expected_bytes;
      have = replicate (expected_chunks f.expected_bytes) false;
      bytes = replicate f.expected_bytes 0;
    })

-- `std::copy` to an offset of the buffer.
abbrev pub write_at : ℕ → List ℕ → List ℕ → List ℕ
write_at offset src bytes = take offset bytes ++ (src ++ drop (offset + length src) bytes)

-- The length that a chunk must have at its place.
abbrev pub wanted : ℕ → AssetFetch → ℕ
wanted index f =
    if index + 1 == f.total then f.expected_bytes - (f.total - 1) * chunk_bytes else chunk_bytes

-- What becomes of a chunk: the fetch is abandoned, the chunk is there already, or it is stored.
pub data Fate : Type 0 where
  bad : Fate
  duplicate : Fate
  stored : AssetFetch → Fate

abbrev pub stored_at : ℕ → ℕ → List ℕ → ℕ → AssetFetch → Fate
stored_at now index src offset f = stored (record f {
  bytes = write_at offset src f.bytes;
  have = set f.have index true;
  received = (f.received + 1) % u32_mod;
  last_progress = now;
})

abbrev pub place_chunk_at : ℕ → ℕ → List ℕ → Option ℕ → AssetFetch → Fate
place_chunk_at now index src none f = bad
place_chunk_at now index src (some offset) f =
    if ltb (length f.bytes) (offset + length src)
    then bad
    else if get_or f.have index false
    then duplicate
    else if not (length src == wanted index f)
    then bad
    else stored_at now index src offset f

unfoldable pub place_chunk : ℕ → ℕ → ℕ → List ℕ → AssetFetch → Fate
place_chunk now index total src f =
    if not (has_value (check_asset_chunk index total f.total (length src)))
    then bad
    else place_chunk_at now index src (chunk_offset index) f

-- `RejectBytesAndRetry`: what a peer sent is thrown away and the next source tried.
unfoldable pub reject_and_retry : ℕ → AssetFetch → Loop → Loop × List Effect
reject_and_retry now f s =
    if not s.peer
    then abandon_asset_fetch s
    else try_next_peer now (record s {
      assets_rejected = (s.assets_rejected + 1) % u32_mod;
      fetch = some (record f {
        bytes = replicate (length f.bytes) 0;
        have = replicate (length f.have) false;
        received = 0;
        last_progress = now;
      });
    })

-- The parked tasks: those of the asset can run, the others are given back.
abbrev pub is_for : List ℕ → PendingTask → Bool
is_for address t = bytes_eq t.asset address

abbrev pub unparked : AssetFetch → Scene → Loop → Loop × List Effect
unparked f scene s = (
  record (without_peer s) {
    resident_bytes = f.bytes;
    resident_scene = scene;
    resident_asset = f.address;
    asset_source = if s.peer then from_peer else from_coordinator;
    fetch = none;
    queue = s.queue ++ keep_if (is_for f.address) s.waiting_on_asset;
    waiting_on_asset = [];
  },
  map (λ (t : PendingTask). release_task t.id)
      (keep_if (λ t. not (is_for f.address t)) s.waiting_on_asset),
)

unfoldable pub handle_asset_miss : ℕ → Loop → Loop × List Effect
handle_asset_miss now s =
    if s.peer then try_next_peer now (record s { peer = false }) else abandon_asset_fetch s

module _ (blake3_hex : List ℕ → List ℕ) (load_bvh : List ℕ → Option Scene) where
  abbrev pub loaded : ℕ → AssetFetch → Option Scene → Loop → Loop × List Effect
  loaded now f none s = reject_and_retry now f s
  loaded now f (some scene) s = unparked f scene s

  -- `FinishAssetFetch`: the hash first, then the structure.
  unfoldable pub finish_asset_fetch : ℕ → AssetFetch → Loop → Loop × List Effect
  finish_asset_fetch now f s =
      if not (bytes_eq (blake3_hex f.bytes) f.address)
      then reject_and_retry now f s
      else loaded now f (load_bvh f.bytes) s

  abbrev pub after_chunk : ℕ → AssetFetch → Loop → Loop × List Effect
  after_chunk now f s =
      let s' = record s { fetch = some f } in
      if f.received == f.total
      then finish_asset_fetch now f s'
      else if f.received % request_batch == 0
      then (s', request_chunks f)
      else (s', [])

  abbrev pub landed_chunk : ℕ → AssetFetch → Fate → Loop → Loop × List Effect
  landed_chunk now f bad s = abandon_asset_fetch s
  landed_chunk now f duplicate s = (record s { fetch = some f }, [])
  landed_chunk now f (stored g) s = after_chunk now g s

  abbrev pub sized_chunk : ℕ → ℕ → ℕ → List ℕ → Option AssetFetch → Loop → Loop × List Effect
  sized_chunk now index total src none s = abandon_asset_fetch s
  sized_chunk now index total src (some f) s =
      landed_chunk now f (place_chunk now index total src f) s

  abbrev pub chunk_for : ℕ → ℕ → ℕ → List ℕ → Option AssetFetch → Loop → Loop × List Effect
  chunk_for now index total src none s = (s, [])
  chunk_for now index total src (some f) s = sized_chunk now index total src (sized_by total f) s

  -- `HandleAssetChunk` of a chunk with bytes.
  unfoldable pub handle_asset_chunk : ℕ → ℕ → ℕ → List ℕ → Loop → Loop × List Effect
  handle_asset_chunk now index total src s = chunk_for now index total src s.fetch s
