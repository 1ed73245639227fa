-- ===== src/Worker/AssetFetch/Events.antt =====
-- What drives a fetch (`Poll`, `HandleTaskGrant`, `HandlePeerList`, `HandleRevoke` and `ServePeerAssetRequest`,
-- src/worker-core/task_loop.cpp), as a machine on events.
use p2p_gpu.Base.{
  ℕ, zero, suc, ◌+◌, ◌-◌, ◌%◌, min, Bool, false, not, ◌&&◌, ◌||◌, Option, none, some, List, [], ◌∷◌,
  ◌++◌, ltb, leb, ◌==◌, if◌then◌else◌, u32_mod, length, keep_if, nat_eq, bytes_eq, bytes_key,
}
use p2p_gpu.Protocol.Ids.{WorkerId, TaskId, id_eq}
use p2p_gpu.Coordinator.Assets.{Hash32, address_of}
use p2p_gpu.Coordinator.Session.AssetServing.{total_chunks, chunks_from}
use p2p_gpu.Coordinator.Job.Queries.{from_none, from_cache}
use p2p_gpu.Worker.AssetFetch.{
  PendingTask, AssetFetch, Scene, Loop, Effect, try_next_peer, abandon_asset_fetch, begin_fetch,
}
use p2p_gpu.Worker.AssetFetch.Chunks.{handle_asset_miss, handle_asset_chunk}

-- `kAssetStallTimeout`, and the limit of `HandlePeerList`.
abbrev pub asset_stall_timeout_ms : ℕ
asset_stall_timeout_ms = 20000

abbrev pub max_peer_candidates : ℕ
max_peer_candidates = 8

-- A list of peers without its empty entries, cut off.
unfoldable pub adopt_peers : ℕ → List (Option WorkerId) → List WorkerId
adopt_peers zero peers = []
adopt_peers (suc n) [] = []
adopt_peers (suc n) (none ∷ peers) = adopt_peers (suc n) peers
adopt_peers (suc n) (some w ∷ peers) = w ∷ adopt_peers n peers

unfoldable pub handle_peer_list : Option (List (Option WorkerId)) → Loop → Loop
handle_peer_list none s = record s { peer_candidates = [] }
handle_peer_list (some peers) s = record s {
  peer_candidates = adopt_peers max_peer_candidates peers;
}

-- The grant of a task that needs an asset: it can run, or it waits, and a fetch begins unless the
-- asset is on its way already.
abbrev pub is_fetching : List ℕ → Option AssetFetch → Bool
is_fetching address none = false
is_fetching address (some f) = bytes_eq f.address address

unfoldable pub grant_with_asset : PendingTask → ℕ → ℕ → Loop → Loop × List Effect
grant_with_asset t input_bytes now before =
    let s = record before { asset_source = from_none } in
    if bytes_eq t.asset s.resident_asset
    then (record s { asset_source = from_cache; queue = s.queue ++ t ∷ [] }, [])
    else let s' = record s { waiting_on_asset = s.waiting_on_asset ++ t ∷ [] } in
      if is_fetching t.asset s.fetch then (s', []) else begin_fetch t.asset input_bytes now s'

-- `HandleRevoke` takes the task off the queue.
unfoldable pub handle_revoke : TaskId → Loop → Loop
handle_revoke id s = record s { queue = keep_if (λ t. not (id_eq t.id id)) s.queue }

-- The peer's deadline in `Poll`, then the stall of the fetch.
abbrev pub peer_expired : ℕ → Option AssetFetch → Loop → Loop × List Effect
peer_expired now none s = (s, [])
peer_expired now (some f) s =
    if s.peer && ltb s.peer_deadline now
    then try_next_peer now (record s { peer = false })
    else (s, [])

abbrev pub stalled : ℕ → Option AssetFetch → Loop → Loop × List Effect
stalled now none s = (s, [])
stalled now (some f) s =
    if ltb (f.last_progress + asset_stall_timeout_ms) now then abandon_asset_fetch s else (s, [])

abbrev pub then_stalled : ℕ → Loop × List Effect → Loop × List Effect
then_stalled now (s, out) = let (s', more) = stalled now s.fetch s in (s', out ++ more)

unfoldable pub poll_fetch : ℕ → Loop → Loop × List Effect
poll_fetch now s = then_stalled now (peer_expired now s.fetch s)

-- `ServePeerAssetRequest` from the resident asset: a miss for another asset, silence for an empty range.
pub data Served : Type 0 where
  nothing : Served
  miss : Served
  chunks : ℕ → List (ℕ × List ℕ) → Served

abbrev pub serve_range : ℕ → ℕ → List ℕ → Served
serve_range from chunk_to bytes =
    let to = min chunk_to (total_chunks bytes) in
    let end = min to ((from + 64) % u32_mod) in
    if leb to from
    then nothing
    else chunks (total_chunks bytes % u32_mod) (chunks_from (end - from) from bytes)

unfoldable pub serve_peer : Option Hash32 → ℕ → ℕ → Loop → Served
serve_peer none from chunk_to s = nothing
serve_peer (some h) from chunk_to s =
    if length s.resident_asset == 0 || length s.resident_bytes == 0
    then nothing
    else if not (bytes_eq (address_of h) s.resident_asset)
    then miss
    else serve_range from chunk_to s.resident_bytes

pub data Happening : Type 0 where
  granted : PendingTask → ℕ → ℕ → Happening
  peers_listed : Option (List (Option WorkerId)) → Happening
  revoked : TaskId → Happening
  arrived : ℕ → ℕ → ℕ → List ℕ → Happening
  missed : ℕ → Happening
  polled : ℕ → Happening

module _ (blake3_hex : List ℕ → List ℕ) (load_bvh : List ℕ → Option Scene) where
  unfoldable pub react : Happening → Loop → Loop × List Effect
  react (granted t input_bytes now) s = grant_with_asset t input_bytes now s
  react (peers_listed peers) s = (handle_peer_list peers s, [])
  react (revoked id) s = (handle_revoke id s, [])
  react (arrived now index total bytes) s =
      handle_asset_chunk blake3_hex load_bvh now index total bytes s
  react (missed now) s = handle_asset_miss now s
  react (polled now) s = poll_fetch now s

  unfoldable pub live_on : List Happening → Loop → Loop
  live_on [] s = s
  live_on (e ∷ es) s = live_on es (react e s).0
