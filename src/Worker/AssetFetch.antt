-- ===== src/Worker/AssetFetch.antt =====
-- How a worker fetches an asset (`HandleAssetChunk` and what it calls, src/worker-core/task_loop.cpp): from
-- peers first, then from the coordinator, chunk by chunk, checked against its address at the end. The
-- clock is an argument in milliseconds, and so are the hash (`Blake3Hex`) and the reader of a scene
-- (`LoadBvh`). A peer link is there or not; what is sent is a list of effects.
pub mod Chunks
pub mod Buffer
pub mod Reassembly
pub mod Delivery
pub mod Events
pub mod Genuine
pub mod Service
pub mod Examples
use p2p_gpu.Base.{
  ℕ, ◌+◌, ◌-◌, ◌*◌, String, Bool, true, false, not, ◌&&◌, Option, none, some, List, [], ◌∷◌, map,
  ltb, leb, ◌==◌, if◌then◌else◌, length, get_elem?, nat_eq, bytes_key,
}
use p2p_gpu.Protocol.Ids.{WorkerId, TaskId, JobId, nil}
use p2p_gpu.Coordinator.Assets.{Hash32, hash_of}
use p2p_gpu.Coordinator.Job.Queries.{AssetSource}

pub record PendingTask : Type 0 where
  pub id : TaskId
  pub asset : List ℕ
  pub job : JobId
  pub kernel_id : String
  pub params : List ℕ
  pub start_unit : ℕ
  pub work_units : ℕ
  pub output_bytes : ℕ
  pub workgroup_size : ℕ
  pub workgroup_size_y : ℕ
  pub invocations_x : ℕ
  pub invocations_y : ℕ

pub record AssetFetch : Type 0 where
  pub address : List ℕ
  pub bytes : List ℕ
  pub have : List Bool
  pub total : ℕ
  pub expected_bytes : ℕ
  pub received : ℕ
  pub started : ℕ
  pub last_progress : ℕ

-- The arrays of a scene, as bytes.
pub record Scene : Type 0 where
  pub nodes : List ℕ
  pub prims : List ℕ
  pub materials : List ℕ

-- The fields of `TaskLoop` that a fetch touches.
pub record Loop : Type 0 where
  pub fetch : Option AssetFetch
  pub peer : Bool
  pub peer_target : WorkerId
  pub peer_candidates : List WorkerId
  pub peer_attempt : ℕ
  pub peer_attempts_made : ℕ
  pub peer_connected : Bool
  pub peer_deadline : ℕ
  pub waiting_on_asset : List PendingTask
  pub queue : List PendingTask
  pub resident_asset : List ℕ
  pub resident_bytes : List ℕ
  pub resident_scene : Scene
  pub asset_source : AssetSource
  pub assets_rejected : ℕ

-- A request to the coordinator for chunks, an offer to a peer, and a release for want of the asset.
pub data Effect : Type 0 where
  request : Hash32 → ℕ → ℕ → Effect
  offer : WorkerId → Effect
  release_task : TaskId → Effect

-- `kAssetChunkRequestBatch`, `kMaxPeerAttempts`, `kPeerPhaseTimeout`.
abbrev pub request_batch : ℕ
request_batch = 64

abbrev pub max_peer_attempts : ℕ
max_peer_attempts = 2

abbrev pub peer_phase_timeout_ms : ℕ
peer_phase_timeout_ms = 8000

-- `nibble` of `SendAssetRequest`, which takes capitals too.
unfoldable pub nibble_of : ℕ → Option ℕ
nibble_of c =
    if leb b'0' c && leb c b'9'
    then some (c - b'0')
    else if leb b'a' c && leb c b'f'
    then some (c - b'a' + 10)
    else if leb b'A' c && leb c b'F'
    then some (c - b'A' + 10)
    else none

abbrev pub joined_byte : Option ℕ → Option ℕ → Option (List ℕ) → Option (List ℕ)
joined_byte (some hi) (some lo) (some rest) = some ((16 * hi + lo) ∷ rest)
joined_byte _ _ _ = none

-- The bytes of a hexadecimal text.
unfoldable pub bytes_of_text : List ℕ → Option (List ℕ)
bytes_of_text [] = some []
bytes_of_text (c ∷ []) = none
bytes_of_text (c ∷ d ∷ text) = joined_byte (nibble_of c) (nibble_of d) (bytes_of_text text)

abbrev pub request_of : Option (List ℕ) → ℕ → ℕ → List Effect
request_of none from to = []
request_of (some id) from to = request (hash_of id) from to ∷ []

-- `SendAssetRequest`: an address that is not one is not sent.
unfoldable pub send_asset_request : List ℕ → ℕ → ℕ → List Effect
send_asset_request address from to =
    if not (length address == 64) then [] else request_of (bytes_of_text address) from to

abbrev pub without_peer : Loop → Loop
without_peer s = record s { peer = false; peer_target = nil }

-- `FallBackToCoordinator`.
abbrev pub asked : ℕ → Option AssetFetch → Loop → Loop × List Effect
asked now none s = (s, [])
asked now (some f) s = (
  record s { fetch = some (record f { last_progress = now }) },
  send_asset_request f.address 0 request_batch,
)

unfoldable pub fall_back : ℕ → Loop → Loop × List Effect
fall_back now s = asked now s.fetch (without_peer s)

-- `TryNextPeerOrFallBack`: the candidate at the attempt's number is the next target.
abbrev pub try_target : ℕ → Option WorkerId → Loop → Loop × List Effect
try_target now none s = fall_back now s
try_target now (some target) s = (
  record s {
    peer = true;
    peer_target = target;
    peer_attempt = s.peer_attempt + 1;
    peer_attempts_made =
        if ltb s.peer_attempts_made 255 then s.peer_attempts_made + 1 else s.peer_attempts_made;
    peer_deadline = now + peer_phase_timeout_ms;
  },
  offer target ∷ [],
)

abbrev pub try_for : ℕ → Option AssetFetch → Loop → Loop × List Effect
try_for now none s = (s, [])
try_for now (some f) s =
    if leb max_peer_attempts s.peer_attempt
    then fall_back now s
    else try_target now (get_elem? s.peer_candidates s.peer_attempt) s

unfoldable pub try_next_peer : ℕ → Loop → Loop × List Effect
try_next_peer now s = try_for now s.fetch s

-- `AbandonAssetFetch`: the tasks that wait for the asset are given back.
unfoldable pub abandon_asset_fetch : Loop → Loop × List Effect
abandon_asset_fetch s = (
  record (without_peer s) { fetch = none; waiting_on_asset = [] },
  map (λ (t : PendingTask). release_task t.id) s.waiting_on_asset,
)

-- The start of a fetch in `HandleTaskGrant`.
unfoldable pub begin_fetch : List ℕ → ℕ → ℕ → Loop → Loop × List Effect
begin_fetch address expected_bytes now s = try_next_peer now (record s {
  fetch = some (record {
    address = address;
    bytes = [];
    have = [];
    total = 0;
    expected_bytes = expected_bytes;
    received = 0;
    started = now;
    last_progress = now;
  });
  peer_attempt = 0;
  peer_attempts_made = 0;
  peer_connected = false;
})
