-- ===== src/Worker/AssetFetch/Examples.antt =====
-- A fetch of three bytes, with the bytes themselves for a hash.
use p2p_gpu.Base.{ℕ, refl, inl, true, Option, some, List, [], ◌∷◌, arith, nat_eq, bytes_key}
use p2p_gpu.Coordinator.Samples.{alice, bob}
use p2p_gpu.Coordinator.Job.Queries.{from_none}
use p2p_gpu.Worker.AssetFetch.{AssetFetch, Scene, Loop}
use p2p_gpu.Worker.AssetFetch.Delivery.{deliver, IsResident, deliver-IsResident}
use p2p_gpu.Worker.AssetFetch.Events.{Happening, arrived, polled, live_on}
use p2p_gpu.Worker.AssetFetch.Genuine.{IsGenuine, live_on-IsGenuine}

abbrev three : List ℕ
three = 1 ∷ 2 ∷ 3 ∷ []

abbrev plain_hash : List ℕ → List ℕ
plain_hash bytes = bytes

abbrev read_scene : List ℕ → Option Scene
read_scene bytes = some (record { nodes = bytes; prims = []; materials = [] })

abbrev waiting_fetch : AssetFetch
waiting_fetch = record {
  address = three;
  bytes = [];
  have = [];
  total = 0;
  expected_bytes = 3;
  received = 0;
  started = 0;
  last_progress = 0;
}

abbrev idle : Loop
idle = record {
  fetch = some waiting_fetch;
  peer = true;
  peer_target = alice;
  peer_candidates = alice ∷ bob ∷ [];
  peer_attempt = 1;
  peer_attempts_made = 1;
  peer_connected = true;
  peer_deadline = 8000;
  waiting_on_asset = [];
  queue = [];
  resident_asset = [];
  resident_bytes = [];
  resident_scene = record { nodes = []; prims = []; materials = [] };
  asset_source = from_none;
  assets_rejected = 0;
}

-- Its one chunk arrives twice.
deliver-IsResident_example :
    IsResident plain_hash read_scene three
      (deliver plain_hash read_scene three ((5, 0) ∷ (4, 0) ∷ []) idle)
deliver-IsResident_example =
    deliver-IsResident plain_hash read_scene three (omega arith, omega arith)
      (record { nodes = three; prims = []; materials = [] }) refl ((5, 0) ∷ (4, 0) ∷ []) idle
      waiting_fetch refl (record { unsized = refl; empty = refl; size = refl; address = refl })
      (omega arith, (omega arith, tt)) (λ i l. ground arith)

-- A wrong chunk of the right length from a peer, a timeout, and the right one.
abbrev attack : List Happening
attack = arrived 3 0 1 (9 ∷ 9 ∷ 9 ∷ []) ∷ polled 9000 ∷ arrived 9500 0 1 three ∷ []

live_on-IsGenuine_example :
    IsGenuine plain_hash read_scene (live_on plain_hash read_scene attack idle)
live_on-IsGenuine_example = live_on-IsGenuine plain_hash read_scene attack idle (inl refl)
