-- ===== src/Worker/AssetFetch/Genuine.antt =====
-- The resident asset of a worker (src/worker-core/task_loop.cpp) is what its address names, whoever sent it.
use p2p_gpu.Base.{
  ℕ, ◌+◌, ◌%◌, ◌≡◌, refl, ◌⊎◌, inr, true, false, not, ◌&&◌, Option, none, some, List, [], ◌∷◌, ltb,
  leb, ◌==◌, true_of_not, both_branches, by_cases, get_elem?, bytes_eq, bytes_eq_iff, bytes_key,
}
use p2p_gpu.Protocol.Ids.{WorkerId}
use p2p_gpu.Worker.AssetFetch.{
  AssetFetch, Scene, Loop, Effect, request_batch, max_peer_attempts, without_peer, asked, fall_back,
  try_target, try_for, try_next_peer, abandon_asset_fetch, begin_fetch,
}
use p2p_gpu.Worker.AssetFetch.Chunks.{
  sized_by, Fate, bad, duplicate, stored, place_chunk, reject_and_retry, handle_asset_miss, loaded,
  finish_asset_fetch, landed_chunk, sized_chunk, chunk_for, handle_asset_chunk,
}
use p2p_gpu.Worker.AssetFetch.Events.{
  asset_stall_timeout_ms, handle_peer_list, is_fetching, grant_with_asset, handle_revoke,
  peer_expired, stalled, then_stalled, poll_fetch, Happening, granted, peers_listed, revoked,
  arrived, missed, polled, react, live_on,
}

module _ (blake3_hex : List ℕ → List ℕ) (load_bvh : List ℕ → Option Scene) where
  -- No asset is resident, or its bytes have its address as their hash and read as the scene in use.
  abbrev pub IsGenuine : Loop → Type 0
  IsGenuine s =
      (s.resident_asset ≡ [])
      ⊎ ((blake3_hex s.resident_bytes ≡ s.resident_asset)
          × (load_bvh s.resident_bytes ≡ some s.resident_scene))

  -- An answer that leaves a genuine asset.
  Leaves : Loop × List Effect → Type 0
  Leaves r = IsGenuine r.0

  fall_back-Leaves : (now : ℕ) (s : Loop) → IsGenuine s → Leaves (fall_back now s)
  unfolding fall_back Leaves
  fall_back-Leaves now s h = asks s.fetch
    where
      asks : (o : Option AssetFetch) → Leaves (asked now o (without_peer s))
      asks none = h
      asks (some f) = h

  try_next_peer-Leaves : (now : ℕ) (s : Loop) → IsGenuine s → Leaves (try_next_peer now s)
  unfolding try_next_peer Leaves
  try_next_peer-Leaves now s h = tries s.fetch
    where
      targets : (o : Option WorkerId) → Leaves (try_target now o s)
      targets none = fall_back-Leaves now s h
      targets (some w) = h

      tries : (o : Option AssetFetch) → Leaves (try_for now o s)
      tries none = h
      tries (some f) =
          both_branches Leaves (leb max_peer_attempts s.peer_attempt) (fall_back-Leaves now s h)
            (targets (get_elem? s.peer_candidates s.peer_attempt))

  abandon_asset_fetch-Leaves : (s : Loop) → IsGenuine s → Leaves (abandon_asset_fetch s)
  unfolding abandon_asset_fetch Leaves
  abandon_asset_fetch-Leaves s h = h

  reject_and_retry-Leaves :
      (now : ℕ) (f : AssetFetch) (s : Loop) → IsGenuine s → Leaves (reject_and_retry now f s)
  unfolding reject_and_retry
  reject_and_retry-Leaves now f s h =
      both_branches Leaves (not s.peer) (abandon_asset_fetch-Leaves s h)
        (try_next_peer-Leaves now _ h)

  finish_asset_fetch-Leaves :
      (now : ℕ) (f : AssetFetch) (s : Loop)
      → IsGenuine s
      → Leaves (finish_asset_fetch blake3_hex load_bvh now f s)
  unfolding finish_asset_fetch Leaves
  finish_asset_fetch-Leaves now f s h =
      by_cases Leaves (not (bytes_eq (blake3_hex f.bytes) f.address))
        (λ _. reject_and_retry-Leaves now f s h)
        (λ same. loads (load_bvh f.bytes) refl (true_of_not _ same))
    where
      loads :
          (o : Option Scene)
          → load_bvh f.bytes ≡ o
          → bytes_eq (blake3_hex f.bytes) f.address ≡ true
          → Leaves (loaded blake3_hex load_bvh now f o s)
      loads none e same = reject_and_retry-Leaves now f s h
      loads (some scene) e same = inr ((bytes_eq_iff (blake3_hex f.bytes) f.address).0 same, e)

  handle_asset_chunk-Leaves :
      (now index total : ℕ) (src : List ℕ) (s : Loop)
      → IsGenuine s
      → Leaves (handle_asset_chunk blake3_hex load_bvh now index total src s)
  unfolding handle_asset_chunk Leaves
  handle_asset_chunk-Leaves now index total src s h = arrives s.fetch
    where
      lands :
          (f : AssetFetch) (fate : Fate) → Leaves (landed_chunk blake3_hex load_bvh now f fate s)
      lands f bad = abandon_asset_fetch-Leaves s h
      lands f duplicate = h
      lands f (stored g) =
          both_branches Leaves (g.received == g.total)
            (finish_asset_fetch-Leaves now g (record s { fetch = some g }) h)
            (both_branches Leaves (g.received % request_batch == 0) h h)

      sizes :
          (o : Option AssetFetch) → Leaves (sized_chunk blake3_hex load_bvh now index total src o s)
      sizes none = abandon_asset_fetch-Leaves s h
      sizes (some f) = lands f (place_chunk now index total src f)

      arrives :
          (o : Option AssetFetch) → Leaves (chunk_for blake3_hex load_bvh now index total src o s)
      arrives none = h
      arrives (some f) = sizes (sized_by total f)

  poll_fetch-Leaves : (now : ℕ) (s : Loop) → IsGenuine s → Leaves (poll_fetch now s)
  unfolding poll_fetch Leaves
  poll_fetch-Leaves now s h = stalls (peer_expired now s.fetch s) (expires s.fetch)
    where
      expires : (o : Option AssetFetch) → Leaves (peer_expired now o s)
      expires none = h
      expires (some f) =
          both_branches Leaves (s.peer && ltb s.peer_deadline now)
            (try_next_peer-Leaves now (record s { peer = false }) h) h

      gives_up : (t : Loop) (o : Option AssetFetch) → IsGenuine t → Leaves (stalled now o t)
      gives_up t none g = g
      gives_up t (some f) g =
          both_branches Leaves (ltb (f.last_progress + asset_stall_timeout_ms) now)
            (abandon_asset_fetch-Leaves t g) g

      stalls : (r : Loop × List Effect) → Leaves r → Leaves (then_stalled now r)
      stalls (t, out) g = gives_up t t.fetch g

  react-Leaves : (e : Happening) (s : Loop) → IsGenuine s → Leaves (react blake3_hex load_bvh e s)
  unfolding react grant_with_asset begin_fetch handle_peer_list handle_revoke handle_asset_miss
      Leaves
  react-Leaves (granted t input_bytes now) s h =
      both_branches Leaves (bytes_eq t.asset s.resident_asset) h
        (both_branches Leaves (is_fetching t.asset s.fetch) h (try_next_peer-Leaves now _ h))
  react-Leaves (peers_listed none) s h = h
  react-Leaves (peers_listed (some peers)) s h = h
  react-Leaves (revoked id) s h = h
  react-Leaves (arrived now index total bytes) s h =
      handle_asset_chunk-Leaves now index total bytes s h
  react-Leaves (missed now) s h =
      both_branches Leaves s.peer (try_next_peer-Leaves now (record s { peer = false }) h)
        (abandon_asset_fetch-Leaves s h)
  react-Leaves (polled now) s h = poll_fetch-Leaves now s h

  -- Whatever grants, lists of peers, chunks, misses, revokes and timeouts a worker meets, from peers or from
  -- the coordinator: if the resident asset was genuine before, it is genuine afterwards, that is, none is
  -- resident or its bytes hash to its address and are the scene in use.
  pub live_on-IsGenuine :
      (es : List Happening) (s : Loop) → IsGenuine s → IsGenuine (live_on blake3_hex load_bvh es s)
  unfolding live_on Leaves
  live_on-IsGenuine [] s h = h
  live_on-IsGenuine (e ∷ es) s h =
      live_on-IsGenuine es (react blake3_hex load_bvh e s).0 (react-Leaves e s h)
