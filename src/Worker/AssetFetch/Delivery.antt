-- ===== src/Worker/AssetFetch/Delivery.antt =====
-- A worker's fetch of an asset (src/worker-core/task_loop.cpp) from an honest source: in whatever order and
-- however often its chunks arrive, the asset becomes resident once each has arrived.
use p2p_gpu.Base.{
  ℕ, ◌/◌, ◌%◌, ◌<◌, ◌≡◌, refl, sym, ap, subst, ◌∙◌, ◌⊎◌, inl, inr, Bool, true, false, Option, none,
  some, List, [], ◌∷◌, arith, ◌==◌, ==_iff, both_branches, by_cases, Bool-cases, length, get_or,
  set, All, nat_eq, bytes_eq, bytes_eq_iff, bytes_key, contains, get_or-set_self, get_or-set_other,
  pointwise, marks_le, marks_full, marks_full_iff,
}
use p2p_gpu.Protocol.Limits.{chunk_bytes}
use p2p_gpu.Worker.AssetFetch.{AssetFetch, Scene, Loop, Effect, request_batch}
use p2p_gpu.Worker.AssetFetch.Chunks.{
  expected_chunks, Fate, place_chunk, finish_asset_fetch, after_chunk, landed_chunk, sized_chunk,
  chunk_for, handle_asset_chunk,
}
use p2p_gpu.Worker.AssetFetch.Reassembly.{
  chunk_of, IsFetchable, IsPart, sized_by-fresh, sized_by-known, place_chunk-known, place_chunk-new,
}
use p2p_gpu.Protocol.Ids.{id_key}

-- The chunks that arrive, each with its time and its index, the latest first.
module _ (blake3_hex : List ℕ → List ℕ) (load_bvh : List ℕ → Option Scene) (blob : List ℕ) where
  unfoldable pub deliver : List (ℕ × ℕ) → Loop → Loop
  deliver [] s = s
  deliver ((now, i) ∷ arrivals) s =
      (handle_asset_chunk blake3_hex load_bvh now i (expected_chunks (length blob))
        (chunk_of blob i) (deliver arrivals s)).0

  abbrev pub IsResident : Loop → Type 0
  IsResident s = (s.fetch ≡ none) × (s.resident_bytes ≡ blob) × (s.resident_asset ≡ blake3_hex blob)

  -- A fetch that has just begun.
  pub record IsFresh (f : AssetFetch) : Type 0 where
    pub unsized : f.total ≡ 0
    pub empty : f.received ≡ 0
    pub size : f.expected_bytes ≡ length blob
    pub address : f.address ≡ blake3_hex blob

  record IsUnderWay (is : List ℕ) (f : AssetFetch) : Type 0 where
    part : IsPart blob f
    missing : f.received < f.total
    address : f.address ≡ blake3_hex blob
    seen : All (λ i. get_or f.have i false ≡ true) is

  data Progress (is : List ℕ) (s : Loop) : Type 0 where
    fresh : (f : AssetFetch) → s.fetch ≡ some f → IsFresh f → is ≡ [] → Progress is s
    under_way : (f : AssetFetch) → s.fetch ≡ some f → IsUnderWay is f → Progress is s
    finished : IsResident s → Progress is s

module _ (blake3_hex : List ℕ → List ℕ) (load_bvh : List ℕ → Option Scene) (blob : List ℕ)
    (ok_size : IsFetchable blob) (scene : Scene) (loads : load_bvh blob ≡ some scene) where
  whole : (f : AssetFetch) → IsPart blob f → f.received ≡ f.total → f.bytes ≡ blob
  whole f p full = pointwise f.bytes blob 0 p.bytes_long (λ k l.
      p.right k (omega (arith, p.bytes_long)) (
        marks_full f.have (k / chunk_bytes) (omega (arith, full, p.counted, p.have_long))
          (omega (arith, p.have_long, p.chunks, p.bytes_long))))

  finish_asset_fetch-IsResident :
      (now : ℕ) (f : AssetFetch) (s : Loop)
      → f.bytes ≡ blob
      → f.address ≡ blake3_hex blob
      → IsResident blake3_hex load_bvh blob (finish_asset_fetch blake3_hex load_bvh now f s).0
  unfolding finish_asset_fetch
  finish_asset_fetch-IsResident now f s e a =
      let same : bytes_eq (blake3_hex f.bytes) f.address ≡ true =
        (bytes_eq_iff (blake3_hex f.bytes) f.address).1 (ap blake3_hex e ∙ sym a) in
      let found : load_bvh f.bytes ≡ some scene = ap load_bvh e ∙ loads in
      rw (same, found) (refl, e, a)

  -- The marks of a fetch stay when one is added.
  marked_still :
      (have : List Bool) (i : ℕ) (is : List ℕ)
      → i < length have
      → All (λ j. get_or have j false ≡ true) is
      → All (λ j. get_or (set have i true) j false ≡ true) is
  marked_still have i [] l h = tt
  marked_still have i (j ∷ is) l h = (still (Bool-cases (i == j)), marked_still have i is l h.1)
    where
      still : ((i == j) ≡ true) ⊎ ((i == j) ≡ false) → get_or (set have i true) j false ≡ true
      still (inl here) =
          subst (λ n. get_or (set have i true) n false ≡ true) ((==_iff i j).0 here)
            (get_or-set_self have i true false l)
      still (inr other) = get_or-set_other have i j true false other ∙ h.0

  Ends : List ℕ → Loop × List Effect → Type 0
  Ends is r = Progress blake3_hex load_bvh blob is r.0

  after_chunk-Ends :
      (now : ℕ) (is : List ℕ) (g : AssetFetch) (s : Loop)
      → IsPart blob g
      → g.address ≡ blake3_hex blob
      → All (λ i. get_or g.have i false ≡ true) is
      → Ends is (after_chunk blake3_hex load_bvh now g s)
  unfolding Ends
  after_chunk-Ends now is g s p a seen =
      by_cases (Ends is) (g.received == g.total)
        (λ full. finished (
          finish_asset_fetch-IsResident now g (record s { fetch = some g })
            (whole g p ((==_iff g.received g.total).0 full)) a))
        (λ partial.
          both_branches (Ends is) (g.received % request_batch == 0) (waits partial) (waits partial))
    where
      waits :
          (g.received == g.total) ≡ false
          → Progress blake3_hex load_bvh blob is (record s { fetch = some g })
      waits partial = under_way g refl (record {
        part = p;
        missing = ground (arith, p.counted, p.have_long, marks_le g.have, partial);
        address = a;
        seen = seen;
      })

  landed-Ends :
      (now i : ℕ) (is : List ℕ) (f : AssetFetch) (s : Loop)
      → IsUnderWay blake3_hex load_bvh blob is f
      → i < f.total
      → Ends
          (i ∷ is)
          (landed_chunk blake3_hex load_bvh now f (place_chunk now i f.total (chunk_of blob i) f) s)
  unfolding Ends
  landed-Ends now i is f s u l = lands (Bool-cases (get_or f.have i false))
    where
      goal : Fate → Type 0
      goal fate = Ends (i ∷ is) (landed_chunk blake3_hex load_bvh now f fate s)

      lands :
          (get_or f.have i false ≡ true) ⊎ (get_or f.have i false ≡ false)
          → Ends (i ∷ is) (
              landed_chunk blake3_hex load_bvh now f
                (place_chunk now i f.total (chunk_of blob i) f)
                s)
      lands (inl there) =
          let e = place_chunk-known blob ok_size now i f u.part l there in
          subst goal (sym e) (
            under_way f refl (record {
              part = u.part;
              missing = u.missing;
              address = u.address;
              seen = (there, u.seen);
            }))
      lands (inr missing) =
          let (g, e, p, h, a) = place_chunk-new blob ok_size now i f u.part l missing in
          let inside : i < length f.have = omega (arith, u.part.have_long) in
          subst goal (sym e) (
            after_chunk-Ends now (i ∷ is) g s p (a ∙ u.address) (
              subst (λ have. All (λ j. get_or have j false ≡ true) (i ∷ is)) (sym h)
                (
                  get_or-set_self f.have i true false inside,
                  marked_still f.have i is inside u.seen,
                )))

  sized-Ends :
      (now i : ℕ) (is : List ℕ) (o : Option AssetFetch) (f : AssetFetch) (s : Loop)
      → o ≡ some f
      → IsUnderWay blake3_hex load_bvh blob is f
      → i < expected_chunks (length blob)
      → Ends (i ∷ is) (
          sized_chunk blake3_hex load_bvh now i
            (expected_chunks (length blob))
            (chunk_of blob i)
            o
            s)
  sized-Ends now i is o f s e u l =
      subst
        (λ x. Ends (i ∷ is) (
          sized_chunk blake3_hex load_bvh now i (expected_chunks (length blob)) (chunk_of blob i) x
            s))
        (sym e)
        (subst
          (λ n.
            Ends (i ∷ is)
              (landed_chunk blake3_hex load_bvh now f (place_chunk now i n (chunk_of blob i) f) s))
          u.part.chunks (landed-Ends now i is f s u (omega (arith, u.part.chunks))))

  handled-Ends :
      (now i : ℕ) (is : List ℕ) (s : Loop)
      → Progress blake3_hex load_bvh blob is s
      → i < expected_chunks (length blob)
      → Ends (i ∷ is) (
          handle_asset_chunk blake3_hex load_bvh now i
            (expected_chunks (length blob))
            (chunk_of blob i)
            s)
  unfolding handle_asset_chunk Ends
  handled-Ends now i is s (finished (no_fetch, bytes, address)) l =
      subst
        (λ o. Ends (i ∷ is) (
          chunk_for blake3_hex load_bvh now i (expected_chunks (length blob)) (chunk_of blob i) o
            s))
        (sym no_fetch) (finished (no_fetch, bytes, address))
  handled-Ends now i is s (under_way f e u) l =
      subst
        (λ o. Ends (i ∷ is) (
          chunk_for blake3_hex load_bvh now i (expected_chunks (length blob)) (chunk_of blob i) o
            s))
        (sym e) (sized-Ends now i is _ f s (sized_by-known blob ok_size _ f u.part) u l)
  handled-Ends now i is s (fresh f e new none_yet) l =
      let (g, sizes, p, empty, a) = sized_by-fresh blob ok_size f new.unsized new.empty new.size in
      subst
        (λ o. Ends (i ∷ is) (
          chunk_for blake3_hex load_bvh now i (expected_chunks (length blob)) (chunk_of blob i) o
            s))
        (sym e)
        (sized-Ends now i is _ g s sizes
          (record {
            part = p;
            missing = omega (arith, empty, p.chunks, ok_size.0);
            address = a ∙ new.address;
            seen = subst (All (λ j. get_or g.have j false ≡ true)) (sym none_yet) tt;
          })
          l)

  abbrev pub indices : List (ℕ × ℕ) → List ℕ
  indices [] = []
  indices ((now, i) ∷ arrivals) = i ∷ indices arrivals

  deliver-Progress :
      (arrivals : List (ℕ × ℕ)) (s : Loop) (f : AssetFetch)
      → s.fetch ≡ some f
      → IsFresh blake3_hex load_bvh blob f
      → All (λ i. i < expected_chunks (length blob)) (indices arrivals)
      → Progress blake3_hex load_bvh blob
          (indices arrivals)
          (deliver blake3_hex load_bvh blob arrivals s)
  unfolding deliver Ends
  deliver-Progress [] s f e new h = fresh f e new refl
  deliver-Progress ((now, i) ∷ arrivals) s f e new h =
      handled-Ends now i (indices arrivals) (deliver blake3_hex load_bvh blob arrivals s)
        (deliver-Progress arrivals s f e new h.1) h.0

  All-contains : (P : ℕ → Type 0) (is : List ℕ) (i : ℕ) → All P is → contains is i ≡ true → P i
  All-contains P [] i h c = cc
  All-contains P (j ∷ is) i h c = elim (Bool-cases (j == i)) [
    | inl here ↦ subst P ((==_iff j i).0 here) h.0
    | inr other ↦ All-contains P is i h.1 (ground (arith, c, other))
  ]

  concluded :
      (is : List ℕ) (s : Loop)
      → Progress blake3_hex load_bvh blob is s
      → ((i : ℕ) → i < expected_chunks (length blob) → contains is i ≡ true)
      → IsResident blake3_hex load_bvh blob s
  concluded is s (finished h) all = h
  concluded is s (fresh f e new none_yet) all =
      let first = all 0 (omega (arith, ok_size.0)) in absurd (ground (arith, first, none_yet))
  concluded is s (under_way f e u) all =
      let full = marks_full_iff f.have (λ i l.
        All-contains (λ j. get_or f.have j false ≡ true) is i u.seen
          (all i (omega (arith, u.part.have_long, u.part.chunks)))) in
      absurd (omega (arith, full, u.missing, u.part.counted, u.part.have_long))

  -- A worker fetches an asset of at most 256 MB whose size the coordinator gave it and which its reader of
  -- scenes takes. If all chunks that arrive are those of the asset, and each arrives at least once, in
  -- whatever order and however often, then the fetch ends with exactly the asset resident under its address.
  pub deliver-IsResident :
      (arrivals : List (ℕ × ℕ)) (s : Loop) (f : AssetFetch)
      → s.fetch ≡ some f
      → IsFresh blake3_hex load_bvh blob f
      → All (λ i. i < expected_chunks (length blob)) (indices arrivals)
      → ((i : ℕ) → i < expected_chunks (length blob) → contains (indices arrivals) i ≡ true)
      → IsResident blake3_hex load_bvh blob (deliver blake3_hex load_bvh blob arrivals s)
  deliver-IsResident arrivals s f e new h all =
      concluded (indices arrivals) (deliver blake3_hex load_bvh blob arrivals s)
        (deliver-Progress arrivals s f e new h) all
